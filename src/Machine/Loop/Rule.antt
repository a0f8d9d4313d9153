-- ===== src/Machine/Loop/Rule.antt =====
-- The rule for `repeat_nbr`: an invariant that counts the rounds, and what a negative count does.
use msdk_linux.Base.{
  ℕ, pos, negsuc, suc, ℤ, ◌-ℤ◌, ◌≢◌, ◌+◌, ◌≡◌, ◌⊎◌, ◌<◌, eqb_ℤ, int_laws, minus_one, arith, false,
  inl, zero, refl, inr, if◌then◌else◌, ◌==◌, Bool-cases, sym,
}
use msdk_linux.Machine.State.{World}
use msdk_linux.Machine.Ends.{
  Returns, Returns-done, Ensures, Ensures-bind, Keeps, Keeps-if, Keeps-bind, Total, Total-if,
  Total-bind,
}
use msdk_linux.Machine.Loop.{repeat_nbr, least_int}
use msdk_linux.Machine.{Prog, ◌>>=◌, done, ◌>>◌, return, undefined_here}
use native.Mathlib.Nat.{add-zero}
use mathlib.Core.Path.{subst, sym}

pred_pos : (n : ℕ) → pos (suc n) -ℤ pos 1 ≡ pos n
pred_pos n = omega int_laws

pred_neg : (n : ℕ) → negsuc n -ℤ pos 1 ≡ negsuc (suc n)
pred_neg n = omega int_laws

eqb-zero : (r : ℤ) → r ≢ pos 0 → eqb_ℤ r (pos 0) ≡ false
eqb-zero (pos zero) ne = absurd (ne refl)
eqb-zero (pos (suc n)) ne = ground arith
eqb-zero (negsuc n) ne = ground arith

eqb-suc : (n : ℕ) → eqb_ℤ (pos (suc n)) (pos 0) ≡ false
eqb-suc n = ground arith

eqb-negsuc : (n : ℕ) → eqb_ℤ (negsuc n) (pos 0) ≡ false
eqb-negsuc n = ground arith

eqb-least_int : (n : ℕ) → eqb_ℤ (pos n) least_int ≡ false
eqb-least_int n = ground arith

-- One round of the loop, once its body has ended.
module _ (f n : ℕ) (body : Prog ℤ) (pause : Prog (Unit {0})) (w w1 : World) where
  repeat_nbr-stops :
      (r : ℤ)
      → body w ≡ done r w1
      → r ≢ pos 0
      → repeat_nbr (suc f) body pause (pos (suc n)) w ≡ done minus_one w1
  unfolding repeat_nbr
  repeat_nbr-stops r e ne = rw (eqb-suc n, e, ◌>>=◌) (rw (eqb-zero r ne))

  repeat_nbr-goes_on :
      (r : ℤ)
      → body w ≡ done r w1
      → r ≡ pos 0
      → repeat_nbr (suc f) body pause (pos (suc n)) w
        ≡ (if n == 0
              then repeat_nbr f body pause (pos n)
              else (pause >> repeat_nbr f body pause (pos n)))
            w1
  unfolding repeat_nbr
  repeat_nbr-goes_on r e z =
      rw (eqb-suc n, e, ◌>>=◌) (rw z (rw (eqb-least_int (suc n)) (rw (pred_pos n) (rw add-zero))))

regroup : (k n : ℕ) → k + 1 + n ≡ k + suc n
regroup k n = omega arith

module _ (P : ℕ → World → Type 0) (body : Prog ℤ) (pause : Prog (Unit {0})) where
  -- A round went well and counts, or it did not.
  abbrev pub Round : ℕ → ℤ → World → Type 0
  Round k r w = ((r ≡ pos 0) × P k w) ⊎ (r ≢ pos 0)

  -- How the whole loop ends.
  abbrev pub Ended : ℕ → ℤ → World → Type 0
  Ended k r w = ((r ≡ pos 0) × P k w) ⊎ (r ≡ minus_one)

  module _ (round : (k : ℕ) (w : World) → P k w → Returns (body w) (Round (k + 1)))
      (pausing : (k : ℕ) (w : World) → P k w → Returns (pause w) (λ _ w'. P k w')) where
    pub repeat_nbr-Ended :
        (f n k : ℕ) (w : World)
        → n < f
        → P k w
        → Returns (repeat_nbr f body pause (pos n) w) (Ended (k + n))
    repeat_nbr-Ended zero n k w lt p = absurd (omega arith)
    repeat_nbr-Ended (suc f) zero k w lt p = unfold repeat_nbr in inl (refl, rw add-zero p)
    repeat_nbr-Ended (suc f) (suc n) k w lt p =
        let (r, w1, e, t) = Returns-done (Round (k + 1)) (body w) (round k w p) in
        let rest = λ (w' : World) (q : P (k + 1) w').
          subst (λ m. Returns (repeat_nbr f body pause (pos n) w') (Ended m)) (regroup k n)
            (repeat_nbr-Ended f n (k + 1) w' (omega arith) q) in
        elim t [
          | inl (z, q) ↦
              rw (repeat_nbr-goes_on f n body pause w w1 r e z) (elim (Bool-cases (n == 0)) [
                | inl last ↦ rw last (rest w1 q)
                | inr more ↦
                    let (u, w2, e2, q2) =
                      Returns-done (λ x w'. P (k + 1) w') (pause w1) (pausing (k + 1) w1 q) in
                    rw more (rw (e2, ◌>>=◌) (rest w2 q2))
              ])
          | inr ne ↦ rw (repeat_nbr-stops f n body pause w w1 r e ne) (inr refl)
        ]

-- With a negative count the loop never ends well: as long as the rounds go well it goes on, until
-- the count would leave the range of an `int`.
pub repeat_nbr_negative :
    (f n : ℕ) (body : Prog ℤ) (pause : Prog (Unit {0})) (w : World)
    → Ensures (repeat_nbr f body pause (negsuc n) w) (λ r w'. r ≡ minus_one)
unfolding repeat_nbr
repeat_nbr_negative zero n body pause w = tt
repeat_nbr_negative (suc f) n body pause w =
    let rest = λ (w' : World). repeat_nbr_negative f (suc n) body pause w' in
    rw (eqb-negsuc n) (
      Ensures-bind (λ r w'. r ≡ minus_one) body _ w
        (λ r w1. elim (Bool-cases (eqb_ℤ r (pos 0))) [
          | inl z ↦ rw z (elim (Bool-cases (eqb_ℤ (negsuc n) least_int)) [
            | inl at_end ↦ rw at_end tt
            | inr within ↦ rw within (
                rw (pred_neg n) (
                  rw (eqb-negsuc (suc n)) (
                    Ensures-bind (λ r w'. r ≡ minus_one) pause
                      (λ _. repeat_nbr f body pause (negsuc (suc n))) w1 (λ x w2. rest w2))))
          ])
          | inr ne ↦ rw ne refl
        ]))

-- What the body and the pause keep, the loop keeps.
module _ (P : World → Type 0) (body : Prog ℤ) (pause : Prog (Unit {0})) (p : Keeps P body)
    (q : Keeps P pause) where
  pub repeat_nbr-Keeps : (f : ℕ) (nbr : ℤ) → Keeps P (repeat_nbr f body pause nbr)
  unfolding repeat_nbr
  repeat_nbr-Keeps zero nbr = λ w s. tt
  repeat_nbr-Keeps (suc f) nbr =
      let rest = repeat_nbr f body pause (nbr -ℤ pos 1) in
      let keeps_rest : Keeps P rest = repeat_nbr-Keeps f (nbr -ℤ pos 1) in
      let again : Prog ℤ = if eqb_ℤ (nbr -ℤ pos 1) (pos 0) then rest else (pause >> rest) in
      let after : ℤ → Prog ℤ = λ r.
        if eqb_ℤ r (pos 0)
        then (if eqb_ℤ nbr least_int then undefined_here else again)
        else return minus_one in
      Keeps-if P (eqb_ℤ nbr (pos 0)) (return (pos 0)) (body >>= after) (λ w s. s)
        (Keeps-bind P body after p (λ r.
          Keeps-if P (eqb_ℤ r (pos 0)) (if eqb_ℤ nbr least_int then undefined_here else again)
            (return minus_one)
            (Keeps-if P (eqb_ℤ nbr least_int) undefined_here again (λ w s. tt)
              (Keeps-if P (eqb_ℤ (nbr -ℤ pos 1) (pos 0)) rest (pause >> rest) keeps_rest
                (Keeps-bind P pause (λ _. rest) q (λ _. keeps_rest))))
            (λ w s. s)))

-- A body and a pause that always return make a loop that does, for a count below the fuel.
module _ (P : World → Type 0) (body : Prog ℤ) (pause : Prog (Unit {0})) (p : Total P body)
    (q : Total P pause) where
  pub repeat_nbr-Total : (f n : ℕ) → n < f → Total P (repeat_nbr f body pause (pos n))
  unfolding repeat_nbr
  repeat_nbr-Total zero n lt = absurd (omega arith)
  repeat_nbr-Total (suc f) zero lt = λ w s. s
  repeat_nbr-Total (suc f) (suc n) lt =
      let rest = repeat_nbr f body pause (pos (suc n) -ℤ pos 1) in
      let total_rest : Total P rest =
        subst (λ x. Total P (repeat_nbr f body pause x)) (sym (pred_pos n))
          (repeat_nbr-Total f n (omega arith)) in
      let last = eqb_ℤ (pos (suc n) -ℤ pos 1) (pos 0) in
      let again : Prog ℤ = if last then rest else (pause >> rest) in
      let counted : Prog ℤ = if eqb_ℤ (pos (suc n)) least_int then undefined_here else again in
      let after : ℤ → Prog ℤ = λ r. if eqb_ℤ r (pos 0) then counted else return minus_one in
      Total-if P (eqb_ℤ (pos (suc n)) (pos 0)) (return (pos 0)) (body >>= after) (λ w s. s)
        (Total-bind P body after p (λ r.
          Total-if P (eqb_ℤ r (pos 0)) counted (return minus_one)
            (rw (eqb-least_int (suc n)) (
              Total-if P last rest (pause >> rest) total_rest
                (Total-bind P pause (λ _. rest) q (λ _. total_rest))))
            (λ w s. s)))
