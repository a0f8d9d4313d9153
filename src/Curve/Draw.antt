-- ===== src/Curve/Draw.antt =====
-- The numbers that `M_MoveTo3` draws: the length of a step and the bend of the curve.
use native.Mathlib.Nat.{div-le_self}
use msdk_linux.Base.{
  ℕ, ℤ, pos, ◌≤◌, ◌<ℤ◌, ◌≡◌, ◌≤ℤ◌, byte_of, arith, pos_part, Bool-cases, ◌<◌, ltb_ℤ, refl, ◌∙◌, ◌∷◌,
  inl, abs, ltb, inr, ◌*◌, tests, ◌&&◌, true, false, ◌⊎◌, ◌/◌, ◌+◌, negsuc, suc, -ℤ_parts,
}
use msdk_linux.Curve.{choose_theta, Floats, draw_step, draw_theta, min_step}
use msdk_linux.Machine.{World, Host, done, ◌>>=◌, rand}
use msdk_linux.Absolute.{quotient}
use msdk_linux.Common.Range.{Fits, m_rand_dom_nbr_bounds}
use msdk_linux.Machine.Ends.{Returns, Returns-done}
use msdk_linux.Common.{m_rand_dom_nbr}
use msdk_linux.Hid.Wire.{handed_over}

big_byte : (r : ℤ) (n : ℕ) → pos 0 ≤ℤ r → r <ℤ pos 256 → pos n ≤ℤ r → n ≤ byte_of r
big_byte r n low high p = ground arith

byte_le : (r : ℤ) (n : ℕ) → pos 0 ≤ℤ r → r <ℤ pos n → byte_of r < n
byte_le r n low high = ground arith

-- A step that can be drawn for the distance `d`.
pub record IsStep (d rnd : ℕ) : Type 0 where
  pub long : 50 ≤ rnd
  pub short : rnd ≤ 148
  pub straight : d ≤ rnd → d ≤ 126

pub draw_step-IsStep :
    (h : Host) (a_dis : ℤ) (w : World)
    → (rnd : ℕ) × (draw_step h a_dis w ≡ done rnd (record w { calls = rand ∷ w.calls }))
      × IsStep (abs a_dis) rnd
draw_step-IsStep h a_dis w =
    elim (Bool-cases (ltb (abs a_dis) (min_step * 2) && ltb min_step (abs a_dis))) [
      | inl e ↦
          let d = abs a_dis in
          let (above, below) = middle d e in
          let (r, drawn, low, high) =
            m_rand_dom_nbr_bounds h (pos (d / 2)) (pos (d / 2 + min_step / 2)) w (omega arith)
              (omega arith) (omega arith) in
          let small = byte_le r (d / 2 + 50) (omega arith) high in
          let large = big_byte r (d / 2) (omega arith) (omega arith) low in
          (
            byte_of r,
            rw e (rw (drawn, ◌>>=◌)),
            record {
              long = omega arith;
              short = omega arith;
              straight = λ p. absurd (omega arith);
            },
          )
      | inr e ↦
          let outside = not_middle (abs a_dis) e in
          let (r, drawn, low, high) =
            m_rand_dom_nbr_bounds h (pos 100) (pos 127) w (omega arith) (omega arith)
              (omega arith) in
          let small = byte_le r 127 (omega arith) high in
          let large = big_byte r 100 (omega arith) (omega arith) low in
          (
            byte_of r,
            rw e (rw (drawn, ◌>>=◌)),
            record { long = omega arith; short = omega arith; straight = λ p. omega arith },
          )
    ]
  where
    middle : (d : ℕ) → (ltb d (min_step * 2) && ltb min_step d) ≡ true → (100 < d) × (d < 200)
    middle d e = ground arith

    not_middle : (d : ℕ) → (ltb d (min_step * 2) && ltb min_step d) ≡ false → (d ≤ 100) ⊎ (200 ≤ d)
    not_middle d e = ground arith

-- What C holds in an `int`.
pub record IsInt (fl : Floats) : Type 0 where
  pub root : (x y : ℤ) → Fits (fl.rounded_root x y)

quotient-Fits : (x : ℤ) (d : ℕ) → Fits x → Fits (quotient x (pos d))
unfolding quotient
quotient-Fits (pos n) d f = omega (arith, div-le_self n d)
quotient-Fits (negsuc n) d f =
    omega (arith, div-le_self (suc n) d, -ℤ_parts (pos 0) (pos (suc n / d)))

pos_of_nonneg : (x : ℤ) → pos 0 ≤ℤ x → x ≡ pos (pos_part x)
pos_of_nonneg x p = ground arith

-- Some draws later, the same record.
abbrev pub Drawn : World → ℤ → World → Type 0
Drawn w r w' = (w'.udev ≡ w.udev) × (handed_over w'.calls ≡ handed_over w.calls)

draw :
    (h : Host) (a b : ℤ) (w : World)
    → a <ℤ b
    → Fits a
    → Fits b
    → (r : ℤ) × (w' : World) × (m_rand_dom_nbr h a b w ≡ done r w')
      × Drawn w r w'
      × (a ≤ℤ r)
      × (r <ℤ b)
draw h a b w lt fa fb =
    let (r, e, low, high) = m_rand_dom_nbr_bounds h a b w lt fa fb in
    (r, record w { calls = rand ∷ w.calls }, e, (refl, unfold handed_over in refl), low, high)

draw_theta-Drawn :
    (h : Host) (theta : ℤ) (w : World) → Fits theta → Returns (draw_theta h theta w) (Drawn w)
draw_theta-Drawn h theta w f = elim (Bool-cases (ltb_ℤ theta (pos 2))) [
  | inl e ↦
      let (r, w', drawn, t, low, high) =
        draw h (pos 2) (pos 5) w (omega arith) (omega arith) (omega arith) in
      rw e (rw drawn t)
  | inr e ↦ elim (Bool-cases (ltb_ℤ (pos 100) theta)) [
    | inl big ↦
        let (r, w', drawn, t, low, high) = draw h (pos 100) theta w (omega tests) (omega arith) f in
        rw (e, big) (rw drawn t)
    | inr small ↦
        let (r, w', drawn, t, low, high) =
          draw h (pos 2) (pos 20) w (omega arith) (omega arith) (omega arith) in
        rw (e, small) (rw (drawn, ◌>>=◌) t)
  ]
]

-- Drawing the bend of the curve changes neither the record nor what is on the wire.
pub choose_theta-Drawn :
    (h : Host) (fl : Floats) (x y : ℤ) (w : World)
    → IsInt fl
    → Returns (choose_theta h fl x y w) (Drawn w)
unfolding choose_theta
choose_theta-Drawn h fl x y w int =
    let (side, w1, e1, t1, low1, high1) =
      draw h (pos 1) (pos 100) w (omega arith) (omega arith) (omega arith) in
    let (d, w2, e2, t2, low2, high2) =
      draw h (pos 10) (pos 50) w1 (omega arith) (omega arith) (omega arith) in
    let len = quotient (fl.rounded_root x y) d in
    let fits : Fits len =
      rw (pos_of_nonneg d (omega arith))
        (quotient-Fits (fl.rounded_root x y) (pos_part d) (int.root x y)) in
    let (theta, w3, e3, t3) =
      Returns-done (Drawn w2) (draw_theta h len w2) (draw_theta-Drawn h len w2 fits) in
    rw (e1, ◌>>=◌) (rw (e2, ◌>>=◌) (rw (e3, ◌>>=◌) (t3.0 ∙ t2.0 ∙ t1.0, t3.1 ∙ t2.1 ∙ t1.1)))
