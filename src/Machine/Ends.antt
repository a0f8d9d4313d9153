-- ===== src/Machine/Ends.antt =====
-- Statements about how a program ends.
use msdk_linux.Base.{◌≡◌, refl, Bool, if◌then◌else◌, true, false}
use msdk_linux.Machine.State.{World, Outcome, done, undefined, waiting, Prog, ◌>>=◌, return_if}
use msdk_linux.Machine.{return_if}

-- The program returns, and its result and the state after it satisfy `P`.
abbrev pub Returns : {A : Type 0} → Outcome A → (A → World → Type 0) → Type 0
Returns (done a w) P = P a w
Returns undefined P = ⊥
Returns waiting P = ⊥

-- If the program returns, its result and the state after it satisfy `P`.
abbrev pub Ensures : {A : Type 0} → Outcome A → (A → World → Type 0) → Type 0
Ensures (done a w) P = P a w
Ensures undefined P = Unit
Ensures waiting P = Unit

module _ {A B : Type 0} where
  pub Returns-bind :
      (P : A → World → Type 0) (Q : B → World → Type 0) (m : Prog A) (f : A → Prog B) (w : World)
      → Returns (m w) P
      → ((a : A) (w' : World) → P a w' → Returns (f a w') Q)
      → Returns ((m >>= f) w) Q
  Returns-bind P Q m f w h k = go (m w) h
    where
      go :
          (o : Outcome A)
          → Returns o P
          → Returns (elim o [ done a w' ↦ f a w' | undefined ↦ undefined | waiting ↦ waiting ]) Q
      go (done a w') p = k a w' p
      go undefined p = absurd p
      go waiting p = absurd p

  pub Ensures-bind :
      (Q : B → World → Type 0) (m : Prog A) (f : A → Prog B) (w : World)
      → ((a : A) (w' : World) → Ensures (f a w') Q)
      → Ensures ((m >>= f) w) Q
  Ensures-bind Q m f w k = go (m w)
    where
      go :
          (o : Outcome A)
          → Ensures (elim o [ done a w' ↦ f a w' | undefined ↦ undefined | waiting ↦ waiting ]) Q
      go (done a w') = k a w'
      go undefined = tt
      go waiting = tt

module _ {A : Type 0} where
  pub Returns-mono :
      (P Q : A → World → Type 0) (o : Outcome A)
      → Returns o P
      → ((a : A) (w' : World) → P a w' → Q a w')
      → Returns o Q
  Returns-mono P Q (done a w') p k = k a w' p
  Returns-mono P Q undefined p k = p
  Returns-mono P Q waiting p k = p

  pub Returns-done :
      (P : A → World → Type 0) (o : Outcome A)
      → Returns o P
      → (a : A) × (w : World) × (o ≡ done a w) × P a w
  Returns-done P (done a w) p = (a, w, refl, p)
  Returns-done P undefined p = absurd p
  Returns-done P waiting p = absurd p

-- A run of the program from a state with `P`, if it returns, ends in one with `Q`.
abbrev pub Leads : {A : Type 0} → (World → Type 0) → (World → Type 0) → Prog A → Type 0
Leads P Q m = (w : World) → P w → Ensures (m w) (λ a w'. Q w')

abbrev pub Keeps : {A : Type 0} → (World → Type 0) → Prog A → Type 0
Keeps P m = Leads P P m

module _ {A B : Type 0} where
  pub Ensures-then :
      (P : A → World → Type 0) (Q : B → World → Type 0) (m : Prog A) (f : A → Prog B) (w : World)
      → Ensures (m w) P
      → ((a : A) (w' : World) → P a w' → Ensures (f a w') Q)
      → Ensures ((m >>= f) w) Q
  Ensures-then P Q m f w h k = go (m w) h
    where
      go :
          (o : Outcome A)
          → Ensures o P
          → Ensures (elim o [ done a w' ↦ f a w' | undefined ↦ undefined | waiting ↦ waiting ]) Q
      go (done a w') p = k a w' p
      go undefined p = tt
      go waiting p = tt

  pub Leads-bind :
      (P Q R : World → Type 0) (m : Prog A) (f : A → Prog B)
      → Leads P Q m
      → ((a : A) → Leads Q R (f a))
      → Leads P R (m >>= f)
  Leads-bind P Q R m f p k w s = Ensures-then (λ a. Q) (λ b. R) m f w (p w s) (λ a w' s'. k a w' s')

  pub Keeps-bind :
      (P : World → Type 0) (m : Prog A) (f : A → Prog B)
      → Keeps P m
      → ((a : A) → Keeps P (f a))
      → Keeps P (m >>= f)
  Keeps-bind P = Leads-bind P P P

module _ {A : Type 0} where
  pub Ensures-mono :
      (P Q : A → World → Type 0) (o : Outcome A)
      → Ensures o P
      → ((a : A) (w' : World) → P a w' → Q a w')
      → Ensures o Q
  Ensures-mono P Q (done a w') p k = k a w' p
  Ensures-mono P Q undefined p k = tt
  Ensures-mono P Q waiting p k = tt

  pub Returns-Ensures : (P : A → World → Type 0) (o : Outcome A) → Returns o P → Ensures o P
  Returns-Ensures P (done a w') p = p
  Returns-Ensures P undefined p = absurd p
  Returns-Ensures P waiting p = absurd p

  pub Leads-if :
      (P Q : World → Type 0) (b : Bool) (m k : Prog A)
      → Leads P Q m
      → Leads P Q k
      → Leads P Q (if b then m else k)
  Leads-if P Q true m k p q = p
  Leads-if P Q false m k p q = q

  pub Keeps-if :
      (P : World → Type 0) (b : Bool) (m k : Prog A)
      → Keeps P m
      → Keeps P k
      → Keeps P (if b then m else k)
  Keeps-if P = Leads-if P P

  -- The guard did not hold for what comes after it.
  pub Keeps-guard :
      (P : World → Type 0) (b : Bool) (a : A) (m : Prog A)
      → (b ≡ false → Keeps P m)
      → Keeps P (return_if b a m)
  Keeps-guard P true a m p = λ w s. s
  Keeps-guard P false a m p = p refl

  pub Keeps-return_if :
      (P : World → Type 0) (b : Bool) (a : A) (m : Prog A) → Keeps P m → Keeps P (return_if b a m)
  Keeps-return_if P true a m p = λ w s. s
  Keeps-return_if P false a m p = p

  pub Returns-both :
      (P Q : A → World → Type 0) (o : Outcome A)
      → Returns o P
      → Ensures o Q
      → Returns o (λ a w. P a w × Q a w)
  Returns-both P Q (done a w) p q = (p, q)
  Returns-both P Q undefined p q = absurd p
  Returns-both P Q waiting p q = absurd p

-- From a state with `P` the program returns, in one with `P`.
abbrev pub Total : {A : Type 0} → (World → Type 0) → Prog A → Type 0
Total P m = (w : World) → P w → Returns (m w) (λ a w'. P w')

module _ {A B : Type 0} where
  pub Total-bind :
      (P : World → Type 0) (m : Prog A) (f : A → Prog B)
      → Total P m
      → ((a : A) → Total P (f a))
      → Total P (m >>= f)
  Total-bind P m f p k w s = Returns-bind (λ a. P) (λ b. P) m f w (p w s) k

module _ {A : Type 0} where
  pub Total-if :
      (P : World → Type 0) (b : Bool) (m k : Prog A)
      → Total P m
      → Total P k
      → Total P (if b then m else k)
  Total-if P true m k p q = p
  Total-if P false m k p q = q
