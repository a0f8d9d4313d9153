-- ===== src/Keyboard/Keys.antt =====
-- The list of the keys that are down: pressing and releasing keep it short, and its keys different.
use msdk_linux.Base.{
  ℕ, List, length, ◌<◌, ◌++◌, ◌≤◌, Bool-cases, take, ◌≡◌, false, arith, inl, ◌∷◌, suc,
  length-append, zero, [], inr, ◌||◌, ltb, length-take, refl, ◌==◌,
}
use msdk_linux.Keyboard.Held.{press, contains, IsKeys, erase}

pub contains-append :
    (a code : ℕ) (ks : List ℕ) → contains a (ks ++ code ∷ []) ≡ (contains a ks || code == a)
contains-append a code [] = ground arith
contains-append a code (k ∷ ks) = ground (arith, contains-append a code ks)

IsKeys-append :
    (code : ℕ) (ks : List ℕ)
    → 0 < code
    → IsKeys ks
    → contains code ks ≡ false
    → IsKeys (ks ++ code ∷ [])
IsKeys-append code [] p keys new = (p, refl, tt)
IsKeys-append code (k ∷ ks) p keys new =
    ground (arith, contains-append k code ks, IsKeys-append code ks p keys.2)

contains-take : (a n : ℕ) (ks : List ℕ) → contains a ks ≡ false → contains a (take n ks) ≡ false
contains-take a zero ks h = refl
contains-take a (suc n) [] h = refl
contains-take a (suc n) (k ∷ ks) h = ground (arith, contains-take a n ks)

IsKeys-take : (n : ℕ) (ks : List ℕ) → IsKeys ks → IsKeys (take n ks)
IsKeys-take zero ks keys = tt
IsKeys-take (suc n) [] keys = tt
IsKeys-take (suc n) (k ∷ ks) keys = (keys.0, contains-take k n ks keys.1, IsKeys-take n ks keys.2)

pub press-IsKeys : (code : ℕ) (ks : List ℕ) → 0 < code → IsKeys ks → IsKeys (press code ks)
press-IsKeys code ks p keys = elim (Bool-cases (contains code ks)) [
  | inl old ↦ rw old keys
  | inr new ↦ elim (Bool-cases (ltb (length ks) 6)) [
    | inl room ↦ rw (new, room) (IsKeys-append code ks p keys new)
    | inr full ↦
        rw (new, full)
          (IsKeys-append code (take 5 ks) p (IsKeys-take 5 ks keys) (contains-take code 5 ks new))
  ]
]

pub press-few : (code : ℕ) (ks : List ℕ) → length ks ≤ 6 → length (press code ks) ≤ 6
press-few code ks few =
    ground
      (arith, length-append ks (code ∷ []), length-append (take 5 ks) (code ∷ []), length-take 5 ks)

pub contains-erase :
    (a code : ℕ) (ks : List ℕ) → contains a ks ≡ false → contains a (erase code ks) ≡ false
contains-erase a code [] h = refl
contains-erase a code (k ∷ ks) h = ground (arith, contains-erase a code ks)

pub erase-IsKeys : (code : ℕ) (ks : List ℕ) → IsKeys ks → IsKeys (erase code ks)
erase-IsKeys code [] keys = tt
erase-IsKeys code (k ∷ ks) keys =
    ground (arith, contains-erase k code ks, erase-IsKeys code ks keys.2)

pub erase-few : (code n : ℕ) (ks : List ℕ) → length ks ≤ n → length (erase code ks) ≤ n
erase-few code n [] few = few
erase-few code zero (k ∷ ks) few = absurd (omega arith)
erase-few code (suc n) (k ∷ ks) few = ground (arith, erase-few code n ks)
