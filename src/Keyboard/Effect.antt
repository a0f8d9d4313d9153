-- ===== src/Keyboard/Effect.antt =====
-- Pressing and releasing, told by what `held` answers afterwards: the code itself changes, and no
-- other one does.
use msdk_linux.Base.{
  ℕ, List, pos, ◌≡◌, true, not, ◌⊎◌, ◌==◌, length, ◌&&◌, ◌<◌, ◌||◌, arith, ◌∷◌, [], ◌-◌, false,
  Bool-cases, inl, inr, lt→ltb, ◌++◌, test_bit,
}
use msdk_linux.Keyboard.Op.{is_key_code, is_modifier}
use msdk_linux.Keyboard.State.{HasDown, up_mods, down_mods, down_keys, up_keys, bit-lt}
use msdk_linux.Keyboard.Held.{contains, IsKeys, erase, press}
use msdk_linux.Keyboard.Op.Query.{held}
use msdk_linux.Keyboard.Keys.{contains-append}
use msdk_linux.Bits.{test_bit-clear_bit, test_bit-set_bit, clear_bit-set_bit}

-- There is a place for the code: it is a modifier, or down already, or fewer than six keys are.
abbrev pub HasRoom : ℕ → List ℕ → Type 0
HasRoom code ks = (is_modifier code ≡ true) ⊎ (contains code ks ≡ true) ⊎ (length ks < 6)

contains_same : (j code : ℕ) (ks : List ℕ) → code ≡ j → contains j ks ≡ contains code ks
contains_same j code ks e = rw e

contains-press :
    (j code : ℕ) (ks : List ℕ)
    → (contains code ks ≡ true) ⊎ (length ks < 6)
    → contains j (press code ks) ≡ (code == j || contains j ks)
contains-press j code ks room = ground (arith, contains-append j code ks, contains_same j code ks)

contains-erase_eq :
    (j code : ℕ) (ks : List ℕ)
    → IsKeys ks
    → contains j (erase code ks) ≡ (not (code == j) && contains j ks)
contains-erase_eq j code [] keys = ground arith
contains-erase_eq j code (k ∷ ks) keys =
    ground
      (arith, contains-erase_eq j code ks keys.2, contains_same j k ks, contains_same code k ks)

modifier_ne :
    (a b : ℕ)
    → is_modifier a ≡ true
    → is_modifier b ≡ false
    → ((a == b) ≡ false) × ((b == a) ≡ false)
unfolding is_modifier
modifier_ne a b p q = ground arith

modifier_bits :
    (a b : ℕ) → is_modifier a ≡ true → is_modifier b ≡ true → (a - 224 == b - 224) ≡ (a == b)
unfolding is_modifier
modifier_bits a b p q = ground arith

module _ (j code mods : ℕ) (op ks : List ℕ) (v : is_key_code (pos code) ≡ true)
    (v' : is_key_code (pos j) ≡ true) (d : HasDown op mods ks) where
  -- Among accepted codes, where a code has a place, after its press exactly it and what was down
  -- before are down.
  pub held-down :
      HasRoom code ks
      → held (down_mods code mods) (down_keys code ks) j ≡ (code == j || held mods ks j)
  held-down room = elim (Bool-cases (is_modifier code)) [
    | inl m ↦ elim (Bool-cases (is_modifier j)) [
      | inl n ↦
          rw (m, n, ← modifier_bits code j m n)
            (test_bit-set_bit mods (code - 224) (j - 224) d.byte_mods (bit-lt code v m)
              (bit-lt j v' n))
      | inr n ↦ rw (m, n, (modifier_ne code j m n).0)
    ]
    | inr m ↦ elim (Bool-cases (is_modifier j)) [
      | inl n ↦ rw (m, n, (modifier_ne j code n m).1)
      | inr n ↦ rw (m, n) (contains-press j code ks (elim room [ inl m' ↦ cc | inr r ↦ r ]))
    ]
  ]

  -- Among accepted codes, after the release of a code exactly what was down before but that code is
  -- down.
  pub held-up : held (up_mods code mods) (up_keys code ks) j ≡ (not (code == j) && held mods ks j)
  held-up = elim (Bool-cases (is_modifier code)) [
    | inl m ↦ elim (Bool-cases (is_modifier j)) [
      | inl n ↦
          rw (m, n, ← modifier_bits code j m n)
            (test_bit-clear_bit mods (code - 224) (j - 224) d.byte_mods (bit-lt code v m)
              (bit-lt j v' n))
      | inr n ↦ rw (m, n, (modifier_ne code j m n).0)
    ]
    | inr m ↦ elim (Bool-cases (is_modifier j)) [
      | inl n ↦ rw (m, n, (modifier_ne j code n m).1)
      | inr n ↦ rw (m, n) (contains-erase_eq j code ks d.keys)
    ]
  ]

erase-append_last :
    (code : ℕ) (ks : List ℕ) → contains code ks ≡ false → erase code (ks ++ code ∷ []) ≡ ks
erase-append_last code [] new = ground arith
erase-append_last code (k ∷ ks) new = ground (arith, erase-append_last code ks)

few_keys :
    (code : ℕ) (ks : List ℕ)
    → HasRoom code ks
    → is_modifier code ≡ false
    → contains code ks ≡ false
    → length ks < 6
few_keys code ks (inl m) k new = cc
few_keys code ks (inr (inl old)) k new = cc
few_keys code ks (inr (inr few)) k new = few

erase-press :
    (code : ℕ) (ks : List ℕ)
    → contains code ks ≡ false
    → length ks < 6
    → erase code (press code ks) ≡ ks
erase-press code ks new few = rw (new, lt→ltb (length ks) 6 few) (erase-append_last code ks new)

held_key :
    (code mods : ℕ) (ks : List ℕ)
    → held mods ks code ≡ false
    → is_modifier code ≡ false
    → contains code ks ≡ false
held_key code mods ks new k = rw k at new

held_modifier :
    (code mods : ℕ) (ks : List ℕ)
    → held mods ks code ≡ false
    → is_modifier code ≡ true
    → test_bit mods (code - 224) ≡ false
held_modifier code mods ks new m = rw m at new

-- Releasing what has just been pressed, and was not down before, gives the old state back.
module _ (code mods : ℕ) (op ks : List ℕ) (v : is_key_code (pos code) ≡ true)
    (d : HasDown op mods ks) (new : held mods ks code ≡ false) (room : HasRoom code ks) where
  pub up-down_mods : up_mods code (down_mods code mods) ≡ mods
  up-down_mods = elim (Bool-cases (is_modifier code)) [
    | inl m ↦ rw m (
        clear_bit-set_bit mods (code - 224) d.byte_mods (bit-lt code v m)
          (held_modifier code mods ks new m))
    | inr k ↦ rw k
  ]

  pub up-down_keys : up_keys code (down_keys code ks) ≡ ks
  up-down_keys = elim (Bool-cases (is_modifier code)) [
    | inl m ↦ rw m
    | inr k ↦
        let key_new = held_key code mods ks new k in
        rw k (erase-press code ks key_new (few_keys code ks room k key_new))
  ]
