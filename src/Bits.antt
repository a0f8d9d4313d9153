-- ===== src/Bits.antt =====
-- The bit operations on one bit of a byte, at variables: checked over all bytes and bits.
use msdk_linux.Base.{
  ℕ, bit_and, all_below, ◌<◌, Bool, set_bit, ◌≡◌, clear_bit, not, test_bit, ◌==◌, true, false, ◌&&◌,
  ◌||◌, ltb, all_below_sound, refl, arith, ltb→lt, ==_iff,
}
use Prim.Native.Nat.{bit_and-bitwise}

pub zero-bit_and : (b : ℕ) → bit_and 0 b ≡ 0
zero-bit_and b = bit_and-bitwise 0 b

-- Equality of Booleans.
infix 50 ◌=b◌
abbrev pub ◌=b◌ : Bool → Bool → Bool
true =b b = b
false =b b = not b

-- What is checked of a byte and two bits.
abbrev bit_facts : ℕ → ℕ → ℕ → Bool
bit_facts b k j =
    (test_bit (set_bit b k) j =b (k == j || test_bit b j))
    && (test_bit (clear_bit b k) j =b (not (k == j) && test_bit b j))
    && ltb (set_bit b k) 256
    && ltb (clear_bit b k) 256

bits_table : all_below 256 (λ b. all_below 8 (λ k. all_below 8 (bit_facts b k))) ≡ true
unfolding all_below
bits_table = refl

bits_at : (b k j : ℕ) → b < 256 → k < 8 → j < 8 → bit_facts b k j ≡ true
bits_at b k j hb hk hj =
    all_below_sound 8 (bit_facts b k) j
      (all_below_sound 8 (λ k'. all_below 8 (bit_facts b k')) k
        (all_below_sound 256 (λ b'. all_below 8 (λ k'. all_below 8 (bit_facts b' k'))) b bits_table
          hb)
        hk)
      hj

-- Taking such a conjunction apart, with its parts shut.
&&-parts :
    (p q r s : Bool) → (p && q && r && s) ≡ true → (p ≡ true) × (q ≡ true) × (r ≡ true) × (s ≡ true)
&&-parts p q r s h = ground arith

=b-eq : (a b : Bool) → (a =b b) ≡ true → a ≡ b
=b-eq a b h = ground arith

module _ (b k j : ℕ) (hb : b < 256) (hk : k < 8) (hj : j < 8) where
  facts :
      ((test_bit (set_bit b k) j =b (k == j || test_bit b j)) ≡ true)
      × ((test_bit (clear_bit b k) j =b (not (k == j) && test_bit b j)) ≡ true)
      × (ltb (set_bit b k) 256 ≡ true)
      × (ltb (clear_bit b k) 256 ≡ true)
  facts = &&-parts _ _ _ _ (bits_at b k j hb hk hj)

  -- Setting a bit sets that one alone.
  pub test_bit-set_bit : test_bit (set_bit b k) j ≡ (k == j || test_bit b j)
  test_bit-set_bit = =b-eq _ _ facts.0

  -- Clearing a bit clears that one alone.
  pub test_bit-clear_bit : test_bit (clear_bit b k) j ≡ (not (k == j) && test_bit b j)
  test_bit-clear_bit = =b-eq _ _ facts.1

pub set_bit-lt : (b k : ℕ) → b < 256 → k < 8 → set_bit b k < 256
set_bit-lt b k hb hk = ltb→lt _ _ (facts b k 0 hb hk (omega arith)).2

pub clear_bit-lt : (b k : ℕ) → b < 256 → k < 8 → clear_bit b k < 256
clear_bit-lt b k hb hk = ltb→lt _ _ (facts b k 0 hb hk (omega arith)).3

-- Clearing a bit that has just been set gives the byte back, if the bit was clear.
clear_set_table :
    all_below 256 (λ b. all_below 8 (λ k. test_bit b k || clear_bit (set_bit b k) k == b)) ≡ true
unfolding all_below
clear_set_table = refl

||-right : (p q : Bool) → (p || q) ≡ true → p ≡ false → q ≡ true
||-right p q h n = ground arith

pub clear_bit-set_bit :
    (b k : ℕ) → b < 256 → k < 8 → test_bit b k ≡ false → clear_bit (set_bit b k) k ≡ b
clear_bit-set_bit b k hb hk clear = (==_iff (clear_bit (set_bit b k) k) b).0 (
    ||-right (test_bit b k) (clear_bit (set_bit b k) k == b)
      (all_below_sound 8 (λ k'. test_bit b k' || clear_bit (set_bit b k') k' == b) k
        (all_below_sound 256
          (λ b'. all_below 8 (λ k'. test_bit b' k' || clear_bit (set_bit b' k') k' == b')) b
          clear_set_table hb)
        hk)
      clear)
