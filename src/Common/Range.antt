-- ===== src/Common/Range.antt =====
-- The range of the random numbers.
use msdk_linux.Base.{
  ℕ, ℤ, ◌<ℤ◌, ◌≡◌, ◌==◌, ◌<◌, false, ◌^◌, ◌≤◌, ◌≤ℤ◌, ◌∷◌, arith, ◌⊎◌, if◌then◌else◌, pos_part,
  negsuc, ◌-ℤ◌, ◌-◌, pos, leb, ◌+◌, ◌%◌, le→ltb, neg_part, ◌+ℤ◌, inl, -ℤ_parts, +ℤ_parts, inr,
  lt→ltb,
}
use msdk_linux.Machine.{Host, World, undefined, rand, done, usleep, ◌>>=◌}
use msdk_linux.Common.{
  m_rand_dom_nbr, rand_range, low_end, rand_max, u32_of, m_delay_random, times_1000,
}

u32_of_difference :
    (x : ℤ) (p q : ℕ) → pos_part x + q ≡ neg_part x + p → q < p → p < q + 2 ^ 32 → u32_of x ≡ p - q
u32_of_difference (pos n) p q e lt fits = omega arith
u32_of_difference (negsuc n) p q e lt fits = absurd (omega arith)

cap_bounds :
    (n : ℕ)
    → 0 < n
    → (0 < (if leb rand_max n then rand_max - 1 else n))
      × ((if leb rand_max n then rand_max - 1 else n) ≤ n)
cap_bounds n p = ground arith

abbrev pub Fits : ℤ → Type 0
Fits x = (negsuc (2 ^ 31 - 1) ≤ℤ x) × (x <ℤ pos (2 ^ 31))

range_bounds :
    (a b : ℤ)
    → a <ℤ b
    → Fits a
    → Fits b
    → (0 < rand_range a b) × (rand_range a b ≤ pos_part b + neg_part a - (pos_part a + neg_part b))
range_bounds a b lt fa fb =
    rw
      (u32_of_difference (b -ℤ a) (pos_part b + neg_part a) (pos_part a + neg_part b)
        (omega (arith, -ℤ_parts b a)) lt (omega arith))
      (cap_bounds (pos_part b + neg_part a - (pos_part a + neg_part b)) (omega arith))

low_end_same : (a b : ℤ) → a <ℤ b → low_end a b ≡ a
low_end_same a b lt = rw (le→ltb (pos_part b + neg_part a) (pos_part a + neg_part b) (omega arith))

pos_ne_zero : (n : ℕ) → 0 < n → (n == 0) ≡ false
pos_ne_zero n p = ground arith

-- With a lower end below the upper one, both in the range of an int, M_RandDomNbr returns a number
-- that is at least the lower end and below the upper one, after one call of rand and no other
-- effect.
pub m_rand_dom_nbr_bounds :
    (h : Host) (a b : ℤ) (w : World)
    → a <ℤ b
    → Fits a
    → Fits b
    → (r : ℤ) × (m_rand_dom_nbr h a b w ≡ done r (record w { calls = rand ∷ w.calls }))
      × (a ≤ℤ r)
      × (r <ℤ b)
unfolding m_rand_dom_nbr
m_rand_dom_nbr_bounds h a b w lt fa fb =
    let (some_range, range_fits) = range_bounds a b lt fa fb in
    let rest = h.random w.calls % rand_range a b in
    let below : rest < rand_range a b = omega arith in
    (
      pos rest +ℤ a,
      rw (low_end_same a b lt) (rw (pos_ne_zero (rand_range a b) some_range)),
      omega (arith, +ℤ_parts (pos rest) a),
      omega (arith, +ℤ_parts (pos rest) a),
    )

difference_self : (x : ℤ) (p : ℕ) → pos_part x + p ≡ neg_part x + p → u32_of x ≡ 0
difference_self (pos n) p e = omega arith
difference_self (negsuc n) p e = absurd (omega arith)

range_self : (a : ℤ) → rand_range a a ≡ 0
range_self a = rw (difference_self (a -ℤ a) (pos_part a + neg_part a) (omega (arith, -ℤ_parts a a)))

low_end_self : (a : ℤ) → low_end a a ≡ a
low_end_self a = rw (le→ltb (pos_part a + neg_part a) (pos_part a + neg_part a) (omega arith))

-- Where its two ends are equal, or the upper end is 0 and below the lower one, M_RandDomNbr takes a
-- remainder by 0.
pub m_rand_dom_nbr_by_zero :
    (h : Host) (a b : ℤ) (w : World)
    → (a ≡ b) ⊎ ((b ≡ pos 0) × (b <ℤ a))
    → m_rand_dom_nbr h a b w ≡ undefined
unfolding m_rand_dom_nbr
m_rand_dom_nbr_by_zero h a b w (inl e) = rw e (rw (low_end_self b) (rw (range_self b)))
m_rand_dom_nbr_by_zero h a b w (inr (z, lt)) =
    rw (lt→ltb (pos_part b + neg_part a) (pos_part a + neg_part b) lt)
      (rw z (rw (range_self (pos 0))))

-- A random delay changes nothing but the history: a number is drawn, and slept for.
pub m_delay_random_lem :
    (h : Host) (a b : ℤ) (w : World)
    → a <ℤ b
    → Fits a
    → Fits b
    → (t : ℕ) × (m_delay_random h a b w
        ≡ done (pos 0) (record w { calls = usleep t ∷ rand ∷ w.calls }))
unfolding m_delay_random
m_delay_random_lem h a b w lt fa fb =
    let (r, e, low, high) = m_rand_dom_nbr_bounds h a b w lt fa fb in
    (u32_of (times_1000 r), rw (e, ◌>>=◌))
