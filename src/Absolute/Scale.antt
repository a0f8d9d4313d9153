-- ===== src/Absolute/Scale.antt =====
-- The numbers in a report with absolute coordinates.
use msdk_linux.Base.{
  ℕ, List, ◌≤◌, ◌<◌, get_or, ◌%◌, ◌*◌, ◌+◌, ◌/◌, arith, pos, ◌≡◌, le→ltb, refl, ◌∙◌,
}
use native.Mathlib.Nat.{
  zero-div, div-lt_iff_lt-mul, div-mul-le_self, lt-div-mul-add, mul-le-mul_right, mul-le-mul_left,
  div-le_self, le-div_iff_mul-le, lt_of_mul-lt-mul_right,
}
use msdk_linux.Absolute.{
  hw_max_res, quotient, quarter, absolute_command, cut_off, scaled, not_both_zero, absolute_report,
}
use mathlib.Core.Path.{subst}

-- The two numbers that the other end reads out of the report.
abbrev pub read_x : List ℕ → ℕ
read_x report = get_or report 2 0 + 256 * get_or report 3 0

abbrev pub read_y : List ℕ → ℕ
read_y report = get_or report 4 0 + 256 * get_or report 5 0

two_bytes : (n : ℕ) → n ≤ hw_max_res → n % 256 + 256 * (n / 256 % 256) ≡ n
two_bytes n small = omega arith

-- `fact` as a natural number.
abbrev fact_of : ℕ → ℕ
fact_of c = hw_max_res / c / 4

quarter_pos : (c : ℕ) → quarter (pos c) ≡ fact_of c
unfolding quotient
quarter_pos c = omega (arith, div-le_self hw_max_res c)

-- It is not 0, and a quarter of a pixel at most.
fact_bounds : (c : ℕ) → 0 < c → c ≤ 8191 → (0 < fact_of c) × (4 * (fact_of c * c) ≤ hw_max_res)
fact_bounds c some narrow =
    let four = (le-div_iff_mul-le {k = c} {x = 4} {y = hw_max_res} some).1 (omega arith) in
    (
      omega arith,
      grind (
        arith,
        div-mul-le_self hw_max_res c,
        mul-le-mul_right c (div-mul-le_self (hw_max_res / c) 4),
      ),
    )

abbrev scaled_number : ℕ → ℕ → ℕ → ℕ
scaled_number f c n = hw_max_res * n / c + f

module _ (f c n : ℕ) (some_fact : 0 < f) (less : f * c < hw_max_res) (lt : n < c) where
  scaled_number-in_pixel :
      (hw_max_res * n < (scaled_number f c n) * c)
      × ((scaled_number f c n) * c < hw_max_res * n + hw_max_res)
  scaled_number-in_pixel =
      let low = lt-div-mul-add {a = hw_max_res * n} {b = c} (omega arith) in
      let high = div-mul-le_self (hw_max_res * n) c in
      let one = mul-le-mul_right {m = 1} {n = f} c (omega arith) in (grind arith, grind arith)

  pub scaled_number-le : (scaled_number f c n) ≤ hw_max_res
  scaled_number-le = omega (
    arith,
    lt_of_mul-lt-mul_right c {m = (scaled_number f c n)} {n = hw_max_res} (
        omega (
          arith,
          scaled_number-in_pixel,
          mul-le-mul_left {m = n + 1} {n = c} hw_max_res (omega arith),
        )),
  )

  scaled_number-back : (scaled_number f c n) * c / hw_max_res ≡ n
  scaled_number-back = omega (arith, scaled_number-in_pixel)

  scaled_pos : c < 65536 → f ≤ hw_max_res → scaled f (pos n) (pos c) ≡ (scaled_number f c n)
  unfolding quotient
  scaled_pos narrow few = omega (arith, div-le_self (hw_max_res * n) c)

  cut_off_same : cut_off (scaled_number f c n) ≡ (scaled_number f c n)
  cut_off_same = rw (le→ltb hw_max_res (scaled_number f c n) scaled_number-le) refl

-- With a fact above 0 the first number is not 0, and the second is left alone.
not_both_zero_idle : (f a b : ℕ) → 0 < a → not_both_zero f a b ≡ b
not_both_zero_idle f a b some = ground arith

module _ (cx cy x y : ℕ) (narrow : cx ≤ 8191) (not_tall : cy < 4 * cx) (in_x : x < cx)
    (in_y : y < cy) where
  abbrev fact : ℕ
  fact = fact_of cx

  low_fact : (fact * cx < hw_max_res) × (fact * cy < hw_max_res)
  low_fact =
      let (some, quarter_pixel) = fact_bounds cx (omega arith) narrow in
      let taller = mul-le-mul_left {m = cy + 1} {n = 4 * cx} fact (omega arith) in
      (omega arith, grind arith)

  report_is :
      absolute_command (pos cx) (pos cy) (pos x) (pos y)
      ≡ absolute_report (scaled_number fact cx x) (scaled_number fact cy y)
  unfolding absolute_command
  report_is =
      let (some, quarter_pixel) = fact_bounds cx (omega arith) narrow in
      let few : fact ≤ hw_max_res = omega (arith, div-le_self hw_max_res cx) in
      rw
        (
          quarter_pos cx,
          scaled_pos fact cx x some low_fact.0 in_x (omega arith) few,
          scaled_pos fact cy y some low_fact.1 in_y (omega arith) few,
        )
        (rw (cut_off_same fact cx x some low_fact.0 in_x) (
          rw
            (not_both_zero_idle fact (scaled_number fact cx x) (scaled_number fact cy y)
              (omega arith))
            (rw (cut_off_same fact cy y some low_fact.1 in_y) refl)))

  -- On a screen of at most 8191 columns and of fewer rows than four times as many, the two numbers
  -- in the report of M_InternalMoveTo3 for a pixel of it fit 15 bits, and scaling them back to the
  -- screen gives that pixel.
  pub absolute_command-back :
      let report = absolute_command (pos cx) (pos cy) (pos x) (pos y) in
      (read_x report ≤ hw_max_res)
      × (read_y report ≤ hw_max_res)
      × (read_x report * cx / hw_max_res ≡ x)
      × (read_y report * cy / hw_max_res ≡ y)
  absolute_command-back =
      let (some, quarter_pixel) = fact_bounds cx (omega arith) narrow in
      let small_x = scaled_number-le fact cx x some low_fact.0 in_x in
      let small_y = scaled_number-le fact cy y some low_fact.1 in_y in
      rw report_is (
        rw (two_bytes (scaled_number fact cx x) small_x) (
          rw (two_bytes (scaled_number fact cy y) small_y) (
            small_x,
            small_y,
            scaled_number-back fact cx x some low_fact.0 in_x,
            scaled_number-back fact cy y some low_fact.1 in_y,
          )))

-- `n` is off from `m` by at most `e`.
abbrev pub IsNear : ℕ → ℕ → ℕ → Type 0
IsNear e n m = (n ≤ m + e) × (m ≤ n + e)

-- What the system at the other end makes of a number, where there are so many pixels: it scales the
-- number down to them, and is off by at most `e`.
pub record ScalesDown (e : ℕ) (back : ℕ → ℕ → ℕ) : Type 0 where
  pub near : (pixels n : ℕ) → IsNear e (back pixels n) (n * pixels / hw_max_res)

-- Where the other system scales the numbers of a place down to its pixels and is off by at most e
-- (msdk.h gives 2), on a screen of at most 8191 columns and of fewer rows than four times as many,
-- the two numbers in the report of M_InternalMoveTo3 for a pixel of it fit 15 bits, and the system
-- makes a pixel of them that is off by at most e in each direction.
pub absolute_command-IsNear :
    (e : ℕ) (back : ℕ → ℕ → ℕ)
    → ScalesDown e back
    → (cx cy x y : ℕ) → cx ≤ 8191
    → cy < 4 * cx
    → x < cx
    → y < cy
    → let report = absolute_command (pos cx) (pos cy) (pos x) (pos y) in
      (read_x report ≤ hw_max_res)
      × (read_y report ≤ hw_max_res)
      × IsNear e (back cx (read_x report)) x
      × IsNear e (back cy (read_y report)) y
absolute_command-IsNear e back down cx cy x y narrow low in_x in_y =
    let report = absolute_command (pos cx) (pos cy) (pos x) (pos y) in
    let (small_x, small_y, back_x, back_y) = absolute_command-back cx cy x y narrow low in_x in_y in
    (
      small_x,
      small_y,
      subst (IsNear e (back cx (read_x report))) back_x (down.near cx (read_x report)),
      subst (IsNear e (back cy (read_y report))) back_y (down.near cy (read_y report)),
    )

quarter_wide : (c : ℕ) → 8191 < c → quarter (pos c) ≡ 0
quarter_wide c wide =
    quarter_pos c
    ∙ omega
        (arith, (div-lt_iff_lt-mul {k = c} {x = hw_max_res} {y = 4} (omega arith)).1 (omega arith))

scaled_zero : (c : ℕ) → scaled 0 (pos 0) (pos c) ≡ 0
unfolding quotient
scaled_zero c = omega (arith, zero-div c)

-- On a screen of more than 8191 columns the report for the corner holds 0 for both coordinates,
-- although the code means to keep one of them from 0.
pub absolute_command_wide :
    (cx cy : ℕ)
    → 8191 < cx
    → 0 < cy
    → absolute_command (pos cx) (pos cy) (pos 0) (pos 0) ≡ absolute_report 0 0
unfolding absolute_command
absolute_command_wide cx cy wide some =
    rw (quarter_wide cx wide) (rw (scaled_zero cx) (rw (scaled_zero cy) refl))
