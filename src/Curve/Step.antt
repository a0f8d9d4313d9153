-- ===== src/Curve/Step.antt =====
-- One step of the curve: what it leaves of the distance, and the kept position after it.
use msdk_linux.Base.{
  ℕ, ℤ, abs, pos, Bool, ◌+ℤ◌, ◌≤◌, ◌<◌, signed_char, ◌≡◌, ◌≤ℤ◌, ◌-ℤ◌, true, byte_of, eq_of_parts,
  negsuc, false, arith, refl, +ℤ_parts, -ℤ_parts, if◌then◌else◌, Bool-cases, ◌<ℤ◌, ltb_ℤ, ◌+◌, ◌⊎◌,
  inl, tests, inr, ◌-◌, ap, pos_part, neg_part, one_part,
}
use msdk_linux.Machine.{Udev}
use msdk_linux.Curve.{place_of, set_place, on_screen, follow, at_most_126, less_step}

-- The kept position along the two axes, under either order of them.
pub place_of-set_place :
    (swapped : Bool) (a b : ℤ) (u : Udev) → place_of swapped (set_place swapped a b u) ≡ (a, b)
place_of-set_place true a b u = refl
place_of-set_place false a b u = refl

-- All that `set_place` leaves alone.
pub record SameBut (u u' : Udev) : Type 0 where
  pub h_dev : u'.h_dev ≡ u.h_dev
  pub kb : u'.curr_kb_op ≡ u.curr_kb_op
  pub mouse : u'.curr_mouse_op ≡ u.curr_mouse_op
  pub flag : u'.mouse_1st_movto ≡ u.mouse_1st_movto
  pub width : u'.cx ≡ u.cx
  pub height : u'.cy ≡ u.cy

pub set_place-SameBut : (swapped : Bool) (a b : ℤ) (u : Udev) → SameBut u (set_place swapped a b u)
set_place-SameBut true a b u = record {
  h_dev = refl;
  kb = refl;
  mouse = refl;
  flag = refl;
  width = refl;
  height = refl;
}
set_place-SameBut false a b u = record {
  h_dev = refl;
  kb = refl;
  mouse = refl;
  flag = refl;
  width = refl;
  height = refl;
}

-- The step along the longer axis before it is cut off.
there_and_back :
    (c : ℤ) (r : ℕ) → ((c +ℤ pos r) -ℤ c ≡ pos r) × ((c -ℤ pos r) -ℤ c ≡ pos 0 -ℤ pos r)
there_and_back c r = (
  eq_of_parts ((c +ℤ pos r) -ℤ c) (pos r)
      (omega (arith, +ℤ_parts c (pos r), -ℤ_parts (c +ℤ pos r) c)),
  eq_of_parts ((c -ℤ pos r) -ℤ c) (pos 0 -ℤ pos r)
      (omega (arith, -ℤ_parts c (pos r), -ℤ_parts (c -ℤ pos r) c, -ℤ_parts (pos 0) (pos r))),
)

-- `mov` goes the way of `dis`, by 50 at least, and not as far.
pub record IsPart (dis mov : ℤ) : Type 0 where
  pub long : 50 ≤ abs mov
  pub small : abs mov ≤ 126
  pub partial : abs mov < abs dis
  pub way : ((pos 0 ≤ℤ mov) × (mov ≤ℤ dis)) ⊎ ((dis ≤ℤ mov) × (mov ≤ℤ pos 0))

at_most_126-IsPart :
    (dis mov : ℤ)
    → 50 ≤ abs mov
    → abs mov < abs dis
    → ((pos 0 <ℤ dis) × (pos 0 <ℤ mov)) ⊎ ((dis <ℤ pos 0) × (mov <ℤ pos 0))
    → IsPart dis (at_most_126 mov)
at_most_126-IsPart dis mov long short way = ground arith

minus_pos : (r : ℕ) → 0 < r → pos 0 -ℤ pos r ≡ negsuc (r - 1)
minus_pos r p =
    eq_of_parts (pos 0 -ℤ pos r) (negsuc (r - 1)) (omega (arith, -ℤ_parts (pos 0) (pos r)))

-- The step along the longer axis, from where the last one ended.
abbrev pub raw_step : ℤ → ℤ → ℤ → ℕ → ℤ
raw_step dis curr prev rnd =
    (if ltb_ℤ (pos 0) dis then curr +ℤ pos rnd else curr -ℤ pos rnd) -ℤ prev

pub raw_step-IsPart :
    (dis curr : ℤ) (rnd : ℕ)
    → 50 ≤ rnd
    → rnd < abs dis
    → IsPart dis (at_most_126 (raw_step dis curr curr rnd))
raw_step-IsPart dis curr rnd long short = elim (Bool-cases (ltb_ℤ (pos 0) dis)) [
  | inl e ↦
      rw (e, (there_and_back curr rnd).0)
        (at_most_126-IsPart dis (pos rnd) (omega arith) (omega arith)
          (inl (omega tests, omega arith)))
  | inr e ↦
      rw (e, (there_and_back curr rnd).1)
        (rw (minus_pos rnd (omega arith)) (
          at_most_126-IsPart dis (negsuc (rnd - 1)) (omega arith) (omega arith)
            (inr (omega (tests, one_part dis), omega arith))))
]

pub signed_char-byte_of : (x : ℤ) → abs x ≤ 126 → signed_char (byte_of x) ≡ x
signed_char-byte_of (pos n) small = ground arith
signed_char-byte_of (negsuc n) small = ground arith

pub follow-nonneg : (flag : ℕ) (place mov : ℤ) → flag ≡ 1 → pos 0 ≤ℤ follow flag place mov
follow-nonneg flag place mov e = ground arith

on_screen_within :
    (flag : ℕ) (place mov : ℤ)
    → flag ≡ 1
    → pos 0 ≤ℤ place +ℤ mov
    → (on_screen flag place mov ≡ mov) × (follow flag place mov ≡ place +ℤ mov)
on_screen_within flag place mov e p = ground arith

near : (dis mov : ℤ) → IsPart dis mov → abs (dis -ℤ mov) + 50 ≤ abs dis
near dis mov q =
    omega (arith, -ℤ_parts dis mov, q, one_part dis, one_part mov, one_part (dis -ℤ mov))

left_over : (dis mov : ℤ) → IsPart dis mov → 0 < abs (dis -ℤ mov)
left_over dis mov q =
    omega (arith, -ℤ_parts dis mov, q, one_part dis, one_part mov, one_part (dis -ℤ mov))

-- What a step that is not the last leaves: less by 50 at least, and not nothing; the place and what
-- is left still add up to the target.
pub part_of_way :
    (flag : ℕ) (place dis mov : ℤ) (target : ℕ)
    → flag ≡ 1
    → pos 0 ≤ℤ place
    → place +ℤ dis ≡ pos target
    → IsPart dis mov
    → (less_step dis mov ≡ dis -ℤ mov)
      × (abs (less_step dis mov) + 50 ≤ abs dis)
      × (0 < abs (less_step dis mov))
      × (on_screen flag place mov ≡ mov)
      × (follow flag place mov ≡ place +ℤ mov)
      × (place +ℤ mov +ℤ less_step dis mov ≡ pos target)
part_of_way flag place dis mov target known p e q =
    let less : less_step dis mov ≡ dis -ℤ mov =
      ap (λ m. dis -ℤ m) (signed_char-byte_of mov q.small) in
    let sum = +ℤ_parts place mov in
    let left = -ℤ_parts dis mov in
    let whole = +ℤ_parts place dis in
    let end = ap pos_part e in
    let end' = ap neg_part e in
    let (stays, follows) = on_screen_within flag place mov known (omega arith) in
    (
      less,
      rw less (near dis mov q),
      rw less (left_over dis mov q),
      stays,
      follows,
      rw less (
          eq_of_parts (place +ℤ mov +ℤ (dis -ℤ mov)) (pos target)
            (omega (arith, +ℤ_parts (place +ℤ mov) (dis -ℤ mov)))),
    )
