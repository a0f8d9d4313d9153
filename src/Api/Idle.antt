-- ===== src/Api/Idle.antt =====
-- The calls that do not move the pointer leave it where it is.
use msdk_linux.Base.{ℕ, ◌≡◌, ℤ, ap, ◌∙◌, Bool-cases, false, refl, inl, inr, [], true, arith}
use msdk_linux.Api.Box.{Down}
use msdk_linux.Api.Requests.{
  Effect, is_movement, Request, key_down, key_up, key_down2, hid_of, key_up2, key_press, key_press2,
  left_click, right_click, middle_click, left_double_click, key_state, key_state2, mouse_wheel,
  resolution_used, delay_random, rand_dom_nbr, delay, move_r, move_to, move_to3, num_lock,
  caps_lock, scroll_lock, get_curr_mouse_pos, release_all_key, left_down, left_up, right_down,
  right_up, middle_down, middle_up, release_all_mouse, reset_mouse_pos,
}
use msdk_linux.Api.Keys.{Changes, after_down, first, after_up, second, nothing}
use msdk_linux.Api.Buttons.{pressed, released}
use msdk_linux.Keyboard.Op.{is_key_code}

abbrev pub SameSpot : Down → Down → Type 0
SameSpot d d' = (d'.spot_x ≡ d.spot_x) × (d'.spot_y ≡ d.spot_y)

at_same : (d d' e : Down) → d' ≡ e → SameSpot d e → SameSpot d d'
at_same d d' e same (x, y) = (ap (λ b. b.spot_x) same ∙ x, ap (λ b. b.spot_y) same ∙ y)

after_down-SameSpot : (code : ℤ) (d : Down) → SameSpot d (after_down code d)
after_down-SameSpot code d = elim (Bool-cases (is_key_code code)) [
  | inl e ↦ rw e (refl, refl)
  | inr e ↦ rw e (refl, refl)
]

after_up-SameSpot : (code : ℤ) (d : Down) → SameSpot d (after_up code d)
after_up-SameSpot code d = elim (Bool-cases (is_key_code code)) [
  | inl e ↦ rw e (refl, refl)
  | inr e ↦ rw e (refl, refl)
]

Changes-SameSpot :
    (f g : Down → Down) (d d' : Down)
    → ((e : Down) → SameSpot e (f e))
    → ((e : Down) → SameSpot e (g e))
    → Changes f g d d'
    → SameSpot d d'
Changes-SameSpot f g d _ in_f in_g nothing = (refl, refl)
Changes-SameSpot f g d _ in_f in_g (first {d' = d'} c) =
    let (x, y) = Changes-SameSpot f g d d' in_f in_g c in ((in_f d').0 ∙ x, (in_f d').1 ∙ y)
Changes-SameSpot f g d _ in_f in_g (second {d' = d'} c) =
    let (x, y) = Changes-SameSpot f g d d' in_f in_g c in ((in_g d').0 ∙ x, (in_g d').1 ∙ y)

typed-SameSpot :
    (code : ℤ) (d d' : Down) → Changes (after_down code) (after_up code) d d' → SameSpot d d'
typed-SameSpot code d d' =
    Changes-SameSpot (after_down code) (after_up code) d d' (after_down-SameSpot code)
      (after_up-SameSpot code)

clicked-SameSpot : (k : ℕ) (d d' : Down) → Changes (pressed k) (released k) d d' → SameSpot d d'
clicked-SameSpot k d d' =
    Changes-SameSpot (pressed k) (released k) d d' (λ e. (refl, refl)) (λ e. (refl, refl))

pub true_not_false : true ≡ false → ⊥
true_not_false e = ground arith

-- A call that is no movement leaves the pointer where it is.
pub Effect-SameSpot :
    (ask : Request) (d d' : Down) → is_movement ask ≡ false → Effect ask d d' → SameSpot d d'
unfolding Effect is_movement
Effect-SameSpot (key_down code) d d' no_move e =
    at_same d d' (after_down code d) e (after_down-SameSpot code d)
Effect-SameSpot (key_up code) d d' no_move e =
    at_same d d' (after_up code d) e (after_up-SameSpot code d)
Effect-SameSpot (key_down2 code) d d' no_move e =
    at_same d d' (after_down (hid_of code) d) e (after_down-SameSpot (hid_of code) d)
Effect-SameSpot (key_up2 code) d d' no_move e =
    at_same d d' (after_up (hid_of code) d) e (after_up-SameSpot (hid_of code) d)
Effect-SameSpot (key_press code nbr) d d' no_move e = typed-SameSpot code d d' e
Effect-SameSpot (key_press2 code nbr) d d' no_move e = typed-SameSpot (hid_of code) d d' e
Effect-SameSpot (left_click nbr) d d' no_move e = clicked-SameSpot 0 d d' e
Effect-SameSpot (right_click nbr) d d' no_move e = clicked-SameSpot 1 d d' e
Effect-SameSpot (middle_click nbr) d d' no_move e = clicked-SameSpot 2 d d' e
Effect-SameSpot (left_double_click nbr) d d' no_move e = clicked-SameSpot 0 d d' e
Effect-SameSpot (key_state code) d d' no_move e = at_same d d' d e (refl, refl)
Effect-SameSpot (key_state2 code) d d' no_move e = at_same d d' d e (refl, refl)
Effect-SameSpot num_lock d d' no_move e = at_same d d' d e (refl, refl)
Effect-SameSpot caps_lock d d' no_move e = at_same d d' d e (refl, refl)
Effect-SameSpot scroll_lock d d' no_move e = at_same d d' d e (refl, refl)
Effect-SameSpot (mouse_wheel nbr) d d' no_move e = at_same d d' d e (refl, refl)
Effect-SameSpot get_curr_mouse_pos d d' no_move e = at_same d d' d e (refl, refl)
Effect-SameSpot (resolution_used x y) d d' no_move e = at_same d d' d e (refl, refl)
Effect-SameSpot (delay_random a b) d d' no_move e = at_same d d' d e (refl, refl)
Effect-SameSpot (rand_dom_nbr a b) d d' no_move e = at_same d d' d e (refl, refl)
Effect-SameSpot (delay time) d d' no_move e = at_same d d' d e (refl, refl)
Effect-SameSpot release_all_key d d' no_move e =
    at_same d d' (record d { mods = 0; keys = [] }) e (refl, refl)
Effect-SameSpot left_down d d' no_move e = at_same d d' (pressed 0 d) e (refl, refl)
Effect-SameSpot left_up d d' no_move e = at_same d d' (released 0 d) e (refl, refl)
Effect-SameSpot right_down d d' no_move e = at_same d d' (pressed 1 d) e (refl, refl)
Effect-SameSpot right_up d d' no_move e = at_same d d' (released 1 d) e (refl, refl)
Effect-SameSpot middle_down d d' no_move e = at_same d d' (pressed 2 d) e (refl, refl)
Effect-SameSpot middle_up d d' no_move e = at_same d d' (released 2 d) e (refl, refl)
Effect-SameSpot release_all_mouse d d' no_move e =
    at_same d d' (record d { buttons = 0 }) e (refl, refl)
Effect-SameSpot reset_mouse_pos d d' moves e = absurd (true_not_false moves)
Effect-SameSpot (move_r x y) d d' moves e = absurd (true_not_false moves)
Effect-SameSpot (move_to x y) d d' moves e = absurd (true_not_false moves)
Effect-SameSpot (move_to3 x y) d d' moves e = absurd (true_not_false moves)
