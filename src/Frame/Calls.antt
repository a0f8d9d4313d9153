-- ===== src/Frame/Calls.antt =====
-- Which part of the record a call may change, whatever libusb, the device and the C library answer.
use msdk_linux.Base.{
  ℕ, ℤ, List, ap, ◌≡◌, Bool-cases, pos, ◌==◌, ltb_ℤ, inl, ◌||◌, inr, minus_one, leb_ℤ, negsuc, refl,
}
use msdk_linux.Machine.{Host, Udev, World, Prog, live, ◌>>◌, ◌>>=◌, return, modify, return_if}
use msdk_linux.Machine.Ends.{Keeps, Keeps-bind, Keeps-return_if, Ensures}
use msdk_linux.Frame.Moves.{with_position, m_reset_mouse_pos-Keeps, m_move_r-Keeps, m_move_to-Keeps}
use msdk_linux.Move.{m_get_curr_mouse_pos}
use msdk_linux.Absolute.{m_resolution_used}
use msdk_linux.Api.Requests.{
  run, Request, key_down, key_up, key_down2, key_up2, key_press, key_press2, left_click,
  right_click, middle_click, left_double_click, mouse_wheel, move_r, move_to, move_to3,
  resolution_used, release_all_key, left_down, left_up, right_down, right_up, middle_down,
  key_state, middle_up, release_all_mouse, reset_mouse_pos, key_state2, delay_random, rand_dom_nbr,
  delay, num_lock, caps_lock, scroll_lock, get_curr_mouse_pos,
}
use msdk_linux.Led.{m_num_lock_led_state, m_caps_lock_led_state, m_scroll_lock_led_state}
use msdk_linux.Mouse.{
  m_left_down, m_left_up, m_right_down, m_right_up, m_middle_down, m_middle_up, m_left_click,
  m_right_click, m_middle_click,
}
use msdk_linux.Keyboard.{
  m_key_down2, m_key_up2, m_key_state2, m_key_press2, m_key_down, m_key_up, m_key_state,
  m_key_press,
}
use msdk_linux.Common.{m_delay}
use msdk_linux.Curve.{Floats}
use msdk_linux.Frame.Keys.{
  m_key_down-Keeps, m_key_up-Keeps, m_key_state-Keeps, by_vkey-Keeps, m_key_press-Keeps,
  m_release_all_key-Keeps, led_state-Keeps,
}
use msdk_linux.Frame.Mouse.{
  button_down-Keeps, button_up-Keeps, clicks-Keeps, m_release_all_mouse-Keeps,
  m_left_double_click-Keeps, m_mouse_wheel-Keeps,
}
use msdk_linux.Frame.Curve.{m_move_to3-Keeps}
use msdk_linux.Frame.{delay-Keeps, draw-Keeps}

-- The parts of the record: the keyboard's bytes, the mouse's bytes, these with the position, or the
-- resolution.
pub data Part : Type 0 where
  keys buttons position resolution nothing : Part

unfoldable pub part : Request → Part
part (key_down code) = keys
part (key_up code) = keys
part (key_down2 code) = keys
part (key_up2 code) = keys
part (key_press code nbr) = keys
part (key_press2 code nbr) = keys
part release_all_key = keys
part left_down = buttons
part left_up = buttons
part right_down = buttons
part right_up = buttons
part middle_down = buttons
part middle_up = buttons
part release_all_mouse = buttons
part (left_click nbr) = buttons
part (right_click nbr) = buttons
part (middle_click nbr) = buttons
part (left_double_click nbr) = buttons
part (mouse_wheel nbr) = buttons
part reset_mouse_pos = position
part (move_r x y) = position
part (move_to x y) = position
part (move_to3 x y) = position
part (resolution_used x y) = resolution
part other = nothing

-- `u'` is `u` but for this part.
abbrev pub OnlyIn : Part → Udev → Udev → Type 0
OnlyIn keys u u' = u' ≡ record u { curr_kb_op = u'.curr_kb_op }
OnlyIn buttons u u' = u' ≡ record u { curr_mouse_op = u'.curr_mouse_op }
OnlyIn position u u' = u' ≡ record u {
  curr_mouse_op = u'.curr_mouse_op;
  mouse_1st_movto = u'.mouse_1st_movto;
  curr_mouse_abs_pos_x = u'.curr_mouse_abs_pos_x;
  curr_mouse_abs_pos_y = u'.curr_mouse_abs_pos_y;
}
OnlyIn resolution u u' = u' ≡ record u { cx = u'.cx; cy = u'.cy }
OnlyIn nothing u u' = u' ≡ u

keys_closed :
    (u0 u : Udev) (op : List ℕ) → OnlyIn keys u0 u → OnlyIn keys u0 (record u { curr_kb_op = op })
keys_closed u0 u op e = ap {A = Udev} (λ v. record v { curr_kb_op = op }) e

buttons_closed :
    (u0 u : Udev) (op : List ℕ)
    → OnlyIn buttons u0 u
    → OnlyIn buttons u0 (record u { curr_mouse_op = op })
buttons_closed u0 u op e = ap {A = Udev} (λ v. record v { curr_mouse_op = op }) e

movement_closed :
    (u0 u : Udev) (op : List ℕ)
    → OnlyIn position u0 u
    → OnlyIn position u0 (record u { curr_mouse_op = op })
movement_closed u0 u op e = ap {A = Udev} (λ v. record v { curr_mouse_op = op }) e

position_closed :
    (u0 u : Udev) (flag : ℕ) (x y : ℤ)
    → OnlyIn position u0 u
    → OnlyIn position u0 (with_position flag x y u)
position_closed u0 u flag x y e = ap (with_position flag x y) e

resolution_used-OnlyIn :
    (x y : ℤ) (u0 : Udev) → Keeps (λ w. OnlyIn resolution u0 w.udev) (m_resolution_used live x y)
unfolding m_resolution_used
resolution_used-OnlyIn x y u0 =
    let Q : World → Type 0 = λ w. OnlyIn resolution u0 w.udev in
    let store : Prog ℤ = (do modify (λ u. record u { cx = x; cy = y }); return (pos 0)) in
    Keeps-return_if Q (ltb_ℤ x (pos 0) || ltb_ℤ y (pos 0)) minus_one
      (return_if (leb_ℤ x (pos 0) || leb_ℤ y (pos 0)) (negsuc 1) store)
      (Keeps-return_if Q (leb_ℤ x (pos 0) || leb_ℤ y (pos 0)) (negsuc 1) store
        (λ w e. ap {A = Udev} (λ v. record v { cx = x; cy = y }) e))

position_asked-Keeps :
    (u0 : Udev)
    → Keeps (λ w. OnlyIn nothing u0 w.udev) (do (r, place) ← m_get_curr_mouse_pos live; return r)
unfolding m_get_curr_mouse_pos
position_asked-Keeps u0 =
    Keeps-bind (λ w. OnlyIn nothing u0 w.udev) (m_get_curr_mouse_pos live) (λ t. return t.0)
      (λ w s. elim (Bool-cases (w.udev.mouse_1st_movto == 0)) [ inl e ↦ rw e s | inr e ↦ rw e s ])
      (λ t w s. s)

-- Each call keeps what differs from `u0` in its part alone.
run-Keeps :
    (h : Host) (fl : Floats) (ask : Request) (u0 : Udev)
    → Keeps (λ w. OnlyIn (part ask) u0 w.udev) (run h fl ask)
unfolding run part m_num_lock_led_state m_caps_lock_led_state m_scroll_lock_led_state m_left_down
    m_left_up m_right_down m_right_up m_middle_down m_middle_up m_key_down2 m_key_up2 m_key_state2
    m_key_press2 m_left_click m_right_click m_middle_click m_delay
run-Keeps h fl (key_down code) u0 = m_key_down-Keeps (OnlyIn keys u0) h (keys_closed u0) code
run-Keeps h fl (key_up code) u0 = m_key_up-Keeps (OnlyIn keys u0) h (keys_closed u0) code
run-Keeps h fl (key_state code) u0 = m_key_state-Keeps (OnlyIn nothing u0) h code
run-Keeps h fl (key_down2 code) u0 =
    by_vkey-Keeps (OnlyIn keys u0) h code (m_key_down h live)
      (m_key_down-Keeps (OnlyIn keys u0) h (keys_closed u0))
run-Keeps h fl (key_up2 code) u0 =
    by_vkey-Keeps (OnlyIn keys u0) h code (m_key_up h live)
      (m_key_up-Keeps (OnlyIn keys u0) h (keys_closed u0))
run-Keeps h fl (key_state2 code) u0 =
    by_vkey-Keeps (OnlyIn nothing u0) h code (m_key_state live)
      (m_key_state-Keeps (OnlyIn nothing u0) h)
run-Keeps h fl (key_press code nbr) u0 =
    m_key_press-Keeps (OnlyIn keys u0) h (keys_closed u0) code nbr
run-Keeps h fl (key_press2 code nbr) u0 =
    by_vkey-Keeps (OnlyIn keys u0) h code (λ hid. m_key_press h live hid nbr)
      (λ hid. m_key_press-Keeps (OnlyIn keys u0) h (keys_closed u0) hid nbr)
run-Keeps h fl release_all_key u0 = m_release_all_key-Keeps (OnlyIn keys u0) h (keys_closed u0)
run-Keeps h fl num_lock u0 = led_state-Keeps (OnlyIn nothing u0) h 0
run-Keeps h fl caps_lock u0 = led_state-Keeps (OnlyIn nothing u0) h 1
run-Keeps h fl scroll_lock u0 = led_state-Keeps (OnlyIn nothing u0) h 2
run-Keeps h fl left_down u0 = button_down-Keeps (OnlyIn buttons u0) h (buttons_closed u0) 0
run-Keeps h fl left_up u0 = button_up-Keeps (OnlyIn buttons u0) h (buttons_closed u0) 0
run-Keeps h fl (left_click nbr) u0 = clicks-Keeps (OnlyIn buttons u0) h (buttons_closed u0) 0 nbr
run-Keeps h fl right_down u0 = button_down-Keeps (OnlyIn buttons u0) h (buttons_closed u0) 1
run-Keeps h fl right_up u0 = button_up-Keeps (OnlyIn buttons u0) h (buttons_closed u0) 1
run-Keeps h fl (right_click nbr) u0 = clicks-Keeps (OnlyIn buttons u0) h (buttons_closed u0) 1 nbr
run-Keeps h fl middle_down u0 = button_down-Keeps (OnlyIn buttons u0) h (buttons_closed u0) 2
run-Keeps h fl middle_up u0 = button_up-Keeps (OnlyIn buttons u0) h (buttons_closed u0) 2
run-Keeps h fl (middle_click nbr) u0 = clicks-Keeps (OnlyIn buttons u0) h (buttons_closed u0) 2 nbr
run-Keeps h fl release_all_mouse u0 =
    m_release_all_mouse-Keeps (OnlyIn buttons u0) h (buttons_closed u0)
run-Keeps h fl (left_double_click nbr) u0 =
    m_left_double_click-Keeps (OnlyIn buttons u0) h (buttons_closed u0) nbr
run-Keeps h fl (mouse_wheel nbr) u0 =
    m_mouse_wheel-Keeps (OnlyIn buttons u0) h (buttons_closed u0) nbr
run-Keeps h fl reset_mouse_pos u0 =
    m_reset_mouse_pos-Keeps (OnlyIn position u0) h (movement_closed u0) (position_closed u0)
run-Keeps h fl get_curr_mouse_pos u0 = position_asked-Keeps u0
run-Keeps h fl (move_r x y) u0 =
    m_move_r-Keeps (OnlyIn position u0) h (movement_closed u0) (position_closed u0) x y
run-Keeps h fl (move_to x y) u0 =
    m_move_to-Keeps (OnlyIn position u0) h (movement_closed u0) (position_closed u0) x y
run-Keeps h fl (move_to3 x y) u0 =
    m_move_to3-Keeps (OnlyIn position u0) h fl (movement_closed u0) (position_closed u0) x y
run-Keeps h fl (resolution_used x y) u0 = resolution_used-OnlyIn x y u0
run-Keeps h fl (delay_random a b) u0 = delay-Keeps (OnlyIn nothing u0) h a b
run-Keeps h fl (rand_dom_nbr a b) u0 = draw-Keeps (OnlyIn nothing u0) h a b
run-Keeps h fl (delay time) u0 = λ w s. s

same_OnlyIn : (p : Part) (u : Udev) → OnlyIn p u u
same_OnlyIn keys u = refl
same_OnlyIn buttons u = refl
same_OnlyIn position u = refl
same_OnlyIn resolution u = refl
same_OnlyIn nothing u = refl

-- Whatever libusb, the device and the C library answer, a call that returns has changed no other
-- part of the device record than its own: the calls on keys the bytes of the keyboard, those on
-- buttons and the wheel the bytes of the mouse, the movements these and the position, and
-- M_ResolutionUsed the resolution; all other calls have changed nothing.
pub run-OnlyIn :
    (h : Host) (fl : Floats) (ask : Request) (w : World)
    → Ensures (run h fl ask w) (λ r w'. OnlyIn (part ask) w.udev w'.udev)
run-OnlyIn h fl ask w = run-Keeps h fl ask w.udev w (same_OnlyIn (part ask) w.udev)
