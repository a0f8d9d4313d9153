-- ===== src/Api/Answers.antt =====
-- Every request keeps the record and the box in agreement, and leaves down what `Effect` says.
use msdk_linux.Led.{m_caps_lock_led_state, m_scroll_lock_led_state}
use msdk_linux.Mouse.{
  m_left_down, m_left_up, m_right_down, m_right_up, m_middle_down, m_middle_up, button_down,
  button_up, m_release_all_mouse, m_mouse_wheel, m_left_click, m_right_click, m_middle_click,
  m_left_double_click,
}
use msdk_linux.Base.{ℤ, Bool, ◌≡◌, refl, Bool-cases, ◌==◌, inl, inr, [], if◌then◌else◌}
use msdk_linux.Machine.{Device, Host, IsPrompt, Prog, World, ◌>>=◌, live, return}
use msdk_linux.Curve.{Floats, m_move_to3}
use msdk_linux.Api.Box.{Down, Screen, at_spot}
use msdk_linux.Move.{m_get_curr_mouse_pos, m_reset_mouse_pos, m_move_r, m_move_to}
use msdk_linux.Api.Requests.{
  Request, run, Effect, key_down, key_up, key_state, key_down2, hid_of, key_up2, key_state2,
  key_press, key_press2, left_click, right_click, middle_click, left_double_click, mouse_wheel,
  move_r, move_to, resolution_used, move_to3, delay_random, rand_dom_nbr, delay, release_all_key,
  num_lock, caps_lock, scroll_lock, left_down, left_up, right_down, right_up, middle_down,
  middle_up, release_all_mouse, reset_mouse_pos, get_curr_mouse_pos, is_movement,
}
use msdk_linux.Machine.Ends.{Keeps, Ensures, Ensures-mono, Keeps-bind}
use msdk_linux.Api.Agrees.{Agrees, Kept, restand, still, kept_of}
use msdk_linux.Keyboard.{
  m_key_down, m_key_up, m_key_state, m_key_down2, m_key_up2, m_key_state2, m_release_all_key,
  m_key_press, m_key_press2,
}
use msdk_linux.Api.Keys.{
  after_down, m_key_down-Agrees, after_up, m_key_up-Agrees, m_key_state-Agrees, m_key_press-Typed,
  nothing, m_release_all_key-Agrees, Changes,
}
use msdk_linux.Api.Windows.{
  m_key_down2-Agrees, m_key_up2-Agrees, m_key_state2-Agrees, m_key_press2-Typed,
}
use msdk_linux.Led.{m_num_lock_led_state}
use msdk_linux.Api.Lights.{led_state-Agrees}
use msdk_linux.Api.Buttons.{
  pressed, button_down-Agrees, released, button_up-Agrees, m_release_all_mouse-Agrees,
  m_delay_random-Agrees, Agrees-Quiet,
}
use msdk_linux.Api.Clicks.{
  m_left_click-Clicked, m_right_click-Clicked, m_middle_click-Clicked, m_left_double_click-Clicked,
  m_mouse_wheel-Agrees,
}
use msdk_linux.Api.Places.{m_reset_mouse_pos-Agrees, m_move_to-Agrees, m_resolution_used-Agrees}
use msdk_linux.Api.Moves.{m_move_r-Agrees}
use msdk_linux.Absolute.{m_resolution_used}
use msdk_linux.Api.Curves.{m_move_to3-Agrees}
use msdk_linux.Api.Steps.{draw_kept}
use msdk_linux.Common.{m_delay_random, m_rand_dom_nbr, m_delay}
use msdk_linux.Common.Quiet.{m_delay-Quiet}
use msdk_linux.Api.Axes.{Somewhere}

module _ (scr : Screen) (dev : Device) (ok : Bool) (h : Host) (prompt : IsPrompt h) (fl : Floats)
    (k : Kept) (d : Down) where
  -- How a request ends.
  abbrev pub Ends : Request → World → Type 0
  Ends ask w =
      (k' : Kept) × (d' : Down) × (if is_movement ask then Unit else k' ≡ k)
      × Effect ask d d'
      × Agrees scr dev ok k' d' w

  stays :
      (m : Prog ℤ)
      → Keeps (Agrees scr dev ok k d) m
      → (w : World) → Agrees scr dev ok k d w
      → Ensures
          (m w)
          (λ r w'. (k' : Kept) × (d' : Down) × (k' ≡ k) × (d' ≡ d) × Agrees scr dev ok k' d' w')
  stays m keeps w s = Ensures-mono _ _ (m w) (keeps w s) (λ r w' s'. (k, d, refl, refl, s'))

  goes :
      (m : Prog ℤ)
      → Keeps (Somewhere scr dev ok h prompt d) m
      → (w : World) → Agrees scr dev ok k d w
      → Ensures (m w) (λ r w'.
        (k' : Kept) × (d' : Down) × Unit
        × (d' ≡ at_spot d'.spot_x d'.spot_y d)
        × Agrees scr dev ok k' d' w')
  goes m keeps w s =
      Ensures-mono _ _ (m w) (keeps w (d.spot_x, d.spot_y, restand scr dev ok k still d d w s))
        (λ r w' (x, y, s'). (kept_of w'.udev, at_spot x y d, tt, refl, s'))

  becomes :
      (m : Prog ℤ) (d' : Down) (w : World)
      → Ensures (m w) (λ r w'. Agrees scr dev ok k d' w')
      → Ensures
          (m w)
          (λ r w'. (k' : Kept) × (d'' : Down) × (k' ≡ k) × (d'' ≡ d') × Agrees scr dev ok k' d'' w')
  becomes m d' w ends = Ensures-mono _ _ (m w) ends (λ r w' s'. (k, d', refl, refl, s'))

  changes :
      (m : Prog ℤ) (C : Down → Type 0) (w : World)
      → Ensures (m w) (λ r w'. (d' : Down) × C d' × Agrees scr dev ok k d' w')
      → Ensures
          (m w)
          (λ r w'. (k' : Kept) × (d' : Down) × (k' ≡ k) × C d' × Agrees scr dev ok k' d' w')
  changes m C w ends = Ensures-mono _ _ (m w) ends (λ r w' (d', c, s'). (k, d', refl, c, s'))

  position_asked :
      Keeps (Agrees scr dev ok k d) (do (r, place) ← m_get_curr_mouse_pos live; return r)
  unfolding m_get_curr_mouse_pos
  position_asked =
      Keeps-bind (Agrees scr dev ok k d) (m_get_curr_mouse_pos live) (λ t. return t.0)
        (λ w s. elim (Bool-cases (w.udev.mouse_1st_movto == 0)) [ inl e ↦ rw e s | inr e ↦ rw e s ])
        (λ t w s. s)

  pub run-Ends :
      (ask : Request) (w : World)
      → Agrees scr dev ok k d w
      → Ensures (run h fl ask w) (λ r. Ends ask)
  unfolding run Effect is_movement m_num_lock_led_state m_caps_lock_led_state
      m_scroll_lock_led_state m_left_down m_left_up m_right_down m_right_up m_middle_down
      m_middle_up
  run-Ends (key_down code) w s =
      becomes (m_key_down h live code) (after_down code d) w
        (m_key_down-Agrees scr dev ok k h prompt code d w s)
  run-Ends (key_up code) w s =
      becomes (m_key_up h live code) (after_up code d) w
        (m_key_up-Agrees scr dev ok k h prompt code d w s)
  run-Ends (key_state code) w s =
      stays (m_key_state live code) (m_key_state-Agrees scr dev ok k h prompt code d) w s
  run-Ends (key_down2 code) w s =
      becomes (m_key_down2 h live code) (after_down (hid_of code) d) w
        (m_key_down2-Agrees scr dev ok k h prompt code d w s)
  run-Ends (key_up2 code) w s =
      becomes (m_key_up2 h live code) (after_up (hid_of code) d) w
        (m_key_up2-Agrees scr dev ok k h prompt code d w s)
  run-Ends (key_state2 code) w s =
      becomes (m_key_state2 live code) d w (m_key_state2-Agrees scr dev ok k h prompt code d w s)
  run-Ends (key_press code nbr) w s =
      changes (m_key_press h live code nbr) (Changes (after_down code) (after_up code) d) w
        (m_key_press-Typed scr dev ok k h prompt code nbr d w (d, nothing, s))
  run-Ends (key_press2 code nbr) w s =
      changes (m_key_press2 h live code nbr)
        (Changes (after_down (hid_of code)) (after_up (hid_of code)) d) w
        (m_key_press2-Typed scr dev ok k h prompt code d w s nbr)
  run-Ends release_all_key w s =
      becomes (m_release_all_key h live) (record d { mods = 0; keys = [] }) w
        (m_release_all_key-Agrees scr dev ok k h prompt d w s)
  run-Ends num_lock w s =
      stays (m_num_lock_led_state h live) (led_state-Agrees scr dev ok k h prompt d 0) w s
  run-Ends caps_lock w s =
      stays (m_caps_lock_led_state h live) (led_state-Agrees scr dev ok k h prompt d 1) w s
  run-Ends scroll_lock w s =
      stays (m_scroll_lock_led_state h live) (led_state-Agrees scr dev ok k h prompt d 2) w s
  run-Ends left_down w s =
      becomes (button_down h 0 live) (pressed 0 d) w
        (button_down-Agrees scr dev ok k h prompt 0 d w s)
  run-Ends left_up w s =
      becomes (button_up h 0 live) (released 0 d) w (button_up-Agrees scr dev ok k h prompt 0 d w s)
  run-Ends right_down w s =
      becomes (button_down h 1 live) (pressed 1 d) w
        (button_down-Agrees scr dev ok k h prompt 1 d w s)
  run-Ends right_up w s =
      becomes (button_up h 1 live) (released 1 d) w (button_up-Agrees scr dev ok k h prompt 1 d w s)
  run-Ends middle_down w s =
      becomes (button_down h 2 live) (pressed 2 d) w
        (button_down-Agrees scr dev ok k h prompt 2 d w s)
  run-Ends middle_up w s =
      becomes (button_up h 2 live) (released 2 d) w (button_up-Agrees scr dev ok k h prompt 2 d w s)
  run-Ends release_all_mouse w s =
      becomes (m_release_all_mouse h live) (record d { buttons = 0 }) w
        (m_release_all_mouse-Agrees scr dev ok k h prompt d w s)
  run-Ends (left_click nbr) w s =
      changes (m_left_click h live nbr) (Changes (pressed 0) (released 0) d) w
        (m_left_click-Clicked scr dev ok k h prompt nbr d w (d, nothing, s))
  run-Ends (right_click nbr) w s =
      changes (m_right_click h live nbr) (Changes (pressed 1) (released 1) d) w
        (m_right_click-Clicked scr dev ok k h prompt nbr d w (d, nothing, s))
  run-Ends (middle_click nbr) w s =
      changes (m_middle_click h live nbr) (Changes (pressed 2) (released 2) d) w
        (m_middle_click-Clicked scr dev ok k h prompt nbr d w (d, nothing, s))
  run-Ends (left_double_click nbr) w s =
      changes (m_left_double_click h live nbr) (Changes (pressed 0) (released 0) d) w
        (m_left_double_click-Clicked scr dev ok k h prompt nbr d w (d, nothing, s))
  run-Ends (mouse_wheel nbr) w s =
      stays (m_mouse_wheel h live nbr) (m_mouse_wheel-Agrees scr dev ok k h prompt nbr d) w s
  run-Ends reset_mouse_pos w s =
      goes (m_reset_mouse_pos h live) (m_reset_mouse_pos-Agrees scr dev ok h prompt d) w s
  run-Ends get_curr_mouse_pos w s =
      stays (do (r, place) ← m_get_curr_mouse_pos live; return r) position_asked w s
  run-Ends (move_r x y) w s =
      goes (m_move_r h live x y) (m_move_r-Agrees scr dev ok h prompt d x y) w s
  run-Ends (move_to x y) w s =
      goes (m_move_to h live x y) (m_move_to-Agrees scr dev ok h prompt d x y) w s
  run-Ends (resolution_used x y) w s =
      stays (m_resolution_used live x y) (m_resolution_used-Agrees scr dev ok h prompt d k x y) w s
  run-Ends (move_to3 x y) w s =
      goes (m_move_to3 h fl live x y) (m_move_to3-Agrees scr dev ok h prompt d fl x y) w s
  run-Ends (delay_random a b) w s =
      stays (m_delay_random h a b) (m_delay_random-Agrees scr dev ok k h prompt a b d) w s
  run-Ends (rand_dom_nbr a b) w s =
      stays (m_rand_dom_nbr h a b) (draw_kept scr dev ok h prompt d fl k a b) w s
  run-Ends (delay time) w s =
      stays (m_delay time)
        (λ w s.
          Ensures-mono _ _ (m_delay time w) (m_delay-Quiet time w)
            (λ r w' q. Agrees-Quiet scr dev ok k d w w' s q))
        w s
