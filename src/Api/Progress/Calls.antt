-- ===== src/Api/Progress/Calls.antt =====
-- Every call of msdk/msdk.h returns at a device that answers at once.
use msdk_linux.Api.Runs.{Got, Stands-cases}
use msdk_linux.Hid.Wire.{AllTaken}
use msdk_linux.Base.{◌⊎◌}
use msdk_linux.Base.{
  ℕ, ℤ, pos, negsuc, ◌≡◌, ◌<◌, Bool, ◌≤ℤ◌, abs, ◌≤◌, ◌*◌, ◌-ℤ◌, arith, Bool-cases, true, ◌==◌,
  false, ltb_ℤ, ◌||◌, minus_one, leb_ℤ,
}
use msdk_linux.Machine.{Host, World, Prog, Device, IsPrompt, live, return_if, return, ◌>>◌, modify}
use msdk_linux.Machine.Ends.{Returns, Returns-mono, Returns-both, Total, Returns-bind}
use msdk_linux.Api.Box.{Screen, Down}
use msdk_linux.Api.Progress.{
  Sound, halts, Halts, Bool, Stands, Total, m_key_down, key_down-Total, m_key_up, key_up-Total,
  m_key_state, key_state-Total, by_vkey-Total, m_key_press, press-Total, m_release_all_key,
  release_all_key-Total, led_state-Total, arith, Bool-cases, inl, inr, minus_one, return,
}
use msdk_linux.Api.Requests.{
  Request, key_down2, key_up2, run, key_state2, Effect, key_press, key_press2, left_click,
  right_click, middle_click, left_double_click, move_r, move_to, move_to3, delay_random,
  rand_dom_nbr, key_down, reset_mouse_pos, key_up, key_state, mouse_wheel, resolution_used, delay,
  release_all_key, num_lock, caps_lock, scroll_lock, left_down, left_up, right_down, right_up,
  middle_down, middle_up, release_all_mouse, get_curr_mouse_pos,
}
use msdk_linux.Curve.{Floats}
use msdk_linux.Curve.Draw.{IsInt}
use msdk_linux.Api.Agrees.{Stands, kept_of, restand, still}
use msdk_linux.Led.{m_num_lock_led_state, m_caps_lock_led_state, m_scroll_lock_led_state}
use msdk_linux.Api.Answers.{run-Ends}
use msdk_linux.Mouse.{
  m_left_down, m_left_up, m_right_down, m_right_up, m_middle_down, m_middle_up, m_left_click,
  m_right_click, m_middle_click, m_left_double_click, m_release_all_mouse, m_mouse_wheel,
}
use msdk_linux.Keyboard.{
  m_key_down2, m_key_up2, m_key_state2, m_key_press2, m_key_down, m_key_up, m_key_state,
  m_key_press, m_release_all_key,
}
use msdk_linux.Api.Fits.{Pixel}
use msdk_linux.Api.Progress.Moves.{
  IsNear, m_reset_mouse_pos-Halts, m_move_r-Halts, m_move_to-Halts, m_move_to_below-Halts,
  m_move_to3-Halts,
}
use msdk_linux.Move.{m_get_curr_mouse_pos}
use msdk_linux.Absolute.{m_resolution_used}
use msdk_linux.Api.Progress.Mouse.{
  IsRange, button_down-Total, button_up-Total, clicks-Total, double_clicks-Total,
  release_all_mouse-Total, wheel-Total, delay_random-Total, rand-Total,
}
use msdk_linux.Common.{m_delay, m_delay_random, m_rand_dom_nbr}

-- A count from 0 on and below the patience.
abbrev pub Count : ℕ → ℤ → Type 0
Count patience (pos n) = n < patience
Count patience (negsuc n) = ⊥

-- What a call needs to come to its end in `w`: a count, a Windows code that is not negative, two ends
-- to draw between, or a distance of at most `n` rounds. Every other call needs nothing.
abbrev pub Within : ℕ → ℕ → Request → World → Type 0
Within patience n (key_down2 code) w = pos 0 ≤ℤ code
Within patience n (key_up2 code) w = pos 0 ≤ℤ code
Within patience n (key_state2 code) w = pos 0 ≤ℤ code
Within patience n (key_press code nbr) w = Count patience nbr
Within patience n (key_press2 code nbr) w = (pos 0 ≤ℤ code) × Count patience nbr
Within patience n (left_click nbr) w = Count patience nbr
Within patience n (right_click nbr) w = Count patience nbr
Within patience n (middle_click nbr) w = Count patience nbr
Within patience n (left_double_click nbr) w = Count patience nbr × (1 < patience)
Within patience n reset_mouse_pos w = 30 < patience
Within patience n (move_r x y) w = (abs x ≤ 100 * n) × (abs y ≤ 100 * n)
Within patience n (move_to x y) w = Pixel (IsNear n w) x y
Within patience n (move_to3 x y) w =
    w.udev.mouse_1st_movto ≡ 1
    → (abs (x -ℤ w.udev.curr_mouse_abs_pos_x) ≤ 50 * n)
      × (abs (y -ℤ w.udev.curr_mouse_abs_pos_y) ≤ 50 * n)
Within patience n (delay_random a b) w = IsRange a b
Within patience n (rand_dom_nbr a b) w = IsRange a b
Within patience n other w = Unit

return_if-Halts :
    (b : Bool) (a : ℤ) (m : Prog ℤ) (w : World) → Halts (m w) → Halts (return_if b a m w)
return_if-Halts true a m w p = tt
return_if-Halts false a m w p = p

position_asked-Halts : (w : World) → Halts (m_get_curr_mouse_pos live w)
unfolding m_get_curr_mouse_pos
position_asked-Halts w = elim (Bool-cases (w.udev.mouse_1st_movto == 0)) [
  | inl e ↦ rw e tt
  | inr e ↦ rw e tt
]

module _ (h : Host) (fl : Floats) (scr : Screen) (dev : Device) (ok : Bool) (n : ℕ)
    (prompt : IsPrompt h) (int : IsInt fl) (enough : n < h.patience) where
  abbrev S : World → Type 0
  S = Sound scr dev ok h prompt

  whole : (m : Prog ℤ) → Total S m → (w : World) → S w → Halts (m w)
  whole m total w s = halts (λ r. S) (m w) (total w s)

  run-Halts :
      (ask : Request) (d : Down) (w : World)
      → Stands scr dev ok d w
      → Within h.patience n ask w
      → Halts (run h fl ask w)
  unfolding run m_num_lock_led_state m_caps_lock_led_state m_scroll_lock_led_state m_left_down
      m_left_up m_right_down m_right_up m_middle_down m_middle_up m_key_down2 m_key_up2 m_key_state2
      m_key_press2 m_left_click m_right_click m_middle_click m_get_curr_mouse_pos m_resolution_used
      m_delay
  run-Halts (key_down code) d w s q =
      whole (m_key_down h live code) (key_down-Total scr dev ok h prompt code) w (d, s)
  run-Halts (key_up code) d w s q =
      whole (m_key_up h live code) (key_up-Total scr dev ok h prompt code) w (d, s)
  run-Halts (key_state code) d w s q =
      whole (m_key_state live code) (key_state-Total scr dev ok h prompt code) w (d, s)
  run-Halts (key_down2 (pos c)) d w s q =
      whole (m_key_down2 h live (pos c))
        (by_vkey-Total scr dev ok h prompt (m_key_down h live) c
          (key_down-Total scr dev ok h prompt))
        w (d, s)
  run-Halts (key_up2 (pos c)) d w s q =
      whole (m_key_up2 h live (pos c))
        (by_vkey-Total scr dev ok h prompt (m_key_up h live) c (key_up-Total scr dev ok h prompt)) w
        (d, s)
  run-Halts (key_state2 (pos c)) d w s q =
      whole (m_key_state2 live (pos c))
        (by_vkey-Total scr dev ok h prompt (m_key_state live) c
          (key_state-Total scr dev ok h prompt))
        w (d, s)
  run-Halts (key_press code (pos m)) d w s q =
      whole (m_key_press h live code (pos m)) (press-Total scr dev ok h prompt code m q) w (d, s)
  run-Halts (key_press2 (pos c) (pos m)) d w s q =
      whole (m_key_press2 h live (pos c) (pos m))
        (by_vkey-Total scr dev ok h prompt (λ hid. m_key_press h live hid (pos m)) c
          (λ hid. press-Total scr dev ok h prompt hid m q.1))
        w (d, s)
  run-Halts release_all_key d w s q =
      whole (m_release_all_key h live) (release_all_key-Total scr dev ok h prompt) w (d, s)
  run-Halts num_lock d w s q =
      whole (m_num_lock_led_state h live) (led_state-Total scr dev ok h prompt 0) w (d, s)
  run-Halts caps_lock d w s q =
      whole (m_caps_lock_led_state h live) (led_state-Total scr dev ok h prompt 1) w (d, s)
  run-Halts scroll_lock d w s q =
      whole (m_scroll_lock_led_state h live) (led_state-Total scr dev ok h prompt 2) w (d, s)
  run-Halts left_down d w s q =
      whole (m_left_down h live) (button_down-Total scr dev ok h prompt 0) w (d, s)
  run-Halts left_up d w s q =
      whole (m_left_up h live) (button_up-Total scr dev ok h prompt 0) w (d, s)
  run-Halts (left_click (pos m)) d w s q =
      whole (m_left_click h live (pos m)) (clicks-Total scr dev ok h prompt 0 m q) w (d, s)
  run-Halts right_down d w s q =
      whole (m_right_down h live) (button_down-Total scr dev ok h prompt 1) w (d, s)
  run-Halts right_up d w s q =
      whole (m_right_up h live) (button_up-Total scr dev ok h prompt 1) w (d, s)
  run-Halts (right_click (pos m)) d w s q =
      whole (m_right_click h live (pos m)) (clicks-Total scr dev ok h prompt 1 m q) w (d, s)
  run-Halts middle_down d w s q =
      whole (m_middle_down h live) (button_down-Total scr dev ok h prompt 2) w (d, s)
  run-Halts middle_up d w s q =
      whole (m_middle_up h live) (button_up-Total scr dev ok h prompt 2) w (d, s)
  run-Halts (middle_click (pos m)) d w s q =
      whole (m_middle_click h live (pos m)) (clicks-Total scr dev ok h prompt 2 m q) w (d, s)
  run-Halts (left_double_click (pos m)) d w s q =
      whole (m_left_double_click h live (pos m)) (double_clicks-Total scr dev ok h prompt m q.0 q.1)
        w (d, s)
  run-Halts release_all_mouse d w s q =
      whole (m_release_all_mouse h live) (release_all_mouse-Total scr dev ok h prompt) w (d, s)
  run-Halts (mouse_wheel nbr) d w s q =
      whole (m_mouse_wheel h live nbr) (wheel-Total scr dev ok h prompt nbr) w (d, s)
  run-Halts (delay_random a b) d w s q =
      whole (m_delay_random h a b) (delay_random-Total scr dev ok h prompt a b q) w (d, s)
  run-Halts (rand_dom_nbr a b) d w s q =
      whole (m_rand_dom_nbr h a b) (rand-Total scr dev ok h prompt fl a b q) w (d, s)
  run-Halts (key_down2 (negsuc c)) d w s q = absurd (omega (arith, q))
  run-Halts (key_up2 (negsuc c)) d w s q = absurd (omega (arith, q))
  run-Halts (key_state2 (negsuc c)) d w s q = absurd (omega (arith, q))
  run-Halts (key_press code (negsuc m)) d w s q = absurd q
  run-Halts (key_press2 (pos c) (negsuc m)) d w s q = absurd q.1
  run-Halts (key_press2 (negsuc c) nbr) d w s q = absurd (omega (arith, q.0))
  run-Halts (left_click (negsuc m)) d w s q = absurd q
  run-Halts (right_click (negsuc m)) d w s q = absurd q
  run-Halts (middle_click (negsuc m)) d w s q = absurd q
  run-Halts (left_double_click (negsuc m)) d w s q = absurd q.0
  run-Halts reset_mouse_pos d w s q = m_reset_mouse_pos-Halts scr dev ok h prompt n enough d w s q
  run-Halts (move_r x y) d w s (far_x, far_y) =
      m_move_r-Halts scr dev ok h prompt n enough d w s x y far_x far_y
  run-Halts (move_to (pos a) (pos b)) d w s q =
      m_move_to-Halts scr dev ok h prompt n enough d w s a b q
  run-Halts (move_to (pos a) (negsuc m)) d w s q =
      m_move_to_below-Halts scr dev ok h prompt n enough d w s (pos a) (negsuc m) (ground arith)
  run-Halts (move_to (negsuc m) y) d w s q =
      m_move_to_below-Halts scr dev ok h prompt n enough d w s (negsuc m) y (ground arith)
  run-Halts (move_to3 x y) d w s q =
      m_move_to3-Halts scr dev ok h prompt n enough d w s fl int x y q
  run-Halts get_curr_mouse_pos d w s q =
      Returns-bind (λ t w. Unit) (λ r w. Unit) (m_get_curr_mouse_pos live) (λ t. return t.0) w
        (position_asked-Halts w) (λ t w u. tt)
  run-Halts (resolution_used x y) d w s q =
      let store : Prog ℤ = (do modify (λ u. record u { cx = x; cy = y }); return (pos 0)) in
      let positive : Prog ℤ = return_if (leb_ℤ x (pos 0) || leb_ℤ y (pos 0)) (negsuc 1) store in
      return_if-Halts (ltb_ℤ x (pos 0) || ltb_ℤ y (pos 0)) minus_one positive w
        (return_if-Halts (leb_ℤ x (pos 0) || leb_ℤ y (pos 0)) (negsuc 1) store w tt)
  run-Halts (delay time) d w s q = tt

  -- At a device that answers at once and with lengths that fit an int, from a state in which the
  -- record and the reports that were handed over to the transfers agree, every call returns,
  -- whatever it answers, in a state in which the record and the reports that were handed over until
  -- then agree again, with what is down and the pointer as the call allows, and the box takes this
  -- to be so from the reports that it has got, or a transfer of one has failed: a call with a count
  -- that is not negative and below the patience (for double clicks, with patience for more than one
  -- round), with a Windows code that is not negative, with two ends to draw between, or with a
  -- distance within the patience, and every other call as it is.
  pub run-Returns :
      (ask : Request) (d : Down) (w : World)
      → Stands scr dev ok d w
      → Within h.patience n ask w
      → Returns (run h fl ask w) (λ r w'.
        (d' : Down) × Effect ask d d'
        × Stands scr dev ok d' w'
        × (Got scr ok h d' w' ⊎ ¬ AllTaken h w'.calls))
  run-Returns ask d w s within =
      Returns-mono _ _ (run h fl ask w)
        (Returns-both _ _ (run h fl ask w) (run-Halts ask d w s within)
          (run-Ends scr dev ok h prompt fl (kept_of w.udev) d ask w s))
        (λ r w' (u, (k', d', kept, effect, s')).
          let stands = restand scr dev ok k' still d' d' w' s' in
          (d', effect, stands, Stands-cases h d' w' stands))
