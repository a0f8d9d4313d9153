-- ===== src/Api/Progress/Mouse.antt =====
-- The buttons, the wheel and the delays return.
use msdk_linux.Base.{ℕ, ℤ, pos, ◌<◌, ◌<ℤ◌, Bool, ◌^◌, arith, if◌then◌else◌, eqb_ℤ, minus_one}
use msdk_linux.Machine.{Host, World, Device, IsPrompt, live, return, ◌>>◌}
use msdk_linux.Machine.Ends.{Total, Total-bind, Total-if}
use msdk_linux.Api.Box.{Screen}
use msdk_linux.Api.Progress.{
  Sound, stands, halts, Bool, return, arith, repeat_nbr-Total, eqb_ℤ, minus_one,
}
use msdk_linux.Mouse.{
  click_once, button_up, pause_random, m_left_double_click, button_down, m_mouse_wheel,
  m_release_all_mouse, double_click_once, m_left_click, m_left_down, m_left_up,
}
use msdk_linux.Common.{m_delay_random, m_rand_dom_nbr}
use msdk_linux.Common.Range.{Fits}
use msdk_linux.Curve.{Floats}
use msdk_linux.Mouse.Calls.{m_release_all_mouse-Clicked, button_down-Clicked, button_up-Clicked}
use msdk_linux.Common.Range.{m_delay_random_lem, m_rand_dom_nbr_bounds}
use msdk_linux.Api.Buttons.{
  released, pressed, m_delay_random-Agrees, button_up-Agrees, button_down-Agrees,
  m_release_all_mouse-Agrees,
}
use msdk_linux.Machine.Loop.{repeat_nbr}
use msdk_linux.Mouse.Wheel.{m_mouse_wheel-Turned}
use msdk_linux.Api.Agrees.{Agrees-MouseState, kept_of}
use msdk_linux.Api.Steps.{draw_kept}
use msdk_linux.Machine.Loop.Rule.{repeat_nbr-Total}
use msdk_linux.Api.Clicks.{m_mouse_wheel-Agrees}

-- Two ends between which `M_RandDomNbr` can draw.
abbrev pub IsRange : ℤ → ℤ → Type 0
IsRange a b = (a <ℤ b) × Fits a × Fits b

small : (a b : ℕ) → a < b → b < 2 ^ 31 → IsRange (pos a) (pos b)
small a b lt fits = (omega arith, (omega arith, omega arith), (omega arith, omega arith))

module _ (scr : Screen) (dev : Device) (ok : Bool) (h : Host) (prompt : IsPrompt h) where
  abbrev S : World → Type 0
  S = Sound scr dev ok h prompt

  pub delay_random-Total : (a b : ℤ) → IsRange a b → Total S (m_delay_random h a b)
  delay_random-Total a b (lt, fa, fb) w (d, s) =
      let (t, e) = m_delay_random_lem h a b w lt fa fb in
      stands scr dev ok h prompt d d (m_delay_random h a b) w (rw e tt)
        (m_delay_random-Agrees scr dev ok (kept_of w.udev) h prompt a b d w s)

  pub rand-Total : (fl : Floats) (a b : ℤ) → IsRange a b → Total S (m_rand_dom_nbr h a b)
  rand-Total fl a b (lt, fa, fb) w (d, s) =
      let (r, e, low, high) = m_rand_dom_nbr_bounds h a b w lt fa fb in
      stands scr dev ok h prompt d d (m_rand_dom_nbr h a b) w (rw e tt)
        (draw_kept scr dev ok h prompt d fl (kept_of w.udev) a b w s)

  pub button_down-Total : (k : ℕ) → Total S (button_down h k live)
  button_down-Total k w (d, s) =
      stands scr dev ok h prompt d (pressed k d) (button_down h k live) w
        (halts _ (button_down h k live w) (
          button_down-Clicked h prompt dev ok k d.buttons s.reports w
            (Agrees-MouseState scr dev ok (kept_of w.udev) d w s)))
        (button_down-Agrees scr dev ok (kept_of w.udev) h prompt k d w s)

  pub button_up-Total : (k : ℕ) → Total S (button_up h k live)
  button_up-Total k w (d, s) =
      stands scr dev ok h prompt d (released k d) (button_up h k live) w
        (halts _ (button_up h k live w) (
          button_up-Clicked h prompt dev ok k d.buttons s.reports w
            (Agrees-MouseState scr dev ok (kept_of w.udev) d w s)))
        (button_up-Agrees scr dev ok (kept_of w.udev) h prompt k d w s)

  pub release_all_mouse-Total : Total S (m_release_all_mouse h live)
  release_all_mouse-Total w (d, s) =
      stands scr dev ok h prompt d (record d { buttons = 0 }) (m_release_all_mouse h live) w
        (halts _ (m_release_all_mouse h live w) (
          m_release_all_mouse-Clicked h prompt dev ok 0 d.buttons s.reports w
            (Agrees-MouseState scr dev ok (kept_of w.udev) d w s)))
        (m_release_all_mouse-Agrees scr dev ok (kept_of w.udev) h prompt d w s)

  pub pause-Total : (a b : ℤ) → IsRange a b → Total S (pause_random h a b)
  pause-Total a b range =
      Total-bind S (m_delay_random h a b) (λ _. return tt) (delay_random-Total a b range)
        (λ r w s. s)

  -- A number of clicks.
  pub clicks-Total :
      (k n : ℕ)
      → n < h.patience
      → Total S (
          repeat_nbr h.patience
            (click_once h (button_down h k) (button_up h k) live)
            (pause_random h (pos 500) (pos 900))
            (pos n))
  unfolding click_once
  clicks-Total k n lt =
      let up = (do m_delay_random h (pos 50) (pos 80); button_up h k live) in
      repeat_nbr-Total S (click_once h (button_down h k) (button_up h k) live)
        (pause_random h (pos 500) (pos 900))
        (Total-bind S (button_down h k live) (λ r. if eqb_ℤ r (pos 0) then up else return minus_one)
          (button_down-Total k)
          (λ r.
            Total-if S (eqb_ℤ r (pos 0)) up (return minus_one)
              (Total-bind S (m_delay_random h (pos 50) (pos 80)) (λ _. button_up h k live)
                (delay_random-Total (pos 50) (pos 80) (small 50 80 (omega arith) (omega arith)))
                (λ _. button_up-Total k))
              (λ w s. s)))
        (pause-Total (pos 500) (pos 900) (small 500 900 (omega arith) (omega arith))) h.patience n
        lt

  pub double_clicks-Total :
      (n : ℕ) → n < h.patience → 1 < h.patience → Total S (m_left_double_click h live (pos n))
  unfolding m_left_double_click double_click_once m_left_click m_left_down m_left_up
  double_clicks-Total n lt one =
      let click = m_left_click h live (pos 1) in
      let again = (do m_delay_random h (pos 60) (pos 110); click) in
      repeat_nbr-Total S (double_click_once h live) (pause_random h (pos 500) (pos 800))
        (Total-bind S click (λ r. if eqb_ℤ r (pos 0) then again else return minus_one)
          (clicks-Total 0 1 one)
          (λ r.
            Total-if S (eqb_ℤ r (pos 0)) again (return minus_one)
              (Total-bind S (m_delay_random h (pos 60) (pos 110)) (λ _. click)
                (delay_random-Total (pos 60) (pos 110) (small 60 110 (omega arith) (omega arith)))
                (λ _. clicks-Total 0 1 one))
              (λ w s. s)))
        (pause-Total (pos 500) (pos 800) (small 500 800 (omega arith) (omega arith))) h.patience n
        lt

  pub wheel-Total : (nbr : ℤ) → Total S (m_mouse_wheel h live nbr)
  wheel-Total nbr w (d, s) =
      stands scr dev ok h prompt d d (m_mouse_wheel h live nbr) w
        (halts _ (m_mouse_wheel h live nbr w) (
          m_mouse_wheel-Turned h dev ok d.buttons nbr s.reports w prompt
            (Agrees-MouseState scr dev ok (kept_of w.udev) d w s)))
        (m_mouse_wheel-Agrees scr dev ok (kept_of w.udev) h prompt nbr d w s)
