-- ===== src/Api/Clicks.antt =====
-- The click functions and the wheel keep the record and the box in agreement, whatever the count is.
use msdk_linux.Base.{
  ℕ, List, Bool, ℤ, ap, pos, get_or, ◌≡◌, suc, if◌then◌else◌, ◌∙◌, eqb_ℤ, refl, ◌==◌, minus_one,
  zero, ltb_ℤ, set, abs,
}
use msdk_linux.Machine.{Device, Host, IsPrompt, World, live, ◌>>◌, modify, return}
use msdk_linux.Mouse.{
  m_middle_click, m_left_click, m_right_click, m_left_double_click, wheel_loop, double_click_once,
  m_left_down, m_right_down, m_middle_down, no_motion, send_mouse_op, m_left_up, m_right_up,
  m_middle_up, set_mouse_op, click_once, pause_random, button_down, button_up, m_mouse_wheel,
}
use msdk_linux.Api.Agrees.{
  Agrees, Holds-shows_buttons, Kept, still, send_mouse_op-turned, turned, Holds,
}
use msdk_linux.Api.Box.{Down, Screen}
use msdk_linux.Machine.Ends.{
  Keeps, Ensures, Ensures-mono, Keeps-bind, Keeps-if, Leads, Leads-bind, Leads-if,
}
use msdk_linux.Common.{m_delay_random}
use msdk_linux.Api.Buttons.{Clicked, pause-Clicked, click_once-Clicked, delay-Clicked, Holds-Quiet}
use msdk_linux.Machine.Loop.{repeat_nbr}
use msdk_linux.Common.Quiet.{m_delay_random-Quiet}
use msdk_linux.Machine.Loop.Rule.{repeat_nbr-Keeps}

module _ (scr : Screen) (dev : Device) (ok : Bool) (k0 : Kept) (h : Host)
    (prompt : IsPrompt h) where
  clicks-Clicked :
      (k : ℕ) (a b nbr : ℤ) (d : Down)
      → Keeps (Clicked scr dev ok k0 h prompt k d) (
          repeat_nbr h.patience
            (click_once h (button_down h k) (button_up h k) live)
            (pause_random h a b)
            nbr)
  clicks-Clicked k a b nbr d =
      repeat_nbr-Keeps (Clicked scr dev ok k0 h prompt k d)
        (click_once h (button_down h k) (button_up h k) live) (pause_random h a b)
        (click_once-Clicked scr dev ok k0 h prompt k d)
        (pause-Clicked scr dev ok k0 h prompt k a b d) h.patience nbr

  pub m_left_click-Clicked :
      (nbr : ℤ) (d : Down) → Keeps (Clicked scr dev ok k0 h prompt 0 d) (m_left_click h live nbr)
  unfolding m_left_click m_left_down m_left_up
  m_left_click-Clicked nbr d = clicks-Clicked 0 (pos 500) (pos 900) nbr d

  pub m_right_click-Clicked :
      (nbr : ℤ) (d : Down) → Keeps (Clicked scr dev ok k0 h prompt 1 d) (m_right_click h live nbr)
  unfolding m_right_click m_right_down m_right_up
  m_right_click-Clicked nbr d = clicks-Clicked 1 (pos 500) (pos 900) nbr d

  pub m_middle_click-Clicked :
      (nbr : ℤ) (d : Down) → Keeps (Clicked scr dev ok k0 h prompt 2 d) (m_middle_click h live nbr)
  unfolding m_middle_click m_middle_down m_middle_up
  m_middle_click-Clicked nbr d = clicks-Clicked 2 (pos 500) (pos 900) nbr d

  double_click_once-Clicked :
      (d : Down) → Keeps (Clicked scr dev ok k0 h prompt 0 d) (double_click_once h live)
  unfolding double_click_once
  double_click_once-Clicked d =
      let P = Clicked scr dev ok k0 h prompt 0 d in
      let click = m_left_click h live (pos 1) in
      let again = (do m_delay_random h (pos 60) (pos 110); m_left_click h live (pos 1)) in
      Keeps-bind P click (λ r. if eqb_ℤ r (pos 0) then again else return minus_one)
        (m_left_click-Clicked (pos 1) d)
        (λ r.
          Keeps-if P (eqb_ℤ r (pos 0)) again (return minus_one)
            (Keeps-bind P (m_delay_random h (pos 60) (pos 110)) (λ _. click)
              (delay-Clicked scr dev ok k0 h prompt 0 (pos 60) (pos 110) d)
              (λ _. m_left_click-Clicked (pos 1) d))
            (λ w s. s))

  pub m_left_double_click-Clicked :
      (nbr : ℤ) (d : Down)
      → Keeps (Clicked scr dev ok k0 h prompt 0 d) (m_left_double_click h live nbr)
  unfolding m_left_double_click
  m_left_double_click-Clicked nbr d =
      repeat_nbr-Keeps (Clicked scr dev ok k0 h prompt 0 d) (double_click_once h live)
        (pause_random h (pos 500) (pos 800)) (double_click_once-Clicked d)
        (pause-Clicked scr dev ok k0 h prompt 0 (pos 500) (pos 800) d) h.patience nbr

  -- `d` is down, the next report is one of the mouse, and it turns the wheel.
  abbrev Ready : ℕ → Down → World → Type 0
  Ready turn d w = Holds scr dev ok k0 (turned turn) d d w × (get_or w.udev.curr_mouse_op 0 0 ≡ 4)

  stop :
      (turn : ℕ) (d : Down) (r : ℤ) (w : World)
      → Holds scr dev ok k0 (turned turn) d d w
      → Ensures
          ((do modify (set_mouse_op no_motion); return r) w)
          (λ r w'. Agrees scr dev ok k0 d w')
  stop turn d r w s =
      Holds-shows_buttons scr dev ok k0 (turned turn) d d d.buttons still no_motion w s
        (record { first = s.mouse.first; bytes = ap no_motion s.mouse.bytes })

  send_mouse_op-Ready : (turn : ℕ) (d : Down) → Keeps (Ready turn d) (send_mouse_op h)
  send_mouse_op-Ready turn d w (s, four) =
      Ensures-mono _ _ (send_mouse_op h w)
        (send_mouse_op-turned scr dev ok h prompt k0 turn d d w s refl four)
        (λ r w' (s', same). (s', ap (λ u. get_or u.curr_mouse_op 0 0) same ∙ four))

  delay-Ready : (turn : ℕ) (a b : ℤ) (d : Down) → Keeps (Ready turn d) (m_delay_random h a b)
  delay-Ready turn a b d w (s, four) =
      Ensures-mono _ _ (m_delay_random h a b w) (m_delay_random-Quiet h a b w) (λ r w' q. (
        Holds-Quiet scr dev ok k0 (turned turn) d w w' s q,
        ap (λ u. get_or u.curr_mouse_op 0 0) q.0 ∙ four,
      ))

  wheel_loop-Agrees :
      (turn n : ℕ) (d : Down) → Leads (Ready turn d) (Agrees scr dev ok k0 d) (wheel_loop h n)
  unfolding wheel_loop
  wheel_loop-Agrees turn zero d = λ w s. stop turn d (pos 0) w s.0
  wheel_loop-Agrees turn (suc n) d =
      let P = Ready turn d in
      let Q = Agrees scr dev ok k0 d in
      let rest = wheel_loop h n in
      let again = if n == 0 then rest else (m_delay_random h (pos 20) (pos 35) >> rest) in
      let failed = (do modify (set_mouse_op no_motion); return minus_one) in
      Leads-bind P P Q (send_mouse_op h) (λ r. if eqb_ℤ r (pos 0) then again else failed)
        (send_mouse_op-Ready turn d)
        (λ r.
          Leads-if P Q (eqb_ℤ r (pos 0)) again failed
            (Leads-if P Q (n == 0) rest (m_delay_random h (pos 20) (pos 35) >> rest)
              (wheel_loop-Agrees turn n d)
              (Leads-bind P P Q (m_delay_random h (pos 20) (pos 35)) (λ _. rest)
                (delay-Ready turn (pos 20) (pos 35) d) (λ _. wheel_loop-Agrees turn n d)))
            (λ w s. stop turn d minus_one w s.0))

  pub m_mouse_wheel-Agrees :
      (nbr : ℤ) (d : Down) → Keeps (Agrees scr dev ok k0 d) (m_mouse_wheel h live nbr)
  unfolding m_mouse_wheel
  m_mouse_wheel-Agrees nbr d w s =
      let turn : ℕ = if ltb_ℤ (pos 0) nbr then 1 else 0xFF in
      let f : List ℕ → List ℕ = λ op. set (set op 0 0x04) 4 turn in
      wheel_loop-Agrees turn (abs nbr) d (record w { udev = set_mouse_op f w.udev })
        (
          Holds-shows_buttons scr dev ok k0 still d d d.buttons (turned turn) f w s
              (record { first = 4; bytes = ap f s.mouse.bytes }),
          ap (λ op. get_or (f op) 0 0) s.mouse.bytes,
        )
