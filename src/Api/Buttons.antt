-- ===== src/Api/Buttons.antt =====
-- The buttons and the wheel keep the record and the box in agreement.
use msdk_linux.Base.{
  ℕ, List, Bool, set_bit, clear_bit, ℤ, get_or, ap, ◌≡◌, pos, set, if◌then◌else◌, eqb_ℤ, minus_one,
  refl, sym,
}
use msdk_linux.Api.Box.{Down, Screen}
use msdk_linux.Machine.{Device, Host, World, IsPrompt, live, ◌>>◌, modify, return}
use msdk_linux.Api.Agrees.{
  Agrees, Clicks, Holds-same, Holds-shows_buttons, IsPlaced, Holds, Kept, still, Motion,
  send_mouse_op-turned,
}
use msdk_linux.Mouse.{
  button_down, click_once, m_release_all_mouse, button_up, pause_random, no_motion, release_button,
  press_button, set_mouse_op, send_mouse_op,
}
use msdk_linux.Common.Quiet.{Quiet, m_delay_random-Quiet}
use msdk_linux.Api.Keys.{Changes, first, second}
use msdk_linux.Machine.Ends.{Keeps, Ensures, Ensures-mono, Keeps-bind, Keeps-if}
use msdk_linux.Common.{m_delay_random}
use mathlib.Core.Path.{subst, sym}

abbrev pub pressed : ℕ → Down → Down
pressed k d = record d { buttons = set_bit d.buttons k }

abbrev pub released : ℕ → Down → Down
released k d = record d { buttons = clear_bit d.buttons k }

module _ (scr : Screen) (dev : Device) (ok : Bool) (k0 : Kept) where
  pub Holds-Quiet :
      (m : Motion) (d : Down) (w w' : World)
      → Holds scr dev ok k0 m d d w
      → Quiet w w'
      → Holds scr dev ok k0 m d d w'
  Holds-Quiet m d w w' s (same, quiet) =
      Holds-same scr dev ok k0 k0 m d d w w' s (ap (λ u. u.h_dev) same)
        (ap (λ u. u.curr_kb_op) same) (ap (λ u. u.curr_mouse_op) same) quiet
        (subst (IsPlaced k0) (sym same) s.place)

  pub Agrees-Quiet :
      (d : Down) (w w' : World) → Agrees scr dev ok k0 d w → Quiet w w' → Agrees scr dev ok k0 d w'
  Agrees-Quiet d = Holds-Quiet still d

  module _ (h : Host) (prompt : IsPrompt h) where
    pub m_delay_random-Agrees :
        (a b : ℤ) (d : Down) → Keeps (Agrees scr dev ok k0 d) (m_delay_random h a b)
    m_delay_random-Agrees a b d w s =
        Ensures-mono _ _ (m_delay_random h a b w) (m_delay_random-Quiet h a b w)
          (λ r w' q. Agrees-Quiet d w w' s q)

    -- The buttons are changed in the record by `f`, and the report goes out.
    report_buttons :
        (d : Down) (buttons : ℕ) (f : List ℕ → List ℕ) (w : World)
        → Agrees scr dev ok k0 d w
        → Clicks (f w.udev.curr_mouse_op) buttons still
        → get_or (f w.udev.curr_mouse_op) 0 0 ≡ 4
        → Ensures
            ((do modify (set_mouse_op f); send_mouse_op h) w)
            (λ r w'. Agrees scr dev ok k0 (record d { buttons = buttons }) w')
    report_buttons d buttons f w s shows four =
        let w1 : World = record w { udev = set_mouse_op f w.udev } in
        Ensures-mono _ _ (send_mouse_op h w1)
          (send_mouse_op-turned scr dev ok h prompt k0 0 (record d { buttons = buttons }) d w1
            (Holds-shows_buttons scr dev ok k0 still d d buttons still f w s shows) refl four)
          (λ r w' (s', same). s')

    pub button_down-Agrees :
        (k : ℕ) (d : Down) (w : World)
        → Agrees scr dev ok k0 d w
        → Ensures (button_down h k live w) (λ r w'. Agrees scr dev ok k0 (pressed k d) w')
    unfolding button_down
    button_down-Agrees k d w s =
        let e = ap (press_button k) s.mouse.bytes in
        report_buttons d (set_bit d.buttons k) (press_button k) w s
          (record { first = 4; bytes = e }) (ap (λ op. get_or op 0 0) e)

    pub button_up-Agrees :
        (k : ℕ) (d : Down) (w : World)
        → Agrees scr dev ok k0 d w
        → Ensures (button_up h k live w) (λ r w'. Agrees scr dev ok k0 (released k d) w')
    unfolding button_up
    button_up-Agrees k d w s =
        let e = ap (release_button k) s.mouse.bytes in
        report_buttons d (clear_bit d.buttons k) (release_button k) w s
          (record { first = 4; bytes = e }) (ap (λ op. get_or op 0 0) e)

    pub m_release_all_mouse-Agrees :
        (d : Down) (w : World)
        → Agrees scr dev ok k0 d w
        → Ensures
            (m_release_all_mouse h live w)
            (λ r w'. Agrees scr dev ok k0 (record d { buttons = 0 }) w')
    unfolding m_release_all_mouse
    m_release_all_mouse-Agrees d w s =
        let f : List ℕ → List ℕ = λ op. no_motion (set (set op 0 0x04) 1 0) in
        let e = ap f s.mouse.bytes in
        report_buttons d 0 f w s (record { first = 4; bytes = e }) (ap (λ op. get_or op 0 0) e)

    -- What came from `d` by presses and releases of the button.
    abbrev pub Clicked : ℕ → Down → World → Type 0
    Clicked k d w = (d' : Down) × Changes (pressed k) (released k) d d' × Agrees scr dev ok k0 d' w

    pub delay-Clicked : (k : ℕ) (a b : ℤ) (d : Down) → Keeps (Clicked k d) (m_delay_random h a b)
    delay-Clicked k a b d w (d', c, s) =
        Ensures-mono _ _ (m_delay_random h a b w) (m_delay_random-Agrees a b d' w s)
          (λ r w' s'. (d', c, s'))

    pub pause-Clicked : (k : ℕ) (a b : ℤ) (d : Down) → Keeps (Clicked k d) (pause_random h a b)
    pause-Clicked k a b d =
        Keeps-bind (Clicked k d) (m_delay_random h a b) (λ _. return tt) (delay-Clicked k a b d)
          (λ r w s. s)

    pub click_once-Clicked :
        (k : ℕ) (d : Down)
        → Keeps (Clicked k d) (click_once h (button_down h k) (button_up h k) live)
    unfolding click_once
    click_once-Clicked k d =
        let up = (do m_delay_random h (pos 50) (pos 80); button_up h k live) in
        Keeps-bind (Clicked k d) (button_down h k live)
          (λ r. if eqb_ℤ r (pos 0) then up else return minus_one)
          (λ w (d', c, s).
            Ensures-mono _ _ (button_down h k live w) (button_down-Agrees k d' w s)
              (λ r w' s'. (pressed k d', first c, s')))
          (λ r.
            Keeps-if (Clicked k d) (eqb_ℤ r (pos 0)) up (return minus_one)
              (Keeps-bind (Clicked k d) (m_delay_random h (pos 50) (pos 80))
                (λ _. button_up h k live) (delay-Clicked k (pos 50) (pos 80) d)
                (λ _ w (d', c, s).
                  Ensures-mono _ _ (button_up h k live w) (button_up-Agrees k d' w s)
                    (λ r w' s'. (released k d', second c, s'))))
              (λ w s. s))
