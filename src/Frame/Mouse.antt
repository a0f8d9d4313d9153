-- ===== src/Frame/Mouse.antt =====
-- The buttons and the wheel: of the record they change the mouse's bytes at most.
use msdk_linux.Base.{
  ℕ, ℤ, List, set, if◌then◌else◌, pos, ltb_ℤ, suc, eqb_ℤ, abs, ◌==◌, minus_one, zero,
}
use msdk_linux.Machine.{Host, Udev, World, Prog, live, modify, ◌>>◌, return}
use msdk_linux.Machine.Ends.{Keeps, Keeps-bind, Keeps-if}
use msdk_linux.Frame.{hid_ctrl_comm-Keeps, hid_ctrl_comm, m_delay_random, return, delay-Keeps}
use msdk_linux.Mouse.{
  m_release_all_mouse, m_left_double_click, pause_random, wheel_loop, click_once, send_mouse_op,
  button_up, m_mouse_wheel, button_down, release_button, no_motion, press_button, set_mouse_op,
  double_click_once, m_left_click, m_left_down, m_left_up,
}
use msdk_linux.Common.{m_delay_random}
use msdk_linux.Hid.{hid_ctrl_comm}
use msdk_linux.Machine.Loop.{repeat_nbr}
use msdk_linux.Machine.Loop.Rule.{repeat_nbr-Keeps}
use msdk_linux.Keyboard.{comm_result}

module _ (P : Udev → Type 0) (h : Host)
    (other : (u : Udev) (op : List ℕ) → P u → P (record u { curr_mouse_op = op })) where
  abbrev Q : World → Type 0
  Q w = P w.udev

  pub send_mouse_op-Keeps : Keeps Q (send_mouse_op h)
  unfolding send_mouse_op
  send_mouse_op-Keeps w s =
      Keeps-bind Q (hid_ctrl_comm h 32 w.udev.h_dev 5 w.udev.curr_mouse_op 0)
        (λ reply. return (comm_result reply))
        (hid_ctrl_comm-Keeps P h 32 w.udev.h_dev 5 w.udev.curr_mouse_op 0) (λ reply w s. s) w s

  -- The mouse's bytes are changed, and the rest is done.
  pub changed :
      {A : Type 0} (f : List ℕ → List ℕ) (m : Prog A)
      → Keeps Q m
      → Keeps Q (modify (set_mouse_op f) >> m)
  changed f m keeps w s =
      keeps (record w { udev = set_mouse_op f w.udev }) (other w.udev (f w.udev.curr_mouse_op) s)

  pub button_down-Keeps : (k : ℕ) → Keeps Q (button_down h k live)
  unfolding button_down
  button_down-Keeps k = changed (press_button k) (send_mouse_op h) send_mouse_op-Keeps

  pub button_up-Keeps : (k : ℕ) → Keeps Q (button_up h k live)
  unfolding button_up
  button_up-Keeps k = changed (release_button k) (send_mouse_op h) send_mouse_op-Keeps

  pub m_release_all_mouse-Keeps : Keeps Q (m_release_all_mouse h live)
  unfolding m_release_all_mouse
  m_release_all_mouse-Keeps =
      changed (λ op. no_motion (set (set op 0 0x04) 1 0)) (send_mouse_op h) send_mouse_op-Keeps

  pause-Keeps : (a b : ℤ) → Keeps Q (pause_random h a b)
  pause-Keeps a b =
      Keeps-bind Q (m_delay_random h a b) (λ _. return tt) (delay-Keeps P h a b) (λ r w s. s)

  pub clicks-Keeps :
      (k : ℕ) (nbr : ℤ)
      → Keeps Q (
          repeat_nbr h.patience
            (click_once h (button_down h k) (button_up h k) live)
            (pause_random h (pos 500) (pos 900))
            nbr)
  unfolding click_once
  clicks-Keeps k nbr =
      let up = (do m_delay_random h (pos 50) (pos 80); button_up h k live) in
      repeat_nbr-Keeps Q (click_once h (button_down h k) (button_up h k) live)
        (pause_random h (pos 500) (pos 900))
        (Keeps-bind Q (button_down h k live) (λ r. if eqb_ℤ r (pos 0) then up else return minus_one)
          (button_down-Keeps k)
          (λ r.
            Keeps-if Q (eqb_ℤ r (pos 0)) up (return minus_one)
              (Keeps-bind Q (m_delay_random h (pos 50) (pos 80)) (λ _. button_up h k live)
                (delay-Keeps P h (pos 50) (pos 80)) (λ _. button_up-Keeps k))
              (λ w s. s)))
        (pause-Keeps (pos 500) (pos 900)) h.patience nbr

  pub m_left_double_click-Keeps : (nbr : ℤ) → Keeps Q (m_left_double_click h live nbr)
  unfolding m_left_double_click double_click_once m_left_click m_left_down m_left_up
  m_left_double_click-Keeps nbr =
      let click = m_left_click h live (pos 1) in
      let again = (do m_delay_random h (pos 60) (pos 110); click) in
      repeat_nbr-Keeps Q (double_click_once h live) (pause_random h (pos 500) (pos 800))
        (Keeps-bind Q click (λ r. if eqb_ℤ r (pos 0) then again else return minus_one)
          (clicks-Keeps 0 (pos 1))
          (λ r.
            Keeps-if Q (eqb_ℤ r (pos 0)) again (return minus_one)
              (Keeps-bind Q (m_delay_random h (pos 60) (pos 110)) (λ _. click)
                (delay-Keeps P h (pos 60) (pos 110)) (λ _. clicks-Keeps 0 (pos 1)))
              (λ w s. s)))
        (pause-Keeps (pos 500) (pos 800)) h.patience nbr

  wheel_loop-Keeps : (n : ℕ) → Keeps Q (wheel_loop h n)
  unfolding wheel_loop
  wheel_loop-Keeps zero = changed no_motion (return (pos 0)) (λ w s. s)
  wheel_loop-Keeps (suc n) =
      let rest = wheel_loop h n in
      let again = if n == 0 then rest else (m_delay_random h (pos 20) (pos 35) >> rest) in
      let failed = (do modify (set_mouse_op no_motion); return minus_one) in
      Keeps-bind Q (send_mouse_op h) (λ r. if eqb_ℤ r (pos 0) then again else failed)
        send_mouse_op-Keeps
        (λ r.
          Keeps-if Q (eqb_ℤ r (pos 0)) again failed
            (Keeps-if Q (n == 0) rest (m_delay_random h (pos 20) (pos 35) >> rest)
              (wheel_loop-Keeps n)
              (Keeps-bind Q (m_delay_random h (pos 20) (pos 35)) (λ _. rest)
                (delay-Keeps P h (pos 20) (pos 35)) (λ _. wheel_loop-Keeps n)))
            (changed no_motion (return minus_one) (λ w s. s)))

  pub m_mouse_wheel-Keeps : (nbr : ℤ) → Keeps Q (m_mouse_wheel h live nbr)
  unfolding m_mouse_wheel
  m_mouse_wheel-Keeps nbr =
      changed (λ op. set (set op 0 0x04) 4 (if ltb_ℤ (pos 0) nbr then 1 else 0xFF))
        (wheel_loop h (abs nbr)) (wheel_loop-Keeps (abs nbr))
