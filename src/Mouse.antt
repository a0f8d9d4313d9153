-- ===== src/Mouse.antt =====
-- msdk/msdk.c, the buttons and the wheel of the mouse.
pub mod Calls
pub mod Click
pub mod Wheel
pub mod DoubleClick
use msdk_linux.Base.{
  ℕ, List, ℤ, set, clear_bit, pos, minus_one, if◌then◌else◌, set_bit, get_or, suc, eqb_ℤ, ltb_ℤ,
  abs, ◌==◌, zero,
}
use msdk_linux.Machine.{Host, Prog, Handle, ◌>>◌, ◌>>=◌, Udev, return, modify, udev, null, live}
use msdk_linux.Hid.{hid_ctrl_comm}
use msdk_linux.Keyboard.{comm_result}
use msdk_linux.Common.{m_delay_random}
use msdk_linux.Machine.Loop.{repeat_nbr}

abbrev pub set_mouse_op : (List ℕ → List ℕ) → Udev → Udev
set_mouse_op f u = record u { curr_mouse_op = f u.curr_mouse_op }

-- The last three bytes, the movement and the wheel, are cleared.
abbrev pub no_motion : List ℕ → List ℕ
no_motion op = set (set (set op 2 0) 3 0) 4 0

-- `CurrMouseOp` goes out, all five bytes of it.
unfoldable pub send_mouse_op : Host → Prog ℤ
send_mouse_op h = do
  u ← udev
  reply ← hid_ctrl_comm h 32 u.h_dev 5 u.curr_mouse_op 0
  return (comm_result reply)

-- The body that the functions of the three buttons share; `k` is the button's bit in byte 1.
abbrev pub press_button : ℕ → List ℕ → List ℕ
press_button k op = let op' = no_motion (set op 0 0x04) in set op' 1 (set_bit (get_or op' 1 0) k)

abbrev pub release_button : ℕ → List ℕ → List ℕ
release_button k op =
    let op' = no_motion (set op 0 0x04) in set op' 1 (clear_bit (get_or op' 1 0) k)

unfoldable pub button_down : Host → ℕ → Handle → Prog ℤ
unfolding send_mouse_op
button_down h k null = return minus_one
button_down h k live = do modify (set_mouse_op (press_button k)); send_mouse_op h

unfoldable pub button_up : Host → ℕ → Handle → Prog ℤ
unfolding send_mouse_op
button_up h k null = return minus_one
button_up h k live = do modify (set_mouse_op (release_button k)); send_mouse_op h

unfoldable pub m_left_down : Host → Handle → Prog ℤ
unfolding button_down
m_left_down h = button_down h 0

unfoldable pub m_left_up : Host → Handle → Prog ℤ
unfolding button_up
m_left_up h = button_up h 0

unfoldable pub m_right_down : Host → Handle → Prog ℤ
unfolding button_down
m_right_down h = button_down h 1

unfoldable pub m_right_up : Host → Handle → Prog ℤ
unfolding button_up
m_right_up h = button_up h 1

unfoldable pub m_middle_down : Host → Handle → Prog ℤ
unfolding button_down
m_middle_down h = button_down h 2

unfoldable pub m_middle_up : Host → Handle → Prog ℤ
unfolding button_up
m_middle_up h = button_up h 2

-- One round of a click: down, a delay, up.
unfoldable pub click_once : Host → (Handle → Prog ℤ) → (Handle → Prog ℤ) → Handle → Prog ℤ
click_once h down up m_hdl = do
  r ← down m_hdl
  if eqb_ℤ r (pos 0) then (do m_delay_random h (pos 50) (pos 80); up m_hdl) else return minus_one

abbrev pub pause_random : Host → ℤ → ℤ → Prog (Unit {0})
pause_random h a b = do m_delay_random h a b; return tt

unfoldable pub m_left_click : Host → Handle → ℤ → Prog ℤ
unfolding click_once
m_left_click h null nbr = return minus_one
m_left_click h live nbr =
    repeat_nbr h.patience (click_once h (m_left_down h) (m_left_up h) live)
      (pause_random h (pos 500) (pos 900)) nbr

unfoldable pub m_right_click : Host → Handle → ℤ → Prog ℤ
unfolding click_once
m_right_click h null nbr = return minus_one
m_right_click h live nbr =
    repeat_nbr h.patience (click_once h (m_right_down h) (m_right_up h) live)
      (pause_random h (pos 500) (pos 900)) nbr

unfoldable pub m_middle_click : Host → Handle → ℤ → Prog ℤ
unfolding click_once
m_middle_click h null nbr = return minus_one
m_middle_click h live nbr =
    repeat_nbr h.patience (click_once h (m_middle_down h) (m_middle_up h) live)
      (pause_random h (pos 500) (pos 900)) nbr

-- One round of a double click.
unfoldable pub double_click_once : Host → Handle → Prog ℤ
double_click_once h m_hdl = do
  r ← m_left_click h m_hdl (pos 1)
  if eqb_ℤ r (pos 0)
      then (do m_delay_random h (pos 60) (pos 110); m_left_click h m_hdl (pos 1))
      else return minus_one

unfoldable pub m_left_double_click : Host → Handle → ℤ → Prog ℤ
unfolding double_click_once
m_left_double_click h null nbr = return minus_one
m_left_double_click h live nbr =
    repeat_nbr h.patience (double_click_once h live) (pause_random h (pos 500) (pos 800)) nbr

unfoldable pub m_release_all_mouse : Host → Handle → Prog ℤ
unfolding send_mouse_op
m_release_all_mouse h null = return minus_one
m_release_all_mouse h live = do
  modify (set_mouse_op (λ op. no_motion (set (set op 0 0x04) 1 0)))
  send_mouse_op h

-- The loop of `M_MouseWheel`, with `nbr_abs` rounds left.
unfoldable pub wheel_loop : Host → ℕ → Prog ℤ
unfolding send_mouse_op
wheel_loop h zero = do modify (set_mouse_op no_motion); return (pos 0)
wheel_loop h (suc nbr_abs) = do
  r ← send_mouse_op h
  let rest = wheel_loop h nbr_abs
  if eqb_ℤ r (pos 0)
      then (if nbr_abs == 0 then rest else (m_delay_random h (pos 20) (pos 35) >> rest))
      else (do modify (set_mouse_op no_motion); return minus_one)

unfoldable pub m_mouse_wheel : Host → Handle → ℤ → Prog ℤ
unfolding wheel_loop
m_mouse_wheel h null nbr = return minus_one
m_mouse_wheel h live nbr = do
  modify (set_mouse_op (λ op. set (set op 0 0x04) 4 (if ltb_ℤ (pos 0) nbr then 1 else 0xFF)))
  wheel_loop h (abs nbr)
