-- ===== src/Keyboard.antt =====
-- msdk/msdk.c, the keyboard functions.
pub mod Held
pub mod Op
pub mod Keys
pub mod State
pub mod Calls
pub mod Told
pub mod ReleaseAll
pub mod Effect
pub mod Sets
pub mod Press
pub mod Windows
use msdk_linux.Base.{
  ℕ, List, ℤ, if◌then◌else◌, pos, eqb_ℤ, ltb, minus_one, not, negsuc, set, ◌-◌, pos_part, bit_and,
  ◌+◌,
}
use msdk_linux.Machine.{
  Host, Prog, Handle, return, Udev, null, return_if, live, undefined_here, ◌>>◌, ◌>>=◌, modify,
  udev,
}
use msdk_linux.Hid.{hid_ctrl_comm, Reply}
use Op.{byte}
use msdk_linux.Keyboard.Op.{
  release_modifier, press_modifier, release_key, press_key, is_modifier, is_key_code, clear_kb,
  is_down,
}
use msdk_linux.Machine.Loop.{repeat_nbr}
use msdk_linux.KeyCode.Vkey.{vkey2hidcode}
use msdk_linux.KeyCode.{keyboard_left_control}

-- `... != 0x0001` after `HID_Ctrl_Comm`: 0 for success and -1 for failure.
abbrev pub comm_result : Reply → ℤ
comm_result reply = if eqb_ℤ reply.status (pos 1) then pos 0 else minus_one

abbrev pub set_kb_op : (List ℕ → List ℕ) → Udev → Udev
set_kb_op f u = record u { curr_kb_op = f u.curr_kb_op }

-- `CurrKbOp` goes out, as long as byte 0 says.
unfoldable pub send_kb_op : Host → Prog ℤ
send_kb_op h = do
  u ← udev
  reply ← hid_ctrl_comm h 32 u.h_dev (bit_and (byte u.curr_kb_op 0) 0x0F + 1) u.curr_kb_op 0
  return (comm_result reply)

-- The change that `M_KeyDown` makes for an accepted code.
unfoldable pub key_down_op : ℕ → List ℕ → List ℕ
unfolding press_modifier press_key is_modifier
key_down_op code op =
    let op' = set op 2 0 in
    if is_modifier code
    then press_modifier (code - keyboard_left_control) op'
    else press_key code op'

unfoldable pub key_up_op : ℕ → List ℕ → List ℕ
unfolding release_modifier release_key is_modifier
key_up_op code op =
    let op' = set op 2 0 in
    if is_modifier code
    then release_modifier (code - keyboard_left_control) op'
    else release_key code op'

unfoldable pub m_key_down : Host → Handle → ℤ → Prog ℤ
unfolding send_kb_op
m_key_down h null code = return minus_one
m_key_down h live code =
    return_if (not (is_key_code code)) minus_one
      (do modify (set_kb_op (key_down_op (pos_part code))); send_kb_op h)

unfoldable pub m_key_up : Host → Handle → ℤ → Prog ℤ
unfolding send_kb_op
m_key_up h null code = return minus_one
m_key_up h live code =
    return_if (not (is_key_code code)) minus_one
      (do modify (set_kb_op (key_up_op (pos_part code))); send_kb_op h)

unfoldable pub m_key_state : Handle → ℤ → Prog ℤ
m_key_state null code = return minus_one
m_key_state live code =
    return_if (not (is_key_code code)) minus_one
      (do u ← udev; return (if is_down (pos_part code) u.curr_kb_op then pos 1 else pos 0))

-- One round of `M_KeyPress`.
unfoldable pub press_once : Host → Handle → ℤ → Prog ℤ
press_once h m_hdl code = do
  r ← m_key_down h m_hdl code
  if eqb_ℤ r (pos 0) then m_key_up h m_hdl code else return minus_one

unfoldable pub m_key_press : Host → Handle → ℤ → ℤ → Prog ℤ
unfolding press_once
m_key_press h null code nbr = return minus_one
m_key_press h live code nbr = repeat_nbr h.patience (press_once h live code) (return tt) nbr

unfoldable pub m_release_all_key : Host → Handle → Prog ℤ
m_release_all_key h null = return minus_one
m_release_all_key h live = do
  modify (set_kb_op clear_kb)
  u ← udev
  hid_ctrl_comm h 32 u.h_dev 1 u.curr_kb_op 0
  return (pos 0)

-- The functions on Windows key codes: `VKEY2HIDCODE[KeyCode]`, whose index below 0 is read
-- outside the array.
abbrev pub by_vkey : ℤ → (ℤ → Prog ℤ) → Prog ℤ
by_vkey (pos code) f = if ltb 222 code then return minus_one else f (pos (vkey2hidcode code))
by_vkey (negsuc n) f = undefined_here

unfoldable pub m_key_press2 : Host → Handle → ℤ → ℤ → Prog ℤ
m_key_press2 h null code nbr = return minus_one
m_key_press2 h live code nbr = by_vkey code (λ hid. m_key_press h live hid nbr)

unfoldable pub m_key_down2 : Host → Handle → ℤ → Prog ℤ
m_key_down2 h null code = return minus_one
m_key_down2 h live code = by_vkey code (m_key_down h live)

unfoldable pub m_key_up2 : Host → Handle → ℤ → Prog ℤ
m_key_up2 h null code = return minus_one
m_key_up2 h live code = by_vkey code (m_key_up h live)

unfoldable pub m_key_state2 : Handle → ℤ → Prog ℤ
m_key_state2 null code = return minus_one
m_key_state2 live code = by_vkey code (m_key_state live)
