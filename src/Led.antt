-- ===== src/Led.antt =====
-- msdk/msdk.c, the lights of the keyboard.
pub mod Light
use msdk_linux.Base.{
  ℕ, List, ℤ, pos, minus_one, if◌then◌else◌, eqb_ℤ, get_or, test_bit, replicate, ◌∷◌,
}
use msdk_linux.Machine.{Host, Handle, Prog, return, ◌>>=◌, udev, null, live}
use msdk_linux.Hid.{hid_ctrl_comm}

-- `ucp_Command`: its first byte is the one that goes out.
abbrev pub led_command : List ℕ
led_command = 0xF7 ∷ replicate 31 0

-- The body that the three functions share; `k` is the bit of the light.
unfoldable pub led_state : Host → ℕ → Handle → Prog ℤ
led_state h k null = return minus_one
led_state h k live = do
  u ← udev
  reply ← hid_ctrl_comm h 32 u.h_dev 1 led_command 3
  if eqb_ℤ reply.status (pos 1)
      then return (if test_bit (get_or reply.resp_apdu 0 0) k then pos 1 else pos 0)
      else return minus_one

unfoldable pub m_num_lock_led_state : Host → Handle → Prog ℤ
unfolding led_state
m_num_lock_led_state h = led_state h 0

unfoldable pub m_caps_lock_led_state : Host → Handle → Prog ℤ
unfolding led_state
m_caps_lock_led_state h = led_state h 1

unfoldable pub m_scroll_lock_led_state : Host → Handle → Prog ℤ
unfolding led_state
m_scroll_lock_led_state h = led_state h 2
