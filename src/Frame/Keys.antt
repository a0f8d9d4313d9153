-- ===== src/Frame/Keys.antt =====
-- The keyboard's functions and the lights: of the record they change the keyboard's bytes at most.
use msdk_linux.Base.{
  ℕ, ℤ, List, bit_and, pos, if◌then◌else◌, not, ltb, ◌+◌, eqb_ℤ, test_bit, minus_one, get_or,
  negsuc, pos_part,
}
use msdk_linux.Machine.{Host, Udev, World, Prog, live, ◌>>◌, modify, return, ◌>>=◌, udev}
use msdk_linux.Machine.Ends.{Keeps, Keeps-bind, Keeps-if, Keeps-return_if}
use msdk_linux.Frame.{hid_ctrl_comm-Keeps, hid_ctrl_comm, return}
use msdk_linux.Keyboard.{
  send_kb_op, m_release_all_key, m_key_state, by_vkey, m_key_up, m_key_press, m_key_down,
  press_once, set_kb_op, comm_result, key_down_op, key_up_op,
}
use msdk_linux.Led.{led_state, led_command}
use msdk_linux.Keyboard.Op.{clear_kb, byte, is_key_code, is_down}
use msdk_linux.Hid.{Reply, hid_ctrl_comm}
use msdk_linux.Machine.Loop.Rule.{repeat_nbr-Keeps}
use msdk_linux.KeyCode.Vkey.{vkey2hidcode}

module _ (P : Udev → Type 0) (h : Host) where
  abbrev Q : World → Type 0
  Q w = P w.udev

  pub led_state-Keeps : (k : ℕ) → Keeps Q (led_state h k live)
  unfolding led_state
  led_state-Keeps k w s =
      let light : Reply → Prog ℤ = λ reply.
        if eqb_ℤ reply.status (pos 1)
        then return (if test_bit (get_or reply.resp_apdu 0 0) k then pos 1 else pos 0)
        else return minus_one in
      Keeps-bind Q (hid_ctrl_comm h 32 w.udev.h_dev 1 led_command 3) light
        (hid_ctrl_comm-Keeps P h 32 w.udev.h_dev 1 led_command 3)
        (λ reply.
          Keeps-if Q (eqb_ℤ reply.status (pos 1))
            (return (if test_bit (get_or reply.resp_apdu 0 0) k then pos 1 else pos 0))
            (return minus_one) (λ w s. s) (λ w s. s))
        w s

  pub m_key_state-Keeps : (code : ℤ) → Keeps Q (m_key_state live code)
  unfolding m_key_state
  m_key_state-Keeps code =
      Keeps-return_if Q (not (is_key_code code)) minus_one
        (do u ← udev; return (if is_down (pos_part code) u.curr_kb_op then pos 1 else pos 0))
        (λ w s. s)

  pub by_vkey-Keeps :
      (code : ℤ) (f : ℤ → Prog ℤ) → ((hid : ℤ) → Keeps Q (f hid)) → Keeps Q (by_vkey code f)
  by_vkey-Keeps (pos code) f keeps =
      Keeps-if Q (ltb 222 code) (return minus_one) (f (pos (vkey2hidcode code))) (λ w s. s)
        (keeps (pos (vkey2hidcode code)))
  by_vkey-Keeps (negsuc n) f keeps = λ w s. tt

  module _ (other : (u : Udev) (op : List ℕ) → P u → P (record u { curr_kb_op = op })) where
    send_kb_op-Keeps : Keeps Q (send_kb_op h)
    unfolding send_kb_op
    send_kb_op-Keeps w s =
        let len = bit_and (byte w.udev.curr_kb_op 0) 0x0F + 1 in
        Keeps-bind Q (hid_ctrl_comm h 32 w.udev.h_dev len w.udev.curr_kb_op 0)
          (λ reply. return (comm_result reply))
          (hid_ctrl_comm-Keeps P h 32 w.udev.h_dev len w.udev.curr_kb_op 0) (λ reply w s. s) w s

    -- The keyboard's bytes are changed, and reported.
    reported : (f : List ℕ → List ℕ) → Keeps Q (do modify (set_kb_op f); send_kb_op h)
    reported f w s =
        send_kb_op-Keeps (record w { udev = set_kb_op f w.udev })
          (other w.udev (f w.udev.curr_kb_op) s)

    pub m_key_down-Keeps : (code : ℤ) → Keeps Q (m_key_down h live code)
    unfolding m_key_down
    m_key_down-Keeps code =
        Keeps-return_if Q (not (is_key_code code)) minus_one
          (do modify (set_kb_op (key_down_op (pos_part code))); send_kb_op h)
          (reported (key_down_op (pos_part code)))

    pub m_key_up-Keeps : (code : ℤ) → Keeps Q (m_key_up h live code)
    unfolding m_key_up
    m_key_up-Keeps code =
        Keeps-return_if Q (not (is_key_code code)) minus_one
          (do modify (set_kb_op (key_up_op (pos_part code))); send_kb_op h)
          (reported (key_up_op (pos_part code)))

    pub m_key_press-Keeps : (code nbr : ℤ) → Keeps Q (m_key_press h live code nbr)
    unfolding m_key_press press_once
    m_key_press-Keeps code nbr =
        let up = m_key_up h live code in
        repeat_nbr-Keeps Q (press_once h live code) (return tt)
          (Keeps-bind Q (m_key_down h live code)
            (λ r. if eqb_ℤ r (pos 0) then up else return minus_one) (m_key_down-Keeps code)
            (λ r.
              Keeps-if Q (eqb_ℤ r (pos 0)) up (return minus_one) (m_key_up-Keeps code) (λ w s. s)))
          (λ w s. s) h.patience nbr

    pub m_release_all_key-Keeps : Keeps Q (m_release_all_key h live)
    unfolding m_release_all_key
    m_release_all_key-Keeps w s =
        let op = clear_kb w.udev.curr_kb_op in
        let w1 : World = record w { udev = record w.udev { curr_kb_op = op } } in
        Keeps-bind Q (hid_ctrl_comm h 32 w.udev.h_dev 1 op 0) (λ _. return (pos 0))
          (hid_ctrl_comm-Keeps P h 32 w.udev.h_dev 1 op 0) (λ _ w s. s) w1 (other w.udev op s)
