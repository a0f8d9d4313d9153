-- ===== src/Keyboard/Told.antt =====
-- `M_KeyDown`, `M_KeyUp` and `M_KeyState` against the keys that are down.
use msdk_linux.Base.{ℕ, ℤ, List, Bool, ◌≡◌, pos, false, true, if◌then◌else◌, minus_one}
use msdk_linux.Machine.{Host, IsPrompt, Device, World, live, done}
use msdk_linux.Machine.Ends.{Returns}
use msdk_linux.Keyboard.{m_key_down, m_key_up, m_key_state, set_kb_op, key_up_op, key_down_op}
use msdk_linux.Keyboard.Calls.{KbState, Told, send_kb_op-Told}
use msdk_linux.Keyboard.State.{
  down_mods, up_mods, down_keys, up_keys, is_down-HasDown, key_up_op-HasDown, key_down_op-HasDown,
}
use msdk_linux.Keyboard.Op.{is_key_code}
use msdk_linux.Keyboard.Op.Query.{held}

module _ (h : Host) (prompt : IsPrompt h) (dev : Device) (mods : ℕ) (ks : List ℕ)
    (cs : List (List ℕ)) (ok : Bool) (code : ℕ) (w : World) (v : is_key_code (pos code) ≡ true)
    (s : KbState dev mods ks cs ok w) where
  -- At a device that answers every read at once, M_KeyDown of an accepted code in a state with
  -- modifiers and at most six keys down returns 0 or -1; the state then has the code down too (a
  -- seventh key takes the place of the sixth), one report that tells everything that is down goes
  -- out in order, and nothing else of the record changes.
  pub m_key_down-Told :
      Returns
        (m_key_down h live (pos code) w)
        (Told dev cs ok (down_mods code mods) (down_keys code ks) w)
  unfolding m_key_down
  m_key_down-Told =
      let w1 : World = record w { udev = set_kb_op (key_down_op code) w.udev } in
      rw v (
        send_kb_op-Told h prompt dev (down_mods code mods) (down_keys code ks) cs ok w1 (record {
          device = s.device;
          down = key_down_op-HasDown code mods w.udev.curr_kb_op ks v s.down;
          on_wire = s.on_wire;
        }))

  -- At a device that answers every read at once, M_KeyUp of an accepted code in a state with
  -- modifiers and at most six keys down returns 0 or -1; the state then has the code up and the
  -- other keys in their order, one report that tells it goes out, and nothing else of the record
  -- changes.
  pub m_key_up-Told :
      Returns
        (m_key_up h live (pos code) w)
        (Told dev cs ok (up_mods code mods) (up_keys code ks) w)
  unfolding m_key_up
  m_key_up-Told =
      let w1 : World = record w { udev = set_kb_op (key_up_op code) w.udev } in
      rw v (
        send_kb_op-Told h prompt dev (up_mods code mods) (up_keys code ks) cs ok w1 (record {
          device = s.device;
          down = key_up_op-HasDown code mods w.udev.curr_kb_op ks v s.down;
          on_wire = s.on_wire;
        }))

  -- For an accepted code M_KeyState answers 1 if the code is down in the state that the record
  -- shows and 0 if not, and changes nothing.
  pub m_key_state-held :
      m_key_state live (pos code) w ≡ done (if held mods ks code then pos 1 else pos 0) w
  unfolding m_key_state
  m_key_state-held = rw (v, is_down-HasDown code mods w.udev.curr_kb_op ks v s.down)

-- A code that is not a key code is answered with -1 by M_KeyDown, M_KeyUp and M_KeyState, before
-- anything is changed or sent.
pub bad_code_refused :
    (h : Host) (code : ℤ) (w : World)
    → is_key_code code ≡ false
    → (m_key_down h live code w ≡ done minus_one w)
      × (m_key_up h live code w ≡ done minus_one w)
      × (m_key_state live code w ≡ done minus_one w)
unfolding m_key_down m_key_up m_key_state
bad_code_refused h code w bad = (rw bad, rw bad, rw bad)
