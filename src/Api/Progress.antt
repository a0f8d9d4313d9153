-- ===== src/Api/Progress.antt =====
-- At a device that answers at once the calls that are no movements return, whatever is down before.
pub mod Mouse
pub mod Moves
pub mod Calls
use msdk_linux.Base.{
  ℕ, ℤ, pos, negsuc, Bool, [], ltb, Bool-cases, ◌<◌, minus_one, arith, inl, inr, if◌then◌else◌,
  eqb_ℤ, test_bit, get_or,
}
use msdk_linux.Machine.{Host, World, Outcome, Prog, Device, IsPrompt, live, return, ◌>>=◌}
use msdk_linux.Machine.Ends.{
  Returns, Ensures, Returns-mono, Returns-both, Total, Total-bind, Total-if,
}
use msdk_linux.Api.Box.{Screen, Down}
use msdk_linux.Api.Agrees.{Agrees, Stands, kept_of, restand, still, Agrees-KbState}
use msdk_linux.Keyboard.{
  m_key_press, m_key_up, m_release_all_key, m_key_down, by_vkey, m_key_state, press_once,
}
use msdk_linux.Led.{led_state, led_command}
use msdk_linux.Keyboard.Told.{bad_code_refused, m_key_down-Told, m_key_up-Told}
use msdk_linux.Hid.Exchange.{hid_ctrl_comm_short}
use msdk_linux.Keyboard.ReleaseAll.{m_release_all_key-Told}
use msdk_linux.Api.Keys.{
  not_below_zero, m_release_all_key-Agrees, after_down, after_up, m_key_up-Agrees,
  m_key_down-Agrees,
}
use msdk_linux.Keyboard.Op.{is_key_code}
use msdk_linux.Machine.Loop.Rule.{repeat_nbr-Total}
use msdk_linux.KeyCode.Vkey.{vkey2hidcode}
use msdk_linux.Api.Lights.{led_state-Agrees}

abbrev pub Halts : {A : Type 0} → Outcome A → Type 0
Halts o = Returns o (λ a w. Unit)

pub halts : {A : Type 0} (P : A → World → Type 0) (o : Outcome A) → Returns o P → Halts o
halts P o p = Returns-mono P (λ a w. Unit) o p (λ a w q. tt)

module _ (scr : Screen) (dev : Device) (ok : Bool) (h : Host) (prompt : IsPrompt h) where
  -- The record and the box agree, on whatever it is.
  abbrev pub Sound : World → Type 0
  Sound w = (d : Down) × Stands scr dev ok d w

  pub stands :
      {A : Type 0} (d d' : Down) (m : Prog A) (w : World)
      → Halts (m w)
      → Ensures (m w) (λ r w'. Agrees scr dev ok (kept_of w.udev) d' w')
      → Returns (m w) (λ r. Sound)
  stands d d' m w ends agrees =
      Returns-mono _ _ (m w) (Returns-both _ _ (m w) ends agrees)
        (λ r w' (u, s). (d', restand scr dev ok (kept_of w.udev) still d' d' w' s))

  pub key_down-Total : (code : ℤ) → Total Sound (m_key_down h live code)
  key_down-Total code w (d, s) =
      stands d (after_down code d) (m_key_down h live code) w (ends code)
        (m_key_down-Agrees scr dev ok (kept_of w.udev) h prompt code d w s)
    where
      ends : (code : ℤ) → Halts (m_key_down h live code w)
      ends (negsuc n) = rw (bad_code_refused h (negsuc n) w (not_below_zero n)).0 tt
      ends (pos n) = elim (Bool-cases (is_key_code (pos n))) [
        | inl v ↦ halts _ (m_key_down h live (pos n) w) (
            m_key_down-Told h prompt dev d.mods d.keys s.reports ok n w v
              (Agrees-KbState scr dev ok (kept_of w.udev) d w s))
        | inr bad ↦ rw (bad_code_refused h (pos n) w bad).0 tt
      ]

  pub key_up-Total : (code : ℤ) → Total Sound (m_key_up h live code)
  key_up-Total code w (d, s) =
      stands d (after_up code d) (m_key_up h live code) w (ends code)
        (m_key_up-Agrees scr dev ok (kept_of w.udev) h prompt code d w s)
    where
      ends : (code : ℤ) → Halts (m_key_up h live code w)
      ends (negsuc n) = rw (bad_code_refused h (negsuc n) w (not_below_zero n)).1 tt
      ends (pos n) = elim (Bool-cases (is_key_code (pos n))) [
        | inl v ↦ halts _ (m_key_up h live (pos n) w) (
            m_key_up-Told h prompt dev d.mods d.keys s.reports ok n w v
              (Agrees-KbState scr dev ok (kept_of w.udev) d w s))
        | inr bad ↦ rw (bad_code_refused h (pos n) w bad).1 tt
      ]

  pub key_state-Total : (code : ℤ) → Total Sound (m_key_state live code)
  unfolding m_key_state
  key_state-Total code w s = elim (Bool-cases (is_key_code code)) [
    | inl v ↦ rw v s
    | inr bad ↦ rw bad s
  ]

  pub press-Total :
      (code : ℤ) (n : ℕ) → n < h.patience → Total Sound (m_key_press h live code (pos n))
  unfolding m_key_press press_once
  press-Total code n lt =
      let up = m_key_up h live code in
      repeat_nbr-Total Sound (press_once h live code) (return tt)
        (Total-bind Sound (m_key_down h live code)
          (λ r. if eqb_ℤ r (pos 0) then up else return minus_one) (key_down-Total code)
          (λ r.
            Total-if Sound (eqb_ℤ r (pos 0)) up (return minus_one) (key_up-Total code) (λ w s. s)))
        (λ w s. s) h.patience n lt

  -- A Windows code.
  pub by_vkey-Total :
      (f : ℤ → Prog ℤ) (code : ℕ)
      → ((hid : ℤ) → Total Sound (f hid))
      → Total Sound (by_vkey (pos code) f)
  by_vkey-Total f code total =
      Total-if Sound (ltb 222 code) (return minus_one) (f (pos (vkey2hidcode code))) (λ w s. s)
        (total (pos (vkey2hidcode code)))

  pub release_all_key-Total : Total Sound (m_release_all_key h live)
  release_all_key-Total w (d, s) =
      stands d (record d { mods = 0; keys = [] }) (m_release_all_key h live) w
        (halts _ (m_release_all_key h live w) (
          m_release_all_key-Told h dev d.mods d.keys s.reports ok w prompt
            (Agrees-KbState scr dev ok (kept_of w.udev) d w s)))
        (m_release_all_key-Agrees scr dev ok (kept_of w.udev) h prompt d w s)

  pub led_state-Total : (k : ℕ) → Total Sound (led_state h k live)
  led_state-Total k w (d, s) =
      stands d d (led_state h k live) w
        (unfold led_state in
          let x =
            hid_ctrl_comm_short h dev 3 prompt w.udev.h_dev 1 led_command s.reports ok w s.device
              (omega arith) (omega arith) s.on_wire in
          rw (x.returns, ◌>>=◌)
            (Total-if (λ w. Unit) (eqb_ℤ x.reply.status (pos 1))
              (return (if test_bit (get_or x.reply.resp_apdu 0 0) k then pos 1 else pos 0))
              (return minus_one) (λ w s. tt) (λ w s. tt) (record w { calls = x.calls }) tt))
        (led_state-Agrees scr dev ok (kept_of w.udev) h prompt d k w s)
