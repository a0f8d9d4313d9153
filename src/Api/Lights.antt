-- ===== src/Api/Lights.antt =====
-- Asking for the lights keeps the record and the box in agreement.
use msdk_linux.Base.{
  ℕ, Bool, ◌∷◌, [], ◌≡◌, refl, pos, arith, if◌then◌else◌, eqb_ℤ, test_bit, get_or, minus_one, ◌∙◌,
}
use msdk_linux.Api.Box.{read_report, Down, reads_next, Screen}
use msdk_linux.Machine.{Device, Host, IsPrompt, World, live, return, ◌>>=◌}
use msdk_linux.Led.{led_state, led_command}
use msdk_linux.Api.Agrees.{Agrees, Kept}
use msdk_linux.Machine.Ends.{Keeps, Keeps-if}
use msdk_linux.Hid.Exchange.{hid_ctrl_comm_short}

reads-led_command : (scr : Screen) (d : Down) → read_report scr (0xF7 ∷ []) d ≡ d
unfolding read_report
reads-led_command scr d = refl

module _ (scr : Screen) (dev : Device) (ok : Bool) (k0 : Kept) (h : Host) (prompt : IsPrompt h)
    (d : Down) where
  abbrev Q : World → Type 0
  Q = Agrees scr dev ok k0 d

  pub led_state-Agrees : (k : ℕ) → Keeps Q (led_state h k live)
  unfolding led_state
  led_state-Agrees k w s =
      let x =
        hid_ctrl_comm_short h dev 3 prompt w.udev.h_dev 1 led_command s.reports ok w s.device
          (omega arith) (omega arith) s.on_wire in
      let s' : Q (record w { calls = x.calls }) = record {
        device = s.device;
        kb = s.kb;
        mouse = s.mouse;
        reports = (0xF7 ∷ []) ∷ s.reports;
        on_wire = x.on_wire;
        reading = reads_next scr (0xF7 ∷ []) s.reports d s.reading ∙ reads-led_command scr d;
        place = s.place;
      } in
      rw (x.returns, ◌>>=◌)
        (Keeps-if Q (eqb_ℤ x.reply.status (pos 1))
          (return (if test_bit (get_or x.reply.resp_apdu 0 0) k then pos 1 else pos 0))
          (return minus_one) (λ w s. s) (λ w s. s) (record w { calls = x.calls }) s')
