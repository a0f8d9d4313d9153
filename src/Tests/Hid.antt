-- ===== src/Tests/Hid.antt =====
-- The block protocol on the device of Tests/Setup.
use msdk_linux.Base.{
  ℕ, pos, refl, ◌≡◌, some, get_or, ◌∷◌, replicate, [], arith, ◌≢◌, minus_one, take, true,
}
use msdk_linux.Machine.Ends.{Returns}
use msdk_linux.Hid.{hid_ctrl_comm}
use msdk_linux.Led.{m_num_lock_led_state, m_caps_lock_led_state, m_scroll_lock_led_state}
use msdk_linux.Machine.{Host, History, live, done, transfer_out}
use msdk_linux.Hid.Receive.Reports.{Delivers}
use msdk_linux.Tests.Setup.{box, start, box-IsPrompt, start-on_wire}
use msdk_linux.Hid.Answered.{with_status, exchange, hid_ctrl_comm_answered}
use msdk_linux.Hid.Wire.{handed_over, at_rest}
use msdk_linux.Hid.Send.{out_put_report}
use msdk_linux.Hid.Exchange.{hid_ctrl_comm_returns}
use msdk_linux.Led.Light.{asked, led_states-answered}

hid_ctrl_comm_returns_example :
    Returns (hid_ctrl_comm box 32 (some 7) 100 (replicate 100 5) 0 start) (λ reply w'.
      (w'.udev ≡ start.udev)
      × (reply.status ≢ minus_one
          → handed_over w'.calls ≡ at_rest (take 100 (replicate 100 5) ∷ []) true))
hid_ctrl_comm_returns_example =
    hid_ctrl_comm_returns box 7 0 box-IsPrompt 100 (replicate 100 5) [] true start (omega arith)
      (omega arith) start-on_wire

-- Both bytes are the status word.
box-Delivers : (c : History) → Delivers box 7 [] (0 ∷ 1 ∷ []) c
box-Delivers c = (omega arith, (λ e. absurd (omega arith)), refl, refl, refl)

hid_ctrl_comm_answered_example :
    hid_ctrl_comm box 32 (some 7) 1 (0xF7 ∷ []) 3 start
    ≡ done
        (with_status [] 0 1)
        (record start { calls = exchange box 7 32 3 [] (0xF7 ∷ []) start.calls })
hid_ctrl_comm_answered_example =
    hid_ctrl_comm_answered box 7 32 3 1 (0xF7 ∷ []) [] (0 ∷ 1 ∷ []) [] 0 1 start (omega arith)
      (omega arith) (omega arith) (omega arith) refl (omega arith)
      (box-Delivers (transfer_out 7 (out_put_report 3 0 (0xF7 ∷ [])) ∷ []))

-- A device whose lights NumLock and ScrollLock are on.
abbrev lights : ℕ → ℕ
lights n = get_or (0 ∷ 0 ∷ 0 ∷ 3 ∷ 5 ∷ 0 ∷ 1 ∷ []) n 0

abbrev lit : Host
lit = record box { answer_in = λ c. (pos 64, lights) }

lit-Delivers : (c : History) → Delivers lit 7 [] (5 ∷ 0 ∷ 1 ∷ []) c
lit-Delivers c = (omega arith, (λ e. absurd (omega arith)), refl, refl, refl)

led_states-answered_example :
    (m_num_lock_led_state lit live start ≡ done (pos 1) (asked lit 7 [] start))
    × (m_caps_lock_led_state lit live start ≡ done (pos 0) (asked lit 7 [] start))
    × (m_scroll_lock_led_state lit live start ≡ done (pos 1) (asked lit 7 [] start))
led_states-answered_example =
    led_states-answered lit 7 [] (5 ∷ 0 ∷ 1 ∷ []) [] 5 0 1 start refl (omega arith) (omega arith)
      refl (omega arith) (lit-Delivers (transfer_out 7 (out_put_report 3 0 (0xF7 ∷ [])) ∷ []))
