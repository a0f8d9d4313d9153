-- ===== src/Led/Light.antt =====
-- What the functions on the lights make of the device's answer.
use msdk_linux.Base.{
  ℕ, List, ℤ, pos, minus_one, if◌then◌else◌, test_bit, ◌≡◌, some, ◌≤ℤ◌, length, ◌<◌, ◌∷◌, ◌++◌, [],
  ◌≤◌, Option, ◌*◌, ◌+◌, ◌==◌, arith, Bool-cases, inl, inr, refl,
}
use msdk_linux.Machine.{Host, Device, World, transfer_out, live, done, ◌>>=◌}
use msdk_linux.Hid.Receive.Reports.{Part, response, Delivers}
use msdk_linux.Hid.Send.{out_put_report}
use msdk_linux.Hid.Answered.{exchange, with_status, hid_ctrl_comm_answered}
use msdk_linux.Led.{
  m_num_lock_led_state, led_state, m_caps_lock_led_state, led_command, m_scroll_lock_led_state,
}
use msdk_linux.Hid.{hid_ctrl_comm}
use native.Mathlib.Nat.{add-zero}

abbrev pub light : ℕ → ℕ → ℤ
light b k = if test_bit b k then pos 1 else pos 0

-- The world after the command and its answer.
abbrev pub asked : Host → Device → List Part → World → World
asked h dev ps w = record w { calls = exchange h dev 32 3 ps (0xF7 ∷ []) w.calls }

module _ (h : Host) (dev : Device) (ps : List Part) (final bytes : List ℕ) (b hi lo : ℕ) (w : World)
    (is_open : w.udev.h_dev ≡ some dev) (good : pos 0 ≤ℤ h.answer_out w.calls)
    (enough : length ps < h.patience) (is_resp : response ps final ≡ (b ∷ bytes) ++ hi ∷ lo ∷ [])
    (fits : length bytes ≤ 29)
    (answers : Delivers h dev ps final
      (transfer_out dev (out_put_report 3 0 (0xF7 ∷ [])) ∷ w.calls)) where
  opened :
      (d : Option Device)
      → d ≡ some dev
      → hid_ctrl_comm h 32 d 1 led_command 3 w
        ≡ done (with_status (b ∷ bytes) hi lo) (asked h dev ps w)
  opened d e = rw e (
      hid_ctrl_comm_answered h dev 32 3 1 led_command ps final (b ∷ bytes) hi lo w (omega arith)
        (omega arith) good enough is_resp (omega arith) answers)

  led_state-answered :
      (k : ℕ)
      → led_state h k live w
        ≡ done (if hi * 256 + lo == 1 then light b k else minus_one) (asked h dev ps w)
  unfolding led_state
  led_state-answered k =
      rw (opened w.udev.h_dev is_open, ◌>>=◌)
        (rw add-zero
          (elim (Bool-cases (hi * 256 + lo == 1)) [ inl e ↦ rw e refl | inr e ↦ rw e refl ]))

  -- Where the device answers the command 0xF7 with a response of at most 32 bytes in any number of
  -- reports within the patience, the three functions on the lights return their bit of its first
  -- byte if the status word is 1 and -1 if not, and change nothing but the history.
  pub led_states-answered :
      (m_num_lock_led_state h live w
        ≡ done (if hi * 256 + lo == 1 then light b 0 else minus_one) (asked h dev ps w))
      × (m_caps_lock_led_state h live w
          ≡ done (if hi * 256 + lo == 1 then light b 1 else minus_one) (asked h dev ps w))
      × (m_scroll_lock_led_state h live w
          ≡ done (if hi * 256 + lo == 1 then light b 2 else minus_one) (asked h dev ps w))
  unfolding m_num_lock_led_state m_caps_lock_led_state m_scroll_lock_led_state
  led_states-answered = (led_state-answered 0, led_state-answered 1, led_state-answered 2)
