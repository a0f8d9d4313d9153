-- ===== src/Mouse/Calls.antt =====
-- The buttons of the mouse at a device that answers at once: their state, and the reports.
use msdk_linux.Base.{
  ℕ, List, ◌≡◌, ◌∷◌, Bool, [], some, ℤ, pos, length, clear_bit, ◌⊎◌, set_bit, set, minus_one, arith,
  ap, refl, ◌∙◌, take, take_all,
}
use msdk_linux.Machine.{Host, Device, IsPrompt, World, live, History, done, ◌>>=◌}
use msdk_linux.Machine.Ends.{Returns}
use msdk_linux.Hid.Exchange.{hid_ctrl_comm_short}
use msdk_linux.Hid.Wire.{handed_over, at_rest}
use msdk_linux.Keyboard.Calls.{comm_result_cases}
use msdk_linux.Mouse.{
  send_mouse_op, button_down, m_release_all_mouse, button_up, no_motion, set_mouse_op, press_button,
  release_button,
}
use msdk_linux.Keyboard.{comm_result}

-- A report of the mouse: the buttons, the movement and the wheel.
abbrev pub mouse_report : ℕ → ℕ → ℕ → ℕ → List ℕ
mouse_report buttons dx dy wheel = 4 ∷ buttons ∷ dx ∷ dy ∷ wheel ∷ []

-- The record belongs to an open device, `buttons` are down, no movement is left over, and the
-- commands `cs` have gone out over the wire, all in order if `ok`.
pub record MouseState (dev : Device) (buttons : ℕ) (cs : List (List ℕ)) (ok : Bool) (w : World)
    : Type 0 where
  pub device : w.udev.h_dev ≡ some dev
  pub first : ℕ
  pub op : w.udev.curr_mouse_op ≡ first ∷ buttons ∷ 0 ∷ 0 ∷ 0 ∷ []
  pub on_wire : handed_over w.calls ≡ at_rest cs ok

-- `w'` has the record of `w`, but for `CurrMouseOp`.
abbrev pub OnlyMouseOp : World → World → Type 0
OnlyMouseOp w w' = w'.udev ≡ record w.udev { curr_mouse_op = w'.udev.curr_mouse_op }

module _ (h : Host) (prompt : IsPrompt h) (dev : Device) (ok : Bool) where
  -- A report goes out: the result is 0 or -1, the record stays, and the report is on the wire.
  pub send_mouse_op_sent :
      (report : List ℕ) (cs : List (List ℕ)) (w : World)
      → w.udev.h_dev ≡ some dev
      → w.udev.curr_mouse_op ≡ report
      → length report ≡ 5
      → handed_over w.calls ≡ at_rest cs ok
      → (r : ℤ) × (c : History) × (send_mouse_op h w ≡ done r (record w { calls = c }))
        × (handed_over c ≡ at_rest (report ∷ cs) ok)
        × ((r ≡ pos 0) ⊎ (r ≡ minus_one))
  unfolding send_mouse_op
  send_mouse_op_sent report cs w is_open is_op five rest =
      let x =
        hid_ctrl_comm_short h dev 0 prompt w.udev.h_dev 5 w.udev.curr_mouse_op cs ok w is_open
          (rw is_op (omega arith)) (omega arith) rest in
      (
        comm_result x.reply,
        x.calls,
        rw (x.returns, ◌>>=◌),
        x.on_wire
            ∙ ap (λ c. at_rest (c ∷ cs) ok) (ap (take 5) is_op ∙ take_all 5 report (omega arith)),
        comm_result_cases x.reply,
      )

  module _ (k buttons : ℕ) (cs : List (List ℕ)) (w : World)
      (s : MouseState dev buttons cs ok w) where
    -- How a call on a button ends.
    abbrev pub Clicked : ℕ → ℤ → World → Type 0
    Clicked after r w' =
        MouseState dev after (mouse_report after 0 0 0 ∷ cs) ok w'
        × OnlyMouseOp w w'
        × ((r ≡ pos 0) ⊎ (r ≡ minus_one))

    -- Pressing a button at a device that answers at once returns 0 or -1, sends one report with the
    -- bit of the button set and no movement, and changes only CurrMouseOp.
    pub button_down-Clicked : Returns (button_down h k live w) (Clicked (set_bit buttons k))
    unfolding button_down
    button_down-Clicked =
        let w1 : World = record w { udev = set_mouse_op (press_button k) w.udev } in
        let (r, c, e, there, ends) =
          send_mouse_op_sent (mouse_report (set_bit buttons k) 0 0 0) cs w1 s.device
            (ap (press_button k) s.op) refl s.on_wire in
        rw e (
          record { device = s.device; first = 4; op = ap (press_button k) s.op; on_wire = there },
          refl,
          ends,
        )

    -- Releasing a button at a device that answers at once returns 0 or -1, sends one report with
    -- the bit of the button clear, the other buttons as they were and no movement, and changes only
    -- CurrMouseOp.
    pub button_up-Clicked : Returns (button_up h k live w) (Clicked (clear_bit buttons k))
    unfolding button_up
    button_up-Clicked =
        let w1 : World = record w { udev = set_mouse_op (release_button k) w.udev } in
        let (r, c, e, there, ends) =
          send_mouse_op_sent (mouse_report (clear_bit buttons k) 0 0 0) cs w1 s.device
            (ap (release_button k) s.op) refl s.on_wire in
        rw e (
          record { device = s.device; first = 4; op = ap (release_button k) s.op; on_wire = there },
          refl,
          ends,
        )

    -- M_ReleaseAllMouse at a device that answers at once returns 0 or -1, sends one report with no
    -- button, movement or wheel, and changes only CurrMouseOp.
    pub m_release_all_mouse-Clicked : Returns (m_release_all_mouse h live w) (Clicked 0)
    unfolding m_release_all_mouse
    m_release_all_mouse-Clicked =
        let release : List ℕ → List ℕ = λ op. no_motion (set (set op 0 0x04) 1 0) in
        let w1 : World = record w { udev = set_mouse_op release w.udev } in
        let (r, c, e, there, ends) =
          send_mouse_op_sent (mouse_report 0 0 0 0) cs w1 s.device (ap release s.op) refl
            s.on_wire in
        rw e (
          record { device = s.device; first = 4; op = ap release s.op; on_wire = there },
          refl,
          ends,
        )
