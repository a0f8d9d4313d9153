-- ===== src/Hid/Exchange.antt =====
-- `HID_Ctrl_Comm` as a whole, at a device that answers at once.
use msdk_linux.Base.{
  ◌⊎◌, ℕ, List, Bool, ◌≡◌, ◌∷◌, ◌≤◌, length, some, ◌≢◌, take, minus_one, Bool-cases, not, false,
  inl, ltb_ℤ, pos, inr, [], ◌∙◌, refl, true, Option,
}
use msdk_linux.Machine.{Host, Outcome, Device, IsPrompt, World, History, done, ◌>>=◌, transfer_in}
use msdk_linux.Machine.Ends.{Returns}
use msdk_linux.Hid.{hid_ctrl_comm, Reply, await_answer, failed, finish}
use msdk_linux.Hid.Send.Blocks.{send_blocks-received, send_blocks-short, send_blocks-handed_over}
use msdk_linux.Hid.Wire.{received, handed_over, at_rest}
use msdk_linux.Hid.Receive.Answers.{receive_blocks_prompt}

-- `hid_ctrl_comm` returned, left the device record alone, and its command is on the wire.
pub record Exchanged (o : Outcome Reply) (w : World) (command : List ℕ) (cs : List (List ℕ))
    (ok : Bool) : Type 0 where
  pub reply : Reply
  pub calls : History
  pub returns : o ≡ done reply (record w { calls = calls })
  pub on_wire : handed_over calls ≡ at_rest (command ∷ cs) ok

module _ (h : Host) (dev : Device) (timeout : ℕ) (prompt : IsPrompt h) where
  -- Reading the answer changes neither the device record nor what is on the wire.
  await_answer_returns :
      (sent : Bool) (w : World)
      → (reply : Reply) × (c : History) × (await_answer h 32 dev sent w
          ≡ done reply (record w { calls = c }))
        × (handed_over c ≡ handed_over w.calls)
        × (received h c ≡ received h w.calls)
        × (sent ≡ false → reply.status ≡ minus_one)
  unfolding await_answer handed_over received
  await_answer_returns false w = (failed [] 0, w.calls, refl, refl, refl, λ e. refl)
  await_answer_returns true w =
      let (resp, e) = receive_blocks_prompt h dev w prompt in
      (finish resp, transfer_in dev ∷ w.calls, rw (e, ◌>>=◌), refl, refl, λ e. cc)

  -- At a device that answers every read at once, with the wire between two commands, HID_Ctrl_Comm
  -- of a command of at most 1920 bytes, as many as its buffer has or fewer, returns and leaves the
  -- device record alone; unless its result is -1, the other end has put the blocks together to
  -- exactly that command, every block with its number and alternating bit in order.
  pub hid_ctrl_comm_returns :
      (len : ℕ) (cmd : List ℕ) (cs : List (List ℕ)) (ok : Bool) (w : World)
      → len ≤ length cmd
      → len ≤ 1920
      → handed_over w.calls ≡ at_rest cs ok
      → Returns (hid_ctrl_comm h 32 (some dev) len cmd timeout w) (λ reply w'.
        (w'.udev ≡ w.udev)
        × (reply.status ≢ minus_one → handed_over w'.calls ≡ at_rest (take len cmd ∷ cs) ok))
  unfolding hid_ctrl_comm
  hid_ctrl_comm_returns len cmd cs ok w fits few rest =
      let (sent, w', e, kept, went) =
        send_blocks-handed_over h dev timeout len cmd cs ok w fits few rest in
      let (reply, c, e', same, got, bad) = await_answer_returns sent w' in
      rw (e, ◌>>=◌)
        (rw e' (
          kept,
          λ good. rw same (
              went (elim (Bool-cases sent) [
                | inl yes_sent ↦ yes_sent
                | inr not_sent ↦ absurd (good (bad not_sent))
              ])),
        ))

  -- A command of one block is on the wire in any case.
  hid_ctrl_comm_one_block :
      (len : ℕ) (cmd : List ℕ) (cs : List (List ℕ)) (ok : Bool) (w : World)
      → len ≤ length cmd
      → len ≤ 60
      → handed_over w.calls ≡ at_rest cs ok
      → Exchanged (hid_ctrl_comm h 32 (some dev) len cmd timeout w) w (take len cmd) cs ok
  unfolding hid_ctrl_comm
  hid_ctrl_comm_one_block len cmd cs ok w fits few rest =
      let (c, e, there) = send_blocks-short h dev timeout len cmd cs ok w fits few rest in
      let (reply, c', e', same, got, bad) =
        await_answer_returns (not (ltb_ℤ (h.answer_out w.calls) (pos 0)))
          (record w { calls = c }) in
      record { reply = reply; calls = c'; returns = rw (e, ◌>>=◌) e'; on_wire = same ∙ there }

  pub hid_ctrl_comm_short :
      (d : Option Device) (len : ℕ) (cmd : List ℕ) (cs : List (List ℕ)) (ok : Bool) (w : World)
      → d ≡ some dev
      → len ≤ length cmd
      → len ≤ 60
      → handed_over w.calls ≡ at_rest cs ok
      → Exchanged (hid_ctrl_comm h 32 d len cmd timeout w) w (take len cmd) cs ok
  hid_ctrl_comm_short d len cmd cs ok w is_open fits few rest =
      rw is_open (hid_ctrl_comm_one_block len cmd cs ok w fits few rest)

  -- At a device that answers at once a command of one block returns and leaves the device record
  -- alone; the other end has got it, or it has got nothing and the status is -1.
  pub hid_ctrl_comm-received :
      (d : Option Device) (len : ℕ) (cmd : List ℕ) (cs : List (List ℕ)) (ok : Bool) (w : World)
      → d ≡ some dev
      → len ≤ length cmd
      → len ≤ 60
      → received h w.calls ≡ at_rest cs ok
      → Returns (hid_ctrl_comm h 32 d len cmd timeout w) (λ reply w'.
        (w'.udev ≡ w.udev)
        × ((received h w'.calls ≡ at_rest (take len cmd ∷ cs) ok)
            ⊎ ((received h w'.calls ≡ at_rest cs ok) × (reply.status ≡ minus_one))))
  unfolding hid_ctrl_comm
  hid_ctrl_comm-received d len cmd cs ok w is_open fits few rest =
      let (c, e, there) = send_blocks-received h dev timeout len cmd cs ok w fits few rest in
      let (reply, c', e', same, got, bad) =
        await_answer_returns (not (ltb_ℤ (h.answer_out w.calls) (pos 0)))
          (record w { calls = c }) in
      rw is_open (
        rw (e, ◌>>=◌)
          (rw e' (
            refl,
            elim (Bool-cases (ltb_ℤ (h.answer_out w.calls) (pos 0))) [
              | inl lost ↦ inr (got ∙ there ∙ (rw lost rest), bad (rw lost refl))
              | inr went ↦ inl (got ∙ there ∙ (rw went refl))
            ],
          )))
