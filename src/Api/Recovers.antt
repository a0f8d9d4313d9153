-- ===== src/Api/Recovers.antt =====
-- What a failed transfer of `M_KeyDown` or `M_KeyUp` leaves behind, and what the next one that goes
-- through makes good.
use msdk_linux.Base.{
  ℕ, List, Bool, ◌≡◌, ◌⊎◌, inl, inr, pos, some, minus_one, true, ◌+◌, bit_and, ◌∙◌, arith, ◌∷◌,
  take, ℤ, refl,
}
use msdk_linux.Machine.{Host, IsPrompt, Device, World, live, return}
use msdk_linux.Machine.Ends.{Returns, Returns-bind}
use msdk_linux.Hid.{hid_ctrl_comm}
use msdk_linux.Hid.Exchange.{hid_ctrl_comm-received}
use msdk_linux.Hid.Wire.{received, at_rest}
use msdk_linux.Keyboard.{
  m_key_down, m_key_up, send_kb_op, comm_result, set_kb_op, key_down_op, key_up_op,
}
use msdk_linux.Keyboard.Calls.{sent_part-Tells}
use msdk_linux.Keyboard.Op.{byte, is_key_code}
use msdk_linux.Keyboard.State.{
  HasDown, down_mods, down_keys, up_mods, up_keys, key_down_op-HasDown, key_up_op-HasDown,
}
use msdk_linux.Api.Box.{Screen, reads, reads_next, reads-Tells}

module _ (h : Host) (prompt : IsPrompt h) (scr : Screen) (dev : Device) (ok : Bool)
    (cs : List (List ℕ)) where
  -- The record shows what is down. The box has got one report more and takes just this to be down, or
  -- it has got nothing and the result is -1.
  abbrev pub Recovered : ℕ → List ℕ → ℤ → World → Type 0
  Recovered mods ks r w =
      HasDown w.udev.curr_kb_op mods ks
      × (((reports : List (List ℕ)) × (received h w.calls ≡ at_rest reports ok)
            × (reads scr reports ≡ record (reads scr cs) { mods = mods; keys = ks }))
          ⊎ ((received h w.calls ≡ at_rest cs ok) × (r ≡ minus_one)))

  send_kb_op-Recovered :
      (mods : ℕ) (ks : List ℕ) (w : World)
      → w.udev.h_dev ≡ some dev
      → HasDown w.udev.curr_kb_op mods ks
      → received h w.calls ≡ at_rest cs ok
      → Returns (send_kb_op h w) (Recovered mods ks)
  unfolding send_kb_op
  send_kb_op-Recovered mods ks w is_open down rest =
      let op = w.udev.curr_kb_op in
      let len = bit_and (byte op 0) 0x0F + 1 in
      let (told, short, whole) = sent_part-Tells op mods ks down in
      Returns-bind _ (Recovered mods ks) (hid_ctrl_comm h 32 w.udev.h_dev len op 0)
        (λ reply. return (comm_result reply)) w
        (hid_ctrl_comm-received h dev 0 prompt w.udev.h_dev len op cs ok w is_open (omega arith)
          (omega arith) rest)
        (λ reply w' (same, got). (
          rw same down,
          elim got [
            | inl there ↦ inl (
              take len op ∷ cs,
              there,
              reads_next scr (take len op) cs (reads scr cs) refl
                  ∙ reads-Tells scr (take len op) mods ks (reads scr cs) down.few down.keys told,
            )
            | inr (nothing, failed) ↦ inr (nothing, rw failed refl)
          ],
        ))

  module _ (mods : ℕ) (ks : List ℕ) (code : ℕ) (w : World) (v : is_key_code (pos code) ≡ true)
      (is_open : w.udev.h_dev ≡ some dev) (down : HasDown w.udev.curr_kb_op mods ks)
      (rest : received h w.calls ≡ at_rest cs ok) where
    -- At a device that answers reads at once, whatever the box took to be down before, M_KeyDown
    -- and M_KeyUp of an accepted code return with the code down or up in the record, whether the
    -- transfer of the report failed or not: then the box has got a report from which it takes just
    -- the keys and the modifiers to be down that the record shows, or the result is -1 and the box
    -- has got nothing.
    pub keys-Recovered :
        Returns
          (m_key_down h live (pos code) w)
          (Recovered (down_mods code mods) (down_keys code ks))
        × Returns (m_key_up h live (pos code) w) (Recovered (up_mods code mods) (up_keys code ks))
    unfolding m_key_down m_key_up
    keys-Recovered = (
      rw v (
          send_kb_op-Recovered (down_mods code mods) (down_keys code ks)
            (record w { udev = set_kb_op (key_down_op code) w.udev }) is_open
            (key_down_op-HasDown code mods w.udev.curr_kb_op ks v down) rest),
      rw v (
          send_kb_op-Recovered (up_mods code mods) (up_keys code ks)
            (record w { udev = set_kb_op (key_up_op code) w.udev }) is_open
            (key_up_op-HasDown code mods w.udev.curr_kb_op ks v down) rest),
    )
