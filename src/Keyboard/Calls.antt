-- ===== src/Keyboard/Calls.antt =====
-- `M_KeyDown`, `M_KeyUp` and `M_KeyState` at a device that answers at once: the state of the
-- keyboard, what the functions return, and the report that the other end gets.
use msdk_linux.Base.{
  ℕ, List, length, Bool, ◌∷◌, ◌≡◌, bit_and, take, [], ◌≤◌, ◌+◌, ◌⊎◌, ℤ, some, pos, inl, arith,
  minus_one, inr, refl, Bool-cases, eqb_ℤ,
}
use msdk_linux.Machine.{Host, Device, IsPrompt, World, ◌>>=◌}
use msdk_linux.Machine.Ends.{Returns}
use msdk_linux.Hid.{Reply}
use msdk_linux.Hid.Exchange.{hid_ctrl_comm_short}
use msdk_linux.Hid.Wire.{handed_over, at_rest}
use msdk_linux.Keyboard.{send_kb_op, comm_result}
use msdk_linux.Keyboard.State.{HasDown}
use msdk_linux.Keyboard.Op.{byte}
use msdk_linux.Keyboard.Held.{active_op, last_index}

-- The record belongs to an open device, shows `mods` and `ks`, and the commands `cs` have gone
-- out over the wire, all in order if `ok`.
pub record KbState (dev : Device) (mods : ℕ) (ks : List ℕ) (cs : List (List ℕ)) (ok : Bool)
    (w : World) : Type 0 where
  pub device : w.udev.h_dev ≡ some dev
  pub down : HasDown w.udev.curr_kb_op mods ks
  pub on_wire : handed_over w.calls ≡ at_rest cs ok

-- The report that tells a keyboard with `mods` and `ks` down: one byte 0 if there is nothing to
-- tell, else the header, the modifiers, 0, and the keys (or one 0 for none).
abbrev pub key_places : List ℕ → List ℕ
key_places [] = 0 ∷ []
key_places (k ∷ ks) = k ∷ ks

abbrev pub Tells : List ℕ → ℕ → List ℕ → Type 0
Tells command mods ks =
    ((command ≡ 0 ∷ []) × (mods ≡ 0) × (ks ≡ []))
    ⊎ (command ≡ (0x80 + last_index ks) ∷ mods ∷ 0 ∷ key_places ks)

abbrev sent_part : List ℕ → List ℕ
sent_part op = take (bit_and (byte op 0) 0x0F + 1) op

sent_part-active :
    (mods : ℕ) (ks : List ℕ)
    → length ks ≤ 6
    → (sent_part (active_op mods ks) ≡ (0x80 + last_index ks) ∷ mods ∷ 0 ∷ key_places ks)
      × (bit_and (byte (active_op mods ks) 0) 0x0F + 1 ≤ 10)
      × (length (active_op mods ks) ≡ 10)
sent_part-active mods [] few = (refl, omega arith, refl)
sent_part-active mods (a ∷ []) few = (refl, omega arith, refl)
sent_part-active mods (a ∷ b ∷ []) few = (refl, omega arith, refl)
sent_part-active mods (a ∷ b ∷ c ∷ []) few = (refl, omega arith, refl)
sent_part-active mods (a ∷ b ∷ c ∷ d ∷ []) few = (refl, omega arith, refl)
sent_part-active mods (a ∷ b ∷ c ∷ d ∷ e ∷ []) few = (refl, omega arith, refl)
sent_part-active mods (a ∷ b ∷ c ∷ d ∷ e ∷ f ∷ []) few = (refl, omega arith, refl)
sent_part-active mods (a ∷ b ∷ c ∷ d ∷ e ∷ f ∷ g ∷ ks) few = absurd (omega arith)

pub sent_part-Tells :
    (op : List ℕ) (mods : ℕ) (ks : List ℕ)
    → HasDown op mods ks
    → Tells (sent_part op) mods ks × (bit_and (byte op 0) 0x0F + 1 ≤ 10) × (length op ≡ 10)
sent_part-Tells op mods ks d = elim d.shows [
  | inl (e, m, n) ↦ rw e (inl (refl, m, n), omega arith, refl)
  | inr e ↦
      rw e (let (told, short, whole) = sent_part-active mods ks d.few in (inr told, short, whole))
]

-- How a call of the keyboard ends: with 0 or -1, in a state in which the other end has been told
-- what is down, one command after `cs`, and with the rest of the record as it was.
abbrev pub Told : Device → List (List ℕ) → Bool → ℕ → List ℕ → World → ℤ → World → Type 0
Told dev cs ok mods ks w r w' =
    (command : List ℕ) × KbState dev mods ks (command ∷ cs) ok w'
    × Tells command mods ks
    × (w'.udev ≡ record w.udev { curr_kb_op = w'.udev.curr_kb_op })
    × ((r ≡ pos 0) ⊎ (r ≡ minus_one))

pub comm_result_cases :
    (reply : Reply) → (comm_result reply ≡ pos 0) ⊎ (comm_result reply ≡ minus_one)
comm_result_cases reply = elim (Bool-cases (eqb_ℤ reply.status (pos 1))) [
  | inl e ↦ inl (rw e)
  | inr e ↦ inr (rw e)
]

module _ (h : Host) (prompt : IsPrompt h) (dev : Device) (mods : ℕ) (ks : List ℕ)
    (cs : List (List ℕ)) (ok : Bool) where
  pub send_kb_op-Told :
      (w : World)
      → KbState dev mods ks cs ok w
      → Returns (send_kb_op h w) (Told dev cs ok mods ks w)
  unfolding send_kb_op
  send_kb_op-Told w s =
      let (told, short, whole) = sent_part-Tells w.udev.curr_kb_op mods ks s.down in
      let op = w.udev.curr_kb_op in
      let x =
        hid_ctrl_comm_short h dev 0 prompt w.udev.h_dev (bit_and (byte op 0) 0x0F + 1) op cs ok w
          s.device (omega arith) (omega arith) s.on_wire in
      rw (x.returns, ◌>>=◌)
        (
          sent_part op,
          record { device = s.device; down = s.down; on_wire = x.on_wire },
          told,
          refl,
          comm_result_cases x.reply,
        )
