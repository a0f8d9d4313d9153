-- ===== src/Hid/Wire.antt =====
-- The other end of the wire, from the layout of the PCB byte: bits 0 to 4 number the blocks of a
-- command, bit 5 says that more blocks follow, bit 6 alternates from block to block.
use msdk_linux.Base.{
  inl, inr, ◌⊎◌, Bool-cases, ltb_ℤ, pos, false, ◌≡◌, refl, ap, ℕ, ◌+◌, ◌/◌, ◌%◌, Bool, true, ◌&&◌,
  List, [], ◌∷◌, ◌++◌, ◌==◌, if◌then◌else◌, get_or, take, drop,
}
use msdk_linux.Machine.{History, Host, transfer_out}

pub record Wire : Type 0 where
  -- The bytes and the number of blocks of the command that has not ended yet.
  pub partial : List ℕ
  pub blocks : ℕ
  -- The commands that have ended, the latest first.
  pub commands : List (List ℕ)
  -- Every block so far came with the number and the alternating bit that were due.
  pub in_order : Bool

abbrev pub payload : List ℕ → List ℕ
payload report = take (get_or report 3 0) (drop 4 report)

unfoldable pub accept : List ℕ → Wire → Wire
accept report s =
    let pcb = get_or report 1 0 in
    let bytes = s.partial ++ payload report in
    let ok = s.in_order && pcb % 32 == s.blocks && pcb / 64 == s.blocks % 2 in
    if pcb / 32 % 2 == 1
    then record { partial = bytes; blocks = s.blocks + 1; commands = s.commands; in_order = ok }
    else record { partial = []; blocks = 0; commands = bytes ∷ s.commands; in_order = ok }

-- What the calls so far have handed to the transfers, whether these went through or not.
unfoldable pub handed_over : History → Wire
handed_over [] = record { partial = []; blocks = 0; commands = []; in_order = true }
handed_over (transfer_out d report ∷ c) = accept report (handed_over c)
handed_over (other ∷ c) = handed_over c

-- The state between two commands.
abbrev pub at_rest : List (List ℕ) → Bool → Wire
at_rest commands ok = record { partial = []; blocks = 0; commands = commands; in_order = ok }

-- What the other end has got: a block whose transfer failed has not arrived.
unfoldable pub received : Host → History → Wire
received h [] = record { partial = []; blocks = 0; commands = []; in_order = true }
received h (transfer_out d report ∷ c) =
    let before = received h c in
    if ltb_ℤ (h.answer_out c) (pos 0) then before else accept report before
received h (other ∷ c) = received h c

-- Every transfer of a block so far went through.
abbrev pub AllTaken : Host → History → Type 0
AllTaken h [] = Unit
AllTaken h (transfer_out d report ∷ c) = (ltb_ℤ (h.answer_out c) (pos 0) ≡ false) × AllTaken h c
AllTaken h (other ∷ c) = AllTaken h c

-- Then the other end has got what was handed over.
pub received-handed_over : (h : Host) (c : History) → AllTaken h c → received h c ≡ handed_over c
unfolding received handed_over
received-handed_over h [] taken = refl
received-handed_over h (transfer_out d report ∷ c) (went, taken) =
    rw went (ap (accept report) (received-handed_over h c taken))
received-handed_over h (other ∷ c) taken = received-handed_over h c taken

pub AllTaken-always :
    (h : Host)
    → ((c : History) → ltb_ℤ (h.answer_out c) (pos 0) ≡ false)
    → (c : History) → AllTaken h c
AllTaken-always h went [] = tt
AllTaken-always h went (transfer_out d report ∷ c) = (went c, AllTaken-always h went c)
AllTaken-always h went (other ∷ c) = AllTaken-always h went c

pub AllTaken-cases : (h : Host) (c : History) → AllTaken h c ⊎ ¬ AllTaken h c
AllTaken-cases h [] = inl tt
AllTaken-cases h (transfer_out d report ∷ c) = elim (Bool-cases (ltb_ℤ (h.answer_out c) (pos 0))) [
  | inl lost ↦ inr (λ t. cc (t.0, lost))
  | inr went ↦ elim (AllTaken-cases h c) [ inl t ↦ inl (went, t) | inr f ↦ inr (λ t. f t.1) ]
]
AllTaken-cases h (other ∷ c) = AllTaken-cases h c
