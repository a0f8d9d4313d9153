-- ===== src/Hid/Receive.antt =====
-- The input half of `HID_Ctrl_Comm`: reports are read until one says that no more follows.
pub mod Answers
pub mod Reports
use msdk_linux.Base.{
  ℕ, zero, suc, ◌+◌, Bool, true, false, Option, none, some, List, [], ◌∷◌, ◌++◌, ltb, leb, ◌==◌,
  ltb_ℤ, pos, u8, if◌then◌else◌, length, bit_and,
}
use msdk_linux.Machine.{
  Device, Host, Prog, ◌>>=◌, return, undefined_here, give_up, call, transfer_in,
}

-- `n` bytes of `InPutReport` from an offset on.
abbrev pub bytes_from : (ℕ → ℕ) → ℕ → ℕ → List ℕ
bytes_from buf off zero = []
bytes_from buf off (suc n) = u8 (buf off) ∷ bytes_from buf (off + 1) n

module _ (h : Host) (room : ℕ) (dev : Device) where
  -- The `do` loop with its `RETRY`; `resp` is what has been written to `pbRespAPDU`, a buffer of
  -- `room` bytes: writing past it is undefined. `none` is the failed transfer.
  unfoldable pub receive_loop : ℕ → List ℕ → Prog (Option (List ℕ))
  receive_loop zero resp = give_up
  receive_loop (suc f) resp = do
    (r, buf) ← call (transfer_in dev) h.answer_in
    let pcb = u8 (buf 1)
    let n = u8 (buf 3)
    let resp' = resp ++ bytes_from buf 4 n
    let retry = receive_loop f resp
    let next = receive_loop f resp'
    if ltb_ℤ r (pos 0)
        then return none
        else if pcb == 0xCC
        then retry
        else if leb (length resp + n) room
        then (if ltb 0 (bit_and pcb 0x20) then next else return (some resp'))
        else undefined_here

  unfoldable pub receive_blocks : Prog (Option (List ℕ))
  unfolding receive_loop
  receive_blocks = receive_loop h.patience []
