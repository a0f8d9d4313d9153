-- ===== src/Hid/Send.antt =====
-- The output half of `HID_Ctrl_Comm`: the command goes out in blocks of at most 60 bytes.
pub mod Blocks
use msdk_linux.Base.{
  ℕ, zero, suc, ◌+◌, ◌-◌, Bool, true, false, List, [], ◌∷◌, ◌++◌, ltb, leb, ◌==◌, ltb_ℤ, pos, u8,
  if◌then◌else◌, length, take, drop, replicate, ℤ,
}
use msdk_linux.Machine.{
  Device, Host, Prog, ◌>>=◌, return, undefined_here, give_up, call, transfer_out,
}

-- `BlockLen`
abbrev pub block_len : ℕ
block_len = 0x40 - 4

-- The 64 bytes of `OutPutReport` that the transfer takes: NAD, PCB, the length, and the block,
-- over an array of zeros.
abbrev pub out_put_report : ℕ → ℕ → List ℕ → List ℕ
out_put_report timeout pcb block =
    u8 timeout ∷ pcb ∷ 0 ∷ length block ∷ (block ++ replicate (block_len - length block) 0)

unfoldable pub chunk_len : ℕ → ℕ
chunk_len len = if ltb block_len len then block_len else len

unfoldable pub more_data : ℕ → ℕ
more_data len = if ltb block_len len then 0x20 else 0

unfoldable pub next_seq : ℕ → ℕ
next_seq seq = if seq == 0x40 then 0 else 0x40

-- `memcpy` of `n` bytes out of a buffer of which `block` is left: reading past it is undefined.
abbrev pub read_block : List ℕ → ℕ → Prog (List ℕ)
read_block block n w = (if leb n (length block) then return (take n block) else undefined_here) w

module _ (h : Host) (dev : Device) (timeout : ℕ) where
  -- One block: filled in and handed to `libusb_control_transfer`, whose result comes back.
  unfoldable pub send_block : ℕ → ℕ → List ℕ → ℕ → ℕ → Prog ℤ
  send_block n more block seq block_no = do
    bytes ← read_block block n
    call (transfer_out dev (out_put_report timeout (u8 (seq + more + block_no)) bytes)) h.answer_out

  -- The `do` loop, with `len` for `cbCommAPDU`, `block` for what `pbBlock` points to, `seq` for
  -- `SeqNumber` and `block_no` for `BlockNo`. It answers whether every transfer went through.
  unfoldable pub send_loop : ℕ → ℕ → List ℕ → ℕ → ℕ → Prog Bool
  send_loop zero len block seq block_no = give_up
  send_loop (suc f) len block seq block_no = do
    r ← send_block (chunk_len len) (more_data len) block seq block_no
    let left = len - chunk_len len
    let rest = send_loop f left (drop (chunk_len len) block) (next_seq seq) (u8 (block_no + 1))
    if ltb_ℤ r (pos 0) then return false else if ltb 0 left then rest else return true

  -- Each round takes at least one byte off, and the last one none: `len + 1` rounds are enough.
  unfoldable pub send_blocks : ℕ → List ℕ → Prog Bool
  unfolding send_loop
  send_blocks len cmd = send_loop (suc len) len cmd 0 0
