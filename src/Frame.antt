-- ===== src/Frame.antt =====
-- What the functions leave alone in the device record, whatever libusb and the device do: the
-- exchange with the device changes nothing of it.
pub mod Keys
pub mod Mouse
pub mod Moves
pub mod Curve
pub mod Calls
use msdk_linux.Base.{
  ℕ, ℤ, List, Bool, suc, u8, ◌-◌, ◌+◌, Option, sym, ◌++◌, drop, some, leb, if◌then◌else◌, ltb_ℤ,
  length, ltb, true, take, [], pos, none, false, ◌==◌, bit_and, zero,
}
use msdk_linux.Machine.{
  Host, Udev, World, Prog, Device, call, transfer_in, transfer_out, return, undefined_here,
}
use msdk_linux.Machine.Ends.{Keeps, Keeps-bind, Keeps-if, Ensures-mono}
use msdk_linux.Hid.{hid_ctrl_comm, await_answer, finish}
use msdk_linux.Hid.Send.{
  send_loop, send_block, send_blocks, out_put_report, chunk_len, read_block, next_seq, more_data,
}
use msdk_linux.Common.{m_rand_dom_nbr, m_delay_random}
use msdk_linux.Hid.Receive.{receive_loop, receive_blocks, bytes_from}
use msdk_linux.Common.Quiet.{m_delay_random-Quiet, m_rand_dom_nbr-Quiet}
use mathlib.Core.Path.{subst, sym}

module _ (P : Udev → Type 0) where
  abbrev Q : World → Type 0
  Q w = P w.udev

  send_block-Keeps :
      (h : Host) (dev : Device) (timeout n more : ℕ) (block : List ℕ) (seq block_no : ℕ)
      → Keeps Q (send_block h dev timeout n more block seq block_no)
  unfolding send_block
  send_block-Keeps h dev timeout n more block seq block_no =
      let report : List ℕ → List ℕ =
        λ bytes. out_put_report timeout (u8 (seq + more + block_no)) bytes in
      Keeps-bind Q (read_block block n)
        (λ bytes. call (transfer_out dev (report bytes)) h.answer_out)
        (Keeps-if Q (leb n (length block)) (return (take n block)) undefined_here (λ w s. s)
          (λ w s. tt))
        (λ bytes w s. s)

  send_loop-Keeps :
      (h : Host) (dev : Device) (timeout f len : ℕ) (block : List ℕ) (seq block_no : ℕ)
      → Keeps Q (send_loop h dev timeout f len block seq block_no)
  unfolding send_loop
  send_loop-Keeps h dev timeout zero len block seq block_no = λ w s. tt
  send_loop-Keeps h dev timeout (suc f) len block seq block_no =
      let left = len - chunk_len len in
      let block' = drop (chunk_len len) block in
      let rest = send_loop h dev timeout f left block' (next_seq seq) (u8 (block_no + 1)) in
      let again : Prog Bool = if ltb 0 left then rest else return true in
      Keeps-bind Q (send_block h dev timeout (chunk_len len) (more_data len) block seq block_no)
        (λ r. if ltb_ℤ r (pos 0) then return false else again)
        (send_block-Keeps h dev timeout (chunk_len len) (more_data len) block seq block_no)
        (λ r.
          Keeps-if Q (ltb_ℤ r (pos 0)) (return false) again (λ w s. s)
            (Keeps-if Q (ltb 0 left) rest (return true)
              (send_loop-Keeps h dev timeout f left block' (next_seq seq) (u8 (block_no + 1)))
              (λ w s. s)))

  receive_loop-Keeps :
      (h : Host) (room : ℕ) (dev : Device) (f : ℕ) (resp : List ℕ)
      → Keeps Q (receive_loop h room dev f resp)
  unfolding receive_loop
  receive_loop-Keeps h room dev zero resp = λ w s. tt
  receive_loop-Keeps h room dev (suc f) resp =
      Keeps-bind Q (call (transfer_in dev) h.answer_in)
        (λ t.
          let pcb = u8 (t.1 1) in
          let n = u8 (t.1 3) in
          let resp' = resp ++ bytes_from t.1 4 n in
          if ltb_ℤ t.0 (pos 0)
          then return none
          else if pcb == 0xCC
          then receive_loop h room dev f resp
          else if leb (length resp + n) room
          then (if ltb 0 (bit_and pcb 0x20)
              then receive_loop h room dev f resp'
              else return (some resp'))
          else undefined_here)
        (λ w s. s)
        (λ t.
          let pcb = u8 (t.1 1) in
          let n = u8 (t.1 3) in
          let resp' : List ℕ = resp ++ bytes_from t.1 4 n in
          let retry = receive_loop h room dev f resp in
          let next = receive_loop h room dev f resp' in
          let last : Prog (Option (List ℕ)) = return (some resp') in
          let more = if ltb 0 (bit_and pcb 0x20) then next else last in
          let fits = if leb (length resp + n) room then more else undefined_here in
          Keeps-if Q (ltb_ℤ t.0 (pos 0)) (return none) (if pcb == 0xCC then retry else fits)
            (λ w s. s)
            (Keeps-if Q (pcb == 0xCC) retry fits (receive_loop-Keeps h room dev f resp) (
              Keeps-if Q (leb (length resp + n) room) more undefined_here
                (Keeps-if Q (ltb 0 (bit_and pcb 0x20)) next last
                  (receive_loop-Keeps h room dev f resp') (λ w s. s))
                (λ w s. tt))))

  pub hid_ctrl_comm-Keeps :
      (h : Host) (room : ℕ) (dev : Option Device) (len : ℕ) (cmd : List ℕ) (timeout : ℕ)
      → Keeps Q (hid_ctrl_comm h room dev len cmd timeout)
  unfolding hid_ctrl_comm send_blocks receive_blocks await_answer
  hid_ctrl_comm-Keeps h room none len cmd timeout = λ w s. s
  hid_ctrl_comm-Keeps h room (some dev) len cmd timeout =
      Keeps-bind Q (send_blocks h dev timeout len cmd) (await_answer h room dev)
        (send_loop-Keeps h dev timeout (suc len) len cmd 0 0) answer
    where
      answer : (sent : Bool) → Keeps Q (await_answer h room dev sent)
      answer false = λ w s. s
      answer true =
          Keeps-bind Q (receive_blocks h room dev) (λ resp. return (finish resp))
            (receive_loop-Keeps h room dev h.patience []) (λ resp w s. s)

  pub draw-Keeps : (h : Host) (a b : ℤ) → Keeps Q (m_rand_dom_nbr h a b)
  draw-Keeps h a b w s =
      Ensures-mono _ _ (m_rand_dom_nbr h a b w) (m_rand_dom_nbr-Quiet h a b w)
        (λ r w' q. subst P (sym q.0) s)

  pub delay-Keeps : (h : Host) (a b : ℤ) → Keeps Q (m_delay_random h a b)
  delay-Keeps h a b w s =
      Ensures-mono _ _ (m_delay_random h a b w) (m_delay_random-Quiet h a b w)
        (λ r w' q. subst P (sym q.0) s)
