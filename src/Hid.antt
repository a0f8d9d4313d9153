-- ===== src/Hid.antt =====
-- msdk/hidcomm.c: the block protocol over the control endpoint.
pub mod Wire
pub mod Send
pub mod Receive
pub mod Open
pub mod Exchange
pub mod Answered
use msdk_linux.Base.{
  ℕ, ◌+◌, ◌-◌, ◌*◌, ◌<◌, Bool, true, false, Option, none, some, List, [], ℤ, pos, minus_one, ltb,
  if◌then◌else◌, length, get_or,
}
use msdk_linux.Machine.{Device, Host, Prog, return, ◌>>=◌}
use Send.{send_blocks}
use Receive.{receive_blocks}

-- What `HID_Ctrl_Comm` hands back: its result, and what it leaves in `pbRespAPDU` and in
-- `*cbRespAPDU`.
pub record Reply : Type 0 where
  pub status : ℤ
  pub resp_apdu : List ℕ
  pub resp_len : ℕ

abbrev pub failed : List ℕ → ℕ → Reply
failed resp len = record { status = minus_one; resp_apdu = resp; resp_len = len }

-- The status word at the end of the response; the response without it is what is left.
unfoldable pub status_word : List ℕ → Reply
status_word resp =
    let n = length resp in
    if ltb 1 n
    then record {
      status = pos (get_or resp (n - 2) 0 * 256 + get_or resp (n - 1) 0);
      resp_apdu = resp;
      resp_len = n - 2;
    }
    else failed resp n

abbrev pub finish : Option (List ℕ) → Reply
finish none = failed [] 0
finish (some resp) = status_word resp

-- The second half: the answer is read if every block went out.
unfoldable pub await_answer : Host → ℕ → Device → Bool → Prog Reply
await_answer h room dev false = return (failed [] 0)
await_answer h room dev true = do resp ← receive_blocks h room dev; return (finish resp)

-- `HID_Ctrl_Comm(l_devh, len, cmd, &..., resp, timeout)`, where `cmd` is the caller's buffer and
-- `room` the size of the response buffer.
unfoldable pub hid_ctrl_comm : Host → ℕ → Option Device → ℕ → List ℕ → ℕ → Prog Reply
unfolding await_answer
hid_ctrl_comm h room none len cmd timeout = return (failed [] 0)
hid_ctrl_comm h room (some dev) len cmd timeout = do
  sent ← send_blocks h dev timeout len cmd
  await_answer h room dev sent
