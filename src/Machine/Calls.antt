-- ===== src/Machine/Calls.antt =====
-- The calls of libusb and of the C library as a history, and the host that answers them.
use msdk_linux.Base.{ℕ, ◌≤◌, ◌<◌, ◌≡◌, ◌≢◌, ◌⊎◌, Option, List, ◌%◌, bit_and, ℤ, pos, ◌<ℤ◌}

-- A `libusb_device_handle *` that is not NULL.
abbrev pub Device : Type 0
Device = ℕ

-- One call, with the arguments that vary.
-- `transfer_out d r` and `transfer_in d` are `libusb_control_transfer` with the request types 0x21
-- and 0xa1; `r` are the 64 bytes that the first hands over.
pub data Call : Type 0 where
  usb_init usb_exit : Call
  open_device : ℕ → ℕ → Call
  close_device kernel_driver_active detach_kernel_driver : Device → Call
  claim_interface release_interface : Device → Call
  transfer_out : Device → List ℕ → Call
  transfer_in : Device → Call
  print_error : Call
  malloc free rand : Call
  usleep : ℕ → Call

-- The calls so far, the latest first.
abbrev pub History : Type 0
History = List Call

-- The host's answers, each a function of the calls so far: any behaviour of the device, of the
-- bus and of the operating system is one of these.
-- `answer_in` gives the result of the transfer and the whole of `InPutReport` after it: what the
-- transfer did not write is whatever it is.
-- `patience` bounds how often a loop goes round before the model gives up on it.
pub record Host : Type 0 where
  pub init : History → ℤ
  pub device : History → Option Device
  pub driver_active : History → ℤ
  pub detach : History → ℤ
  pub claim : History → ℤ
  pub answer_out : History → ℤ
  pub answer_in : History → ℤ × (ℕ → ℕ)
  pub allocates : History → Option (Unit {0})
  pub random : History → ℕ
  pub patience : ℕ

-- A device that answers each read at once: the transfer fails, or it brings a report that is
-- neither "busy" (0xCC) nor followed by another, with a payload that fits the callers' 32 bytes.
pub record IsPrompt (h : Host) : Type 0 where
  pub waits : 0 < h.patience
  pub answers :
      (c : History)
      → (h.answer_in c).0 <ℤ pos 0
        ⊎ ((h.answer_in c).1 1 % 256 ≢ 0xCC)
          × (bit_and ((h.answer_in c).1 1 % 256) 0x20 ≡ 0)
          × ((h.answer_in c).1 3 % 256 ≤ 32)
