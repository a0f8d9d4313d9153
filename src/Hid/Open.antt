-- ===== src/Hid/Open.antt =====
-- `HID_Open` and `HID_Close`.
use msdk_linux.Base.{ℕ, Option, none, some, ltb_ℤ, eqb_ℤ, ℤ, pos, minus_one, if◌then◌else◌}
use msdk_linux.Machine.{
  Device, Host, Prog, ◌>>=◌, ◌>>◌, return, call, silent, usb_init, usb_exit, open_device,
  close_device, kernel_driver_active, detach_kernel_driver, claim_interface, release_interface,
  print_error,
}

-- Every error after `libusb_open_device_with_vid_pid` takes this way out.
abbrev pub give_back : Device → Prog (Option Device)
give_back dev = do silent print_error; silent (close_device dev); silent usb_exit; return none

abbrev pub claim_or_give_back : Host → Device → Prog (Option Device)
claim_or_give_back h dev = do
  ret ← call (claim_interface dev) h.claim
  if ltb_ℤ ret (pos 0) then give_back dev else return (some dev)

-- A kernel driver on the interface is detached first.
abbrev pub detach_and_claim : Host → Device → Prog (Option Device)
detach_and_claim h dev = do
  active ← call (kernel_driver_active dev) h.driver_active
  if eqb_ℤ active (pos 1)
      then (do
        ret ← call (detach_kernel_driver dev) h.detach
        if ltb_ℤ ret (pos 0) then give_back dev else claim_or_give_back h dev)
      else claim_or_give_back h dev

unfoldable pub hid_open : Host → ℕ → ℕ → Prog (Option Device)
hid_open h vid pid = do
  ret ← call usb_init h.init
  if ltb_ℤ ret (pos 0) then (do silent print_error; return none) else (do
    l_devh ← call (open_device vid pid) h.device
    elim l_devh [
      | none ↦ silent print_error >> silent usb_exit >> return none
      | some dev ↦ detach_and_claim h dev
    ])

unfoldable pub hid_close : Option Device → Prog ℤ
hid_close none = return minus_one
hid_close (some dev) = do
  silent (release_interface dev)
  silent (close_device dev)
  silent usb_exit
  return (pos 0)
