-- ===== src/Tests/Session.antt =====
-- A session with the device of Tests/Setup.
use msdk_linux.Base.{pos, refl, ◌≡◌, some, none, ◌∷◌, [], arith, true, minus_one}
use msdk_linux.Session.{m_open, vid, pid, new_udev, m_close}
use msdk_linux.Machine.Ends.{Returns}
use msdk_linux.Machine.{
  World, Host, done, claim_interface, usb_exit, live, print_error, detach_kernel_driver,
  kernel_driver_active, open_device, usb_init,
}
use msdk_linux.Hid.Open.{hid_open}
use msdk_linux.Tests.Setup.{start, box, start-on_wire}
use msdk_linux.Session.Balance.{Opened, hid_open-Opened}
use msdk_linux.Session.Opening.{m_open-m_close, m_open-ready}
use msdk_linux.Session.Resources.{resources, with_block, with_device}
use msdk_linux.Keyboard.Calls.{KbState}
use msdk_linux.Hid.Wire.{handed_over}
use msdk_linux.Mouse.Calls.{MouseState}
use msdk_linux.Move.{m_get_curr_mouse_pos}

-- After the calls of `HID_Open`, where a kernel driver is active.
abbrev pub claimed : World
claimed = record start {
  calls =
      claim_interface 7
      ∷ detach_kernel_driver 7
      ∷ kernel_driver_active 7
      ∷ open_device vid pid
      ∷ usb_init
      ∷ [];
}

pub opens : hid_open box vid pid start ≡ done (some 7) claimed
unfolding hid_open
opens = refl

hid_open-Opened_example :
    Returns
      (hid_open box vid pid start)
      (Opened box start.udev (resources box start.calls) (handed_over start.calls))
hid_open-Opened_example = hid_open-Opened box vid pid start

m_open-m_close_example :
    (w2 : World) × (m_open box (pos 1) start ≡ done live w2)
    × (w2.udev ≡ new_udev 7)
    × (resources box w2.calls ≡ with_block (with_device 7 (resources box start.calls)))
    × Returns
        (m_close live w2)
        (λ r w3. (r ≡ pos 0) × (resources box w3.calls ≡ resources box start.calls))
m_open-m_close_example =
    m_open-m_close box (pos 1) start claimed (omega arith) (omega arith) 7 opens refl

m_open-ready_example :
    (w2 : World) × (m_open box (pos 1) start ≡ done live w2)
    × KbState 7 0 [] [] true w2
    × MouseState 7 0 [] true w2
    × (m_get_curr_mouse_pos live w2 ≡ done (minus_one, none) w2)
m_open-ready_example =
    m_open-ready box (pos 1) start claimed (omega arith) (omega arith) 7 opens refl [] true
      start-on_wire

-- The same without a device.
abbrev bare : Host
bare = record box { device = λ c. none }

finds_none :
    hid_open bare vid pid start
    ≡ done none
        (record start { calls = usb_exit ∷ print_error ∷ open_device vid pid ∷ usb_init ∷ [] })
unfolding hid_open
finds_none = refl
