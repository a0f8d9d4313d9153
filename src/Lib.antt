-- ===== src/Lib.antt =====
-- Verification of the msdk library (msdk/), which drives a box that acts as a keyboard and a mouse
-- over USB.
--
-- The program. msdk/hidcomm.c opens the box through libusb and exchanges commands with it:
-- `HID_Ctrl_Comm` cuts a command into blocks of at most 60 bytes, hands each to a control transfer,
-- and reads the response in reports. msdk/msdk.c keeps a record for the box (`UDEVHANDLE` of
-- msdk/msdk.h) with the keys and buttons that are down and the position of the pointer; its
-- functions change the record and send it as a command. msdk/AjjlKeyName.h and msdk/KeyCode.h hold
-- the tables and constants for the keys. The copy of libusb in libusb/ is another project.
--
-- The model. A function of the library is a program over a `World`: the history of the calls that
-- left the library (libusb, malloc, rand, usleep) and the device record. A call ends with a result
-- and a new world, or with `undefined` where the C code does what C leaves undefined (a buffer is
-- overrun, a value is read that was never set, a remainder is taken by 0), or with `waiting`.
-- What libusb, the device and the C library answer is the parameter `Host`: each answer is a
-- function of the calls so far, so every behaviour of them is some host. `IsPrompt` is a host that
-- answers each read at once, with a transfer that fails or with a single report of at most 32
-- bytes; the theorems on the functions of msdk.c assume it, and those on the protocol say which
-- reports they assume.
-- A block goes out in a control transfer, which may fail. `handed_over` is what the calls so far have
-- handed to the transfers, and `received` what the other end has got of it, where a block whose
-- transfer failed has not arrived. What the other system makes of the numbers in a report with a
-- place, `column` and `row` of the screen, is a parameter: msdk/msdk.h says that it may be off.
--
-- The files, and the code that they model:
--   Base, Bits        bytes, integers and lists over the native numbers, and bit operations
--   Machine           msdk/msdk.h `UDEVHANDLE`, `HANDLE`; the calls, the host, programs, and
--                     Machine/Loop: the loop `while (Nbr)` that the click and press functions share
--   Hid               msdk/hidcomm.c: Hid/Open `HID_Open`, `HID_Close`; Hid/Send and Hid/Receive the
--                     two loops of `HID_Ctrl_Comm`; Hid/Wire what the other end makes of the
--                     blocks, of all that were handed over and of those that it has got;
--                     Hid/Exchange and Hid/Answered the function as a whole
--   KeyCode           msdk/KeyCode.h and msdk/AjjlKeyName.h
--   Keyboard          msdk/msdk.c `M_KeyDown` to `M_ReleaseAllKey`; Keyboard/Op the changes to
--                     `CurrKbOp`; Keyboard/Held the keys that are down, as the specification, and
--                     Keyboard/Sets these as a set of codes;
--                     Keyboard/Windows the functions on Windows key codes
--   Led               msdk/msdk.c, the three functions on the lights
--   Mouse             msdk/msdk.c, the buttons and the wheel
--   Move              msdk/msdk.c, `M_InternalMoveR` to `M_GetCurrMousePos`; Move/Pointer,
--                     Move/Follows and Move/Screen the pointer that the reports move, held by the
--                     screen's edges
--   Absolute          msdk/msdk.c, `M_ResolutionUsed` and `M_InternalMoveTo3`
--   Curve             msdk/msdk.c, `M_MoveTo3`
--   Common            msdk/msdk.c, `M_RandDomNbr`, `M_Delay`, `M_DelayRandom`
--   Session           msdk/msdk.c, `M_Open` and `M_Close`; Session/Resources what is held
--   Api               the functions of msdk/msdk.h together: Api/Box what the other end takes to be
--                     down, and where it takes the pointer to be, from the reports; Api/Agrees the
--                     record and the box in agreement; Api/Requests the calls and what each may
--                     leave down; Api/Runs and Api/Whereabouts sequences of calls;
--                     Api/Recovers what a failed transfer leaves behind;
--                     Api/Progress that the calls come to their end
--   Frame             the functions of msdk/msdk.h at any host, prompt or not: which part of the
--                     record each may change
--   Demo              msdk/demo.c, `main` as a program over the model: Demo/Typing its loop of
--                     keys, Demo/Moves and Demo/Whole the rest
--   Tests             a device and runs on it
-- A definition has the name of the C function in lower case with underscores (`m_key_down` for
-- `M_KeyDown`, `hid_ctrl_comm` for `HID_Ctrl_Comm`); the argument `room` of the latter is the size
-- of the caller's response buffer, 32 everywhere. `button_down` and `button_up` stand for the six
-- functions on the buttons, which differ in one bit, and `led_state` for the three on the lights.
--
-- Bounds. `patience` of the host bounds the loops whose length the C code does not bound: reading
-- reports, `while (Nbr)`, and the loop of a movement. A theorem that says that a call returns asks
-- for enough of it: more than the number of clicks, presses or reports, or than a hundredth of the
-- distance, a fiftieth for `M_MoveTo3`. The loop that sends blocks has fuel of its own, one
-- round more than the command has bytes, and each round takes at least one off. An `int` is an integer without a bound,
-- except that `while (Nbr)` is undefined once `Nbr` leaves the range; where a
-- value would leave 32 bits C leaves the result open, so no wrap-around is written for it. Unsigned
-- values and bytes wrap around.
--
-- Floating point numbers occur in `M_MoveTo3` alone: what it computes with them, down to the `int`
-- that it keeps, is the parameter `Floats`. Of the curve nothing is assumed; `IsInt` says that the
-- rounded length of the way is in the range of an `int`.
--
-- Not modelled: libusb/, examples/, msvc/, doc/ and the build files. The texts on stderr are one call
-- each, without their wording; the messages of msdk/demo.c and its call of `srand` leave no trace, as
-- `random` of the host may answer anything. `M_MoveR2`, `M_MoveTo2` and `M_GetCurrMousePos2` are
-- declared in msdk/msdk.h and defined nowhere. A handle is NULL or the record: a handle that was
-- closed, or that is no handle, is not told apart.
pub mod Base
pub mod Bits
pub mod Machine
pub mod Hid
pub mod KeyCode
pub mod Keyboard
pub mod Common
pub mod Mouse
pub mod Move
pub mod Absolute
pub mod Api
pub mod Curve
pub mod Demo
pub mod Frame
pub mod Led
pub mod Session
mod Tests
