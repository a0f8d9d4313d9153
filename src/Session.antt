-- ===== src/Session.antt =====
-- msdk/msdk.c, `M_Open` and `M_Close`.
pub mod Resources
pub mod Balance
pub mod Opening
use msdk_linux.Base.{
  none, some, ℕ, pos, replicate, some, ℤ, ltb_ℤ, ◌||◌, if◌then◌else◌, eqb_ℤ, minus_one,
}
use msdk_linux.Machine.{
  Device, Udev, Host, Handle, Prog, ◌>>=◌, undefined_here, return_if, udev, call, malloc, null,
  ◌>>◌, silent, free, return, live, modify,
}
use msdk_linux.Hid.Open.{hid_close, hid_open}

-- The device's numbers, of msdk/msdk.h.
abbrev pub vid : ℕ
vid = 0xC216

abbrev pub pid : ℕ
pid = 0x0102

-- The record as `memset` leaves it, with the device.
abbrev pub new_udev : Device → Udev
new_udev dev = record {
  h_dev = some dev;
  curr_kb_op = replicate 10 0;
  curr_mouse_op = replicate 5 0;
  curr_mouse_abs_pos_x = pos 0;
  curr_mouse_abs_pos_y = pos 0;
  mouse_1st_movto = 0;
  cx = pos 0;
  cy = pos 0;
}

-- `malloc`, and the record in it: `memset` writes through the pointer whether it is NULL or not.
abbrev pub allocate_udev : Host → Device → Prog Handle
allocate_udev h dev = do
  p ← call malloc h.allocates
  elim p [ none ↦ undefined_here | some _ ↦ modify (λ u. new_udev dev) >> return live ]

-- Without a device `m_hdl` is returned though nothing was ever stored in it.
unfoldable pub m_open : Host → ℤ → Prog Handle
m_open h nbr = return_if (ltb_ℤ nbr (pos 1) || ltb_ℤ (pos 126) nbr) null (do
  lib_dev ← hid_open h vid pid
  elim lib_dev [ none ↦ undefined_here | some dev ↦ allocate_udev h dev ])

-- NULL is dereferenced without a test.
unfoldable pub m_close : Handle → Prog ℤ
m_close null = undefined_here
m_close live = do
  u ← udev
  r ← hid_close u.h_dev
  if eqb_ℤ r (pos 0) then (do silent free; return (pos 0)) else return minus_one
