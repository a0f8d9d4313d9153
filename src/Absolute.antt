-- ===== src/Absolute.antt =====
-- msdk/msdk.c, the movement to absolute coordinates in one report.
pub mod Scale
pub mod Placed
use msdk_linux.Base.{
  ℕ, List, ℤ, pos, negsuc, minus_one, if◌then◌else◌, eqb_ℤ, ltb, ltb_ℤ, leb_ℤ, ◌/◌, ◌∷◌, ◌+◌, ◌==◌,
  ◌%◌, ◌*◌, ◌&&◌, [], suc, ◌^◌, ◌-ℤ◌, ◌-◌, ◌||◌,
}
use msdk_linux.Machine.{
  Handle, Host, Prog, return, undefined_here, ◌>>=◌, return_if, udev, ◌>>◌, modify, null, live,
}
use msdk_linux.Hid.{hid_ctrl_comm}
use msdk_linux.Move.{set_position}

-- `unsigned long` values.
abbrev pub u64_of : ℤ → ℕ
u64_of (pos n) = n % 2 ^ 64
u64_of (negsuc n) = 2 ^ 64 - 1 - n % 2 ^ 64

-- C's division of integers; by 0 it is undefined, and not called.
unfoldable pub quotient : ℤ → ℤ → ℤ
quotient (pos n) (pos d) = pos (n / d)
quotient (negsuc n) (pos d) = pos 0 -ℤ pos (suc n / d)
quotient (pos n) (negsuc d) = pos 0 -ℤ pos (n / suc d)
quotient (negsuc n) (negsuc d) = pos (suc n / suc d)

abbrev pub hw_max_res : ℕ
hw_max_res = 0x7FFF

abbrev pub times_hw_max_res : ℤ → ℤ
times_hw_max_res (pos n) = pos (hw_max_res * n)
times_hw_max_res (negsuc n) = negsuc (hw_max_res * suc n - 1)

-- `fact`
abbrev pub quarter : ℤ → ℕ
quarter cx = u64_of (quotient (quotient (pos hw_max_res) cx) (pos 4))

-- `temp1` and `temp2` before they are cut off.
abbrev pub scaled : ℕ → ℤ → ℤ → ℕ
scaled fact x cx = (u64_of (quotient (times_hw_max_res x) cx) + fact) % 2 ^ 64

abbrev pub cut_off : ℕ → ℕ
cut_off temp = if ltb hw_max_res temp then hw_max_res else temp

-- (0, 0) would not move the mouse.
abbrev pub not_both_zero : ℕ → ℕ → ℕ → ℕ
not_both_zero fact temp1 temp2 = if temp1 == 0 && temp2 == 0 then fact else temp2

-- `ucp_cmd`
abbrev pub absolute_report : ℕ → ℕ → List ℕ
absolute_report temp1 temp2 =
    6 ∷ 0 ∷ temp1 % 256 ∷ temp1 / 256 % 256 ∷ temp2 % 256 ∷ temp2 / 256 % 256 ∷ 0 ∷ []

unfoldable pub absolute_command : ℤ → ℤ → ℤ → ℤ → List ℕ
absolute_command cx cy x y =
    let fact = quarter cx in
    let temp1 = cut_off (scaled fact x cx) in
    let temp2 = cut_off (not_both_zero fact temp1 (scaled fact y cy)) in absolute_report temp1 temp2

unfoldable pub m_internal_move_to3 : Host → Handle → ℤ → ℤ → Prog ℤ
unfolding absolute_command
m_internal_move_to3 h null x y = undefined_here
m_internal_move_to3 h live x y = do
  u ← udev
  if eqb_ℤ u.cx (pos 0) || eqb_ℤ u.cy (pos 0) then undefined_here else do
    reply ← hid_ctrl_comm h 32 u.h_dev 7 (absolute_command u.cx u.cy x y) 0
    if eqb_ℤ reply.status (pos 1)
        then (do modify (λ v. set_position x y (record v { mouse_1st_movto = 1 })); return (pos 0))
        else return minus_one

-- The second test of `M_ResolutionUsed` is met by 0 alone.
unfoldable pub m_resolution_used : Handle → ℤ → ℤ → Prog ℤ
m_resolution_used null x y = return minus_one
m_resolution_used live x y = return_if (ltb_ℤ x (pos 0) || ltb_ℤ y (pos 0)) minus_one (
    return_if (leb_ℤ x (pos 0) || leb_ℤ y (pos 0)) (negsuc 1)
      (do modify (λ u. record u { cx = x; cy = y }); return (pos 0)))
