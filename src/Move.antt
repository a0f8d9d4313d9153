-- ===== src/Move.antt =====
-- msdk/msdk.c, the relative movements of the mouse and the position that the library keeps.
pub mod Step
pub mod Round
pub mod Loop
pub mod To
pub mod Target
pub mod Position
pub mod Pointer
pub mod Follows
pub mod Screen
use msdk_linux.Base.{
  ℕ, ℤ, Bool, if◌then◌else◌, eqb_ℤ, ◌==◌, ltb_ℤ, Option, pos, ◌+ℤ◌, suc, minus_one, ltb, ◌-ℤ◌, ◌&&◌,
  negsuc, none, byte_of, ◌||◌, abs, some, ◌-◌, set, zero, signed_char,
}
use msdk_linux.Machine.{
  Host, Handle, Udev, Prog, return, ◌>>=◌, give_up, udev, live, return_if, ◌>>◌, null, modify,
}
use msdk_linux.Common.{m_delay_random, m_rand_dom_nbr}
use msdk_linux.Mouse.{send_mouse_op, set_mouse_op, no_motion}

abbrev pub or_zero : ℤ → ℤ
or_zero x = if ltb_ℤ x (pos 0) then pos 0 else x

-- The byte for one axis: the whole distance if it is below the step `rnd`, else the step.
unfoldable pub axis_byte : ℕ → ℤ → ℕ
axis_byte rnd x =
    if eqb_ℤ x (pos 0)
    then 0
    else if ltb_ℤ (pos 0) x
    then (if ltb (abs x) rnd then byte_of x else rnd)
    else (if ltb (abs x) rnd then byte_of x else 0x100 - rnd)

abbrev pub is_zero : ℤ → ℤ → Bool
is_zero x y = eqb_ℤ x (pos 0) && eqb_ℤ y (pos 0)

-- The position is kept up with, if it is known, and stays on the screen at its left and top.
abbrev pub track : ℤ → ℤ → Udev → Udev
track x y u =
    if u.mouse_1st_movto == 1
    then record u {
      curr_mouse_abs_pos_x = or_zero (u.curr_mouse_abs_pos_x +ℤ x);
      curr_mouse_abs_pos_y = or_zero (u.curr_mouse_abs_pos_y +ℤ y);
    }
    else u

abbrev pub forget_position : Udev → Udev
forget_position u = record u { mouse_1st_movto = 0; curr_mouse_op = no_motion u.curr_mouse_op }

-- One axis: a step is drawn, the byte is stored, and what is left of the distance comes back.
unfoldable pub move_axis : Host → ℕ → ℤ → Prog ℤ
unfolding axis_byte
move_axis h place x = do
  r ← m_rand_dom_nbr h (pos 100) (pos 127)
  let b = axis_byte (byte_of r) x
  modify (set_mouse_op (λ op. set op place b))
  return (x -ℤ signed_char b)

-- The loop of `M_InternalMoveR`.
unfoldable pub move_loop : Host → ℕ → ℤ → ℤ → Prog ℤ
unfolding move_axis send_mouse_op
move_loop h zero x y = give_up
move_loop h (suc f) x y =
    if is_zero x y then (do modify (set_mouse_op no_motion); return (pos 0)) else (do
      modify (set_mouse_op (λ op. set op 0 0x04))
      x' ← move_axis h 2 x
      y' ← move_axis h 3 y
      r ← send_mouse_op h
      let rest = move_loop h f x' y'
      if eqb_ℤ r (pos 0)
          then (if is_zero x' y' then rest else (m_delay_random h (pos 10) (pos 20) >> rest))
          else (do modify forget_position; return minus_one))

unfoldable pub m_internal_move_r : Host → Handle → ℤ → ℤ → Prog ℤ
unfolding move_loop
m_internal_move_r h null x y = return minus_one
m_internal_move_r h live x y = do modify (track x y); move_loop h h.patience x y

unfoldable pub m_move_r : Host → Handle → ℤ → ℤ → Prog ℤ
unfolding m_internal_move_r
m_move_r h null x y = return minus_one
m_move_r h live x y = do
  r ← m_internal_move_r h live x y
  if eqb_ℤ r (pos 0) then return (pos 0) else return minus_one

abbrev pub set_position : ℤ → ℤ → Udev → Udev
set_position x y u = record u { curr_mouse_abs_pos_x = x; curr_mouse_abs_pos_y = y }

abbrev pub not_negative : Udev → Udev
not_negative u = set_position (or_zero u.curr_mouse_abs_pos_x) (or_zero u.curr_mouse_abs_pos_y) u

-- The first movement of `M_MoveTo`: to the corner, and from there.
unfoldable pub move_from_corner : Host → ℤ → ℤ → Prog ℤ
unfolding m_internal_move_r
move_from_corner h x y = do
  r ← m_internal_move_r h live (negsuc 2999) (negsuc 2999)
  if eqb_ℤ r (pos 0)
      then (do
        r' ← m_internal_move_r h live x y
        if eqb_ℤ r' (pos 0)
            then (do
              modify (λ u. set_position x y (record u { mouse_1st_movto = 1 }))
              return (pos 0))
            else return minus_one)
      else return minus_one

-- A later one: from the position that is known.
unfoldable pub move_from_known : Host → ℤ → ℤ → Prog ℤ
unfolding m_internal_move_r
move_from_known h x y = do
  u ← udev
  r ← m_internal_move_r h live (x -ℤ u.curr_mouse_abs_pos_x) (y -ℤ u.curr_mouse_abs_pos_y)
  if eqb_ℤ r (pos 0)
      then (do modify (set_position x y); return (pos 0))
      else (do modify (λ v. record v { mouse_1st_movto = 0 }); return minus_one)

unfoldable pub m_move_to : Host → Handle → ℤ → ℤ → Prog ℤ
unfolding move_from_corner move_from_known
m_move_to h null x y = return minus_one
m_move_to h live x y = return_if (ltb_ℤ x (pos 0) || ltb_ℤ y (pos 0)) minus_one (do
  u ← udev
  r ← (if u.mouse_1st_movto == 0 then move_from_corner h x y else move_from_known h x y)
  if eqb_ℤ r (pos 0) then (do modify not_negative; return (pos 0)) else return minus_one)

unfoldable pub m_reset_mouse_pos : Host → Handle → Prog ℤ
unfolding m_move_to
m_reset_mouse_pos h null = return minus_one
m_reset_mouse_pos h live = do
  modify (λ u. record u { mouse_1st_movto = 0 })
  m_move_to h live (pos 0) (pos 0)
  return (pos 0)

-- `M_GetCurrMousePos`: its result, with what it writes through `x` and `y` if it writes. Pointers
-- are never below 0, so of its first test only NULL is left.
unfoldable pub m_get_curr_mouse_pos : Handle → Prog (ℤ × Option (ℤ × ℤ))
m_get_curr_mouse_pos null = return (minus_one, none)
m_get_curr_mouse_pos live = do
  u ← udev
  if u.mouse_1st_movto == 0
      then return (minus_one, none)
      else return (pos 0, some (u.curr_mouse_abs_pos_x, u.curr_mouse_abs_pos_y))
