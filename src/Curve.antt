-- ===== src/Curve.antt =====
-- msdk/msdk.c, `M_MoveTo3`: the movement to absolute coordinates along a curve.
pub mod Direct
pub mod Draw
pub mod Step
pub mod OnTheCurve
pub mod Rounds
pub mod Start
pub mod Along
pub mod FromKnown
pub mod Keeps
use msdk_linux.Base.{
  ℕ, List, ℤ, pos, negsuc, minus_one, if◌then◌else◌, eqb_ℤ, ltb, ltb_ℤ, leb_ℤ, Bool, abs, ◌-ℤ◌,
  ◌==◌, ◌&&◌, ◌%◌, signed_char, ◌+ℤ◌, leb, byte_of, ◌*◌, ◌/◌, ◌+◌, Option, some, false, ◌||◌, none,
  suc, true, zero,
}
use msdk_linux.Machine.{
  Host, Prog, Udev, ◌>>=◌, return, ◌>>◌, modify, udev, Handle, give_up, return_if, live, null,
}
use msdk_linux.Common.{m_rand_dom_nbr, m_delay_random}
use msdk_linux.Move.{set_position}
use msdk_linux.Absolute.{quotient, m_internal_move_to3}

-- What the function computes on floating point numbers, cut off to an `int` at the end:
-- `rounded_root x y` is the length of (x, y) and `bent cur dest c d` the curve
-- `2 * t * (1 - t) * c + t * t * d + 0.5` at `t = cur / dest`. Nothing is assumed of them.
pub record Floats : Type 0 where
  pub rounded_root : ℤ → ℤ → ℤ
  pub bent : ℤ → ℤ → ℤ → ℤ → ℤ

abbrev pub min_step : ℕ
min_step = 100

-- `theta`, the bend of the curve: its sign is drawn first.
abbrev pub draw_theta : Host → ℤ → Prog ℤ
draw_theta h theta =
    if ltb_ℤ theta (pos 2)
    then m_rand_dom_nbr h (pos 2) (pos 5)
    else if ltb_ℤ (pos 100) theta
    then m_rand_dom_nbr h (pos 100) theta
    else do r ← m_rand_dom_nbr h (pos 2) (pos 20); return (theta +ℤ r)

abbrev pub is_even : ℤ → Bool
is_even r = abs r % 2 == 0

unfoldable pub choose_theta : Host → Floats → ℤ → ℤ → Prog ℤ
choose_theta h fl x_dis y_dis = do
  side ← m_rand_dom_nbr h (pos 1) (pos 100)
  d ← m_rand_dom_nbr h (pos 10) (pos 50)
  theta ← draw_theta h (quotient (fl.rounded_root x_dis y_dis) d)
  return (if is_even side then pos 0 -ℤ theta else theta)

-- The variables of the loop. `a` is the longer axis of the movement and `b` the other one: the code
-- has the loop twice, with x and y exchanged.
pub record Way : Type 0 where
  pub a_dis : ℤ
  pub b_dis : ℤ
  pub a_curr : ℤ
  pub b_curr : ℤ
  pub a_prev : ℤ
  pub b_prev : ℤ

-- `luc_Rnd`, an `unsigned char`.
abbrev pub draw_step : Host → ℤ → Prog ℕ
draw_step h a_dis = do
  r ←
      if ltb (abs a_dis) (min_step * 2) && ltb min_step (abs a_dis)
      then m_rand_dom_nbr h (pos (abs a_dis / 2)) (pos (abs a_dis / 2 + min_step / 2))
      else m_rand_dom_nbr h (pos min_step) (pos (min_step + 27))
  return (byte_of r)

abbrev pub at_most_126 : ℤ → ℤ
at_most_126 mov =
    if ltb 126 (abs mov) then (if ltb_ℤ (pos 0) mov then pos 126 else negsuc 125) else mov

-- A step that would leave the screen at its left or top ends at the edge.
abbrev pub on_screen : ℕ → ℤ → ℤ → ℤ
on_screen flag place mov = if flag == 1 && ltb_ℤ (place +ℤ mov) (pos 0) then pos 0 -ℤ place else mov

-- The kept coordinate after the step: it follows if it is known.
abbrev pub follow : ℕ → ℤ → ℤ → ℤ
follow flag place mov =
    if flag == 1 then (if ltb_ℤ (place +ℤ mov) (pos 0) then pos 0 else place +ℤ mov) else place

-- Where (a, b) is (x, y), or (y, x) if the axes are exchanged.
abbrev pub place_of : Bool → Udev → ℤ × ℤ
place_of swapped u =
    if swapped
    then (u.curr_mouse_abs_pos_y, u.curr_mouse_abs_pos_x)
    else (u.curr_mouse_abs_pos_x, u.curr_mouse_abs_pos_y)

abbrev pub set_place : Bool → ℤ → ℤ → Udev → Udev
set_place swapped a b u = if swapped then set_position b a u else set_position a b u

-- `x_dis -= (signed char)(x_mov)`
abbrev pub less_step : ℤ → ℤ → ℤ
less_step dis mov = dis -ℤ signed_char (byte_of mov)

-- One step: a straight one to the end, or one along the curve. The step along `a` comes back with
-- the variables after it.
unfoldable pub make_step : Floats → Bool → ℤ × ℤ → ℤ × ℤ → ℤ → ℕ → Way → Prog (ℤ × Way)
make_step fl swapped (a, b) (a_ori, b_ori) bc rnd s =
    if leb (abs s.a_dis) rnd
    then (do
      modify (set_place swapped a b)
      return (
        s.a_dis,
        record s { a_dis = less_step s.a_dis s.a_dis; b_dis = less_step s.b_dis s.b_dis },
      ))
    else (do
      u ← udev
      let flag = u.mouse_1st_movto
      let (a_pos, b_pos) = place_of swapped u
      let a_to = if ltb_ℤ (pos 0) s.a_dis then s.a_curr +ℤ pos rnd else s.a_curr -ℤ pos rnd
      let b_to = fl.bent a_to a_ori bc b_ori
      let a_mov = on_screen flag a_pos (at_most_126 (a_to -ℤ s.a_prev))
      let b_mov = on_screen flag b_pos (at_most_126 (b_to -ℤ s.b_prev))
      modify (
          set_place swapped (follow flag a_pos (at_most_126 (a_to -ℤ s.a_prev)))
            (follow flag b_pos (at_most_126 (b_to -ℤ s.b_prev))))
      let a_curr = s.a_prev +ℤ a_mov
      let b_curr = s.b_prev +ℤ b_mov
      return (
        a_mov,
        record {
          a_dis = less_step s.a_dis a_mov;
          b_dis = less_step s.b_dis b_mov;
          a_curr = a_curr;
          b_curr = b_curr;
          a_prev = a_curr;
          b_prev = b_curr;
        },
      ))

-- What follows a round that went well: a pause if something is left, and the end at an edge.
abbrev pub rest_of_way : Host → ℤ → Way → Prog (Option Way) → Prog (Option Way)
rest_of_way h a_mov s rest = do
  if eqb_ℤ s.a_dis (pos 0) && eqb_ℤ s.b_dis (pos 0)
      then return (pos 0)
      else m_delay_random h (pos 10) (pos 20)
  if eqb_ℤ a_mov (pos 0) then return (some s) else rest

-- The loop: `none` where a report failed.
unfoldable pub curve_loop : Host → Floats → Bool → ℤ × ℤ → ℤ × ℤ → ℤ → ℕ → Way → Prog (Option Way)
unfolding make_step
curve_loop h fl swapped target ori bc zero s = give_up
curve_loop h fl swapped target ori bc (suc f) s =
    if eqb_ℤ s.a_dis (pos 0) then return (some s) else (do
      rnd ← draw_step h s.a_dis
      (a_mov, s') ← make_step fl swapped target ori bc rnd s
      u ← udev
      r ← m_internal_move_to3 h live u.curr_mouse_abs_pos_x u.curr_mouse_abs_pos_y
      let rest = curve_loop h fl swapped target ori bc f s'
      if eqb_ℤ r (pos 0) then rest_of_way h a_mov s' rest else return none)

-- The end of the function: what the steps left over is made up for in one report.
abbrev pub finish_way : Host → ℤ → ℤ → Option Way → Prog ℤ
finish_way h x y none = return minus_one
finish_way h x y (some s) =
    if eqb_ℤ s.a_dis (pos 0) && eqb_ℤ s.b_dis (pos 0) then return (pos 0) else do
      r ← m_internal_move_to3 h live x y
      if eqb_ℤ r (pos 0) then return (pos 0) else return minus_one

abbrev pub start_way : ℤ → ℤ → Way
start_way a_dis b_dis = record {
  a_dis = a_dis;
  b_dis = b_dis;
  a_curr = pos 0;
  b_curr = pos 0;
  a_prev = pos 0;
  b_prev = pos 0;
}

-- The movement from the kept position, along a curve if there is a way to go.
unfoldable pub move_along : Host → Floats → ℤ → ℤ → Prog ℤ
unfolding curve_loop choose_theta
move_along h fl x y = do
  u ← udev
  let x_dis = x -ℤ u.curr_mouse_abs_pos_x
  let y_dis = y -ℤ u.curr_mouse_abs_pos_y
  if eqb_ℤ x_dis (pos 0) && eqb_ℤ y_dis (pos 0) then m_internal_move_to3 h live x y else (do
    theta ← choose_theta h fl x_dis y_dis
    end ←
        if leb (abs y_dis) (abs x_dis)
        then curve_loop h fl false (x, y) (x_dis, y_dis) (quotient y_dis (pos 2) +ℤ theta)
            h.patience (start_way x_dis y_dis)
        else curve_loop h fl true (y, x) (y_dis, x_dis) (quotient x_dis (pos 2) +ℤ theta) h.patience
            (start_way y_dis x_dis)
    finish_way h x y end)

-- The second test for coordinates below 0, with its -2, is never met after the first.
unfoldable pub m_move_to3 : Host → Floats → Handle → ℤ → ℤ → Prog ℤ
unfolding move_along
m_move_to3 h fl null x y = return minus_one
m_move_to3 h fl live x y = return_if (ltb_ℤ x (pos 0) || ltb_ℤ y (pos 0)) minus_one (do
  u ← udev
  return_if (eqb_ℤ u.cx (pos 0) || eqb_ℤ u.cy (pos 0)) (negsuc 2) (
      return_if (leb_ℤ u.cx x || leb_ℤ u.cy y) (negsuc 3)
        (if u.mouse_1st_movto == 0 then m_internal_move_to3 h live x y else move_along h fl x y)))
