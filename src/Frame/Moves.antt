-- ===== src/Frame/Moves.antt =====
-- The movements: of the record they change the mouse's bytes and the position at most.
use msdk_linux.Base.{
  ℕ, ℤ, List, if◌then◌else◌, ◌-ℤ◌, suc, pos, eqb_ℤ, Bool-cases, minus_one, byte_of, ◌==◌, negsuc,
  inl, set, ltb_ℤ, ◌+ℤ◌, signed_char, inr, ◌||◌, zero,
}
use msdk_linux.Machine.{Host, Udev, World, Prog, live, ◌>>◌, modify, return, ◌>>=◌, udev}
use msdk_linux.Machine.Ends.{Keeps, Keeps-bind, Keeps-if, Keeps-return_if}
use msdk_linux.Frame.{m_rand_dom_nbr, return, draw-Keeps, delay-Keeps}
use msdk_linux.Move.{
  set_position, move_loop, move_from_corner, m_move_to, m_move_r, m_reset_mouse_pos,
  move_from_known, m_internal_move_r, move_axis, track, not_negative, axis_byte, forget_position,
  or_zero, is_zero,
}
use msdk_linux.Common.{m_rand_dom_nbr, m_delay_random}
use msdk_linux.Mouse.{no_motion, set_mouse_op, send_mouse_op}
use msdk_linux.Frame.Mouse.{changed, send_mouse_op-Keeps}

-- The position.
abbrev pub with_position : ℕ → ℤ → ℤ → Udev → Udev
with_position flag x y u = set_position x y (record u { mouse_1st_movto = flag })

module _ (P : Udev → Type 0) (h : Host)
    (other : (u : Udev) (op : List ℕ) → P u → P (record u { curr_mouse_op = op }))
    (else_where : (u : Udev) (flag : ℕ) (x y : ℤ) → P u → P (with_position flag x y u)) where
  abbrev Q : World → Type 0
  Q w = P w.udev

  -- The position is changed, and the rest is done.
  pub placed :
      {A : Type 0} (flag : Udev → ℕ) (x y : Udev → ℤ) (m : Prog A)
      → Keeps Q m
      → Keeps Q (modify (λ u. with_position (flag u) (x u) (y u) u) >> m)
  placed flag x y m keeps w s =
      keeps (record w { udev = with_position (flag w.udev) (x w.udev) (y w.udev) w.udev })
        (else_where w.udev (flag w.udev) (x w.udev) (y w.udev) s)

  pub stored : (x y r : ℤ) → Keeps Q (do modify (set_position x y); return r)
  stored x y r = placed (λ u. u.mouse_1st_movto) (λ u. x) (λ u. y) (return r) (λ w s. s)

  pub stored_known :
      (x y r : ℤ)
      → Keeps Q (do modify (λ u. set_position x y (record u { mouse_1st_movto = 1 })); return r)
  stored_known x y r = placed (λ u. 1) (λ u. x) (λ u. y) (return r) (λ w s. s)

  unknown :
      {A : Type 0} (m : Prog A)
      → Keeps Q m
      → Keeps Q (modify (λ u. record u { mouse_1st_movto = 0 }) >> m)
  unknown m = placed (λ u. 0) (λ u. u.curr_mouse_abs_pos_x) (λ u. u.curr_mouse_abs_pos_y) m

  move_axis-Keeps : (place : ℕ) (x : ℤ) → Keeps Q (move_axis h place x)
  unfolding move_axis
  move_axis-Keeps place x =
      Keeps-bind Q (m_rand_dom_nbr h (pos 100) (pos 127))
        (λ r. do
          let b = axis_byte (byte_of r) x
          modify (set_mouse_op (λ op. set op place b))
          return (x -ℤ signed_char b))
        (draw-Keeps P h (pos 100) (pos 127))
        (λ r.
          changed P h other (λ op. set op place (axis_byte (byte_of r) x))
            (return (x -ℤ signed_char (axis_byte (byte_of r) x))) (λ w s. s))

  move_loop-Keeps : (f : ℕ) (x y : ℤ) → Keeps Q (move_loop h f x y)
  unfolding move_loop
  move_loop-Keeps zero x y = λ w s. tt
  move_loop-Keeps (suc f) x y =
      let finished : Prog ℤ = (do modify (set_mouse_op no_motion); return (pos 0)) in
      let failed : Prog ℤ = (do modify forget_position; return minus_one) in
      let again : ℤ → ℤ → Prog ℤ = λ x' y'.
        if is_zero x' y'
        then move_loop h f x' y'
        else (m_delay_random h (pos 10) (pos 20) >> move_loop h f x' y') in
      let report : ℤ → ℤ → Prog ℤ =
        λ x' y'. (do r ← send_mouse_op h; if eqb_ℤ r (pos 0) then again x' y' else failed) in
      let step : Prog ℤ = (do x' ← move_axis h 2 x; y' ← move_axis h 3 y; report x' y') in
      Keeps-if Q (is_zero x y) finished (modify (set_mouse_op (λ op. set op 0 0x04)) >> step)
        (changed P h other no_motion (return (pos 0)) (λ w s. s))
        (changed P h other (λ op. set op 0 0x04) step
          (Keeps-bind Q (move_axis h 2 x) (λ x'. do y' ← move_axis h 3 y; report x' y')
            (move_axis-Keeps 2 x)
            (λ x'.
              Keeps-bind Q (move_axis h 3 y) (λ y'. report x' y') (move_axis-Keeps 3 y)
                (λ y'.
                  Keeps-bind Q (send_mouse_op h)
                    (λ r. if eqb_ℤ r (pos 0) then again x' y' else failed)
                    (send_mouse_op-Keeps P h other)
                    (λ r.
                      Keeps-if Q (eqb_ℤ r (pos 0)) (again x' y') failed
                        (Keeps-if Q (is_zero x' y') (move_loop h f x' y')
                          (m_delay_random h (pos 10) (pos 20) >> move_loop h f x' y')
                          (move_loop-Keeps f x' y')
                          (Keeps-bind Q (m_delay_random h (pos 10) (pos 20))
                            (λ _. move_loop h f x' y') (delay-Keeps P h (pos 10) (pos 20))
                            (λ _. move_loop-Keeps f x' y')))
                        forgotten)))))
    where
      forgotten : Keeps Q (do modify forget_position; return minus_one)
      forgotten w s =
          else_where (record w.udev { curr_mouse_op = no_motion w.udev.curr_mouse_op }) 0
            w.udev.curr_mouse_abs_pos_x w.udev.curr_mouse_abs_pos_y
            (other w.udev (no_motion w.udev.curr_mouse_op) s)

  pub m_internal_move_r-Keeps : (x y : ℤ) → Keeps Q (m_internal_move_r h live x y)
  unfolding m_internal_move_r
  m_internal_move_r-Keeps x y w s =
      move_loop-Keeps h.patience x y (record w { udev = track x y w.udev })
        (elim (Bool-cases (w.udev.mouse_1st_movto == 1)) [
          | inl e ↦ rw e (
              else_where w.udev w.udev.mouse_1st_movto (or_zero (w.udev.curr_mouse_abs_pos_x +ℤ x))
                (or_zero (w.udev.curr_mouse_abs_pos_y +ℤ y)) s)
          | inr e ↦ rw e s
        ])

  pub zero_or-Keeps :
      (r : ℤ) → Keeps Q (if eqb_ℤ r (pos 0) then return (pos 0) else return minus_one)
  zero_or-Keeps r =
      Keeps-if Q (eqb_ℤ r (pos 0)) (return (pos 0)) (return minus_one) (λ w s. s) (λ w s. s)

  pub m_move_r-Keeps : (x y : ℤ) → Keeps Q (m_move_r h live x y)
  unfolding m_move_r
  m_move_r-Keeps x y =
      Keeps-bind Q (m_internal_move_r h live x y)
        (λ r. if eqb_ℤ r (pos 0) then return (pos 0) else return minus_one)
        (m_internal_move_r-Keeps x y) zero_or-Keeps

  move_from_corner-Keeps : (x y : ℤ) → Keeps Q (move_from_corner h x y)
  unfolding move_from_corner
  move_from_corner-Keeps x y =
      let store : Prog ℤ = (do
        modify (λ u. set_position x y (record u { mouse_1st_movto = 1 }))
        return (pos 0)) in
      let after : ℤ → Prog ℤ = λ r. if eqb_ℤ r (pos 0) then store else return minus_one in
      let move = m_internal_move_r h live x y in
      Keeps-bind Q (m_internal_move_r h live (negsuc 2999) (negsuc 2999))
        (λ r. if eqb_ℤ r (pos 0) then (move >>= after) else return minus_one)
        (m_internal_move_r-Keeps (negsuc 2999) (negsuc 2999))
        (λ r.
          Keeps-if Q (eqb_ℤ r (pos 0)) (move >>= after) (return minus_one)
            (Keeps-bind Q move after (m_internal_move_r-Keeps x y) (λ r'.
              Keeps-if Q (eqb_ℤ r' (pos 0)) store (return minus_one) (stored_known x y (pos 0))
                (λ w s. s)))
            (λ w s. s))

  move_from_known-Keeps : (x y : ℤ) → Keeps Q (move_from_known h x y)
  unfolding move_from_known
  move_from_known-Keeps x y w s =
      let dx = x -ℤ w.udev.curr_mouse_abs_pos_x in
      let dy = y -ℤ w.udev.curr_mouse_abs_pos_y in
      let store : Prog ℤ = (do modify (set_position x y); return (pos 0)) in
      let failed : Prog ℤ = (do modify (λ v. record v { mouse_1st_movto = 0 }); return minus_one) in
      Keeps-bind Q (m_internal_move_r h live dx dy) (λ r. if eqb_ℤ r (pos 0) then store else failed)
        (m_internal_move_r-Keeps dx dy)
        (λ r.
          Keeps-if Q (eqb_ℤ r (pos 0)) store failed (stored x y (pos 0))
            (unknown (return minus_one) (λ w s. s)))
        w s

  pub m_move_to-Keeps : (x y : ℤ) → Keeps Q (m_move_to h live x y)
  unfolding m_move_to
  m_move_to-Keeps x y =
      let corner = move_from_corner h x y in
      let known = move_from_known h x y in
      let floored : Prog ℤ = (do modify not_negative; return (pos 0)) in
      let finish : ℤ → Prog ℤ = λ r. if eqb_ℤ r (pos 0) then floored else return minus_one in
      let rest : Prog ℤ = (do
        u ← udev
        r ← (if u.mouse_1st_movto == 0 then corner else known)
        finish r) in
      Keeps-return_if Q (ltb_ℤ x (pos 0) || ltb_ℤ y (pos 0)) minus_one rest (λ w s.
        Keeps-bind Q (if w.udev.mouse_1st_movto == 0 then corner else known) finish
          (Keeps-if Q (w.udev.mouse_1st_movto == 0) corner known (move_from_corner-Keeps x y)
            (move_from_known-Keeps x y))
          (λ r.
            Keeps-if Q (eqb_ℤ r (pos 0)) floored (return minus_one)
              (placed (λ u. u.mouse_1st_movto) (λ u. or_zero u.curr_mouse_abs_pos_x)
                (λ u. or_zero u.curr_mouse_abs_pos_y) (return (pos 0)) (λ w s. s))
              (λ w s. s))
          w s)

  pub m_reset_mouse_pos-Keeps : Keeps Q (m_reset_mouse_pos h live)
  unfolding m_reset_mouse_pos
  m_reset_mouse_pos-Keeps = unknown (m_move_to h live (pos 0) (pos 0) >> return (pos 0)) (
      Keeps-bind Q (m_move_to h live (pos 0) (pos 0)) (λ _. return (pos 0))
        (m_move_to-Keeps (pos 0) (pos 0)) (λ r w s. s))
