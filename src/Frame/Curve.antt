-- ===== src/Frame/Curve.antt =====
-- `M_MoveTo3`: of the record it changes the position at most.
use msdk_linux.Base.{
  ℕ, ℤ, List, Bool, true, Bool-cases, false, pos, abs, eqb_ℤ, if◌then◌else◌, minus_one, leb, inl,
  ◌||◌, inr,
}
use msdk_linux.Machine.{Host, Udev, World, Prog, live, ◌>>=◌, ◌>>◌, modify, return, undefined_here}
use msdk_linux.Machine.Ends.{Keeps, Keeps-bind, Keeps-if}
use msdk_linux.Frame.{
  hid_ctrl_comm-Keeps, return, draw-Keeps, hid_ctrl_comm, delay-Keeps, undefined_here,
}
use msdk_linux.Curve.{Floats, set_place, Way, m_move_to3, make_step}
use msdk_linux.Frame.Moves.{with_position, stored_known}
use msdk_linux.Absolute.{m_internal_move_to3, absolute_command}
use msdk_linux.Move.{set_position}
use msdk_linux.Hid.{hid_ctrl_comm}
use msdk_linux.Curve.Keeps.{Rules, m_move_to3_kept}

module _ (P : Udev → Type 0) (h : Host) (fl : Floats)
    (other : (u : Udev) (op : List ℕ) → P u → P (record u { curr_mouse_op = op }))
    (else_where : (u : Udev) (flag : ℕ) (x y : ℤ) → P u → P (with_position flag x y u)) where
  abbrev Q : World → Type 0
  Q w = P w.udev

  m_internal_move_to3-Keeps : (x y : ℤ) → Keeps Q (m_internal_move_to3 h live x y)
  unfolding m_internal_move_to3
  m_internal_move_to3-Keeps x y w s =
      let u = w.udev in
      let store : Prog ℤ = (do
        modify (λ v. set_position x y (record v { mouse_1st_movto = 1 }))
        return (pos 0)) in
      let send : Prog ℤ = (do
        reply ← hid_ctrl_comm h 32 u.h_dev 7 (absolute_command u.cx u.cy x y) 0
        if eqb_ℤ reply.status (pos 1) then store else return minus_one) in
      Keeps-if Q (eqb_ℤ u.cx (pos 0) || eqb_ℤ u.cy (pos 0)) undefined_here send (λ w s. tt)
        (Keeps-bind Q (hid_ctrl_comm h 32 u.h_dev 7 (absolute_command u.cx u.cy x y) 0)
          (λ reply. if eqb_ℤ reply.status (pos 1) then store else return minus_one)
          (hid_ctrl_comm-Keeps P h 32 u.h_dev 7 (absolute_command u.cx u.cy x y) 0)
          (λ reply.
            Keeps-if Q (eqb_ℤ reply.status (pos 1)) store (return minus_one)
              (stored_known P h other else_where x y (pos 0)) (λ w s. s)))
        w s

  set_place-Keeps : (swapped : Bool) (a b : ℤ) (u : Udev) → P u → P (set_place swapped a b u)
  set_place-Keeps true a b u s = else_where u u.mouse_1st_movto b a s
  set_place-Keeps false a b u s = else_where u u.mouse_1st_movto a b s

  make_step-Keeps :
      (swapped : Bool) (a b : ℤ) (ori : ℤ × ℤ) (bc : ℤ) (rnd : ℕ) (s : Way)
      → Keeps Q (make_step fl swapped (a, b) ori bc rnd s)
  make_step-Keeps swapped a b ori bc rnd s w p = elim (Bool-cases (leb (abs s.a_dis) rnd)) [
    | inl e ↦ unfold make_step in rw e (set_place-Keeps swapped a b w.udev p)
    | inr e ↦ unfold make_step in rw e (set_place-Keeps swapped _ _ w.udev p)
  ]

  rules : Rules h fl Q (λ x. Unit)
  rules = record {
    draw = draw-Keeps P h;
    delay = delay-Keeps P h;
    step = λ swapped a b ori bc rnd s p q. make_step-Keeps swapped a b ori bc rnd s;
    report = λ x y p q. m_internal_move_to3-Keeps x y;
    kept = λ w s. (tt, tt);
    on_screen = λ x y on. (tt, tt);
  }

  pub m_move_to3-Keeps : (x y : ℤ) → Keeps Q (m_move_to3 h fl live x y)
  m_move_to3-Keeps = m_move_to3_kept h fl Q (λ x. Unit) rules
