-- ===== src/Curve/Keeps.antt =====
-- `M_MoveTo3` keeps what its draws, its pauses, its steps and its reports keep.
use msdk_linux.Base.{
  ℕ, ℤ, Option, if◌then◌else◌, eqb_ℤ, pos, Bool, ◌-ℤ◌, false, ltb, some, suc, ◌&&◌, none, abs, ◌+ℤ◌,
  minus_one, ltb_ℤ, ◌||◌, ◌*◌, true, ◌≡◌, ◌/◌, leb, negsuc, zero, ◌+◌, leb_ℤ, byte_of, ◌==◌,
}
use msdk_linux.Machine.{Host, World, Prog, live, ◌>>=◌, return, udev, return_if}
use msdk_linux.Curve.{
  Floats, Way, choose_theta, draw_step, move_along, m_rand_dom_nbr, m_move_to3, draw_theta,
  curve_loop, finish_way, quotient, rest_of_way, live, return, make_step, udev, is_even, start_way,
  min_step, return_if,
}
use msdk_linux.Machine.Ends.{Keeps, Keeps-bind, Keeps-if, Keeps-guard, Keeps-return_if}
use msdk_linux.Common.{m_rand_dom_nbr, m_delay_random}
use msdk_linux.Absolute.{quotient, m_internal_move_to3}

-- What the parts of the movement keep. `Fair` is what may be asked of a coordinate.
pub record Rules (h : Host) (fl : Floats) (Q : World → Type 0) (Fair : ℤ → Type 0) : Type 0 where
  pub draw : (a b : ℤ) → Keeps Q (m_rand_dom_nbr h a b)
  pub delay : (a b : ℤ) → Keeps Q (m_delay_random h a b)
  pub step :
      (swapped : Bool) (a b : ℤ) (ori : ℤ × ℤ) (bc : ℤ) (rnd : ℕ) (s : Way)
      → Fair a
      → Fair b
      → Keeps Q (make_step fl swapped (a, b) ori bc rnd s)
  pub report : (x y : ℤ) → Fair x → Fair y → Keeps Q (m_internal_move_to3 h live x y)
  pub kept : (w : World) → Q w → Fair w.udev.curr_mouse_abs_pos_x × Fair w.udev.curr_mouse_abs_pos_y
  pub on_screen : (x y : ℤ) → (ltb_ℤ x (pos 0) || ltb_ℤ y (pos 0)) ≡ false → Fair x × Fair y

module _ (h : Host) (fl : Floats) (Q : World → Type 0) (Fair : ℤ → Type 0)
    (rules : Rules h fl Q Fair) where
  zero_or : (r : ℤ) → Keeps Q (if eqb_ℤ r (pos 0) then return (pos 0) else return minus_one)
  zero_or r = Keeps-if Q (eqb_ℤ r (pos 0)) (return (pos 0)) (return minus_one) (λ w s. s) (λ w s. s)

  draw_theta-Keeps : (theta : ℤ) → Keeps Q (draw_theta h theta)
  draw_theta-Keeps theta =
      let wide = m_rand_dom_nbr h (pos 100) theta in
      let added : Prog ℤ = (do r ← m_rand_dom_nbr h (pos 2) (pos 20); return (theta +ℤ r)) in
      Keeps-if Q (ltb_ℤ theta (pos 2)) (m_rand_dom_nbr h (pos 2) (pos 5))
        (if ltb_ℤ (pos 100) theta then wide else added) (rules.draw (pos 2) (pos 5))
        (Keeps-if Q (ltb_ℤ (pos 100) theta) wide added (rules.draw (pos 100) theta) (
          Keeps-bind Q (m_rand_dom_nbr h (pos 2) (pos 20)) (λ r. return (theta +ℤ r))
            (rules.draw (pos 2) (pos 20)) (λ r w s. s)))

  choose_theta-Keeps : (x y : ℤ) → Keeps Q (choose_theta h fl x y)
  unfolding choose_theta
  choose_theta-Keeps x y =
      let len : ℤ → ℤ = λ r. quotient (fl.rounded_root x y) r in
      let end : ℤ → ℤ → Prog ℤ =
        λ side theta. return (if is_even side then pos 0 -ℤ theta else theta) in
      Keeps-bind Q (m_rand_dom_nbr h (pos 1) (pos 100))
        (λ side. do
          r ← m_rand_dom_nbr h (pos 10) (pos 50)
          theta ← draw_theta h (len r)
          end side theta)
        (rules.draw (pos 1) (pos 100))
        (λ side.
          Keeps-bind Q (m_rand_dom_nbr h (pos 10) (pos 50))
            (λ r. do theta ← draw_theta h (len r); end side theta) (rules.draw (pos 10) (pos 50))
            (λ r.
              Keeps-bind Q (draw_theta h (len r)) (end side) (draw_theta-Keeps (len r))
                (λ theta w s. s)))

  draw_step-Keeps : (a_dis : ℤ) → Keeps Q (draw_step h a_dis)
  draw_step-Keeps a_dis =
      let near : Bool = ltb (abs a_dis) (min_step * 2) && ltb min_step (abs a_dis) in
      let half = m_rand_dom_nbr h (pos (abs a_dis / 2)) (pos (abs a_dis / 2 + min_step / 2)) in
      let full = m_rand_dom_nbr h (pos min_step) (pos (min_step + 27)) in
      Keeps-bind Q (if near then half else full) (λ r. return (byte_of r))
        (Keeps-if Q near half full
          (rules.draw (pos (abs a_dis / 2)) (pos (abs a_dis / 2 + min_step / 2)))
          (rules.draw (pos min_step) (pos (min_step + 27))))
        (λ r w s. s)

  rest_of_way-Keeps :
      (a_mov : ℤ) (s : Way) (rest : Prog (Option Way))
      → Keeps Q rest
      → Keeps Q (rest_of_way h a_mov s rest)
  rest_of_way-Keeps a_mov s rest keeps =
      let b = eqb_ℤ s.a_dis (pos 0) && eqb_ℤ s.b_dis (pos 0) in
      Keeps-bind Q (if b then return (pos 0) else m_delay_random h (pos 10) (pos 20))
        (λ _. if eqb_ℤ a_mov (pos 0) then return (some s) else rest)
        (Keeps-if Q b (return (pos 0)) (m_delay_random h (pos 10) (pos 20)) (λ w s. s)
          (rules.delay (pos 10) (pos 20)))
        (λ _. Keeps-if Q (eqb_ℤ a_mov (pos 0)) (return (some s)) rest (λ w s. s) keeps)

  curve_loop-Keeps :
      (swapped : Bool) (a b : ℤ) (ori : ℤ × ℤ) (bc : ℤ) (p : Fair a) (q : Fair b) (f : ℕ) (s : Way)
      → Keeps Q (curve_loop h fl swapped (a, b) ori bc f s)
  unfolding curve_loop
  curve_loop-Keeps swapped a b ori bc p q zero s = λ w q. tt
  curve_loop-Keeps swapped a b ori bc p q (suc f) s =
      let loop : Way → Prog (Option Way) = curve_loop h fl swapped (a, b) ori bc f in
      let step : ℕ → Prog (ℤ × Way) = λ rnd. make_step fl swapped (a, b) ori bc rnd s in
      let answered : ℤ × Way → ℤ → Prog (Option Way) =
        λ t r. if eqb_ℤ r (pos 0) then rest_of_way h t.0 t.1 (loop t.1) else return none in
      let reported : ℤ × Way → Prog (Option Way) = λ t. (do
        u ← udev
        r ← m_internal_move_to3 h live u.curr_mouse_abs_pos_x u.curr_mouse_abs_pos_y
        answered t r) in
      Keeps-if Q (eqb_ℤ s.a_dis (pos 0)) (return (some s))
        (do rnd ← draw_step h s.a_dis; t ← step rnd; reported t) (λ w s'. s')
        (Keeps-bind Q (draw_step h s.a_dis) (λ rnd. do t ← step rnd; reported t)
          (draw_step-Keeps s.a_dis)
          (λ rnd.
            Keeps-bind Q (step rnd) reported (rules.step swapped a b ori bc rnd s p q) (λ t w s'.
              let (at_x, at_y) = rules.kept w s' in
              Keeps-bind Q
                (m_internal_move_to3 h live w.udev.curr_mouse_abs_pos_x w.udev.curr_mouse_abs_pos_y)
                (answered t)
                (rules.report w.udev.curr_mouse_abs_pos_x w.udev.curr_mouse_abs_pos_y at_x at_y)
                (λ r.
                  Keeps-if Q (eqb_ℤ r (pos 0)) (rest_of_way h t.0 t.1 (loop t.1)) (return none)
                    (rest_of_way-Keeps t.0 t.1 (loop t.1)
                      (curve_loop-Keeps swapped a b ori bc p q f t.1))
                    (λ w s'. s'))
                w s')))

  finish_way-Keeps : (x y : ℤ) (end : Option Way) → Fair x → Fair y → Keeps Q (finish_way h x y end)
  finish_way-Keeps x y none p q = λ w s. s
  finish_way-Keeps x y (some s) p q =
      let last : Prog ℤ = (do
        r ← m_internal_move_to3 h live x y
        if eqb_ℤ r (pos 0) then return (pos 0) else return minus_one) in
      Keeps-if Q (eqb_ℤ s.a_dis (pos 0) && eqb_ℤ s.b_dis (pos 0)) (return (pos 0)) last (λ w s. s)
        (Keeps-bind Q (m_internal_move_to3 h live x y)
          (λ r. if eqb_ℤ r (pos 0) then return (pos 0) else return minus_one) (rules.report x y p q)
          zero_or)

  move_along-Keeps : (x y : ℤ) → Fair x → Fair y → Keeps Q (move_along h fl x y)
  unfolding move_along
  move_along-Keeps x y p q w s =
      let x_dis = x -ℤ w.udev.curr_mouse_abs_pos_x in
      let y_dis = y -ℤ w.udev.curr_mouse_abs_pos_y in
      let wide : ℤ → Prog (Option Way) = λ theta.
        curve_loop h fl false (x, y) (x_dis, y_dis) (quotient y_dis (pos 2) +ℤ theta) h.patience
          (start_way x_dis y_dis) in
      let tall : ℤ → Prog (Option Way) = λ theta.
        curve_loop h fl true (y, x) (y_dis, x_dis) (quotient x_dis (pos 2) +ℤ theta) h.patience
          (start_way y_dis x_dis) in
      let b = leb (abs y_dis) (abs x_dis) in
      let curve : ℤ → Prog ℤ =
        λ theta. (do end ← if b then wide theta else tall theta; finish_way h x y end) in
      Keeps-if Q (eqb_ℤ x_dis (pos 0) && eqb_ℤ y_dis (pos 0)) (m_internal_move_to3 h live x y)
        (do theta ← choose_theta h fl x_dis y_dis; curve theta) (rules.report x y p q)
        (Keeps-bind Q (choose_theta h fl x_dis y_dis) curve (choose_theta-Keeps x_dis y_dis)
          (λ theta.
            Keeps-bind Q (if b then wide theta else tall theta) (finish_way h x y)
              (Keeps-if Q b (wide theta) (tall theta)
                (curve_loop-Keeps false x y (x_dis, y_dis) (quotient y_dis (pos 2) +ℤ theta) p q
                  h.patience (start_way x_dis y_dis))
                (curve_loop-Keeps true y x (y_dis, x_dis) (quotient x_dis (pos 2) +ℤ theta) q p
                  h.patience (start_way y_dis x_dis)))
              (λ end. finish_way-Keeps x y end p q)))
        w s

  pub m_move_to3_kept : (x y : ℤ) → Keeps Q (m_move_to3 h fl live x y)
  unfolding m_move_to3
  m_move_to3_kept x y =
      let move : Prog ℤ = (do
        u ← udev
        return_if (eqb_ℤ u.cx (pos 0) || eqb_ℤ u.cy (pos 0)) (negsuc 2) (
            return_if (leb_ℤ u.cx x || leb_ℤ u.cy y) (negsuc 3) (
              if u.mouse_1st_movto == 0
              then m_internal_move_to3 h live x y
              else move_along h fl x y))) in
      Keeps-guard Q (ltb_ℤ x (pos 0) || ltb_ℤ y (pos 0)) minus_one move (λ on w s.
        let (p, q) = rules.on_screen x y on in
        let u = w.udev in
        let go : Prog ℤ =
          if u.mouse_1st_movto == 0 then m_internal_move_to3 h live x y else move_along h fl x y in
        Keeps-return_if Q (eqb_ℤ u.cx (pos 0) || eqb_ℤ u.cy (pos 0)) (negsuc 2)
          (return_if (leb_ℤ u.cx x || leb_ℤ u.cy y) (negsuc 3) go)
          (Keeps-return_if Q (leb_ℤ u.cx x || leb_ℤ u.cy y) (negsuc 3) go (
            Keeps-if Q (u.mouse_1st_movto == 0) (m_internal_move_to3 h live x y)
              (move_along h fl x y) (rules.report x y p q) (move_along-Keeps x y p q)))
          w s)
