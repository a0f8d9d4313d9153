-- ===== src/Curve/FromKnown.antt =====
-- `M_MoveTo3` from a position that is known, at a device that answers at once.
use msdk_linux.Curve.Start.{SameBut-refl}
use msdk_linux.Base.{
  ℕ, ◌≡◌, ◌==◌, false, refl, List, Bool, some, eqb_ℤ, pos, ◌<◌, ◌≤ℤ◌, abs, ◌<ℤ◌, ◌-ℤ◌, ◌≤◌, ◌*◌,
  Bool-cases, ◌&&◌, inl, ◌++◌, ◌⊎◌, [], minus_one, inr, arith, leb, ap, ◌+ℤ◌, ◌∙◌, true, leb→le,
  leb→ge, ℤ, ◌∷◌, ◌≢◌,
}
use msdk_linux.Curve.{m_move_to3, move_along, Host, Floats, live, choose_theta, ◌>>=◌, quotient}
use msdk_linux.Machine.{Host, Device, World, IsPrompt, live, ◌>>=◌}
use msdk_linux.Curve.Draw.{IsInt, Drawn, choose_theta-Drawn}
use msdk_linux.Hid.Wire.{handed_over, at_rest}
use msdk_linux.Machine.Ends.{Returns, Returns-done, Returns-mono}
use msdk_linux.Curve.Along.{Arrived, report_target, from_start}
use msdk_linux.Curve.Step.{SameBut}
use msdk_linux.Curve.OnTheCurve.{AreForPlaces}
use msdk_linux.Move.Target.{IsAt}
use msdk_linux.Curve.Direct.{sized, not_below_zero, neither, on_screen_both}
use msdk_linux.Absolute.{quotient, absolute_command}

not_zero_flag : (f : ℕ) → f ≡ 1 → (f == 0) ≡ false
not_zero_flag f e = rw e refl

some_way_parts :
    (a b : ℤ) → (eqb_ℤ a (pos 0) && eqb_ℤ b (pos 0)) ≡ false → abs b ≤ abs a → abs a ≢ 0
some_way_parts a b e longer z = ground arith

-- The longer way is not 0 where one of the two is not.
some_way : (a b : ℤ) → (eqb_ℤ a (pos 0) && eqb_ℤ b (pos 0)) ≡ false → abs b ≤ abs a → a ≢ pos 0
some_way a b e longer z = some_way_parts a b e longer (ap abs z)

both_ways :
    (a b : ℤ)
    → (eqb_ℤ a (pos 0) && eqb_ℤ b (pos 0)) ≡ false
    → (eqb_ℤ b (pos 0) && eqb_ℤ a (pos 0)) ≡ false
both_ways a b e = ground arith

pub move_along-Arrived :
    (h : Host) (fl : Floats) (dev : Device) (ok : Bool) (cs : List (List ℕ)) (x y n : ℕ) (w : World)
    (prompt : IsPrompt h) (is_open : w.udev.h_dev ≡ some dev)
    (wide : eqb_ℤ w.udev.cx (pos 0) ≡ false) (tall : eqb_ℤ w.udev.cy (pos 0) ≡ false)
    (known : w.udev.mouse_1st_movto ≡ 1)
    → IsInt fl
    → n < h.patience
    → pos 0 ≤ℤ w.udev.curr_mouse_abs_pos_x
    → pos 0 ≤ℤ w.udev.curr_mouse_abs_pos_y
    → abs (pos x -ℤ w.udev.curr_mouse_abs_pos_x) ≤ 50 * n
    → abs (pos y -ℤ w.udev.curr_mouse_abs_pos_y) ≤ 50 * n
    → handed_over w.calls ≡ at_rest cs ok
    → Returns
        (move_along h fl (pos x) (pos y) w)
        (Arrived h fl dev ok cs w.udev prompt is_open wide tall known x y)
unfolding move_along
move_along-Arrived h fl dev ok cs x y n w prompt is_open wide tall known int lt p q far_x far_y
      rest =
    let u0 = w.udev in
    let x_dis = pos x -ℤ u0.curr_mouse_abs_pos_x in
    let y_dis = pos y -ℤ u0.curr_mouse_abs_pos_y in
    elim (Bool-cases (eqb_ℤ x_dis (pos 0) && eqb_ℤ y_dis (pos 0))) [
      | inl e ↦ rw e (
          report_target h fl dev ok cs u0 prompt is_open wide tall known x y w (SameBut-refl u0)
            ([], tt, rest))
      | inr e ↦
          let (theta, w1, chosen, (same, quiet)) =
            Returns-done (Drawn w) (choose_theta h fl x_dis y_dis w)
              (choose_theta-Drawn h fl x_dis y_dis w int) in
          rw e (
            rw (chosen, ◌>>=◌)
              (elim (Bool-cases (leb (abs y_dis) (abs x_dis))) [
                | inl wider ↦
                    let long = leb→le (abs y_dis) (abs x_dis) wider in
                    rw wider (
                      from_start h fl dev ok cs u0 prompt is_open wide tall known x y false x y
                        (λ u t. (ap (λ p. p.0) t, ap (λ p. p.1) t)) n (x_dis, y_dis)
                        (quotient y_dis (pos 2) +ℤ theta) w1 lt p q far_x long
                        (some_way x_dis y_dis e long) (same, quiet ∙ rest))
                | inr taller ↦
                    let long = leb→ge (abs y_dis) (abs x_dis) taller in
                    rw taller (
                      from_start h fl dev ok cs u0 prompt is_open wide tall known x y true y x
                        (λ u t. (ap (λ p. p.1) t, ap (λ p. p.0) t)) n (y_dis, x_dis)
                        (quotient x_dis (pos 2) +ℤ theta) w1 lt q p far_y long
                        (λ z. some_way y_dis x_dis (both_ways x_dis y_dis e) long z)
                        (same, quiet ∙ rest))
              ]))
    ]

-- From a known position, with a target on the screen of the resolution that is set, at a device
-- that answers at once, with patience for the distance in steps of 50 and with lengths that fit an
-- int, M_MoveTo3 returns, whatever the curve is: nothing but reports for coordinates goes out, the
-- keys, the buttons and the resolution stay, and with 0 the last report is the one for the target
-- and M_GetCurrMousePos tells it; or it returns -1.
pub m_move_to3-Arrived :
    (h : Host) (fl : Floats) (dev : Device) (cs : List (List ℕ)) (ok : Bool) (x y n : ℕ) (w : World)
    → IsPrompt h
    → IsInt fl
    → w.udev.h_dev ≡ some dev
    → handed_over w.calls ≡ at_rest cs ok
    → w.udev.mouse_1st_movto ≡ 1
    → pos 0 ≤ℤ w.udev.curr_mouse_abs_pos_x
    → pos 0 ≤ℤ w.udev.curr_mouse_abs_pos_y
    → pos x <ℤ w.udev.cx
    → pos y <ℤ w.udev.cy
    → abs (pos x -ℤ w.udev.curr_mouse_abs_pos_x) ≤ 50 * n
    → abs (pos y -ℤ w.udev.curr_mouse_abs_pos_y) ≤ 50 * n
    → n < h.patience
    → Returns (m_move_to3 h fl live (pos x) (pos y) w) (λ r w'.
      SameBut w.udev w'.udev
      × ((reports : List (List ℕ)) × AreForPlaces w.udev.cx w.udev.cy reports
          × (handed_over w'.calls ≡ at_rest (reports ++ cs) ok))
      × (((r ≡ pos 0)
            × IsAt x y w'
            × ((earlier : List (List ℕ)) × (handed_over w'.calls
                  ≡ at_rest (absolute_command w.udev.cx w.udev.cy (pos x) (pos y) ∷ earlier) ok)))
          ⊎ (r ≡ minus_one)))
unfolding m_move_to3
m_move_to3-Arrived h fl dev cs ok x y n w prompt int is_open rest known p q in_x in_y far_x far_y
      lt =
    let (wide, tall) = sized w.udev.cx w.udev.cy (omega arith) (omega arith) in
    rw
      (
        not_below_zero (pos x) (pos y) (omega arith) (omega arith),
        neither (eqb_ℤ w.udev.cx (pos 0)) (eqb_ℤ w.udev.cy (pos 0)) wide tall,
        on_screen_both w.udev.cx w.udev.cy (pos x) (pos y) in_x in_y,
        not_zero_flag w.udev.mouse_1st_movto known,
      )
      (Returns-mono _ _ (move_along h fl (pos x) (pos y) w)
        (move_along-Arrived h fl dev ok cs x y n w prompt is_open wide tall known int lt p q far_x
          far_y rest)
        (λ r w' t. (t.same, t.wired, t.ends)))
