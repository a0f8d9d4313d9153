-- ===== src/Curve/Rounds.antt =====
-- The loop of `M_MoveTo3` at a device that answers at once.
use msdk_linux.Base.{
  ℕ, ℤ, Bool, ◌≡◌, pos, ◌≤ℤ◌, ap, List, true, sym, some, false, eqb_ℤ, Option, if◌then◌else◌, ◌&&◌,
  none, ◌++◌, Bool-cases, ◌⊎◌, minus_one, inl, inr, ◌∙◌, arith, ◌∷◌, refl, eq_of_parts, ◌<◌, abs,
  ◌≤◌, ◌*◌, suc, leb, zero,
}
use msdk_linux.Machine.{
  Udev, Host, Device, IsPrompt, World, return, live, done, usleep, rand, Prog, ◌>>=◌, udev,
}
use msdk_linux.Curve.{Floats, place_of, Way, curve_loop, make_step, rest_of_way}
use msdk_linux.Move.{set_position}
use msdk_linux.Curve.Step.{SameBut}
use msdk_linux.Curve.OnTheCurve.{AreForPlaces, OnWay, Stepped, Nearer, straight_step, curved_step}
use msdk_linux.Absolute.{m_internal_move_to3, absolute_command}
use msdk_linux.Hid.Wire.{handed_over, at_rest}
use msdk_linux.Common.{m_delay_random}
use msdk_linux.Machine.Ends.{Returns-done, Returns}
use msdk_linux.Absolute.Placed.{m_internal_move_to3-sent}
use msdk_linux.Common.Range.{m_delay_random_lem}
use msdk_linux.Curve.Draw.{IsStep, draw_step-IsStep}
use mathlib.Core.Path.{subst}

nonneg_places :
    (swapped : Bool) (u : Udev)
    → pos 0 ≤ℤ (place_of swapped u).0
    → pos 0 ≤ℤ (place_of swapped u).1
    → (pos 0 ≤ℤ u.curr_mouse_abs_pos_x) × (pos 0 ≤ℤ u.curr_mouse_abs_pos_y)
nonneg_places true u p q = (q, p)
nonneg_places false u p q = (p, q)

-- Storing the position that is kept already, where it is known, changes nothing.
pub stored_again :
    (u : Udev)
    → u.mouse_1st_movto ≡ 1
    → set_position u.curr_mouse_abs_pos_x u.curr_mouse_abs_pos_y (record u { mouse_1st_movto = 1 })
      ≡ u
stored_again u e = ap (λ f. record u { mouse_1st_movto = f }) (sym e)

module _ (h : Host) (fl : Floats) (dev : Device) (ok : Bool) (cs : List (List ℕ)) (swapped : Bool)
    (ta tb : ℕ) (u0 : Udev) (prompt : IsPrompt h) (is_open : u0.h_dev ≡ some dev)
    (wide : eqb_ℤ u0.cx (pos 0) ≡ false) (tall : eqb_ℤ u0.cy (pos 0) ≡ false)
    (known : u0.mouse_1st_movto ≡ 1) where
  -- Reports for places have gone out, and nothing else.
  abbrev pub Wired : World → Type 0
  Wired w =
      (reports : List (List ℕ)) × AreForPlaces u0.cx u0.cy reports
      × (handed_over w.calls ≡ at_rest (reports ++ cs) ok)

  -- The latest report is the one for (x, y).
  abbrev pub Sent : ℤ → ℤ → World → Type 0
  Sent x y w =
      (earlier : List (List ℕ)) × (handed_over w.calls
        ≡ at_rest (absolute_command u0.cx u0.cy x y ∷ earlier) ok)

  -- A report for a place goes out, and the record is as before after -1.
  pub report_place :
      (x y : ℤ) (w : World)
      → pos 0 ≤ℤ x
      → pos 0 ≤ℤ y
      → SameBut u0 w.udev
      → Wired w
      → (r : ℤ) × (w' : World) × (m_internal_move_to3 h live x y w ≡ done r w')
        × Wired w'
        × Sent x y w'
        × (((r ≡ pos 0) × (w'.udev ≡ set_position x y (record w.udev { mouse_1st_movto = 1 })))
            ⊎ ((r ≡ minus_one) × (w'.udev ≡ w.udev)))
  report_place x y w p q same (reports, places, rest) =
      let (r, w', e, (sent, told)) = Returns-done _ (m_internal_move_to3 h live x y w) (
        m_internal_move_to3-sent h prompt dev (reports ++ cs) ok x y w (same.h_dev ∙ is_open)
          (ap (λ c. eqb_ℤ c (pos 0)) same.width ∙ wide)
          (ap (λ c. eqb_ℤ c (pos 0)) same.height ∙ tall) rest) in
      let same_command : absolute_command w.udev.cx w.udev.cy x y
          ≡ absolute_command u0.cx u0.cy x y =
        ap (λ c. absolute_command c w.udev.cy x y) same.width
        ∙ ap (λ c. absolute_command u0.cx c x y) same.height in
      (
        r,
        w',
        e,
        (absolute_command w.udev.cx w.udev.cy x y ∷ reports, ((x, y, same_command), places), sent),
        (reports ++ cs, sent ∙ ap (λ c. at_rest (c ∷ (reports ++ cs)) ok) same_command),
        told,
      )

  -- Where nothing is left along the longer axis, the kept position has been reported.
  abbrev pub Head : World → Way → Type 0
  Head w s =
      OnWay swapped ta tb u0 w.udev s
      × Wired w
      × (s.a_dis ≡ pos 0 → Sent w.udev.curr_mouse_abs_pos_x w.udev.curr_mouse_abs_pos_y w)

  -- How the loop ends: nothing is left along the longer axis, or a report failed.
  abbrev pub Curved : Option Way → World → Type 0
  Curved none w = SameBut u0 w.udev × Wired w
  Curved (some s) w = (s.a_dis ≡ pos 0) × Head w s

  pause_on_way :
      (s : Way) (w : World)
      → (r : ℤ) × (w' : World) × ((if eqb_ℤ s.a_dis (pos 0) && eqb_ℤ s.b_dis (pos 0)
              then return (pos 0)
              else m_delay_random h (pos 10) (pos 20))
            w
          ≡ done r w')
        × (w'.udev ≡ w.udev)
        × (handed_over w'.calls ≡ handed_over w.calls)
  pause_on_way s w = elim (Bool-cases (eqb_ℤ s.a_dis (pos 0) && eqb_ℤ s.b_dis (pos 0))) [
    | inl e ↦ (pos 0, w, rw e refl, refl, refl)
    | inr e ↦
        let (t, delayed) =
          m_delay_random_lem h (pos 10) (pos 20) w (omega arith) (omega arith) (omega arith) in
        (
          pos 0,
          record w { calls = usleep t ∷ rand ∷ w.calls },
          rw e delayed,
          refl,
          unfold handed_over in refl,
        )
  ]

  at_end : (x : ℤ) → eqb_ℤ x (pos 0) ≡ true → x ≡ pos 0
  at_end x e = eq_of_parts x (pos 0) (ground arith)

  something_left : (x : ℤ) → eqb_ℤ x (pos 0) ≡ false → 0 < abs x
  something_left x e = ground arith

  no_way : (x : ℤ) → abs x ≤ 50 * 0 → eqb_ℤ x (pos 0) ≡ true
  no_way x far = ground arith

  Nearer-bound : (n : ℕ) (d d' : ℤ) → abs d ≤ 50 * suc n → Nearer d d' → abs d' ≤ 50 * n
  Nearer-bound n d d' far (inl less) = omega arith
  Nearer-bound n d d' far (inr z) = rw z (omega arith)

  step-OnWay :
      (ori : ℤ × ℤ) (bc : ℤ) (rnd : ℕ) (s : Way) (w : World)
      → OnWay swapped ta tb u0 w.udev s
      → 0 < abs s.a_dis
      → IsStep (abs s.a_dis) rnd
      → Returns
          (make_step fl swapped (pos ta, pos tb) ori bc rnd s w)
          (Stepped swapped ta tb u0 s w)
  step-OnWay ori bc rnd s w o some_left q = elim (Bool-cases (leb (abs s.a_dis) rnd)) [
    | inl e ↦
        let short : abs s.a_dis ≤ rnd = ground arith in
        straight_step swapped ta tb u0 fl ori bc rnd s w o some_left short (q.straight short)
    | inr e ↦ curved_step swapped ta tb u0 known fl ori bc rnd s w o q.long (ground arith)
  ]

  -- What follows a step: the report, and the rest of the loop.
  after_step-Curved :
      (s : Way) (a_mov : ℤ) (rest : Prog (Option Way)) (w : World)
      → eqb_ℤ a_mov (pos 0) ≡ false
      → OnWay swapped ta tb u0 w.udev s × Wired w
      → ((w' : World) → Head w' s → Returns (rest w') Curved)
      → Returns
          ((do
            u ← udev
            r ← m_internal_move_to3 h live u.curr_mouse_abs_pos_x u.curr_mouse_abs_pos_y
            if eqb_ℤ r (pos 0) then rest_of_way h a_mov s rest else return none)
            w)
          Curved
  after_step-Curved s a_mov rest w moves (o, wired) k =
      let (p, q) = nonneg_places swapped w.udev o.a_nonneg o.b_nonneg in
      let (r, w1, e, wired1, sent, told) =
        report_place w.udev.curr_mouse_abs_pos_x w.udev.curr_mouse_abs_pos_y w p q o.same wired in
      rw (e, ◌>>=◌)
        (elim told [
          | inl (z, stored) ↦
              let same1 : w.udev ≡ w1.udev =
                sym (stored ∙ stored_again w.udev (o.same.flag ∙ known)) in
              let o1 = subst (λ u. OnWay swapped ta tb u0 u s) same1 o in
              let (x, w2, paused, same2, quiet) = pause_on_way s w1 in
              let (reports, places, wired) = wired1 in
              let same12 : w.udev ≡ w2.udev = same1 ∙ sym same2 in
              let sent2 : Sent w.udev.curr_mouse_abs_pos_x w.udev.curr_mouse_abs_pos_y w2 =
                (sent.0, quiet ∙ sent.1) in
              let last : Sent w2.udev.curr_mouse_abs_pos_x w2.udev.curr_mouse_abs_pos_y w2 =
                subst (λ u. Sent u.curr_mouse_abs_pos_x u.curr_mouse_abs_pos_y w2) same12 sent2 in
              rw z (
                rw (paused, ◌>>=◌)
                  (rw moves (
                    k w2 (
                      subst (λ u. OnWay swapped ta tb u0 u s) (sym same2) o1,
                      (reports, places, quiet ∙ wired),
                      λ z'. last,
                    ))))
          | inr (m, kept) ↦ rw m (subst (λ u. SameBut u0 u) (sym kept) o.same, wired1)
        ])

  pub curve_loop-Curved :
      (n f : ℕ) (ori : ℤ × ℤ) (bc : ℤ) (s : Way) (w : World)
      → n < f
      → abs s.a_dis ≤ 50 * n
      → Head w s
      → Returns (curve_loop h fl swapped (pos ta, pos tb) ori bc f s w) Curved
  unfolding curve_loop
  curve_loop-Curved n zero ori bc s w lt far hd = absurd (omega arith)
  curve_loop-Curved zero (suc f) ori bc s w lt far hd =
      let e = no_way s.a_dis far in rw e (at_end s.a_dis e, hd)
  curve_loop-Curved (suc n) (suc f) ori bc s w lt far hd =
      elim (Bool-cases (eqb_ℤ s.a_dis (pos 0))) [
        | inl e ↦ rw e (at_end s.a_dis e, hd)
        | inr e ↦
            let (rnd, drawn, q) = draw_step-IsStep h s.a_dis w in
            let w1 : World = record w { calls = rand ∷ w.calls } in
            let step = make_step fl swapped (pos ta, pos tb) ori bc rnd s in
            let (t, w2, stepped, after) =
              Returns-done (Stepped swapped ta tb u0 s w1) (step w1)
                (step-OnWay ori bc rnd s w1 hd.0 (something_left s.a_dis e) q) in
            let (reports, places, rest) = hd.1 in
            let wired2 : Wired w2 =
              (reports, places, ap handed_over after.calls ∙ (unfold handed_over in rest)) in
            rw e (
              rw (drawn, ◌>>=◌)
                (rw (stepped, ◌>>=◌)
                  (after_step-Curved t.1 t.0 (curve_loop h fl swapped (pos ta, pos tb) ori bc f t.1)
                    w2 after.moves (after.on_way, wired2)
                    (λ w' hd'.
                      curve_loop-Curved n f ori bc t.1 w' (omega arith)
                        (Nearer-bound n s.a_dis t.1.a_dis far after.nearer) hd'))))
      ]
