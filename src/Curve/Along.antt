-- ===== src/Curve/Along.antt =====
-- From the start of `M_MoveTo3`'s loop to the end of the function.
use msdk_linux.Base.{
  ℕ, ℤ, abs, pos, Bool, ◌≡◌, ◌≤◌, ◌-ℤ◌, ◌≤ℤ◌, sym, List, arith, some, ◌∙◌, eqb_ℤ, refl, false, ◌++◌,
  ◌⊎◌, minus_one, if◌then◌else◌, Option, inl, ◌<◌, ◌*◌, inr, Bool-cases, ◌&&◌, [], none, ◌≢◌, ◌∷◌,
}
use msdk_linux.Machine.{Host, Udev, Device, IsPrompt, World, live, return, ◌>>=◌}
use msdk_linux.Curve.{
  Floats, place_of, start_way, m_internal_move_to3, live, Way, return, finish_way, curve_loop,
}
use msdk_linux.Curve.Step.{SameBut}
use msdk_linux.Curve.OnTheCurve.{OnWay, AreForPlaces}
use msdk_linux.Curve.Rounds.{Wired, report_place, Curved, Head, curve_loop-Curved}
use msdk_linux.Machine.Ends.{Returns, Returns-done}
use msdk_linux.Hid.Wire.{handed_over, at_rest}
use msdk_linux.Absolute.{m_internal_move_to3, absolute_command}
use msdk_linux.Move.Target.{IsAt}
use mathlib.Core.Path.{subst, subst₂}
use msdk_linux.Curve.Direct.{set_position-IsAt}
use msdk_linux.Curve.Start.{stored_at, stored-SameBut, start_way-OnWay}

module _ (h : Host) (fl : Floats) (dev : Device) (ok : Bool) (cs : List (List ℕ)) (u0 : Udev)
    (prompt : IsPrompt h) (is_open : u0.h_dev ≡ some dev) (wide : eqb_ℤ u0.cx (pos 0) ≡ false)
    (tall : eqb_ℤ u0.cy (pos 0) ≡ false) (known : u0.mouse_1st_movto ≡ 1) (x y : ℕ) where
  -- The movement ended: at its target with 0, or with -1; nothing but places was reported, and all
  -- but the position is as at the start.
  pub record Arrived (r : ℤ) (w : World) : Type 0 where
    pub same : SameBut u0 w.udev
    pub wired :
        (reports : List (List ℕ)) × AreForPlaces u0.cx u0.cy reports
        × (handed_over w.calls ≡ at_rest (reports ++ cs) ok)
    pub ends :
        ((r ≡ pos 0)
          × IsAt x y w
          × ((earlier : List (List ℕ)) × (handed_over w.calls
                ≡ at_rest (absolute_command u0.cx u0.cy (pos x) (pos y) ∷ earlier) ok)))
        ⊎ (r ≡ minus_one)

  pub report_target :
      (w : World)
      → SameBut u0 w.udev
      → Wired h fl dev ok cs false x y u0 prompt is_open wide tall known w
      → Returns (m_internal_move_to3 h live (pos x) (pos y) w) Arrived
  report_target w same wired =
      let (r, w', e, wired', sent, told) =
        report_place h fl dev ok cs false x y u0 prompt is_open wide tall known (pos x) (pos y) w
          (omega arith) (omega arith) same wired in
      rw e (elim told [
        | inl (z, stored) ↦ record {
          same =
              subst (SameBut u0) (sym stored) (stored-SameBut (pos x) (pos y) u0 w.udev known same);
          wired = wired';
          ends = inl (z, set_position-IsAt x y w.udev w' stored, sent);
        }
        | inr (m, kept) ↦ record {
          same = subst (SameBut u0) (sym kept) same;
          wired = wired';
          ends = inr m;
        }
      ])

  zero_or_minus_one :
      (r : ℤ) (w : World)
      → Arrived r w
      → Returns ((if eqb_ℤ r (pos 0) then return (pos 0) else return minus_one) w) Arrived
  zero_or_minus_one r w t = elim t.ends [
    | inl (z, there, sent) ↦
        rw z (record { same = t.same; wired = t.wired; ends = inl (refl, there, sent) })
    | inr m ↦ rw m (record { same = t.same; wired = t.wired; ends = inr refl })
  ]

  module _ (swapped : Bool) (ta tb : ℕ)
      (axes : (u : Udev)
        → place_of swapped u ≡ (pos ta, pos tb)
        → (u.curr_mouse_abs_pos_x ≡ pos x) × (u.curr_mouse_abs_pos_y ≡ pos y)) where
    finish_way-Arrived :
        (end : Option Way) (w : World)
        → Curved h fl dev ok cs swapped ta tb u0 prompt is_open wide tall known end w
        → Returns (finish_way h (pos x) (pos y) end w) Arrived
    finish_way-Arrived none w t = record { same = t.0; wired = t.1; ends = inr refl }
    finish_way-Arrived (some s) w t =
        let (z, (o, wired, sent)) = t in
        elim (Bool-cases (eqb_ℤ s.a_dis (pos 0) && eqb_ℤ s.b_dis (pos 0))) [
          | inl e ↦ rw e (record {
            same = o.same;
            wired = wired;
            ends =
                let (p, q) = axes w.udev (o.settled z) in
                inl (
                  refl,
                  set_position-IsAt x y w.udev w (stored_at x y w.udev (o.same.flag ∙ known) p q),
                  subst₂
                      (λ a b.
                        (earlier : List (List ℕ)) × (handed_over w.calls
                          ≡ at_rest (absolute_command u0.cx u0.cy a b ∷ earlier) ok))
                      p q (sent z),
                );
          })
          | inr e ↦
              let (r, w', reported, t) = Returns-done Arrived _ (report_target w o.same wired) in
              rw e (rw (reported, ◌>>=◌) (zero_or_minus_one r w' t))
        ]

    along_axes :
        (n : ℕ) (ori : ℤ × ℤ) (bc : ℤ) (s : Way) (w : World)
        → n < h.patience
        → abs s.a_dis ≤ 50 * n
        → Head h fl dev ok cs swapped ta tb u0 prompt is_open wide tall known w s
        → Returns
            ((do
              end ← curve_loop h fl swapped (pos ta, pos tb) ori bc h.patience s
              finish_way h (pos x) (pos y) end)
              w)
            Arrived
    along_axes n ori bc s w lt far hd =
        let (end, w', looped, t) =
          Returns-done (Curved h fl dev ok cs swapped ta tb u0 prompt is_open wide tall known) _ (
            curve_loop-Curved h fl dev ok cs swapped ta tb u0 prompt is_open wide tall known n
              h.patience ori bc s w lt far hd) in
        rw (looped, ◌>>=◌) (finish_way-Arrived end w' t)

    pub from_start :
        (n : ℕ) (ori : ℤ × ℤ) (bc : ℤ) (w : World)
        → n < h.patience
        → pos 0 ≤ℤ (place_of swapped u0).0
        → pos 0 ≤ℤ (place_of swapped u0).1
        → abs (pos ta -ℤ (place_of swapped u0).0) ≤ 50 * n
        → abs (pos tb -ℤ (place_of swapped u0).1) ≤ abs (pos ta -ℤ (place_of swapped u0).0)
        → pos ta -ℤ (place_of swapped u0).0 ≢ pos 0
        → (w.udev ≡ u0) × (handed_over w.calls ≡ at_rest cs ok)
        → Returns
            ((do
              end ←
                  curve_loop h fl swapped
                    (pos ta, pos tb)
                    ori
                    bc
                    h.patience
                    (start_way
                      (pos ta -ℤ (place_of swapped u0).0)
                      (pos tb -ℤ (place_of swapped u0).1))
              finish_way h (pos x) (pos y) end)
              w)
            Arrived
    from_start n ori bc w lt p q far longer some_way (same, rest) =
        let (a_pos, b_pos) = place_of swapped u0 in
        let s = start_way (pos ta -ℤ a_pos) (pos tb -ℤ b_pos) in
        along_axes n ori bc s w lt far (
          subst (λ u. OnWay swapped ta tb u0 u s) (sym same)
              (start_way-OnWay swapped ta tb u0 p q longer),
          ([], tt, rest),
          λ z. absurd (some_way z),
        )
