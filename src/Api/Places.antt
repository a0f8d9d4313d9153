-- ===== src/Api/Places.antt =====
-- `M_MoveTo`, `M_ResetMousePos` and the reports for places keep the record and the box in agreement.
use msdk_linux.Base.{
  ℤ, Bool, ◌||◌, ◌≡◌, false, refl, arith, ◌-ℤ◌, Bool-cases, if◌then◌else◌, ◌∷◌, pos, eqb_ℤ, inl,
  ◌⊎◌, minus_one, inr, negsuc, ltb_ℤ, ap, ◌∙◌, leb_ℤ, ◌==◌, sym, ◌≤ℤ◌,
}
use msdk_linux.Api.Box.{read_report, Down, reads_next, Screen, at_spot, place}
use msdk_linux.Machine.{
  Device, Host, IsPrompt, World, live, Prog, ◌>>◌, modify, return, ◌>>=◌, udev, return_if,
}
use msdk_linux.Absolute.{absolute_command, m_resolution_used, m_internal_move_to3}
use msdk_linux.Move.{
  move_from_corner, m_reset_mouse_pos, move_from_known, m_move_to, m_internal_move_r, set_position,
  not_negative,
}
use msdk_linux.Machine.Ends.{
  Keeps, Keeps-bind, Keeps-return_if, Ensures-mono, Returns-Ensures, Keeps-if, Keeps-guard,
}
use msdk_linux.Api.Agrees.{
  Agrees, Clicks, at_place, IsPlaced, Stands, Kept, kept_of, still, Holds-same,
}
use msdk_linux.Hid.Wire.{handed_over, at_rest}
use msdk_linux.Api.Axes.{Agrees-position, lost_place, nonneg_guard, floor_place, Somewhere}
use msdk_linux.Api.Moves.{m_internal_move_r-Agrees}
use mathlib.Core.Path.{subst, sym}
use msdk_linux.Absolute.Placed.{m_internal_move_to3-sent}
use msdk_linux.Keyboard.State.{HasDown}

neither_zero : (p q : Bool) → (p || q) ≡ false → (p ≡ false) × (q ≡ false)
neither_zero p q e = ground arith

-- The box puts the pointer where the report says.
pub reads-absolute_command :
    (scr : Screen) (cx cy x y : ℤ) (d : Down)
    → read_report scr (absolute_command cx cy x y) d ≡ place scr (absolute_command cx cy x y) d
unfolding read_report absolute_command
reads-absolute_command scr cx cy x y d = refl

module _ (scr : Screen) (dev : Device) (ok : Bool) (h : Host) (prompt : IsPrompt h) where
  -- The report for a place says nothing of what is down, and where the pointer goes.
  pub place_reported :
      (d : Down) (x y r : ℤ) (w w' : World)
      → pos 0 ≤ℤ x
      → pos 0 ≤ℤ y
      → (s : Stands scr dev ok d w)
      → (handed_over w'.calls ≡ at_rest (absolute_command w.udev.cx w.udev.cy x y ∷ s.reports) ok)
      → ((r ≡ pos 0) × (w'.udev ≡ set_position x y (record w.udev { mouse_1st_movto = 1 })))
        ⊎ ((r ≡ minus_one) × (w'.udev ≡ w.udev))
      → Stands scr dev ok (place scr (absolute_command w.udev.cx w.udev.cy x y) d) w'
  place_reported d x y r w w' p q s sent told =
      let report = absolute_command w.udev.cx w.udev.cy x y in
      let same : (w'.udev.h_dev ≡ w.udev.h_dev)
          × (w'.udev.curr_kb_op ≡ w.udev.curr_kb_op)
          × (w'.udev.curr_mouse_op ≡ w.udev.curr_mouse_op) =
        elim told [
          | inl (z, e) ↦
              (ap (λ u. u.h_dev) e, ap (λ u. u.curr_kb_op) e, ap (λ u. u.curr_mouse_op) e)
          | inr (m, e) ↦
              (ap (λ u. u.h_dev) e, ap (λ u. u.curr_kb_op) e, ap (λ u. u.curr_mouse_op) e)
        ] in
      record {
        device = same.0 ∙ s.device;
        kb = subst (λ op. HasDown op d.mods d.keys) (sym same.1) s.kb;
        mouse = subst (λ op. Clicks op d.buttons still) (sym same.2) s.mouse;
        reports = report ∷ s.reports;
        on_wire = sent;
        reading =
            reads_next scr report s.reports d s.reading
            ∙ reads-absolute_command scr w.udev.cx w.udev.cy x y d;
        place = elim told [
          | inl (z, e) ↦
              subst (λ u. IsPlaced (kept_of u) u) (sym e)
                (at_place x y (record w.udev { mouse_1st_movto = 1 }) (inr refl) p q)
          | inr (m, e) ↦ subst (λ u. IsPlaced (kept_of u) u) (sym e) s.place
        ];
      }

module _ (scr : Screen) (dev : Device) (ok : Bool) (h : Host) (prompt : IsPrompt h) (d : Down) where
  abbrev Q : World → Type 0
  Q = Somewhere scr dev ok h prompt d

  move_from_corner-Agrees : (x y : ℤ) → pos 0 ≤ℤ x → pos 0 ≤ℤ y → Keeps Q (move_from_corner h x y)
  unfolding move_from_corner
  move_from_corner-Agrees x y p q =
      let move = m_internal_move_r h live x y in
      let store : Prog ℤ = (do
        modify (λ u. set_position x y (record u { mouse_1st_movto = 1 }))
        return (pos 0)) in
      let after : ℤ → Prog ℤ = λ r'. if eqb_ℤ r' (pos 0) then store else return minus_one in
      Keeps-bind Q (m_internal_move_r h live (negsuc 2999) (negsuc 2999))
        (λ r. if eqb_ℤ r (pos 0) then (move >>= after) else return minus_one)
        (m_internal_move_r-Agrees scr dev ok h prompt d (negsuc 2999) (negsuc 2999))
        (λ r.
          Keeps-if Q (eqb_ℤ r (pos 0)) (move >>= after) (return minus_one)
            (Keeps-bind Q move after (m_internal_move_r-Agrees scr dev ok h prompt d x y) (λ r'.
              Keeps-if Q (eqb_ℤ r' (pos 0)) store (return minus_one)
                (λ w (px, py, s). (
                  px,
                  py,
                  Agrees-position scr dev ok h prompt (kept_of w.udev) (at_spot px py d)
                      (λ u. set_position x y (record u { mouse_1st_movto = 1 })) w s
                      (refl, refl, refl)
                      (at_place x y (record w.udev { mouse_1st_movto = 1 }) (inr refl) p q),
                ))
                (λ w s. s)))
            (λ w s. s))

  move_from_known-Agrees : (x y : ℤ) → pos 0 ≤ℤ x → pos 0 ≤ℤ y → Keeps Q (move_from_known h x y)
  unfolding move_from_known
  move_from_known-Agrees x y p q w s =
      let dx = x -ℤ w.udev.curr_mouse_abs_pos_x in
      let dy = y -ℤ w.udev.curr_mouse_abs_pos_y in
      let store : Prog ℤ = (do modify (set_position x y); return (pos 0)) in
      let failed : Prog ℤ = (do modify (λ v. record v { mouse_1st_movto = 0 }); return minus_one) in
      Keeps-bind Q (m_internal_move_r h live dx dy) (λ r. if eqb_ℤ r (pos 0) then store else failed)
        (m_internal_move_r-Agrees scr dev ok h prompt d dx dy)
        (λ r.
          Keeps-if Q (eqb_ℤ r (pos 0)) store failed
            (λ w (px, py, s). (
              px,
              py,
              Agrees-position scr dev ok h prompt (kept_of w.udev) (at_spot px py d)
                  (set_position x y) w s (refl, refl, refl) (at_place x y w.udev s.place.flag p q),
            ))
            (λ w (px, py, s). (
              px,
              py,
              Agrees-position scr dev ok h prompt (kept_of w.udev) (at_spot px py d)
                  (λ v. record v { mouse_1st_movto = 0 }) w s (refl, refl, refl)
                  (lost_place (kept_of w.udev) w.udev s.place),
            )))
        w s

  pub m_move_to-Agrees : (x y : ℤ) → Keeps Q (m_move_to h live x y)
  unfolding m_move_to
  m_move_to-Agrees x y =
      let corner = move_from_corner h x y in
      let known = move_from_known h x y in
      let finish : ℤ → Prog ℤ = λ r.
        if eqb_ℤ r (pos 0) then (do modify not_negative; return (pos 0)) else return minus_one in
      let rest : Prog ℤ = (do
        u ← udev
        r ← (if u.mouse_1st_movto == 0 then corner else known)
        finish r) in
      Keeps-guard Q (ltb_ℤ x (pos 0) || ltb_ℤ y (pos 0)) minus_one rest (λ on w s.
        let (p, q) = nonneg_guard x y on in
        Keeps-bind Q (if w.udev.mouse_1st_movto == 0 then corner else known) finish
          (Keeps-if Q (w.udev.mouse_1st_movto == 0) corner known (move_from_corner-Agrees x y p q)
            (move_from_known-Agrees x y p q))
          (λ r.
            Keeps-if Q (eqb_ℤ r (pos 0)) (do modify not_negative; return (pos 0)) (return minus_one)
              (λ w (px, py, s). (
                px,
                py,
                Agrees-position scr dev ok h prompt (kept_of w.udev) (at_spot px py d) not_negative
                    w s (refl, refl, refl) (floor_place (kept_of w.udev) w.udev s.place),
              ))
              (λ w s. s))
          w s)

  pub m_reset_mouse_pos-Agrees : Keeps Q (m_reset_mouse_pos h live)
  unfolding m_reset_mouse_pos
  m_reset_mouse_pos-Agrees w (px, py, s) =
      Keeps-bind Q (m_move_to h live (pos 0) (pos 0)) (λ _. return (pos 0))
        (m_move_to-Agrees (pos 0) (pos 0)) (λ r w s. s)
        (record w { udev = record w.udev { mouse_1st_movto = 0 } })
        (
          px,
          py,
          Agrees-position scr dev ok h prompt (kept_of w.udev) (at_spot px py d)
              (λ u. record u { mouse_1st_movto = 0 }) w s (refl, refl, refl)
              (lost_place (kept_of w.udev) w.udev s.place),
        )

  pub m_resolution_used-Agrees :
      (k : Kept) (x y : ℤ) → Keeps (Agrees scr dev ok k d) (m_resolution_used live x y)
  unfolding m_resolution_used
  m_resolution_used-Agrees k x y =
      let P = Agrees scr dev ok k d in
      let store : Prog ℤ = (do modify (λ u. record u { cx = x; cy = y }); return (pos 0)) in
      Keeps-return_if P (ltb_ℤ x (pos 0) || ltb_ℤ y (pos 0)) minus_one
        (return_if (leb_ℤ x (pos 0) || leb_ℤ y (pos 0)) (negsuc 1) store)
        (Keeps-return_if P (leb_ℤ x (pos 0) || leb_ℤ y (pos 0)) (negsuc 1) store (λ w s.
          let w' : World = record w { udev = record w.udev { cx = x; cy = y } } in
          Holds-same scr dev ok k k still d d w w' s refl refl refl refl (record {
            kept = s.place.kept;
            flag = s.place.flag;
            x_nonneg = s.place.x_nonneg;
            y_nonneg = s.place.y_nonneg;
          })))

  pub m_internal_move_to3-Agrees :
      (x y : ℤ) → pos 0 ≤ℤ x → pos 0 ≤ℤ y → Keeps Q (m_internal_move_to3 h live x y)
  m_internal_move_to3-Agrees x y p q w (px, py, s) =
      elim (Bool-cases (eqb_ℤ w.udev.cx (pos 0) || eqb_ℤ w.udev.cy (pos 0))) [
        | inl e ↦ unfold m_internal_move_to3 in rw e tt
        | inr e ↦
            let (wide, tall) = neither_zero (eqb_ℤ w.udev.cx (pos 0)) (eqb_ℤ w.udev.cy (pos 0)) e in
            let d1 : Down = at_spot px py d in
            let d2 : Down = place scr (absolute_command w.udev.cx w.udev.cy x y) d1 in
            Ensures-mono _ _ (m_internal_move_to3 h live x y w)
              (Returns-Ensures _ (m_internal_move_to3 h live x y w) (
                m_internal_move_to3-sent h prompt dev s.reports ok x y w s.device wide tall
                  s.on_wire))
              (λ r w' (sent, told). (
                d2.spot_x,
                d2.spot_y,
                place_reported scr dev ok h prompt d1 x y r w w' p q s sent told,
              ))
      ]
