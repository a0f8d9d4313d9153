-- ===== src/Api/Reach.antt =====
-- `M_MoveTo3` in any state that the calls lead to.
use msdk_linux.Base.{
  ℕ, ℤ, Option, ◌≡◌, some, ◌≢◌, pos, Bool, minus_one, ap, negsuc, refl, sym, none, ◌∙◌, ◌<ℤ◌, abs,
  ◌-ℤ◌, ◌≤◌, ◌*◌, ◌<◌, ◌⊎◌, inl, inr, arith, neg_part,
}
use msdk_linux.Move.{m_get_curr_mouse_pos}
use msdk_linux.Machine.{World, Host, Outcome, live, Device, done, undefined, IsPrompt, waiting}
use msdk_linux.Curve.{Floats, m_move_to3}
use msdk_linux.Move.Target.{IsLost, IsAt}
use msdk_linux.Api.Box.{Down, Screen}
use msdk_linux.Curve.Draw.{IsInt}
use msdk_linux.Api.Agrees.{Stands}
use msdk_linux.Machine.Ends.{Returns, Returns-mono, Returns-both}
use msdk_linux.Api.Curves.{m_move_to3-Agrees}
use msdk_linux.Curve.Direct.{m_move_to3-first}
use msdk_linux.Curve.FromKnown.{m_move_to3-Arrived}
use msdk_linux.Api.Axes.{Somewhere}

pub m_move_to3-Returns :
    (h : Host) (fl : Floats) (scr : Screen) (dev : Device) (ok : Bool) (d : Down) (x y n : ℕ)
    (w : World)
    → (prompt : IsPrompt h) → IsInt fl
    → Stands scr dev ok d w
    → pos x <ℤ w.udev.cx
    → pos y <ℤ w.udev.cy
    → (w.udev.mouse_1st_movto ≡ 1 → abs (pos x -ℤ w.udev.curr_mouse_abs_pos_x) ≤ 50 * n)
    → (w.udev.mouse_1st_movto ≡ 1 → abs (pos y -ℤ w.udev.curr_mouse_abs_pos_y) ≤ 50 * n)
    → n < h.patience
    → Returns (m_move_to3 h fl live (pos x) (pos y) w) (λ r w'.
      (((r ≡ pos 0) × IsAt x y w') ⊎ (r ≡ minus_one)) × Somewhere scr dev ok h prompt d w')
m_move_to3-Returns h fl scr dev ok d x y n w prompt int s in_x in_y far_x far_y lt =
    let keeps =
      m_move_to3-Agrees scr dev ok h prompt d fl (pos x) (pos y) w (d.spot_x, d.spot_y, s) in
    let move = m_move_to3 h fl live (pos x) (pos y) w in
    elim s.place.flag [
      | inl unknown ↦
          Returns-mono _ _ move
            (Returns-both _ _ move
              (m_move_to3-first h fl dev s.reports ok x y w prompt s.device s.on_wire
                (rw unknown refl) in_x in_y)
              keeps)
            (λ r w' t. (elim t.0.1 [ inl p ↦ inl p | inr p ↦ inr p.0 ], t.1))
      | inr known ↦
          Returns-mono _ _ move
            (Returns-both _ _ move
              (m_move_to3-Arrived h fl dev s.reports ok x y n w prompt int s.device s.on_wire known
                s.place.x_nonneg s.place.y_nonneg in_x in_y (far_x known) (far_y known) lt)
              keeps)
            (λ r w' t. (elim t.0.2 [ inl p ↦ inl (p.0, p.1) | inr m ↦ inr m ], t.1))
    ]

-- What M_GetCurrMousePos tells, read from the record.
told_place : Outcome (ℤ × Option (ℤ × ℤ)) → ℤ × ℤ
told_place (done (r, some p) w) = p
told_place (done (r, none) w) = (negsuc 0, negsuc 0)
told_place undefined = (negsuc 0, negsuc 0)
told_place waiting = (negsuc 0, negsuc 0)

told_result : Outcome (ℤ × Option (ℤ × ℤ)) → ℤ
told_result (done (r, p) w) = r
told_result undefined = negsuc 1
told_result waiting = negsuc 1

told-known :
    (w : World)
    → w.udev.mouse_1st_movto ≡ 1
    → m_get_curr_mouse_pos live w
      ≡ done (pos 0, some (w.udev.curr_mouse_abs_pos_x, w.udev.curr_mouse_abs_pos_y)) w
unfolding m_get_curr_mouse_pos
told-known w e = rw e refl

pub known-IsAt :
    (a b : ℕ) (w : World)
    → w.udev.mouse_1st_movto ≡ 1
    → w.udev.curr_mouse_abs_pos_x ≡ pos a
    → w.udev.curr_mouse_abs_pos_y ≡ pos b
    → IsAt a b w
known-IsAt a b w known x y =
    told-known w known
    ∙ ap (λ p. done (pos 0, some (p, w.udev.curr_mouse_abs_pos_y)) w) x
    ∙ ap (λ q. done (pos 0, some (pos a, q)) w) y

pub place-IsAt :
    (a b : ℕ) (w : World)
    → IsAt a b w
    → w.udev.mouse_1st_movto ≡ 1
    → (w.udev.curr_mouse_abs_pos_x ≡ pos a) × (w.udev.curr_mouse_abs_pos_y ≡ pos b)
unfolding told_place
place-IsAt a b w at known =
    let e = ap told_place (sym (told-known w known) ∙ at) in (ap (λ p. p.0) e, ap (λ p. p.1) e)

pub not_known-IsLost : (w : World) → IsLost w → w.udev.mouse_1st_movto ≢ 1
unfolding told_result
not_known-IsLost w lost known =
    let e : pos 0 ≡ minus_one = ap told_result (sym (told-known w known) ∙ lost) in
    absurd (omega (arith, ap neg_part e))
