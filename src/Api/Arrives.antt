-- ===== src/Api/Arrives.antt =====
-- `M_MoveTo3` leaves the kept position at the pixel of the pointer, unless it fails.
use msdk_linux.Base.{
  ℕ, ◌≡◌, Bool, ◌<◌, ◌≤◌, abs, ◌⊎◌, ◌*◌, pos, inr, inl, arith, ◌∙◌, ap, sym, refl, ◌-ℤ◌, suc, List,
  minus_one, ◌∷◌, ◌<ℤ◌,
}
use msdk_linux.Api.Box.{Screen, Down, at_spot}
use msdk_linux.Api.Agrees.{Stands}
use msdk_linux.Move.Follows.{Follows}
use msdk_linux.Machine.{Host, Device, World, IsPrompt, live}
use msdk_linux.Api.Spots.{IsExact, placed-spot}
use msdk_linux.Move.Target.{IsAt}
use msdk_linux.Machine.Ends.{Returns, Returns-mono, Returns-both}
use mathlib.Core.Path.{subst, ap, sym}
use msdk_linux.Hid.Wire.{at_rest, handed_over}
use msdk_linux.Curve.{Floats, m_move_to3}
use msdk_linux.Curve.Draw.{IsInt}
use msdk_linux.Absolute.{absolute_command}
use msdk_linux.Api.Curves.{m_move_to3-Agrees}
use msdk_linux.Curve.Direct.{m_move_to3-first}
use msdk_linux.Curve.FromKnown.{m_move_to3-Arrived}
use msdk_linux.Api.Tracks.{Tracked, at_target}

module _ (h : Host) (fl : Floats) (scr : Screen) (dev : Device) (ok : Bool) (n : ℕ)
    (prompt : IsPrompt h) (int : IsInt fl) (enough : n < h.patience) (d : Down) (w : World)
    (s : Stands scr dev ok d w) (follows : Follows d.spot_x d.spot_y w) where
  -- The resolution that is set is the one of the screen.
  abbrev pub IsSized : Type 0
  IsSized = (w.udev.cx ≡ pos (suc scr.last_x)) × (w.udev.cy ≡ pos (suc scr.last_y))

  -- A report for a pixel of the screen was the last one.
  reported :
      (a b : ℕ) (w' : World) (d' : Down) (earlier : List (List ℕ))
      → IsExact scr a b
      → IsSized
      → a ≤ scr.last_x
      → b ≤ scr.last_y
      → (d' ≡ at_spot d'.spot_x d'.spot_y d)
      → Stands scr dev ok d' w'
      → handed_over w'.calls
        ≡ at_rest (absolute_command w.udev.cx w.udev.cy (pos a) (pos b) ∷ earlier) ok
      → IsAt a b w'
      → Tracked scr dev ok d w'
  reported a b w' d' earlier exact (wide, tall) in_x in_y only s' sent at =
      let same =
        ap (λ c. absolute_command c w.udev.cy (pos a) (pos b)) wide
        ∙ ap (λ c. absolute_command (pos (suc scr.last_x)) c (pos a) (pos b)) tall in
      let (ex, ey) =
        placed-spot scr dev ok d d' w w' s s' a b earlier exact in_x in_y
          (sent ∙ ap (λ c. at_rest (c ∷ earlier) ok) same) in
      at_target scr dev ok d a b w' d' only s' (inl (ex, ey, at))

  pub m_move_to3-Tracked :
      (a b : ℕ)
      → IsExact scr a b
      → IsSized
      → a ≤ scr.last_x
      → b ≤ scr.last_y
      → (w.udev.mouse_1st_movto ≡ 1 → abs (pos a -ℤ w.udev.curr_mouse_abs_pos_x) ≤ 50 * n)
      → (w.udev.mouse_1st_movto ≡ 1 → abs (pos b -ℤ w.udev.curr_mouse_abs_pos_y) ≤ 50 * n)
      → Returns
          (m_move_to3 h fl live (pos a) (pos b) w)
          (λ r w'. Tracked scr dev ok d w' ⊎ ((r ≡ minus_one) × (w.udev.mouse_1st_movto ≡ 1)))
  m_move_to3-Tracked a b exact sized in_x in_y far_x far_y =
      let move = m_move_to3 h fl live (pos a) (pos b) w in
      let to_x : pos a <ℤ w.udev.cx = subst (λ c. pos a <ℤ c) (sym sized.0) (omega arith) in
      let to_y : pos b <ℤ w.udev.cy = subst (λ c. pos b <ℤ c) (sym sized.1) (omega arith) in
      let keeps =
        m_move_to3-Agrees scr dev ok h prompt d fl (pos a) (pos b) w (d.spot_x, d.spot_y, s) in
      elim s.place.flag [
        | inl unknown ↦
            Returns-mono _ _ move
              (Returns-both _ _ move
                (m_move_to3-first h fl dev s.reports ok a b w prompt s.device s.on_wire
                  (rw unknown refl) to_x to_y)
                keeps)
              (λ r w' ((sent, told), (px, py, s')). inl (elim told [
                | inl (z, at) ↦
                    reported a b w' (at_spot px py d) s.reports exact sized in_x in_y refl s' sent
                      at
                | inr (m, lost) ↦ at_target scr dev ok d a b w' (at_spot px py d) refl s' (inr lost)
              ]))
        | inr known ↦
            Returns-mono _ _ move
              (Returns-both _ _ move
                (m_move_to3-Arrived h fl dev s.reports ok a b n w prompt int s.device s.on_wire
                  known s.place.x_nonneg s.place.y_nonneg to_x to_y (far_x known) (far_y known)
                  enough)
                keeps)
              (λ r w' ((same, wired, told), (px, py, s')). elim told [
                | inl (z, at, (earlier, sent)) ↦ inl (
                    reported a b w' (at_spot px py d) earlier exact sized in_x in_y refl s' sent at)
                | inr m ↦ inr (m, known)
              ])
      ]
