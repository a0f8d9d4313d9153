-- ===== src/Api/Tracks.antt =====
-- The calls that move the pointer leave the kept position, where it is known, at its pixel.
use msdk_linux.Base.{
  ℕ, ◌≡◌, Bool, ◌<◌, ◌≤◌, ℤ, abs, ◌⊎◌, ◌*◌, pos, inr, ◌+ℤ◌, inl, ◌≤ℤ◌, arith, ◌∙◌, ap, sym, refl,
}
use msdk_linux.Api.Box.{Screen, Down, at_spot}
use msdk_linux.Api.Agrees.{Stands, Agrees-MouseState, kept_of}
use msdk_linux.Move.Follows.{Follows, m_move_r-Follows}
use msdk_linux.Machine.{Host, Device, World, IsPrompt, Udev, live, return}
use msdk_linux.Api.Spots.{IsUsual, Stands-IsOn, moved-spot}
use msdk_linux.Move.Target.{IsAt, IsLost}
use msdk_linux.Machine.Ends.{Returns, Returns-mono, Returns-both, Returns-bind}
use msdk_linux.Move.{m_move_to, m_move_r, m_reset_mouse_pos}
use msdk_linux.Api.Reach.{not_known-IsLost, place-IsAt}
use mathlib.Core.Path.{subst, ap, subst₂, sym}
use msdk_linux.Move.Screen.{m_move_to-Points}
use msdk_linux.Api.Places.{m_move_to-Agrees}
use msdk_linux.Api.Moves.{m_move_r-Agrees}
use msdk_linux.Hid.Wire.{at_rest}
use msdk_linux.Api.Axes.{Agrees-position, lost_place}

-- Only the pointer may have moved, and the kept position has gone with it.
abbrev pub Tracked : Screen → Device → Bool → Down → World → Type 0
Tracked scr dev ok d w =
    (d' : Down) × (d' ≡ at_spot d'.spot_x d'.spot_y d)
    × Stands scr dev ok d' w
    × Follows d'.spot_x d'.spot_y w

module _ (scr : Screen) (dev : Device) (ok : Bool) (d : Down) where
  -- The pointer ended at (a, b), and so did the position; or the position is lost.
  pub at_target :
      (a b : ℕ) (w' : World) (d' : Down)
      → (d' ≡ at_spot d'.spot_x d'.spot_y d)
      → Stands scr dev ok d' w'
      → ((a ≡ d'.spot_x) × (b ≡ d'.spot_y) × IsAt a b w') ⊎ IsLost w'
      → Tracked scr dev ok d w'
  at_target a b w' d' only s' (inr lost) = (
    d',
    only,
    s',
    elim s'.place.flag [
      | inl unknown ↦ inl unknown
      | inr known ↦ absurd (not_known-IsLost w' lost known)
    ],
  )
  at_target a b w' d' only s' (inl (on_x, on_y, at)) = (
    d',
    only,
    s',
    elim s'.place.flag [
      | inl unknown ↦ inl unknown
      | inr known ↦
          let (x, y) = place-IsAt a b w' at known in inr (known, x ∙ ap pos on_x, y ∙ ap pos on_y)
    ],
  )

module _ (h : Host) (scr : Screen) (dev : Device) (ok : Bool) (n : ℕ) (prompt : IsPrompt h)
    (enough : n < h.patience) (rounds : 30 ≤ n) (usual : IsUsual scr) (d : Down) (w : World)
    (s : Stands scr dev ok d w) (follows : Follows d.spot_x d.spot_y w) where
  -- The position is unknown, or this coordinate of it is the pointer's.
  abbrev Coordinate : (Udev → ℤ) → ℕ → Type 0
  Coordinate kept spot =
      (w.udev.mouse_1st_movto ≡ 0) ⊎ ((w.udev.mouse_1st_movto ≡ 1) × (kept w.udev ≡ pos spot))

  within :
      (x : ℤ) (kept : Udev → ℤ) (spot last : ℕ)
      → Coordinate kept spot
      → (w.udev.mouse_1st_movto ≡ 1 → kept w.udev +ℤ x ≤ℤ pos last)
      → w.udev.mouse_1st_movto ≡ 1
      → pos spot +ℤ x ≤ℤ pos last
  within x kept spot last (inl unknown) bound known = absurd (omega (arith, unknown, known))
  within x kept spot last (inr (_, at)) bound known =
      subst (λ a. a +ℤ x ≤ℤ pos last) at (bound known)

  pub m_move_r-Tracked :
      (x y : ℤ)
      → abs x ≤ 100 * n
      → abs y ≤ 100 * n
      → (w.udev.mouse_1st_movto ≡ 1 → w.udev.curr_mouse_abs_pos_x +ℤ x ≤ℤ pos scr.last_x)
      → (w.udev.mouse_1st_movto ≡ 1 → w.udev.curr_mouse_abs_pos_y +ℤ y ≤ℤ pos scr.last_y)
      → Returns (m_move_r h live x y w) (λ r. Tracked scr dev ok d)
  m_move_r-Tracked x y far_x far_y to_x to_y =
      let move = m_move_r h live x y w in
      let (on_x, on_y) = Stands-IsOn scr dev ok d w s in
      let m = Agrees-MouseState scr dev ok (kept_of w.udev) d w s in
      let known_x : Coordinate (λ u. u.curr_mouse_abs_pos_x) d.spot_x = elim follows [
        | inl u ↦ inl u
        | inr k ↦ inr (k.0, k.1)
      ] in
      let known_y : Coordinate (λ u. u.curr_mouse_abs_pos_y) d.spot_y = elim follows [
        | inl u ↦ inl u
        | inr k ↦ inr (k.0, k.2)
      ] in
      Returns-mono _ _ move
        (Returns-both _ _ move
          (m_move_r-Follows h prompt dev d.buttons ok n s.reports x y w enough far_x far_y m
            scr.last_x scr.last_y d.spot_x d.spot_y on_x on_y
            (within x (λ u. u.curr_mouse_abs_pos_x) d.spot_x scr.last_x known_x to_x)
            (within y (λ u. u.curr_mouse_abs_pos_y) d.spot_y scr.last_y known_y to_y) follows)
          (m_move_r-Agrees scr dev ok h prompt d x y w (d.spot_x, d.spot_y, s)))
        (λ r w' (t, (px, py, s')). elim t [
          | inl (z, (reports, moves, sent, there)) ↦
              let d' : Down = at_spot px py d in
              let (ex, ey) = moved-spot scr dev ok d d' w w' s s' d.buttons reports moves sent in
              (d', refl, s', subst₂ (λ p q. Follows p q w') ex ey there)
          | inr (m, lost) ↦ (at_spot px py d, refl, s', inl lost)
        ])

  pub m_move_to-Tracked :
      (a b : ℕ)
      → a ≤ scr.last_x
      → b ≤ scr.last_y
      → Returns (m_move_to h live (pos a) (pos b) w) (λ r. Tracked scr dev ok d)
  m_move_to-Tracked a b in_x in_y =
      let move = m_move_to h live (pos a) (pos b) w in
      let (on_x, on_y) = Stands-IsOn scr dev ok d w s in
      let m = Agrees-MouseState scr dev ok (kept_of w.udev) d w s in
      Returns-mono _ _ move
        (Returns-both _ _ move
          (m_move_to-Points h dev d.buttons ok n a b s.reports w prompt enough rounds m scr.last_x
            scr.last_y d.spot_x d.spot_y usual.narrow usual.low on_x on_y in_x in_y follows)
          (m_move_to-Agrees scr dev ok h prompt d (pos a) (pos b) w (d.spot_x, d.spot_y, s)))
        (λ r w' (t, (px, py, s')).
          let d' : Down = at_spot px py d in
          at_target scr dev ok d a b w' d' refl s' (elim t [
            | inl (z, at, (css, m', (reports, e, moves, to_x, to_y))) ↦
                let (ex, ey) =
                  moved-spot scr dev ok d d' w w' s s' d.buttons reports moves
                    (m'.on_wire ∙ ap (λ c. at_rest c ok) e) in
                inl (sym to_x ∙ ex, sym to_y ∙ ey, at)
            | inr (m', lost) ↦ inr lost
          ]))

module _ (h : Host) (scr : Screen) (dev : Device) (ok : Bool) (n : ℕ) (prompt : IsPrompt h)
    (enough : n < h.patience) (rounds : 30 ≤ n) (usual : IsUsual scr) (d : Down) (w : World)
    (s : Stands scr dev ok d w) where
  pub m_reset_mouse_pos-Tracked : Returns (m_reset_mouse_pos h live w) (λ r. Tracked scr dev ok d)
  unfolding m_reset_mouse_pos
  m_reset_mouse_pos-Tracked =
      let w1 : World = record w { udev = record w.udev { mouse_1st_movto = 0 } } in
      let s1 : Stands scr dev ok d w1 =
        Agrees-position scr dev ok h prompt (kept_of w.udev) d
          (λ u. record u { mouse_1st_movto = 0 }) w s (refl, refl, refl)
          (lost_place (kept_of w.udev) w.udev s.place) in
      Returns-bind (λ r. Tracked scr dev ok d) (λ r. Tracked scr dev ok d)
        (m_move_to h live (pos 0) (pos 0)) (λ _. return (pos 0)) w1
        (m_move_to-Tracked h scr dev ok n prompt enough rounds usual d w1 s1 (inl refl) 0 0
          (omega arith) (omega arith))
        (λ r w' t. t)
