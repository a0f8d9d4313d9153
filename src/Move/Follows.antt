-- ===== src/Move/Follows.antt =====
-- `M_MoveR` and the pointer of the other system: the kept position stays where the pointer is.
use msdk_linux.Base.{
  ℕ, ℤ, ◌≡◌, ◌⊎◌, pos, pos_part, Bool, ◌+ℤ◌, le→ltb, List, refl, ◌<◌, ◌+◌, abs, arith, negsuc, ◌≤◌,
  ◌*◌, ◌≤ℤ◌, ◌++◌, inl, ap, minus_one, ◌∙◌, inr, sym,
}
use msdk_linux.Move.{or_zero, track, m_move_r}
use msdk_linux.Machine.{Host, World, Udev, IsPrompt, Device, live}
use msdk_linux.Mouse.Calls.{MouseState}
use msdk_linux.Machine.Ends.{Returns, Returns-mono}
use msdk_linux.Hid.Wire.{handed_over, at_rest}
use msdk_linux.Move.Round.{Goes, IsMoves}
use msdk_linux.Move.Pointer.{pointer, pointer-moves}
use msdk_linux.Move.To.{HasMoved, m_move_r-HasMoved, track_keeps}

-- The position is unknown, or it is where the pointer is.
abbrev pub Follows : ℕ → ℕ → World → Type 0
Follows p q w =
    (w.udev.mouse_1st_movto ≡ 0)
    ⊎ ((w.udev.mouse_1st_movto ≡ 1)
        × (w.udev.curr_mouse_abs_pos_x ≡ pos p)
        × (w.udev.curr_mouse_abs_pos_y ≡ pos q))

or_zero-pos_part : (x : ℤ) → or_zero x ≡ pos (pos_part x)
or_zero-pos_part (pos n) = rw (le→ltb (n + 0) 0 (omega arith)) refl
or_zero-pos_part (negsuc n) = ground arith

tracked_place :
    (x y : ℤ) (u : Udev)
    → u.mouse_1st_movto ≡ 1
    → ((track x y u).curr_mouse_abs_pos_x ≡ or_zero (u.curr_mouse_abs_pos_x +ℤ x))
      × ((track x y u).curr_mouse_abs_pos_y ≡ or_zero (u.curr_mouse_abs_pos_y +ℤ y))
tracked_place x y u known = rw known (refl, refl)

module _ (h : Host) (prompt : IsPrompt h) (dev : Device) (buttons : ℕ) (ok : Bool) (n : ℕ)
    (cs : List (List ℕ)) (x y : ℤ) (w : World) (enough : n < h.patience) (far_x : abs x ≤ 100 * n)
    (far_y : abs y ≤ 100 * n) (s : MouseState dev buttons cs ok w) (last_x last_y p q : ℕ)
    (on_x : p ≤ last_x) (on_y : q ≤ last_y)
    (to_x : w.udev.mouse_1st_movto ≡ 1 → pos p +ℤ x ≤ℤ pos last_x)
    (to_y : w.udev.mouse_1st_movto ≡ 1 → pos q +ℤ y ≤ℤ pos last_y) where
  -- The reports that went out have moved the pointer, and the kept position is still where it is.
  abbrev pub StillFollows : ℤ → World → Type 0
  StillFollows r w' =
      ((r ≡ pos 0)
        × ((reports : List (List ℕ)) × IsMoves buttons reports
            × (handed_over w'.calls ≡ at_rest (reports ++ cs) ok)
            × Follows (pointer last_x 2 reports p) (pointer last_y 3 reports q) w'))
      ⊎ ((r ≡ minus_one) × (w'.udev.mouse_1st_movto ≡ 0))

  moved-Follows :
      (reports : List (List ℕ)) (w' : World)
      → Follows p q w
      → Goes 2 reports x
      → Goes 3 reports y
      → w'.udev ≡ record (track x y w.udev) { curr_mouse_op = w'.udev.curr_mouse_op }
      → Follows (pointer last_x 2 reports p) (pointer last_y 3 reports q) w'
  moved-Follows reports w' (inl unknown) gx gy only =
      inl (ap (λ u. u.mouse_1st_movto) only ∙ (track_keeps x y w.udev).2 ∙ unknown)
  moved-Follows reports w' (inr (known, at_x, at_y)) gx gy only =
      let (kept_x, kept_y) = tracked_place x y w.udev known in
      let px = pointer-moves last_x 2 p x reports on_x (to_x known) gx in
      let py = pointer-moves last_y 3 q y reports on_y (to_y known) gy in
      inr (
        ap (λ u. u.mouse_1st_movto) only ∙ (track_keeps x y w.udev).2 ∙ known,
        ap (λ u. u.curr_mouse_abs_pos_x) only
            ∙ kept_x
            ∙ ap (λ a. or_zero (a +ℤ x)) at_x
            ∙ or_zero-pos_part (pos p +ℤ x)
            ∙ ap pos (sym px),
        ap (λ u. u.curr_mouse_abs_pos_y) only
            ∙ kept_y
            ∙ ap (λ a. or_zero (a +ℤ y)) at_y
            ∙ or_zero-pos_part (pos q +ℤ y)
            ∙ ap pos (sym py),
      )

  -- On a screen whose edges hold the pointer, with a position that is unknown or the place of the
  -- pointer, for a movement that from a known position does not go past the right or the bottom
  -- edge, at a device that answers at once and within the patience, M_MoveR returns: after 0 the
  -- kept position, if it is known, is where its reports, which change no button, have taken the
  -- pointer, at the left and the top edge too; after -1 it is unknown.
  pub m_move_r-Follows : Follows p q w → Returns (m_move_r h live x y w) StillFollows
  m_move_r-Follows follows =
      Returns-mono (HasMoved h prompt dev buttons ok cs x y w) StillFollows (m_move_r h live x y w)
        (m_move_r-HasMoved h prompt dev buttons ok n cs x y w enough far_x far_y s)
        (λ r w' t. elim t [
          | inl (z, (reports, (moves, m), gx, gy, only)) ↦
              inl (z, (reports, moves, m.on_wire, moved-Follows reports w' follows gx gy only))
          | inr (m, (reports, reported, lost)) ↦ inr (m, lost)
        ])
