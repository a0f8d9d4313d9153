-- ===== src/Demo/Moves.antt =====
-- The two relative movements of msdk/demo.c.
use msdk_linux.Base.{ℕ, pos, Bool, arith, ◌<◌, List, ◌≡◌, ◌∙◌, inl, ◌++◌, inr, refl, ap}
use msdk_linux.Machine.{World, Host, Device, IsPrompt, live, Udev}
use msdk_linux.Mouse.Calls.{MouseState}
use msdk_linux.Machine.Ends.{Returns, Returns-mono, Returns-both}
use msdk_linux.Move.{m_move_to, m_move_r}
use msdk_linux.Move.To.{track_keeps, m_move_r-HasMoved}
use msdk_linux.Move.Position.{m_move_to-first}
use msdk_linux.Api.Places.{m_move_to-Agrees}
use msdk_linux.Api.Moves.{m_move_r-Agrees}
use msdk_linux.Api.Reach.{place-IsAt, not_known-IsLost}
use msdk_linux.Api.Box.{Screen, nothing_at}
use msdk_linux.Api.Axes.{Somewhere}

-- The position, if it is known, is the target of the first movement.
abbrev pub IsStored : Udev → Type 0
IsStored u =
    u.mouse_1st_movto ≡ 1 → (u.curr_mouse_abs_pos_x ≡ pos 500) × (u.curr_mouse_abs_pos_y ≡ pos 500)

module _ (h : Host) (scr : Screen) (dev : Device) (ok : Bool) (prompt : IsPrompt h)
    (enough : 30 < h.patience) where
  -- The box of the demonstration, with nothing down.
  abbrev pub Q : World → Type 0
  Q w = Somewhere scr dev ok h prompt (nothing_at 0 0) w

  pub first_move :
      (w : World)
      → Q w
      → (cs : List (List ℕ)) → MouseState dev 0 cs ok w
      → w.udev.mouse_1st_movto ≡ 0
      → Returns (m_move_r h live (pos 100) (pos 100) w) (λ r w'.
        ((css : List (List ℕ)) × MouseState dev 0 css ok w') × (w'.udev.mouse_1st_movto ≡ 0) × Q w')
  first_move w s cs m unknown =
      let move = m_move_r h live (pos 100) (pos 100) w in
      let flag = (track_keeps (pos 100) (pos 100) w.udev).2 ∙ unknown in
      Returns-mono _ _ move
        (Returns-both _ _ move
          (m_move_r-HasMoved h prompt dev 0 ok 1 cs (pos 100) (pos 100) w (omega arith)
            (omega arith) (omega arith) m)
          (m_move_r-Agrees scr dev ok h prompt (nothing_at 0 0) (pos 100) (pos 100) w s))
        (λ r w' t. (
          elim t.0 [ inl p ↦ (p.1.0 ++ cs, p.1.1.1) | inr p ↦ (p.1.0 ++ cs, p.1.1.1) ],
          elim t.0 [ inl p ↦ ap (λ u. u.mouse_1st_movto) p.1.4 ∙ flag | inr p ↦ p.1.2 ],
          t.1,
        ))

  pub second_move :
      (w : World)
      → Q w
      → (cs : List (List ℕ)) → MouseState dev 0 cs ok w
      → w.udev.mouse_1st_movto ≡ 0
      → Returns (m_move_to h live (pos 500) (pos 500) w) (λ r w'. IsStored w'.udev × Q w')
  second_move w s cs m unknown =
      let move = m_move_to h live (pos 500) (pos 500) w in
      Returns-mono _ _ move
        (Returns-both _ _ move
          (m_move_to-first h dev 0 ok 30 500 500 cs w prompt enough m (rw unknown refl)
            (omega arith) (omega arith) (omega arith))
          (m_move_to-Agrees scr dev ok h prompt (nothing_at 0 0) (pos 500) (pos 500) w s))
        (λ r w' t. (
          λ known. elim t.0 [
            | inl p ↦ place-IsAt 500 500 w' p.1 known
            | inr p ↦ absurd (not_known-IsLost w' p.1 known)
          ],
          t.1,
        ))
