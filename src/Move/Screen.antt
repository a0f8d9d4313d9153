-- ===== src/Move/Screen.antt =====
-- `M_MoveTo` and the pointer of the other system, on a screen that the pointer cannot leave.
use msdk_linux.Move.Follows.{Follows}
use mathlib.Core.Path.{subst₂, ap}
use mathlib.Core.List.{append_assoc}
use msdk_linux.Base.{
  ℕ, ℤ, pos, ◌≤◌, ◌+ℤ◌, abs, ◌-ℤ◌, ◌≡◌, Bool, int_laws, arith, List, -ℤ_parts, one_part, ◌<◌, ◌++◌,
  inl, ◌∙◌, inr, sym, ◌*◌, ap, refl,
}
use msdk_linux.Machine.{World, Host, Device, IsPrompt, live}
use msdk_linux.Mouse.Calls.{MouseState}
use msdk_linux.Move.Position.{ByTwo, ByOne, m_move_to-first, m_move_to-known}
use msdk_linux.Machine.Ends.{Returns, Returns-mono}
use msdk_linux.Move.Target.{Ends}
use msdk_linux.Move.Pointer.{pointer-reaches, pointer-corner, pointer, pointer-append}
use msdk_linux.Move.{m_move_to}
use msdk_linux.Move.Round.{IsMoves, IsMoves-append}

near : (a p : ℕ) → a ≤ 3000 → p ≤ 3000 → abs (pos a -ℤ pos p) ≤ 3000
near a p small small' = omega (arith, -ℤ_parts (pos a) (pos p), one_part (pos a -ℤ pos p))

sum_back : (a p : ℕ) → pos p +ℤ (pos a -ℤ pos p) ≡ pos a
sum_back a p = omega int_laws

zero_sum : (a : ℕ) → pos 0 +ℤ pos a ≡ pos a
zero_sum a = omega int_laws

module _ (h : Host) (dev : Device) (buttons : ℕ) (ok : Bool) (n a b : ℕ) (cs : List (List ℕ))
    (w : World) (prompt : IsPrompt h) (enough : n < h.patience) (rounds : 30 ≤ n)
    (s : MouseState dev buttons cs ok w) (last_x last_y p q : ℕ) (small_x : last_x ≤ 3000)
    (small_y : last_y ≤ 3000) (on_x : p ≤ last_x) (on_y : q ≤ last_y) (to_x : a ≤ last_x)
    (to_y : b ≤ last_y) where
  -- The reports since the start only move the mouse, and have taken the pointer from (p, q) to (a, b).
  abbrev pub Points : List (List ℕ) → Type 0
  Points css =
      (reports : List (List ℕ)) × (css ≡ reports ++ cs)
      × IsMoves buttons reports
      × (pointer last_x 2 reports p ≡ a)
      × (pointer last_y 3 reports q ≡ b)

  ByOne-Points :
      (css : List (List ℕ)) → ByOne buttons cs (pos a -ℤ pos p) (pos b -ℤ pos q) css → Points css
  ByOne-Points css (reports, e, (moves, gx, gy)) = (
    reports,
    e,
    moves,
    pointer-reaches last_x 2 p a (pos a -ℤ pos p) reports on_x to_x (sum_back a p) gx,
    pointer-reaches last_y 3 q b (pos b -ℤ pos q) reports on_y to_y (sum_back b q) gy,
  )

  ByTwo-Points : (css : List (List ℕ)) → ByTwo buttons cs (pos a) (pos b) css → Points css
  ByTwo-Points css (corner, (moves, cx, cy), (reports, e, (moves', gx, gy))) =
      let at_x = pointer-corner last_x 2 p corner on_x small_x cx in
      let at_y = pointer-corner last_y 3 q corner on_y small_y cy in
      (
        reports ++ corner,
        e ∙ sym (append_assoc reports corner cs),
        IsMoves-append buttons reports corner moves' moves,
        pointer-append last_x 2 reports corner p
            ∙ ap (pointer last_x 2 reports) at_x
            ∙ pointer-reaches last_x 2 0 a (pos a) reports (omega arith) to_x (zero_sum a) gx,
        pointer-append last_y 3 reports corner q
            ∙ ap (pointer last_y 3 reports) at_y
            ∙ pointer-reaches last_y 3 0 b (pos b) reports (omega arith) to_y (zero_sum b) gy,
      )

  Ends-mono :
      (E : List (List ℕ) → Type 0) (r : ℤ) (w' : World)
      → ((css : List (List ℕ)) → E css → Points css)
      → Ends h dev buttons ok a b E r w'
      → Ends h dev buttons ok a b Points r w'
  Ends-mono E r w' f (inl (z, there, (css, st, e))) = inl (z, there, (css, st, f css e))
  Ends-mono E r w' f (inr lost) = inr lost

  -- On a screen of at most 3001 by 3001 pixels whose edges hold the pointer, with a position that
  -- is unknown or the place of the pointer, at a device that answers at once and with patience for
  -- more than 30 rounds, M_MoveTo to a pixel of the screen returns: after 0 its reports, which
  -- change no button and do not turn the wheel, have taken the pointer to that pixel, wherever it
  -- was, and M_GetCurrMousePos tells it; after -1 M_GetCurrMousePos fails.
  pub m_move_to-Points :
      Follows p q w
      → Returns (m_move_to h live (pos a) (pos b) w) (Ends h dev buttons ok a b Points)
  m_move_to-Points (inl unknown) =
      Returns-mono _ _ (m_move_to h live (pos a) (pos b) w)
        (m_move_to-first h dev buttons ok n a b cs w prompt enough s (rw unknown refl) rounds
          (omega arith) (omega arith))
        (λ r w' t. Ends-mono (ByTwo buttons cs (pos a) (pos b)) r w' ByTwo-Points t)
  m_move_to-Points (inr (known, at_x, at_y)) =
      let near_x = near a p (omega arith) (omega arith) in
      let near_y = near b q (omega arith) (omega arith) in
      let far_x : abs (pos a -ℤ w.udev.curr_mouse_abs_pos_x) ≤ 100 * n = rw at_x (omega arith) in
      let far_y : abs (pos b -ℤ w.udev.curr_mouse_abs_pos_y) ≤ 100 * n = rw at_y (omega arith) in
      let by_x = pos a -ℤ w.udev.curr_mouse_abs_pos_x in
      let by_y = pos b -ℤ w.udev.curr_mouse_abs_pos_y in
      let same : (css : List (List ℕ)) → ByOne buttons cs by_x by_y css → Points css = λ css e.
        ByOne-Points css
          (subst₂ (λ x y. ByOne buttons cs (pos a -ℤ x) (pos b -ℤ y) css) at_x at_y e) in
      Returns-mono _ _ (m_move_to h live (pos a) (pos b) w)
        (m_move_to-known h dev buttons ok n a b cs w prompt enough s (rw known refl) far_x far_y)
        (λ r w' t. Ends-mono (ByOne buttons cs by_x by_y) r w' same t)
