-- ===== src/Move/Position.antt =====
-- `M_MoveTo` from the corner and from a known position, `M_ResetMousePos`.
use msdk_linux.Move.Round.{IsMoves, Goes}
use msdk_linux.Base.{
  ℕ, ℤ, pos, ◌≡◌, ◌≤◌, ◌<◌, abs, ◌-ℤ◌, arith, List, ◌++◌, negsuc, ap, Bool, ◌∙◌, ◌==◌, ◌*◌, false,
  inl, inr, refl, ◌<ℤ◌, true, ◌⊎◌, minus_one, ltb_ℤ, ◌||◌,
}
use msdk_linux.Machine.{Host, World, Device, IsPrompt, live, ◌>>=◌, done}
use msdk_linux.Move.{
  track, move_from_known, move_from_corner, m_move_to, m_internal_move_r, m_reset_mouse_pos,
}
use msdk_linux.Mouse.Calls.{MouseState}
use msdk_linux.Move.To.{track_keeps, HasMoved, m_internal_move_r-HasMoved}
use msdk_linux.Machine.Ends.{Returns, Returns-done}
use msdk_linux.Move.Target.{Through, Ends, m_move_to-Ends, IsAt, IsLost}

-- Reports that bring the mouse by (x, y), none of them back.
abbrev pub Brings : ℕ → List (List ℕ) → ℤ → ℤ → Type 0
Brings buttons reports x y = IsMoves buttons reports × Goes 2 reports x × Goes 3 reports y

-- The commands are `cs` and after them one movement.
abbrev pub ByOne : ℕ → List (List ℕ) → ℤ → ℤ → List (List ℕ) → Type 0
ByOne buttons cs x y css =
    (reports : List (List ℕ)) × (css ≡ reports ++ cs) × Brings buttons reports x y

-- The commands are `cs`, a movement into the corner, and one from there.
abbrev pub ByTwo : ℕ → List (List ℕ) → ℤ → ℤ → List (List ℕ) → Type 0
ByTwo buttons cs x y css =
    (corner : List (List ℕ)) × Brings buttons corner (negsuc 2999) (negsuc 2999)
    × ByOne buttons (corner ++ cs) x y css

flag_after :
    (w w' : World) (x y : ℤ)
    → w'.udev ≡ record (track x y w.udev) { curr_mouse_op = w'.udev.curr_mouse_op }
    → w'.udev.mouse_1st_movto ≡ w.udev.mouse_1st_movto
flag_after w w' x y e = ap (λ u. u.mouse_1st_movto) e ∙ (track_keeps x y w.udev).2

module _ (h : Host) (dev : Device) (buttons : ℕ) (ok : Bool) (n a b : ℕ) (cs : List (List ℕ))
    (w : World) (prompt : IsPrompt h) (enough : n < h.patience)
    (s : MouseState dev buttons cs ok w) where
  from_known-Through :
      (w.udev.mouse_1st_movto == 0) ≡ false
      → abs (pos a -ℤ w.udev.curr_mouse_abs_pos_x) ≤ 100 * n
      → abs (pos b -ℤ w.udev.curr_mouse_abs_pos_y) ≤ 100 * n
      → Returns (move_from_known h (pos a) (pos b) w) (
          Through h dev buttons ok a b (
            ByOne buttons cs
              (pos a -ℤ w.udev.curr_mouse_abs_pos_x)
              (pos b -ℤ w.udev.curr_mouse_abs_pos_y)))
  unfolding move_from_known
  from_known-Through known far_x far_y =
      let dx = pos a -ℤ w.udev.curr_mouse_abs_pos_x in
      let dy = pos b -ℤ w.udev.curr_mouse_abs_pos_y in
      let (r, w', e, t) =
        Returns-done (HasMoved h prompt dev buttons ok cs dx dy w)
          (m_internal_move_r h live dx dy w)
          (m_internal_move_r-HasMoved h prompt dev buttons ok n cs dx dy w enough far_x far_y s) in
      rw (e, ◌>>=◌)
        (elim t [
          | inl p ↦ rw p.0 (
              let (reports, (moves, m), mx, my, only) = p.1 in
              inl (
                refl,
                (
                  reports ++ cs,
                  record {
                    state = record {
                      device = m.device;
                      first = m.first;
                      op = m.op;
                      on_wire = m.on_wire;
                    };
                    flag = rw (flag_after w w' dx dy only) known;
                    at_x = refl;
                    at_y = refl;
                  },
                  (reports, refl, (moves, mx, my)),
                ),
              ))
          | inr p ↦ rw p.0 (inr (refl, refl))
        ])

  -- From a known position, at a device that answers at once and within the patience, M_MoveTo
  -- returns 0 with reports whose signed steps add up to the distance from it, none of them going
  -- back, and M_GetCurrMousePos then tells the target; or it returns -1 and M_GetCurrMousePos
  -- fails.
  pub m_move_to-known :
      (w.udev.mouse_1st_movto == 0) ≡ false
      → abs (pos a -ℤ w.udev.curr_mouse_abs_pos_x) ≤ 100 * n
      → abs (pos b -ℤ w.udev.curr_mouse_abs_pos_y) ≤ 100 * n
      → Returns (m_move_to h live (pos a) (pos b) w) (
          Ends h dev buttons ok a b (
            ByOne buttons cs
              (pos a -ℤ w.udev.curr_mouse_abs_pos_x)
              (pos b -ℤ w.udev.curr_mouse_abs_pos_y)))
  m_move_to-known known far_x far_y =
      m_move_to-Ends h dev buttons ok a b
        (ByOne buttons cs (pos a -ℤ w.udev.curr_mouse_abs_pos_x)
          (pos b -ℤ w.udev.curr_mouse_abs_pos_y))
        w (rw known (from_known-Through known far_x far_y))

  from_corner-Through :
      30 ≤ n
      → a ≤ 100 * n
      → b ≤ 100 * n
      → Returns
          (move_from_corner h (pos a) (pos b) w)
          (Through h dev buttons ok a b (ByTwo buttons cs (pos a) (pos b)))
  unfolding move_from_corner
  from_corner-Through corner far_x far_y =
      let c = negsuc 2999 in
      let (r, w', e, t) =
        Returns-done (HasMoved h prompt dev buttons ok cs c c w) (m_internal_move_r h live c c w) (
          m_internal_move_r-HasMoved h prompt dev buttons ok n cs c c w enough (omega arith)
            (omega arith) s) in
      rw (e, ◌>>=◌)
        (elim t [
          | inl p ↦ rw p.0 (
              let (first, (moves, m), mx, my, only) = p.1 in
              let (r', w'', e', t') =
                Returns-done (HasMoved h prompt dev buttons ok (first ++ cs) (pos a) (pos b) w')
                  (m_internal_move_r h live (pos a) (pos b) w')
                  (m_internal_move_r-HasMoved h prompt dev buttons ok n (first ++ cs) (pos a)
                    (pos b) w' enough (omega arith) (omega arith) m) in
              rw (e', ◌>>=◌)
                (elim t' [
                  | inl q ↦ rw q.0 (
                      let (reports, (moves', m'), mx', my', only') = q.1 in
                      inl (
                        refl,
                        (
                          reports ++ (first ++ cs),
                          record {
                            state = record {
                              device = m'.device;
                              first = m'.first;
                              op = m'.op;
                              on_wire = m'.on_wire;
                            };
                            flag = refl;
                            at_x = refl;
                            at_y = refl;
                          },
                          (first, (moves, mx, my), (reports, refl, (moves', mx', my'))),
                        ),
                      ))
                  | inr q ↦ rw q.0 (inr (refl, q.1.2))
                ]))
          | inr p ↦ rw p.0 (inr (refl, p.1.2))
        ])

  -- From an unknown position, at a device that answers at once and with patience for more than 30
  -- rounds and for the target, M_MoveTo returns: it moves by -3000 in both axes and then by the
  -- target, each as a sum of reports of which none goes back, and after the result 0
  -- M_GetCurrMousePos tells the target; after -1 it fails.
  pub m_move_to-first :
      (w.udev.mouse_1st_movto == 0) ≡ true
      → 30 ≤ n
      → a ≤ 100 * n
      → b ≤ 100 * n
      → Returns
          (m_move_to h live (pos a) (pos b) w)
          (Ends h dev buttons ok a b (ByTwo buttons cs (pos a) (pos b)))
  m_move_to-first unknown corner far_x far_y =
      m_move_to-Ends h dev buttons ok a b (ByTwo buttons cs (pos a) (pos b)) w
        (rw unknown (from_corner-Through corner far_x far_y))

off_screen : (x y : ℤ) → (x <ℤ pos 0) ⊎ (y <ℤ pos 0) → (ltb_ℤ x (pos 0) || ltb_ℤ y (pos 0)) ≡ true
off_screen x y off = ground arith

-- M_MoveTo answers a coordinate below 0 with -1, before anything is changed or sent.
pub m_move_to_refuses :
    (h : Host) (x y : ℤ) (w : World)
    → (x <ℤ pos 0) ⊎ (y <ℤ pos 0)
    → m_move_to h live x y w ≡ done minus_one w
unfolding m_move_to
m_move_to_refuses h x y w off = rw (off_screen x y off) refl

-- At a device that answers at once M_ResetMousePos returns 0 whether the movement went through or
-- not: then the position is (0, 0), or M_GetCurrMousePos fails.
pub m_reset_mouse_pos-Ends :
    (h : Host) (dev : Device) (buttons : ℕ) (ok : Bool) (cs : List (List ℕ)) (w : World)
    → IsPrompt h
    → 30 < h.patience
    → MouseState dev buttons cs ok w
    → Returns (m_reset_mouse_pos h live w) (λ r w'. (r ≡ pos 0) × (IsAt 0 0 w' ⊎ IsLost w'))
unfolding m_reset_mouse_pos
m_reset_mouse_pos-Ends h dev buttons ok cs w prompt enough s =
    let w1 : World = record w { udev = record w.udev { mouse_1st_movto = 0 } } in
    let s1 : MouseState dev buttons cs ok w1 = record {
      device = s.device;
      first = s.first;
      op = s.op;
      on_wire = s.on_wire;
    } in
    let ends = Ends h dev buttons ok 0 0 (ByTwo buttons cs (pos 0) (pos 0)) in
    let (r, w', e, t) = Returns-done ends (m_move_to h live (pos 0) (pos 0) w1) (
      m_move_to-first h dev buttons ok 30 0 0 cs w1 prompt enough s1 refl (omega arith)
        (omega arith) (omega arith)) in
    rw (e, ◌>>=◌) (elim t [ inl p ↦ (refl, inl p.1) | inr p ↦ (refl, inr p.1) ])
