-- ===== src/Move/Target.antt =====
-- `M_MoveTo`, `M_ResetMousePos` and `M_GetCurrMousePos` at a device that answers at once.
use msdk_linux.Base.{
  ℕ, ℤ, pos, ◌≡◌, ◌+◌, ◌⊎◌, arith, ◌==◌, refl, false, minus_one, some, Bool, none, List, inl, inr,
  ltb_ℤ, if◌then◌else◌, le→ltb, ◌||◌,
}
use msdk_linux.Machine.{Host, World, live, Device, done, ◌>>=◌}
use msdk_linux.Move.{
  m_get_curr_mouse_pos, m_move_to, move_from_known, or_zero, not_negative, move_from_corner,
}
use msdk_linux.Mouse.Calls.{MouseState}
use msdk_linux.Machine.Ends.{Returns, Returns-done}

-- The position is known to be (a, b), as `M_GetCurrMousePos` tells it; or it is not known.
abbrev pub IsAt : ℕ → ℕ → World → Type 0
IsAt a b w = m_get_curr_mouse_pos live w ≡ done (pos 0, some (pos a, pos b)) w

abbrev pub IsLost : World → Type 0
IsLost w = m_get_curr_mouse_pos live w ≡ done (minus_one, none) w

pub lost : (w : World) → w.udev.mouse_1st_movto ≡ 0 → IsLost w
unfolding m_get_curr_mouse_pos
lost w e = rw e refl

-- The movement went through and the position is stored.
pub record Landed (dev : Device) (buttons : ℕ) (css : List (List ℕ)) (ok : Bool) (a b : ℕ)
    (w : World) : Type 0 where
  pub state : MouseState dev buttons css ok w
  pub flag : (w.udev.mouse_1st_movto == 0) ≡ false
  pub at_x : w.udev.curr_mouse_abs_pos_x ≡ pos a
  pub at_y : w.udev.curr_mouse_abs_pos_y ≡ pos b

not_below_zero : (a b : ℕ) → (ltb_ℤ (pos a) (pos 0) || ltb_ℤ (pos b) (pos 0)) ≡ false
not_below_zero a b = ground arith

or_zero_pos : (x : ℤ) (a : ℕ) → x ≡ pos a → or_zero x ≡ pos a
or_zero_pos x a e = rw e (rw (le→ltb (a + 0) 0 (omega arith)) refl)

module _ (h : Host) (dev : Device) (buttons : ℕ) (ok : Bool) (a b : ℕ)
    (Extra : List (List ℕ) → Type 0) where
  abbrev pub Through : ℤ → World → Type 0
  Through r w' =
      ((r ≡ pos 0) × ((css : List (List ℕ)) × Landed dev buttons css ok a b w' × Extra css))
      ⊎ ((r ≡ minus_one) × (w'.udev.mouse_1st_movto ≡ 0))

  abbrev pub Ends : ℤ → World → Type 0
  Ends r w' =
      ((r ≡ pos 0)
        × IsAt a b w'
        × ((css : List (List ℕ)) × MouseState dev buttons css ok w' × Extra css))
      ⊎ ((r ≡ minus_one) × IsLost w')

  Landed-IsAt :
      (css : List (List ℕ)) (w : World)
      → Landed dev buttons css ok a b w
      → IsAt a b (record w { udev = not_negative w.udev })
  unfolding m_get_curr_mouse_pos
  Landed-IsAt css w l = rw l.flag (
      rw (or_zero_pos w.udev.curr_mouse_abs_pos_x a l.at_x)
        (rw (or_zero_pos w.udev.curr_mouse_abs_pos_y b l.at_y)))

  pub m_move_to-Ends :
      (w : World)
      → Returns
          ((if w.udev.mouse_1st_movto == 0
              then move_from_corner h (pos a) (pos b)
              else move_from_known h (pos a) (pos b))
            w)
          Through
      → Returns (m_move_to h live (pos a) (pos b) w) Ends
  unfolding m_move_to
  m_move_to-Ends w through =
      let (r, w', e, t) = Returns-done Through _ through in
      rw (not_below_zero a b) (
        rw (e, ◌>>=◌)
          (elim t [
            | inl p ↦ rw p.0 (
                let (css, l, x) = p.1 in
                inl (
                  refl,
                  Landed-IsAt css w' l,
                  (
                    css,
                    record {
                      device = l.state.device;
                      first = l.state.first;
                      op = l.state.op;
                      on_wire = l.state.on_wire;
                    },
                    x,
                  ),
                ))
            | inr p ↦ rw p.0 (inr (refl, lost w' p.1))
          ]))
