-- ===== src/Curve/Direct.antt =====
-- `M_MoveTo3` where it goes to its target in one report.
use msdk_linux.Base.{
  ℕ, List, ℤ, Bool, ◌<ℤ◌, ◌≤ℤ◌, ◌≡◌, pos, false, leb_ℤ, ltb_ℤ, eqb_ℤ, ◌⊎◌, ◌||◌, arith, true, refl,
  some, minus_one, ◌==◌, ◌∷◌, inl, inr, ap, ◌∙◌, ==_iff,
}
use msdk_linux.Curve.{m_move_to3, Floats}
use msdk_linux.Move.{m_get_curr_mouse_pos, set_position}
use msdk_linux.Machine.{Udev, Host, World, live, Device, IsPrompt}
use msdk_linux.Move.Target.{IsAt, IsLost, lost}
use msdk_linux.Hid.Wire.{handed_over, at_rest}
use msdk_linux.Machine.Ends.{Returns, Returns-mono}
use msdk_linux.Absolute.{absolute_command, m_internal_move_to3}
use msdk_linux.Absolute.Placed.{m_internal_move_to3-sent}

pub not_below_zero :
    (x y : ℤ) → pos 0 ≤ℤ x → pos 0 ≤ℤ y → (ltb_ℤ x (pos 0) || ltb_ℤ y (pos 0)) ≡ false
not_below_zero x y p q = ground arith

pub sized :
    (cx cy : ℤ)
    → pos 0 <ℤ cx
    → pos 0 <ℤ cy
    → (eqb_ℤ cx (pos 0) ≡ false) × (eqb_ℤ cy (pos 0) ≡ false)
sized cx cy p q = (ground arith, ground arith)

pub neither : (p q : Bool) → p ≡ false → q ≡ false → (p || q) ≡ false
neither p q a b = rw (a, b) refl

pub on_screen_both : (cx cy x y : ℤ) → x <ℤ cx → y <ℤ cy → (leb_ℤ cx x || leb_ℤ cy y) ≡ false
on_screen_both cx cy x y p q = ground arith

pub set_position-IsAt :
    (a b : ℕ) (u : Udev) (w : World)
    → w.udev ≡ set_position (pos a) (pos b) (record u { mouse_1st_movto = 1 })
    → IsAt a b w
unfolding m_get_curr_mouse_pos
set_position-IsAt a b u w e = rw e refl

-- From an unknown position, with a target on the screen of the resolution that is set, at a device
-- that answers at once, M_MoveTo3 returns after one command, the report for the target; after 0
-- M_GetCurrMousePos tells the target, and after -1 it fails.
pub m_move_to3-first :
    (h : Host) (fl : Floats) (dev : Device) (cs : List (List ℕ)) (ok : Bool) (a b : ℕ) (w : World)
    → IsPrompt h
    → w.udev.h_dev ≡ some dev
    → handed_over w.calls ≡ at_rest cs ok
    → (w.udev.mouse_1st_movto == 0) ≡ true
    → pos a <ℤ w.udev.cx
    → pos b <ℤ w.udev.cy
    → Returns (m_move_to3 h fl live (pos a) (pos b) w) (λ r w'.
      (handed_over w'.calls
        ≡ at_rest (absolute_command w.udev.cx w.udev.cy (pos a) (pos b) ∷ cs) ok)
      × (((r ≡ pos 0) × IsAt a b w') ⊎ ((r ≡ minus_one) × IsLost w')))
unfolding m_move_to3
m_move_to3-first h fl dev cs ok a b w prompt is_open rest unknown in_x in_y =
    let (wide, tall) = sized w.udev.cx w.udev.cy (omega arith) (omega arith) in
    rw
      (
        not_below_zero (pos a) (pos b) (omega arith) (omega arith),
        neither (eqb_ℤ w.udev.cx (pos 0)) (eqb_ℤ w.udev.cy (pos 0)) wide tall,
        on_screen_both w.udev.cx w.udev.cy (pos a) (pos b) in_x in_y,
        unknown,
      )
      (Returns-mono _ _ (m_internal_move_to3 h live (pos a) (pos b) w)
        (m_internal_move_to3-sent h prompt dev cs ok (pos a) (pos b) w is_open wide tall rest)
        (λ r w' t. (
          t.0,
          elim t.1 [
            | inl p ↦ inl (p.0, set_position-IsAt a b w.udev w' p.1)
            | inr p ↦ inr (
              p.0,
              lost w'
                  (ap (λ u. u.mouse_1st_movto) p.1 ∙ (==_iff w.udev.mouse_1st_movto 0).0 unknown),
            )
          ],
        )))
