-- ===== src/Api/Axes.antt =====
-- One axis of a movement keeps the record and the box in agreement.
use msdk_linux.Base.{
  ℕ, List, Bool, ap, ℤ, set, get_or, ◌≡◌, ◌∙◌, sym, refl, pos, byte_of, ◌-ℤ◌, signed_char, ◌≤ℤ◌,
  ltb_ℤ, inl, ◌||◌, Bool-cases, false, ◌==◌, arith, ◌+ℤ◌, inr,
}
use msdk_linux.Machine.{Device, Host, IsPrompt, Udev, World, ◌>>◌, modify, return, Prog}
use msdk_linux.Move.{move_axis, axis_byte, not_negative, track, or_zero}
use msdk_linux.Api.Box.{Down, Screen, at_spot}
use msdk_linux.Api.Agrees.{
  Clicks, Agrees, Holds-same, IsPlaced, at_place, Holds, Holds-shows_buttons, Stands, Motion,
  kept_of, Kept, still, restand,
}
use msdk_linux.Machine.Ends.{Keeps, Ensures-then, Ensures-mono}
use msdk_linux.Mouse.{set_mouse_op}
use msdk_linux.Common.Quiet.{Quiet, m_rand_dom_nbr-Quiet}
use msdk_linux.Api.Buttons.{Holds-Quiet}
use msdk_linux.Common.{m_rand_dom_nbr}
use mathlib.Core.Path.{subst}

pub lost_place :
    (k : Kept) (u : Udev)
    → IsPlaced k u
    → IsPlaced (kept_of (record u { mouse_1st_movto = 0 })) (record u { mouse_1st_movto = 0 })
lost_place k u p = record {
  kept = refl;
  flag = inl refl;
  x_nonneg = p.x_nonneg;
  y_nonneg = p.y_nonneg;
}

or_zero-nonneg : (x : ℤ) → pos 0 ≤ℤ or_zero x
or_zero-nonneg x = ground arith

pub floor_place :
    (k : Kept) (u : Udev) → IsPlaced k u → IsPlaced (kept_of (not_negative u)) (not_negative u)
floor_place k u p =
    at_place (or_zero u.curr_mouse_abs_pos_x) (or_zero u.curr_mouse_abs_pos_y) u p.flag
      (or_zero-nonneg u.curr_mouse_abs_pos_x) (or_zero-nonneg u.curr_mouse_abs_pos_y)

pub track_place :
    (x y : ℤ) (k : Kept) (u : Udev) → IsPlaced k u → IsPlaced (kept_of (track x y u)) (track x y u)
track_place x y k u p = elim (Bool-cases (u.mouse_1st_movto == 1)) [
  | inl e ↦ rw e (
      at_place (or_zero (u.curr_mouse_abs_pos_x +ℤ x)) (or_zero (u.curr_mouse_abs_pos_y +ℤ y)) u
        p.flag (or_zero-nonneg (u.curr_mouse_abs_pos_x +ℤ x))
        (or_zero-nonneg (u.curr_mouse_abs_pos_y +ℤ y)))
  | inr e ↦ rw e (subst (λ k'. IsPlaced k' u) (sym p.kept) p)
]

pub nonneg_guard :
    (x y : ℤ) → (ltb_ℤ x (pos 0) || ltb_ℤ y (pos 0)) ≡ false → (pos 0 ≤ℤ x) × (pos 0 ≤ℤ y)
nonneg_guard x y e = ground arith

module _ (scr : Screen) (dev : Device) (ok : Bool) (h : Host) (prompt : IsPrompt h) where
  -- Changes of the kept position, or of the resolution.
  pub Agrees-position :
      (k : Kept) (d : Down) (f : Udev → Udev) (w : World)
      → Agrees scr dev ok k d w
      → ((f w.udev).h_dev ≡ w.udev.h_dev)
        × ((f w.udev).curr_kb_op ≡ w.udev.curr_kb_op)
        × ((f w.udev).curr_mouse_op ≡ w.udev.curr_mouse_op)
      → IsPlaced (kept_of (f w.udev)) (f w.udev)
      → Stands scr dev ok d (record w { udev = f w.udev })
  Agrees-position k d f w s (same_dev, same_kb, same_mouse) place =
      Holds-same scr dev ok k (kept_of (f w.udev)) still d d w (record w { udev = f w.udev }) s
        same_dev same_kb same_mouse refl place

  -- What leaves the kept position alone.
  pub standing :
      {A : Type 0} (d : Down) (m : Prog A)
      → ((k : Kept) → Keeps (Agrees scr dev ok k d) m)
      → Keeps (Stands scr dev ok d) m
  standing d m keeps w s =
      Ensures-mono _ _ (m w) (keeps (kept_of w.udev) w s)
        (λ r w'. restand scr dev ok (kept_of w.udev) still d d w')

  -- The pointer may have moved.
  abbrev pub Somewhere : Down → World → Type 0
  Somewhere d w = (x : ℕ) × (y : ℕ) × Stands scr dev ok (at_spot x y d) w

  pub anywhere :
      {A : Type 0} (d : Down) (m : Prog A)
      → ((d' : Down) → Keeps (Stands scr dev ok d') m)
      → Keeps (Somewhere d) m
  anywhere d m keeps w (x, y, s) =
      Ensures-mono _ _ (m w) (keeps (at_spot x y d) w s) (λ r w' s'. (x, y, s'))

  -- A movement is under way: the bytes hold a part of it.
  abbrev pub Moving : Down → World → Type 0
  Moving d w =
      (m : Motion) × (x : ℕ) × (y : ℕ) × Holds scr dev ok (kept_of w.udev) m (at_spot x y d)
        (at_spot x y d) w

  -- And the next report is one of the mouse.
  abbrev pub Aimed : Down → World → Type 0
  Aimed d w = Moving d w × (get_or w.udev.curr_mouse_op 0 0 ≡ 4)

  pub Quiet-Aimed : (d : Down) (w w' : World) → Aimed d w → Quiet w w' → Aimed d w'
  Quiet-Aimed d w w' ((m, x, y, s), four) q =
      let d1 : Down = at_spot x y d in
      let k : Kept = kept_of w.udev in
      (
        (m, x, y, restand scr dev ok k m d1 d1 w' (Holds-Quiet scr dev ok k m d1 w w' s q)),
        ap (λ u. get_or u.curr_mouse_op 0 0) q.0 ∙ four,
      )

  -- A byte of the movement.
  abbrev pub Moves : ℕ → Type 0
  Moves place =
      (b buttons : ℕ) (m : Motion) (op : List ℕ)
      → Clicks op buttons m
      → (m' : Motion) × Clicks (set op place b) buttons m'
        × (get_or (set op place b) 0 0 ≡ get_or op 0 0)

  pub x-Moves : Moves 2
  x-Moves b buttons m op c = (
    record m { dx = b },
    record { first = c.first; bytes = ap (λ l. set l 2 b) c.bytes },
    ap (λ l. get_or (set l 2 b) 0 0) c.bytes ∙ sym (ap (λ l. get_or l 0 0) c.bytes),
  )

  pub y-Moves : Moves 3
  y-Moves b buttons m op c = (
    record m { dy = b },
    record { first = c.first; bytes = ap (λ l. set l 3 b) c.bytes },
    ap (λ l. get_or (set l 3 b) 0 0) c.bytes ∙ sym (ap (λ l. get_or l 0 0) c.bytes),
  )

  stored :
      (place b : ℕ) (d : Down) (w : World)
      → Moves place
      → Aimed d w
      → Aimed d (record w { udev = set_mouse_op (λ op. set op place b) w.udev })
  stored place b d w moves ((m, x, y, s), four) =
      let (m', c, same) = moves b d.buttons m w.udev.curr_mouse_op s.mouse in
      let d1 : Down = at_spot x y d in
      (
        (
          m',
          x,
          y,
          Holds-shows_buttons scr dev ok (kept_of w.udev) m d1 d1 d.buttons m'
              (λ op. set op place b) w s c,
        ),
        same ∙ four,
      )

  pub move_axis-Aimed :
      (place : ℕ) → Moves place → (x : ℤ) (d : Down) → Keeps (Aimed d) (move_axis h place x)
  unfolding move_axis
  move_axis-Aimed place moves x d w s =
      Ensures-then (λ r. Aimed d) (λ r. Aimed d) (m_rand_dom_nbr h (pos 100) (pos 127))
        (λ r. do
          let b = axis_byte (byte_of r) x
          modify (set_mouse_op (λ op. set op place b))
          return (x -ℤ signed_char b))
        w
        (Ensures-mono _ _ (m_rand_dom_nbr h (pos 100) (pos 127) w)
          (m_rand_dom_nbr-Quiet h (pos 100) (pos 127) w) (λ r w'. Quiet-Aimed d w w' s))
        (λ r w1 s1. stored place (axis_byte (byte_of r) x) d w1 moves s1)
