-- ===== src/Api/Progress/Moves.antt =====
-- The movements return, from any state in which the record and the box agree.
use msdk_linux.Base.{
  ℕ, ℤ, pos, negsuc, ◌≡◌, Bool, ◌<◌, ◌≤◌, abs, ◌*◌, ltb_ℤ, ◌||◌, ◌-ℤ◌, true, refl, arith, false,
  leb_ℤ, Bool-cases, ◌<ℤ◌, eqb_ℤ,
}
use msdk_linux.Machine.{Host, World, Device, IsPrompt, live}
use msdk_linux.Api.Box.{Screen, Down}
use msdk_linux.Api.Progress.{halts, Halts, Bool, Stands, inl, inr, Bool-cases, arith, eqb_ℤ}
use msdk_linux.Api.Agrees.{Stands, Agrees-MouseState, kept_of}
use msdk_linux.Move.{m_reset_mouse_pos, m_move_to, m_move_r}
use msdk_linux.Curve.{Floats, m_move_to3}
use msdk_linux.Mouse.Calls.{MouseState}
use msdk_linux.Curve.Draw.{IsInt}
use msdk_linux.Move.Position.{m_reset_mouse_pos-Ends, m_move_to-first, m_move_to-known}
use msdk_linux.Move.To.{m_move_r-HasMoved}
use msdk_linux.Api.Reach.{m_move_to3-Returns}

within : (cx cy x y : ℤ) → (leb_ℤ cx x || leb_ℤ cy y) ≡ false → (x <ℤ cx) × (y <ℤ cy)
within cx cy x y on = ground arith

below_x : (m : ℕ) (y : ℤ) → (ltb_ℤ (negsuc m) (pos 0) || ltb_ℤ y (pos 0)) ≡ true
below_x m y = ground arith

below_y : (x : ℤ) (m : ℕ) → (ltb_ℤ x (pos 0) || ltb_ℤ (negsuc m) (pos 0)) ≡ true
below_y x m = ground arith

at_or_above : (a b : ℕ) → (ltb_ℤ (pos a) (pos 0) || ltb_ℤ (pos b) (pos 0)) ≡ false
at_or_above a b = ground arith

-- The distance from the position, where it is known, and from the corner, where it is not.
abbrev pub IsNear : ℕ → World → ℕ → ℕ → Type 0
IsNear n w a b =
    (w.udev.mouse_1st_movto ≡ 0 → (30 ≤ n) × (a ≤ 100 * n) × (b ≤ 100 * n))
    × (w.udev.mouse_1st_movto ≡ 1
        → (abs (pos a -ℤ w.udev.curr_mouse_abs_pos_x) ≤ 100 * n)
          × (abs (pos b -ℤ w.udev.curr_mouse_abs_pos_y) ≤ 100 * n))

module _ (scr : Screen) (dev : Device) (ok : Bool) (h : Host) (prompt : IsPrompt h) (n : ℕ)
    (enough : n < h.patience) (d : Down) (w : World) (s : Stands scr dev ok d w) where
  abbrev mouse : MouseState dev d.buttons s.reports ok w
  mouse = Agrees-MouseState scr dev ok (kept_of w.udev) d w s

  pub m_move_r-Halts : (x y : ℤ) → abs x ≤ 100 * n → abs y ≤ 100 * n → Halts (m_move_r h live x y w)
  m_move_r-Halts x y far_x far_y =
      halts _ (m_move_r h live x y w)
        (m_move_r-HasMoved h prompt dev d.buttons ok n s.reports x y w enough far_x far_y mouse)

  pub m_move_to-Halts : (a b : ℕ) → IsNear n w a b → Halts (m_move_to h live (pos a) (pos b) w)
  m_move_to-Halts a b (from_corner, from_known) = elim s.place.flag [
    | inl unknown ↦
        let (rounds, far_x, far_y) = from_corner unknown in
        halts _ (m_move_to h live (pos a) (pos b) w) (
          m_move_to-first h dev d.buttons ok n a b s.reports w prompt enough mouse (rw unknown refl)
            rounds far_x far_y)
    | inr known ↦
        let (far_x, far_y) = from_known known in
        halts _ (m_move_to h live (pos a) (pos b) w) (
          m_move_to-known h dev d.buttons ok n a b s.reports w prompt enough mouse (rw known refl)
            far_x far_y)
  ]

  pub m_move_to_below-Halts :
      (x y : ℤ) → (ltb_ℤ x (pos 0) || ltb_ℤ y (pos 0)) ≡ true → Halts (m_move_to h live x y w)
  unfolding m_move_to
  m_move_to_below-Halts x y below = rw below tt

  pub m_reset_mouse_pos-Halts : 30 < h.patience → Halts (m_reset_mouse_pos h live w)
  m_reset_mouse_pos-Halts rounds =
      halts _ (m_reset_mouse_pos h live w)
        (m_reset_mouse_pos-Ends h dev d.buttons ok s.reports w prompt rounds mouse)

  module _ (fl : Floats) (int : IsInt fl) where
    -- With a target that nothing refuses.
    on_screen-Halts :
        (a b : ℕ)
        → (leb_ℤ w.udev.cx (pos a) || leb_ℤ w.udev.cy (pos b)) ≡ false
        → (w.udev.mouse_1st_movto ≡ 1
            → (abs (pos a -ℤ w.udev.curr_mouse_abs_pos_x) ≤ 50 * n)
              × (abs (pos b -ℤ w.udev.curr_mouse_abs_pos_y) ≤ 50 * n))
        → Halts (m_move_to3 h fl live (pos a) (pos b) w)
    on_screen-Halts a b on near =
        let (in_x, in_y) = within w.udev.cx w.udev.cy (pos a) (pos b) on in
        halts _ (m_move_to3 h fl live (pos a) (pos b) w) (
          m_move_to3-Returns h fl scr dev ok d a b n w prompt int s in_x in_y (λ k. (near k).0)
            (λ k. (near k).1) enough)

    pub m_move_to3-Halts :
        (x y : ℤ)
        → (w.udev.mouse_1st_movto ≡ 1
            → (abs (x -ℤ w.udev.curr_mouse_abs_pos_x) ≤ 50 * n)
              × (abs (y -ℤ w.udev.curr_mouse_abs_pos_y) ≤ 50 * n))
        → Halts (m_move_to3 h fl live x y w)
    m_move_to3-Halts (negsuc m) y near = unfold m_move_to3 in rw (below_x m y) tt
    m_move_to3-Halts (pos a) (negsuc m) near = unfold m_move_to3 in rw (below_y (pos a) m) tt
    m_move_to3-Halts (pos a) (pos b) near =
        elim (Bool-cases (leb_ℤ w.udev.cx (pos a) || leb_ℤ w.udev.cy (pos b))) [
          | inr on ↦ on_screen-Halts a b on near
          | inl off ↦ elim (Bool-cases (eqb_ℤ w.udev.cx (pos 0) || eqb_ℤ w.udev.cy (pos 0))) [
            | inl unset ↦ unfold m_move_to3 in rw (at_or_above a b, unset) tt
            | inr given ↦ unfold m_move_to3 in rw (at_or_above a b, given, off) tt
          ]
        ]
