-- ===== src/Move/To.antt =====
-- `M_InternalMoveR` and `M_MoveR` at a device that answers at once.
use msdk_linux.Move.Round.{OnTheWay}
use msdk_linux.Move.Step.{Within}
use msdk_linux.Base.{
  ℕ, ℤ, pos, ◌≡◌, ◌≤◌, ◌<◌, abs, ◌+ℤ◌, int_laws, Bool-cases, ◌==◌, Bool, List, inl, ◌*◌, inr, refl,
  [], ◌∙◌, arith, negsuc,
}
use msdk_linux.Machine.{Udev, Host, IsPrompt, Device, World, live, ◌>>=◌}
use msdk_linux.Move.{track, m_internal_move_r, m_move_r}
use msdk_linux.Mouse.Calls.{MouseState}
use msdk_linux.Move.Loop.{Arrived, move_loop-Arrived}
use msdk_linux.Machine.Ends.{Returns, Returns-done}

zero_add_ℤ : (x : ℤ) → pos 0 +ℤ x ≡ x
zero_add_ℤ x = omega int_laws

own_way : (x : ℤ) → Within x x
own_way (pos n) = inl (omega arith, omega arith)
own_way (negsuc n) = inr (omega arith, omega arith)

-- The device, the bytes of the mouse and of the keyboard and the flag stay.
pub track_keeps :
    (x y : ℤ) (u : Udev)
    → ((track x y u).h_dev ≡ u.h_dev)
      × ((track x y u).curr_mouse_op ≡ u.curr_mouse_op)
      × ((track x y u).mouse_1st_movto ≡ u.mouse_1st_movto)
      × ((track x y u).curr_kb_op ≡ u.curr_kb_op)
track_keeps x y u = elim (Bool-cases (u.mouse_1st_movto == 1)) [
  | inl e ↦ rw e (refl, refl, refl, refl)
  | inr e ↦ rw e (refl, refl, refl, refl)
]

module _ (h : Host) (prompt : IsPrompt h) (dev : Device) (buttons : ℕ) (ok : Bool) where
  -- The position is kept up with before the movement, so it is the start of it.
  abbrev pub tracked : ℤ → ℤ → World → World
  tracked x y w = record w { udev = track x y w.udev }

  abbrev pub HasMoved : List (List ℕ) → ℤ → ℤ → World → ℤ → World → Type 0
  HasMoved cs x y w = Arrived h prompt dev buttons cs ok (tracked x y w) x y

  At-start :
      (cs : List (List ℕ)) (x y : ℤ) (w : World)
      → MouseState dev buttons cs ok w
      → OnTheWay dev buttons cs ok (tracked x y w) x y x y (tracked x y w)
  At-start cs x y w s = record {
    device = (track_keeps x y w.udev).0 ∙ s.device;
    first = s.first;
    dx = 0;
    dy = 0;
    op = (track_keeps x y w.udev).1 ∙ s.op;
    reports = [];
    moves = tt;
    on_wire = s.on_wire;
    so_far_x = zero_add_ℤ x;
    so_far_y = zero_add_ℤ y;
    same = refl;
    way_x = own_way x;
    way_y = own_way y;
    steady_x = tt;
    steady_y = tt;
  }

  pub m_internal_move_r-HasMoved :
      (n : ℕ) (cs : List (List ℕ)) (x y : ℤ) (w : World)
      → n < h.patience
      → abs x ≤ 100 * n
      → abs y ≤ 100 * n
      → MouseState dev buttons cs ok w
      → Returns (m_internal_move_r h live x y w) (HasMoved cs x y w)
  unfolding m_internal_move_r
  m_internal_move_r-HasMoved n cs x y w lt far_x far_y s =
      move_loop-Arrived h prompt dev buttons cs ok (tracked x y w) x y n h.patience x y
        (tracked x y w) lt far_x far_y (At-start cs x y w s)

  -- At a device that answers at once and for a distance within the patience, M_MoveR returns: with
  -- 0 the signed steps of its reports add up to the distance in both axes and none goes back, the
  -- buttons stay and only the kept position follows; with -1 the position counts as unknown.
  pub m_move_r-HasMoved :
      (n : ℕ) (cs : List (List ℕ)) (x y : ℤ) (w : World)
      → n < h.patience
      → abs x ≤ 100 * n
      → abs y ≤ 100 * n
      → MouseState dev buttons cs ok w
      → Returns (m_move_r h live x y w) (HasMoved cs x y w)
  unfolding m_move_r
  m_move_r-HasMoved n cs x y w lt far_x far_y s =
      let (r, w', e, t) =
        Returns-done (HasMoved cs x y w) (m_internal_move_r h live x y w)
          (m_internal_move_r-HasMoved n cs x y w lt far_x far_y s) in
      rw (e, ◌>>=◌) (elim t [ inl a ↦ rw a.0 (inl (refl, a.1)) | inr b ↦ rw b.0 (inr (refl, b.1)) ])
