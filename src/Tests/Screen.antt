-- ===== src/Tests/Screen.antt =====
-- `M_MoveTo` and `M_MoveR` with the pointer at (1000, 5) on a screen of 1920 times 1080.
use msdk_linux.Base.{
  ℕ, pos, true, List, ◌≡◌, ◌++◌, [], arith, inl, refl, negsuc, ◌⊎◌, minus_one, +ℤ_parts, one_part,
  ◌+ℤ◌, inr,
}
use msdk_linux.Machine.Ends.{Returns}
use msdk_linux.Move.{m_move_to, m_move_r}
use msdk_linux.Tests.Setup.{box, start, box-IsPrompt, start-MouseState, start-on_wire}
use msdk_linux.Machine.{live, World}
use msdk_linux.Move.Target.{Ends}
use msdk_linux.Move.Pointer.{pointer}
use msdk_linux.Move.Screen.{m_move_to-Points}
use msdk_linux.Mouse.Calls.{MouseState}
use msdk_linux.Hid.Wire.{handed_over, at_rest}
use msdk_linux.Move.Follows.{Follows, m_move_r-Follows}
use msdk_linux.Move.Round.{IsMoves}

m_move_to-Points_example : Returns (m_move_to box live (pos 640) (pos 480) start) (λ r w'.
    Ends box 7 0 true 640 480
      (λ css.
        (reports : List (List ℕ)) × (css ≡ reports ++ [])
        × IsMoves 0 reports
        × (pointer 1919 2 reports 1000 ≡ 640)
        × (pointer 1079 3 reports 5 ≡ 480))
      r
      w')
m_move_to-Points_example =
    m_move_to-Points box 7 0 true 30 640 480 [] start box-IsPrompt (omega arith) (omega arith)
      start-MouseState 1919 1079 1000 5 (omega arith) (omega arith) (omega arith) (omega arith)
      (omega arith) (omega arith) (inl refl)

-- The position (100, 20) is known, and the mouse is moved over the left edge.
abbrev standing : World
standing = record start {
  udev = record start.udev {
    mouse_1st_movto = 1;
    curr_mouse_abs_pos_x = pos 100;
    curr_mouse_abs_pos_y = pos 20;
  };
}

standing-MouseState : MouseState 7 0 [] true standing
standing-MouseState = record { device = refl; first = 0; op = refl; on_wire = start-on_wire }

m_move_r-Follows_example : Returns (m_move_r box live (negsuc 149) (pos 50) standing) (λ r w'.
    ((r ≡ pos 0)
      × ((reports : List (List ℕ)) × IsMoves 0 reports
          × (handed_over w'.calls ≡ at_rest (reports ++ []) true)
          × Follows (pointer 1919 2 reports 100) (pointer 1079 3 reports 20) w'))
    ⊎ ((r ≡ minus_one) × (w'.udev.mouse_1st_movto ≡ 0)))
m_move_r-Follows_example =
    m_move_r-Follows box box-IsPrompt 7 0 true 2 [] (negsuc 149) (pos 50) standing (omega arith)
      (omega arith) (omega arith) standing-MouseState 1919 1079 100 20 (omega arith) (omega arith)
      (λ _. omega (arith, +ℤ_parts (pos 100) (negsuc 149), one_part (pos 100 +ℤ negsuc 149)))
      (λ _. omega (arith, +ℤ_parts (pos 20) (pos 50), one_part (pos 20 +ℤ pos 50)))
      (inr (refl, refl, refl))
