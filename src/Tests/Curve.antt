-- ===== src/Tests/Curve.antt =====
-- `M_MoveTo3` on the device of Tests/Setup.
use msdk_linux.Base.{
  ℕ, arith, pos, ◌≡◌, List, ◌∷◌, ◌++◌, [], true, ◌⊎◌, minus_one, refl, ◌≤◌, ◌*◌, abs, ◌-ℤ◌, abs-sub,
}
use msdk_linux.Curve.{Floats, m_move_to3}
use msdk_linux.Machine.Ends.{Returns}
use msdk_linux.Machine.{World, live}
use msdk_linux.Curve.Draw.{IsInt}
use msdk_linux.Tests.Setup.{box, sized, box-IsPrompt, start-on_wire}
use msdk_linux.Hid.Wire.{handed_over, at_rest}
use msdk_linux.Curve.Step.{SameBut}
use msdk_linux.Curve.OnTheCurve.{AreForPlaces}
use msdk_linux.Absolute.{absolute_command}
use msdk_linux.Curve.Direct.{m_move_to3-first}
use msdk_linux.Move.Target.{IsAt, IsLost}
use msdk_linux.Curve.FromKnown.{m_move_to3-Arrived}

abbrev rough : Floats
rough = record { rounded_root = λ x y. pos 1000; bent = λ cur dest c d. d }

m_move_to3-first_example : Returns (m_move_to3 box rough live (pos 640) (pos 480) sized) (λ r w'.
    (handed_over w'.calls
      ≡ at_rest (absolute_command (pos 1920) (pos 1080) (pos 640) (pos 480) ∷ []) true)
    × (((r ≡ pos 0) × IsAt 640 480 w') ⊎ ((r ≡ minus_one) × IsLost w')))
m_move_to3-first_example =
    m_move_to3-first box rough 7 [] true 640 480 sized box-IsPrompt refl start-on_wire refl
      (omega arith) (omega arith)

rough-IsInt : IsInt rough
rough-IsInt = record { root = λ x y. omega arith }

-- The position (100, 900) is known.
abbrev known : World
known = record sized {
  udev = record sized.udev {
    mouse_1st_movto = 1;
    curr_mouse_abs_pos_x = pos 100;
    curr_mouse_abs_pos_y = pos 900;
  };
}

far_x : abs (pos 800 -ℤ pos 100) ≤ 50 * 22
far_x = omega (arith, abs-sub (pos 800) (pos 100))

far_y : abs (pos 168 -ℤ pos 900) ≤ 50 * 22
far_y = omega (arith, abs-sub (pos 168) (pos 900))

m_move_to3-Arrived_example : Returns (m_move_to3 box rough live (pos 800) (pos 168) known) (λ r w'.
    SameBut known.udev w'.udev
    × ((reports : List (List ℕ)) × AreForPlaces (pos 1920) (pos 1080) reports
        × (handed_over w'.calls ≡ at_rest (reports ++ []) true))
    × (((r ≡ pos 0)
          × IsAt 800 168 w'
          × ((earlier : List (List ℕ)) × (handed_over w'.calls
                ≡ at_rest
                    (absolute_command (pos 1920) (pos 1080) (pos 800) (pos 168) ∷ earlier)
                    true)))
        ⊎ (r ≡ minus_one)))
m_move_to3-Arrived_example =
    m_move_to3-Arrived box rough 7 [] true 800 168 22 known box-IsPrompt rough-IsInt refl
      start-on_wire refl (omega arith) (omega arith) (omega arith) (omega arith) far_x far_y
      (omega arith)
