-- ===== src/Tests/Mouse.antt =====
-- The mouse on the device of Tests/Setup.
use msdk_linux.Base.{
  ℤ, pos, refl, ◌≡◌, [], true, negsuc, inl, ◌∷◌, ◌⊎◌, minus_one, ◌++◌, ◌≤ℤ◌, ◌-ℤ◌, ◌<ℤ◌, arith, abs,
  ◌≤◌, abs-sub, ◌*◌, ◌/◌, ℕ, ◌+◌,
}
use msdk_linux.Machine.Ends.{Returns}
use msdk_linux.Machine.{World, undefined, live, done, rand}
use msdk_linux.Mouse.Calls.{MouseState}
use msdk_linux.Common.{m_rand_dom_nbr}
use msdk_linux.Move.{m_move_to, m_move_r}
use msdk_linux.Tests.Setup.{box, start, start-on_wire, box-IsPrompt, start-MouseState, sized}
use msdk_linux.Mouse.{
  m_left_click, m_right_click, m_middle_click, m_left_double_click, m_mouse_wheel,
}
use msdk_linux.Move.Target.{Ends}
use msdk_linux.Mouse.Click.{click_reports, m_click-Ended}
use msdk_linux.Common.Range.{m_rand_dom_nbr_by_zero, m_rand_dom_nbr_bounds}
use msdk_linux.Move.Position.{ByOne, m_move_to-known}
use msdk_linux.Move.To.{HasMoved, m_move_r-HasMoved}
use msdk_linux.Absolute.{absolute_command, m_internal_move_to3, absolute_report, hw_max_res}
use msdk_linux.Absolute.Scale.{
  read_x, absolute_command_wide, read_y, absolute_command-IsNear, IsNear, ScalesDown,
}
use msdk_linux.Hid.Wire.{handed_over, at_rest}
use msdk_linux.Absolute.Placed.{Told3, m_internal_move_to3-sent}
use msdk_linux.Mouse.Wheel.{Turned, m_mouse_wheel-Turned}
use msdk_linux.Mouse.DoubleClick.{m_left_double_click-Ended}

m_click-Ended_example :
    Returns
      (m_left_click box live (pos 2) start)
      (λ r w'. ((r ≡ pos 0) × MouseState 7 0 (click_reports 0 0 2 ++ []) true w') ⊎ (r ≡ minus_one))
    × Returns (m_right_click box live (pos 2) start) (λ r w'.
      ((r ≡ pos 0) × MouseState 7 0 (click_reports 1 0 2 ++ []) true w') ⊎ (r ≡ minus_one))
    × Returns (m_middle_click box live (pos 2) start) (λ r w'.
      ((r ≡ pos 0) × MouseState 7 0 (click_reports 2 0 2 ++ []) true w') ⊎ (r ≡ minus_one))
m_click-Ended_example =
    m_click-Ended box 7 true [] 2 start box-IsPrompt (omega arith) start-MouseState

m_move_r-HasMoved_example :
    Returns
      (m_move_r box live (pos 250) (negsuc 9) start)
      (HasMoved box box-IsPrompt 7 0 true [] (pos 250) (negsuc 9) start)
m_move_r-HasMoved_example =
    m_move_r-HasMoved box box-IsPrompt 7 0 true 3 [] (pos 250) (negsuc 9) start (omega arith)
      (omega arith) (omega arith) start-MouseState

-- The same record, at a known position.
abbrev placed : World
placed = record start {
  udev = record start.udev {
    curr_mouse_abs_pos_x = pos 100;
    curr_mouse_abs_pos_y = pos 20;
    mouse_1st_movto = 1;
  };
}

placed-MouseState : MouseState 7 0 [] true placed
placed-MouseState = record { device = refl; first = 0; op = refl; on_wire = start-on_wire }

near_x : abs (pos 640 -ℤ pos 100) ≤ 800
near_x = omega (arith, abs-sub (pos 640) (pos 100))

near_y : abs (pos 10 -ℤ pos 20) ≤ 800
near_y = omega (arith, abs-sub (pos 10) (pos 20))

m_move_to-known_example :
    Returns
      (m_move_to box live (pos 640) (pos 10) placed)
      (Ends box 7 0 true 640 10 (ByOne 0 [] (pos 640 -ℤ pos 100) (pos 10 -ℤ pos 20)))
m_move_to-known_example =
    m_move_to-known box 7 0 true 8 640 10 [] placed box-IsPrompt (omega arith) placed-MouseState
      refl near_x near_y

m_rand_dom_nbr_bounds_example :
    (r : ℤ) × (m_rand_dom_nbr box (pos 100) (pos 127) start
      ≡ done r (record start { calls = rand ∷ start.calls }))
    × (pos 100 ≤ℤ r)
    × (r <ℤ pos 127)
m_rand_dom_nbr_bounds_example =
    m_rand_dom_nbr_bounds box (pos 100) (pos 127) start (omega arith) (omega arith) (omega arith)

m_rand_dom_nbr_by_zero_example : m_rand_dom_nbr box (pos 5) (pos 5) start ≡ undefined
m_rand_dom_nbr_by_zero_example = m_rand_dom_nbr_by_zero box (pos 5) (pos 5) start (inl refl)

-- A system whose pixels come out too high by two.
abbrev too_high : ℕ → ℕ → ℕ
too_high pixels n = n * pixels / hw_max_res + 2

too_high-ScalesDown : ScalesDown 2 too_high
too_high-ScalesDown = record { near = λ pixels n. (omega arith, omega arith) }

absolute_command-IsNear_example :
    let report = absolute_command (pos 1920) (pos 1080) (pos 800) (pos 168) in
    (read_x report ≤ hw_max_res)
    × (read_y report ≤ hw_max_res)
    × IsNear 2 (too_high 1920 (read_x report)) 800
    × IsNear 2 (too_high 1080 (read_y report)) 168
absolute_command-IsNear_example =
    absolute_command-IsNear 2 too_high too_high-ScalesDown 1920 1080 800 168 (omega arith)
      (omega arith) (omega arith) (omega arith)

absolute_command_wide_example :
    absolute_command (pos 10240) (pos 4320) (pos 0) (pos 0) ≡ absolute_report 0 0
absolute_command_wide_example = absolute_command_wide 10240 4320 (omega arith) (omega arith)

m_internal_move_to3-sent_example :
    Returns (m_internal_move_to3 box live (pos 800) (pos 168) sized) (λ r w'.
      (handed_over w'.calls
        ≡ at_rest (absolute_command (pos 1920) (pos 1080) (pos 800) (pos 168) ∷ []) true)
      × Told3 box box-IsPrompt 7 [] true
          (pos 800)
          (pos 168)
          sized
          refl
          refl
          refl
          start-on_wire
          r
          w')
m_internal_move_to3-sent_example =
    m_internal_move_to3-sent box box-IsPrompt 7 [] true (pos 800) (pos 168) sized refl refl refl
      start-on_wire

m_mouse_wheel-Turned_example :
    Returns (m_mouse_wheel box live (negsuc 2) start) (Turned box box-IsPrompt 7 true 0 0xFF [] 3)
m_mouse_wheel-Turned_example =
    m_mouse_wheel-Turned box 7 true 0 (negsuc 2) [] start box-IsPrompt start-MouseState

-- Any numbers will do here.
m_left_double_click-Ended_example :
    Returns
      (m_left_double_click box live (pos 2) start)
      (λ r w'. ((r ≡ pos 0) × MouseState 7 0 (click_reports 0 0 4 ++ []) true w') ⊎ (r ≡ minus_one))
m_left_double_click-Ended_example =
    m_left_double_click-Ended box box-IsPrompt 7 true [] (omega arith) 2 start (omega arith)
      start-MouseState
