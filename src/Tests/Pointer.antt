-- ===== src/Tests/Pointer.antt =====
-- A place in one report and a button: the pointer on the device of Tests/Setup.
use msdk_linux.Api.Runs.{Got}
use msdk_linux.Hid.Wire.{AllTaken}
use msdk_linux.Api.Recovers.{Recovered, keys-Recovered}
use msdk_linux.Keyboard.{m_key_down, m_key_up}
use msdk_linux.Keyboard.Op.{is_key_code, is_modifier}
use msdk_linux.Base.{inr, negsuc, ℕ, ℤ, List, ◌≡◌, ◌∷◌, [], pos, refl, arith, true, ◌⊎◌, inl}
use msdk_linux.Machine.{IsPrompt, live, World, Outcome, done, undefined, waiting}
use msdk_linux.Curve.{Floats, m_move_to3}
use msdk_linux.Curve.Draw.{IsInt}
use msdk_linux.Machine.Ends.{Returns, Ensures}
use msdk_linux.Machine.{Host}
use msdk_linux.Frame.Calls.{run-OnlyIn, OnlyIn, part}
use msdk_linux.Api.Progress.Calls.{run-Returns}
use msdk_linux.Api.Agrees.{Stands}
use msdk_linux.Api.Requests.{Effect, move_to, run, resolution_used, move_to3, left_down}
use msdk_linux.Api.Box.{nothing_at, reads, Down}
use msdk_linux.Api.Spots.{IsUsual, IsExact}
use msdk_linux.Absolute.Scale.{absolute_command-back}
use msdk_linux.Api.Fits.{AllFit}
use msdk_linux.Api.Runs.{Runs, asked, begun, new-Stands}
use msdk_linux.Api.Whereabouts.{Runs-m_get_curr_mouse_pos}
use msdk_linux.Hid.Wire.{received, at_rest}
use msdk_linux.Move.Target.{IsAt, IsLost}
use msdk_linux.Hid.{hid_ctrl_comm, await_answer, status_word}
use msdk_linux.Hid.Send.{send_blocks, send_loop, send_block, chunk_len, more_data, next_seq}
use msdk_linux.Hid.Receive.{receive_blocks, receive_loop}
use msdk_linux.Absolute.{m_resolution_used, m_internal_move_to3, absolute_command, quotient}
use msdk_linux.Mouse.{send_mouse_op, m_left_down, button_down}
use msdk_linux.Tests.Setup.{
  box-taken, start-HasDown, start, box, screen, box-IsPrompt, start-KbState, start-MouseState,
  start-IsPlaced,
}

abbrev after : Outcome ℤ → World
after (done r w) = w
after undefined = start
after waiting = start

abbrev plain : Floats
plain = record { rounded_root = λ x y. pos 1000; bent = λ cur dest c d. d }

plain-IsInt : IsInt plain
plain-IsInt = record { root = λ x y. omega arith }

-- M_ResolutionUsed, M_MoveTo3 to (640, 480) and M_LeftDown.
abbrev sized : World
sized = after (run box plain (resolution_used (pos 1920) (pos 1080)) start)

abbrev placed : World
placed = after (run box plain (move_to3 (pos 640) (pos 480)) sized)

abbrev pressing : World
pressing = after (run box plain left_down placed)

sized-done : run box plain (resolution_used (pos 1920) (pos 1080)) start ≡ done (pos 0) sized
unfolding run m_resolution_used
sized-done = refl

placed-done : run box plain (move_to3 (pos 640) (pos 480)) sized ≡ done (pos 0) placed
unfolding run m_resolution_used m_move_to3 m_internal_move_to3 absolute_command quotient
    hid_ctrl_comm await_answer status_word send_blocks send_loop send_block chunk_len more_data
    next_seq receive_blocks receive_loop
placed-done = refl

pressing-done : run box plain left_down placed ≡ done (pos 0) pressing
unfolding run m_resolution_used m_move_to3 m_internal_move_to3 absolute_command quotient
    send_mouse_op m_left_down button_down hid_ctrl_comm await_answer status_word send_blocks
    send_loop send_block chunk_len more_data next_seq receive_blocks receive_loop
pressing-done = refl

abbrev three_calls :
    Runs box plain start
      (left_down ∷ move_to3 (pos 640) (pos 480) ∷ resolution_used (pos 1920) (pos 1080) ∷ [])
      pressing
three_calls =
    asked left_down (pos 0) pressing
      ((asked (move_to3 (pos 640) (pos 480)) (pos 0) placed
        (asked (resolution_used (pos 1920) (pos 1080)) (pos 0) sized begun sized-done) placed-done))
      pressing-done

sized_screen :
    (sized.udev.cx ≡ pos 1920) × (sized.udev.cy ≡ pos 1080) × (sized.udev.mouse_1st_movto ≡ 0)
unfolding run m_resolution_used
sized_screen = (refl, refl, refl)

pixel-IsExact : IsExact screen 640 480
pixel-IsExact =
    let back =
      absolute_command-back 1920 1080 640 480 (omega arith) (omega arith) (omega arith)
        (omega arith) in
    (back.2, back.3)

three_fit :
    AllFit screen 30 box plain start
      (left_down ∷ move_to3 (pos 640) (pos 480) ∷ resolution_used (pos 1920) (pos 1080) ∷ [])
      pressing
      three_calls
three_fit =
    let (wide, tall, unknown) = sized_screen in
    (
      (
        (tt, tt),
        (
          omega arith,
          omega arith,
          pixel-IsExact,
          wide,
          tall,
          λ known. absurd (omega (arith, known, unknown)),
          λ known. absurd (omega (arith, known, unknown)),
          λ known. absurd (omega (arith, known, unknown)),
        ),
      ),
      tt,
    )

screen-IsUsual : IsUsual screen
screen-IsUsual = record { narrow = omega arith; low = omega arith }

Runs-m_get_curr_mouse_pos_example :
    (reports : List (List ℕ)) × (received box pressing.calls ≡ at_rest reports true)
    × (IsLost pressing ⊎ IsAt (reads screen reports).spot_x (reads screen reports).spot_y pressing)
Runs-m_get_curr_mouse_pos_example =
    Runs-m_get_curr_mouse_pos box plain screen 7 true 30 box-IsPrompt plain-IsInt (omega arith)
      (omega arith) screen-IsUsual start
      (left_down ∷ move_to3 (pos 640) (pos 480) ∷ resolution_used (pos 1920) (pos 1080) ∷ [])
      pressing (nothing_at 300 200)
      (new-Stands screen 7 true start start-KbState start-MouseState start-IsPlaced) (inl refl)
      three_calls three_fit (box-taken pressing.calls)

run-Returns_example : Returns (run box plain (move_to (pos 640) (pos 480)) start) (λ r w'.
    (d : Down) × Effect (move_to (pos 640) (pos 480)) (nothing_at 300 200) d
    × Stands screen 7 true d w'
    × (Got screen true box d w' ⊎ ¬ AllTaken box w'.calls))
run-Returns_example =
    run-Returns box plain screen 7 true 30 box-IsPrompt plain-IsInt (omega arith)
      (move_to (pos 640) (pos 480)) (nothing_at 300 200) start
      (new-Stands screen 7 true start start-KbState start-MouseState start-IsPlaced)
      ((λ unknown. (omega arith, omega arith, omega arith)), λ known. absurd (omega (arith, known)))

-- Every transfer to this device fails.
abbrev broken : Host
broken = record box { answer_out = λ c. negsuc 0 }

run-OnlyIn_example :
    Ensures
      (run broken plain (move_to (pos 640) (pos 480)) start)
      (λ r w'. OnlyIn (part (move_to (pos 640) (pos 480))) start.udev w'.udev)
run-OnlyIn_example = run-OnlyIn broken plain (move_to (pos 640) (pos 480)) start

a_key : is_key_code (pos 4) ≡ true
unfolding is_key_code
a_key = refl

broken-IsPrompt : IsPrompt broken
broken-IsPrompt = record {
  waits = omega arith;
  answers = λ c. inr ((λ e. absurd (omega arith)), refl, omega arith);
}

broken-start : received broken start.calls ≡ at_rest [] true
unfolding received
broken-start = refl

-- The record has the key down, and the box has got nothing.
keys-Recovered_example :
    Returns
      (m_key_down broken live (pos 4) start)
      (Recovered broken broken-IsPrompt screen 7 true [] 0 (4 ∷ []))
    × Returns
        (m_key_up broken live (pos 4) start)
        (Recovered broken broken-IsPrompt screen 7 true [] 0 [])
unfolding is_modifier
keys-Recovered_example =
    keys-Recovered broken broken-IsPrompt screen 7 true [] 0 [] 4 start a_key refl start-HasDown
      broken-start
