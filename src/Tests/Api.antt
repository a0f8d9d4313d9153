-- ===== src/Tests/Api.antt =====
-- A few calls in sequence on the device of Tests/Setup.
use msdk_linux.Base.{ℤ, true, pos, ◌≡◌, refl, ◌∷◌, ℕ, []}
use msdk_linux.Api.Requests.{run, key_down, release_all_key, release_all_mouse, left_down}
use msdk_linux.Machine.{World, Outcome, done, undefined, waiting}
use msdk_linux.Api.Agrees.{Stands}
use msdk_linux.Hid.{hid_ctrl_comm, await_answer, status_word}
use msdk_linux.Hid.Send.{send_blocks, send_loop, send_block, chunk_len, more_data, next_seq}
use msdk_linux.Hid.Receive.{receive_blocks, receive_loop}
use msdk_linux.Keyboard.{m_key_down, key_down_op, send_kb_op, m_release_all_key}
use msdk_linux.Keyboard.Op.{is_key_code, is_stale, is_modifier, press_key}
use msdk_linux.Curve.{Floats}
use msdk_linux.Tests.Setup.{
  start-IsPlaced, box, screen, start, start-KbState, start-MouseState, box-IsPrompt, box-taken,
}
use msdk_linux.Api.Runs.{new-Stands, Runs-released, Runs, asked, begun, Got}
use msdk_linux.Mouse.{m_left_down, button_down, send_mouse_op, m_release_all_mouse}
use msdk_linux.Api.Box.{nothing_at}

start-Stands : Stands screen 7 true (nothing_at 300 200) start
start-Stands = new-Stands screen 7 true start start-KbState start-MouseState start-IsPlaced

-- The state in which a call ends.
abbrev after : Outcome ℤ → World
after (done r w) = w
after undefined = start
after waiting = start

abbrev plain : Floats
plain = record { rounded_root = λ x y. pos 1000; bent = λ cur dest c d. d }

-- M_KeyDown of A and M_LeftDown, and then everything is released.
abbrev typed : World
typed = after (run box plain (key_down (pos 4)) start)

typed-done : run box plain (key_down (pos 4)) start ≡ done (pos 0) typed
unfolding run m_key_down is_key_code key_down_op send_kb_op is_stale is_modifier press_key
    hid_ctrl_comm await_answer status_word send_blocks send_loop send_block chunk_len more_data
    next_seq receive_blocks receive_loop
typed-done = refl

abbrev held_too : World
held_too = after (run box plain left_down typed)

held_too-done : run box plain left_down typed ≡ done (pos 0) held_too
unfolding run m_key_down is_key_code key_down_op send_kb_op is_stale is_modifier press_key
    m_left_down button_down send_mouse_op hid_ctrl_comm await_answer status_word send_blocks
    send_loop send_block chunk_len more_data next_seq receive_blocks receive_loop
held_too-done = refl

abbrev keys_up : World
keys_up = after (run box plain release_all_key held_too)

keys_up-done : run box plain release_all_key held_too ≡ done (pos 0) keys_up
unfolding run m_key_down is_key_code key_down_op send_kb_op is_stale is_modifier press_key
    m_left_down button_down send_mouse_op m_release_all_key hid_ctrl_comm await_answer status_word
    send_blocks send_loop send_block chunk_len more_data next_seq receive_blocks receive_loop
keys_up-done = refl

abbrev all_up : World
all_up = after (run box plain release_all_mouse keys_up)

all_up-done : run box plain release_all_mouse keys_up ≡ done (pos 0) all_up
unfolding run m_key_down is_key_code key_down_op send_kb_op is_stale is_modifier press_key
    m_left_down button_down send_mouse_op m_release_all_key m_release_all_mouse hid_ctrl_comm
    await_answer status_word send_blocks send_loop send_block chunk_len more_data next_seq
    receive_blocks receive_loop
all_up-done = refl

two_calls : Runs box plain start (left_down ∷ key_down (pos 4) ∷ []) held_too
two_calls =
    asked left_down (pos 0) held_too (asked (key_down (pos 4)) (pos 0) typed begun typed-done)
      held_too-done

four_calls :
    Runs box plain start
      (release_all_mouse ∷ release_all_key ∷ left_down ∷ key_down (pos 4) ∷ [])
      all_up
four_calls =
    asked release_all_mouse (pos 0) all_up
      (asked release_all_key (pos 0) keys_up two_calls keys_up-done) all_up-done

Runs-released_example :
    (x : ℕ) × (y : ℕ) × Stands screen 7 true (nothing_at x y) all_up
    × Got screen true box (nothing_at x y) all_up
Runs-released_example =
    Runs-released box plain screen 7 true start box-IsPrompt (left_down ∷ key_down (pos 4) ∷ [])
      all_up (nothing_at 300 200) start-Stands four_calls (box-taken all_up.calls)
