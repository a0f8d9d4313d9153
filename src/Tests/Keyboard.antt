-- ===== src/Tests/Keyboard.antt =====
-- The keyboard on the device of Tests/Setup.
use msdk_linux.Base.{pos, refl, ◌≡◌, [], minus_one, false, true, ◌∷◌, inr, arith, ◌⊎◌, inl}
use msdk_linux.Machine.Ends.{Returns}
use msdk_linux.Keyboard.{
  m_key_down, m_key_state, m_key_up, m_key_press, m_key_down2, m_key_up2, m_key_state2,
  m_release_all_key,
}
use msdk_linux.Keyboard.Op.Query.{held}
use msdk_linux.Tests.Setup.{box, start, box-IsPrompt, start-KbState}
use msdk_linux.Machine.{live, done}
use msdk_linux.Keyboard.Press.{AfterPresses, m_key_press-Ended}
use msdk_linux.Keyboard.Calls.{Told, KbState}
use msdk_linux.Keyboard.Told.{m_key_state-held, m_key_up-Told, m_key_down-Told}
use msdk_linux.Keyboard.Sets.{call_keys-after_calls, call_keys, press_code, lift_code}
use msdk_linux.Keyboard.Op.{is_modifier, is_key_code}
use msdk_linux.Keyboard.Windows.{by_vkey_lem, HasKey}
use msdk_linux.KeyCode.Vkey.{vkey2hidcode}
use msdk_linux.Keyboard.ReleaseAll.{m_release_all_key-Told}

-- `A` is 4, and the left Shift key is 225.
a_is_key : is_key_code (pos 4) ≡ true
unfolding is_key_code
a_is_key = refl

shift_is_key : is_key_code (pos 225) ≡ true
unfolding is_key_code
shift_is_key = refl

m_key_down-Told_example :
    Returns (m_key_down box live (pos 4) start) (Told 7 [] true 0 (4 ∷ []) start)
unfolding is_modifier
m_key_down-Told_example =
    m_key_down-Told box box-IsPrompt 7 0 [] [] true 4 start a_is_key start-KbState

m_key_up-Told_example : Returns (m_key_up box live (pos 225) start) (Told 7 [] true 0 [] start)
unfolding is_modifier
m_key_up-Told_example =
    m_key_up-Told box box-IsPrompt 7 0 [] [] true 225 start shift_is_key start-KbState

m_key_state-held_example : m_key_state live (pos 4) start ≡ done (pos 0) start
unfolding is_modifier
m_key_state-held_example =
    m_key_state-held box box-IsPrompt 7 0 [] [] true 4 start a_is_key start-KbState

call_keys-after_calls_example :
    Returns
      (call_keys box (press_code 4 ∷ press_code 225 ∷ lift_code 4 ∷ []) start)
      (λ r w'. m_key_state live (pos 225) w' ≡ done (pos 1) w')
unfolding is_modifier
call_keys-after_calls_example =
    call_keys-after_calls box box-IsPrompt 7 true 225 shift_is_key
      (press_code 4 ∷ press_code 225 ∷ lift_code 4 ∷ []) 0 [] [] start
      (a_is_key, (shift_is_key, (a_is_key, tt))) (inr (inr (omega arith)), (inl refl, tt))
      start-KbState

a_is_free : held 0 [] 4 ≡ false
unfolding is_modifier
a_is_free = refl

m_key_press-Ended_example : Returns (m_key_press box live (pos 4) (pos 3) start) (λ r w'.
    ((r ≡ pos 0)
      × AfterPresses box box-IsPrompt 7 0 [] true 4 a_is_key a_is_free
          (inr (inr (omega arith)))
          0
          3
          w')
    ⊎ (r ≡ minus_one))
m_key_press-Ended_example =
    m_key_press-Ended box box-IsPrompt 7 0 [] true 4 a_is_key a_is_free (inr (inr (omega arith))) 3
      [] start (omega arith) start-KbState

-- The Windows code of the key `A` is 65.
by_vkey_lem_example :
    (¬ HasKey 65
      × (m_key_down2 box live (pos 65) start ≡ done minus_one start)
      × (m_key_up2 box live (pos 65) start ≡ done minus_one start)
      × (m_key_state2 live (pos 65) start ≡ done minus_one start))
    ⊎ (HasKey 65
        × (m_key_down2 box live (pos 65) start ≡ m_key_down box live (pos (vkey2hidcode 65)) start)
        × (m_key_up2 box live (pos 65) start ≡ m_key_up box live (pos (vkey2hidcode 65)) start)
        × (m_key_state2 live (pos 65) start ≡ m_key_state live (pos (vkey2hidcode 65)) start))
by_vkey_lem_example = by_vkey_lem box 65 start

m_release_all_key-Told_example : Returns (m_release_all_key box live start) (λ r w'.
    (r ≡ pos 0)
    × KbState 7 0 [] ((0 ∷ []) ∷ []) true w'
    × (w'.udev ≡ record start.udev { curr_kb_op = w'.udev.curr_kb_op }))
m_release_all_key-Told_example =
    m_release_all_key-Told box 7 0 [] [] true start box-IsPrompt start-KbState
