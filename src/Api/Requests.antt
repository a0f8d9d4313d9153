-- ===== src/Api/Requests.antt =====
-- Requests: the calls of msdk/msdk.h on an open device, and what each leaves down.
use msdk_linux.Base.{ℤ, pos, if◌then◌else◌, ◌≡◌, ltb, minus_one, negsuc, [], Bool, true, false}
use msdk_linux.Machine.{Host, Prog, live, ◌>>=◌, return}
use msdk_linux.Api.Box.{Down, at_spot}
use msdk_linux.Curve.{Floats, m_move_to3}
use msdk_linux.Api.Keys.{after_down, after_up, Changes}
use msdk_linux.Keyboard.{
  m_key_down, m_key_up, m_key_state, m_key_down2, m_key_up2, m_key_state2, m_key_press,
  m_key_press2, m_release_all_key,
}
use msdk_linux.KeyCode.Vkey.{vkey2hidcode}
use msdk_linux.Api.Buttons.{pressed, released}
use msdk_linux.Led.{m_num_lock_led_state, m_caps_lock_led_state, m_scroll_lock_led_state}
use msdk_linux.Mouse.{
  m_left_down, m_left_up, m_right_down, m_right_up, m_middle_down, m_middle_up, m_release_all_mouse,
  m_left_click, m_right_click, m_middle_click, m_left_double_click, m_mouse_wheel,
}
use msdk_linux.Move.{m_reset_mouse_pos, m_get_curr_mouse_pos, m_move_r, m_move_to}
use msdk_linux.Absolute.{m_resolution_used}
use msdk_linux.Common.{m_delay_random, m_rand_dom_nbr, m_delay}

-- A call with its arguments; the handle is the one that `M_Open` returned.
pub data Request : Type 0 where
  key_down key_up key_state key_down2 key_up2 key_state2 : ℤ → Request
  key_press key_press2 : ℤ → ℤ → Request
  release_all_key num_lock caps_lock scroll_lock : Request
  left_down left_up right_down right_up middle_down middle_up release_all_mouse : Request
  left_click right_click middle_click left_double_click mouse_wheel : ℤ → Request
  reset_mouse_pos get_curr_mouse_pos : Request
  move_r move_to resolution_used move_to3 delay_random rand_dom_nbr : ℤ → ℤ → Request
  delay : ℤ → Request

-- The calls that move the pointer; all the others leave the kept position as it is.
unfoldable pub is_movement : Request → Bool
is_movement reset_mouse_pos = true
is_movement (move_r x y) = true
is_movement (move_to x y) = true
is_movement (move_to3 x y) = true
is_movement other = false

unfoldable pub run : Host → Floats → Request → Prog ℤ
run h fl (key_down code) = m_key_down h live code
run h fl (key_up code) = m_key_up h live code
run h fl (key_state code) = m_key_state live code
run h fl (key_down2 code) = m_key_down2 h live code
run h fl (key_up2 code) = m_key_up2 h live code
run h fl (key_state2 code) = m_key_state2 live code
run h fl (key_press code nbr) = m_key_press h live code nbr
run h fl (key_press2 code nbr) = m_key_press2 h live code nbr
run h fl release_all_key = m_release_all_key h live
run h fl num_lock = m_num_lock_led_state h live
run h fl caps_lock = m_caps_lock_led_state h live
run h fl scroll_lock = m_scroll_lock_led_state h live
run h fl left_down = m_left_down h live
run h fl left_up = m_left_up h live
run h fl right_down = m_right_down h live
run h fl right_up = m_right_up h live
run h fl middle_down = m_middle_down h live
run h fl middle_up = m_middle_up h live
run h fl release_all_mouse = m_release_all_mouse h live
run h fl (left_click nbr) = m_left_click h live nbr
run h fl (right_click nbr) = m_right_click h live nbr
run h fl (middle_click nbr) = m_middle_click h live nbr
run h fl (left_double_click nbr) = m_left_double_click h live nbr
run h fl (mouse_wheel nbr) = m_mouse_wheel h live nbr
run h fl reset_mouse_pos = m_reset_mouse_pos h live
run h fl get_curr_mouse_pos = do (r, place) ← m_get_curr_mouse_pos live; return r
run h fl (move_r x y) = m_move_r h live x y
run h fl (move_to x y) = m_move_to h live x y
run h fl (resolution_used x y) = m_resolution_used live x y
run h fl (move_to3 x y) = m_move_to3 h fl live x y
run h fl (delay_random a b) = m_delay_random h a b
run h fl (rand_dom_nbr a b) = m_rand_dom_nbr h a b
run h fl (delay time) = m_delay time

-- The usage code for a Windows code; one that is refused has -1, which is refused too.
abbrev pub hid_of : ℤ → ℤ
hid_of (pos code) = if ltb 222 code then minus_one else pos (vkey2hidcode code)
hid_of (negsuc n) = minus_one

-- What a call may leave down, where `d` was down. Where a call presses or clicks several times, a
-- report that fails ends it in between; a movement leaves the pointer anywhere.
unfoldable pub Effect : Request → Down → Down → Type 0
Effect (key_down code) d d' = d' ≡ after_down code d
Effect (key_up code) d d' = d' ≡ after_up code d
Effect (key_state code) d d' = d' ≡ d
Effect (key_down2 code) d d' = d' ≡ after_down (hid_of code) d
Effect (key_up2 code) d d' = d' ≡ after_up (hid_of code) d
Effect (key_state2 code) d d' = d' ≡ d
Effect (key_press code nbr) d d' = Changes (after_down code) (after_up code) d d'
Effect (key_press2 code nbr) d d' = Changes (after_down (hid_of code)) (after_up (hid_of code)) d d'
Effect release_all_key d d' = d' ≡ record d { mods = 0; keys = [] }
Effect num_lock d d' = d' ≡ d
Effect caps_lock d d' = d' ≡ d
Effect scroll_lock d d' = d' ≡ d
Effect left_down d d' = d' ≡ pressed 0 d
Effect left_up d d' = d' ≡ released 0 d
Effect right_down d d' = d' ≡ pressed 1 d
Effect right_up d d' = d' ≡ released 1 d
Effect middle_down d d' = d' ≡ pressed 2 d
Effect middle_up d d' = d' ≡ released 2 d
Effect release_all_mouse d d' = d' ≡ record d { buttons = 0 }
Effect (left_click nbr) d d' = Changes (pressed 0) (released 0) d d'
Effect (right_click nbr) d d' = Changes (pressed 1) (released 1) d d'
Effect (middle_click nbr) d d' = Changes (pressed 2) (released 2) d d'
Effect (left_double_click nbr) d d' = Changes (pressed 0) (released 0) d d'
Effect (mouse_wheel nbr) d d' = d' ≡ d
Effect reset_mouse_pos d d' = d' ≡ at_spot d'.spot_x d'.spot_y d
Effect get_curr_mouse_pos d d' = d' ≡ d
Effect (move_r x y) d d' = d' ≡ at_spot d'.spot_x d'.spot_y d
Effect (move_to x y) d d' = d' ≡ at_spot d'.spot_x d'.spot_y d
Effect (resolution_used x y) d d' = d' ≡ d
Effect (move_to3 x y) d d' = d' ≡ at_spot d'.spot_x d'.spot_y d
Effect (delay_random a b) d d' = d' ≡ d
Effect (rand_dom_nbr a b) d d' = d' ≡ d
Effect (delay time) d d' = d' ≡ d
