-- ===== src/Keyboard/Op.antt =====
-- What the keyboard functions of msdk/msdk.c do to `CurrKbOp`, the report that they send.
-- Byte 0 is 0x80 plus the index of the last byte in use, byte 1 holds the modifiers, byte 2 is 0,
-- and bytes 3 to 8 hold the keys that are down.
pub mod Press
pub mod Release
pub mod Query
pub mod Modifiers
use msdk_linux.Base.{
  ℕ, ℤ, List, Bool, not, replicate, get_or, suc, bit_and, leb, if◌then◌else◌, set, false, clear_bit,
  ltb, test_bit, ltb_ℤ, ◌-◌, set_bit, ◌++◌, ◌==◌, ◌&&◌, ◌+◌, drop, bit_or, pos, ◌||◌, u8, zero,
}
use msdk_linux.KeyCode.{
  keyboard_left_control, keyboard_right_windows, keyboard_a, keyboard_application,
}

abbrev pub byte : List ℕ → ℕ → ℕ
byte op i = get_or op i 0

-- The codes that the functions accept: the keys from `Keyboard_a` to `Keyboard_Application`, and
-- the modifiers.
unfoldable pub is_key_code : ℤ → Bool
is_key_code code = not (
    ltb_ℤ code (pos keyboard_a)
    || ltb_ℤ (pos keyboard_right_windows) code
    || (ltb_ℤ code (pos keyboard_left_control) && ltb_ℤ (pos keyboard_application) code))

-- `(HidKeyCode >= Keyboard_LeftControl) && (HidKeyCode <= Keyboard_RightWindows)`
unfoldable pub is_modifier : ℕ → Bool
is_modifier code = leb keyboard_left_control code && leb code keyboard_right_windows

-- Byte 0 says that nothing is down, or makes no sense.
unfoldable pub is_stale : List ℕ → Bool
is_stale op =
    bit_and (byte op 0) 0x80 == 0
    || ltb 8 (bit_and (byte op 0) 0x7F)
    || ltb (bit_and (byte op 0) 0x7F) 3

-- `memset(CurrKbOp, 0, 9)`
abbrev pub clear_kb : List ℕ → List ℕ
clear_kb op = replicate 9 0 ++ drop 9 op

-- `M_KeyDown` of the modifier with bit `k`.
unfoldable pub press_modifier : ℕ → List ℕ → List ℕ
unfolding is_stale
press_modifier k op =
    let op' = set op 1 (set_bit (byte op 1) k) in
    if is_stale op' then set (set op' 0 0x83) 3 0 else op'

-- The loop of `M_KeyDown` over the places from `kb_pos` on, of which `left` are left up to 8.
unfoldable pub place_key : ℕ → ℕ → ℕ → List ℕ → List ℕ
place_key zero kb_pos code op = set (set op 8 code) 0 0x88
place_key (suc left) kb_pos code op =
    if byte op kb_pos == 0
    then set (set op kb_pos code) 0 (bit_or 0x80 kb_pos)
    else if byte op kb_pos == code
    then op
    else place_key left (kb_pos + 1) code op

-- `M_KeyDown` of a key.
unfoldable pub press_key : ℕ → List ℕ → List ℕ
unfolding is_stale place_key
press_key code op =
    if is_stale op then set (set (set op 0 0x83) 1 0) 3 code else place_key 6 3 code op

-- `M_KeyUp` of the modifier with bit `k`.
unfoldable pub release_modifier : ℕ → List ℕ → List ℕ
unfolding is_stale
release_modifier k op =
    let op' = set op 1 (clear_bit (byte op 1) k) in if is_stale op' then clear_kb op' else op'

-- The inner loop of `M_KeyUp`: the keys from `mov_pos` on move down by one place.
unfoldable pub close_gap : ℕ → ℕ → List ℕ → List ℕ
close_gap zero mov_pos op = op
close_gap (suc left) mov_pos op =
    let key = byte op mov_pos in
    if key == 0
    then op
    else close_gap left (mov_pos + 1)
        (let op' = set (set op (mov_pos - 1) key) mov_pos 0 in set op' 0 (u8 (byte op' 0 + 1)))

-- The end of `M_KeyUp`: only the modifiers are left, or nothing.
unfoldable pub settle : List ℕ → List ℕ
settle op =
    if ltb (bit_and (byte op 0) 0x7F) 3
    then (let op' = set (set op 0 0x83) 3 0 in if byte op' 1 == 0 then clear_kb op' else op')
    else op

-- The loop of `M_KeyUp` over the places from `kb_pos` on, of which `left` are left.
unfoldable pub remove_key : ℕ → ℕ → ℕ → List ℕ → List ℕ
unfolding close_gap settle
remove_key zero kb_pos code op = op
remove_key (suc left) kb_pos code op =
    if byte op kb_pos == code
    then settle (close_gap left (kb_pos + 1) (set (set op kb_pos 0) 0 (bit_or 0x80 (kb_pos - 1))))
    else if byte op kb_pos == 0
    then op
    else remove_key left (kb_pos + 1) code op

-- `M_KeyUp` of a key; the loop runs up to the index in byte 0.
unfoldable pub release_key : ℕ → List ℕ → List ℕ
unfolding is_stale remove_key
release_key code op =
    if is_stale op then clear_kb op else remove_key (bit_and (byte op 0) 0x7F - 2) 3 code op

-- The loop of `M_KeyState`.
unfoldable pub find_key : ℕ → ℕ → ℕ → List ℕ → Bool
find_key zero kb_pos code op = false
find_key (suc left) kb_pos code op = byte op kb_pos == code || find_key left (kb_pos + 1) code op

-- The answer of `M_KeyState` for an accepted code.
unfoldable pub is_down : ℕ → List ℕ → Bool
unfolding is_modifier find_key
is_down code op =
    if is_modifier code
    then test_bit (byte op 1) (code - keyboard_left_control)
    else find_key (bit_and (byte op 0) 0x7F - 2) 3 code op
