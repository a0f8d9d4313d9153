-- ===== src/KeyCode/Names.antt =====
-- msdk/AjjlKeyName.h: the names of the keys, `KEYNAME_AJJL` for scripts and `HIDCODENAME` for
-- the constants of msdk/KeyCode.h. The arrays have 256 places, and those past a list are empty.
use Prim.Native.String.{String}
use msdk_linux.Base.{ℕ, List, [], ◌∷◌, ◌++◌, get_or}

pub keyname_ajjl_list : List String
keyname_ajjl_list =
    " " ∷ " " ∷ " " ∷ " " ∷ "\"A\"," ∷ "\"B\"," ∷ "\"C\"," ∷ "\"D\"," ∷ "\"E\"," ∷ "\"F\","
    ∷ "\"G\"," ∷ "\"H\"," ∷ "\"I\"," ∷ "\"J\"," ∷ "\"K\"," ∷ "\"L\"," ∷ "\"M\"," ∷ "\"N\","
    ∷ "\"O\"," ∷ "\"P\"," ∷ "\"Q\"," ∷ "\"R\"," ∷ "\"S\"," ∷ "\"T\"," ∷ "\"U\"," ∷ "\"V\","
    ∷ "\"W\"," ∷ "\"X\"," ∷ "\"Y\"," ∷ "\"Z\"," ∷ "\"1\"," ∷ "\"2\"," ∷ "\"3\"," ∷ "\"4\","
    ∷ "\"5\"," ∷ "\"6\"," ∷ "\"7\"," ∷ "\"8\"," ∷ "\"9\"," ∷ "\"0\"," ∷ "\"Enter\"," ∷ "\"Esc\","
    ∷ "\"BackSpace\"," ∷ "\"Tab\"," ∷ "\"Space\"," ∷ "\"-\"," ∷ "\"=\"," ∷ "\"[\"," ∷ "\"]\","
    ∷ "\"\\\"," ∷ " " ∷ "\";\"," ∷ "\"'\"," ∷ "\"`\"," ∷ "\",\"," ∷ "\".\"," ∷ "\"/\","
    ∷ "\"CapsLock\"," ∷ "\"F1\"," ∷ "\"F2\"," ∷ "\"F3\"," ∷ "\"F4\"," ∷ "\"F5\"," ∷ "\"F6\","
    ∷ "\"F7\"," ∷ "\"F8\"," ∷ "\"F9\"," ∷ "\"F10\"," ∷ "\"F11\"," ∷ "\"F12\"," ∷ "\"PrintScreen\","
    ∷ "\"ScrollLock\"," ∷ "\"Pause/Break\"," ∷ "\"Insert\"," ∷ "\"Home\"," ∷ "\"PageUp\","
    ∷ "\"Delete\"," ∷ "\"End\"," ∷ "\"PageDown\"," ∷ "\"Right\"," ∷ "\"Left\"," ∷ "\"Down\","
    ∷ "\"Up\"," ∷ "\"NumLock\"," ∷ "\"Num/\"," ∷ "\"Num*\"," ∷ "\"Num-\"," ∷ "\"Num+\","
    ∷ "\"NumENTER\"," ∷ "\"Num1\"," ∷ "\"Num2\"," ∷ "\"Num3\"," ∷ "\"Num4\"," ∷ "\"Num5\","
    ∷ "\"Num6\"," ∷ "\"Num7\"," ∷ "\"Num8\"," ∷ "\"Num9\"," ∷ "\"Num0\"," ∷ "\"Num.\","
    ∷ "\"Ctrl\"," ∷ "\"Shift\"," ∷ "\"Alt\"," ∷ "\"Win\"," ∷ "\"RightCtrl\"," ∷ "\"RightShift\","
    ∷ "\"RightAlt\"," ∷ "\"RightWin\"," ∷ []

pub keyname_ajjl : ℕ → String
unfolding keyname_ajjl_list
keyname_ajjl code = get_or keyname_ajjl_list code ""

-- Usage codes 0 to 115.
pub hidcodename_low : List String
hidcodename_low =
    "" ∷ "" ∷ "" ∷ "" ∷ "Keyboard_a" ∷ "Keyboard_b" ∷ "Keyboard_c" ∷ "Keyboard_d" ∷ "Keyboard_e"
    ∷ "Keyboard_f" ∷ "Keyboard_g" ∷ "Keyboard_h" ∷ "Keyboard_i" ∷ "Keyboard_j" ∷ "Keyboard_k"
    ∷ "Keyboard_l" ∷ "Keyboard_m" ∷ "Keyboard_n" ∷ "Keyboard_o" ∷ "Keyboard_p" ∷ "Keyboard_q"
    ∷ "Keyboard_r" ∷ "Keyboard_s" ∷ "Keyboard_t" ∷ "Keyboard_u" ∷ "Keyboard_v" ∷ "Keyboard_w"
    ∷ "Keyboard_x" ∷ "Keyboard_y" ∷ "Keyboard_z" ∷ "Keyboard_1" ∷ "Keyboard_2" ∷ "Keyboard_3"
    ∷ "Keyboard_4" ∷ "Keyboard_5" ∷ "Keyboard_6" ∷ "Keyboard_7" ∷ "Keyboard_8" ∷ "Keyboard_9"
    ∷ "Keyboard_0" ∷ "Keyboard_ENTER" ∷ "Keyboard_ESCAPE" ∷ "Keyboard_Backspace" ∷ "Keyboard_Tab"
    ∷ "Keyboard_KongGe" ∷ "Keyboard_JianHao" ∷ "Keyboard_DengHao" ∷ "Keyboard_ZuoZhongKuoHao"
    ∷ "Keyboard_YouZhongKuoHao" ∷ "Keyboard_FanXieGang" ∷ "" ∷ "Keyboard_FenHao"
    ∷ "Keyboard_DanYinHao" ∷ "Keyboard_BoLangXian" ∷ "Keyboard_Douhao" ∷ "Keyboard_JuHao"
    ∷ "Keyboard_XieGang_WenHao" ∷ "Keyboard_CapsLock" ∷ "Keyboard_F1" ∷ "Keyboard_F2"
    ∷ "Keyboard_F3" ∷ "Keyboard_F4" ∷ "Keyboard_F5" ∷ "Keyboard_F6" ∷ "Keyboard_F7" ∷ "Keyboard_F8"
    ∷ "Keyboard_F9" ∷ "Keyboard_F10" ∷ "Keyboard_F11" ∷ "Keyboard_F12" ∷ "Keyboard_PrintScreen"
    ∷ "Keyboard_ScrollLock" ∷ "Keyboard_Pause" ∷ "Keyboard_Insert" ∷ "Keyboard_Home"
    ∷ "Keyboard_PageUp" ∷ "Keyboard_Delete" ∷ "Keyboard_End" ∷ "Keyboard_PageDown"
    ∷ "Keyboard_RightArrow" ∷ "Keyboard_LeftArrow" ∷ "Keyboard_DownArrow" ∷ "Keyboard_UpArrow"
    ∷ "Keypad_NumLock" ∷ "Keypad_ChuHao" ∷ "Keypad_ChengHao" ∷ "Keypad_JianHao" ∷ "Keypad_JiaHao"
    ∷ "Keypad_ENTER" ∷ "Keypad_1_and_End" ∷ "Keypad_2_and_DownArrow" ∷ "Keypad_3_and_PageDn"
    ∷ "Keypad_4_and_LeftArrow" ∷ "Keypad_5" ∷ "Keypad_6_and_RightArrow" ∷ "Keypad_7_and_Home"
    ∷ "Keypad_8_and_UpArrow" ∷ "Keypad_9_and_PageUp" ∷ "Keypad_0_and_Insert"
    ∷ "Keypad_Dian_and_Delete" ∷ "" ∷ "" ∷ "" ∷ "" ∷ "" ∷ "" ∷ "" ∷ "" ∷ "" ∷ "" ∷ "" ∷ "" ∷ "" ∷ ""
    ∷ "" ∷ "" ∷ []

-- Usage codes 116 to 231.
pub hidcodename_high : List String
hidcodename_high =
    "" ∷ "" ∷ "" ∷ "" ∷ "" ∷ "" ∷ "" ∷ "" ∷ "" ∷ "" ∷ "" ∷ "" ∷ "" ∷ "" ∷ "" ∷ "" ∷ "" ∷ "" ∷ ""
    ∷ "" ∷ "" ∷ "" ∷ "" ∷ "" ∷ "" ∷ "" ∷ "" ∷ "" ∷ "" ∷ "" ∷ "" ∷ "" ∷ "" ∷ "" ∷ "" ∷ "" ∷ "" ∷ ""
    ∷ "" ∷ "" ∷ "" ∷ "" ∷ "" ∷ "" ∷ "" ∷ "" ∷ "" ∷ "" ∷ "" ∷ "" ∷ "" ∷ "" ∷ "" ∷ "" ∷ "" ∷ "" ∷ ""
    ∷ "" ∷ "" ∷ "" ∷ "" ∷ "" ∷ "" ∷ "" ∷ "" ∷ "" ∷ "" ∷ "" ∷ "" ∷ "" ∷ "" ∷ "" ∷ "" ∷ "" ∷ "" ∷ ""
    ∷ "" ∷ "" ∷ "" ∷ "" ∷ "" ∷ "" ∷ "" ∷ "" ∷ "" ∷ "" ∷ "" ∷ "" ∷ "" ∷ "" ∷ "" ∷ "" ∷ "" ∷ "" ∷ ""
    ∷ "" ∷ "" ∷ "" ∷ "" ∷ "" ∷ "" ∷ "" ∷ "" ∷ "" ∷ "" ∷ "" ∷ "" ∷ "" ∷ "Keyboard_LeftControl"
    ∷ "Keyboard_LeftShift" ∷ "Keyboard_LeftAlt" ∷ "Keyboard_LeftWindows" ∷ "Keyboard_RightControl"
    ∷ "Keyboard_RightShift" ∷ "Keyboard_RightAlt" ∷ "Keyboard_RightWindows" ∷ []

pub hidcodename : ℕ → String
unfolding hidcodename_low hidcodename_high
hidcodename code = get_or (hidcodename_low ++ hidcodename_high) code ""
