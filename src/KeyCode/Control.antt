-- ===== src/KeyCode/Control.antt =====
-- msdk/KeyCode.h: the usage codes of the function keys, the keypad and the modifiers.
use msdk_linux.Base.{ℕ}

abbrev pub keyboard_f1 : ℕ
keyboard_f1 = 58

abbrev pub keyboard_f2 : ℕ
keyboard_f2 = 59

abbrev pub keyboard_f3 : ℕ
keyboard_f3 = 60

abbrev pub keyboard_f4 : ℕ
keyboard_f4 = 61

abbrev pub keyboard_f5 : ℕ
keyboard_f5 = 62

abbrev pub keyboard_f6 : ℕ
keyboard_f6 = 63

abbrev pub keyboard_f7 : ℕ
keyboard_f7 = 64

abbrev pub keyboard_f8 : ℕ
keyboard_f8 = 65

abbrev pub keyboard_f9 : ℕ
keyboard_f9 = 66

abbrev pub keyboard_f10 : ℕ
keyboard_f10 = 67

abbrev pub keyboard_f11 : ℕ
keyboard_f11 = 68

abbrev pub keyboard_f12 : ℕ
keyboard_f12 = 69

abbrev pub keyboard_print_screen : ℕ
keyboard_print_screen = 70

abbrev pub keyboard_scroll_lock : ℕ
keyboard_scroll_lock = 71

abbrev pub keyboard_pause : ℕ
keyboard_pause = 72

abbrev pub keyboard_insert : ℕ
keyboard_insert = 73

abbrev pub keyboard_home : ℕ
keyboard_home = 74

abbrev pub keyboard_page_up : ℕ
keyboard_page_up = 75

abbrev pub keyboard_delete : ℕ
keyboard_delete = 76

abbrev pub keyboard_end : ℕ
keyboard_end = 77

abbrev pub keyboard_page_down : ℕ
keyboard_page_down = 78

abbrev pub keyboard_right_arrow : ℕ
keyboard_right_arrow = 79

abbrev pub keyboard_left_arrow : ℕ
keyboard_left_arrow = 80

abbrev pub keyboard_down_arrow : ℕ
keyboard_down_arrow = 81

abbrev pub keyboard_up_arrow : ℕ
keyboard_up_arrow = 82

abbrev pub keypad_num_lock : ℕ
keypad_num_lock = 83

abbrev pub keypad_chu_hao : ℕ
keypad_chu_hao = 84

abbrev pub keypad_cheng_hao : ℕ
keypad_cheng_hao = 85

abbrev pub keypad_jian_hao : ℕ
keypad_jian_hao = 86

abbrev pub keypad_jia_hao : ℕ
keypad_jia_hao = 87

abbrev pub keypad_enter : ℕ
keypad_enter = 88

abbrev pub keypad_1_and_end : ℕ
keypad_1_and_end = 89

abbrev pub keypad_2_and_down_arrow : ℕ
keypad_2_and_down_arrow = 90

abbrev pub keypad_3_and_page_dn : ℕ
keypad_3_and_page_dn = 91

abbrev pub keypad_4_and_left_arrow : ℕ
keypad_4_and_left_arrow = 92

abbrev pub keypad_5 : ℕ
keypad_5 = 93

abbrev pub keypad_6_and_right_arrow : ℕ
keypad_6_and_right_arrow = 94

abbrev pub keypad_7_and_home : ℕ
keypad_7_and_home = 95

abbrev pub keypad_8_and_up_arrow : ℕ
keypad_8_and_up_arrow = 96

abbrev pub keypad_9_and_page_up : ℕ
keypad_9_and_page_up = 97

abbrev pub keypad_0_and_insert : ℕ
keypad_0_and_insert = 98

abbrev pub keypad_dian_and_delete : ℕ
keypad_dian_and_delete = 99

abbrev pub keyboard_application : ℕ
keyboard_application = 101

abbrev pub keyboard_left_control : ℕ
keyboard_left_control = 224

abbrev pub keyboard_left_shift : ℕ
keyboard_left_shift = 225

abbrev pub keyboard_left_alt : ℕ
keyboard_left_alt = 226

abbrev pub keyboard_left_windows : ℕ
keyboard_left_windows = 227

abbrev pub keyboard_right_control : ℕ
keyboard_right_control = 228

abbrev pub keyboard_right_shift : ℕ
keyboard_right_shift = 229

abbrev pub keyboard_right_alt : ℕ
keyboard_right_alt = 230

abbrev pub keyboard_right_windows : ℕ
keyboard_right_windows = 231
