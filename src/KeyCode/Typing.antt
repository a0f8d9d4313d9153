-- ===== src/KeyCode/Typing.antt =====
-- msdk/KeyCode.h: the usage codes of the letters, the digits and the signs.
use msdk_linux.Base.{ℕ}

abbrev pub keyboard_a : ℕ
keyboard_a = 4

abbrev pub keyboard_b : ℕ
keyboard_b = 5

abbrev pub keyboard_c : ℕ
keyboard_c = 6

abbrev pub keyboard_d : ℕ
keyboard_d = 7

abbrev pub keyboard_e : ℕ
keyboard_e = 8

abbrev pub keyboard_f : ℕ
keyboard_f = 9

abbrev pub keyboard_g : ℕ
keyboard_g = 10

abbrev pub keyboard_h : ℕ
keyboard_h = 11

abbrev pub keyboard_i : ℕ
keyboard_i = 12

abbrev pub keyboard_j : ℕ
keyboard_j = 13

abbrev pub keyboard_k : ℕ
keyboard_k = 14

abbrev pub keyboard_l : ℕ
keyboard_l = 15

abbrev pub keyboard_m : ℕ
keyboard_m = 16

abbrev pub keyboard_n : ℕ
keyboard_n = 17

abbrev pub keyboard_o : ℕ
keyboard_o = 18

abbrev pub keyboard_p : ℕ
keyboard_p = 19

abbrev pub keyboard_q : ℕ
keyboard_q = 20

abbrev pub keyboard_r : ℕ
keyboard_r = 21

abbrev pub keyboard_s : ℕ
keyboard_s = 22

abbrev pub keyboard_t : ℕ
keyboard_t = 23

abbrev pub keyboard_u : ℕ
keyboard_u = 24

abbrev pub keyboard_v : ℕ
keyboard_v = 25

abbrev pub keyboard_w : ℕ
keyboard_w = 26

abbrev pub keyboard_x : ℕ
keyboard_x = 27

abbrev pub keyboard_y : ℕ
keyboard_y = 28

abbrev pub keyboard_z : ℕ
keyboard_z = 29

abbrev pub keyboard_1 : ℕ
keyboard_1 = 30

abbrev pub keyboard_2 : ℕ
keyboard_2 = 31

abbrev pub keyboard_3 : ℕ
keyboard_3 = 32

abbrev pub keyboard_4 : ℕ
keyboard_4 = 33

abbrev pub keyboard_5 : ℕ
keyboard_5 = 34

abbrev pub keyboard_6 : ℕ
keyboard_6 = 35

abbrev pub keyboard_7 : ℕ
keyboard_7 = 36

abbrev pub keyboard_8 : ℕ
keyboard_8 = 37

abbrev pub keyboard_9 : ℕ
keyboard_9 = 38

abbrev pub keyboard_0 : ℕ
keyboard_0 = 39

abbrev pub keyboard_enter : ℕ
keyboard_enter = 40

abbrev pub keyboard_escape : ℕ
keyboard_escape = 41

abbrev pub keyboard_backspace : ℕ
keyboard_backspace = 42

abbrev pub keyboard_tab : ℕ
keyboard_tab = 43

abbrev pub keyboard_kong_ge : ℕ
keyboard_kong_ge = 44

abbrev pub keyboard_jian_hao : ℕ
keyboard_jian_hao = 45

abbrev pub keyboard_deng_hao : ℕ
keyboard_deng_hao = 46

abbrev pub keyboard_zuo_zhong_kuo_hao : ℕ
keyboard_zuo_zhong_kuo_hao = 47

abbrev pub keyboard_you_zhong_kuo_hao : ℕ
keyboard_you_zhong_kuo_hao = 48

abbrev pub keyboard_fan_xie_gang : ℕ
keyboard_fan_xie_gang = 49

abbrev pub keyboard_fen_hao : ℕ
keyboard_fen_hao = 51

abbrev pub keyboard_dan_yin_hao : ℕ
keyboard_dan_yin_hao = 52

abbrev pub keyboard_bo_lang_xian : ℕ
keyboard_bo_lang_xian = 53

abbrev pub keyboard_douhao : ℕ
keyboard_douhao = 54

abbrev pub keyboard_ju_hao : ℕ
keyboard_ju_hao = 55

abbrev pub keyboard_xie_gang_wen_hao : ℕ
keyboard_xie_gang_wen_hao = 56

abbrev pub keyboard_caps_lock : ℕ
keyboard_caps_lock = 57
