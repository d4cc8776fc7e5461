-- ===== src/KeyTables/Names.antt =====
-- The key codes of the Linux headers that the tables of src/platform/linux/keycode_mapping.cpp name.
-- Their values stand in those headers, so a key is its name here.
use yamy.Base.{ℕ, zero, suc, ◌≡◌, refl, ap, sym, ◌∙◌, Option, none, some, List, [], ◌∷◌}

pub data KeyName : Type 0 where
  key_a key_b key_c key_d key_e key_f : KeyName
  key_g key_h key_i key_j key_k key_l : KeyName
  key_m key_n key_o key_p key_q key_r : KeyName
  key_s key_t key_u key_v key_w key_x : KeyName
  key_y key_z key_0 key_1 key_2 key_3 : KeyName
  key_4 key_5 key_6 key_7 key_8 key_9 : KeyName
  key_f1 key_f2 key_f3 key_f4 key_f5 key_f6 : KeyName
  key_f7 key_f8 key_f9 key_f10 key_f11 key_f12 : KeyName
  key_f13 key_f14 key_f15 key_f16 key_f17 key_f18 : KeyName
  key_f19 key_f20 key_f21 key_f22 key_f23 key_f24 : KeyName
  key_leftshift key_rightshift key_leftctrl key_rightctrl key_leftalt key_rightalt : KeyName
  key_leftmeta key_rightmeta key_esc key_tab key_capslock key_enter : KeyName
  key_backspace key_space key_insert key_delete key_home key_end : KeyName
  key_pageup key_pagedown key_left key_right key_up key_down : KeyName
  key_numlock key_scrolllock key_kp0 key_kp1 key_kp2 key_kp3 : KeyName
  key_kp4 key_kp5 key_kp6 key_kp7 key_kp8 key_kp9 : KeyName
  key_kpasterisk key_kpplus key_kpminus key_kpdot key_kpslash key_kpenter : KeyName
  key_minus key_equal key_leftbrace key_rightbrace key_semicolon key_apostrophe : KeyName
  key_grave key_backslash key_comma key_dot key_slash key_102nd : KeyName
  key_sysrq key_pause key_menu key_sleep key_katakanahiragana key_ro : KeyName
  key_henkan key_muhenkan key_yen : KeyName

-- All of them.
unfoldable pub key_names : List KeyName
key_names =
    key_a ∷ key_b ∷ key_c ∷ key_d ∷ key_e ∷ key_f ∷ key_g ∷ key_h ∷ key_i ∷ key_j ∷ key_k ∷ key_l
    ∷ key_m ∷ key_n ∷ key_o ∷ key_p ∷ key_q ∷ key_r ∷ key_s ∷ key_t ∷ key_u ∷ key_v ∷ key_w ∷ key_x
    ∷ key_y ∷ key_z ∷ key_0 ∷ key_1 ∷ key_2 ∷ key_3 ∷ key_4 ∷ key_5 ∷ key_6 ∷ key_7 ∷ key_8 ∷ key_9
    ∷ key_f1 ∷ key_f2 ∷ key_f3 ∷ key_f4 ∷ key_f5 ∷ key_f6 ∷ key_f7 ∷ key_f8 ∷ key_f9 ∷ key_f10
    ∷ key_f11 ∷ key_f12 ∷ key_f13 ∷ key_f14 ∷ key_f15 ∷ key_f16 ∷ key_f17 ∷ key_f18 ∷ key_f19
    ∷ key_f20 ∷ key_f21 ∷ key_f22 ∷ key_f23 ∷ key_f24 ∷ key_leftshift ∷ key_rightshift
    ∷ key_leftctrl ∷ key_rightctrl ∷ key_leftalt ∷ key_rightalt ∷ key_leftmeta ∷ key_rightmeta
    ∷ key_esc ∷ key_tab ∷ key_capslock ∷ key_enter ∷ key_backspace ∷ key_space ∷ key_insert
    ∷ key_delete ∷ key_home ∷ key_end ∷ key_pageup ∷ key_pagedown ∷ key_left ∷ key_right ∷ key_up
    ∷ key_down ∷ key_numlock ∷ key_scrolllock ∷ key_kp0 ∷ key_kp1 ∷ key_kp2 ∷ key_kp3 ∷ key_kp4
    ∷ key_kp5 ∷ key_kp6 ∷ key_kp7 ∷ key_kp8 ∷ key_kp9 ∷ key_kpasterisk ∷ key_kpplus ∷ key_kpminus
    ∷ key_kpdot ∷ key_kpslash ∷ key_kpenter ∷ key_minus ∷ key_equal ∷ key_leftbrace ∷ key_rightbrace
    ∷ key_semicolon ∷ key_apostrophe ∷ key_grave ∷ key_backslash ∷ key_comma ∷ key_dot ∷ key_slash
    ∷ key_102nd ∷ key_sysrq ∷ key_pause ∷ key_menu ∷ key_sleep ∷ key_katakanahiragana ∷ key_ro
    ∷ key_henkan ∷ key_muhenkan ∷ key_yen ∷ []

unfoldable pub nth_name : List KeyName → ℕ → Option KeyName
nth_name [] i = none
nth_name (k ∷ keys) zero = some k
nth_name (k ∷ keys) (suc i) = nth_name keys i

-- Its place in the list, which tells keys apart.
unfoldable pub index : KeyName → ℕ
index key_a = 0
index key_b = 1
index key_c = 2
index key_d = 3
index key_e = 4
index key_f = 5
index key_g = 6
index key_h = 7
index key_i = 8
index key_j = 9
index key_k = 10
index key_l = 11
index key_m = 12
index key_n = 13
index key_o = 14
index key_p = 15
index key_q = 16
index key_r = 17
index key_s = 18
index key_t = 19
index key_u = 20
index key_v = 21
index key_w = 22
index key_x = 23
index key_y = 24
index key_z = 25
index key_0 = 26
index key_1 = 27
index key_2 = 28
index key_3 = 29
index key_4 = 30
index key_5 = 31
index key_6 = 32
index key_7 = 33
index key_8 = 34
index key_9 = 35
index key_f1 = 36
index key_f2 = 37
index key_f3 = 38
index key_f4 = 39
index key_f5 = 40
index key_f6 = 41
index key_f7 = 42
index key_f8 = 43
index key_f9 = 44
index key_f10 = 45
index key_f11 = 46
index key_f12 = 47
index key_f13 = 48
index key_f14 = 49
index key_f15 = 50
index key_f16 = 51
index key_f17 = 52
index key_f18 = 53
index key_f19 = 54
index key_f20 = 55
index key_f21 = 56
index key_f22 = 57
index key_f23 = 58
index key_f24 = 59
index key_leftshift = 60
index key_rightshift = 61
index key_leftctrl = 62
index key_rightctrl = 63
index key_leftalt = 64
index key_rightalt = 65
index key_leftmeta = 66
index key_rightmeta = 67
index key_esc = 68
index key_tab = 69
index key_capslock = 70
index key_enter = 71
index key_backspace = 72
index key_space = 73
index key_insert = 74
index key_delete = 75
index key_home = 76
index key_end = 77
index key_pageup = 78
index key_pagedown = 79
index key_left = 80
index key_right = 81
index key_up = 82
index key_down = 83
index key_numlock = 84
index key_scrolllock = 85
index key_kp0 = 86
index key_kp1 = 87
index key_kp2 = 88
index key_kp3 = 89
index key_kp4 = 90
index key_kp5 = 91
index key_kp6 = 92
index key_kp7 = 93
index key_kp8 = 94
index key_kp9 = 95
index key_kpasterisk = 96
index key_kpplus = 97
index key_kpminus = 98
index key_kpdot = 99
index key_kpslash = 100
index key_kpenter = 101
index key_minus = 102
index key_equal = 103
index key_leftbrace = 104
index key_rightbrace = 105
index key_semicolon = 106
index key_apostrophe = 107
index key_grave = 108
index key_backslash = 109
index key_comma = 110
index key_dot = 111
index key_slash = 112
index key_102nd = 113
index key_sysrq = 114
index key_pause = 115
index key_menu = 116
index key_sleep = 117
index key_katakanahiragana = 118
index key_ro = 119
index key_henkan = 120
index key_muhenkan = 121
index key_yen = 122

nth_name-index : (k : KeyName) → nth_name key_names (index k) ≡ some k
unfolding nth_name key_names index
nth_name-index key_a = refl
nth_name-index _ = refl

abbrev pub name_or : KeyName → Option KeyName → KeyName
name_or d none = d
name_or d (some k) = k

-- Keys with one place are one key.
pub index_injective : (a b : KeyName) → index a ≡ index b → a ≡ b
index_injective a b e =
    let found : some a ≡ some b =
      sym (nth_name-index a) ∙ ap (nth_name key_names) e ∙ nth_name-index b in
    ap (name_or a) found
