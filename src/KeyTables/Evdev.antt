-- ===== src/KeyTables/Evdev.antt =====
-- src/platform/linux/keycode_mapping.cpp, `g_evdevToYamyMap`: from evdev codes to YAMY codes.
use yamy.Base.{ℕ, List, [], ◌∷◌}
use yamy.KeyTables.Names.{
  KeyName, key_a, key_b, key_c, key_d, key_e, key_f, key_g, key_h, key_i, key_j, key_k, key_l,
  key_m, key_n, key_o, key_p, key_q, key_r, key_s, key_t, key_u, key_v, key_w, key_x, key_y, key_z,
  key_0, key_1, key_2, key_3, key_4, key_5, key_6, key_7, key_8, key_9, key_f1, key_f2, key_f3,
  key_f4, key_f5, key_f6, key_f7, key_f8, key_f9, key_f10, key_f11, key_f12, key_f13, key_f14,
  key_f15, key_f16, key_f17, key_f18, key_f19, key_f20, key_f21, key_f22, key_f23, key_f24,
  key_leftshift, key_rightshift, key_leftctrl, key_rightctrl, key_leftalt, key_rightalt,
  key_leftmeta, key_rightmeta, key_esc, key_tab, key_capslock, key_enter, key_backspace, key_space,
  key_insert, key_delete, key_home, key_end, key_pageup, key_pagedown, key_left, key_right, key_up,
  key_down, key_numlock, key_scrolllock, key_kp0, key_kp1, key_kp2, key_kp3, key_kp4, key_kp5,
  key_kp6, key_kp7, key_kp8, key_kp9, key_kpasterisk, key_kpplus, key_kpminus, key_kpdot,
  key_kpslash, key_kpenter, key_minus, key_equal, key_leftbrace, key_rightbrace, key_semicolon,
  key_apostrophe, key_grave, key_backslash, key_comma, key_dot, key_slash, key_102nd, key_sysrq,
  key_pause, key_menu,
}

unfoldable pub evdev_to_yamy_map : List (KeyName × ℕ)
evdev_to_yamy_map =
    (key_a, 0x1E)
    ∷ (key_b, 0x30)
    ∷ (key_c, 0x2E)
    ∷ (key_d, 0x20)
    ∷ (key_e, 0x12)
    ∷ (key_f, 0x21)
    ∷ (key_g, 0x22)
    ∷ (key_h, 0x23)
    ∷ (key_i, 0x17)
    ∷ (key_j, 0x24)
    ∷ (key_k, 0x25)
    ∷ (key_l, 0x26)
    ∷ (key_m, 0x32)
    ∷ (key_n, 0x31)
    ∷ (key_o, 0x18)
    ∷ (key_p, 0x19)
    ∷ (key_q, 0x10)
    ∷ (key_r, 0x13)
    ∷ (key_s, 0x1F)
    ∷ (key_t, 0x14)
    ∷ (key_u, 0x16)
    ∷ (key_v, 0x2F)
    ∷ (key_w, 0x11)
    ∷ (key_x, 0x2D)
    ∷ (key_y, 0x15)
    ∷ (key_z, 0x2C)
    ∷ (key_0, 0x0B)
    ∷ (key_1, 0x02)
    ∷ (key_2, 0x03)
    ∷ (key_3, 0x04)
    ∷ (key_4, 0x05)
    ∷ (key_5, 0x06)
    ∷ (key_6, 0x07)
    ∷ (key_7, 0x08)
    ∷ (key_8, 0x09)
    ∷ (key_9, 0x0A)
    ∷ (key_f1, 0x3B)
    ∷ (key_f2, 0x3C)
    ∷ (key_f3, 0x3D)
    ∷ (key_f4, 0x3E)
    ∷ (key_f5, 0x3F)
    ∷ (key_f6, 0x40)
    ∷ (key_f7, 0x41)
    ∷ (key_f8, 0x42)
    ∷ (key_f9, 0x43)
    ∷ (key_f10, 0x44)
    ∷ (key_f11, 0x57)
    ∷ (key_f12, 0x58)
    ∷ (key_f13, 0x64)
    ∷ (key_f14, 0x65)
    ∷ (key_f15, 0x66)
    ∷ (key_f16, 0x67)
    ∷ (key_f17, 0x68)
    ∷ (key_f18, 0x69)
    ∷ (key_f19, 0x6A)
    ∷ (key_f20, 0x6B)
    ∷ (key_f21, 0x6C)
    ∷ (key_f22, 0x6D)
    ∷ (key_f23, 0x6E)
    ∷ (key_f24, 0x76)
    ∷ (key_leftshift, 0x2A)
    ∷ (key_rightshift, 0x36)
    ∷ (key_leftctrl, 0x1D)
    ∷ (key_rightctrl, 0xE01D)
    ∷ (key_leftalt, 0x38)
    ∷ (key_rightalt, 0xE038)
    ∷ (key_leftmeta, 0xE05B)
    ∷ (key_rightmeta, 0xE05C)
    ∷ (key_esc, 0x01)
    ∷ (key_tab, 0x0F)
    ∷ (key_capslock, 0x3A)
    ∷ (key_enter, 0x1C)
    ∷ (key_backspace, 0x0E)
    ∷ (key_space, 0x39)
    ∷ (key_insert, 0xE052)
    ∷ (key_delete, 0xE053)
    ∷ (key_home, 0xE047)
    ∷ (key_end, 0xE04F)
    ∷ (key_pageup, 0xE049)
    ∷ (key_pagedown, 0xE051)
    ∷ (key_left, 0xE04B)
    ∷ (key_right, 0xE04D)
    ∷ (key_up, 0xE048)
    ∷ (key_down, 0xE050)
    ∷ (key_numlock, 0x45)
    ∷ (key_scrolllock, 0x46)
    ∷ (key_kp0, 0x52)
    ∷ (key_kp1, 0x4F)
    ∷ (key_kp2, 0x50)
    ∷ (key_kp3, 0x51)
    ∷ (key_kp4, 0x4B)
    ∷ (key_kp5, 0x4C)
    ∷ (key_kp6, 0x4D)
    ∷ (key_kp7, 0x47)
    ∷ (key_kp8, 0x48)
    ∷ (key_kp9, 0x49)
    ∷ (key_kpasterisk, 0x37)
    ∷ (key_kpplus, 0x4E)
    ∷ (key_kpminus, 0x4A)
    ∷ (key_kpdot, 0x53)
    ∷ (key_kpslash, 0xE035)
    ∷ (key_kpenter, 0xE01C)
    ∷ (key_minus, 0x0C)
    ∷ (key_equal, 0x0D)
    ∷ (key_leftbrace, 0x1A)
    ∷ (key_rightbrace, 0x1B)
    ∷ (key_semicolon, 0x27)
    ∷ (key_apostrophe, 0x28)
    ∷ (key_grave, 0x29)
    ∷ (key_backslash, 0x2B)
    ∷ (key_comma, 0x33)
    ∷ (key_dot, 0x34)
    ∷ (key_slash, 0x35)
    ∷ (key_102nd, 0x56)
    ∷ (key_sysrq, 0xE037)
    ∷ (key_pause, 0xE11D)
    ∷ (key_menu, 0xE05D)
    ∷ []
