-- ===== src/KeyTables/Vk.antt =====
-- src/platform/linux/keycode_mapping.cpp, `g_yamyToEvdevMap`: from Windows virtual key codes to evdev codes.
use yamy.Base.{[], ◌∷◌, Assoc}
use yamy.KeyTables.Names.{
  KeyName, key_a, key_b, key_c, key_d, key_e, key_f, key_g, key_h, key_i, key_j, key_k, key_l,
  key_m, key_n, key_o, key_p, key_q, key_r, key_s, key_t, key_u, key_v, key_w, key_x, key_y, key_z,
  key_0, key_1, key_2, key_3, key_4, key_5, key_6, key_7, key_8, key_9, key_f1, key_f2, key_f3,
  key_f4, key_f5, key_f6, key_f7, key_f8, key_f9, key_f10, key_f11, key_f12, key_f13, key_f14,
  key_f15, key_f16, key_f17, key_f18, key_f19, key_f20, key_f21, key_f22, key_f23, key_f24,
  key_leftshift, key_rightshift, key_leftctrl, key_rightctrl, key_leftalt, key_rightalt,
  key_leftmeta, key_rightmeta, key_esc, key_tab, key_capslock, key_enter, key_backspace, key_space,
  key_insert, key_delete, key_home, key_end, key_pageup, key_pagedown, key_left, key_right, key_up,
  key_down, key_numlock, key_scrolllock, key_kp0, key_kp1, key_kp2, key_kp3, key_kp4, key_kp5,
  key_kp6, key_kp7, key_kp8, key_kp9, key_kpasterisk, key_kpplus, key_kpminus, key_kpdot,
  key_kpslash, key_minus, key_equal, key_leftbrace, key_rightbrace, key_semicolon, key_apostrophe,
  key_grave, key_backslash, key_comma, key_dot, key_slash, key_102nd, key_sysrq, key_pause,
  key_menu,
}

unfoldable pub yamy_to_evdev_map : Assoc KeyName
yamy_to_evdev_map =
    (0x41, key_a)
    ∷ (0x42, key_b)
    ∷ (0x43, key_c)
    ∷ (0x44, key_d)
    ∷ (0x45, key_e)
    ∷ (0x46, key_f)
    ∷ (0x47, key_g)
    ∷ (0x48, key_h)
    ∷ (0x49, key_i)
    ∷ (0x4A, key_j)
    ∷ (0x4B, key_k)
    ∷ (0x4C, key_l)
    ∷ (0x4D, key_m)
    ∷ (0x4E, key_n)
    ∷ (0x4F, key_o)
    ∷ (0x50, key_p)
    ∷ (0x51, key_q)
    ∷ (0x52, key_r)
    ∷ (0x53, key_s)
    ∷ (0x54, key_t)
    ∷ (0x55, key_u)
    ∷ (0x56, key_v)
    ∷ (0x57, key_w)
    ∷ (0x58, key_x)
    ∷ (0x59, key_y)
    ∷ (0x5A, key_z)
    ∷ (0x30, key_0)
    ∷ (0x31, key_1)
    ∷ (0x32, key_2)
    ∷ (0x33, key_3)
    ∷ (0x34, key_4)
    ∷ (0x35, key_5)
    ∷ (0x36, key_6)
    ∷ (0x37, key_7)
    ∷ (0x38, key_8)
    ∷ (0x39, key_9)
    ∷ (0x70, key_f1)
    ∷ (0x71, key_f2)
    ∷ (0x72, key_f3)
    ∷ (0x73, key_f4)
    ∷ (0x74, key_f5)
    ∷ (0x75, key_f6)
    ∷ (0x76, key_f7)
    ∷ (0x77, key_f8)
    ∷ (0x78, key_f9)
    ∷ (0x79, key_f10)
    ∷ (0x7A, key_f11)
    ∷ (0x7B, key_f12)
    ∷ (0x7C, key_f13)
    ∷ (0x7D, key_f14)
    ∷ (0x7E, key_f15)
    ∷ (0x7F, key_f16)
    ∷ (0x80, key_f17)
    ∷ (0x81, key_f18)
    ∷ (0x82, key_f19)
    ∷ (0x83, key_f20)
    ∷ (0x84, key_f21)
    ∷ (0x85, key_f22)
    ∷ (0x86, key_f23)
    ∷ (0x87, key_f24)
    ∷ (0xA0, key_leftshift)
    ∷ (0xA1, key_rightshift)
    ∷ (0xA2, key_leftctrl)
    ∷ (0xA3, key_rightctrl)
    ∷ (0xA4, key_leftalt)
    ∷ (0xA5, key_rightalt)
    ∷ (0x5B, key_leftmeta)
    ∷ (0x5C, key_rightmeta)
    ∷ (0x1B, key_esc)
    ∷ (0x09, key_tab)
    ∷ (0x14, key_capslock)
    ∷ (0x0D, key_enter)
    ∷ (0x08, key_backspace)
    ∷ (0x20, key_space)
    ∷ (0x2D, key_insert)
    ∷ (0x2E, key_delete)
    ∷ (0x24, key_home)
    ∷ (0x23, key_end)
    ∷ (0x21, key_pageup)
    ∷ (0x22, key_pagedown)
    ∷ (0x25, key_left)
    ∷ (0x27, key_right)
    ∷ (0x26, key_up)
    ∷ (0x28, key_down)
    ∷ (0x90, key_numlock)
    ∷ (0x91, key_scrolllock)
    ∷ (0x60, key_kp0)
    ∷ (0x61, key_kp1)
    ∷ (0x62, key_kp2)
    ∷ (0x63, key_kp3)
    ∷ (0x64, key_kp4)
    ∷ (0x65, key_kp5)
    ∷ (0x66, key_kp6)
    ∷ (0x67, key_kp7)
    ∷ (0x68, key_kp8)
    ∷ (0x69, key_kp9)
    ∷ (0x6A, key_kpasterisk)
    ∷ (0x6B, key_kpplus)
    ∷ (0x6D, key_kpminus)
    ∷ (0x6E, key_kpdot)
    ∷ (0x6F, key_kpslash)
    ∷ (0xBD, key_minus)
    ∷ (0xBB, key_equal)
    ∷ (0xDB, key_leftbrace)
    ∷ (0xDD, key_rightbrace)
    ∷ (0xBA, key_semicolon)
    ∷ (0xDE, key_apostrophe)
    ∷ (0xC0, key_grave)
    ∷ (0xDC, key_backslash)
    ∷ (0xBC, key_comma)
    ∷ (0xBE, key_dot)
    ∷ (0xBF, key_slash)
    ∷ (0xE2, key_102nd)
    ∷ (0x2C, key_sysrq)
    ∷ (0x13, key_pause)
    ∷ (0x5D, key_menu)
    ∷ []
