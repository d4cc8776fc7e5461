-- ===== src/KeyTables/ScanUs.antt =====
-- src/platform/linux/keycode_mapping.cpp, `g_scanToEvdevMap_US`: from scan codes to evdev codes.
use yamy.Base.{[], ◌∷◌, Assoc}
use yamy.KeyTables.Names.{
  KeyName, key_a, key_b, key_c, key_d, key_e, key_f, key_g, key_h, key_i, key_j, key_k, key_l,
  key_m, key_n, key_o, key_p, key_q, key_r, key_s, key_t, key_u, key_v, key_w, key_x, key_y, key_z,
  key_0, key_1, key_2, key_3, key_4, key_5, key_6, key_7, key_8, key_9, key_f1, key_f2, key_f3,
  key_f4, key_f5, key_f6, key_f7, key_f8, key_f9, key_f10, key_f11, key_f12, key_leftshift,
  key_rightshift, key_leftctrl, key_rightctrl, key_leftalt, key_rightalt, key_leftmeta,
  key_rightmeta, key_esc, key_tab, key_capslock, key_enter, key_backspace, key_space, key_insert,
  key_delete, key_home, key_end, key_pageup, key_pagedown, key_left, key_right, key_up, key_down,
  key_numlock, key_scrolllock, key_kp0, key_kp1, key_kp2, key_kp3, key_kp4, key_kp5, key_kp6,
  key_kp7, key_kp8, key_kp9, key_kpasterisk, key_kpplus, key_kpminus, key_kpdot, key_kpslash,
  key_kpenter, key_minus, key_equal, key_leftbrace, key_rightbrace, key_semicolon, key_apostrophe,
  key_grave, key_backslash, key_comma, key_dot, key_slash, key_sysrq, key_menu, key_sleep,
}

unfoldable pub scan_to_evdev_map_us : Assoc KeyName
scan_to_evdev_map_us =
    (0x01, key_esc)
    ∷ (0x02, key_1)
    ∷ (0x03, key_2)
    ∷ (0x04, key_3)
    ∷ (0x05, key_4)
    ∷ (0x06, key_5)
    ∷ (0x07, key_6)
    ∷ (0x08, key_7)
    ∷ (0x09, key_8)
    ∷ (0x0A, key_9)
    ∷ (0x0B, key_0)
    ∷ (0x0C, key_minus)
    ∷ (0x0D, key_equal)
    ∷ (0x0E, key_backspace)
    ∷ (0x0F, key_tab)
    ∷ (0x10, key_q)
    ∷ (0x11, key_w)
    ∷ (0x12, key_e)
    ∷ (0x13, key_r)
    ∷ (0x14, key_t)
    ∷ (0x15, key_y)
    ∷ (0x16, key_u)
    ∷ (0x17, key_i)
    ∷ (0x18, key_o)
    ∷ (0x19, key_p)
    ∷ (0x1A, key_leftbrace)
    ∷ (0x1B, key_rightbrace)
    ∷ (0x1C, key_enter)
    ∷ (0x1D, key_leftctrl)
    ∷ (0x1E, key_a)
    ∷ (0x1F, key_s)
    ∷ (0x20, key_d)
    ∷ (0x21, key_f)
    ∷ (0x22, key_g)
    ∷ (0x23, key_h)
    ∷ (0x24, key_j)
    ∷ (0x25, key_k)
    ∷ (0x26, key_l)
    ∷ (0x27, key_semicolon)
    ∷ (0x28, key_apostrophe)
    ∷ (0x29, key_grave)
    ∷ (0x2A, key_leftshift)
    ∷ (0x2B, key_backslash)
    ∷ (0x2C, key_z)
    ∷ (0x2D, key_x)
    ∷ (0x2E, key_c)
    ∷ (0x2F, key_v)
    ∷ (0x30, key_b)
    ∷ (0x31, key_n)
    ∷ (0x32, key_m)
    ∷ (0x33, key_comma)
    ∷ (0x34, key_dot)
    ∷ (0x35, key_slash)
    ∷ (0x36, key_rightshift)
    ∷ (0x37, key_kpasterisk)
    ∷ (0x38, key_leftalt)
    ∷ (0x39, key_space)
    ∷ (0x3A, key_capslock)
    ∷ (0x3B, key_f1)
    ∷ (0x3C, key_f2)
    ∷ (0x3D, key_f3)
    ∷ (0x3E, key_f4)
    ∷ (0x3F, key_f5)
    ∷ (0x40, key_f6)
    ∷ (0x41, key_f7)
    ∷ (0x42, key_f8)
    ∷ (0x43, key_f9)
    ∷ (0x44, key_f10)
    ∷ (0x45, key_numlock)
    ∷ (0x46, key_scrolllock)
    ∷ (0x47, key_kp7)
    ∷ (0x48, key_kp8)
    ∷ (0x49, key_kp9)
    ∷ (0x4A, key_kpminus)
    ∷ (0x4B, key_kp4)
    ∷ (0x4C, key_kp5)
    ∷ (0x4D, key_kp6)
    ∷ (0x4E, key_kpplus)
    ∷ (0x4F, key_kp1)
    ∷ (0x50, key_kp2)
    ∷ (0x51, key_kp3)
    ∷ (0x52, key_kp0)
    ∷ (0x53, key_kpdot)
    ∷ (0x57, key_f11)
    ∷ (0x58, key_f12)
    ∷ (0xE01C, key_kpenter)
    ∷ (0xE01D, key_rightctrl)
    ∷ (0xE035, key_kpslash)
    ∷ (0xE037, key_sysrq)
    ∷ (0xE038, key_rightalt)
    ∷ (0xE047, key_home)
    ∷ (0xE048, key_up)
    ∷ (0xE049, key_pageup)
    ∷ (0xE04B, key_left)
    ∷ (0xE04D, key_right)
    ∷ (0xE04F, key_end)
    ∷ (0xE050, key_down)
    ∷ (0xE051, key_pagedown)
    ∷ (0xE052, key_insert)
    ∷ (0xE053, key_delete)
    ∷ (0xE05B, key_leftmeta)
    ∷ (0xE05C, key_rightmeta)
    ∷ (0xE05D, key_menu)
    ∷ (0xE05F, key_sleep)
    ∷ []
