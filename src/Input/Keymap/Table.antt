-- ===== src/Input/Keymap/Table.antt =====
-- crates/drift-input/src/keymap.rs, `base_scancode`: the part of the table that depends neither on
-- the keyboard type nor on the preferences.
use drift.Base.{ℕ, List, [], ◌∷◌, ◌++◌, Option, none, some, ◌==◌, if◌then◌else◌}
use drift.Input.Keymap.Ansi.{
  ansi_0, ansi_1, ansi_2, ansi_3, ansi_4, ansi_5, ansi_6, ansi_7, ansi_8, ansi_9, ansi_a, ansi_b,
  ansi_backslash, ansi_c, ansi_comma, ansi_d, ansi_e, ansi_equal, ansi_f, ansi_g, ansi_grave,
  ansi_h, ansi_i, ansi_j, ansi_k, ansi_keypad_0, ansi_keypad_1, ansi_keypad_2, ansi_keypad_3,
  ansi_keypad_4, ansi_keypad_5, ansi_keypad_6, ansi_keypad_7, ansi_keypad_8, ansi_keypad_9,
  ansi_keypad_decimal, ansi_keypad_divide, ansi_keypad_enter, ansi_keypad_equals, ansi_keypad_minus,
  ansi_keypad_multiply, ansi_keypad_plus, ansi_l, ansi_left_bracket, ansi_m, ansi_minus, ansi_n,
  ansi_o, ansi_p, ansi_period, ansi_q, ansi_quote, ansi_r, ansi_right_bracket, ansi_s,
  ansi_semicolon, ansi_slash, ansi_t, ansi_u, ansi_v, ansi_w, ansi_x, ansi_y, ansi_z,
}
use drift.Input.Keymap.Codes.{
  caps_lock, contextual_menu, control, delete, down_arrow, end, escape, f1, f10, f11, f12, f13, f14,
  f15, f16, f17, f18, f19, f2, f20, f3, f4, f5, f6, f7, f8, f9, forward_delete, help, home,
  iso_section, jis_eisu, jis_kana, jis_keypad_comma, jis_underscore, jis_yen, left_arrow, mute,
  option, page_down, page_up, return, right_arrow, right_control, right_option, right_shift, shift,
  space, tab, up_arrow, volume_down, volume_up,
}
use drift.Input.Keymap.Scancodes.{Scancode, new, ext}

abbrev pub BaseTable : Type 0
BaseTable = List (ℕ × Scancode)

-- The rows of `base_scancode` for the ANSI keys.
abbrev pub ansi_rows : BaseTable
ansi_rows =
    (ansi_a, new 0x1E)
    ∷ (ansi_s, new 0x1F)
    ∷ (ansi_d, new 0x20)
    ∷ (ansi_f, new 0x21)
    ∷ (ansi_h, new 0x23)
    ∷ (ansi_g, new 0x22)
    ∷ (ansi_z, new 0x2C)
    ∷ (ansi_x, new 0x2D)
    ∷ (ansi_c, new 0x2E)
    ∷ (ansi_v, new 0x2F)
    ∷ (ansi_b, new 0x30)
    ∷ (ansi_q, new 0x10)
    ∷ (ansi_w, new 0x11)
    ∷ (ansi_e, new 0x12)
    ∷ (ansi_r, new 0x13)
    ∷ (ansi_y, new 0x15)
    ∷ (ansi_t, new 0x14)
    ∷ (ansi_1, new 0x02)
    ∷ (ansi_2, new 0x03)
    ∷ (ansi_3, new 0x04)
    ∷ (ansi_4, new 0x05)
    ∷ (ansi_6, new 0x07)
    ∷ (ansi_5, new 0x06)
    ∷ (ansi_equal, new 0x0D)
    ∷ (ansi_9, new 0x0A)
    ∷ (ansi_7, new 0x08)
    ∷ (ansi_minus, new 0x0C)
    ∷ (ansi_8, new 0x09)
    ∷ (ansi_0, new 0x0B)
    ∷ (ansi_right_bracket, new 0x1B)
    ∷ (ansi_o, new 0x18)
    ∷ (ansi_u, new 0x16)
    ∷ (ansi_left_bracket, new 0x1A)
    ∷ (ansi_i, new 0x17)
    ∷ (ansi_p, new 0x19)
    ∷ (ansi_l, new 0x26)
    ∷ (ansi_j, new 0x24)
    ∷ (ansi_quote, new 0x28)
    ∷ (ansi_k, new 0x25)
    ∷ (ansi_semicolon, new 0x27)
    ∷ (ansi_backslash, new 0x2B)
    ∷ (ansi_comma, new 0x33)
    ∷ (ansi_slash, new 0x35)
    ∷ (ansi_n, new 0x31)
    ∷ (ansi_m, new 0x32)
    ∷ (ansi_period, new 0x34)
    ∷ (ansi_grave, new 0x29)
    ∷ (ansi_keypad_decimal, new 0x53)
    ∷ (ansi_keypad_multiply, new 0x37)
    ∷ (ansi_keypad_plus, new 0x4E)
    ∷ (ansi_keypad_divide, ext 0x35)
    ∷ (ansi_keypad_enter, ext 0x1C)
    ∷ (ansi_keypad_minus, new 0x4A)
    ∷ (ansi_keypad_equals, new 0x59)
    ∷ (ansi_keypad_0, new 0x52)
    ∷ (ansi_keypad_1, new 0x4F)
    ∷ (ansi_keypad_2, new 0x50)
    ∷ (ansi_keypad_3, new 0x51)
    ∷ (ansi_keypad_4, new 0x4B)
    ∷ (ansi_keypad_5, new 0x4C)
    ∷ (ansi_keypad_6, new 0x4D)
    ∷ (ansi_keypad_7, new 0x47)
    ∷ (ansi_keypad_8, new 0x48)
    ∷ (ansi_keypad_9, new 0x49)
    ∷ []

-- The rows of `base_scancode` for the other keys.
abbrev pub other_rows : BaseTable
other_rows =
    (return, new 0x1C)
    ∷ (tab, new 0x0F)
    ∷ (space, new 0x39)
    ∷ (delete, new 0x0E)
    ∷ (escape, new 0x01)
    ∷ (shift, new 0x2A)
    ∷ (caps_lock, new 0x3A)
    ∷ (option, new 0x38)
    ∷ (control, new 0x1D)
    ∷ (right_shift, new 0x36)
    ∷ (right_option, ext 0x38)
    ∷ (right_control, ext 0x1D)
    ∷ (f1, new 0x3B)
    ∷ (f2, new 0x3C)
    ∷ (f3, new 0x3D)
    ∷ (f4, new 0x3E)
    ∷ (f5, new 0x3F)
    ∷ (f6, new 0x40)
    ∷ (f7, new 0x41)
    ∷ (f8, new 0x42)
    ∷ (f9, new 0x43)
    ∷ (f10, new 0x44)
    ∷ (f11, new 0x57)
    ∷ (f12, new 0x58)
    ∷ (f13, new 0x64)
    ∷ (f14, new 0x65)
    ∷ (f15, new 0x66)
    ∷ (f16, new 0x67)
    ∷ (f17, new 0x68)
    ∷ (f18, new 0x69)
    ∷ (f19, new 0x6A)
    ∷ (f20, new 0x6B)
    ∷ (volume_up, ext 0x30)
    ∷ (volume_down, ext 0x2E)
    ∷ (mute, ext 0x20)
    ∷ (contextual_menu, ext 0x5D)
    ∷ (help, ext 0x52)
    ∷ (home, ext 0x47)
    ∷ (page_up, ext 0x49)
    ∷ (forward_delete, ext 0x53)
    ∷ (end, ext 0x4F)
    ∷ (page_down, ext 0x51)
    ∷ (left_arrow, ext 0x4B)
    ∷ (right_arrow, ext 0x4D)
    ∷ (down_arrow, ext 0x50)
    ∷ (up_arrow, ext 0x48)
    ∷ (iso_section, new 0x56)
    ∷ (jis_yen, new 0x7D)
    ∷ (jis_underscore, new 0x73)
    ∷ (jis_keypad_comma, new 0x7E)
    ∷ (jis_eisu, new 0x71)
    ∷ (jis_kana, new 0x72)
    ∷ []

abbrev pub base_table : BaseTable
base_table = ansi_rows ++ other_rows

-- The first row for a code: the `match`.
unfoldable pub find : ℕ → BaseTable → Option Scancode
find code [] = none
find code ((k, s) ∷ rows) = if code == k then some s else find code rows
