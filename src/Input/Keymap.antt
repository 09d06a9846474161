-- ===== src/Input/Keymap.antt =====
-- crates/drift-input/src/keymap.rs: virtual key codes to set-1 scancodes.
pub mod Ansi
pub mod Codes
pub mod Scancodes
pub mod Table
pub mod Unique
mod Examples
use drift.Base.{
  ℕ, ◌+◌, ◌*◌, ◌≡◌, Bool, true, false, not, ◌&&◌, ◌||◌, Option, none, some, List, [], ◌∷◌, leb, ltb,
  ◌==◌, if◌then◌else◌, arith,
}
use drift.Base.Maps.{Key}
use drift.Core.Events.{InputEvent, key, CmdAs, super, ctrl}
use Ansi.{
  ansi_0, ansi_1, ansi_2, ansi_3, ansi_4, ansi_5, ansi_6, ansi_7, ansi_8, ansi_9, ansi_a, ansi_b,
  ansi_backslash, ansi_c, ansi_comma, ansi_d, ansi_e, ansi_equal, ansi_f, ansi_g, ansi_grave,
  ansi_h, ansi_i, ansi_j, ansi_k, ansi_keypad_0, ansi_keypad_1, ansi_keypad_2, ansi_keypad_3,
  ansi_keypad_4, ansi_keypad_5, ansi_keypad_6, ansi_keypad_7, ansi_keypad_8, ansi_keypad_9,
  ansi_keypad_decimal, ansi_keypad_divide, ansi_keypad_enter, ansi_keypad_equals, ansi_keypad_minus,
  ansi_keypad_multiply, ansi_keypad_plus, ansi_l, ansi_left_bracket, ansi_m, ansi_minus, ansi_n,
  ansi_o, ansi_p, ansi_period, ansi_q, ansi_quote, ansi_r, ansi_right_bracket, ansi_s,
  ansi_semicolon, ansi_slash, ansi_t, ansi_u, ansi_v, ansi_w, ansi_x, ansi_y, ansi_z,
  ansi_keypad_clear,
}
use Codes.{
  caps_lock, contextual_menu, control, delete, down_arrow, end, escape, f1, f10, f11, f12, f13, f14,
  f15, f16, f17, f18, f19, f2, f20, f3, f4, f5, f6, f7, f8, f9, forward_delete, help, home,
  iso_section, jis_eisu, jis_kana, jis_keypad_comma, jis_underscore, jis_yen, left_arrow, mute,
  option, page_down, page_up, return, right_arrow, right_control, right_option, right_shift, shift,
  space, tab, up_arrow, volume_down, volume_up, command, right_command, function,
}
use Scancodes.{Scancode, new, ext}
use Table.{base_table, find}

-- `KeyboardType`.
pub data KeyboardType : Type 0 where
  ansi iso jis : KeyboardType

abbrev pub layout_jis : ℕ
layout_jis = 0x4A495320

abbrev pub layout_ansi : ℕ
layout_ansi = 0x414E5349

abbrev pub layout_iso : ℕ
layout_iso = 0x49534F20

-- `KeyboardType::from_layout_type`.
abbrev pub from_layout_type : ℕ → KeyboardType
from_layout_type layout_type =
    if layout_type == layout_iso then iso else if layout_type == layout_jis then jis else ansi

-- `base_scancode`.
unfoldable pub base_scancode : ℕ → Option Scancode
unfolding find
base_scancode code = find code base_table

-- The arms of `scancode_for` for the Command keys, then the base table.
unfoldable pub scancode_of_command : ℕ → CmdAs → Option Scancode
unfolding base_scancode
scancode_of_command kvk super =
    if kvk == command
    then some (ext 0x5B)
    else if kvk == right_command
    then some (ext 0x5C)
    else base_scancode kvk
scancode_of_command kvk ctrl =
    if kvk == command
    then some (new 0x1D)
    else if kvk == right_command
    then some (ext 0x1D)
    else base_scancode kvk

-- `scancode_for`.
unfoldable pub scancode_for : ℕ → KeyboardType → CmdAs → Option Scancode
unfolding scancode_of_command
scancode_for kvk iso cmd_as =
    if kvk == iso_section
    then some (new 0x29)
    else if kvk == ansi_grave
    then some (new 0x56)
    else scancode_of_command kvk cmd_as
scancode_for kvk ansi cmd_as = scancode_of_command kvk cmd_as
scancode_for kvk jis cmd_as = scancode_of_command kvk cmd_as

-- `is_modifier`.
unfoldable pub is_modifier : ℕ → Bool
is_modifier kvk =
    kvk == shift
    || kvk == right_shift
    || kvk == control
    || kvk == right_control
    || kvk == option
    || kvk == right_option
    || kvk == command
    || kvk == right_command
    || kvk == caps_lock
    || kvk == function

-- `is_text_key`.
unfoldable pub is_text_key : ℕ → Bool
is_text_key kvk =
    if leb ansi_a kvk && leb kvk ansi_period
    then not (kvk == return)
    else kvk == space
      || kvk == ansi_grave
      || kvk == ansi_keypad_decimal
      || kvk == ansi_keypad_multiply
      || kvk == ansi_keypad_plus
      || kvk == ansi_keypad_divide
      || kvk == ansi_keypad_minus
      || (leb ansi_keypad_equals kvk && leb kvk ansi_keypad_7)
      || kvk == ansi_keypad_8
      || kvk == ansi_keypad_9
      || kvk == jis_yen
      || kvk == jis_underscore
      || kvk == jis_keypad_comma
