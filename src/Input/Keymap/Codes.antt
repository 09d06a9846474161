-- ===== src/Input/Keymap/Codes.antt =====
-- crates/drift-input/src/keymap.rs, module `kvk`: the layout-independent, ISO and JIS virtual key
-- codes (u16).
use drift.Base.{ℕ}

abbrev pub return : ℕ
return = 0x24

abbrev pub tab : ℕ
tab = 0x30

abbrev pub space : ℕ
space = 0x31

abbrev pub delete : ℕ
delete = 0x33

abbrev pub escape : ℕ
escape = 0x35

abbrev pub right_command : ℕ
right_command = 0x36

abbrev pub command : ℕ
command = 0x37

abbrev pub shift : ℕ
shift = 0x38

abbrev pub caps_lock : ℕ
caps_lock = 0x39

abbrev pub option : ℕ
option = 0x3A

abbrev pub control : ℕ
control = 0x3B

abbrev pub right_shift : ℕ
right_shift = 0x3C

abbrev pub right_option : ℕ
right_option = 0x3D

abbrev pub right_control : ℕ
right_control = 0x3E

abbrev pub function : ℕ
function = 0x3F

abbrev pub f17 : ℕ
f17 = 0x40

abbrev pub volume_up : ℕ
volume_up = 0x48

abbrev pub volume_down : ℕ
volume_down = 0x49

abbrev pub mute : ℕ
mute = 0x4A

abbrev pub f18 : ℕ
f18 = 0x4F

abbrev pub f19 : ℕ
f19 = 0x50

abbrev pub f20 : ℕ
f20 = 0x5A

abbrev pub f5 : ℕ
f5 = 0x60

abbrev pub f6 : ℕ
f6 = 0x61

abbrev pub f7 : ℕ
f7 = 0x62

abbrev pub f3 : ℕ
f3 = 0x63

abbrev pub f8 : ℕ
f8 = 0x64

abbrev pub f9 : ℕ
f9 = 0x65

abbrev pub f11 : ℕ
f11 = 0x67

abbrev pub f13 : ℕ
f13 = 0x69

abbrev pub f16 : ℕ
f16 = 0x6A

abbrev pub f14 : ℕ
f14 = 0x6B

abbrev pub f10 : ℕ
f10 = 0x6D

abbrev pub contextual_menu : ℕ
contextual_menu = 0x6E

abbrev pub f12 : ℕ
f12 = 0x6F

abbrev pub f15 : ℕ
f15 = 0x71

abbrev pub help : ℕ
help = 0x72

abbrev pub home : ℕ
home = 0x73

abbrev pub page_up : ℕ
page_up = 0x74

abbrev pub forward_delete : ℕ
forward_delete = 0x75

abbrev pub f4 : ℕ
f4 = 0x76

abbrev pub end : ℕ
end = 0x77

abbrev pub f2 : ℕ
f2 = 0x78

abbrev pub page_down : ℕ
page_down = 0x79

abbrev pub f1 : ℕ
f1 = 0x7A

abbrev pub left_arrow : ℕ
left_arrow = 0x7B

abbrev pub right_arrow : ℕ
right_arrow = 0x7C

abbrev pub down_arrow : ℕ
down_arrow = 0x7D

abbrev pub up_arrow : ℕ
up_arrow = 0x7E

abbrev pub iso_section : ℕ
iso_section = 0x0A

abbrev pub jis_yen : ℕ
jis_yen = 0x5D

abbrev pub jis_underscore : ℕ
jis_underscore = 0x5E

abbrev pub jis_keypad_comma : ℕ
jis_keypad_comma = 0x5F

abbrev pub jis_eisu : ℕ
jis_eisu = 0x66

abbrev pub jis_kana : ℕ
jis_kana = 0x68
