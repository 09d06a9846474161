-- ===== src/Video/Sps/Syntax.antt =====
-- crates/drift-video/src/sps.rs: the syntax elements of a sequence parameter set.
use drift.Base.{
  ℕ, zero, suc, ◌+◌, ◌-◌, ◌*◌, ◌%◌, ◌^◌, Bool, true, false, ◌||◌, ◌&&◌, Option, none, some, ltb,
  ◌==◌, if◌then◌else◌,
}
use drift.Base.Int.{ℤ, pos, negsuc}
use drift.Core.Geometry.{checked_sub}
use drift.Video.Sps.Reader.{Read, ◌>>=◌, ◌>>◌, give, fail, or_malformed, bit, bits, ue, ue_max, se}

abbrev pub extended_sar : ℕ
extended_sar = 255

-- `HIGH_PROFILES.contains`.
abbrev pub is_high : ℕ → Bool
is_high p =
    p == 100
    || p == 110
    || p == 122
    || p == 244
    || p == 44
    || p == 83
    || p == 86
    || p == 118
    || p == 128
    || p == 138
    || p == 139
    || p == 134

pub record Header : Type 0 where
  pub profile_idc : ℕ
  pub level_idc : ℕ
  pub width : ℕ
  pub height : ℕ
  pub vui_flag_pos : ℕ
  pub vui_present : Bool

pub record SignalType : Type 0 where
  pub full_range : Bool
  pub matrix : Option ℕ

unfoldable pub to_u8 : ℕ → Read ℕ
to_u8 v = if ltb v 256 then give v else fail

-- `(last + delta).rem_euclid(256)`.
abbrev pub wrapped : ℕ → ℤ → ℕ
wrapped last (pos n) = (last + n) % 256
wrapped last (negsuc n) = if ltb n last then (last - n - 1) % 256 else 255 - (n - last) % 256

abbrev pub last_of : ℕ → ℕ → ℕ
last_of last next = if next == 0 then last else next

abbrev pub next_of : ℕ → ℕ → Read ℕ
next_of last next = if next == 0 then give 0 else do delta ← se; give (wrapped last delta)

-- The loop of `skip_scaling_list`.
unfoldable pub skip_values : ℕ → ℕ → ℕ → Read (Unit {0})
skip_values zero last next = give tt
skip_values (suc size) last next = do
  next' ← next_of last next
  skip_values size (last_of last next') next'

unfoldable pub skip_scaling_list : ℕ → Read (Unit {0})
skip_scaling_list size = skip_values size 8 8

-- `for i in 0..lists`, the rounds that are left from `i` on.
unfoldable pub skip_scaling_lists : ℕ → ℕ → Read (Unit {0})
skip_scaling_lists zero i = give tt
skip_scaling_lists (suc left) i = do
  b ← bit
  if b then skip_scaling_list (if ltb i 6 then 16 else 64) else give tt
  skip_scaling_lists left (i + 1)

unfoldable pub skip_offsets : ℕ → Read (Unit {0})
skip_offsets zero = give tt
skip_offsets (suc n) = do se; skip_offsets n

-- The chroma format of a high profile.
unfoldable pub high_fields : Read ℕ
high_fields = do
  chroma ← ue_max 3
  if chroma == 3 then bit else give false
  ue_max 6
  ue_max 6
  bit
  matrix ← bit
  if matrix then skip_scaling_lists (if chroma == 3 then 12 else 8) 0 else give tt
  give chroma

unfoldable pub order_count : ℕ → Read (Unit {0})
order_count zero = do ue_max 12; give tt
order_count (suc zero) = do bit; se; se; n ← ue_max 255; skip_offsets n
order_count (suc (suc n)) = give tt

pub record Crop : Type 0 where
  pub left : ℕ
  pub right : ℕ
  pub top : ℕ
  pub bottom : ℕ

unfoldable pub crop_of : Bool → Read Crop
crop_of false = give (record { left = 0; right = 0; top = 0; bottom = 0 })
crop_of true = do
  a ← ue
  b ← ue
  c ← ue
  d ← ue
  give (record { left = a; right = b; top = c; bottom = d })

-- What `parse_header` reads before the VUI.
pub record Fields : Type 0 where
  pub profile : ℕ
  pub level : ℕ
  pub chroma : ℕ
  pub width_mbs : ℕ
  pub height_map_units : ℕ
  pub frame_mbs_only : Bool
  pub crop : Crop

-- `v.checked_add(1)` on u32.
unfoldable pub plus_one : ℕ → Read ℕ
plus_one v = if ltb (v + 1) (2 ^ 32) then give (v + 1) else fail

unfoldable pub fields : Read Fields
fields = do
  profile ← bits 8
  profile ← to_u8 profile
  bits 8
  level ← bits 8
  level ← to_u8 level
  ue_max 31
  chroma ← if is_high profile then high_fields else give 1
  ue_max 12
  kind ← ue_max 2
  order_count kind
  ue
  bit
  width_mbs ← ue
  width_mbs ← plus_one width_mbs
  height_map_units ← ue
  height_map_units ← plus_one height_map_units
  frame_mbs_only ← bit
  if frame_mbs_only then give false else bit
  bit
  cropped ← bit
  crop ← crop_of cropped
  give (record {
    profile = profile;
    level = level;
    chroma = chroma;
    width_mbs = width_mbs;
    height_map_units = height_map_units;
    frame_mbs_only = frame_mbs_only;
    crop = crop;
  })

-- The checked arithmetic on u32: a full extent less what is cropped.
unfoldable pub extent : ℕ → ℕ → ℕ → ℕ → ℕ → Option ℕ
extent units size a b unit =
    if ltb (units * size) (2 ^ 32) && ltb (a + b) (2 ^ 32) && ltb ((a + b) * unit) (2 ^ 32)
    then checked_sub (units * size) ((a + b) * unit)
    else none

abbrev pub field_factor : Fields → ℕ
field_factor f = if f.frame_mbs_only then 1 else 2

abbrev pub crop_x : Fields → ℕ
crop_x f = if f.chroma == 1 || f.chroma == 2 then 2 else 1

abbrev pub crop_y : Fields → ℕ
crop_y f = if f.chroma == 1 then 2 * field_factor f else field_factor f

unfoldable pub width_of : Fields → Read ℕ
width_of f = or_malformed (extent f.width_mbs 16 f.crop.left f.crop.right (crop_x f))

unfoldable pub height_of : Fields → Read ℕ
height_of f =
    or_malformed
      (extent f.height_map_units (16 * field_factor f) f.crop.top f.crop.bottom (crop_y f))

unfoldable pub position : Read ℕ
position d p = give p d p

-- The header, from what was read.
unfoldable pub sized : Fields → ℕ → Bool → Read Header
sized f flag present = do
  w ← width_of f
  h ← height_of f
  give (record {
    profile_idc = f.profile;
    level_idc = f.level;
    width = w;
    height = h;
    vui_flag_pos = flag;
    vui_present = present;
  })

unfoldable pub parse_header : Read Header
parse_header = do f ← fields; flag ← position; present ← bit; sized f flag present

-- `if present { r.bits(n)?; }`.
unfoldable pub skip_if : Bool → ℕ → Read (Unit {0})
skip_if false n = give tt
skip_if true n = do bits n; give tt

unfoldable pub skip_aspect : Bool → Read (Unit {0})
skip_aspect false = give tt
skip_aspect true = do idc ← bits 8; skip_if (idc == extended_sar) 32

unfoldable pub skip_aspect_and_overscan : Read (Unit {0})
skip_aspect_and_overscan = do aspect ← bit; skip_aspect aspect; overscan ← bit; skip_if overscan 1

unfoldable pub read_matrix : Bool → Read (Option ℕ)
read_matrix false = give none
read_matrix true = do bits 16; m ← bits 8; m ← to_u8 m; give (some m)

unfoldable pub signal_type : Bool → Read (Option SignalType)
signal_type false = give none
signal_type true = do
  bits 3
  full ← bit
  described ← bit
  m ← read_matrix described
  give (some (record { full_range = full; matrix = m }))

unfoldable pub read_signal_type : Read (Option SignalType)
read_signal_type = do present ← bit; signal_type present
