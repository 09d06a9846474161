-- ===== src/Clipboard/Formats.antt =====
-- crates/drift-clipboard/src/contents.rs and formats.rs: clipboard contents, the formats of the remote
-- side and the conversions between them. The texts of the errors are left out. A text is the list of
-- its scalar values.
pub mod Images
pub mod Convert
use Prim.Native.String.{String}
use package.text.Mathlib.Text as Strings
use drift.Base.{
  ℕ, ◌+◌, ◌-◌, ◌*◌, ◌/◌, ◌%◌, ◌^◌, min, Bool, true, false, not, ◌&&◌, ◌||◌, Option, none, some,
  List, [], ◌∷◌, ◌++◌, leb, ltb, ◌==◌, is_some, if◌then◌else◌, length, take, drop, Result, ok, err,
  ◌>>=◌, ◌>>◌,
}
use drift.Gfx.Pdu.{Bytes}
use drift.Core.Profile.{ClipboardPrefs, off, text, text_and_images}
use drift.Input.Unicode.{Text}
use drift.Clipboard.Text.{encode_unicode_text, decode_unicode_text, decode_ansi_text}

-- `ClipboardItem`.
pub data ClipboardItem : Type 0 where
  text_item : Text → ClipboardItem
  png_item tiff_item : Bytes → ClipboardItem

-- `ClipboardContents`: its `items`.
abbrev pub ClipboardContents : Type 0
ClipboardContents = List ClipboardItem

abbrev pub cf_text : ℕ
cf_text = 1

abbrev pub cf_tiff : ℕ
cf_tiff = 6

abbrev pub cf_dib : ℕ
cf_dib = 8

abbrev pub cf_unicodetext : ℕ
cf_unicodetext = 13

abbrev pub png_format_name : String
png_format_name = "image/png"

abbrev pub local_png_format_id : ℕ
local_png_format_id = 0xC0F0

-- 32 MiB.
abbrev pub max_clipboard_bytes : ℕ
max_clipboard_bytes = 33554432

-- `ClipFormat`.
pub record ClipFormat : Type 0 where
  pub id : ℕ
  pub name : Option String

abbrev pub standard : ℕ → ClipFormat
standard id = record { id = id; name = none }

abbrev pub named : ℕ → String → ClipFormat
named id name = record { id = id; name = some name }

pub data FormatKind : Type 0 where
  unicode_text ansi_text png tiff dib : FormatKind

abbrev kind_of_name : String → Option FormatKind
kind_of_name name = if Strings.◌==◌ name png_format_name then some png else none

abbrev kind_of_id : ℕ → Option FormatKind
kind_of_id id =
    if id == cf_unicodetext
    then some unicode_text
    else if id == cf_text
    then some ansi_text
    else if id == cf_tiff
    then some tiff
    else if id == cf_dib
    then some dib
    else none

abbrev kind_by : Option String → ℕ → Option FormatKind
kind_by (some name) id = kind_of_name name
kind_by none id = kind_of_id id

-- `ClipFormat::kind`.
unfoldable pub kind : ClipFormat → Option FormatKind
kind f = kind_by f.name f.id

-- `FormatKind::is_image`.
abbrev pub is_image : FormatKind → Bool
is_image png = true
is_image tiff = true
is_image dib = true
is_image _ = false

-- `FormatKind::allowed_by`.
abbrev pub allowed_by : FormatKind → ClipboardPrefs → Bool
allowed_by k off = false
allowed_by k text = not (is_image k)
allowed_by k text_and_images = true

pub data ClipError : Type 0 where
  too_large : ℕ → ClipError
  invalid_image : ClipError
  unavailable : ℕ → ClipError
  remote_error : ClipError

-- `check_size`.
unfoldable pub check_size : ℕ → Result ClipError (Unit {0})
check_size size = if ltb max_clipboard_bytes size then err (too_large size) else ok tt
