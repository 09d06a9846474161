-- ===== src/Clipboard/Formats/Convert.antt =====
-- crates/drift-clipboard/src/formats.rs: what is offered and fetched, and the payloads.
use drift.Base.{
  ℕ, ◌+◌, Bool, false, not, ◌&&◌, ◌||◌, Option, none, some, List, [], ◌∷◌, ◌++◌, ltb, ◌==◌, is_some,
  if◌then◌else◌, length, Result, ok, err, ◌>>=◌, ◌>>◌,
}
use drift.Gfx.Pdu.{Bytes}
use drift.Core.Profile.{ClipboardPrefs}
use drift.Input.Unicode.{Text}
use drift.Clipboard.Text.{encode_unicode_text, decode_unicode_text, decode_ansi_text}
use drift.Clipboard.Formats.{
  ClipboardItem, text_item, png_item, tiff_item, ClipboardContents, cf_tiff, cf_dib, cf_unicodetext,
  png_format_name, local_png_format_id, ClipFormat, standard, named, FormatKind, unicode_text,
  ansi_text, png, tiff, dib, kind, allowed_by, ClipError, unavailable, check_size,
}
use drift.Clipboard.Formats.Images.{Images, png_passthrough, dib_to_png, png_to_dib}

-- `item_kind`.
abbrev pub item_kind : ClipboardItem → FormatKind
item_kind (text_item t) = unicode_text
item_kind (png_item b) = png
item_kind (tiff_item b) = tiff

-- `str::len`: the bytes of the UTF-8.
abbrev utf8_len : Text → ℕ
utf8_len [] = 0
utf8_len (c ∷ cs) =
    (if ltb c 0x80 then 1 else if ltb c 0x800 then 2 else if ltb c 0x10000 then 3 else 4)
    + utf8_len cs

-- `item_size`.
abbrev pub item_size : ClipboardItem → ℕ
item_size (text_item t) = utf8_len t
item_size (png_item b) = length b
item_size (tiff_item b) = length b

-- The loop body of `filter_local`, for an item that is allowed.
abbrev sorted_in :
    ClipboardItem
    → Result ClipError (Unit {0})
    → ClipboardContents × List ClipError
    → ClipboardContents × List ClipError
sorted_in i (ok u) (kept, rejected) = (i ∷ kept, rejected)
sorted_in i (err e) (kept, rejected) = (kept, e ∷ rejected)

-- `filter_local`: the items kept, and a rejection for each item that is too large.
unfoldable pub filter_local :
    ClipboardContents → ClipboardPrefs → ClipboardContents × List ClipError
filter_local [] prefs = ([], [])
filter_local (i ∷ is) prefs =
    let rest = filter_local is prefs in
    if allowed_by (item_kind i) prefs then sorted_in i (check_size (item_size i)) rest else rest

-- `ClipboardContents::text`, `find_png` and `find_tiff`.
unfoldable pub find_text : ClipboardContents → Option Text
find_text [] = none
find_text (text_item t ∷ is) = some t
find_text (_ ∷ is) = find_text is

unfoldable pub find_png : ClipboardContents → Option Bytes
find_png [] = none
find_png (png_item b ∷ is) = some b
find_png (_ ∷ is) = find_png is

unfoldable pub find_tiff : ClipboardContents → Option Bytes
find_tiff [] = none
find_tiff (tiff_item b ∷ is) = some b
find_tiff (_ ∷ is) = find_tiff is

-- `outbound_formats`.
unfoldable pub outbound_formats : ClipboardContents → ClipboardPrefs → List ClipFormat
outbound_formats contents prefs =
    (if allowed_by unicode_text prefs && is_some (find_text contents)
      then standard cf_unicodetext ∷ []
      else [])
    ++ (if not (allowed_by png prefs)
        then []
        else if is_some (find_png contents)
        then named local_png_format_id png_format_name ∷ standard cf_dib ∷ []
        else if is_some (find_tiff contents)
        then standard cf_tiff ∷ []
        else [])

abbrev kind_rank : FormatKind → ℕ
kind_rank unicode_text = 0
kind_rank ansi_text = 1
kind_rank png = 2
kind_rank tiff = 3
kind_rank dib = 4

-- `f.kind() == Some(k)`.
abbrev pub is_kind : FormatKind → Option FormatKind → Bool
is_kind k none = false
is_kind k (some j) = kind_rank k == kind_rank j

-- `formats.iter().find`.
unfoldable pub find_kind : FormatKind → List ClipFormat → Option (ClipFormat × FormatKind)
find_kind k [] = none
find_kind k (f ∷ fs) = let rest = find_kind k fs in if is_kind k (kind f) then some (f, k) else rest

abbrev or_else :
    Option (ClipFormat × FormatKind)
    → Option (ClipFormat × FormatKind)
    → Option (ClipFormat × FormatKind)
or_else none o = o
or_else (some f) o = some f

-- One group of `PREFERENCE`.
unfoldable pub first_of :
    List FormatKind → List ClipFormat → ClipboardPrefs → Option (ClipFormat × FormatKind)
first_of [] fs prefs = none
first_of (k ∷ ks) fs prefs =
    let rest = first_of ks fs prefs in
    if allowed_by k prefs then or_else (find_kind k fs) rest else rest

abbrev listed : Option (ClipFormat × FormatKind) → List (ClipFormat × FormatKind)
listed none = []
listed (some f) = f ∷ []

-- `select_inbound`.
unfoldable pub select_inbound : List ClipFormat → ClipboardPrefs → List (ClipFormat × FormatKind)
select_inbound fs prefs =
    listed (first_of (unicode_text ∷ ansi_text ∷ []) fs prefs)
    ++ listed (first_of (png ∷ tiff ∷ dib ∷ []) fs prefs)

abbrev found : Option Bytes → ClipError → Result ClipError Bytes
found none e = err e
found (some b) e = ok b

module _ (images : Images) where
  abbrev decoded : FormatKind → Bytes → Result ClipError ClipboardItem
  decoded unicode_text b = ok (text_item (decode_unicode_text b))
  decoded ansi_text b = ok (text_item (decode_ansi_text images.utf8 b))
  decoded png b = png_passthrough b >>= λ p. ok (png_item p)
  decoded tiff b = ok (tiff_item b)
  decoded dib b = dib_to_png images b >>= λ p. ok (png_item p)

  -- `decode_inbound`.
  unfoldable pub decode_inbound : FormatKind → Bytes → Result ClipError ClipboardItem
  decode_inbound k b = check_size (length b) >> decoded k b

  -- `formats.iter().any(|f| f.id == format_id)`.
  abbrev pub offers : ℕ → List ClipFormat → Bool
  offers id [] = false
  offers id (f ∷ fs) = f.id == id || offers id fs

  abbrev text_payload : Option Text → ClipError → Result ClipError Bytes
  text_payload none e = err e
  text_payload (some t) e = ok (encode_unicode_text t)

  abbrev dib_payload : Option Bytes → ClipError → Result ClipError Bytes
  dib_payload none e = err e
  dib_payload (some b) e = png_to_dib images b

  abbrev payload : ℕ → ClipboardContents → Result ClipError Bytes
  payload id contents =
      if id == cf_unicodetext
      then text_payload (find_text contents) (unavailable id)
      else if id == local_png_format_id
      then found (find_png contents) (unavailable id)
      else if id == cf_dib
      then dib_payload (find_png contents) (unavailable id)
      else if id == cf_tiff
      then found (find_tiff contents) (unavailable id)
      else err (unavailable id)

  -- `encode_outbound`.
  unfoldable pub encode_outbound : ℕ → ClipboardContents → ClipboardPrefs → Result ClipError Bytes
  encode_outbound id contents prefs =
      if not (offers id (outbound_formats contents prefs))
      then err (unavailable id)
      else (do b ← payload id contents; small ← check_size (length b); ok b)
