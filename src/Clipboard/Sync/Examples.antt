-- ===== src/Clipboard/Sync/Examples.antt =====
-- Witnesses of the clipboard protocol.
use drift.Base.{◌≡◌, ◌≤◌, ◌+◌, refl, true, false, none, some, List, [], ◌∷◌, ok, err}
use drift.Gfx.Pdu.{Bytes}
use drift.Core.Profile.{off, text}
use drift.Core.Reconnect.{Instant}
use drift.Clipboard.Text.{decode_unicode_text, units, decode_utf16, crlf_to_lf}
use drift.Clipboard.Formats.{
  kind, text_item, ClipFormat, standard, cf_unicodetext, cf_text, unicode_text, invalid_image,
  check_size,
}
use drift.Clipboard.Formats.Images.{Images}
use drift.Clipboard.Formats.Convert.{select_inbound, first_of, find_kind, decode_inbound}
use drift.Clipboard.Sync.{
  SyncInput, initial_format_list_requested, remote_format_list, remote_data, local_changed, focus,
  prefs_changed, tick, write_pasteboard, new, handle,
}
use drift.Clipboard.Sync.Requests.{sent, closed, run, in_flight, sent-closed}
use drift.Clipboard.Sync.Scope.{Scoped, handle-Scoped}
use drift.Clipboard.Sync.Findings.{lists, focus_before_ready, copied, off_still_writes}

-- No image decodes, and no byte text is UTF-8.
abbrev no_images : Images
no_images = record {
  bmp_to_png = λ b. err invalid_image;
  png_size = λ b. err invalid_image;
  get_pixel = λ b x y. record { r = 0; g = 0; b = 0; a = 0 };
  utf8 = λ b. none;
}

abbrev remote_text : List ClipFormat
remote_text = standard cf_unicodetext ∷ standard cf_text ∷ []

-- "a" as UTF-16 with its NUL.
abbrev letter : Bytes
letter = 97 ∷ 0 ∷ 0 ∷ 0 ∷ []

-- A remote copy is fetched; a second one times out.
abbrev inputs : List (SyncInput × Instant)
inputs =
    (initial_format_list_requested, 0)
    ∷ (remote_format_list remote_text, 1000000000)
    ∷ (remote_data (some letter), 1100000000)
    ∷ (remote_format_list remote_text, 2000000000)
    ∷ (tick, 9000000000)
    ∷ []

sent-closed_example :
    (sent no_images (new text true) inputs
      ≡ closed no_images (new text true) inputs
        + in_flight (run no_images (new text true) inputs).inflight)
    × (sent no_images (new text true) inputs ≤ closed no_images (new text true) inputs + 1)
sent-closed_example = sent-closed no_images text true inputs

handle-Scoped_example :
    Scoped (handle no_images (new text true) (local_changed 4 (text_item (97 ∷ []) ∷ [])) 5)
handle-Scoped_example =
    handle-Scoped no_images (new text true) (local_changed 4 (text_item (97 ∷ []) ∷ [])) 5

focus_before_ready_example :
    ((handle no_images
        (handle no_images (new text false) (local_changed 4 (text_item (97 ∷ []) ∷ [])) 5).0
        (focus true)
        6).0.ready
      ≡ false)
    × (lists
          (handle no_images
            (handle no_images (new text false) (local_changed 4 (text_item (97 ∷ []) ∷ [])) 5).0
            (focus true)
            6).1
        ≡ 1)
focus_before_ready_example = focus_before_ready no_images text 4 (text_item (97 ∷ []) ∷ []) 5 6 refl

letter_decodes : decode_inbound no_images unicode_text letter ≡ ok (text_item (97 ∷ []))
unfolding decode_inbound check_size decode_unicode_text units decode_utf16 crlf_to_lf
letter_decodes = refl

off_still_writes_example :
    (handle no_images
      (run no_images
        (run no_images (new text true) (copied no_images remote_text 0 1))
        ((focus false, 2) ∷ (prefs_changed off, 3) ∷ []))
      (remote_data (some letter))
      4).1
    ≡ write_pasteboard (text_item (97 ∷ []) ∷ []) ∷ []
unfolding select_inbound first_of find_kind kind
off_still_writes_example =
    off_still_writes no_images text (standard cf_unicodetext) (standard cf_text ∷ [])
      (standard cf_unicodetext) unicode_text letter (text_item (97 ∷ [])) 0 1 2 3 4 refl refl
      letter_decodes
