-- ===== src/Clipboard/Sync.antt =====
-- crates/drift-clipboard/src/sync.rs: the clipboard protocol of one session. Instants are counts of
-- nanoseconds; `handle` takes the instant that the clock gives.
mod State
mod Local
pub mod Requests
pub mod Scope
pub mod Findings
mod Examples
unfoldable pub use State.*
unfoldable pub use Local.*
use drift.Base.{
  ℕ, ◌+◌, ◌-◌, Bool, true, false, not, ◌&&◌, ◌||◌, Option, none, some, List, [], ◌∷◌, ◌++◌, leb,
  ltb, ◌==◌, is_some, if◌then◌else◌, length, Result, ok, err,
}
use drift.Gfx.Pdu.{Bytes}
use drift.Core.Profile.{ClipboardPrefs, off, text, text_and_images}
use drift.Core.Reconnect.{Instant}
use drift.Clipboard.Formats.{
  ClipboardItem, text_item, png_item, tiff_item, ClipboardContents, ClipFormat, FormatKind,
  unicode_text, ansi_text, png, tiff, dib, kind, ClipError, remote_error,
}
use drift.Clipboard.Formats.Images.{Images}
use drift.Clipboard.Formats.Convert.{
  filter_local, outbound_formats, select_inbound, decode_inbound, encode_outbound,
}

abbrev pub is_echo : Option (List ℕ × Instant) → List ClipFormat → Instant → Bool
is_echo none formats now = false
is_echo (some (kinds, at)) formats now =
    leb (now - at) echo_window && same_numbers kinds (sorted_kinds formats)

abbrev pub is_newer : Option LocalSnapshot → Instant → Bool
is_newer none announced = false
is_newer (some l) announced = ltb announced l.at

abbrev pub is_nothing : ClipboardContents → Bool
is_nothing [] = true
is_nothing (i ∷ is) = false

-- The tail of `next_fetch_step`, for a fetch with nothing left to request.
abbrev pub complete : ClipboardSync → RemoteFetch → ClipboardSync × List SyncAction
complete s fetch =
    if is_nothing fetch.items || is_newer s.local fetch.announced
    then (record s { fetch = none }, [])
    else (
      record s { fetch = none; unacked_write = some fetch.items },
      write_pasteboard fetch.items ∷ [],
    )

-- The request of the next format in the queue.
abbrev pub fetch_step :
    ClipboardSync
    → RemoteFetch
    → List (ClipFormat × FormatKind)
    → Instant
    → ClipboardSync × List SyncAction
fetch_step s fetch [] now = complete s fetch
fetch_step s fetch ((format, k) ∷ queue) now = (
  record s {
    fetch = some (record fetch { queue = queue });
    inflight = some (record { kind = k; since = now; stale = false });
  },
  request_remote_data format ∷ [],
)

abbrev pub next_step_of :
    ClipboardSync → Option RemoteFetch → Instant → ClipboardSync × List SyncAction
next_step_of s none now = (s, [])
next_step_of s (some fetch) now = fetch_step s fetch fetch.queue now

-- `ClipboardSync::next_fetch_step`.
unfoldable pub next_fetch_step : ClipboardSync → Instant → ClipboardSync × List SyncAction
next_fetch_step s now = next_step_of s s.fetch now

abbrev pub start_fetch :
    ClipboardSync → List (ClipFormat × FormatKind) → Instant → ClipboardSync × List SyncAction
start_fetch s [] now = (s, [])
start_fetch s (f ∷ fs) now =
    let started : ClipboardSync = record s {
      fetch = some (record { queue = f ∷ fs; items = []; announced = now });
    } in
    if is_some s.inflight then (started, []) else next_fetch_step started now

-- `ClipboardSync::on_remote_list`.
unfoldable pub on_remote_list :
    ClipboardSync → List ClipFormat → Instant → ClipboardSync × List SyncAction
on_remote_list s formats now =
    if not (can_sync s)
    then (s, [])
    else if is_echo s.last_sent formats now
    then (s, [])
    else start_fetch (supersede_fetch s) (select_inbound formats s.prefs) now

abbrev with_item : Option RemoteFetch → ClipboardItem → Option RemoteFetch
with_item none item = none
with_item (some fetch) item = some (record fetch { items = fetch.items ++ (item ∷ []) })

abbrev pub is_timed_out : Option Inflight → Instant → Bool
is_timed_out none now = false
is_timed_out (some i) now = leb fetch_timeout (now - i.since)

unfoldable pub on_clock : ClipboardSync → Instant → ClipboardSync
on_clock s now =
    if is_timed_out s.inflight now then record s { inflight = none; fetch = none } else s

module _ (images : Images) where
  abbrev item_of : FormatKind → Option Bytes → Result ClipError ClipboardItem
  item_of k none = err remote_error
  item_of k (some b) = decode_inbound images k b

  abbrev pub received :
      ClipboardSync → Result ClipError ClipboardItem → ClipboardSync × List SyncAction
  received s (ok item) = (record s { fetch = with_item s.fetch item }, [])
  received s (err e) = (s, rejected e ∷ [])

  -- The response to the request that was in flight.
  abbrev pub on_response :
      ClipboardSync → Option Inflight → Option Bytes → Instant → ClipboardSync × List SyncAction
  on_response s none bytes now = (s, [])
  on_response s (some i) bytes now =
      let free : ClipboardSync = record s { inflight = none } in
      let (r, refused) = if i.stale then (free, []) else received free (item_of i.kind bytes) in
      let (n, actions) = next_fetch_step r now in (n, refused ++ actions)

  -- `ClipboardSync::on_remote_data`.
  unfoldable pub on_remote_data :
      ClipboardSync → Option Bytes → Instant → ClipboardSync × List SyncAction
  on_remote_data s bytes now = on_response s s.inflight bytes now

  -- `ClipboardSync::on_data_request`.
  unfoldable pub on_data_request : ClipboardSync → ℕ → ClipboardSync × List SyncAction
  on_data_request s id = (s, send_data id (encode_outbound images id s.advertised s.prefs) ∷ [])

  -- `ClipboardSync::handle`.
  unfoldable pub handle : ClipboardSync → SyncInput → Instant → ClipboardSync × List SyncAction
  handle s initial_format_list_requested now = on_initial_request s now
  handle s (remote_format_list formats) now = on_remote_list s formats now
  handle s (remote_data bytes) now = on_remote_data s bytes now
  handle s (remote_data_request id) now = on_data_request s id
  handle s (local_changed count contents) now = on_local_change s count contents now
  handle s (local_written count) now = (on_local_written s count, [])
  handle s (focus focused) now = on_focus s focused now
  handle s (prefs_changed prefs) now = on_prefs s prefs now
  handle s tick now = (on_clock s now, [])
