-- ===== src/Clipboard/Sync/State.antt =====
-- crates/drift-clipboard/src/sync.rs: the state, the inputs and the actions, and the sending of a format
-- list. A change count is an i64, of which only equality is used.
use drift.Base.{
  ℕ, Bool, true, false, not, ◌&&◌, Option, none, some, List, [], ◌∷◌, ◌++◌, leb, if◌then◌else◌,
  Result,
}
use drift.Gfx.Pdu.{Bytes}
use drift.Core.Profile.{ClipboardPrefs, off}
use drift.Core.Reconnect.{Instant}
use drift.Clipboard.Formats.{
  ClipboardItem, ClipboardContents, ClipFormat, FormatKind, unicode_text, ansi_text, png, tiff, dib,
  kind, ClipError,
}
use drift.Clipboard.Formats.Convert.{filter_local, outbound_formats}

-- `FETCH_TIMEOUT`: 5 s.
abbrev pub fetch_timeout : ℕ
fetch_timeout = 5000000000

-- `ECHO_WINDOW`: 500 ms.
abbrev pub echo_window : ℕ
echo_window = 500000000

abbrev pub own_writes_kept : ℕ
own_writes_kept = 8

pub data SyncInput : Type 0 where
  initial_format_list_requested : SyncInput
  remote_format_list : List ClipFormat → SyncInput
  remote_data : Option Bytes → SyncInput
  remote_data_request : ℕ → SyncInput
  local_changed : ℕ → ClipboardContents → SyncInput
  local_written : ℕ → SyncInput
  focus : Bool → SyncInput
  prefs_changed : ClipboardPrefs → SyncInput
  tick : SyncInput

pub data SyncAction : Type 0 where
  send_format_list : List ClipFormat → SyncAction
  request_remote_data : ClipFormat → SyncAction
  send_data : ℕ → Result ClipError Bytes → SyncAction
  write_pasteboard : ClipboardContents → SyncAction
  rejected : ClipError → SyncAction

pub record LocalSnapshot : Type 0 where
  pub contents : ClipboardContents
  pub at : Instant

pub record RemoteFetch : Type 0 where
  pub queue : List (ClipFormat × FormatKind)
  pub items : List ClipboardItem
  pub announced : Instant

pub record Inflight : Type 0 where
  pub kind : FormatKind
  pub since : Instant
  pub stale : Bool

pub record ClipboardSync : Type 0 where
  pub prefs : ClipboardPrefs
  pub focused : Bool
  pub ready : Bool
  pub local : Option LocalSnapshot
  pub last_local_change_count : Option ℕ
  pub pending_local : Bool
  pub advertised : ClipboardContents
  pub last_sent : Option (List ℕ × Instant)
  pub own_writes : List ℕ
  pub unacked_write : Option ClipboardContents
  pub fetch : Option RemoteFetch
  pub inflight : Option Inflight

-- `ClipboardSync::new`.
unfoldable pub new : ClipboardPrefs → Bool → ClipboardSync
new prefs focused = record {
  prefs = prefs;
  focused = focused;
  ready = false;
  local = none;
  last_local_change_count = none;
  pending_local = false;
  advertised = [];
  last_sent = none;
  own_writes = [];
  unacked_write = none;
  fetch = none;
  inflight = none;
}

abbrev pub is_off : ClipboardPrefs → Bool
is_off off = true
is_off _ = false

-- `ClipboardSync::can_sync`.
abbrev pub can_sync : ClipboardSync → Bool
can_sync s = s.ready && s.focused && not (is_off s.prefs)

-- The derived order of `Option<FormatKind>`.
abbrev pub rank : Option FormatKind → ℕ
rank none = 0
rank (some unicode_text) = 1
rank (some ansi_text) = 2
rank (some png) = 3
rank (some tiff) = 4
rank (some dib) = 5

abbrev pub insert_sorted : ℕ → List ℕ → List ℕ
insert_sorted k [] = k ∷ []
insert_sorted k (j ∷ js) = let rest = insert_sorted k js in if leb k j then k ∷ j ∷ js else j ∷ rest

-- `sorted_kinds`, each kind as its rank.
unfoldable pub sorted_kinds : List ClipFormat → List ℕ
sorted_kinds [] = []
sorted_kinds (f ∷ fs) = insert_sorted (rank (kind f)) (sorted_kinds fs)

-- `ClipboardSync::send_list`.
unfoldable pub send_list : ClipboardSync → List ClipFormat → Instant → ClipboardSync × SyncAction
send_list s formats now =
    (record s { last_sent = some (sorted_kinds formats, now) }, send_format_list formats)

abbrev pub gone_stale : Option Inflight → Option Inflight
gone_stale none = none
gone_stale (some i) = some (record i { stale = true })

-- `ClipboardSync::supersede_fetch`.
unfoldable pub supersede_fetch : ClipboardSync → ClipboardSync
supersede_fetch s = record s { fetch = none; inflight = gone_stale s.inflight }

abbrev pub local_contents : Option LocalSnapshot → ClipboardContents
local_contents none = []
local_contents (some l) = l.contents

abbrev pub all_rejected : List ClipError → List SyncAction
all_rejected [] = []
all_rejected (e ∷ es) = rejected e ∷ all_rejected es

-- `ClipboardSync::advertise_local`.
unfoldable pub advertise_local : ClipboardSync → Instant → ClipboardSync × List SyncAction
advertise_local s now =
    let (kept, refused) = filter_local (local_contents s.local) s.prefs in
    let superseded = supersede_fetch (record s { advertised = kept; pending_local = false }) in
    let (sent, action) = send_list superseded (outbound_formats kept s.prefs) now in
    (sent, all_rejected refused ++ (action ∷ []))

-- An empty list, sent.
abbrev pub send_nothing : ClipboardSync → Instant → ClipboardSync × List SyncAction
send_nothing s now = let (sent, action) = send_list s [] now in (sent, action ∷ [])
