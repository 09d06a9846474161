-- ===== src/Clipboard/Sync/Local.antt =====
-- crates/drift-clipboard/src/sync.rs: the inputs from the side of the app, and the first request of the
-- server.
use drift.Base.{
  ℕ, Bool, true, false, not, ◌&&◌, ◌||◌, Option, none, some, List, [], ◌∷◌, ◌++◌, ltb, ◌==◌,
  is_some, if◌then◌else◌, length,
}
use drift.Core.Profile.{ClipboardPrefs, off, text, text_and_images}
use drift.Core.Reconnect.{Instant}
use drift.Clipboard.Formats.{ClipboardItem, text_item, png_item, tiff_item, ClipboardContents}
use drift.Clipboard.Sync.State.{
  own_writes_kept, SyncAction, ClipboardSync, is_off, can_sync, supersede_fetch, advertise_local,
  send_nothing,
}

-- `ClipboardSync::on_initial_request`.
unfoldable pub on_initial_request : ClipboardSync → Instant → ClipboardSync × List SyncAction
on_initial_request s now =
    let r : ClipboardSync = record s { ready = true } in
    if can_sync r && is_some r.local
    then advertise_local r now
    else send_nothing
        (record r { pending_local = is_some r.local && not (is_off r.prefs); advertised = [] }) now

abbrev pub same_count : Option ℕ → ℕ → Bool
same_count none c = false
same_count (some d) c = d == c

abbrev pub contains_count : List ℕ → ℕ → Bool
contains_count [] c = false
contains_count (d ∷ ds) c = d == c || contains_count ds c

abbrev pub same_numbers : List ℕ → List ℕ → Bool
same_numbers [] [] = true
same_numbers (a ∷ xs) (b ∷ ys) = a == b && same_numbers xs ys
same_numbers _ _ = false

abbrev same_item : ClipboardItem → ClipboardItem → Bool
same_item (text_item t) (text_item u) = same_numbers t u
same_item (png_item b) (png_item c) = same_numbers b c
same_item (tiff_item b) (tiff_item c) = same_numbers b c
same_item _ _ = false

-- `==` on contents.
unfoldable pub same_contents : ClipboardContents → ClipboardContents → Bool
same_contents [] [] = true
same_contents (i ∷ is) (j ∷ js) = same_item i j && same_contents is js
same_contents _ _ = false

abbrev pub is_unacked : Option ClipboardContents → ClipboardContents → Bool
is_unacked none c = false
is_unacked (some w) c = same_contents w c

-- `ClipboardSync::on_local_change`.
unfoldable pub on_local_change :
    ClipboardSync → ℕ → ClipboardContents → Instant → ClipboardSync × List SyncAction
on_local_change s count contents now =
    let own = contains_count s.own_writes count || is_unacked s.unacked_write contents in
    let noted : ClipboardSync = record s {
      last_local_change_count = some count;
      local = some (record { contents = contents; at = now });
    } in
    if same_count s.last_local_change_count count
    then (s, [])
    else if own
    then (noted, [])
    else if is_off s.prefs
    then (noted, [])
    else if not (can_sync s)
    then (record noted { pending_local = true }, [])
    else advertise_local noted now

abbrev pub same_prefs : ClipboardPrefs → ClipboardPrefs → Bool
same_prefs off off = true
same_prefs text text = true
same_prefs text_and_images text_and_images = true
same_prefs _ _ = false

-- `ClipboardSync::on_prefs`.
unfoldable pub on_prefs : ClipboardSync → ClipboardPrefs → Instant → ClipboardSync × List SyncAction
on_prefs s prefs now =
    let changed : ClipboardSync = record s { prefs = prefs } in
    if same_prefs prefs s.prefs
    then (s, [])
    else if not (s.ready && s.focused)
    then (record changed { pending_local = is_some s.local }, [])
    else if is_off prefs
    then send_nothing (record (supersede_fetch changed) { advertised = [] }) now
    else if is_some s.local
    then advertise_local changed now
    else (changed, [])

abbrev pub behind_first : List ℕ → List ℕ
behind_first [] = []
behind_first (c ∷ cs) = cs

-- `handle`, for a local write.
unfoldable pub on_local_written : ClipboardSync → ℕ → ClipboardSync
on_local_written s count =
    let writes = s.own_writes ++ (count ∷ []) in
    record s {
      unacked_write = none;
      own_writes = if ltb own_writes_kept (length writes) then behind_first writes else writes;
    }

-- `handle`, for the focus.
unfoldable pub on_focus : ClipboardSync → Bool → Instant → ClipboardSync × List SyncAction
on_focus s focused now =
    let f : ClipboardSync = record s { focused = focused } in
    if focused && f.pending_local then advertise_local f now else (f, [])
