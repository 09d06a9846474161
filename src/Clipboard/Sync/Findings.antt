-- ===== src/Clipboard/Sync/Findings.antt =====
-- Two corners of the focus and preference rules of the clipboard protocol.
use drift.Base.{ap, ◌∙◌, not, ℕ, ◌+◌, ◌≡◌, refl, true, false, some, List, [], ◌∷◌, ◌++◌, arith, ok}
use drift.Gfx.Pdu.{Bytes}
use drift.Core.Profile.{ClipboardPrefs, off, text, text_and_images}
use drift.Core.Reconnect.{Instant}
use drift.Clipboard.Formats.{
  kind, ClipboardItem, ClipboardContents, ClipFormat, FormatKind, ClipError,
}
use drift.Clipboard.Formats.Images.{Images}
use drift.Clipboard.Formats.Convert.{select_inbound, filter_local, outbound_formats, decode_inbound}
use drift.Clipboard.Sync.Requests.{run}
use drift.Clipboard.Sync.{
  start_fetch, can_sync, SyncInput, initial_format_list_requested, remote_format_list, same_numbers,
  insert_sorted, sorted_kinds, rank, is_echo, on_initial_request, on_remote_list, remote_data,
  local_changed, focus, prefs_changed, SyncAction, send_format_list, write_pasteboard,
  ClipboardSync, new, send_list, supersede_fetch, advertise_local, all_rejected, on_local_change,
  on_prefs, next_fetch_step, on_remote_data, on_focus, handle, is_off, local_contents,
}

-- The format lists among the actions.
abbrev pub lists : List SyncAction → ℕ
lists [] = 0
lists (send_format_list fs ∷ xs) = 1 + lists xs
lists (_ ∷ xs) = lists xs

lists-advertised :
    (es : List ClipError) (fs : List ClipFormat)
    → lists (all_rejected es ++ (send_format_list fs ∷ [])) ≡ 1
lists-advertised [] fs = omega arith
lists-advertised (e ∷ es) fs = lists-advertised es fs

advertise_local-lists :
    (s : ClipboardSync) (now : Instant)
    → ((advertise_local s now).0.ready ≡ s.ready) × (lists (advertise_local s now).1 ≡ 1)
unfolding advertise_local send_list supersede_fetch
advertise_local-lists s now = (
  refl,
  lists-advertised (filter_local (local_contents s.local) s.prefs).1
      (outbound_formats (filter_local (local_contents s.local) s.prefs).0 s.prefs),
)

nothing_inserted : (k : ℕ) (ks : List ℕ) → same_numbers [] (insert_sorted k ks) ≡ false
nothing_inserted k [] = refl
nothing_inserted k (j ∷ js) = ground arith

-- The list that a new session sends is empty, so no list with a format is its echo.
no_echo :
    (f : ClipFormat) (fs : List ClipFormat) (first now : Instant)
    → is_echo (some (sorted_kinds [], first)) (f ∷ fs) now ≡ false
unfolding sorted_kinds
no_echo f fs first now = ground (arith, nothing_inserted (rank (kind f)) (sorted_kinds fs))

on_remote_list-fresh :
    (s : ClipboardSync) (formats : List ClipFormat) (now : Instant)
    → can_sync s ≡ true
    → is_echo s.last_sent formats now ≡ false
    → on_remote_list s formats now
      ≡ start_fetch (supersede_fetch s) (select_inbound formats s.prefs) now
unfolding on_remote_list
on_remote_list-fresh s formats now c e = rw (c, e) refl

module _ (images : Images) where
  -- In a new session without the focus whose clipboard is not turned off, a local change and then the
  -- focus make the session send one format list, although the server has not asked for the first one.
  pub focus_before_ready :
      (prefs : ClipboardPrefs) (count : ℕ) (contents : ClipboardContents) (at now : Instant)
      → is_off prefs ≡ false
      → ((handle images
            (handle images (new prefs false) (local_changed count contents) at).0
            (focus true)
            now).0.ready
          ≡ false)
        × (lists
              (handle images
                (handle images (new prefs false) (local_changed count contents) at).0
                (focus true)
                now).1
            ≡ 1)
  unfolding handle new on_local_change on_focus
  focus_before_ready off count contents at now h = absurd cc
  focus_before_ready text count contents at now h = advertise_local-lists _ now
  focus_before_ready text_and_images count contents at now h = advertise_local-lists _ now

  -- A session answers the first request of the server, and the server announces a copy.
  abbrev pub copied : List ClipFormat → Instant → Instant → List (SyncInput × Instant)
  copied formats first now =
      (initial_format_list_requested, first) ∷ (remote_format_list formats, now) ∷ []

  -- The session that asked for the format of the copy.
  abbrev asking : ClipboardPrefs → FormatKind → Instant → Instant → ClipboardSync
  asking prefs k first now = record (new prefs true) {
    ready = true;
    last_sent = some (sorted_kinds [], first);
    fetch = some (record { queue = []; items = []; announced = now });
    inflight = some (record { kind = k; since = now; stale = false });
  }

  run-copied :
      (prefs : ClipboardPrefs) (f : ClipFormat) (fs : List ClipFormat) (format : ClipFormat)
      (k : FormatKind) (first now : Instant)
      → is_off prefs ≡ false
      → select_inbound (f ∷ fs) prefs ≡ (format, k) ∷ []
      → run images (new prefs true) (copied (f ∷ fs) first now) ≡ asking prefs k first now
  unfolding handle new on_initial_request send_list supersede_fetch next_fetch_step
  run-copied prefs f fs format k first now h s =
      let answered : ClipboardSync = record (new prefs true) {
        ready = true;
        last_sent = some (sorted_kinds [], first);
      } in
      let answers : (handle images (new prefs true) initial_format_list_requested first).0
          ≡ answered =
        ground (arith, h) in
      let fetches =
        on_remote_list-fresh answered (f ∷ fs) now (ap not h) (no_echo f fs first now) in
      ap (λ s. (handle images s (remote_format_list (f ∷ fs)) now).0) answers
      ∙ ap (λ (o : ClipboardSync × List SyncAction). o.0) fetches
      ∙ ap (λ q. (start_fetch (supersede_fetch answered) q now).0) s

  still_writes :
      (prefs : ClipboardPrefs) (k : FormatKind) (bytes : Bytes) (item : ClipboardItem)
      (first announced left changed now : Instant)
      → is_off prefs ≡ false
      → decode_inbound images k bytes ≡ ok item
      → (handle images
          (run images
            (asking prefs k first announced)
            ((focus false, left) ∷ (prefs_changed off, changed) ∷ []))
          (remote_data (some bytes))
          now).1
        ≡ write_pasteboard (item ∷ []) ∷ []
  unfolding handle new on_focus on_prefs on_remote_data next_fetch_step
  still_writes off k bytes item first announced left changed now h d = absurd cc
  still_writes text k bytes item first announced left changed now h d = rw d refl
  still_writes text_and_images k bytes item first announced left changed now h d = rw d refl

  -- A new session with the focus, whose clipboard is not turned off, answers the first request of the
  -- server. The server announces a copy, of which the session takes one format. Then it loses
  -- the focus and its clipboard is turned off; and still the data, if it decodes, is written to the
  -- pasteboard when it comes.
  pub off_still_writes :
      (prefs : ClipboardPrefs) (f : ClipFormat) (fs : List ClipFormat) (format : ClipFormat)
      (k : FormatKind) (bytes : Bytes) (item : ClipboardItem)
      (first announced left changed now : Instant)
      → is_off prefs ≡ false
      → select_inbound (f ∷ fs) prefs ≡ (format, k) ∷ []
      → decode_inbound images k bytes ≡ ok item
      → (handle images
          (run images
            (run images (new prefs true) (copied (f ∷ fs) first announced))
            ((focus false, left) ∷ (prefs_changed off, changed) ∷ []))
          (remote_data (some bytes))
          now).1
        ≡ write_pasteboard (item ∷ []) ∷ []
  off_still_writes prefs f fs format k bytes item first announced left changed now h s d =
      rw (run-copied prefs f fs format k first announced h s)
        (still_writes prefs k bytes item first announced left changed now h d)
