-- ===== src/Clipboard/Sync/Scope.antt =====
-- When the local clipboard is offered to the remote.
use drift.Base.{
  ℕ, ◌≡◌, refl, Bool, true, false, not, ◌&&◌, ◌||◌, Option, none, some, List, [], ◌∷◌, ◌++◌, arith,
  Bool-cases, inl, inr, if◌then◌else◌, Result, ok, err,
}
use drift.Gfx.Pdu.{Bytes}
use drift.Core.Profile.{ClipboardPrefs, off, text, text_and_images}
use drift.Core.Reconnect.{Instant}
use drift.Clipboard.Formats.{ClipboardItem, ClipboardContents, ClipFormat, ClipError}
use drift.Clipboard.Formats.Images.{Images}
use drift.Clipboard.Formats.Convert.{filter_local, outbound_formats}
use drift.Clipboard.Sync.{
  SyncInput, initial_format_list_requested, remote_format_list, remote_data, remote_data_request,
  local_changed, local_written, focus, prefs_changed, tick, SyncAction, send_format_list,
  request_remote_data, send_data, write_pasteboard, rejected, ClipboardSync, Inflight, send_list,
  supersede_fetch, advertise_local, all_rejected, on_initial_request, on_local_change, on_prefs,
  next_fetch_step, on_remote_list, received, item_of, on_response, on_remote_data, on_data_request,
  on_focus, handle, is_off, local_contents,
}

abbrev some_listed : List ClipFormat → Bool
some_listed [] = false
some_listed (f ∷ fs) = true

-- Whether the local clipboard is offered: a format list that is not empty is sent.
abbrev pub offers_local : List SyncAction → Bool
offers_local [] = false
offers_local (send_format_list fs ∷ xs) = some_listed fs || offers_local xs
offers_local (_ ∷ xs) = offers_local xs

-- Only in a state with the focus, and with the clipboard not turned off.
abbrev pub Scoped : ClipboardSync × List SyncAction → Type 0
Scoped r = (not (offers_local r.1) || (r.0.focused && not (is_off r.0.prefs))) ≡ true

off_offers_nothing :
    (c : ClipboardContents) (prefs : ClipboardPrefs)
    → is_off prefs ≡ true
    → outbound_formats c prefs ≡ []
unfolding outbound_formats
off_offers_nothing c off h = refl
off_offers_nothing c text h = absurd cc
off_offers_nothing c text_and_images h = absurd cc

offers_local-all_rejected :
    (es : List ClipError) (fs : List ClipFormat)
    → offers_local (all_rejected es ++ (send_format_list fs ∷ [])) ≡ (some_listed fs || false)
offers_local-all_rejected [] fs = refl
offers_local-all_rejected (e ∷ es) fs = offers_local-all_rejected es fs

advertise_local-Scoped :
    (s : ClipboardSync) (now : Instant) → s.focused ≡ true → Scoped (advertise_local s now)
unfolding advertise_local send_list supersede_fetch
advertise_local-Scoped s now h =
    let kept = (filter_local (local_contents s.local) s.prefs).0 in
    ground (
      arith,
      h,
      offers_local-all_rejected (filter_local (local_contents s.local) s.prefs).1
          (outbound_formats kept s.prefs),
      off_offers_nothing kept s.prefs,
    )

initial-Scoped : (s : ClipboardSync) (now : Instant) → Scoped (on_initial_request s now)
unfolding on_initial_request send_list
initial-Scoped s now = ground (arith, advertise_local-Scoped (record s { ready = true }) now)

local-Scoped :
    (s : ClipboardSync) (count : ℕ) (contents : ClipboardContents) (now : Instant)
    → Scoped (on_local_change s count contents now)
unfolding on_local_change
local-Scoped s count contents now =
    let noted : ClipboardSync = record s {
      last_local_change_count = some count;
      local = some (record { contents = contents; at = now });
    } in
    ground (arith, advertise_local-Scoped noted now)

prefs-Scoped :
    (s : ClipboardSync) (prefs : ClipboardPrefs) (now : Instant) → Scoped (on_prefs s prefs now)
unfolding on_prefs send_list supersede_fetch
prefs-Scoped s prefs now = ground (arith, advertise_local-Scoped (record s { prefs = prefs }) now)

focus-Scoped : (s : ClipboardSync) (b : Bool) (now : Instant) → Scoped (on_focus s b now)
unfolding on_focus
focus-Scoped s b now = ground (arith, advertise_local-Scoped (record s { focused = b }) now)

step_offers_nothing :
    (s : ClipboardSync) (now : Instant) → offers_local (next_fetch_step s now).1 ≡ false
unfolding next_fetch_step
step_offers_nothing s now = ground arith

list_offers_nothing :
    (s : ClipboardSync) (formats : List ClipFormat) (now : Instant)
    → offers_local (on_remote_list s formats now).1 ≡ false
unfolding on_remote_list next_fetch_step
list_offers_nothing s formats now = ground arith

offers_local-append :
    (xs ys : List SyncAction)
    → offers_local xs ≡ false
    → offers_local ys ≡ false
    → offers_local (xs ++ ys) ≡ false
offers_local-append [] ys h k = k
offers_local-append (send_format_list fs ∷ xs) ys h k = ground (arith, offers_local-append xs ys)
offers_local-append (request_remote_data f ∷ xs) ys h k = offers_local-append xs ys h k
offers_local-append (send_data i d ∷ xs) ys h k = offers_local-append xs ys h k
offers_local-append (write_pasteboard c ∷ xs) ys h k = offers_local-append xs ys h k
offers_local-append (rejected e ∷ xs) ys h k = offers_local-append xs ys h k

quiet-Scoped : (r : ClipboardSync × List SyncAction) → offers_local r.1 ≡ false → Scoped r
quiet-Scoped r h = ground (arith, h)

module _ (images : Images) where
  received_offers_nothing :
      (s : ClipboardSync) (r : Result ClipError ClipboardItem)
      → offers_local (received images s r).1 ≡ false
  received_offers_nothing s (ok item) = refl
  received_offers_nothing s (err e) = refl

  response_offers_nothing :
      (s : ClipboardSync) (o : Option Inflight) (bytes : Option Bytes) (now : Instant)
      → offers_local (on_response images s o bytes now).1 ≡ false
  response_offers_nothing s none bytes now = refl
  response_offers_nothing s (some i) bytes now =
      let free : ClipboardSync = record s { inflight = none } in
      let taken = received images free (item_of images i.kind bytes) in
      let r = (if i.stale then (free, []) else taken) in
      offers_local-append r.1 (next_fetch_step r.0 now).1
        (elim (Bool-cases i.stale) [
          | inl e ↦ rw e refl
          | inr e ↦ rw e (received_offers_nothing free (item_of images i.kind bytes))
        ])
        (step_offers_nothing r.0 now)

  -- Whatever a session receives, in any state: the local clipboard is offered to the remote only if the
  -- session then has the focus and its clipboard is not turned off.
  pub handle-Scoped :
      (s : ClipboardSync) (i : SyncInput) (now : Instant) → Scoped (handle images s i now)
  unfolding handle on_remote_data on_data_request
  handle-Scoped s initial_format_list_requested now = initial-Scoped s now
  handle-Scoped s (remote_format_list formats) now =
      quiet-Scoped (on_remote_list s formats now) (list_offers_nothing s formats now)
  handle-Scoped s (remote_data bytes) now =
      quiet-Scoped (on_response images s s.inflight bytes now)
        (response_offers_nothing s s.inflight bytes now)
  handle-Scoped s (remote_data_request id) now = refl
  handle-Scoped s (local_changed count contents) now = local-Scoped s count contents now
  handle-Scoped s (local_written count) now = refl
  handle-Scoped s (focus b) now = focus-Scoped s b now
  handle-Scoped s (prefs_changed prefs) now = prefs-Scoped s prefs now
  handle-Scoped s tick now = refl
