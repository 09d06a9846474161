-- ===== src/Clipboard/Sync/Requests.antt =====
-- Requests on the wire: the channel allows one Format Data Request at a time.
use drift.Base.{
  ℕ, ◌+◌, ◌≤◌, ◌≡◌, refl, ap, Bool, true, Option, none, some, List, [], ◌∷◌, ◌++◌, arith,
  Bool-cases, inl, inr, if◌then◌else◌, Result, ok, err,
}
use drift.Gfx.Pdu.{Bytes}
use drift.Core.Profile.{ClipboardPrefs}
use drift.Core.Reconnect.{Instant}
use drift.Clipboard.Formats.{ClipboardItem, ClipboardContents, ClipFormat, ClipError}
use drift.Clipboard.Formats.Images.{Images}
use drift.Clipboard.Formats.Convert.{filter_local, outbound_formats}
use drift.Clipboard.Sync.{
  SyncInput, initial_format_list_requested, remote_format_list, remote_data, remote_data_request,
  local_changed, local_written, focus, prefs_changed, tick, SyncAction, send_format_list,
  request_remote_data, send_data, write_pasteboard, rejected, ClipboardSync, Inflight, new,
  send_list, supersede_fetch, advertise_local, all_rejected, on_initial_request, on_local_change,
  on_prefs, next_fetch_step, on_remote_list, received, item_of, on_response, on_remote_data,
  on_data_request, on_local_written, on_focus, on_clock, is_timed_out, handle, gone_stale,
  local_contents,
}

-- The requests among the actions.
abbrev pub requests : List SyncAction → ℕ
requests [] = 0
requests (request_remote_data f ∷ xs) = 1 + requests xs
requests (_ ∷ xs) = requests xs

abbrev pub in_flight : Option Inflight → ℕ
in_flight none = 0
in_flight (some i) = 1

requests-append : (xs bs : List SyncAction) → requests (xs ++ bs) ≡ requests xs + requests bs
requests-append [] bs = omega arith
requests-append (request_remote_data f ∷ xs) bs = omega (arith, requests-append xs bs)
requests-append (send_format_list fs ∷ xs) bs = requests-append xs bs
requests-append (send_data i d ∷ xs) bs = requests-append xs bs
requests-append (write_pasteboard c ∷ xs) bs = requests-append xs bs
requests-append (rejected e ∷ xs) bs = requests-append xs bs

requests-all_rejected : (es : List ClipError) → requests (all_rejected es) ≡ 0
requests-all_rejected [] = refl
requests-all_rejected (e ∷ es) = requests-all_rejected es

-- After the actions, the request in flight is a new one or the one from before.
abbrev Balances : ClipboardSync → ClipboardSync × List SyncAction → Type 0
Balances s r = in_flight r.0.inflight ≡ in_flight s.inflight + requests r.1

stale_counts : (o : Option Inflight) → in_flight (gone_stale o) ≡ in_flight o
stale_counts none = refl
stale_counts (some i) = refl

advertise_local-Balances : (s : ClipboardSync) (now : Instant) → Balances s (advertise_local s now)
unfolding advertise_local send_list supersede_fetch
advertise_local-Balances s now =
    let refused = (filter_local (local_contents s.local) s.prefs).1 in
    let last =
      send_format_list
        (outbound_formats (filter_local (local_contents s.local) s.prefs).0 s.prefs) in
    omega (
      arith,
      stale_counts s.inflight,
      requests-append (all_rejected refused) (last ∷ []),
      requests-all_rejected refused,
    )

initial-Balances : (s : ClipboardSync) (now : Instant) → Balances s (on_initial_request s now)
unfolding on_initial_request send_list
initial-Balances s now = ground (arith, advertise_local-Balances (record s { ready = true }) now)

local-Balances :
    (s : ClipboardSync) (count : ℕ) (contents : ClipboardContents) (now : Instant)
    → Balances s (on_local_change s count contents now)
unfolding on_local_change
local-Balances s count contents now =
    let noted : ClipboardSync = record s {
      last_local_change_count = some count;
      local = some (record { contents = contents; at = now });
    } in
    ground (arith, advertise_local-Balances noted now)

prefs-Balances :
    (s : ClipboardSync) (prefs : ClipboardPrefs) (now : Instant) → Balances s (on_prefs s prefs now)
unfolding on_prefs send_list supersede_fetch
prefs-Balances s prefs now =
    ground
      (arith, advertise_local-Balances (record s { prefs = prefs }) now, stale_counts s.inflight)

focus-Balances : (s : ClipboardSync) (b : Bool) (now : Instant) → Balances s (on_focus s b now)
unfolding on_focus
focus-Balances s b now = ground (arith, advertise_local-Balances (record s { focused = b }) now)

step-Balances :
    (s : ClipboardSync) (now : Instant) → s.inflight ≡ none → Balances s (next_fetch_step s now)
unfolding next_fetch_step
step-Balances s now h = ground (arith, h)

list-Balances :
    (s : ClipboardSync) (formats : List ClipFormat) (now : Instant)
    → Balances s (on_remote_list s formats now)
unfolding on_remote_list supersede_fetch next_fetch_step
list-Balances s formats now = ground arith

next_ledger :
    (r : ClipboardSync × List SyncAction) (now : Instant)
    → (r.0.inflight ≡ none) × (requests r.1 ≡ 0)
    → in_flight (next_fetch_step r.0 now).0.inflight ≡ requests (r.1 ++ (next_fetch_step r.0 now).1)
next_ledger r now (h, k) = omega (
  arith,
  ap in_flight h,
  k,
  step-Balances r.0 now h,
  requests-append r.1 (next_fetch_step r.0 now).1,
)

module _ (images : Images) where
  -- How many requests an input takes off the wire: the answer to one, or its timeout.
  abbrev pub released : ClipboardSync → SyncInput → Instant → ℕ
  released s (remote_data bytes) now = in_flight s.inflight
  released s tick now = if is_timed_out s.inflight now then 1 else 0
  released s _ now = 0

  received-idle :
      (s : ClipboardSync) (r : Result ClipError ClipboardItem)
      → s.inflight ≡ none
      → ((received images s r).0.inflight ≡ none) × (requests (received images s r).1 ≡ 0)
  received-idle s (ok item) h = (h, refl)
  received-idle s (err e) h = (h, refl)

  response_ledger :
      (s : ClipboardSync) (o : Option Inflight) (bytes : Option Bytes) (now : Instant)
      → s.inflight ≡ o
      → in_flight (on_response images s o bytes now).0.inflight
        ≡ requests (on_response images s o bytes now).1
  response_ledger s none bytes now h = ap in_flight h
  response_ledger s (some i) bytes now h =
      let free : ClipboardSync = record s { inflight = none } in
      let taken = received images free (item_of images i.kind bytes) in
      next_ledger (if i.stale then (free, []) else taken) now (elim (Bool-cases i.stale) [
        | inl e ↦ rw e (refl, refl)
        | inr e ↦ rw e (received-idle free (item_of images i.kind bytes) refl)
      ])

  step_ledger :
      (s : ClipboardSync) (i : SyncInput) (now : Instant)
      → in_flight (handle images s i now).0.inflight + released s i now
        ≡ in_flight s.inflight + requests (handle images s i now).1
  unfolding handle on_remote_data on_data_request on_local_written on_clock
  step_ledger s initial_format_list_requested now = omega (arith, initial-Balances s now)
  step_ledger s (remote_format_list formats) now = omega (arith, list-Balances s formats now)
  step_ledger s (remote_data bytes) now = omega (arith, response_ledger s s.inflight bytes now refl)
  step_ledger s (remote_data_request id) now = omega arith
  step_ledger s (local_changed count contents) now =
      omega (arith, local-Balances s count contents now)
  step_ledger s (local_written count) now = omega arith
  step_ledger s (focus b) now = omega (arith, focus-Balances s b now)
  step_ledger s (prefs_changed prefs) now = omega (arith, prefs-Balances s prefs now)
  step_ledger s tick now = ground arith

  abbrev pub run : ClipboardSync → List (SyncInput × Instant) → ClipboardSync
  run s [] = s
  run s ((i, now) ∷ is) = run (handle images s i now).0 is

  -- The requests sent, and the requests answered or given up.
  abbrev pub sent : ClipboardSync → List (SyncInput × Instant) → ℕ
  sent s [] = 0
  sent s ((i, now) ∷ is) = requests (handle images s i now).1 + sent (handle images s i now).0 is

  abbrev pub closed : ClipboardSync → List (SyncInput × Instant) → ℕ
  closed s [] = 0
  closed s ((i, now) ∷ is) = released s i now + closed (handle images s i now).0 is

  run_ledger :
      (s : ClipboardSync) (is : List (SyncInput × Instant))
      → in_flight (run s is).inflight + closed s is ≡ in_flight s.inflight + sent s is
  run_ledger s [] = omega arith
  run_ledger s ((i, now) ∷ is) =
      omega (arith, step_ledger s i now, run_ledger (handle images s i now).0 is)

  at_most_one : (o : Option Inflight) → in_flight o ≤ 1
  at_most_one none = omega arith
  at_most_one (some i) = omega arith

  -- Whatever a new session receives, at most one of its requests is open: the requests sent are those
  -- answered or given up after the timeout, and one more just if the state has a request in flight.
  pub sent-closed :
      (prefs : ClipboardPrefs) (focused : Bool) (is : List (SyncInput × Instant))
      → (sent (new prefs focused) is
          ≡ closed (new prefs focused) is + in_flight (run (new prefs focused) is).inflight)
        × (sent (new prefs focused) is ≤ closed (new prefs focused) is + 1)
  unfolding new
  sent-closed prefs focused is =
      let balance = run_ledger (new prefs focused) is in
      let one = at_most_one (run (new prefs focused) is).inflight in
      (omega (arith, balance), omega (arith, balance, one))
