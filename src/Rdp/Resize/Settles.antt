-- ===== src/Rdp/Resize/Settles.antt =====
-- When the resize driver sends nothing, and what the server shows in the end.
use drift.Base.{
  sym, ◌++◌, ◌+◌, ◌≤◌, ◌<◌, ◌≡◌, refl, ap, ◌∙◌, true, false, Option, none, some, List, [], ◌∷◌,
  arith, is_some, Bool-cases, inl, inr,
}
use drift.Core.Profile.{ConnectMode, DisplayPrefs}
use drift.Core.Reconnect.{Instant}
use drift.Core.Floats.{Floats, ViewGeometry}
use drift.Core.Layout.{MonitorLayout, DisplayControlCaps, desired_layout}
use drift.Core.Layout.Bounds.{desired_layout_fits}
use drift.Rdp.Resize.{
  new, resize_debounce, is_current, same_layout, ResizeDriver, adaptive, desired, is_known,
  on_geometry, on_leg_activated, on_display_control_ready, is_early, offer, poll,
}
use drift.Rdp.Resize.Sends.{
  Call, geometry_changes, leg_activates, becomes_ready, polls, step, run, consed, now_shown,
  on_geometry_shown, poll-IsNeeded,
}

module _ (f : Floats) where
  -- The layouts sent, oldest first.
  abbrev pub sent : ResizeDriver f → List (Call f) → List MonitorLayout
  sent d [] = []
  sent d (c ∷ cs) = consed f (step f d c).1 (sent (step f d c).0 cs)

  -- Polls before `end`, and geometry changes from `start` on.
  abbrev pub IsWithin : Instant → Instant → List (Call f) → Type 0
  IsWithin start end [] = Unit {0}
  IsWithin start end (geometry_changes g now ∷ cs) = (start ≤ now) × IsWithin start end cs
  IsWithin start end (leg_activates l ∷ cs) = IsWithin start end cs
  IsWithin start end (becomes_ready caps now ∷ cs) = IsWithin start end cs
  IsWithin start end (polls now ∷ cs) = (now < end) × IsWithin start end cs

  -- The debounce window ends at `end` or later.
  abbrev WaitsUntil : Instant → Option Instant → Type 0
  WaitsUntil end none = ⊥
  WaitsUntil end (some due) = end ≤ due

  poll_waits :
      (end now : Instant) (d : ResizeDriver f)
      → WaitsUntil end d.due
      → now < end
      → poll f d now ≡ (d, none)
  unfolding poll
  poll_waits end now d w h = ground arith

  ready_waits :
      (end : Instant) (d : ResizeDriver f) (caps : DisplayControlCaps) (now : Instant)
      → WaitsUntil end d.due
      → WaitsUntil end (on_display_control_ready f d caps now).due
  unfolding on_display_control_ready
  ready_waits end d caps now w = ground arith

  geometry_waits :
      (start : Instant) (d : ResizeDriver f) (g : ViewGeometry f) (now : Instant)
      → start ≤ now
      → WaitsUntil (start + resize_debounce) d.due
      → WaitsUntil (start + resize_debounce) (on_geometry f d g now).due
  unfolding on_geometry
  geometry_waits start d g now h w = ground arith

  sent_waiting :
      (start : Instant) (d : ResizeDriver f) (cs : List (Call f))
      → WaitsUntil (start + resize_debounce) d.due
      → IsWithin start (start + resize_debounce) cs
      → sent d cs ≡ []
  unfolding on_leg_activated
  sent_waiting start d [] w h = refl
  sent_waiting start d (geometry_changes g now ∷ cs) w h =
      sent_waiting start (on_geometry f d g now) cs (geometry_waits start d g now h.0 w) h.1
  sent_waiting start d (leg_activates l ∷ cs) w h =
      sent_waiting start (on_leg_activated f d l) cs w h
  sent_waiting start d (becomes_ready caps now ∷ cs) w h =
      sent_waiting start (on_display_control_ready f d caps now) cs
        (ready_waits (start + resize_debounce) d caps now w) h
  sent_waiting start d (polls now ∷ cs) w h =
      rw (poll_waits (start + resize_debounce) now d w h.0) (sent_waiting start d cs w h.1)

  change_waits :
      (d : ResizeDriver f) (g : ViewGeometry f) (start : Instant)
      → adaptive f d ≡ true
      → is_known f d.geometry g ≡ false
      → WaitsUntil (start + resize_debounce) (on_geometry f d g start).due
  unfolding on_geometry
  change_waits d g start a k = ground arith

  -- For 250 ms after a change of the geometry nothing is sent, whatever else is called: polls before
  -- the end of the window, further changes, activations and capabilities.
  pub sent-on_geometry :
      (d : ResizeDriver f) (g : ViewGeometry f) (start : Instant) (cs : List (Call f))
      → adaptive f d ≡ true
      → is_known f d.geometry g ≡ false
      → IsWithin start (start + resize_debounce) cs
      → sent (on_geometry f d g start) cs ≡ []
  sent-on_geometry d g start cs a k h =
      sent_waiting start (on_geometry f d g start) cs (change_waits d g start a k) h

  same_layout-eq : (a b : MonitorLayout) → same_layout a b ≡ true → a ≡ b
  same_layout-eq a b e = ground arith

  offer_settles :
      (d : ResizeDriver f) (l : MonitorLayout)
      → ((offer f d (some l)).0.current ≡ some l) × ((offer f d (some l)).0.due ≡ d.due)
  offer_settles d l = elim (Bool-cases (is_current d.current l)) [
    | inl e ↦ rw e (current_settles d.current e, refl)
    | inr e ↦ rw e (refl, refl)
  ]
    where
      current_settles : (c : Option MonitorLayout) → is_current c l ≡ true → c ≡ some l
      current_settles none e = absurd cc
      current_settles (some c) e = ap some (same_layout-eq c l e)

  poll_open :
      (d : ResizeDriver f) (now : Instant)
      → is_early d.due now ≡ false
      → is_some d.caps ≡ true
      → poll f d now
        ≡ (let d' : ResizeDriver f = record d { due = none } in offer f d' (desired f d'))
  unfolding poll
  poll_open d now e c = rw (e, c) refl

  desired_known :
      (d : ResizeDriver f) (g : ViewGeometry f) (caps : DisplayControlCaps)
      → adaptive f d ≡ true
      → d.geometry ≡ some g
      → d.caps ≡ some caps
      → desired f d ≡ desired_layout f g d.prefs caps
  unfolding desired
  desired_known d g caps a p q = rw (p, a, q) refl

  -- What the server shows in the end, when it shows every layout that it is sent.
  abbrev pub shown_after :
      Option MonitorLayout → ResizeDriver f → List (Call f) → Option MonitorLayout
  shown_after shown d [] = shown
  shown_after shown d (c ∷ cs) = shown_after (now_shown f shown c (step f d c).1) (step f d c).0 cs

  step-shown :
      (d : ResizeDriver f) (c : Call f)
      → (step f d c).0.current ≡ now_shown f d.current c (step f d c).1
  unfolding on_leg_activated on_display_control_ready
  step-shown d (geometry_changes g now) = on_geometry_shown f d g now
  step-shown d (leg_activates l) = refl
  step-shown d (becomes_ready caps now) = refl
  step-shown d (polls now) = (poll-IsNeeded f d now).1

  run-shown :
      (d : ResizeDriver f) (cs : List (Call f)) → shown_after d.current d cs ≡ (run f d cs).current
  run-shown d [] = refl
  run-shown d (c ∷ cs) =
      ap (λ shown. shown_after shown (step f d c).0 cs) (sym (step-shown d c))
      ∙ run-shown (step f d c).0 cs

  run-append :
      (d : ResizeDriver f) (cs : List (Call f)) (c : Call f)
      → run f d (cs ++ c ∷ []) ≡ (step f (run f d cs) c).0
  run-append d [] c = refl
  run-append d (b ∷ cs) c = run-append (step f d b).0 cs c

  poll_catches_up :
      (d : ResizeDriver f) (g : ViewGeometry f) (caps : DisplayControlCaps) (now : Instant)
      → adaptive f d ≡ true
      → d.geometry ≡ some g
      → d.caps ≡ some caps
      → is_early d.due now ≡ false
      → (l : MonitorLayout) × (desired_layout f g d.prefs caps ≡ some l)
        × ((poll f d now).0.current ≡ some l)
        × ((poll f d now).0.due ≡ none)
  poll_catches_up d g caps now a p q e =
      let d' : ResizeDriver f = record d { due = none } in
      let (l, r, fits) = desired_layout_fits f g d.prefs caps in
      let opened =
        poll_open d now e (ap is_some q) ∙ ap (offer f d') (desired_known d' g caps a p q ∙ r) in
      let (s, t) = offer_settles d' l in
      (
        l,
        r,
        ap (λ (o : ResizeDriver f × Option MonitorLayout). o.0.current) opened ∙ s,
        ap (λ (o : ResizeDriver f × Option MonitorLayout). o.0.due) opened ∙ t,
      )

  -- After any calls of a new driver: where the session is adaptive, a geometry and the capabilities are
  -- known and no debounce window is open, a poll makes the server show the layout of that geometry,
  -- when it shows the layout of each activation and every layout that it is sent; and nothing is due
  -- any more.
  pub poll_settles :
      (mode : ConnectMode) (prefs : DisplayPrefs) (cs : List (Call f)) (g : ViewGeometry f)
      (caps : DisplayControlCaps) (now : Instant)
      → adaptive f (run f (new f mode prefs) cs) ≡ true
      → (run f (new f mode prefs) cs).geometry ≡ some g
      → (run f (new f mode prefs) cs).caps ≡ some caps
      → is_early (run f (new f mode prefs) cs).due now ≡ false
      → (l : MonitorLayout) × (desired_layout f g (run f (new f mode prefs) cs).prefs caps ≡ some l)
        × (shown_after none (new f mode prefs) (cs ++ polls now ∷ []) ≡ some l)
        × ((run f (new f mode prefs) (cs ++ polls now ∷ [])).due ≡ none)
  poll_settles mode prefs cs g caps now a p q e =
      let start : ResizeDriver f = new f mode prefs in
      let (l, fits, current, due) = poll_catches_up (run f start cs) g caps now a p q e in
      let last = run-append start cs (polls now) in
      (
        l,
        fits,
        run-shown start (cs ++ polls now ∷ []) ∙ ap (λ d. d.current) last ∙ current,
        ap (λ d. d.due) last ∙ due,
      )
