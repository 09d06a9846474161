-- ===== src/Rdp/Resize/Sends.antt =====
-- What the resize driver sends over any calls of the session actor.
use drift.Base.{
  ◌≡◌, refl, subst, Bool, true, false, not, ◌||◌, Option, none, some, List, [], ◌∷◌, arith, is_some,
  Bool-cases, inl, inr,
}
use drift.Core.Reconnect.{Instant}
use drift.Core.Floats.{Floats, ViewGeometry}
use drift.Core.Layout.{MonitorLayout, DisplayControlCaps}
use drift.Rdp.Resize.{
  is_current, ResizeDriver, adaptive, desired_for, desired, on_geometry, on_leg_activated,
  on_display_control_ready, is_early, offer, poll,
}

module _ (f : Floats) where
  pub data Call : Type 0 where
    geometry_changes : ViewGeometry f → Instant → Call
    leg_activates : MonitorLayout → Call
    becomes_ready : DisplayControlCaps → Instant → Call
    polls : Instant → Call

  abbrev pub step : ResizeDriver f → Call → ResizeDriver f × Option MonitorLayout
  step d (geometry_changes g now) = (on_geometry f d g now, none)
  step d (leg_activates l) = (on_leg_activated f d l, none)
  step d (becomes_ready caps now) = (on_display_control_ready f d caps now, none)
  step d (polls now) = poll f d now

  abbrev pub run : ResizeDriver f → List Call → ResizeDriver f
  run d [] = d
  run d (c ∷ cs) = run (step d c).0 cs

  abbrev pub consed : Option MonitorLayout → List MonitorLayout → List MonitorLayout
  consed none ls = ls
  consed (some l) ls = l ∷ ls

  -- What the server shows after the calls, when it shows every layout that it is sent: of each layout
  -- sent, that it is new to the server, and that the session may ask for it.
  abbrev pub IsNeeded : Bool → Option MonitorLayout → Option MonitorLayout → Type 0
  IsNeeded may shown none = Unit {0}
  IsNeeded may shown (some l) = (may ≡ true) × (is_current shown l ≡ false)

  abbrev pub now_shown : Option MonitorLayout → Call → Option MonitorLayout → Option MonitorLayout
  now_shown shown c (some l) = some l
  now_shown shown (leg_activates l) none = some l
  now_shown shown (geometry_changes g now) none = shown
  now_shown shown (becomes_ready caps now) none = shown
  now_shown shown (polls now) none = shown

  abbrev pub AreNeeded : Option MonitorLayout → ResizeDriver f → List Call → Type 0
  AreNeeded shown d [] = Unit {0}
  AreNeeded shown d (c ∷ cs) =
      IsNeeded (adaptive f d) shown (step d c).1
      × AreNeeded (now_shown shown c (step d c).1) (step d c).0 cs

  desired-adaptive :
      (d : ResizeDriver f) (o : Option (ViewGeometry f)) (l : MonitorLayout)
      → desired_for f o d ≡ some l
      → adaptive f d ≡ true
  desired-adaptive d none l e = absurd cc
  desired-adaptive d (some g) l e = ground (arith, e)

  offer-IsNeeded :
      (d : ResizeDriver f) (o : Option MonitorLayout)
      → desired f d ≡ o
      → IsNeeded (adaptive f d) d.current (offer f d o).1
        × ((offer f d o).0.current ≡ now_shown d.current (polls 0) (offer f d o).1)
  unfolding desired
  offer-IsNeeded d none e = (tt, refl)
  offer-IsNeeded d (some l) e = elim (Bool-cases (is_current d.current l)) [
    | inl c ↦ rw c (tt, refl)
    | inr c ↦ rw c ((desired-adaptive d d.geometry l e, c), refl)
  ]

  pub poll-IsNeeded :
      (d : ResizeDriver f) (now : Instant)
      → IsNeeded (adaptive f d) d.current (poll f d now).1
        × ((poll f d now).0.current ≡ now_shown d.current (polls now) (poll f d now).1)
  unfolding poll
  poll-IsNeeded d now =
      let d' : ResizeDriver f = record d { due = none } in
      elim (Bool-cases (is_early d.due now || not (is_some d.caps))) [
        | inl e ↦ rw e (tt, refl)
        | inr e ↦ rw e (offer-IsNeeded d' (desired f d') refl)
      ]

  pub on_geometry_shown :
      (d : ResizeDriver f) (g : ViewGeometry f) (now : Instant)
      → (on_geometry f d g now).current ≡ d.current
  unfolding on_geometry
  on_geometry_shown d g now = ground arith

  -- Every layout that is sent is one that the session may ask for and differs from what the server
  -- shows, which is the layout of the last activation or the last one sent, whatever is called in
  -- whatever order.
  pub run-AreNeeded : (d : ResizeDriver f) (cs : List Call) → AreNeeded d.current d cs
  unfolding on_leg_activated on_display_control_ready
  run-AreNeeded d [] = tt
  run-AreNeeded d (geometry_changes g now ∷ cs) = (
    tt,
    subst (λ c. AreNeeded c (on_geometry f d g now) cs) (on_geometry_shown d g now)
        (run-AreNeeded (on_geometry f d g now) cs),
  )
  run-AreNeeded d (leg_activates l ∷ cs) = (tt, run-AreNeeded (on_leg_activated f d l) cs)
  run-AreNeeded d (becomes_ready caps now ∷ cs) =
      (tt, run-AreNeeded (on_display_control_ready f d caps now) cs)
  run-AreNeeded d (polls now ∷ cs) =
      let (n, e) = poll-IsNeeded d now in
      (n, subst (λ c. AreNeeded c (poll f d now).0 cs) e (run-AreNeeded (poll f d now).0 cs))
