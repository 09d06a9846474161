-- ===== src/Rdp/Actor/History.antt =====
-- The session states that the actor emits, over every run.
use drift.Base.{◌≡◌, List, [], ◌∷◌, ◌++◌, Bool-cases, Result-cases, inl, inr, ok, arith, subst, sym}
use drift.Core.Floats.{Floats}
use drift.Core.Reconnect.{Instant}
use drift.Core.State.{SessionState, idle, transition}
use drift.Core.State.Paths.{PathOf, stay, move}
use drift.Core.State.Same.{same_state}
use drift.Rdp.Redirect.{CertificateDecoder}
use drift.Rdp.Actor.Gate.{Io, set_state}
use drift.Rdp.Actor.Keeps.{run-Keeps}
use drift.Rdp.Actor.{Setup, starting, spawned, Event, run}

abbrev pub oldest_first : List SessionState → List SessionState
oldest_first [] = []
oldest_first (s ∷ ss) = oldest_first ss ++ (s ∷ [])

path_on :
    {s t : SessionState} {ts : List SessionState} (u : SessionState)
    → PathOf s ts t
    → transition t u ≡ ok u
    → PathOf s (ts ++ (u ∷ [])) u
path_on u stay h = move h stay
path_on u (move g p) h = move g (path_on u p h)

-- The emitted states lead from idle to the current state.
abbrev pub IsRecorded : Io → Type 0
IsRecorded io = PathOf idle (oldest_first io.emitted) io.state

accepted : (s t u : SessionState) → transition s t ≡ ok u → u ≡ t
unfolding transition
accepted s t u h = ground arith

set_state-IsRecorded : (io : Io) (s : SessionState) → IsRecorded io → IsRecorded (set_state io s)
unfolding set_state
set_state-IsRecorded io s p = elim (Bool-cases (same_state io.state s)) [
  | inl e ↦ rw e p
  | inr e ↦ elim (Result-cases (transition io.state s)) [
    | inl (u, h) ↦
        rw (e, h)
          (path_on u p
            (subst (λ x. transition io.state x ≡ ok u) (sym (accepted io.state s u h)) h))
    | inr (r, h) ↦ rw (e, h) p
  ]
]

module _ (f : Floats) where
  -- In every run of the actor from its start, the states that it has emitted, oldest first, are a
  -- path of accepted transitions from `Idle` to its session state.
  pub run-IsRecorded :
      (decode : CertificateDecoder) (s : Setup) (es : List (Event f × Instant))
      → IsRecorded (run f decode (spawned f s, starting) es).0.io
  unfolding spawned
  run-IsRecorded decode s es =
      run-Keeps f IsRecorded set_state-IsRecorded (λ io leg p. p) decode (spawned f s) starting es
        stay
