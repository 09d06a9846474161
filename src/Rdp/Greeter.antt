-- ===== src/Rdp/Greeter.antt =====
-- crates/drift-rdp/src/greeter.rs: typing the stored Linux password at the greeter. Instants are
-- counts of nanoseconds; a password is its UTF-16 code units (`encode_utf16`).
pub mod Typing
mod Examples
use drift.Base.{
  ℕ, ◌+◌, Bool, true, false, not, ◌&&◌, ◌||◌, Option, none, some, List, [], ◌∷◌, ◌++◌, ltb, is_some,
  if◌then◌else◌,
}
use drift.Core.Reconnect.{Instant}
use drift.Core.Events.{InputEvent, key, unicode, mouse_button, left}

-- `TYPE_DELAY`: 1500 ms.
abbrev pub type_delay : ℕ
type_delay = 1500000000

abbrev enter : ℕ
enter = 28

pub record GreeterTypist : Type 0 where
  pub armed : Bool
  pub due : Option Instant

-- `GreeterTypist::new`.
abbrev pub new : GreeterTypist
new = record { armed = false; due = none }

-- `GreeterTypist::on_greeter`.
abbrev pub on_greeter : GreeterTypist → Bool → GreeterTypist
on_greeter t has_password = record { armed = has_password; due = none }

-- `GreeterTypist::disarm`.
abbrev pub disarm : GreeterTypist → GreeterTypist
disarm t = record { armed = false; due = none }

-- The `matches!` of `on_input`: the release of the left button.
abbrev pub clicked : InputEvent → Bool
clicked (mouse_button left false x y) = true
clicked _ = false

-- `GreeterTypist::on_input`.
unfoldable pub on_input : GreeterTypist → InputEvent → Instant → GreeterTypist
on_input t event now =
    if t.armed && not (is_some t.due) && clicked event
    then record t { due = some (now + type_delay) }
    else t

-- `self.due.is_none_or(|due| now < due)`.
abbrev pub is_waiting : Option Instant → Instant → Bool
is_waiting none now = true
is_waiting (some due) now = ltb now due

abbrev pub strokes : List ℕ → List InputEvent
strokes [] = []
strokes (ch ∷ chs) = unicode ch true ∷ unicode ch false ∷ strokes chs

-- `GreeterTypist::poll`.
unfoldable pub poll : GreeterTypist → Instant → List ℕ → GreeterTypist × Option (List InputEvent)
poll t now password =
    if not t.armed || is_waiting t.due now
    then (t, none)
    else (disarm t, some (strokes password ++ (key enter false true ∷ key enter false false ∷ [])))
