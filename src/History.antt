-- ===== src/History.antt =====
-- scripts/restart_history.py: what main prints of the events of the log, and the gaps between restarts.
-- Instants are whole seconds, as the log has them. Reading the lines and their conversion to local time
-- are left out.
pub mod Account
pub mod Gaps
pub mod Shown
pub mod Order
pub mod Printed
mod Tests
use scgrep.Prelude.{
  ℕ, ◌+◌, ◌/◌, ◌%◌, ◌<◌, ◌==◌, ltb, leb, ℤ, pos, pos_part, ◌-ℤ◌, leb_ℤ, ltb_ℤ, Bool, true, false,
  not, ◌&&◌, ◌||◌, Option, none, some, List, [], ◌∷◌, ◌++◌, if◌then◌else◌,
}
use scgrep.Text.{Text, codes, print_nat}

pub data EventKind : Type 0 where
  start connect disconnect : EventKind

-- An entry of the list that collect returns.
pub record LogEvent : Type 0 where
  pub kind : EventKind
  pub at : ℤ
  pub detail : Text

pub record Options : Type 0 where
  pub disconnects : Bool
  pub connections : Bool
  pub settle : ℤ

-- "{n:02d}"
abbrev pub two_digits : ℕ → Text
two_digits n = if ltb n 10 then b'0' ∷ print_nat n else print_nat n

-- hms_delta, of a number of seconds that is not negative
unfoldable pub hms_delta : ℕ → Text
hms_delta s =
    if leb 3600 s
    then print_nat (s / 3600) ++ (b'h' ∷ (two_digits (s % 3600 / 60) ++ codes "m"))
    else print_nat (s / 60) ++ (b'm' ∷ (two_digits (s % 60) ++ codes "s"))

-- events.sort(key=lambda e: e[1]), which keeps the order of events of one instant
pub insert_event : LogEvent → List LogEvent → List LogEvent
insert_event e [] = e ∷ []
insert_event e (f ∷ events) =
    let after = insert_event e events in if leb_ℤ e.at f.at then e ∷ f ∷ events else f ∷ after

pub sort_events : List LogEvent → List LogEvent
sort_events [] = []
sort_events (e ∷ events) = insert_event e (sort_events events)

abbrev pub is_disconnect : EventKind → Bool
is_disconnect disconnect = true
is_disconnect start = false
is_disconnect connect = false

-- The events that are shown: without the disconnects, unless they are asked for.
pub wanted_events : Options → List LogEvent → List LogEvent
wanted_events options [] = []
wanted_events options (e ∷ events) =
    let rest = wanted_events options events in
    if is_disconnect e.kind && not options.disconnects then rest else e ∷ rest

-- What is printed: a restart with the gap since the one before it, a connection event under a restart or
-- before the first one, and the numbers of the events that are not listed.
pub data Output : Type 0 where
  restart : (at : ℤ) (detail : Text) (gap : Option Text) → Output
  listed : (under_restart : Bool) (kind : EventKind) (at : ℤ) (detail : Text) → Output
  later_reconnections : ℕ → Output
  orphans_before : ℕ → Output

-- A number of events in place of their list, unless it is 0 or they are listed.
abbrev pub summarised : Options → ℕ → (ℕ → Output) → List Output
summarised options n output = if n == 0 || options.connections then [] else output n ∷ []

abbrev pub flush_later : Options → ℕ → List Output
flush_later options later = summarised options later later_reconnections

-- One event of the loop: what is printed, and prev, later and orphans after it.
pub show_event : Options → Option ℤ → ℕ → ℕ → EventKind → ℤ → Text → List Output × Option ℤ × ℕ × ℕ
show_event options prev later orphans start at detail =
    let gap : Option Text = elim prev [
      | none ↦ none
      | some before ↦ some (hms_delta (pos_part (at -ℤ before)))
    ] in
    (flush_later options later ++ (restart at detail gap ∷ []), some at, 0, orphans)
show_event options none later orphans kind at detail =
    let out : List Output = if options.connections then listed false kind at detail ∷ [] else [] in
    (out, none, later, orphans + 1)
show_event options (some before) later orphans kind at detail =
    if leb_ℤ (at -ℤ before) options.settle || options.connections
    then (listed true kind at detail ∷ [], some before, later, orphans)
    else ([], some before, later + 1, orphans)

-- The loop, and what follows it.
pub show_events : Options → Option ℤ → ℕ → ℕ → List LogEvent → List Output
show_events options prev later orphans [] =
    flush_later options later ++ summarised options orphans orphans_before
show_events options prev later orphans (e ∷ events) =
    let (out, prev', later', orphans') =
      show_event options prev later orphans e.kind e.at e.detail in
    out ++ show_events options prev' later' orphans' events

-- What main prints of the events that were collected.
pub history : Options → List LogEvent → List Output
history options events = show_events options none 0 0 (wanted_events options (sort_events events))
