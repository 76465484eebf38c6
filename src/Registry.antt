-- ===== src/Registry.antt =====
-- scgrep/replay_registry.py: which running test a replayed message belongs to. A counter is shared
-- by the registry and the fetch that waits on it, so counters live in a heap and the dictionary of
-- channels holds their addresses; `unregister` takes a channel away and leaves the counter.
pub mod Valid
pub mod Routing
pub mod Deliver
pub mod Activity
mod Tests
use scgrep.Prelude.{
  ℕ, zero, suc, ◌+◌, Bool, true, false, ◌||◌, Option, none, some, List, [], ◌∷◌, ◌++◌, map,
  if◌then◌else◌, length, get_elem?, set,
}
use scgrep.Text.{Text, codes, text_eq, starts_with, rstrip_char}
use scgrep.Libs.{Libs}
use scgrep.Util.{topic_matches}

pub record ReplayCounter : Type 0 where
  pub count : ℕ
  pub first_monotonic : Option ℕ

abbrev pub new_counter : ReplayCounter
new_counter = record { count = 0; first_monotonic = none }

unfoldable pub record_arrival : ReplayCounter → ℕ → ReplayCounter
record_arrival c now = record {
  count = c.count + 1;
  first_monotonic = elim c.first_monotonic [ none ↦ some now | some t ↦ some t ];
}

-- `_active` as the dict keeps it, in insertion order, and every counter that was made.
pub record Registry : Type 0 where
  pub active : List (Text × ℕ)
  pub counters : List ReplayCounter

abbrev pub new_registry : Registry
new_registry = record { active = []; counters = [] }

-- active[channel] = counter: a channel that is there keeps its place.
unfoldable pub assign : Text → ℕ → List (Text × ℕ) → List (Text × ℕ)
assign channel c [] = (channel, c) ∷ []
assign channel c ((k, d) ∷ rest) =
    let after = assign channel c rest in if text_eq k channel then (k, c) ∷ rest else (k, d) ∷ after

-- active.pop(channel, None)
unfoldable pub pop : Text → List (Text × ℕ) → List (Text × ℕ)
pop channel [] = []
pop channel ((k, d) ∷ rest) =
    let after = pop channel rest in if text_eq k channel then rest else (k, d) ∷ after

-- The new registry and the address of the counter.
unfoldable pub register : Registry → Text → Registry × ℕ
register g channel =
    let c = length g.counters in
    (record { active = assign channel c g.active; counters = g.counters ++ (new_counter ∷ []) }, c)

unfoldable pub unregister : Registry → Text → Registry
unregister g channel = record g { active = pop channel g.active }

-- counter.snapshot(); a counter that was registered is always there.
unfoldable pub snapshot : Registry → ℕ → ReplayCounter
snapshot g c = elim (get_elem? g.counters c) [ none ↦ new_counter | some counter ↦ counter ]

unfoldable pub channel_matches : Libs → Text → Text → Bool
channel_matches libs channel topic =
    text_eq topic channel
    || starts_with topic (rstrip_char b'/' (rstrip_char b'#' channel) ++ codes "/")
    || topic_matches libs channel topic

-- The first channel, in the order of registration, that the topic matches.
unfoldable pub route : Libs → List (Text × ℕ) → Text → Option ℕ
route libs [] topic = none
route libs ((channel, c) ∷ rest) topic =
    let after = route libs rest topic in
    if channel_matches libs channel topic then some c else after

pub record_at : Registry → Option ℕ → ℕ → Registry
record_at g none now = g
record_at g (some c) now = record g {
  counters = set g.counters c (record_arrival (snapshot g c) now);
}

-- handle_replay; `now` is what time.monotonic() returns.
unfoldable pub handle_replay : Libs → Registry → ℕ → Text → Registry
unfolding record_at
handle_replay libs g now topic = record_at g (route libs g.active topic) now
