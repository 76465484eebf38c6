-- ===== src/History/Order.antt =====
-- The order of the events that scripts/restart_history.py prints.
use scgrep.Prelude.{leb_ℤ, ◌≤ℤ◌, List, [], ◌∷◌, arith, Bool-cases, inl, inr, All}
use scgrep.History.{LogEvent, insert_event, sort_events}

-- Events in the order of their instants.
abbrev pub Ascending : List LogEvent → Type 0
Ascending [] = Unit
Ascending (e ∷ events) = All (λ (f : LogEvent). e.at ≤ℤ f.at) events × Ascending events

insert_event-All :
    (P : LogEvent → Type 0) (e : LogEvent) (events : List LogEvent)
    → P e
    → All P events
    → All P (insert_event e events)
unfolding insert_event
insert_event-All P e [] h k = (h, tt)
insert_event-All P e (f ∷ events) h k = elim (Bool-cases (leb_ℤ e.at f.at)) [
  | inl y ↦ rw (y, insert_event) (h, k)
  | inr n ↦ rw (n, insert_event) (k.0, insert_event-All P e events h k.1)
]

insert_event-Ascending :
    (e : LogEvent) (events : List LogEvent) → Ascending events → Ascending (insert_event e events)
unfolding insert_event
insert_event-Ascending e [] h = (tt, tt)
insert_event-Ascending e (f ∷ events) (h, k) = elim (Bool-cases (leb_ℤ e.at f.at)) [
  | inl y ↦
      rw (y, insert_event) ((ground (arith, y), later e f events (ground (arith, y)) h), (h, k))
  | inr n ↦
      rw (n, insert_event)
        (
          insert_event-All (λ (g : LogEvent). f.at ≤ℤ g.at) e events (ground (arith, n)) h,
          insert_event-Ascending e events k,
        )
]
  where
    later :
        (e f : LogEvent) (events : List LogEvent)
        → e.at ≤ℤ f.at
        → All (λ (g : LogEvent). f.at ≤ℤ g.at) events
        → All (λ (g : LogEvent). e.at ≤ℤ g.at) events
    later e f [] h k = tt
    later e f (g ∷ events) h (k, m) = (omega (arith, h, k), later e f events h m)

pub sort_events-Ascending : (events : List LogEvent) → Ascending (sort_events events)
unfolding sort_events
sort_events-Ascending [] = tt
sort_events-Ascending (e ∷ events) =
    insert_event-Ascending e (sort_events events) (sort_events-Ascending events)
