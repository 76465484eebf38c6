-- ===== src/History/Gaps.antt =====
-- What of the output of scripts/restart_history.py shows events, and the gaps between its restarts.
use scgrep.Prelude.{
  ℕ, ◌+◌, ℤ, pos_part, ◌-ℤ◌, Bool, true, false, ◌≡◌, ◌∙◌, Option, none, some, List, [], ◌∷◌, ◌++◌,
  arith, if◌then◌else◌,
}
use scgrep.Text.{Text}
use scgrep.History.{
  EventKind, start, connect, disconnect, LogEvent, Options, Output, restart, listed,
  later_reconnections, orphans_before, hms_delta, summarised, flush_later, show_event, show_events,
}

-- The events that are printed, each as the event that its line shows.
unfoldable pub printed : List Output → List LogEvent
printed [] = []
printed (restart at detail gap ∷ outputs) =
    record { kind = start; at = at; detail = detail } ∷ printed outputs
printed (listed under kind at detail ∷ outputs) =
    record { kind = kind; at = at; detail = detail } ∷ printed outputs
printed (later_reconnections n ∷ outputs) = printed outputs
printed (orphans_before n ∷ outputs) = printed outputs

-- The sums of the two numbers.
unfoldable pub later_of : List Output → ℕ
later_of [] = 0
later_of (later_reconnections n ∷ outputs) = n + later_of outputs
later_of (restart _ _ _ ∷ outputs) = later_of outputs
later_of (listed _ _ _ _ ∷ outputs) = later_of outputs
later_of (orphans_before _ ∷ outputs) = later_of outputs

unfoldable pub before_of : List Output → ℕ
before_of [] = 0
before_of (orphans_before n ∷ outputs) = n + before_of outputs
before_of (restart _ _ _ ∷ outputs) = before_of outputs
before_of (listed _ _ _ _ ∷ outputs) = before_of outputs
before_of (later_reconnections _ ∷ outputs) = before_of outputs

-- The gaps of the restarts.
pub gaps_of : List Output → List (Option Text)
gaps_of [] = []
gaps_of (restart at detail gap ∷ outputs) = gap ∷ gaps_of outputs
gaps_of (listed _ _ _ _ ∷ outputs) = gaps_of outputs
gaps_of (later_reconnections _ ∷ outputs) = gaps_of outputs
gaps_of (orphans_before _ ∷ outputs) = gaps_of outputs

-- The instants of the restarts among some events.
pub restarts : List LogEvent → List ℤ
restarts [] = []
restarts (e ∷ events) =
    let rest = restarts events in
    elim e.kind [ start ↦ e.at ∷ rest | connect ↦ rest | disconnect ↦ rest ]

-- The time from each instant to the next; nothing comes before the first.
pub gaps : Option ℤ → List ℤ → List (Option Text)
gaps before [] = []
gaps none (t ∷ ts) = none ∷ gaps (some t) ts
gaps (some b) (t ∷ ts) = some (hms_delta (pos_part (t -ℤ b))) ∷ gaps (some t) ts

abbrev pub is_start : EventKind → Bool
is_start start = true
is_start connect = false
is_start disconnect = false

-- What waits to be summarised: nothing if everything is listed.
abbrev pub waiting : Options → ℕ → ℕ
waiting options n = if options.connections then 0 else n

module _ (options : Options) where
  pub printed-flush :
      (n : ℕ) (xs : List Output)
      → let out = flush_later options n ++ xs in
        (printed out ≡ printed xs)
        × (gaps_of out ≡ gaps_of xs)
        × (later_of out ≡ waiting options n + later_of xs)
        × (before_of out ≡ before_of xs)
  unfolding printed gaps_of later_of before_of
  printed-flush n xs = (ground arith, ground arith, ground arith, ground arith)

  pub printed-orphans :
      (n : ℕ)
      → let out = summarised options n orphans_before in
        (printed out ≡ [])
        × (gaps_of out ≡ [])
        × (later_of out ≡ 0)
        × (before_of out ≡ waiting options n)
  unfolding printed gaps_of later_of before_of
  printed-orphans n = (ground arith, ground arith, ground arith, ground arith)

  gaps_of-step :
      (prev : Option ℤ) (later orphans : ℕ) (kind : EventKind) (at : ℤ) (detail : Text)
      (tail : List Output) (events : List LogEvent)
      → let (out, prev', later', orphans') = show_event options prev later orphans kind at detail in
        gaps_of tail ≡ gaps prev' (restarts events)
        → gaps_of (out ++ tail)
          ≡ gaps prev (restarts (record { kind = kind; at = at; detail = detail } ∷ events))
  unfolding show_event gaps_of gaps restarts
  gaps_of-step none later orphans start at detail tail events h =
      ground (arith, h, printed-flush later (restart at detail none ∷ tail))
  gaps_of-step (some b) later orphans start at detail tail events h =
      ground (arith, h, printed-flush later (restart at detail _ ∷ tail))
  gaps_of-step none later orphans connect at detail tail events h = ground (arith, h)
  gaps_of-step none later orphans disconnect at detail tail events h = ground (arith, h)
  gaps_of-step (some b) later orphans connect at detail tail events h = ground (arith, h)
  gaps_of-step (some b) later orphans disconnect at detail tail events h = ground (arith, h)

  -- The gaps from here on are those between the instants of the restarts.
  pub gaps_of-show_events :
      (prev : Option ℤ) (later orphans : ℕ) (events : List LogEvent)
      → gaps_of (show_events options prev later orphans events) ≡ gaps prev (restarts events)
  unfolding show_events gaps restarts
  gaps_of-show_events prev later orphans [] = ground (
    arith,
    printed-flush later (summarised options orphans orphans_before),
    printed-orphans orphans,
  )
  gaps_of-show_events prev later orphans (e ∷ events) =
      let (out, prev', later', orphans') =
        show_event options prev later orphans e.kind e.at e.detail in
      gaps_of-step prev later orphans e.kind e.at e.detail _ events
        (gaps_of-show_events prev' later' orphans' events)

  counted-step :
      (prev : Option ℤ) (later orphans : ℕ) (kind : EventKind) (at : ℤ) (detail : Text)
      (tail : List Output)
      → options.connections ≡ true
      → let (out, _, _, _) = show_event options prev later orphans kind at detail in
        (later_of (out ++ tail) ≡ later_of tail) × (before_of (out ++ tail) ≡ before_of tail)
  unfolding show_event later_of before_of
  counted-step prev later orphans start at detail tail y = (ground (arith, y), ground (arith, y))
  counted-step none later orphans connect at detail tail y = (ground (arith, y), ground (arith, y))
  counted-step none later orphans disconnect at detail tail y =
      (ground (arith, y), ground (arith, y))
  counted-step (some b) later orphans connect at detail tail y =
      (ground (arith, y), ground (arith, y))
  counted-step (some b) later orphans disconnect at detail tail y =
      (ground (arith, y), ground (arith, y))

  -- Where the connections are listed, no step leaves an event to the two numbers.
  pub nothing_counted :
      (prev : Option ℤ) (later orphans : ℕ) (events : List LogEvent)
      → options.connections ≡ true
      → let out = show_events options prev later orphans events in
        (later_of out ≡ 0) × (before_of out ≡ 0)
  unfolding show_events
  nothing_counted prev later orphans [] y = (
    ground (
      arith,
      y,
      printed-flush later (summarised options orphans orphans_before),
      printed-orphans orphans,
    ),
    ground (
      arith,
      y,
      printed-flush later (summarised options orphans orphans_before),
      printed-orphans orphans,
    ),
  )
  nothing_counted prev later orphans (e ∷ events) y =
      let (out, prev', later', orphans') =
        show_event options prev later orphans e.kind e.at e.detail in
      let (a, b) = counted-step prev later orphans e.kind e.at e.detail _ y in
      let (c, d) = nothing_counted prev' later' orphans' events y in (a ∙ c, b ∙ d)
