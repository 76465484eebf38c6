-- ===== src/History/Tests.antt =====
-- Tests of the history: a reconnection before the first restart, one at the start-up and one later.
use scgrep.Prelude.{pos, ◌≡◌, false, none, List, [], ◌∷◌}
use scgrep.Text.{codes}
use scgrep.History.{
  start, connect, disconnect, LogEvent, Options, history, wanted_events, sort_events,
}
use scgrep.History.Account.{stands_for, asked_for}
use scgrep.History.Gaps.{printed, later_of, before_of, gaps_of, restarts, gaps}
use scgrep.History.Shown.{Picks}
use scgrep.History.Order.{Ascending}
use scgrep.History.Printed.{printed-history}

abbrev defaults : Options
defaults = record { disconnects = false; connections = false; settle = pos 60 }

abbrev collected : List LogEvent
collected =
    record { kind = connect; at = pos 5; detail = codes "Redis" }
    ∷ record { kind = start; at = pos 100; detail = codes "me" }
    ∷ record { kind = disconnect; at = pos 9000; detail = codes "b" }
    ∷ record { kind = connect; at = pos 9100; detail = codes "b" }
    ∷ record { kind = connect; at = pos 120; detail = codes "b" }
    ∷ []

printed-history_example :
    Picks false
      (printed (history defaults collected))
      (wanted_events defaults (sort_events collected))
      (later_of (history defaults collected))
      (before_of (history defaults collected))
    × (gaps_of (history defaults collected)
        ≡ gaps none (restarts (wanted_events defaults (sort_events collected))))
    × (later_of (history defaults collected) ≡ later_of (history defaults collected))
    × (before_of (history defaults collected) ≡ before_of (history defaults collected))
    × (stands_for (history defaults collected) ≡ asked_for defaults collected)
    × Ascending (sort_events collected)
printed-history_example = printed-history defaults collected
