-- ===== src/History/Printed.antt =====
-- What scripts/restart_history.py prints of the events of the log.
use scgrep.Prelude.{false, ◌≡◌, none, List, arith, subst}
use scgrep.History.{LogEvent, Options, sort_events, wanted_events, show_events, history}
use scgrep.History.Account.{stands_for, asked_for, stands_for-history}
use scgrep.History.Gaps.{
  printed, later_of, before_of, gaps_of, restarts, gaps, waiting, gaps_of-show_events,
  nothing_counted,
}
use scgrep.History.Shown.{Picks, Shows, Shows-show_events}
use scgrep.History.Order.{Ascending, sort_events-Ascending}

-- The events are shown in ascending order. Of those that the options ask for, in this order, every
-- restart is printed with its instant, its detail and the gap since the restart before it; each other
-- event is printed likewise, without a gap, or counted in one of the two numbers, which tell those after a restart
-- from those before the first one. Both are 0 where the connections are listed. In all, the output
-- stands for as many events as the log has of those asked for.
pub printed-history :
    (options : Options) (events : List LogEvent)
    → let out = history options events in
      let shown = wanted_events options (sort_events events) in
      Picks false (printed out) shown (later_of out) (before_of out)
      × (gaps_of out ≡ gaps none (restarts shown))
      × (later_of out ≡ waiting options (later_of out))
      × (before_of out ≡ waiting options (before_of out))
      × (stands_for out ≡ asked_for options events)
      × Ascending (sort_events events)
unfolding history Shows
printed-history options events =
    let shown = wanted_events options (sort_events events) in
    let out = show_events options none 0 0 shown in
    let (n, m, p, h, k) = Shows-show_events options none 0 0 shown in
    let counted = nothing_counted options none 0 0 shown in
    let a : n ≡ later_of out = ground (arith, h) in
    let b : m ≡ before_of out = ground (arith, k) in
    (
      subst (λ x. Picks false (printed out) shown x (before_of out)) a
          (subst (λ x. Picks false (printed out) shown n x) b p),
      gaps_of-show_events options none 0 0 shown,
      ground (arith, counted),
      ground (arith, counted),
      stands_for-history options events,
      sort_events-Ascending events,
    )
