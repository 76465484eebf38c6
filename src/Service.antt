-- ===== src/Service.antt =====
-- scgrep/main.py: the wait for Redis and the scheduler. What time passes beside the program is given
-- by explicit lists, in microseconds of the monotonic clock.
pub mod Waiting
pub mod Schedule
mod Tests
use scgrep.Prelude.{
  ℕ, ◌+◌, ◌*◌, ◌-◌, ℤ, pos, ◌+ℤ◌, ◌*ℤ◌, leb_ℤ, Bool, true, false, Option, none, some, List, [], ◌∷◌,
  ltb, if◌then◌else◌,
}
use scgrep.Result.{Result, ok, err}
use scgrep.Config.{Config, ConfigFault, config_error, value_error}
use scgrep.Store.{second}

-- A ping that answers, or raises; after a ping that raised the clock is read.
pub record Attempt : Type 0 where
  pub answered : Bool
  pub now : ℤ

-- The deadline of `_wait_for_redis`, with the timeout in seconds.
abbrev pub deadline_of : ℤ → ℤ → ℤ
deadline_of start timeout = start +ℤ timeout *ℤ second

-- The loop of _wait_for_redis; `none` means that the attempts are used up.
pub await_ping : ℤ → List Attempt → Option Bool
await_ping deadline [] = none
await_ping deadline (a ∷ attempts) =
    let rest = await_ping deadline attempts in
    if a.answered then some true else if leb_ℤ deadline a.now then some false else rest

-- _wait_for_redis, from the instant at which it is called
pub wait_for_redis : ℤ → ℤ → List Attempt → Option Bool
wait_for_redis start timeout attempts = await_ping (deadline_of start timeout) attempts

-- One round of Scheduler.run: how long run_cycle took, whether it raised or not, whether the stop event
-- was set by the end of the wait that follows, and how much later than asked that wait returned.
pub record Round : Type 0 where
  pub elapsed : ℕ
  pub stopped : Bool
  pub late : ℕ

-- The wait after a cycle: the rest of the interval, or none if the cycle took longer.
pub pause : ℕ → ℕ → ℕ
pause interval elapsed = if ltb interval elapsed then 0 else interval - elapsed

-- A cycle that was run, with the instants at which it began and ended.
pub record Run : Type 0 where
  pub started : ℕ
  pub ended : ℕ

-- The `while True` of Scheduler.run, from the instant at which a cycle begins.
pub cycles : ℕ → ℕ → List Round → List Run
cycles interval now [] = []
cycles interval now (round ∷ rounds) =
    let ended = now + round.elapsed in
    let rest = cycles interval (ended + pause interval round.elapsed + round.late) rounds in
    record { started = now; ended = ended } ∷ (if round.stopped then [] else rest)

-- Scheduler.run, from the instant at which it is called; `first` is the wait before the first cycle.
unfoldable pub run : ℕ → ℕ → Bool → ℕ → List Round → List Run
run interval now first_stopped first_late rounds =
    if first_stopped then [] else cycles interval (now + interval + first_late) rounds

-- How the program ends: with an exit code, or with an exception.
pub data Exit : Type 0 where
  returned : ℕ → Exit
  raised : Exit

-- main, from what Config.from_env brings; 0 is returned once Scheduler.run has returned, and `none`
-- means that the attempts are used up.
unfoldable pub main : Result ConfigFault Config → ℤ → List Attempt → Option Exit
main (err (config_error reason)) start attempts = some (returned 2)
main (err value_error) start attempts = some raised
main (ok c) start attempts = elim (wait_for_redis start c.redis_startup_timeout attempts) [
  | none ↦ none
  | some false ↦ some (returned 3)
  | some true ↦ some (returned 0)
]
