-- ===== src/Cycle/Times.antt =====
-- The window of run_cycle (scgrep/test_cycle.py).
use scgrep.Prelude.{
  ℕ, ◌*◌, ◌≡◌, ℤ, pos, ◌+ℤ◌, ◌-ℤ◌, ◌*ℤ◌, ◌≤ℤ◌, ◌<ℤ◌, floor_div_bounds, +ℤ_parts, -ℤ_parts, *ℤ_parts,
  eq_of_parts, arith,
}
use scgrep.Store.{second}
use scgrep.Config.{Config}
use scgrep.Cycle.{window, end_second}

-- The window ends at the last whole second that is not after the instant that lies the time lag
-- before `now`, and it is one test interval long.
pub window_bounds :
    (c : Config) (now : ℤ)
    → ((window c now).end_epoch ≤ℤ now -ℤ c.time_lag *ℤ second)
      × (now -ℤ c.time_lag *ℤ second <ℤ (window c now).end_epoch +ℤ pos second)
      × ((window c now).start_epoch +ℤ c.test_interval *ℤ second ≡ (window c now).end_epoch)
unfolding window
window_bounds c now =
    let at = now -ℤ c.time_lag *ℤ second in
    let e = end_second c now in
    let bounds = floor_div_bounds at second (omega arith) in
    (
      omega (arith, bounds, *ℤ_parts e second),
      omega (arith, bounds, *ℤ_parts e second, +ℤ_parts (e *ℤ second) (pos second)),
      eq_of_parts _ _ (
          omega (
            arith,
            *ℤ_parts e second,
            -ℤ_parts e c.test_interval,
            *ℤ_parts (e -ℤ c.test_interval) second,
            *ℤ_parts c.test_interval second,
            +ℤ_parts ((e -ℤ c.test_interval) *ℤ second) (c.test_interval *ℤ second),
          )),
    )

-- A cycle that begins some whole seconds, or none, later than one test interval after another one
-- leaves a gap of that many seconds between the two windows, and no overlap.
pub window_late :
    (c : Config) (now : ℤ) (late : ℕ)
    → let next = now +ℤ c.test_interval *ℤ second +ℤ pos (late * second) in
      (window c next).start_epoch ≡ (window c now).end_epoch +ℤ pos (late * second)
unfolding window
window_late c now late =
    let lag = c.time_lag *ℤ second in
    let on_time = now +ℤ c.test_interval *ℤ second in
    let next = on_time +ℤ pos (late * second) in
    let e = end_second c now in
    let e' = end_second c next in
    eq_of_parts ((e' -ℤ c.test_interval) *ℤ second) (e *ℤ second +ℤ pos (late * second)) (
      omega (
        arith,
        floor_div_bounds (now -ℤ lag) second (omega arith),
        floor_div_bounds (next -ℤ lag) second (omega arith),
        -ℤ_parts now lag,
        -ℤ_parts next lag,
        +ℤ_parts now (c.test_interval *ℤ second),
        +ℤ_parts on_time (pos (late * second)),
        +ℤ_parts (e *ℤ second) (pos (late * second)),
        *ℤ_parts c.test_interval second,
        *ℤ_parts (e' -ℤ c.test_interval) second,
        *ℤ_parts e second,
        -ℤ_parts e' c.test_interval,
      ))
