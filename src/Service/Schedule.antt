-- ===== src/Service/Schedule.antt =====
-- Scheduler.run of scgrep/main.py.
use scgrep.Prelude.{ℕ, ◌+◌, ◌≤◌, Bool, true, false, List, [], ◌∷◌, arith, Bool-cases, inl, inr}
use scgrep.Service.{Round, Run, pause, cycles, run}

-- Each run begins when the one before has ended, and an interval after that began or later.
abbrev pub Spaced : ℕ → List Run → Type 0
Spaced interval [] = Unit {0}
Spaced interval (a ∷ []) = Unit {0}
Spaced interval (a ∷ b ∷ rest) =
    (a.ended ≤ b.started) × (a.started + interval ≤ b.started) × Spaced interval (b ∷ rest)

pause_lem : (interval elapsed : ℕ) → interval ≤ elapsed + pause interval elapsed
unfolding pause
pause_lem interval elapsed = ground arith

cycles-Spaced :
    (interval now : ℕ) (rounds : List Round) → Spaced interval (cycles interval now rounds)
unfolding cycles
cycles-Spaced interval now [] = tt
cycles-Spaced interval now (x ∷ []) = elim (Bool-cases x.stopped) [
  | inl y ↦ rw y tt
  | inr n ↦ rw n tt
]
cycles-Spaced interval now (x ∷ y ∷ rounds) =
    let next = now + x.elapsed + pause interval x.elapsed + x.late in
    elim (Bool-cases x.stopped) [
      | inl h ↦ rw h tt
      | inr h ↦ rw h (
        omega arith,
        omega (arith, pause_lem interval x.elapsed),
        cycles-Spaced interval next (y ∷ rounds),
      )
    ]

-- Cycles never overlap, and they begin at least one test interval apart, whatever they take.
pub run-Spaced :
    (interval now : ℕ) (first_stopped : Bool) (first_late : ℕ) (rounds : List Round)
    → Spaced interval (run interval now first_stopped first_late rounds)
unfolding run
run-Spaced interval now true late rounds = tt
run-Spaced interval now false late rounds = cycles-Spaced interval (now + interval + late) rounds
