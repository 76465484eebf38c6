-- ===== src/Service/Tests.antt =====
-- Tests of the start and of the scheduler.
use scgrep.Prelude.{arith, pos, ◌≡◌, true, false, some, List, [], ◌∷◌, any}
use scgrep.Service.{Attempt, deadline_of, wait_for_redis, Round, run}
use scgrep.Service.Waiting.{made, wait_for_redis_lem}
use scgrep.Service.Schedule.{Spaced, run-Spaced}

abbrev attempts : List Attempt
attempts = record { answered = false; now = pos 10 } ∷ record { answered = true; now = pos 12 } ∷ []

wait_for_redis_lem_example :
    wait_for_redis (pos 0) (pos 60) attempts
    ≡ some (any (λ a. a.answered) (made (deadline_of (pos 0) (pos 60)) attempts))
wait_for_redis_lem_example = wait_for_redis_lem (pos 0) (pos 60) attempts (ground arith)

-- The first cycle takes longer than the interval, and the second is the last.
abbrev rounds : List Round
rounds =
    record { elapsed = 150; stopped = false; late = 1 }
    ∷ record { elapsed = 20; stopped = true; late = 0 }
    ∷ []

run-Spaced_example : Spaced 100 (run 100 0 false 2 rounds)
run-Spaced_example = run-Spaced 100 0 false 2 rounds
