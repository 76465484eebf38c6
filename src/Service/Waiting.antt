-- ===== src/Service/Waiting.antt =====
-- _wait_for_redis of scgrep/main.py.
use scgrep.Prelude.{ℤ, ◌≡◌, leb_ℤ, true, ◌||◌, some, List, [], ◌∷◌, any, arith, if◌then◌else◌}
use scgrep.Service.{Attempt, deadline_of, await_ping, wait_for_redis}

-- The attempts that are made: all up to the first that answers or fails at the deadline or later.
pub made : ℤ → List Attempt → List Attempt
made deadline [] = []
made deadline (a ∷ attempts) =
    let rest = made deadline attempts in
    a ∷ (if a.answered || leb_ℤ deadline a.now then [] else rest)

await_ping_lem :
    (deadline : ℤ) (attempts : List Attempt)
    → any (λ a. a.answered || leb_ℤ deadline a.now) attempts ≡ true
    → await_ping deadline attempts ≡ some (any (λ a. a.answered) (made deadline attempts))
unfolding await_ping made
await_ping_lem deadline [] h = absurd (cc)
await_ping_lem deadline (a ∷ attempts) h = ground (arith, h, await_ping_lem deadline attempts)

-- If some attempt answers or fails at the deadline or later, the wait returns, and it returns True
-- exactly if one of the attempts that were made was answered.
pub wait_for_redis_lem :
    (start timeout : ℤ) (attempts : List Attempt)
    → any (λ a. a.answered || leb_ℤ (deadline_of start timeout) a.now) attempts ≡ true
    → wait_for_redis start timeout attempts
      ≡ some (any (λ a. a.answered) (made (deadline_of start timeout) attempts))
unfolding wait_for_redis
wait_for_redis_lem start timeout attempts h = await_ping_lem (deadline_of start timeout) attempts h
