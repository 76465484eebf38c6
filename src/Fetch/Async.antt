-- ===== src/Fetch/Async.antt =====
-- async_fetch of scgrep/replay_tester.py, with what its environment does between its steps as
-- explicit lists: what happens to the registry, which the network thread and the other fetches share
-- with it, and the clock's readings.
pub mod Waiting
pub mod Abort
pub mod Delivered
mod Tests
use scgrep.Prelude.{
  ℕ, ◌+◌, ℤ, pos, ◌-ℤ◌, ltb_ℤ, Bool, true, false, not, Option, none, some, List, [], ◌∷◌, ◌++◌, leb,
  ltb, if◌then◌else◌,
}
use scgrep.Text.{Text, codes}
use scgrep.Json.{Json}
use scgrep.Result.{Result, ok, err}
use scgrep.Libs.{Libs}
use scgrep.Util.{Fault}
use scgrep.Registry.{Registry, ReplayCounter, register, unregister, snapshot}
use scgrep.Registry.Activity.{Event, perform_all}
use scgrep.Fetch.{mqtt, FetchResult, no_messages, Response, failed, response}
use scgrep.Fetch.Subscriptions.{validate_subscriptions}

pub record AsyncRequest : Type 0 where
  pub centre_id : Text
  pub topic : Text
  pub subscriber_id : Text
  pub broker_authorities : List Text
  pub deadline : ℕ
  pub baseline : ℕ
  pub deadline_at : Option ℕ

-- One round of the waiting loop: what happened to the registry since the last step, then the reading of
-- the clock.
pub record Tick : Type 0 where
  pub events : List Event
  pub now : ℕ

pub record Environment : Type 0 where
  pub start : ℕ
  -- the answer to the POST, what happened meanwhile, and the instant after it
  pub answer : Response
  pub during_post : List Event
  pub responded_at : ℕ
  -- what number_matched_provider returns, None also where there is none
  pub number_matched : Option ℤ
  -- the rounds of the loop, what happens between its last round and the snapshot that follows, and
  -- while the rest of the period is slept
  pub ticks : List Tick
  pub last : List Event
  pub remaining : List Event

-- replay/a/wis2/<centre>/<subscriber>/
abbrev pub channel_prefix : AsyncRequest → Text
channel_prefix q =
    codes "replay/a/wis2/" ++ (q.centre_id ++ (b'/' ∷ (q.subscriber_id ++ codes "/")))

abbrev pub expected_channel : AsyncRequest → Text
expected_channel q = channel_prefix q ++ q.topic

-- The checks of the answer; a ValueError inside them counts as a bad format.
pub invalid_format : Libs → AsyncRequest → Response → Bool
invalid_format libs q failed = true
invalid_format libs q (response status body) = elim (libs.json_loads body) [
  | none ↦ true
  | some metadata ↦
      elim (validate_subscriptions libs metadata (channel_prefix q) q.broker_authorities) [
        | err e ↦ true
        | ok valid ↦ not valid
      ]
]

abbrev pub status_of : Response → ℕ
status_of failed = 0
status_of (response status body) = status

-- number_matched > 0, or the baseline where it is not known
pub expect_messages : Option ℤ → ℕ → Bool
expect_messages (some n) baseline = ltb_ℤ (pos 0) n
expect_messages none baseline = ltb 0 baseline

module _ (libs : Libs) where
  -- The loop that waits for the first message; `none` means that the rounds are used up.
  pub wait_first : Registry → ℕ → ℕ → List Tick → Option Registry
  wait_first g counter deadline [] = none
  wait_first g counter deadline (t ∷ ticks) =
      let g' = perform_all libs g t.events in
      let rest = wait_first g' counter deadline ticks in
      if leb deadline t.now
      then some g'
      else elim (snapshot g' counter).first_monotonic [ some first ↦ some g' | none ↦ rest ]

  -- After the loop: abort, or sleep to the deadline and publish the count.
  pub conclude : AsyncRequest → Environment → Bool → ℕ → Registry → Registry × FetchResult
  conclude q env invalid counter g =
      let g' = perform_all libs g env.last in
      elim (snapshot g' counter).first_monotonic [
        | none ↦ (
          unregister g' (expected_channel q),
          no_messages mqtt true invalid (pos q.deadline) (status_of env.answer),
        )
        | some first ↦
            let g'' = perform_all libs g' env.remaining in
            (
              unregister g'' (expected_channel q),
              record (no_messages mqtt false invalid (pos first -ℤ pos env.start)
                  (status_of env.answer)) { messages_fetched = pos (snapshot g'' counter).count },
            )
      ]

  pub async_fetch : AsyncRequest → Environment → Registry → Option (Registry × FetchResult)
  unfolding invalid_format
  async_fetch q env g =
      let (g1, counter) = register g (expected_channel q) in
      let deadline : ℕ = elim q.deadline_at [ none ↦ env.start + q.deadline | some at ↦ at ] in
      let invalid = invalid_format libs q env.answer in
      let g2 = perform_all libs g1 env.during_post in
      if expect_messages env.number_matched q.baseline
      then elim (wait_first g2 counter deadline env.ticks) [
        | none ↦ none
        | some g3 ↦ some (conclude q env invalid counter g3)
      ]
      else some (
        unregister g2 (expected_channel q),
        no_messages mqtt false invalid (pos env.responded_at -ℤ pos env.start)
            (status_of env.answer),
      )
