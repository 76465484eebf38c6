-- ===== src/Fetch/Async/Tests.antt =====
-- Tests of the asynchronous fetch.
use scgrep.Prelude.{ℕ, ◌-ℤ◌, pos, ◌≡◌, refl, true, false, length, none, some, [], ◌∷◌, ◌++◌}
use scgrep.Text.{Text, codes, text_eq, starts_with, rstrip_by, ends_with, drop_end}
use scgrep.Json.{get_or_null}
use scgrep.Util.{broker_authority}
use scgrep.Fixtures.{test_libs, centre, weather}
use scgrep.Registry.{
  Registry, new_registry, new_counter, snapshot, unregister, pop, assign, register, route,
  record_arrival, handle_replay, channel_matches,
}
use scgrep.Registry.Valid.{IsValid}
use scgrep.Registry.Deliver.{address}
use scgrep.Registry.Activity.{
  arrives, registers, unregisters, perform, perform_all, Silent, reaches,
}
use scgrep.Fetch.{FetchResult, no_messages, mqtt, response}
use scgrep.Fetch.Subscriptions.{validate_subscriptions}
use scgrep.Fetch.Async.{
  AsyncRequest, Environment, expected_channel, expect_messages, wait_first, conclude, async_fetch,
}
use scgrep.Fetch.Async.Waiting.{heard}
use scgrep.Fetch.Async.Delivered.{shown, until_first, async_fetch_delivers, async_fetch_counts}
use scgrep.Fetch.Async.Abort.{
  deadline_of, async_fetch_total, async_fetch_aborted, async_fetch_unregisters,
}

abbrev expecting : AsyncRequest
expecting = record {
  centre_id = centre;
  topic = weather;
  subscriber_id = codes "me";
  broker_authorities = codes "b1:8883" ∷ [];
  deadline = 100;
  baseline = 3;
  deadline_at = none;
}

-- Nothing arrives for it until the deadline, while another fetch is served.
abbrev silence : Environment
silence = record {
  start = 10;
  answer = response 201 (codes "S");
  during_post = registers (codes "x") ∷ arrives 15 (codes "x") ∷ unregisters (codes "x") ∷ [];
  responded_at = 20;
  number_matched = some (pos 2);
  ticks = record { events = []; now = 60 } ∷ record { events = []; now = 110 } ∷ [];
  last = [];
  remaining = [];
}

empty-IsValid : IsValid new_registry
empty-IsValid = record { below = tt; apart = tt; keyed = tt }

async_fetch_total_example :
    (g' : Registry) × (res : FetchResult) × (async_fetch test_libs expecting silence new_registry
      ≡ some (g', res))
async_fetch_total_example =
    async_fetch_total test_libs expecting silence new_registry empty-IsValid refl

abbrev gave_up : FetchResult
gave_up = no_messages mqtt true false (pos 100) 201

abbrev left_over : Registry
left_over = record {
  active = [];
  counters = new_counter ∷ record { count = 1; first_monotonic = some 15 } ∷ [];
}

gives_up : async_fetch test_libs expecting silence new_registry ≡ some (left_over, gave_up)
unfolding async_fetch validate_subscriptions get_or_null text_eq starts_with broker_authority
    expect_messages wait_first snapshot perform perform_all record_arrival handle_replay route
    channel_matches rstrip_by register conclude unregister pop assign ends_with drop_end
gives_up = refl

async_fetch_aborted_example :
    (expect_messages (some (pos 2)) 3 ≡ true)
    × (gave_up.fetch_delay ≡ pos 100)
    × (gave_up.messages_fetched ≡ pos 0)
    × Silent test_libs
        (register new_registry (expected_channel expecting)).0.active
        (length (register new_registry (expected_channel expecting)).0.counters)
        (register new_registry (expected_channel expecting)).1
        (silence.during_post ++ (heard (deadline_of expecting silence) silence.ticks ++ []))
async_fetch_aborted_example =
    async_fetch_aborted test_libs expecting silence new_registry empty-IsValid left_over gave_up
      gives_up refl

async_fetch_unregisters_example : address (expected_channel expecting) left_over.active ≡ none
async_fetch_unregisters_example =
    async_fetch_unregisters test_libs expecting silence new_registry empty-IsValid left_over gave_up
      gives_up

-- A message of the topic arrives in the first round, and one more in the rest of the period.
abbrev own_topic : Text
own_topic = codes "replay/a/wis2/gr/me/cache/uk/data"

abbrev served : Environment
served = record silence {
  ticks =
      record { events = arrives 50 own_topic ∷ []; now = 60 }
      ∷ record { events = []; now = 110 }
      ∷ [];
  remaining = registers (codes "y") ∷ arrives 80 own_topic ∷ [];
}

abbrev own_channel : Registry × ℕ
own_channel = register new_registry (expected_channel expecting)

async_fetch_delivers_example :
    (g' : Registry) × (res : FetchResult) × (async_fetch test_libs expecting served new_registry
      ≡ some (g', res))
    × (res.aborted ≡ false)
unfolding reaches heard register assign pop route channel_matches text_eq starts_with rstrip_by
    ends_with drop_end expect_messages
async_fetch_delivers_example =
    async_fetch_delivers test_libs expecting served new_registry empty-IsValid refl reached
  where
    reached :
        reaches test_libs own_channel.0.active
          (length own_channel.0.counters)
          own_channel.1
          (served.during_post ++ (heard (deadline_of expecting served) served.ticks ++ served.last))
        ≡ true
    reached = refl

abbrev counted : FetchResult
counted = record (no_messages mqtt false false (pos 40) 201) { messages_fetched = pos 2 }

abbrev left_behind : Registry
left_behind = record {
  active = (codes "y", 2) ∷ [];
  counters =
      record { count = 2; first_monotonic = some 50 }
      ∷ record { count = 1; first_monotonic = some 15 }
      ∷ new_counter
      ∷ [];
}

counts : async_fetch test_libs expecting served new_registry ≡ some (left_behind, counted)
unfolding async_fetch validate_subscriptions get_or_null text_eq starts_with broker_authority
    expect_messages wait_first snapshot perform perform_all record_arrival handle_replay route
    channel_matches rstrip_by register conclude unregister pop assign ends_with drop_end ◌-ℤ◌
counts = refl

async_fetch_counts_example :
    (rounds first : ℕ) × ((shown test_libs expecting served new_registry empty-IsValid
        (until_first test_libs expecting served new_registry empty-IsValid rounds)).first_monotonic
      ≡ some first)
    × (pos 40 ≡ pos first -ℤ pos 10)
    × (pos 2
        ≡ pos
            (shown test_libs expecting served new_registry empty-IsValid (
              until_first test_libs expecting served new_registry empty-IsValid rounds
              ++ served.remaining)).count)
unfolding expect_messages
async_fetch_counts_example =
    async_fetch_counts test_libs expecting served new_registry empty-IsValid left_behind counted
      counts refl refl
