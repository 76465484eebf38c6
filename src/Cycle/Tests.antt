-- ===== src/Cycle/Tests.antt =====
-- Tests of the test cycle.
use scgrep.Prelude.{
  ◌+◌, ◌<◌, ◌*◌, ◌≡◌, ℤ, pos, ◌+ℤ◌, ◌*ℤ◌, ◌≤ℤ◌, +ℤ_parts, eq_of_parts, refl, true, false, none,
  List, [], ◌∷◌, All, arith,
}
use scgrep.Text.{codes, text_eq, has_char}
use scgrep.Result.{ok, err}
use scgrep.Util.{request_error}
use scgrep.Memory.{memory, Db, blank, zscore-blank}
use scgrep.Fixtures.{test_libs, test_store, centre, weather, weather_data, noon, noon_epoch}
use scgrep.Store.{second, topic_key, count_messages}
use scgrep.Store.Baseline.{Arrival, Tracks, tally}
use scgrep.Commands.{Command, broker, replayed, fetched, arrivals_of, run_commands}
use scgrep.Config.{Config, redis_expiry}
use scgrep.Fetch.{http, mqtt, no_messages}
use scgrep.Fetch.Subscriptions.{authorities_of}
use scgrep.Cycle.{Write, Window, window, Pair, Answer, run_cycle}
use scgrep.Cycle.Times.{window_late}
use scgrep.Cycle.Received.{received, received-run_cycle}
use scgrep.Metrics.{Metrics, apply_writes}
use scgrep.Metrics.Published.{Grown, apply_writes-run_cycle}
use scgrep.Commands.{PlainCentre}
use scgrep.Cycle.{pairs_of}
use scgrep.Config.{replay_targets}
use scgrep.Cycle.Increments.{PairCalls, due, increments, increments-run_cycle}
use scgrep.Cycle.Results.{IsIncrease, run_cycle-IsIncrease}

abbrev settings : Config
settings = record {
  sensor_centre_id = codes "me";
  brokers = [];
  subscription_topics = test_store.topics;
  replay_centre_ids = centre ∷ [];
  replay_urls = codes "u" ∷ [];
  redis_url = codes "redis:6379";
  metrics_endpoint = codes "/metrics";
  metrics_port = pos 8000;
  time_lag = pos 300;
  test_interval = pos 300;
  replay_brokers = [];
  redis_startup_timeout = pos 60;
  replay_broker_tls_insecure = false;
  log_http_response_max_chars = pos 1000;
  subscriber_id = codes "me";
}

abbrev now : ℤ
now = pos 43600500000

abbrev expires : 0 < 660
expires = omega arith

window_late_example :
    (window settings (now +ℤ pos 300 *ℤ second +ℤ pos (2 * second))).start_epoch
    ≡ (window settings now).end_epoch +ℤ pos (2 * second)
window_late_example = window_late settings now 2

-- The synchronous fetches raise, and the asynchronous ones abort.
abbrev no_answers : Db → Window → Pair → Answer test_libs memory test_store
no_answers db w p = record {
  sync_outcome = err request_error;
  sync_db = db;
  async_outcome = λ n. ok (no_messages mqtt true true (pos 285000000) 0);
  async_db = db;
}

-- A broker message, its replay, the fetch of it and the same message from another broker.
abbrev arrival : Arrival
arrival = record { now = noon_epoch; msg_id = codes "m1"; time_value = noon; topic = weather_data }

abbrev calls : List Command
calls =
    broker arrival
    ∷ replayed centre (codes "m1") noon weather_data
    ∷ fetched centre weather (codes "m1") noon
    ∷ broker arrival
    ∷ []

blank-Tracks :
    Tracks test_libs memory test_store weather
      (window settings now).start_epoch
      (window settings now).end_epoch
      blank
      []
blank-Tracks = record {
  keys = λ i. refl;
  fresh = λ i h. ground (arith, zscore-blank (topic_key weather) i);
}

expiry_matches : pos 660 ≡ redis_expiry settings
unfolding redis_expiry
expiry_matches =
    eq_of_parts _ _
      (omega (arith, +ℤ_parts (pos 300 +ℤ pos 300) (pos 60), +ℤ_parts (pos 300) (pos 300)))

soon : noon_epoch ≤ℤ now +ℤ pos (59 * second)
soon = omega (arith, +ℤ_parts now (pos (59 * second)))

received-run_cycle_example :
    (writes : List Write) × (run_cycle test_libs memory test_store settings now
        (run_commands test_libs memory test_store blank calls)
        no_answers
      ≡ ok writes)
    × (received weather writes
        ≡ count_messages test_libs memory test_store blank weather
            (window settings now).start_epoch
            (window settings now).end_epoch
          + tally test_libs weather
              (window settings now).start_epoch
              (window settings now).end_epoch
              []
              (arrivals_of calls))
unfolding text_eq authorities_of arrivals_of
received-run_cycle_example =
    received-run_cycle test_libs memory test_store expires settings now blank [] calls no_answers
      weather [] refl refl expiry_matches refl (soon, (soon, tt)) blank-Tracks

-- The synchronous fetch answers with a wrong number, and the asynchronous one counts what it heard.
abbrev answers : Db → Window → Pair → Answer test_libs memory test_store
answers db w p = record {
  sync_outcome =
      ok (record (no_messages http false false (pos 1) 200) { messages_fetched = pos 7 });
  sync_db = run_commands test_libs memory test_store db calls;
  async_outcome = λ n. ok (no_messages mqtt false false (pos 1) 200);
  async_db = run_commands test_libs memory test_store db calls;
}

abbrev all_calls : PairCalls
all_calls p = (calls, calls)

increments-run_cycle_example :
    (writes : List Write) × (run_cycle test_libs memory test_store settings now blank answers
      ≡ ok writes)
    × (increments writes
        ≡ due test_libs test_store.topics settings
            (window settings now)
            (λ p.
              ok (record (no_messages http false false (pos 1) 200) { messages_fetched = pos 7 }))
            (λ p n. ok (no_messages mqtt false false (pos 1) 200))
            all_calls
            (pairs_of test_store.topics (replay_targets settings)))
unfolding authorities_of has_char
increments-run_cycle_example =
    increments-run_cycle test_libs memory test_store expires settings now blank answers all_calls []
      refl refl refl (λ p. (plain, plain)) (λ p. (refl, refl))
  where
    plain : All PlainCentre calls
    plain = (tt, (refl, (refl, (tt, tt))))

run_cycle-IsIncrease_example :
    (writes : List Write) × (run_cycle test_libs memory test_store settings now blank no_answers
      ≡ ok writes)
    × All IsIncrease writes
unfolding authorities_of
run_cycle-IsIncrease_example =
    run_cycle-IsIncrease test_libs memory test_store settings now blank no_answers [] refl
      (λ d w p. tt) (λ d w p n. refl)

abbrev no_metrics : Metrics
no_metrics = record { messages_received = λ r t. 0; messages_fetched = λ l. 0; gauge = λ g l. none }

apply_writes-run_cycle_example :
    (writes : List Write) × (after : Metrics) × (run_cycle test_libs memory test_store settings now
        (run_commands test_libs memory test_store blank calls)
        no_answers
      ≡ ok writes)
    × (apply_writes writes no_metrics ≡ ok after)
    × Grown no_metrics after
    × (after.messages_received (codes "me") weather
        ≡ 0
          + (count_messages test_libs memory test_store blank weather
                (window settings now).start_epoch
                (window settings now).end_epoch
              + tally test_libs weather
                  (window settings now).start_epoch
                  (window settings now).end_epoch
                  []
                  (arrivals_of calls)))
unfolding text_eq authorities_of arrivals_of
apply_writes-run_cycle_example =
    apply_writes-run_cycle test_libs memory test_store expires settings now blank [] calls
      no_answers weather [] no_metrics refl refl expiry_matches refl (soon, (soon, tt)) blank-Tracks
      (λ d w p. tt) (λ d w p n. refl)
