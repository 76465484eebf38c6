-- ===== src/Store/Tests.antt =====
-- Tests of the store on the database in memory.
use scgrep.Prelude.{
  ℕ, ◌*◌, -ℤ_parts, ◌<ℤ◌, ◌+◌, ◌<◌, ℤ, pos, ◌≡◌, refl, ◌&&◌, some, List, [], ◌∷◌, arith,
  if◌then◌else◌, any,
}
use scgrep.Text.{Text, codes, text_eq}
use scgrep.Util.{topic_matches}
use scgrep.Redis.{hit}
use scgrep.Memory.{memory, Db, blank, zscore-blank, present-blank}
use scgrep.Fixtures.{
  test_libs, test_store, centre, weather, weather_data, noon, noon_epoch, noon_parses,
}
use scgrep.Store.{
  second, topic_key, replay_key, store_message, count_messages, store_replay_message,
  count_replay_messages, store_sync_message, count_sync_messages, clear_replay, clear_sync,
}
use scgrep.Store.Baseline.{Arrival, cutoff, Tracks, ingest, tally, count_messages-ingest}
use scgrep.Store.Replay.{count_replay-store_replay}
use scgrep.Store.Isolation.{baseline_isolated, replay_isolated}
use scgrep.Store.Lifetime.{Expires, store-Expires}

abbrev expires : 0 < 660
expires = omega arith

abbrev first_id : Text
first_id = codes "m1"

-- The same message from two brokers, and one that matches no pattern.
abbrev arrivals : List Arrival
arrivals =
    record { now = noon_epoch; msg_id = first_id; time_value = noon; topic = weather_data }
    ∷ record { now = noon_epoch; msg_id = first_id; time_value = noon; topic = weather_data }
    ∷ record { now = noon_epoch; msg_id = codes "m2"; time_value = noon; topic = codes "other" }
    ∷ []

in_time : cutoff test_libs memory test_store noon_epoch <ℤ noon_epoch
in_time = omega (arith, -ℤ_parts noon_epoch (pos (660 * second)))

abbrev window_end : ℤ
window_end = pos 43300000000

blank-Tracks : Tracks test_libs memory test_store weather noon_epoch window_end blank []
blank-Tracks = record {
  keys = λ i. refl;
  fresh = λ i h. ground (arith, zscore-blank (topic_key weather) i);
}

blank-Expires : Expires test_libs memory test_store expires blank
blank-Expires = record { at_key = λ j h. absurd (ground (arith, h, present-blank j)) }

count_messages-ingest_example :
    count_messages test_libs memory test_store
      (ingest test_libs memory test_store blank arrivals)
      weather
      noon_epoch
      window_end
    ≡ count_messages test_libs memory test_store blank weather noon_epoch window_end
      + tally test_libs weather noon_epoch window_end [] arrivals
unfolding text_eq
count_messages-ingest_example =
    count_messages-ingest test_libs memory test_store expires weather noon_epoch window_end arrivals
      blank [] refl (in_time, (in_time, (in_time, tt))) blank-Tracks

count_replay-store_replay_example :
    count_replay_messages test_libs memory test_store
        (store_replay_message test_libs memory test_store blank centre first_id noon weather_data).0
        centre
        weather
        noon_epoch
        window_end
      + (if any (λ p. text_eq p weather) test_store.topics
            && topic_matches test_libs weather weather_data
          then hit noon_epoch window_end (memory.zscore blank (replay_key centre weather) first_id)
          else 0)
    ≡ count_replay_messages test_libs memory test_store blank centre weather noon_epoch window_end
      + (if any (λ p. text_eq p weather) test_store.topics
            && topic_matches test_libs weather weather_data
          then hit noon_epoch window_end (some noon_epoch)
          else 0)
count_replay-store_replay_example =
    count_replay-store_replay test_libs memory test_store expires centre first_id noon_epoch
      weather_data weather noon_epoch window_end blank noon noon_parses

abbrev replayed : Db
replayed =
    (store_replay_message test_libs memory test_store blank centre first_id noon weather_data).0

abbrev fetched : Db
fetched = (store_sync_message test_libs memory test_store replayed centre weather first_id noon).0

-- The baseline of a database, counted for the weather topics.
abbrev baseline : Db → ℕ
baseline db = count_messages test_libs memory test_store db weather noon_epoch window_end

baseline_isolated_example :
    (baseline
        (store_replay_message test_libs memory test_store fetched centre first_id noon
          weather_data).0
      ≡ baseline fetched)
    × (baseline
          (store_sync_message test_libs memory test_store fetched centre weather first_id noon).0
        ≡ baseline fetched)
    × (baseline (clear_replay test_libs memory test_store fetched (centre ∷ [])) ≡ baseline fetched)
    × (baseline (clear_sync test_libs memory test_store fetched (centre ∷ [])) ≡ baseline fetched)
baseline_isolated_example =
    baseline_isolated test_libs memory test_store expires fetched weather centre weather first_id
      noon weather_data (centre ∷ []) noon_epoch window_end

abbrev replay_count : Db → ℕ
replay_count db =
    count_replay_messages test_libs memory test_store db centre weather noon_epoch window_end

abbrev sync_count : Db → ℕ
sync_count db =
    count_sync_messages test_libs memory test_store db centre weather noon_epoch window_end

replay_isolated_example :
    (replay_count
        (store_message test_libs memory test_store fetched noon_epoch first_id noon weather_data).0
      ≡ replay_count fetched)
    × (sync_count
          (store_message test_libs memory test_store fetched noon_epoch first_id noon
            weather_data).0
        ≡ sync_count fetched)
    × (replay_count
          (store_sync_message test_libs memory test_store fetched centre weather first_id noon).0
        ≡ replay_count fetched)
    × (sync_count
          (store_replay_message test_libs memory test_store fetched centre first_id noon
            weather_data).0
        ≡ sync_count fetched)
    × (replay_count (clear_sync test_libs memory test_store fetched (centre ∷ []))
        ≡ replay_count fetched)
    × (sync_count (clear_replay test_libs memory test_store fetched (centre ∷ []))
        ≡ sync_count fetched)
replay_isolated_example =
    replay_isolated test_libs memory test_store expires fetched noon_epoch weather centre centre
      weather first_id noon weather_data (centre ∷ []) noon_epoch window_end

abbrev Expiring : Db → Type 0
Expiring db = Expires test_libs memory test_store expires db

store-Expires_example :
    Expiring
      (store_message test_libs memory test_store blank noon_epoch first_id noon weather_data).0
    × Expiring
        (store_replay_message test_libs memory test_store blank centre first_id noon weather_data).0
    × Expiring (store_sync_message test_libs memory test_store blank centre weather first_id noon).0
    × Expiring (clear_replay test_libs memory test_store blank (centre ∷ []))
    × Expiring (clear_sync test_libs memory test_store blank (centre ∷ []))
store-Expires_example =
    store-Expires test_libs memory test_store expires blank noon_epoch centre weather first_id noon
      weather_data (centre ∷ []) blank-Expires
