-- ===== src/Cycle.antt =====
-- scgrep/test_cycle.py: one test cycle, from the window and the baselines to what is published.
-- The fetches run in parallel; what their futures return, and the database at the moment when each
-- result is collected, are arguments.
pub mod Times
pub mod Received
pub mod Fetched
pub mod Increments
pub mod Reporter
pub mod Results
mod Tests
use scgrep.Prelude.{
  ℕ, ◌*◌, ◌-◌, ℤ, pos, ◌-ℤ◌, ◌*ℤ◌, floor_div, Bool, true, false, ◌||◌, Option, none, some, List, [],
  ◌∷◌, ◌++◌, map, if◌then◌else◌,
}
use scgrep.Text.{Text}
use scgrep.Result.{Result, ok, err, ◌>>=◌}
use scgrep.Libs.{Libs}
use scgrep.Util.{Fault, epoch_to_iso, broker_authority}
use scgrep.Redis.{Redis}
use scgrep.Store.{
  RedisStore, second, count_messages, count_replay_messages, count_sync_messages, clear_replay,
  clear_sync,
}
use scgrep.Registry.{assign}
use scgrep.Config.{Config, BrokerConfig, replay_targets}
use scgrep.Fetch.Subscriptions.{authorities_of}
use scgrep.Fetch.{Protocol, http, mqtt, FetchResult}

-- start_epoch and end_epoch, in microseconds.
pub record Window : Type 0 where
  pub start_epoch : ℤ
  pub end_epoch : ℤ

-- math.floor(now - config.time_lag), in seconds
abbrev pub end_second : Config → ℤ → ℤ
end_second c now = floor_div (now -ℤ c.time_lag *ℤ second) second

pub window : Config → ℤ → Window
window c now = record {
  start_epoch = (end_second c now -ℤ c.test_interval) *ℤ second;
  end_epoch = end_second c now *ℤ second;
}

-- What a fetch is submitted for.
pub record Pair : Type 0 where
  pub topic : Text
  pub centre_id : Text
  pub replay_url : Text

pub pairs_at : Text → List (Text × Text) → List Pair
pairs_at topic [] = []
pairs_at topic ((centre_id, replay_url) ∷ targets) =
    record { topic = topic; centre_id = centre_id; replay_url = replay_url }
    ∷ pairs_at topic targets

-- The pairs in the order in which the fetches are submitted.
pub pairs_of : List Text → List (Text × Text) → List Pair
unfolding pairs_at
pairs_of [] targets = []
pairs_of (topic ∷ topics) targets = pairs_at topic targets ++ pairs_of topics targets

-- _number_matched_from, given what the synchronous future returns
unfoldable pub number_matched_from : Result Fault FetchResult → Option ℤ
number_matched_from (err e) = none
number_matched_from (ok res) =
    let is_mqtt : Bool = elim res.protocol [ http ↦ false | mqtt ↦ true ] in
    if is_mqtt || res.aborted || res.invalid_format then none else some res.messages_fetched

-- The labels of a series, and what is done to it.
pub record Labels : Type 0 where
  pub report_by : Text
  pub centre_id : Text
  pub topic : Text
  pub protocol : Protocol

pub data Gauge : Type 0 where
  test_aborted response_invalid_format fetch_delay http_response_code : Gauge
  response_invalid_number_matched : Gauge

pub data Write : Type 0 where
  inc_received : (report_by topic : Text) → ℕ → Write
  set_gauge : Gauge → Labels → ℤ → Write
  inc_fetched : Labels → ℤ → Write

abbrev pub flag : Bool → ℤ
flag b = if b then pos 1 else pos 0

-- _publish
pub publish : Text → Text → Text → FetchResult → List Write
publish report_by centre_id topic res =
    let labels : Labels = record {
      report_by = report_by;
      centre_id = centre_id;
      topic = topic;
      protocol = res.protocol;
    } in
    let validation : List Write = elim res.protocol [
      | http ↦
          set_gauge response_invalid_number_matched labels (flag res.invalid_number_matched) ∷ []
      | mqtt ↦ []
    ] in
    set_gauge test_aborted labels (flag res.aborted)
    ∷ set_gauge response_invalid_format labels (flag res.invalid_format)
    ∷ set_gauge fetch_delay labels res.fetch_delay
    ∷ set_gauge http_response_code labels (pos res.http_status)
    ∷ inc_fetched labels res.messages_fetched
    ∷ validation

publish_baselines : Text → List (Text × ℕ) → List Write
publish_baselines report_by [] = []
publish_baselines report_by ((topic, count) ∷ rest) =
    inc_received report_by topic count ∷ publish_baselines report_by rest

publish_results : Text → List (Text × Text × FetchResult) → List Write
publish_results report_by [] = []
publish_results report_by ((centre_id, topic, res) ∷ rest) =
    publish report_by centre_id topic res ++ publish_results report_by rest

module _ (libs : Libs) (r : Redis) (s : RedisStore) where
  -- The dict comprehension of the baselines.
  pub read_baselines : r.Db → Window → List Text → List (Text × ℕ) → List (Text × ℕ)
  read_baselines db w [] found = found
  read_baselines db w (topic ∷ topics) found =
      read_baselines db w topics
        (assign topic (count_messages libs r s db topic w.start_epoch w.end_epoch) found)

  -- What the two futures of a pair return, and the database when each result is collected. The
  -- asynchronous fetch is given the numberMatched of the synchronous one.
  pub record Answer : Type 0 where
    pub sync_outcome : Result Fault FetchResult
    pub sync_db : r.Db
    pub async_outcome : Option ℤ → Result Fault FetchResult
    pub async_db : r.Db

  -- The count of a result that did not abort is replaced by that of the store.
  pub recount : r.Db → Window → Text → Text → FetchResult → FetchResult
  recount db w centre_id topic res =
      let counted : ℕ = elim res.protocol [
        | mqtt ↦ count_replay_messages libs r s db centre_id topic w.start_epoch w.end_epoch
        | http ↦ count_sync_messages libs r s db centre_id topic w.start_epoch w.end_epoch
      ] in
      if res.aborted then res else record res { messages_fetched = pos counted }

  -- A future that raised is logged and left out.
  pub collect_one :
      r.Db → Window → Text → Text → Result Fault FetchResult → List (Text × Text × FetchResult)
  collect_one db w centre_id topic (err e) = []
  collect_one db w centre_id topic (ok res) =
      (centre_id, topic, recount db w centre_id topic res) ∷ []

  pub collect : Window → (Pair → Answer) → List Pair → List (Text × Text × FetchResult)
  unfolding collect_one
  collect w answer [] = []
  collect w answer (p ∷ ps) =
      let a = answer p in
      collect_one a.sync_db w p.centre_id p.topic a.sync_outcome
      ++ (collect_one a.async_db w p.centre_id p.topic
            (a.async_outcome (number_matched_from a.sync_outcome))
          ++ collect w answer ps)

  -- The clean sheet before the requests.
  pub clean : Config → r.Db → r.Db
  clean c db =
      clear_sync libs r s (clear_replay libs r s db c.replay_centre_ids) c.replay_centre_ids

  -- The writes of the metrics, given what the fetches do from the clean database on.
  pub cycle_writes : Config → ℤ → r.Db → (r.Db → Window → Pair → Answer) → List Write
  unfolding publish_baselines publish_results
  cycle_writes c now db answer =
      let w = window c now in
      let baselines = read_baselines db w c.subscription_topics [] in
      let results =
        collect w (answer (clean c db) w) (pairs_of c.subscription_topics (replay_targets c)) in
      publish_baselines c.sensor_centre_id baselines ++ publish_results c.sensor_centre_id results

  -- run_cycle; a broker whose authority cannot be computed ends it before anything is done.
  pub run_cycle : Config → ℤ → r.Db → (r.Db → Window → Pair → Answer) → Result Fault (List Write)
  run_cycle c now db answer = do
    broker_authorities ← authorities_of libs (map (λ (b : BrokerConfig). b.url) c.brokers)
    ok (cycle_writes c now db answer)
