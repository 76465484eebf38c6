-- ===== src/Cycle/Results.antt =====
-- What run_cycle (scgrep/test_cycle.py) publishes of the fetches.
use scgrep.Prelude.{
  ℕ, ◌<◌, ◌≡◌, ◌∙◌, leb_ℤ, ◌⊎◌, refl, ℤ, pos, ◌≤ℤ◌, true, ◌||◌, not, Option, List, [], map, ◌∷◌,
  ◌++◌, any, All, All-append, arith, inl, inr,
}
use scgrep.Text.{Text, text_eq}
use scgrep.Libs.{Libs}
use scgrep.Result.{Result, ok, err}
use scgrep.Util.{Fault}
use scgrep.Redis.{Redis}
use scgrep.Store.{
  RedisStore, count_messages, count_replay_messages, count_sync_messages, clear_replay,
}
use scgrep.Store.Isolation.{baseline_isolated, replay_isolated}
use scgrep.Store.Replay.{count_replay-clear_replay}
use scgrep.Store.Sync.{count_sync-clear_sync}
use scgrep.Fetch.Subscriptions.{authorities_of}
use scgrep.Config.{Config, BrokerConfig, replay_targets}
use scgrep.Fetch.{Protocol, http, mqtt, FetchResult}
use scgrep.Cycle.{
  Window, window, Pair, Write, inc_received, set_gauge, inc_fetched, publish, publish_baselines,
  publish_results, Answer, read_baselines, recount, collect_one, collect, clean,
  number_matched_from, pairs_of, run_cycle, cycle_writes,
}

module _ (libs : Libs) (r : Redis) (s : RedisStore) where
  -- With a positive expiry, the requests of a cycle begin with no counted replayed or fetched
  -- messages of any listed centre and configured topic, and with the baselines as they were.
  pub clean_lem :
      0 < s.expiry
      → (c : Config) (db : r.Db) (centre q p : Text) (a b : ℤ)
      → any (text_eq centre) c.replay_centre_ids ≡ true
      → any (text_eq q) s.topics ≡ true
      → let after = clean libs r s c db in
        (count_replay_messages libs r s after centre q a b ≡ 0)
        × (count_sync_messages libs r s after centre q a b ≡ 0)
        × (count_messages libs r s after p a b ≡ count_messages libs r s db p a b)
  unfolding clean
  clean_lem expires c db centre q p a b h k =
      let ids = c.replay_centre_ids in
      let db' = clear_replay libs r s db ids in
      let isolated = replay_isolated libs r s expires db' a q centre centre q [] [] [] ids a b in
      (
        isolated.4 ∙ count_replay-clear_replay libs r s expires db ids centre q a b h k,
        count_sync-clear_sync libs r s expires db' ids centre q a b h k,
        (baseline_isolated libs r s expires db' p centre q [] [] [] ids a b).3
            ∙ (baseline_isolated libs r s expires db p centre q [] [] [] ids a b).2,
      )

-- A future raised, or its result has no negative count where it aborted.
abbrev pub NoLess : Result Fault FetchResult → Type 0
NoLess (err e) = Unit {0}
NoLess (ok res) = (not res.aborted || leb_ℤ (pos 0) res.messages_fetched) ≡ true

-- The write does not lower a counter.
abbrev pub IsIncrease : Write → Type 0
IsIncrease (inc_received report_by topic n) = Unit {0}
IsIncrease (set_gauge g l v) = Unit {0}
IsIncrease (inc_fetched l n) = pos 0 ≤ℤ n

abbrev Counted : Text × Text × FetchResult → Type 0
Counted (c, t, res) = pos 0 ≤ℤ res.messages_fetched

pub Protocol-cases : (p : Protocol) → (p ≡ http) ⊎ (p ≡ mqtt)
Protocol-cases http = inl refl
Protocol-cases mqtt = inr refl

publish-IsIncrease :
    (report_by c t : Text) (res : FetchResult)
    → pos 0 ≤ℤ res.messages_fetched
    → All IsIncrease (publish report_by c t res)
unfolding publish
publish-IsIncrease report_by c t res h = elim (Protocol-cases res.protocol) [
  | inl e ↦ rw e (tt, (tt, (tt, (tt, (h, (tt, tt))))))
  | inr e ↦ rw e (tt, (tt, (tt, (tt, (h, tt)))))
]

publish_results-IsIncrease :
    (report_by : Text) (xs : List (Text × Text × FetchResult))
    → All Counted xs
    → All IsIncrease (publish_results report_by xs)
unfolding publish_results
publish_results-IsIncrease report_by [] h = tt
publish_results-IsIncrease report_by ((c, t, res) ∷ xs) h =
    All-append IsIncrease (publish report_by c t res) (publish_results report_by xs)
      (publish-IsIncrease report_by c t res h.0) (publish_results-IsIncrease report_by xs h.1)

publish_baselines-IsIncrease :
    (report_by : Text) (xs : List (Text × ℕ)) → All IsIncrease (publish_baselines report_by xs)
unfolding publish_baselines
publish_baselines-IsIncrease report_by [] = tt
publish_baselines-IsIncrease report_by ((t, n) ∷ xs) =
    (tt, publish_baselines-IsIncrease report_by xs)

module _ (libs : Libs) (r : Redis) (s : RedisStore) where
  collect_one-Counted :
      (db : r.Db) (w : Window) (c t : Text) (o : Result Fault FetchResult)
      → NoLess o
      → All Counted (collect_one libs r s db w c t o)
  unfolding collect_one recount
  collect_one-Counted db w c t (err e) h = tt
  collect_one-Counted db w c t (ok res) h = (ground (arith, h), tt)

  collect-Counted :
      (w : Window) (answer : Pair → Answer libs r s) (ps : List Pair)
      → ((p : Pair) → NoLess (answer p).sync_outcome)
      → ((p : Pair) (n : Option ℤ) → NoLess ((answer p).async_outcome n))
      → All Counted (collect libs r s w answer ps)
  unfolding collect
  collect-Counted w answer [] h k = tt
  collect-Counted w answer (p ∷ ps) h k =
      let a = answer p in
      let n = number_matched_from a.sync_outcome in
      let rest = collect libs r s w answer ps in
      All-append Counted (collect_one libs r s a.sync_db w p.centre_id p.topic a.sync_outcome)
        (collect_one libs r s a.async_db w p.centre_id p.topic (a.async_outcome n) ++ rest)
        (collect_one-Counted a.sync_db w p.centre_id p.topic a.sync_outcome (h p))
        (All-append Counted
          (collect_one libs r s a.async_db w p.centre_id p.topic (a.async_outcome n)) rest
          (collect_one-Counted a.async_db w p.centre_id p.topic (a.async_outcome n) (k p n))
          (collect-Counted w answer ps h k))

  cycle_writes-IsIncrease :
      (c : Config) (now : ℤ) (db : r.Db) (answer : r.Db → Window → Pair → Answer libs r s)
      → ((d : r.Db) (w : Window) (p : Pair) → NoLess (answer d w p).sync_outcome)
      → ((d : r.Db) (w : Window) (p : Pair) (n : Option ℤ)
          → NoLess ((answer d w p).async_outcome n))
      → All IsIncrease (cycle_writes libs r s c now db answer)
  unfolding cycle_writes
  cycle_writes-IsIncrease c now db answer h k =
      let w = window c now in
      let baselines = read_baselines libs r s db w c.subscription_topics [] in
      let fetches = answer (clean libs r s c db) w in
      let results =
        collect libs r s w fetches (pairs_of c.subscription_topics (replay_targets c)) in
      All-append IsIncrease (publish_baselines c.sensor_centre_id baselines)
        (publish_results c.sensor_centre_id results)
        (publish_baselines-IsIncrease c.sensor_centre_id baselines)
        (publish_results-IsIncrease c.sensor_centre_id results (
          collect-Counted w fetches (pairs_of c.subscription_topics (replay_targets c))
            (h (clean libs r s c db) w) (k (clean libs r s c db) w)))

  -- A cycle never lowers a counter, which the metrics would refuse, if the brokers' authorities can be
  -- computed and no fetch that aborts reports a negative count: the numberMatched of the service, which
  -- may be negative, is always replaced.
  pub run_cycle-IsIncrease :
      (c : Config) (now : ℤ) (db : r.Db) (answer : r.Db → Window → Pair → Answer libs r s)
      (authorities : List Text)
      → authorities_of libs (map (λ (b : BrokerConfig). b.url) c.brokers) ≡ ok authorities
      → ((d : r.Db) (w : Window) (p : Pair) → NoLess (answer d w p).sync_outcome)
      → ((d : r.Db) (w : Window) (p : Pair) (n : Option ℤ)
          → NoLess ((answer d w p).async_outcome n))
      → (writes : List Write) × (run_cycle libs r s c now db answer ≡ ok writes)
        × All IsIncrease writes
  unfolding run_cycle
  run_cycle-IsIncrease c now db answer authorities known h k = (
    cycle_writes libs r s c now db answer,
    ground (arith, known),
    cycle_writes-IsIncrease c now db answer h k,
  )
