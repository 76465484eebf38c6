-- ===== src/Cycle/Reporter.antt =====
-- Under which reporter run_cycle (scgrep/test_cycle.py) raises messages_received.
use scgrep.Prelude.{ℕ, ℤ, ◌≡◌, refl, subst, map, List, [], ◌∷◌, All, All-append, arith, inl, inr}
use scgrep.Text.{Text}
use scgrep.Libs.{Libs}
use scgrep.Result.{ok}
use scgrep.Redis.{Redis}
use scgrep.Store.{RedisStore}
use scgrep.Fetch.{FetchResult}
use scgrep.Fetch.Subscriptions.{authorities_of}
use scgrep.Config.{Config, BrokerConfig, replay_targets}
use scgrep.Cycle.{
  Window, window, Pair, Write, inc_received, set_gauge, inc_fetched, publish, publish_baselines,
  publish_results, Answer, read_baselines, collect, clean, pairs_of, cycle_writes, run_cycle,
}
use scgrep.Cycle.Results.{Protocol-cases}

-- A counter of received messages is raised under this reporter only.
abbrev pub ReportedBy : Text → Write → Type 0
ReportedBy r (inc_received report_by topic n) = report_by ≡ r
ReportedBy r (set_gauge g l v) = Unit {0}
ReportedBy r (inc_fetched l n) = Unit {0}

publish-ReportedBy : (r c t : Text) (res : FetchResult) → All (ReportedBy r) (publish r c t res)
unfolding publish
publish-ReportedBy r c t res = elim (Protocol-cases res.protocol) [
  | inl e ↦ rw e (tt, (tt, (tt, (tt, (tt, (tt, tt))))))
  | inr e ↦ rw e (tt, (tt, (tt, (tt, (tt, tt)))))
]

publish_results-ReportedBy :
    (r : Text) (xs : List (Text × Text × FetchResult)) → All (ReportedBy r) (publish_results r xs)
unfolding publish_results
publish_results-ReportedBy r [] = tt
publish_results-ReportedBy r ((c, t, res) ∷ xs) =
    All-append (ReportedBy r) (publish r c t res) (publish_results r xs)
      (publish-ReportedBy r c t res) (publish_results-ReportedBy r xs)

publish_baselines-ReportedBy :
    (r : Text) (xs : List (Text × ℕ)) → All (ReportedBy r) (publish_baselines r xs)
unfolding publish_baselines
publish_baselines-ReportedBy r [] = tt
publish_baselines-ReportedBy r ((t, n) ∷ xs) = (refl, publish_baselines-ReportedBy r xs)

module _ (libs : Libs) (r : Redis) (s : RedisStore) where
  cycle_writes-ReportedBy :
      (c : Config) (now : ℤ) (db : r.Db) (answer : r.Db → Window → Pair → Answer libs r s)
      → All (ReportedBy c.sensor_centre_id) (cycle_writes libs r s c now db answer)
  unfolding cycle_writes
  cycle_writes-ReportedBy c now db answer =
      let w = window c now in
      let baselines = read_baselines libs r s db w c.subscription_topics [] in
      let results =
        collect libs r s w (answer (clean libs r s c db) w)
          (pairs_of c.subscription_topics (replay_targets c)) in
      All-append (ReportedBy c.sensor_centre_id) (publish_baselines c.sensor_centre_id baselines)
        (publish_results c.sensor_centre_id results)
        (publish_baselines-ReportedBy c.sensor_centre_id baselines)
        (publish_results-ReportedBy c.sensor_centre_id results)

  pub run_cycle-ReportedBy :
      (c : Config) (now : ℤ) (db : r.Db) (answer : r.Db → Window → Pair → Answer libs r s)
      (authorities : List Text) (writes : List Write)
      → authorities_of libs (map (λ (b : BrokerConfig). b.url) c.brokers) ≡ ok authorities
      → run_cycle libs r s c now db answer ≡ ok writes
      → All (ReportedBy c.sensor_centre_id) writes
  unfolding run_cycle
  run_cycle-ReportedBy c now db answer authorities writes known e =
      let same : cycle_writes libs r s c now db answer ≡ writes = ground (arith, known, e) in
      subst (All (ReportedBy c.sensor_centre_id)) same (cycle_writes-ReportedBy c now db answer)
