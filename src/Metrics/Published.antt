-- ===== src/Metrics/Published.antt =====
-- What a cycle (scgrep/test_cycle.py) does to the metrics (scgrep/metrics.py).
use scgrep.Prelude.{
  ◌+◌, ◌*◌, ◌<◌, ◌≤◌, ◌≡◌, refl, subst, ℤ, pos, pos_part, ◌+ℤ◌, ◌≤ℤ◌, true, Option, List, [], map,
  ◌∷◌, any, All, arith, if◌then◌else◌,
}
use scgrep.Text.{Text, text_eq}
use scgrep.Text.Laws.{text_eq_refl}
use scgrep.Libs.{Libs}
use scgrep.Result.{ok}
use scgrep.Redis.{Redis}
use scgrep.Store.{RedisStore, second, count_messages}
use scgrep.Store.Baseline.{Tracks, tally}
use scgrep.Commands.{Command, arrivals_of, run_commands}
use scgrep.Fetch.Subscriptions.{authorities_of}
use scgrep.Config.{Config, BrokerConfig, redis_expiry}
use scgrep.Cycle.{
  Labels, Window, window, Pair, Write, inc_received, set_gauge, inc_fetched, Answer, run_cycle,
}
use scgrep.Cycle.Received.{received, received-run_cycle}
use scgrep.Cycle.Results.{IsIncrease, NoLess, run_cycle-IsIncrease}
use scgrep.Cycle.Reporter.{ReportedBy, run_cycle-ReportedBy}
use scgrep.Metrics.{Metrics, same_labels, apply_write, apply_writes}

-- No counter is lower.
pub record Grown (m m' : Metrics) : Type 0 where
  pub received_grows : (r q : Text) → m.messages_received r q ≤ m'.messages_received r q
  pub fetched_grows : (l : Labels) → m.messages_fetched l ≤ m'.messages_fetched l

-- The metrics after writes that raise their counters.
pub record Applied (r : Text) (ws : List Write) (m : Metrics) : Type 0 where
  pub after : Metrics
  pub applied : apply_writes ws m ≡ ok after
  pub raised : (q : Text) → after.messages_received r q ≡ m.messages_received r q + received q ws
  pub grown : Grown m after

Grown-trans : {l m n : Metrics} → Grown l m → Grown m n → Grown l n
Grown-trans g h = record {
  received_grows = λ r q. omega (arith, g.received_grows r q, h.received_grows r q);
  fetched_grows = λ l. omega (arith, g.fetched_grows l, h.fetched_grows l);
}

-- One write, and what it raises messages_received by.
one_write :
    (r : Text) (w : Write) (m : Metrics)
    → IsIncrease w
    → ReportedBy r w
    → (next : Metrics) × (apply_write w m ≡ ok next)
      × ((q : Text) → next.messages_received r q ≡ m.messages_received r q + received q (w ∷ []))
      × Grown m next
unfolding apply_write received
one_write r (inc_received report_by topic n) m i b = (
  _,
  refl,
  λ q. ground (arith, b, text_eq_refl r),
  record { received_grows = λ x q. ground arith; fetched_grows = λ l. omega arith },
)
one_write r (set_gauge g l v) m i b = (
  _,
  refl,
  λ q. omega arith,
  record { received_grows = λ x q. omega arith; fetched_grows = λ l. omega arith },
)
one_write r (inc_fetched l n) m i b = (
  record m {
    messages_fetched =
        λ k. if same_labels l k then m.messages_fetched k + pos_part n else m.messages_fetched k;
  },
  ground (arith, i),
  λ q. omega arith,
  record { received_grows = λ x q. omega arith; fetched_grows = λ k. ground arith },
)

received-cons :
    (q : Text) (w : Write) (ws : List Write)
    → received q (w ∷ ws) ≡ received q (w ∷ []) + received q ws
unfolding received
received-cons q (inc_received report_by topic n) ws = omega arith
received-cons q (set_gauge g l v) ws = omega arith
received-cons q (inc_fetched l n) ws = omega arith

apply_writes-Applied :
    (r : Text) (ws : List Write) (m : Metrics)
    → All IsIncrease ws
    → All (ReportedBy r) ws
    → Applied r ws m
unfolding apply_writes received
apply_writes-Applied r [] m i b = record {
  after = m;
  applied = refl;
  raised = λ q. omega arith;
  grown = record { received_grows = λ x q. omega arith; fetched_grows = λ l. omega arith };
}
apply_writes-Applied r (w ∷ ws) m i b =
    let (next, one, up, g) = one_write r w m i.0 b.0 in
    let rest = apply_writes-Applied r ws next i.1 b.1 in
    record {
      after = rest.after;
      applied = ground (arith, one, rest.applied);
      raised = λ q. omega (arith, up q, rest.raised q, received-cons q w ws);
      grown = Grown-trans g rest.grown;
    }

module _ (libs : Libs) (r : Redis) (s : RedisStore) where
  -- A cycle returns its writes and the metrics take all of them: no counter becomes lower, and
  -- messages_received of a configured topic rises by what was counted before the calls of the other
  -- threads on the store and the tally of the broker messages among these. The brokers' authorities
  -- can be computed, the store has the configuration's topics and its expiry, which is positive, the
  -- database tracks the ids that were seen, no arrival comes more than 59 seconds after the cycle's
  -- start, and no fetch that aborts reports a negative count.
  pub apply_writes-run_cycle :
      0 < s.expiry
      → (c : Config) (now : ℤ) (db : r.Db) (seen : List Text) (xs : List Command)
        (answer : r.Db → Window → Pair → Answer libs r s) (q : Text) (authorities : List Text)
        (m : Metrics)
      → authorities_of libs (map (λ (b : BrokerConfig). b.url) c.brokers) ≡ ok authorities
      → s.topics ≡ c.subscription_topics
      → pos s.expiry ≡ redis_expiry c
      → any (text_eq q) c.subscription_topics ≡ true
      → All (λ m. m.now ≤ℤ now +ℤ pos (59 * second)) (arrivals_of xs)
      → Tracks libs r s q (window c now).start_epoch (window c now).end_epoch db seen
      → ((d : r.Db) (w : Window) (p : Pair) → NoLess (answer d w p).sync_outcome)
      → ((d : r.Db) (w : Window) (p : Pair) (n : Option ℤ)
          → NoLess ((answer d w p).async_outcome n))
      → (writes : List Write) × (after : Metrics) × (run_cycle libs r s c now
            (run_commands libs r s db xs)
            answer
          ≡ ok writes)
        × (apply_writes writes m ≡ ok after)
        × Grown m after
        × (after.messages_received c.sensor_centre_id q
            ≡ m.messages_received c.sensor_centre_id q
              + (count_messages libs r s db q (window c now).start_epoch (window c now).end_epoch
                  + tally libs q
                      (window c now).start_epoch
                      (window c now).end_epoch
                      seen
                      (arrivals_of xs)))
  apply_writes-run_cycle expires c now db seen xs answer q authorities m known topics e k h t f g =
      let db' = run_commands libs r s db xs in
      let (writes, run, counted) =
        received-run_cycle libs r s expires c now db seen xs answer q authorities known topics e k h
          t in
      let (others, run', up) =
        run_cycle-IsIncrease libs r s c now db' answer authorities known f g in
      let same : others ≡ writes = ground (arith, run, run') in
      let a =
        apply_writes-Applied c.sensor_centre_id writes m (subst (All IsIncrease) same up)
          (run_cycle-ReportedBy libs r s c now db' answer authorities writes known run) in
      (writes, a.after, run, a.applied, a.grown, ground (arith, a.raised q, counted))
