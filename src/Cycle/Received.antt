-- ===== src/Cycle/Received.antt =====
-- The messages received that run_cycle (scgrep/test_cycle.py) publishes.
use scgrep.Prelude.{
  ℕ, ◌+◌, ◌*◌, ◌<◌, ◌≡◌, ◌∙◌, refl, ap, ℤ, pos, pos_part, neg_part, ◌+ℤ◌, ◌*ℤ◌, ◌≤ℤ◌, ◌<ℤ◌,
  +ℤ_parts, -ℤ_parts, *ℤ_parts, true, List, [], map, ◌∷◌, ◌++◌, any, All, arith, if◌then◌else◌,
}
use scgrep.Text.{Text, text_eq}
use scgrep.Text.Laws.{text_eq_iff, text_eq_comm}
use scgrep.Libs.{Libs}
use scgrep.Redis.{Redis}
use scgrep.Store.{RedisStore, second, count_messages}
use scgrep.Store.Baseline.{Arrival, Tracks, tally, cutoff}
use scgrep.Commands.{Command, arrivals_of, run_commands}
use scgrep.Commands.Baseline.{count_messages-run_commands}
use scgrep.Registry.{assign}
use scgrep.Registry.Valid.{Keyed, NoChannel, assign-Keyed}
use scgrep.Result.{ok}
use scgrep.Fetch.Subscriptions.{authorities_of}
use scgrep.Config.{Config, BrokerConfig, redis_expiry, replay_targets}
use scgrep.Fetch.{FetchResult}
use scgrep.Cycle.{
  Window, window, Pair, Write, inc_received, set_gauge, inc_fetched, publish, publish_baselines,
  publish_results, Answer, read_baselines, collect, clean, pairs_of, cycle_writes, run_cycle,
}
use scgrep.Cycle.Times.{window_bounds}

-- By how much the writes raise messages_received of a topic.
unfoldable pub received : Text → List Write → ℕ
received q [] = 0
received q (inc_received report_by topic n ∷ rest) =
    (if text_eq topic q then n else 0) + received q rest
received q (w ∷ rest) = received q rest

received-++ :
    (q : Text) (xs ys : List Write) → received q (xs ++ ys) ≡ received q xs + received q ys
unfolding received
received-++ q [] ys = omega arith
received-++ q (inc_received report_by topic n ∷ xs) ys = ground (arith, received-++ q xs ys)
received-++ q (set_gauge g l v ∷ xs) ys = received-++ q xs ys
received-++ q (inc_fetched l v ∷ xs) ys = received-++ q xs ys

-- The sum of the entries of a topic.
unfoldable amount : Text → List (Text × ℕ) → ℕ
amount q [] = 0
amount q ((t, n) ∷ rest) = (if text_eq t q then n else 0) + amount q rest

amount-NoChannel : (q : Text) (xs : List (Text × ℕ)) → NoChannel q xs → amount q xs ≡ 0
unfolding amount
amount-NoChannel q [] h = refl
amount-NoChannel q ((t, n) ∷ xs) h = ground (arith, h.0, amount-NoChannel q xs h.1)

amount-assign :
    (q t : Text) (n : ℕ) (xs : List (Text × ℕ))
    → Keyed xs
    → amount q (assign t n xs) ≡ (if text_eq t q then n else amount q xs)
unfolding amount assign
amount-assign q t n [] h = ground arith
amount-assign q t n ((j, m) ∷ xs) h = ground (
  arith,
  amount-assign q t n xs h.1,
  amount-NoChannel j xs h.0,
  text_eq_iff j t,
  text_eq_iff t q,
  text_eq_iff j q,
)

received-publish_baselines :
    (report_by q : Text) (xs : List (Text × ℕ))
    → received q (publish_baselines report_by xs) ≡ amount q xs
unfolding received amount publish_baselines
received-publish_baselines report_by q [] = refl
received-publish_baselines report_by q ((t, n) ∷ xs) =
    ground (arith, received-publish_baselines report_by q xs)

received-publish :
    (report_by q c t : Text) (res : FetchResult) → received q (publish report_by c t res) ≡ 0
unfolding received publish
received-publish report_by q c t res = ground arith

received-publish_results :
    (report_by q : Text) (xs : List (Text × Text × FetchResult))
    → received q (publish_results report_by xs) ≡ 0
unfolding received publish_results
received-publish_results report_by q [] = refl
received-publish_results report_by q ((c, t, res) ∷ xs) = ground (
  arith,
  received-++ q (publish report_by c t res) (publish_results report_by xs),
  received-publish_results report_by q xs,
  received-publish report_by q c t res,
)

module _ (libs : Libs) (r : Redis) (s : RedisStore) where
  amount-read_baselines :
      (db : r.Db) (w : Window) (q : Text) (topics : List Text) (found : List (Text × ℕ))
      → Keyed found
      → amount q (read_baselines libs r s db w topics found) ≡ (
          if any (text_eq q) topics
          then count_messages libs r s db q w.start_epoch w.end_epoch
          else amount q found)
  unfolding read_baselines
  amount-read_baselines db w q [] found k = refl
  amount-read_baselines db w q (t ∷ ts) found k =
      let n = count_messages libs r s db t w.start_epoch w.end_epoch in
      ground (
        arith,
        amount-read_baselines db w q ts (assign t n found) (assign-Keyed t n found k),
        amount-assign q t n found k,
        text_eq_iff q t,
        text_eq_iff t q,
      )

  -- A cycle raises messages_received of each configured topic by the count of its window, once.
  received-cycle_writes :
      (c : Config) (now : ℤ) (db : r.Db) (answer : r.Db → Window → Pair → Answer libs r s)
      (q : Text)
      → any (text_eq q) c.subscription_topics ≡ true
      → received q (cycle_writes libs r s c now db answer)
        ≡ count_messages libs r s db q (window c now).start_epoch (window c now).end_epoch
  unfolding cycle_writes amount
  received-cycle_writes c now db answer q h =
      let w = window c now in
      let results =
        collect libs r s w (answer (clean libs r s c db) w)
          (pairs_of c.subscription_topics (replay_targets c)) in
      let baselines = read_baselines libs r s db w c.subscription_topics [] in
      ground (
        arith,
        h,
        received-++ q (publish_baselines c.sensor_centre_id baselines)
            (publish_results c.sensor_centre_id results),
        received-publish_baselines c.sensor_centre_id q baselines,
        received-publish_results c.sensor_centre_id q results,
        amount-read_baselines db w q c.subscription_topics [] tt,
      )

  -- The expiry of the store keeps what a window needs, up to 59 seconds after its cycle began.
  cutoff-window :
      (c : Config) (now at : ℤ)
      → pos s.expiry ≡ redis_expiry c
      → at ≤ℤ now +ℤ pos (59 * second)
      → cutoff libs r s at <ℤ (window c now).start_epoch
  unfolding window redis_expiry
  cutoff-window c now at e h =
      let lag = c.time_lag *ℤ second in
      omega (
        arith,
        h,
        ap pos_part e,
        ap neg_part e,
        window_bounds c now,
        -ℤ_parts now lag,
        -ℤ_parts at (pos (s.expiry * second)),
        +ℤ_parts now (pos (59 * second)),
        +ℤ_parts (c.time_lag +ℤ c.test_interval) (pos 60),
        +ℤ_parts c.time_lag c.test_interval,
        +ℤ_parts (window c now).end_epoch (pos second),
        +ℤ_parts (window c now).start_epoch (c.test_interval *ℤ second),
        *ℤ_parts c.time_lag second,
        *ℤ_parts c.test_interval second,
        ap pos_part (window_bounds c now).2,
        ap neg_part (window_bounds c now).2,
      )

  cutoffs-window :
      (c : Config) (now : ℤ) (ms : List Arrival)
      → pos s.expiry ≡ redis_expiry c
      → All (λ m. m.now ≤ℤ now +ℤ pos (59 * second)) ms
      → All (λ m. cutoff libs r s m.now <ℤ (window c now).start_epoch) ms
  cutoffs-window c now [] e h = tt
  cutoffs-window c now (m ∷ ms) e h =
      (cutoff-window c now m.now e h.0, cutoffs-window c now ms e h.1)

  any_flip : (q : Text) (ts : List Text) → any (λ p. text_eq p q) ts ≡ any (text_eq q) ts
  any_flip q [] = refl
  any_flip q (t ∷ ts) = ground (arith, text_eq_comm t q, any_flip q ts)

  -- If the brokers' authorities can be computed and the store has the configuration's topics and
  -- its expiry, a cycle returns its writes, and what they raise messages_received of a configured
  -- topic by is what was counted before the calls of the other threads on the store, and the tally
  -- of the broker messages among these: each id that was not seen counts once, by its first arrival
  -- whose time parses, if that matches the topic and lies in the window, whatever replayed and
  -- fetched messages are stored in between. The database tracks the ids that were seen, the expiry is
  -- positive, and no arrival comes more than 59 seconds after the cycle's start.
  pub received-run_cycle :
      0 < s.expiry
      → (c : Config) (now : ℤ) (db : r.Db) (seen : List Text) (xs : List Command)
        (answer : r.Db → Window → Pair → Answer libs r s) (q : Text) (authorities : List Text)
      → authorities_of libs (map (λ (b : BrokerConfig). b.url) c.brokers) ≡ ok authorities
      → s.topics ≡ c.subscription_topics
      → pos s.expiry ≡ redis_expiry c
      → any (text_eq q) c.subscription_topics ≡ true
      → All (λ m. m.now ≤ℤ now +ℤ pos (59 * second)) (arrivals_of xs)
      → Tracks libs r s q (window c now).start_epoch (window c now).end_epoch db seen
      → (writes : List Write) × (run_cycle libs r s c now (run_commands libs r s db xs) answer
          ≡ ok writes)
        × (received q writes
            ≡ count_messages libs r s db q (window c now).start_epoch (window c now).end_epoch
              + tally libs q
                  (window c now).start_epoch
                  (window c now).end_epoch
                  seen
                  (arrivals_of xs))
  unfolding run_cycle
  received-run_cycle expires c now db seen xs answer q authorities known topics e k h t =
      let db' = run_commands libs r s db xs in
      let w = window c now in
      (
        cycle_writes libs r s c now db' answer,
        ground (arith, known),
        received-cycle_writes c now db' answer q k
            ∙ count_messages-run_commands libs r s expires q w.start_epoch w.end_epoch xs db seen
                (any_flip q s.topics ∙ ap (any (text_eq q)) topics ∙ k)
                (cutoffs-window c now (arrivals_of xs) e h) t,
      )
