-- ===== src/Cycle/Increments.antt =====
-- What run_cycle (scgrep/test_cycle.py) adds to the counter of the messages fetched.
use scgrep.Prelude.{
  ℕ, ◌<◌, ℤ, pos, ◌≡◌, ◌∙◌, refl, ap, inl, inr, Option, true, false, List, [], ◌∷◌, ◌++◌, any, all,
  map, All, All-append, Bool, not, ◌&&◌, Bool-cases, arith, if◌then◌else◌,
}
use scgrep.Text.{Text, text_eq, has_char}
use scgrep.Text.Laws.{text_eq_refl}
use scgrep.Libs.{Libs}
use scgrep.Util.{Fault}
use scgrep.Result.{Result, ok, err}
use scgrep.Redis.{Redis}
use scgrep.Store.{RedisStore}
use scgrep.Config.{Config, BrokerConfig, replay_targets, zip_targets}
use scgrep.Fetch.{FetchResult}
use scgrep.Fetch.Subscriptions.{authorities_of}
use scgrep.Commands.{Command, PlainCentre, run_commands}
use scgrep.Cycle.{
  Window, window, Pair, pairs_of, pairs_at, Labels, Write, inc_received, set_gauge, inc_fetched,
  publish, publish_baselines, publish_results, Answer, recount, collect_one, collect, clean,
  number_matched_from, cycle_writes, run_cycle, read_baselines,
}
use scgrep.Cycle.Fetched.{stored_count, recount-run_commands}
use scgrep.Cycle.Results.{Protocol-cases}

-- What a cycle adds to the messages fetched: the labels and the number of each write of that counter.
pub increments : List Write → List (Labels × ℤ)
increments [] = []
increments (inc_fetched labels n ∷ writes) = (labels, n) ∷ increments writes
increments (inc_received report_by topic n ∷ writes) = increments writes
increments (set_gauge g labels v ∷ writes) = increments writes

-- The calls that are complete when the two results of a pair are collected.
abbrev pub PairCalls : Type 0
PairCalls = Pair → List Command × List Command

module _ (libs : Libs) (topics : List Text) (c : Config) (w : Window) where
  -- What is due for a result: its own number if it aborted, and what was stored otherwise.
  abbrev pub due_one : Pair → List Command → Result Fault FetchResult → List (Labels × ℤ)
  due_one p xs (err e) = []
  due_one p xs (ok res) =
      (
        record {
          report_by = c.sensor_centre_id;
          centre_id = p.centre_id;
          topic = p.topic;
          protocol = res.protocol;
        },
        if res.aborted
            then res.messages_fetched
            else pos (stored_count libs topics p.centre_id p.topic w xs res.protocol),
      )
      ∷ []

  abbrev pub due :
      (Pair → Result Fault FetchResult)
      → (Pair → Option ℤ → Result Fault FetchResult)
      → PairCalls
      → List Pair
      → List (Labels × ℤ)
  due sync_outcome async_outcome calls [] = []
  due sync_outcome async_outcome calls (p ∷ ps) =
      due_one p (calls p).0 (sync_outcome p)
      ++ (due_one p (calls p).1 (async_outcome p (number_matched_from (sync_outcome p)))
          ++ due sync_outcome async_outcome calls ps)

increments-++ : (xs ys : List Write) → increments (xs ++ ys) ≡ increments xs ++ increments ys
unfolding increments
increments-++ [] ys = refl
increments-++ (inc_fetched l n ∷ xs) ys = ap (λ zs. (l, n) ∷ zs) (increments-++ xs ys)
increments-++ (inc_received r t n ∷ xs) ys = increments-++ xs ys
increments-++ (set_gauge g l v ∷ xs) ys = increments-++ xs ys

increments-publish_baselines :
    (report_by : Text) (xs : List (Text × ℕ)) → increments (publish_baselines report_by xs) ≡ []
unfolding publish_baselines increments
increments-publish_baselines report_by [] = refl
increments-publish_baselines report_by ((t, n) ∷ xs) = increments-publish_baselines report_by xs

increments-publish :
    (report_by c t : Text) (res : FetchResult)
    → increments (publish report_by c t res)
      ≡ (
        record { report_by = report_by; centre_id = c; topic = t; protocol = res.protocol },
        res.messages_fetched,
      )
        ∷ []
unfolding publish increments
increments-publish report_by c t res = elim (Protocol-cases res.protocol) [
  | inl e ↦ ground (arith, e)
  | inr e ↦ ground (arith, e)
]

-- A pair of a listed centre without a colon and of a configured topic.
abbrev Known : List Text → List Text → Pair → Type 0
Known ids topics p =
    (any (text_eq p.centre_id) ids ≡ true)
    × (any (text_eq p.topic) topics ≡ true)
    × (has_char b':' p.centre_id ≡ false)

abbrev listed : List Text → Text → Bool
listed ids x = any (text_eq x) ids && not (has_char b':' x)

Known-pairs_at :
    (ids topics : List Text) (topic : Text) (targets : List (Text × Text))
    → any (text_eq topic) topics ≡ true
    → All (λ (x : Text × Text). listed ids x.0 ≡ true) targets
    → All (Known ids topics) (pairs_at topic targets)
unfolding pairs_at
Known-pairs_at ids topics topic [] h k = tt
Known-pairs_at ids topics topic ((centre, url) ∷ targets) h k =
    ((ground (arith, k.0), h, ground (arith, k.0)), Known-pairs_at ids topics topic targets h k.1)

Known-pairs_of :
    (ids topics some_topics : List Text) (targets : List (Text × Text))
    → All (λ t. any (text_eq t) topics ≡ true) some_topics
    → All (λ (x : Text × Text). listed ids x.0 ≡ true) targets
    → All (Known ids topics) (pairs_of some_topics targets)
unfolding pairs_of
Known-pairs_of ids topics [] targets h k = tt
Known-pairs_of ids topics (t ∷ ts) targets h k =
    All-append (Known ids topics) (pairs_at t targets) (pairs_of ts targets)
      (Known-pairs_at ids topics t targets h.0 k) (Known-pairs_of ids topics ts targets h.1 k)

All-listed :
    (ids xs : List Text)
    → ((x : Text) → any (text_eq x) xs ≡ true → any (text_eq x) ids ≡ true)
    → all (λ x. not (has_char b':' x)) xs ≡ true
    → All (λ x. listed ids x ≡ true) xs
All-listed ids [] h k = tt
All-listed ids (x ∷ xs) h k = (
  ground (arith, k, h x, text_eq_refl x),
  All-listed ids xs (λ y e. h y (ground (arith, e))) (ground (arith, k)),
)

All-zip_targets :
    (q : Text → Bool) (cs urls : List Text)
    → All (λ x. q x ≡ true) cs
    → All (λ (x : Text × Text). q x.0 ≡ true) (zip_targets cs urls)
unfolding zip_targets
All-zip_targets q [] urls h = tt
All-zip_targets q (x ∷ cs) [] h = tt
All-zip_targets q (x ∷ cs) (url ∷ urls) h = (h.0, All-zip_targets q cs urls h.1)

module _ (libs : Libs) (r : Redis) (s : RedisStore) (expires : 0 < s.expiry) (c : Config)
    (db : r.Db) (w : Window) where
  increments-collect_one :
      (p : Pair) (xs : List Command) (d : r.Db) (o : Result Fault FetchResult)
      (rest : List (Text × Text × FetchResult))
      → Known c.replay_centre_ids s.topics p
      → All PlainCentre xs
      → d ≡ run_commands libs r s (clean libs r s c db) xs
      → increments (
          publish_results c.sensor_centre_id
            (collect_one libs r s d w p.centre_id p.topic o ++ rest))
        ≡ due_one libs s.topics c w p xs o ++ increments (publish_results c.sensor_centre_id rest)
  unfolding collect_one publish_results
  increments-collect_one p xs d (err e) rest known plain same = refl
  increments-collect_one p xs d (ok res) rest (member, configured, no_colon) plain same =
      let counted =
        recount-run_commands libs r s expires c db w p.centre_id p.topic xs res member configured
          no_colon plain in
      let res' = recount libs r s d w p.centre_id p.topic res in
      let e : res' ≡ (
          if res.aborted then res else record res {
            messages_fetched =
                pos (stored_count libs s.topics p.centre_id p.topic w xs res.protocol);
          }) =
        ap (λ x. recount libs r s x w p.centre_id p.topic res) same ∙ counted in
      increments-++ (publish c.sensor_centre_id p.centre_id p.topic res')
        (publish_results c.sensor_centre_id rest)
      ∙ ap (λ zs. zs ++ increments (publish_results c.sensor_centre_id rest))
          {y = due_one libs s.topics c w p xs (ok res)}
          (increments-publish c.sensor_centre_id p.centre_id p.topic res'
            ∙ (elim (Bool-cases res.aborted) [
              | inl y ↦ ground (arith, y, e)
              | inr n ↦ ground (arith, n, e)
            ]))

  increments-collect :
      (answer : Pair → Answer libs r s) (calls : PairCalls) (ps : List Pair)
      → All (Known c.replay_centre_ids s.topics) ps
      → ((p : Pair) → All PlainCentre (calls p).0 × All PlainCentre (calls p).1)
      → ((p : Pair)
          → ((answer p).sync_db ≡ run_commands libs r s (clean libs r s c db) (calls p).0)
            × ((answer p).async_db ≡ run_commands libs r s (clean libs r s c db) (calls p).1))
      → increments (publish_results c.sensor_centre_id (collect libs r s w answer ps))
        ≡ due libs s.topics c w
            (λ p. (answer p).sync_outcome)
            (λ p. (answer p).async_outcome)
            calls
            ps
  unfolding collect
  increments-collect answer calls [] known plain same = unfold publish_results increments in refl
  increments-collect answer calls (p ∷ ps) known plain same =
      let a = answer p in
      let n = number_matched_from a.sync_outcome in
      let rest = collect libs r s w answer ps in
      increments-collect_one p (calls p).0 a.sync_db a.sync_outcome
        (collect_one libs r s a.async_db w p.centre_id p.topic (a.async_outcome n) ++ rest) known.0
        (plain p).0 (same p).0
      ∙ ap (λ zs. due_one libs s.topics c w p (calls p).0 a.sync_outcome ++ zs)
          (increments-collect_one p (calls p).1 a.async_db (a.async_outcome n) rest known.0
              (plain p).1 (same p).1
            ∙ ap (λ zs. due_one libs s.topics c w p (calls p).1 (a.async_outcome n) ++ zs)
                (increments-collect answer calls ps known.1 plain same))

  replay_targets-Known :
      all (λ centre. not (has_char b':' centre)) c.replay_centre_ids ≡ true
      → s.topics ≡ c.subscription_topics
      → All (Known c.replay_centre_ids s.topics) (pairs_of c.subscription_topics (replay_targets c))
  unfolding replay_targets
  replay_targets-Known h e =
      let ids = c.replay_centre_ids in
      Known-pairs_of ids s.topics c.subscription_topics (zip_targets ids c.replay_urls)
        (among s.topics c.subscription_topics (λ x k. rw e k))
        (All-zip_targets (listed ids) ids c.replay_urls (All-listed ids ids (λ x k. k) h))
    where
      among :
          (topics xs : List Text)
          → ((x : Text) → any (text_eq x) xs ≡ true → any (text_eq x) topics ≡ true)
          → All (λ t. any (text_eq t) topics ≡ true) xs
      among topics [] h = tt
      among topics (x ∷ xs) h =
          (h x (ground (arith, text_eq_refl x)), among topics xs (λ y e. h y (ground (arith, e))))

module _ (libs : Libs) (r : Redis) (s : RedisStore) where
  -- With a positive expiry, the subscription topics as the store's topics, centres without a colon and
  -- brokers whose authorities can be computed: if, when a pair's two results are collected, the
  -- database has had any calls of the threads since the clean sheet, for centres without a colon, a
  -- cycle's writes of the messages fetched are one for each result that a fetch returned, in the order
  -- of the pairs, the synchronous one first, with its labels. It adds the number of ids that those calls
  -- stored for the protocol, the centre and the topic and whose last time lies in the window, or the
  -- result's own number if it aborted.
  pub increments-run_cycle :
      0 < s.expiry
      → (c : Config) (now : ℤ) (db : r.Db) (answer : r.Db → Window → Pair → Answer libs r s)
        (calls : PairCalls) (authorities : List Text)
      → let w = window c now in
        let start = clean libs r s c db in
        authorities_of libs (map (λ (b : BrokerConfig). b.url) c.brokers) ≡ ok authorities
        → s.topics ≡ c.subscription_topics
        → all (λ centre. not (has_char b':' centre)) c.replay_centre_ids ≡ true
        → ((p : Pair) → All PlainCentre (calls p).0 × All PlainCentre (calls p).1)
        → ((p : Pair)
            → ((answer start w p).sync_db ≡ run_commands libs r s start (calls p).0)
              × ((answer start w p).async_db ≡ run_commands libs r s start (calls p).1))
        → (writes : List Write) × (run_cycle libs r s c now db answer ≡ ok writes)
          × (increments writes
              ≡ due libs s.topics c w
                  (λ p. (answer start w p).sync_outcome)
                  (λ p. (answer start w p).async_outcome)
                  calls
                  (pairs_of c.subscription_topics (replay_targets c)))
  unfolding run_cycle cycle_writes
  increments-run_cycle expires c now db answer calls authorities known topics plain plains same =
      let w = window c now in
      let fetches = answer (clean libs r s c db) w in
      let pairs = pairs_of c.subscription_topics (replay_targets c) in
      let baselines = read_baselines libs r s db w c.subscription_topics [] in
      let results = collect libs r s w fetches pairs in
      (
        cycle_writes libs r s c now db answer,
        ground (arith, known),
        increments-++ (publish_baselines c.sensor_centre_id baselines)
              (publish_results c.sensor_centre_id results)
            ∙ ap (λ zs. zs ++ increments (publish_results c.sensor_centre_id results))
                (increments-publish_baselines c.sensor_centre_id baselines)
            ∙ increments-collect libs r s expires c db w fetches calls pairs
                (replay_targets-Known libs r s expires c db w plain topics) plains same,
      )
