-- ===== src/Commands/Baseline.antt =====
-- The baseline (scgrep/redis_store.py) while the other threads store replayed and fetched messages.
use scgrep.Prelude.{
  ◌+◌, ◌<◌, ℤ, ◌<ℤ◌, ◌≡◌, true, ◌&&◌, List, [], ◌∷◌, any, All, arith, Option-cases, inl, inr,
}
use scgrep.Text.{Text, text_eq}
use scgrep.Libs.{Libs}
use scgrep.Util.{parse_time_to_epoch, topic_matches}
use scgrep.Redis.{Redis}
use scgrep.Store.{RedisStore, msg_key, topic_key, replay_key, count_messages}
use scgrep.Store.Keys.{replay-topic_key, sync-topic_key}
use scgrep.Store.Isolation.{baseline_isolated}
use scgrep.Store.Scores.{get-store_replay, get-store_sync, zscore-store_replay, zscore-store_sync}
use scgrep.Store.Baseline.{
  Arrival, Tracks, ingest, tally, cutoff, seen_after, tally_cons, store_message-Tracks,
  count_messages-ingest,
}
use scgrep.Commands.Counts.{any-none}
use scgrep.Commands.{Command, broker, replayed, fetched, arrivals_of, run_command, run_commands}

module _ (libs : Libs) (r : Redis) (s : RedisStore) (expires : 0 < s.expiry) (q : Text)
    (a b : ℤ) where
  open r use {Db}

  -- What agrees on the string keys, on the scores of the topic and on its count.
  record Agrees (db db' : Db) : Type 0 where
    keys : (i : Text) → r.get db' (msg_key i) ≡ r.get db (msg_key i)
    scores : (i : Text) → r.zscore db' (topic_key q) i ≡ r.zscore db (topic_key q) i
    counted : count_messages libs r s db' q a b ≡ count_messages libs r s db q a b

  replayed-Agrees :
      (db : Db) (c i t o : Text) → Agrees db (run_command libs r s db (replayed c i t o))
  unfolding run_command
  replayed-Agrees db c i t o = record {
    keys = λ j. get-store_replay libs r s expires (msg_key j) c i t o db;
    scores = λ j. elim (Option-cases (parse_time_to_epoch libs t)) [
      | inl e ↦ ground (arith, e, zscore-store_replay libs r s expires (topic_key q) j c i t o db)
      | inr (epoch, e) ↦ ground (
        arith,
        e,
        zscore-store_replay libs r s expires (topic_key q) j c i t o db,
        any-none (λ p. text_eq (replay_key c p) (topic_key q) && topic_matches libs p o) s.topics
            (λ p. ground (arith, replay-topic_key c p q)),
      )
    ];
    counted = (baseline_isolated libs r s expires db q c c i t o [] a b).0;
  }

  fetched-Agrees :
      (db : Db) (c p i t : Text) → Agrees db (run_command libs r s db (fetched c p i t))
  unfolding run_command
  fetched-Agrees db c p i t = record {
    keys = λ j. get-store_sync libs r s expires (msg_key j) c p i t db;
    scores = λ j. elim (Option-cases (parse_time_to_epoch libs t)) [
      | inl e ↦ ground (arith, e, zscore-store_sync libs r s expires (topic_key q) j c p i t db)
      | inr (epoch, e) ↦ ground (
        arith,
        e,
        zscore-store_sync libs r s expires (topic_key q) j c p i t db,
        sync-topic_key c p q,
      )
    ];
    counted = (baseline_isolated libs r s expires db q c p i t [] [] a b).1;
  }

  Agrees-Tracks :
      (db db' : Db) (seen : List Text)
      → Agrees db db'
      → Tracks libs r s q a b db seen
      → Tracks libs r s q a b db' seen
  Agrees-Tracks db db' seen g t = record {
    keys = λ i. ground (arith, g.keys i, t.keys i);
    fresh = λ i h. ground (arith, g.scores i, t.fresh i h);
  }

  one_arrival :
      (m : Arrival) (db : Db) (seen : List Text)
      → any (λ p. text_eq p q) s.topics ≡ true
      → cutoff libs r s m.now <ℤ a
      → Tracks libs r s q a b db seen
      → count_messages libs r s (run_command libs r s db (broker m)) q a b
        ≡ count_messages libs r s db q a b + tally libs q a b seen (m ∷ [])
  unfolding run_command ingest
  one_arrival m db seen k c t =
      count_messages-ingest libs r s expires q a b (m ∷ []) db seen k (c, tt) t

  -- For a configured topic, a positive expiry and arrivals whose cutoff lies before the window, the
  -- baseline is what was counted before and the tally of the arrivals, whatever replayed and fetched
  -- messages are stored between them. The database tracks the ids that were seen.
  pub count_messages-run_commands :
      (xs : List Command) (db : Db) (seen : List Text)
      → any (λ p. text_eq p q) s.topics ≡ true
      → All (λ m. cutoff libs r s m.now <ℤ a) (arrivals_of xs)
      → Tracks libs r s q a b db seen
      → count_messages libs r s (run_commands libs r s db xs) q a b
        ≡ count_messages libs r s db q a b + tally libs q a b seen (arrivals_of xs)
  unfolding run_commands arrivals_of ingest
  count_messages-run_commands [] db seen k h t =
      count_messages-ingest libs r s expires q a b [] db seen k tt t
  count_messages-run_commands (broker m ∷ xs) db seen k h t =
      let db' = run_command libs r s db (broker m) in
      let t' = store_message-Tracks libs r s expires q a b m db seen h.0 t in
      ground (
        arith,
        count_messages-run_commands xs db' (seen_after libs seen m) k h.1
            (unfold run_command in t'),
        one_arrival m db seen k h.0 t,
        tally_cons libs q a b seen m (arrivals_of xs),
      )
  count_messages-run_commands (replayed c i u o ∷ xs) db seen k h t =
      let db' = run_command libs r s db (replayed c i u o) in
      let g = replayed-Agrees db c i u o in
      ground (
        arith,
        g.counted,
        count_messages-run_commands xs db' seen k h (Agrees-Tracks db db' seen g t),
      )
  count_messages-run_commands (fetched c p i u ∷ xs) db seen k h t =
      let db' = run_command libs r s db (fetched c p i u) in
      let g = fetched-Agrees db c p i u in
      ground (
        arith,
        g.counted,
        count_messages-run_commands xs db' seen k h (Agrees-Tracks db db' seen g t),
      )
