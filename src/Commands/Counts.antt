-- ===== src/Commands/Counts.antt =====
-- The counts of replayed and of fetched messages (scgrep/redis_store.py) after any sequence of calls
-- of all threads.
use scgrep.Prelude.{
  ◌+◌, ◌<◌, ℤ, ◌≡◌, refl, inl, inr, Bool, false, ◌&&◌, Option, none, some, List, [], ◌∷◌, any,
  arith, Option-cases, Bool-cases,
}
use scgrep.Text.{Text, text_eq, has_char}
use scgrep.Text.Laws.{eq_of_text_eq}
use scgrep.Libs.{Libs}
use scgrep.Util.{parse_time_to_epoch, topic_matches}
use scgrep.Redis.{Redis, hit}
use scgrep.Store.{
  RedisStore, replay_key, sync_key, store_replay_message, store_sync_message, count_replay_messages,
  count_sync_messages,
}
use scgrep.Store.Keys.{
  starts_with-sync_key, replay_key_eq, sync_key_eq, topic-replay_key, topic-sync_key,
  replay-sync_key, sync-replay_key,
}
use scgrep.Store.Scores.{zscore-store_message, zscore-store_replay, zscore-store_sync}
use scgrep.Store.Replay.{count_replay-store_replay}
use scgrep.Store.Isolation.{replay_isolated, store_replay_elsewhere}
use scgrep.Store.Member.{zcount-add_member}
use scgrep.Commands.{
  Command, broker, replayed, fetched, PlainCentre, Entry, fetched_entry, replayed_entry,
  run_command,
}
use scgrep.Commands.Latest.{moved}
use scgrep.Commands.Refine.{Follows}

pub any-none : (f : Text → Bool) (ts : List Text) → ((p : Text) → f p ≡ false) → any f ts ≡ false
any-none f [] h = refl
any-none f (t ∷ ts) h = ground (arith, h t, any-none f ts h)

module _ (libs : Libs) (r : Redis) (s : RedisStore) (expires : 0 < s.expiry) (c q : Text) (a b : ℤ)
    (plain : has_char b':' c ≡ false) where
  open r use {Db, zscore, zcount}

  abbrev pub said_fetched : Command → Option Entry
  said_fetched = fetched_entry libs c q

  fetched_score :
      (db : Db) (x : Command) (m : Text)
      → PlainCentre x
      → zscore (run_command libs r s db x) (sync_key c q) m
        ≡ moved (said_fetched x) (zscore db (sync_key c q)) m
  unfolding run_command fetched_entry
  fetched_score db (broker x) m h =
      zscore-store_message libs r s expires (sync_key c q) m db x.now x.msg_id x.time_value x.topic
        (λ p. topic-sync_key p c q)
  fetched_score db (replayed d i t o) m h =
      let e = zscore-store_replay libs r s expires (sync_key c q) m d i t o db in
      let no =
        any-none (λ p. text_eq (replay_key d p) (sync_key c q) && topic_matches libs p o) s.topics
          (λ p. ground (arith, replay-sync_key d p c q)) in
      elim (Option-cases (parse_time_to_epoch libs t)) [
        | inl n ↦ ground (arith, e, n)
        | inr (epoch, y) ↦ ground (arith, e, y, no)
      ]
  fetched_score db (fetched d p i t) m h =
      let e = zscore-store_sync libs r s expires (sync_key c q) m d p i t db in
      elim (Option-cases (parse_time_to_epoch libs t)) [
        | inl n ↦ ground (arith, e, n)
        | inr (epoch, y) ↦ ground (arith, e, y, sync_key_eq d c p q h plain)
      ]

  fetched_added :
      (db : Db) (x : Command) (i : Text) (t : ℤ)
      → PlainCentre x
      → said_fetched x ≡ some (i, t)
      → zcount (run_command libs r s db x) (sync_key c q) a b + hit a b (zscore db (sync_key c q) i)
        ≡ zcount db (sync_key c q) a b + hit a b (some t)
  unfolding run_command fetched_entry store_sync_message
  fetched_added db (broker x) i t h e = absurd (cc)
  fetched_added db (replayed d j u o) i t h e = absurd (cc)
  fetched_added db (fetched d p j u) i t h e = elim (Option-cases (parse_time_to_epoch libs u)) [
    | inl n ↦ absurd (ground (arith, e, n))
    | inr (epoch, y) ↦ ground (
      arith,
      e,
      y,
      sync_key_eq d c p q h plain,
      zcount-add_member libs r s expires db (sync_key d p) j epoch (starts_with-sync_key d p)
          (sync_key c q) a b,
    )
  ]

  fetched_other :
      (db : Db) (x : Command)
      → PlainCentre x
      → said_fetched x ≡ none
      → zcount (run_command libs r s db x) (sync_key c q) a b ≡ zcount db (sync_key c q) a b
  unfolding run_command fetched_entry store_sync_message count_sync_messages
  fetched_other db (broker x) h e =
      (replay_isolated libs r s expires db x.now q c c c x.msg_id x.time_value x.topic [] a b).1
  fetched_other db (replayed d i t o) h e =
      (replay_isolated libs r s expires db a q c d c i t o [] a b).3
  fetched_other db (fetched d p j u) h e = elim (Option-cases (parse_time_to_epoch libs u)) [
    | inl n ↦ ground (arith, n)
    | inr (epoch, y) ↦ ground (
      arith,
      e,
      y,
      sync_key_eq d c p q h plain,
      zcount-add_member libs r s expires db (sync_key d p) j epoch (starts_with-sync_key d p)
          (sync_key c q) a b,
    )
  ]

  pub fetched-Follows : Follows libs r s (sync_key c q) a b said_fetched PlainCentre
  fetched-Follows = record {
    score_law = fetched_score;
    added_law = fetched_added;
    other_law = fetched_other;
  }

  abbrev pub said_replayed : Command → Option Entry
  said_replayed = replayed_entry libs s.topics c q

  -- A replayed message has some key of the topic exactly if it is of the centre and the topic.
  replay_key-any :
      (d o : Text) (ts : List Text)
      → has_char b':' d ≡ false
      → any (λ p. text_eq (replay_key d p) (replay_key c q) && topic_matches libs p o) ts
        ≡ (text_eq d c && any (λ p. text_eq p q) ts && topic_matches libs q o)
  replay_key-any d o [] h = ground arith
  replay_key-any d o (t ∷ ts) h =
      ground (arith, replay_key_eq d c t q h plain, replay_key-any d o ts h, eq_of_text_eq t q)

  replayed_score :
      (db : Db) (x : Command) (m : Text)
      → PlainCentre x
      → zscore (run_command libs r s db x) (replay_key c q) m
        ≡ moved (said_replayed x) (zscore db (replay_key c q)) m
  unfolding run_command replayed_entry
  replayed_score db (broker x) m h =
      zscore-store_message libs r s expires (replay_key c q) m db x.now x.msg_id x.time_value
        x.topic (λ p. topic-replay_key p c q)
  replayed_score db (fetched d p i t) m h =
      let e = zscore-store_sync libs r s expires (replay_key c q) m d p i t db in
      elim (Option-cases (parse_time_to_epoch libs t)) [
        | inl n ↦ ground (arith, e, n)
        | inr (epoch, y) ↦ ground (arith, e, y, sync-replay_key d p c q)
      ]
  replayed_score db (replayed d i t o) m h =
      let e = zscore-store_replay libs r s expires (replay_key c q) m d i t o db in
      elim (Option-cases (parse_time_to_epoch libs t)) [
        | inl n ↦ ground (arith, e, n)
        | inr (epoch, y) ↦ ground (arith, e, y, replay_key-any d o s.topics h)
      ]

  replayed_elsewhere :
      (db : Db) (d i t o : Text)
      → has_char b':' d ≡ false
      → text_eq d c ≡ false
      → zcount (run_command libs r s db (replayed d i t o)) (replay_key c q) a b
        ≡ zcount db (replay_key c q) a b
  unfolding run_command
  replayed_elsewhere db d i t o h n =
      store_replay_elsewhere libs r s expires (replay_key c q) a b db d i t o
        (λ p. ground (arith, n, replay_key_eq d c p q h plain))

  replayed_added :
      (db : Db) (x : Command) (i : Text) (t : ℤ)
      → PlainCentre x
      → said_replayed x ≡ some (i, t)
      → zcount (run_command libs r s db x) (replay_key c q) a b
          + hit a b (zscore db (replay_key c q) i)
        ≡ zcount db (replay_key c q) a b + hit a b (some t)
  unfolding run_command replayed_entry count_replay_messages
  replayed_added db (broker x) i t h e = absurd (cc)
  replayed_added db (fetched d p j u) i t h e = absurd (cc)
  replayed_added db (replayed d j u o) i t h e = elim (Option-cases (parse_time_to_epoch libs u)) [
    | inl n ↦ absurd (ground (arith, e, n))
    | inr (epoch, y) ↦ ground (
      arith,
      e,
      y,
      eq_of_text_eq d c,
      count_replay-store_replay libs r s expires d j epoch o q a b db u y,
    )
  ]

  replayed_other :
      (db : Db) (x : Command)
      → PlainCentre x
      → said_replayed x ≡ none
      → zcount (run_command libs r s db x) (replay_key c q) a b ≡ zcount db (replay_key c q) a b
  unfolding run_command replayed_entry store_replay_message count_replay_messages
  replayed_other db (broker x) h e =
      (replay_isolated libs r s expires db x.now q c c c x.msg_id x.time_value x.topic [] a b).0
  replayed_other db (fetched d p i t) h e =
      (replay_isolated libs r s expires db a q c d p i t [] [] a b).2
  replayed_other db (replayed d j u o) h e = elim (Option-cases (parse_time_to_epoch libs u)) [
    | inl n ↦ ground (arith, n)
    | inr (epoch, y) ↦ elim (Bool-cases (text_eq d c)) [
      | inr n ↦ replayed_elsewhere db d j u o h n
      | inl same ↦ ground (
        arith,
        e,
        y,
        same,
        eq_of_text_eq d c,
        count_replay-store_replay libs r s expires d j epoch o q a b db u y,
      )
    ]
  ]

  pub replayed-Follows : Follows libs r s (replay_key c q) a b said_replayed PlainCentre
  replayed-Follows = record {
    score_law = replayed_score;
    added_law = replayed_added;
    other_law = replayed_other;
  }
