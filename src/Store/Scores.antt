-- ===== src/Store/Scores.antt =====
-- The scores and the string keys of scgrep/redis_store.py that a method leaves alone.
use scgrep.Prelude.{
  ◌<◌, ℤ, ◌≡◌, refl, inl, inr, Bool, false, ◌||◌, ◌&&◌, none, some, List, [], ◌∷◌, arith,
  Option-cases, Bool-cases, ◌-ℤ◌, pos, ◌*◌, any, if◌then◌else◌,
}
use scgrep.Text.{Text, text_eq}
use scgrep.Libs.{Libs}
use scgrep.Util.{parse_time_to_epoch, topic_matches}
use scgrep.Redis.{Redis}
use scgrep.Store.{
  RedisStore, topic_key, replay_key, sync_key, msg_key, second, add_member, replay_topics,
  index_topic, index_topics, store_epoch, store_message, store_replay_message, store_sync_message,
}
use scgrep.Store.Keys.{
  starts_with-msg_key, starts_with-topic_key, starts_with-replay_key, starts_with-sync_key,
}
use scgrep.Store.Member.{zscore-add_member, get-add_member}

module _ (libs : Libs) (r : Redis) (s : RedisStore) (expires : 0 < s.expiry) where
  open r use {Db, zscore, get}

  -- Every pattern of the list that matches gives its set the new score.
  pub zscore-replay_topics :
      (j m c i : Text) (epoch : ℤ) (original : Text) (ts : List Text) (db : Db) (acc : Bool)
      → zscore (replay_topics libs r s db c i epoch original ts acc).0 j m ≡ (
          if any (λ p. text_eq (replay_key c p) j && topic_matches libs p original) ts
            && text_eq i m
          then some epoch
          else zscore db j m)
  unfolding replay_topics
  zscore-replay_topics j m c i epoch original [] db acc = refl
  zscore-replay_topics j m c i epoch original (p ∷ ts) db acc =
      let key = replay_key c p in
      let step = add_member libs r s db key i epoch in
      elim (Bool-cases (topic_matches libs p original)) [
        | inl y ↦ ground (
          arith,
          y,
          zscore-replay_topics j m c i epoch original ts step.0 (acc || step.1),
          zscore-add_member libs r s expires db key i epoch (starts_with-replay_key c p) j m,
        )
        | inr n ↦
            ground (arith, n, zscore-replay_topics j m c i epoch original ts db (acc || false))
      ]

  pub zscore-store_sync :
      (j m c p i t : Text) (db : Db)
      → zscore (store_sync_message libs r s db c p i t).0 j m ≡ elim (parse_time_to_epoch libs t) [
        | none ↦ zscore db j m
        | some epoch ↦ if text_eq (sync_key c p) j && text_eq i m then some epoch else zscore db j m
      ]
  unfolding store_sync_message
  zscore-store_sync j m c p i t db = elim (Option-cases (parse_time_to_epoch libs t)) [
    | inl e ↦ ground (arith, e)
    | inr (epoch, e) ↦ ground (
      arith,
      e,
      zscore-add_member libs r s expires db (sync_key c p) i epoch (starts_with-sync_key c p) j m,
    )
  ]

  zscore-index_topics :
      (j m : Text) (ts : List Text) (db : Db) (c : ℤ) (i : Text) (epoch : ℤ) (received : Text)
      → ((p : Text) → text_eq (topic_key p) j ≡ false)
      → zscore (index_topics libs r s db c i epoch received ts) j m ≡ zscore db j m
  unfolding index_topics index_topic
  zscore-index_topics j m [] db c i epoch received h = refl
  zscore-index_topics j m (p ∷ ts) db c i epoch received h =
      let key = topic_key p in
      let n = starts_with-topic_key p in
      let added = (r.zadd db key i epoch).0 in
      ground (
        arith,
        zscore-index_topics j m ts db c i epoch received h,
        zscore-index_topics j m ts (index_topic libs r s db c i epoch p) c i epoch received h,
        r.zscore-expire (r.zremrangebyscore added key c) key s.expiry j m expires,
        r.zscore-zrem added key c j m n,
        r.zscore-zadd db key i epoch j m n,
        h p,
      )

  -- A broker message moves no score outside the baseline's sets.
  pub zscore-store_message :
      (j m : Text) (db : Db) (now : ℤ) (i t received : Text)
      → ((p : Text) → text_eq (topic_key p) j ≡ false)
      → zscore (store_message libs r s db now i t received).0 j m ≡ zscore db j m
  unfolding store_message store_epoch
  zscore-store_message j m db now i t received h =
      elim (Option-cases (parse_time_to_epoch libs t)) [
        | inl e ↦ ground (arith, e)
        | inr (epoch, e) ↦ ground (
          arith,
          e,
          zscore-index_topics j m s.topics (r.set_nx_ex db (msg_key i) received s.expiry).0
              (now -ℤ pos (s.expiry * second)) i epoch received h,
          r.zscore-set db (msg_key i) received s.expiry j m (starts_with-msg_key i),
        )
      ]

  get-replay_topics :
      (j c i : Text) (epoch : ℤ) (original : Text) (ts : List Text) (db : Db) (acc : Bool)
      → get (replay_topics libs r s db c i epoch original ts acc).0 j ≡ get db j
  unfolding replay_topics
  get-replay_topics j c i epoch original [] db acc = refl
  get-replay_topics j c i epoch original (p ∷ ts) db acc =
      let key = replay_key c p in
      let step = add_member libs r s db key i epoch in
      elim (Bool-cases (topic_matches libs p original)) [
        | inl y ↦ ground (
          arith,
          y,
          get-replay_topics j c i epoch original ts step.0 (acc || step.1),
          get-add_member libs r s expires db key i epoch (starts_with-replay_key c p) j,
        )
        | inr n ↦ ground (arith, n, get-replay_topics j c i epoch original ts db (acc || false))
      ]

  -- Replayed and fetched messages leave the string keys alone.
  pub get-store_replay :
      (j c i t original : Text) (db : Db)
      → get (store_replay_message libs r s db c i t original).0 j ≡ get db j
  unfolding store_replay_message
  get-store_replay j c i t original db = elim (Option-cases (parse_time_to_epoch libs t)) [
    | inl e ↦ ground (arith, e)
    | inr (epoch, e) ↦ ground (arith, e, get-replay_topics j c i epoch original s.topics db false)
  ]

  pub get-store_sync :
      (j c p i t : Text) (db : Db) → get (store_sync_message libs r s db c p i t).0 j ≡ get db j
  unfolding store_sync_message
  get-store_sync j c p i t db = elim (Option-cases (parse_time_to_epoch libs t)) [
    | inl e ↦ ground (arith, e)
    | inr (epoch, e) ↦ ground (
      arith,
      e,
      get-add_member libs r s expires db (sync_key c p) i epoch (starts_with-sync_key c p) j,
    )
  ]

  pub zscore-store_replay :
      (j m c i t original : Text) (db : Db)
      → zscore (store_replay_message libs r s db c i t original).0 j m
        ≡ elim (parse_time_to_epoch libs t) [
          | none ↦ zscore db j m
          | some epoch ↦
              if any (λ p. text_eq (replay_key c p) j && topic_matches libs p original) s.topics
                && text_eq i m
              then some epoch
              else zscore db j m
        ]
  unfolding store_replay_message
  zscore-store_replay j m c i t original db = elim (Option-cases (parse_time_to_epoch libs t)) [
    | inl e ↦ ground (arith, e)
    | inr (epoch, e) ↦
        ground (arith, e, zscore-replay_topics j m c i epoch original s.topics db false)
  ]
