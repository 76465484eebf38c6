-- ===== src/Store/Isolation.antt =====
-- The keyspaces of scgrep/redis_store.py against one another.
use scgrep.Prelude.{
  ◌<◌, ℤ, ◌≡◌, inl, inr, Bool, false, ◌||◌, List, [], ◌∷◌, refl, arith, Option-cases, ◌-ℤ◌, pos,
  ◌*◌,
}
use scgrep.Text.{Text, text_eq}
use scgrep.Libs.{Libs}
use scgrep.Util.{parse_time_to_epoch}
use scgrep.Redis.{Redis}
use scgrep.Store.{
  RedisStore, topic_key, replay_key, sync_key, msg_key, second, add_member, replay_topics,
  index_topic, index_topics, store_epoch, store_message, store_replay_message, store_sync_message,
  clear_replay, clear_sync, count_messages, count_replay_messages, count_sync_messages, keys_of,
  delete_keys,
}
use scgrep.Store.Keys.{
  starts_with-msg_key, starts_with-topic_key, starts_with-replay_key, starts_with-sync_key,
  replay-topic_key, sync-topic_key, topic-replay_key, topic-sync_key, replay-sync_key,
  sync-replay_key, keys_of-disjoint,
}
use scgrep.Store.Member.{zcount-add_member, zcount-delete_keys}

module _ (libs : Libs) (r : Redis) (s : RedisStore) (expires : 0 < s.expiry) where
  open r use {Db, zcount}

  module _ (j : Text) (a b : ℤ) where
    replay_topics_elsewhere :
        (db : Db) (c i : Text) (epoch : ℤ) (original : Text) (ts : List Text) (acc : Bool)
        → ((p : Text) → text_eq (replay_key c p) j ≡ false)
        → zcount (replay_topics libs r s db c i epoch original ts acc).0 j a b ≡ zcount db j a b
    unfolding replay_topics
    replay_topics_elsewhere db c i epoch original [] acc h = refl
    replay_topics_elsewhere db c i epoch original (p ∷ ts) acc h =
        let key = replay_key c p in
        let step = add_member libs r s db key i epoch in
        ground (
          arith,
          h p,
          replay_topics_elsewhere step.0 c i epoch original ts (acc || step.1) h,
          replay_topics_elsewhere db c i epoch original ts (acc || false) h,
          zcount-add_member libs r s expires db key i epoch (starts_with-replay_key c p) j a b,
        )

    pub store_replay_elsewhere :
        (db : Db) (c i t o : Text)
        → ((p : Text) → text_eq (replay_key c p) j ≡ false)
        → zcount (store_replay_message libs r s db c i t o).0 j a b ≡ zcount db j a b
    unfolding store_replay_message
    store_replay_elsewhere db c i t o h = elim (Option-cases (parse_time_to_epoch libs t)) [
      | inl e ↦ ground (arith, e)
      | inr (epoch, e) ↦ ground (arith, e, replay_topics_elsewhere db c i epoch o s.topics false h)
    ]

    store_sync_elsewhere :
        (db : Db) (c p i t : Text)
        → text_eq (sync_key c p) j ≡ false
        → zcount (store_sync_message libs r s db c p i t).0 j a b ≡ zcount db j a b
    unfolding store_sync_message
    store_sync_elsewhere db c p i t h = elim (Option-cases (parse_time_to_epoch libs t)) [
      | inl e ↦ ground (arith, e)
      | inr (epoch, e) ↦ ground (
        arith,
        e,
        h,
        zcount-add_member libs r s expires db (sync_key c p) i epoch (starts_with-sync_key c p) j a
            b,
      )
    ]

    clear_elsewhere :
        (db : Db) (key : Text → Text → Text) (cs : List Text)
        → ((c p : Text) → text_eq (key c p) j ≡ false)
        → zcount (delete_keys libs r s db (keys_of key cs s.topics)) j a b ≡ zcount db j a b
    clear_elsewhere db key cs h = ground (
      arith,
      zcount-delete_keys libs r s expires db (keys_of key cs s.topics) j a b,
      keys_of-disjoint key j cs s.topics h,
    )

    index_topics_elsewhere :
        (ts : List Text) (db : Db) (c : ℤ) (i : Text) (epoch : ℤ) (received : Text)
        → ((p : Text) → text_eq (topic_key p) j ≡ false)
        → zcount (index_topics libs r s db c i epoch received ts) j a b ≡ zcount db j a b
    unfolding index_topics index_topic
    index_topics_elsewhere [] db c i epoch received h = refl
    index_topics_elsewhere (p ∷ ts) db c i epoch received h =
        let key = topic_key p in
        let n = starts_with-topic_key p in
        let added = (r.zadd db key i epoch).0 in
        ground (
          arith,
          index_topics_elsewhere ts db c i epoch received h,
          index_topics_elsewhere ts (index_topic libs r s db c i epoch p) c i epoch received h,
          r.zcount-expire (r.zremrangebyscore added key c) key s.expiry j a b expires,
          r.zcount-zrem_ne added key c j a b n (h p),
          r.zcount-zadd_ne db key i epoch j a b n (h p),
        )

    store_message_elsewhere :
        (db : Db) (now : ℤ) (i t received : Text)
        → ((p : Text) → text_eq (topic_key p) j ≡ false)
        → zcount (store_message libs r s db now i t received).0 j a b ≡ zcount db j a b
    unfolding store_message store_epoch
    store_message_elsewhere db now i t received h =
        elim (Option-cases (parse_time_to_epoch libs t)) [
          | inl e ↦ ground (arith, e)
          | inr (epoch, e) ↦ ground (
            arith,
            e,
            index_topics_elsewhere s.topics (r.set_nx_ex db (msg_key i) received s.expiry).0
                (now -ℤ pos (s.expiry * second)) i epoch received h,
            r.zcount-set db (msg_key i) received s.expiry j a b (starts_with-msg_key i),
          )
        ]

  -- With a positive expiry, storing replayed and fetched messages and clearing either of them
  -- change no baseline.
  pub baseline_isolated :
      (db : Db) (q c p i t o : Text) (cs : List Text) (a b : ℤ)
      → let count = λ (d : Db). count_messages libs r s d q a b in
        (count (store_replay_message libs r s db c i t o).0 ≡ count db)
        × (count (store_sync_message libs r s db c p i t).0 ≡ count db)
        × (count (clear_replay libs r s db cs) ≡ count db)
        × (count (clear_sync libs r s db cs) ≡ count db)
  unfolding count_messages clear_replay clear_sync
  baseline_isolated db q c p i t o cs a b = (
    store_replay_elsewhere (topic_key q) a b db c i t o (λ x. replay-topic_key c x q),
    store_sync_elsewhere (topic_key q) a b db c p i t (sync-topic_key c p q),
    clear_elsewhere (topic_key q) a b db replay_key cs (λ d x. replay-topic_key d x q),
    clear_elsewhere (topic_key q) a b db sync_key cs (λ d x. sync-topic_key d x q),
  )

  -- With a positive expiry, a broker message changes no count of replayed or fetched messages, and
  -- storing or clearing either of these two does not change the count of the other.
  pub replay_isolated :
      (db : Db) (now : ℤ) (q d c p i t o : Text) (cs : List Text) (a b : ℤ)
      → let replayed = λ (e : Db). count_replay_messages libs r s e d q a b in
        let fetched = λ (e : Db). count_sync_messages libs r s e d q a b in
        (replayed (store_message libs r s db now i t o).0 ≡ replayed db)
        × (fetched (store_message libs r s db now i t o).0 ≡ fetched db)
        × (replayed (store_sync_message libs r s db c p i t).0 ≡ replayed db)
        × (fetched (store_replay_message libs r s db c i t o).0 ≡ fetched db)
        × (replayed (clear_sync libs r s db cs) ≡ replayed db)
        × (fetched (clear_replay libs r s db cs) ≡ fetched db)
  unfolding count_replay_messages count_sync_messages clear_replay clear_sync
  replay_isolated db now q d c p i t o cs a b = (
    store_message_elsewhere (replay_key d q) a b db now i t o (λ x. topic-replay_key x d q),
    store_message_elsewhere (sync_key d q) a b db now i t o (λ x. topic-sync_key x d q),
    store_sync_elsewhere (replay_key d q) a b db c p i t (sync-replay_key c p d q),
    store_replay_elsewhere (sync_key d q) a b db c i t o (λ x. replay-sync_key c x d q),
    clear_elsewhere (replay_key d q) a b db sync_key cs (λ e x. sync-replay_key e x d q),
    clear_elsewhere (sync_key d q) a b db replay_key cs (λ e x. replay-sync_key e x d q),
  )
