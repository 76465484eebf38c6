-- ===== src/Store/Lifetime.antt =====
-- The expiry times of the keys of scgrep/redis_store.py.
use scgrep.Prelude.{
  ℕ, ◌<◌, ◌≤◌, ◌*◌, ℤ, pos, ◌-ℤ◌, ◌≡◌, ◌∙◌, sym, inl, inr, Bool, true, false, ◌||◌, Option, none,
  some, List, [], ◌∷◌, arith, Bool-cases, Option-cases,
}
use scgrep.Text.{Text, starts_with}
use scgrep.Text.Laws.{text_eq_cases, text_eq_refl}
use scgrep.Libs.{Libs}
use scgrep.Util.{parse_time_to_epoch, topic_matches}
use scgrep.Redis.{Redis, msg_prefix}
use scgrep.Store.{
  RedisStore, second, msg_key, topic_key, replay_key, sync_key, add_member, replay_topics,
  index_topic, index_topics, store_epoch, store_message, store_replay_message, store_sync_message,
  delete_keys, clear_replay, clear_sync, keys_of,
}
use scgrep.Store.Keys.{
  starts_with-msg_key, starts_with-topic_key, starts_with-replay_key, starts_with-sync_key,
}

abbrev pub Within : ℕ → Option ℕ → Type 0
Within expiry none = ⊥
Within expiry (some t) = t ≤ expiry

module _ (libs : Libs) (r : Redis) (s : RedisStore) (expires : 0 < s.expiry) where
  open r use {Db, present, ttl}

  -- Each key that is there expires within `_expiry` seconds.
  pub record Expires (db : Db) : Type 0 where
    pub at_key : (j : Text) → present db j ≡ true → Within s.expiry (ttl db j)

  set-Expires :
      (db : Db) (k v : Text)
      → starts_with k msg_prefix ≡ true
      → Expires db
      → Expires (r.set_nx_ex db k v s.expiry).0
  set-Expires db k v h e = record {
    at_key = λ j p. elim (text_eq_cases k j) [
      | inl q ↦ ground (
        arith,
        q,
        p,
        text_eq_refl k,
        r.ttl-set db k v s.expiry j h,
        r.present-get db k h,
        e.at_key j,
      )
      | inr q ↦ ground (
        arith,
        q.0,
        p,
        r.present-set db k v s.expiry j h,
        r.ttl-set db k v s.expiry j h,
        e.at_key j,
      )
    ];
  }

  module _ (db : Db) (k i : Text) (epoch : ℤ) (h : starts_with k msg_prefix ≡ false) where
    abbrev added : Db
    added = (r.zadd db k i epoch).0

    add_member-Expires : Expires db → Expires (add_member libs r s db k i epoch).0
    unfolding add_member
    add_member-Expires e = record {
      at_key = λ j p. ground (
        arith,
        p,
        r.present-expire added k s.expiry j expires,
        r.present-expire added k s.expiry k expires,
        r.present-zadd db k i epoch j h,
        r.present-zadd db k i epoch k h,
        r.ttl-expire added k s.expiry j expires,
        r.ttl-zadd db k i epoch j h,
        text_eq_refl k,
        e.at_key j,
      );
    }

    pruned-Expires :
        (c : ℤ) → Expires db → Expires (r.expire (r.zremrangebyscore added k c) k s.expiry)
    pruned-Expires c e = record { at_key = λ j p. at j p }
      where
        pruned : Db
        pruned = r.zremrangebyscore added k c

        at :
            (j : Text)
            → present (r.expire pruned k s.expiry) j ≡ true
            → Within s.expiry (ttl (r.expire pruned k s.expiry) j)
        at j p =
            let q : present pruned j ≡ true =
              sym (r.present-expire pruned k s.expiry j expires) ∙ p in
            let (was, kept) = r.zrem-present added k c j h q in
            elim (text_eq_cases k j) [
              | inl same ↦
                  ground (arith, same, q, text_eq_refl k, r.ttl-expire pruned k s.expiry j expires)
              | inr other ↦ ground (
                arith,
                other.0,
                was,
                kept,
                r.ttl-expire pruned k s.expiry j expires,
                r.present-zadd db k i epoch j h,
                r.ttl-zadd db k i epoch j h,
                e.at_key j,
              )
            ]

  index_topics-Expires :
      (ts : List Text) (db : Db) (c : ℤ) (i : Text) (epoch : ℤ) (received : Text)
      → Expires db
      → Expires (index_topics libs r s db c i epoch received ts)
  unfolding index_topics index_topic
  index_topics-Expires [] db c i epoch received e = e
  index_topics-Expires (p ∷ ts) db c i epoch received e =
      elim (Bool-cases (topic_matches libs p received)) [
        | inl m ↦ rw m (
            index_topics-Expires ts (index_topic libs r s db c i epoch p) c i epoch received
              (pruned-Expires db (topic_key p) i epoch (starts_with-topic_key p) c e))
        | inr m ↦ rw m (index_topics-Expires ts db c i epoch received e)
      ]

  replay_topics-Expires :
      (ts : List Text) (db : Db) (c i : Text) (epoch : ℤ) (original : Text) (acc : Bool)
      → Expires db
      → Expires (replay_topics libs r s db c i epoch original ts acc).0
  unfolding replay_topics
  replay_topics-Expires [] db c i epoch original acc e = e
  replay_topics-Expires (p ∷ ts) db c i epoch original acc e =
      elim (Bool-cases (topic_matches libs p original)) [
        | inl m ↦
            let step = add_member libs r s db (replay_key c p) i epoch in
            rw (m, replay_topics)
              (replay_topics-Expires ts step.0 c i epoch original (acc || step.1)
                (add_member-Expires db (replay_key c p) i epoch (starts_with-replay_key c p) e))
        | inr m ↦
            rw (m, replay_topics) (replay_topics-Expires ts db c i epoch original (acc || false) e)
      ]

  delete_keys-Expires :
      (db : Db) (ks : List Text) → Expires db → Expires (delete_keys libs r s db ks)
  unfolding delete_keys
  delete_keys-Expires db [] e = e
  delete_keys-Expires db (k ∷ ks) e = record {
    at_key = λ j p.
        let (was, kept) = r.delete-present db (k ∷ ks) j p in ground (arith, was, kept, e.at_key j);
  }

  store_epoch-Expires :
      (db : Db) (now : ℤ) (i : Text) (epoch : ℤ) (received : Text)
      → Expires db
      → Expires (store_epoch libs r s db now i epoch received).0
  unfolding store_epoch
  store_epoch-Expires db now i epoch received e =
      let db' = r.set_nx_ex db (msg_key i) received s.expiry in
      let kept = set-Expires db (msg_key i) received (starts_with-msg_key i) e in
      elim (Bool-cases db'.1) [
        | inl y ↦
            rw (y, store_epoch)
              (index_topics-Expires s.topics db'.0 (now -ℤ pos (s.expiry * second)) i epoch received
                kept)
        | inr n ↦ rw (n, store_epoch) kept
      ]

  module _ (db : Db) (t : Text) where
    store_message-Expires :
        (now : ℤ) (i received : Text)
        → Expires db
        → Expires (store_message libs r s db now i t received).0
    unfolding store_message
    store_message-Expires now i received e = elim (Option-cases (parse_time_to_epoch libs t)) [
      | inl q ↦ rw (q, store_message) e
      | inr (epoch, q) ↦ rw (q, store_message) (store_epoch-Expires db now i epoch received e)
    ]

    store_replay-Expires :
        (c i original : Text)
        → Expires db
        → Expires (store_replay_message libs r s db c i t original).0
    unfolding store_replay_message
    store_replay-Expires c i original e = elim (Option-cases (parse_time_to_epoch libs t)) [
      | inl q ↦ rw (q, store_replay_message) e
      | inr (epoch, q) ↦
          rw (q, store_replay_message)
            (replay_topics-Expires s.topics db c i epoch original false e)
    ]

    store_sync-Expires :
        (c p i : Text) → Expires db → Expires (store_sync_message libs r s db c p i t).0
    unfolding store_sync_message
    store_sync-Expires c p i e = elim (Option-cases (parse_time_to_epoch libs t)) [
      | inl q ↦ rw (q, store_sync_message) e
      | inr (epoch, q) ↦
          rw (q, store_sync_message)
            (add_member-Expires db (sync_key c p) i epoch (starts_with-sync_key c p) e)
    ]

  -- With a positive expiry, if each key that is there expires within `_expiry` seconds, that still
  -- holds after any message was stored or any counts were cleared.
  pub store-Expires :
      (db : Db) (now : ℤ) (c p i t received : Text) (cs : List Text)
      → Expires db
      → Expires (store_message libs r s db now i t received).0
        × Expires (store_replay_message libs r s db c i t received).0
        × Expires (store_sync_message libs r s db c p i t).0
        × Expires (clear_replay libs r s db cs)
        × Expires (clear_sync libs r s db cs)
  unfolding clear_replay clear_sync
  store-Expires db now c p i t received cs e = (
    store_message-Expires db t now i received e,
    store_replay-Expires db t c i received e,
    store_sync-Expires db t c p i e,
    delete_keys-Expires db (keys_of replay_key cs s.topics) e,
    delete_keys-Expires db (keys_of sync_key cs s.topics) e,
  )
