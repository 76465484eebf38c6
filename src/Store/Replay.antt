-- ===== src/Store/Replay.antt =====
-- store_replay_message, count_replay_messages and clear_replay of scgrep/redis_store.py.
use scgrep.Prelude.{
  ◌+◌, ◌<◌, ℤ, ◌≡◌, refl, inl, inr, Bool, true, false, ◌&&◌, ◌||◌, some, List, [], ◌∷◌, any, arith,
  Bool-cases, if◌then◌else◌,
}
use scgrep.Text.{Text, text_eq}
use scgrep.Text.Laws.{text_eq-append_left, text_eq_refl, eq_of_text_eq}
use scgrep.Libs.{Libs}
use scgrep.Util.{topic_matches, parse_time_to_epoch}
use scgrep.Redis.{Redis, hit, is_none}
use scgrep.Store.{
  RedisStore, replay_key, add_member, replay_topics, store_replay_message, count_replay_messages,
  clear_replay, keys_of,
}
use scgrep.Store.Keys.{starts_with-replay_key, keys_of-covers}
use scgrep.Store.Member.{add_member_new, zscore-add_member, zcount-add_member, zcount-delete_keys}

same_centre : (c p q : Text) → text_eq (replay_key c p) (replay_key c q) ≡ text_eq p q
unfolding replay_key text_eq
same_centre c p q = text_eq-append_left c (b':' ∷ p) (b':' ∷ q)

module _ (libs : Libs) (r : Redis) (s : RedisStore) (expires : 0 < s.expiry) where
  open r use {Db, zscore, zcount}

  module _ (c i : Text) (epoch : ℤ) (original q : Text) (a b : ℤ) where
    abbrev selected : List Text → Bool
    selected ts = any (λ p. text_eq p q) ts && topic_matches libs q original

    zcount-replay_topics :
        (ts : List Text) (db : Db) (acc : Bool)
        → zcount (replay_topics libs r s db c i epoch original ts acc).0 (replay_key c q) a b
            + (if selected ts then hit a b (zscore db (replay_key c q) i) else 0)
          ≡ zcount db (replay_key c q) a b + (if selected ts then hit a b (some epoch) else 0)
    unfolding replay_topics
    zcount-replay_topics [] db acc = refl
    zcount-replay_topics (p ∷ ts) db acc =
        let key = replay_key c p in
        let n = starts_with-replay_key c p in
        let step = add_member libs r s db key i epoch in
        elim (Bool-cases (topic_matches libs p original)) [
          | inl m ↦ ground (
            arith,
            m,
            zcount-replay_topics ts step.0 (acc || step.1),
            zcount-add_member libs r s expires db key i epoch n (replay_key c q) a b,
            zscore-add_member libs r s expires db key i epoch n (replay_key c q) i,
            same_centre c p q,
            text_eq_refl i,
            eq_of_text_eq p q,
          )
          | inr m ↦ ground (arith, m, zcount-replay_topics ts db (acc || false), eq_of_text_eq p q)
        ]

    -- With a positive expiry and a time that parses, a replayed message counts once in each
    -- configured pattern that matches its original topic: a pattern that already holds the id has
    -- the old time replaced, and no other pattern changes.
    pub count_replay-store_replay :
        (db : Db) (time_value : Text)
        → parse_time_to_epoch libs time_value ≡ some epoch
        → count_replay_messages libs r s
              (store_replay_message libs r s db c i time_value original).0
              c
              q
              a
              b
            + (if selected s.topics then hit a b (zscore db (replay_key c q) i) else 0)
          ≡ count_replay_messages libs r s db c q a b
            + (if selected s.topics then hit a b (some epoch) else 0)
    unfolding count_replay_messages store_replay_message
    count_replay-store_replay db time_value h =
        ground (arith, h, zcount-replay_topics s.topics db false)

  module _ (c i : Text) (epoch : ℤ) (original : Text) where
    -- Some pattern of the list matches and does not hold the id.
    abbrev pub is_first : Db → List Text → Bool
    is_first db ts =
        any (λ p. topic_matches libs p original && is_none (zscore db (replay_key c p) i)) ts

    -- After one pattern was written, the others are as new as they were.
    is_first-add_member :
        (p : Text) (db : Db) (acc : Bool) (ts : List Text)
        → (is_first (add_member libs r s db (replay_key c p) i epoch).0 ts
            || (acc || is_none (zscore db (replay_key c p) i)))
          ≡ (is_first db ts || (acc || is_none (zscore db (replay_key c p) i)))
    is_first-add_member p db acc [] = refl
    is_first-add_member p db acc (q ∷ ts) = ground (
      arith,
      is_first-add_member p db acc ts,
      zscore-add_member libs r s expires db (replay_key c p) i epoch (starts_with-replay_key c p)
          (replay_key c q) i,
      text_eq_refl i,
      same_centre c p q,
      eq_of_text_eq p q,
    )

    new-replay_topics :
        (ts : List Text) (db : Db) (acc : Bool)
        → (replay_topics libs r s db c i epoch original ts acc).1 ≡ (is_first db ts || acc)
    unfolding replay_topics
    new-replay_topics [] db acc = refl
    new-replay_topics (p ∷ ts) db acc =
        let key = replay_key c p in
        let step = add_member libs r s db key i epoch in
        elim (Bool-cases (topic_matches libs p original)) [
          | inl m ↦ rw m (
              ground (
                arith,
                new-replay_topics ts step.0 (acc || step.1),
                add_member_new libs r s expires db key i epoch (starts_with-replay_key c p),
                is_first-add_member p db acc ts,
              ))
          | inr m ↦ rw m (ground (arith, new-replay_topics ts db (acc || false)))
        ]

    -- With a positive expiry and a time that parses, store_replay_message returns True exactly if
    -- some configured pattern that matches the original topic does not hold the id yet.
    pub store_replay_new :
        (db : Db) (time_value : Text)
        → parse_time_to_epoch libs time_value ≡ some epoch
        → (store_replay_message libs r s db c i time_value original).1 ≡ is_first db s.topics
    unfolding store_replay_message
    store_replay_new db time_value h = ground (arith, h, new-replay_topics s.topics db false)

  -- With a positive expiry, after clear_replay every listed centre has an empty count for every
  -- configured topic.
  pub count_replay-clear_replay :
      (db : Db) (cs : List Text) (c q : Text) (a b : ℤ)
      → any (text_eq c) cs ≡ true
      → any (text_eq q) s.topics ≡ true
      → count_replay_messages libs r s (clear_replay libs r s db cs) c q a b ≡ 0
  unfolding count_replay_messages clear_replay
  count_replay-clear_replay db cs c q a b h k =
      let keys = keys_of replay_key cs s.topics in
      ground (
        arith,
        zcount-delete_keys libs r s expires db keys (replay_key c q) a b,
        keys_of-covers replay_key c q cs s.topics h k,
      )
