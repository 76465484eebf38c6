-- ===== src/Store/Baseline.antt =====
-- The baseline as a specification over the arrivals, and the store against it.
use scgrep.Prelude.{
  ℕ, ◌+◌, ◌*◌, ◌<◌, ℤ, pos, ◌-ℤ◌, ◌<ℤ◌, ◌≡◌, ◌∙◌, ap, inl, inr, Bool, true, false, not, ◌&&◌, none,
  some, List, [], ◌∷◌, any, All, arith, Bool-cases, Option-cases, if◌then◌else◌,
}
use scgrep.Text.{Text, text_eq}
use scgrep.Text.Laws.{text_eq_comm, text_eq_iff}
use scgrep.Libs.{Libs}
use scgrep.Util.{topic_matches, parse_time_to_epoch}
use scgrep.Redis.{Redis, hit, in_window, is_none}
use scgrep.Store.{
  RedisStore, second, msg_key, topic_key, store_epoch, store_message, count_messages,
}
use scgrep.Store.Keys.{starts_with-msg_key, msg_key_eq}
use scgrep.Store.Index.{zcount-index_topics, hit-index_topics, get-index_topics}

-- One call of store_message: the clock's reading and the arguments.
pub record Arrival : Type 0 where
  pub now : ℤ
  pub msg_id : Text
  pub time_value : Text
  pub topic : Text

abbrev pub known : List Text → Text → Bool
known seen i = any (text_eq i) seen

-- The messages that a pattern has in [start, end): the first parseable arrival of each `id` decides.
pub tally : Libs → Text → ℤ → ℤ → List Text → List Arrival → ℕ
tally libs q a b seen [] = 0
tally libs q a b seen (m ∷ ms) = elim (parse_time_to_epoch libs m.time_value) [
  | none ↦ tally libs q a b seen ms
  | some epoch ↦ elim (known seen m.msg_id) [
    | true ↦ tally libs q a b seen ms
    | false ↦
        (if topic_matches libs q m.topic && in_window a b epoch then 1 else 0)
        + tally libs q a b (m.msg_id ∷ seen) ms
  ]
]

module _ (libs : Libs) (r : Redis) (s : RedisStore) where
  -- The calls of store_message, one after the other.
  unfoldable pub ingest : r.Db → List Arrival → r.Db
  ingest db [] = db
  ingest db (m ∷ ms) = ingest (store_message libs r s db m.now m.msg_id m.time_value m.topic).0 ms

  abbrev pub cutoff : ℤ → ℤ
  cutoff now = now -ℤ pos (s.expiry * second)

  -- The database has a key for each id that was seen, and only those are indexed in the window.
  pub record Tracks (q : Text) (a b : ℤ) (db : r.Db) (seen : List Text) : Type 0 where
    pub keys : (i : Text) → is_none (r.get db (msg_key i)) ≡ not (known seen i)
    pub fresh : (i : Text) → known seen i ≡ false → hit a b (r.zscore db (topic_key q) i) ≡ 0

module _ (libs : Libs) (r : Redis) (s : RedisStore) (expires : 0 < s.expiry) where
  open r use {Db, zscore, zcount}

  module _ (db : Db) (now : ℤ) (i : Text) (epoch : ℤ) (received : Text) where
    abbrev set_key : Db × Bool
    set_key = r.set_nx_ex db (msg_key i) received s.expiry

    abbrev after : Db
    after = (store_epoch libs r s db now i epoch received).0

    -- A second arrival of an id leaves every count as it is.
    known-store_epoch :
        (q : Text) (a b : ℤ)
        → is_none (r.get db (msg_key i)) ≡ false
        → zcount after (topic_key q) a b ≡ zcount db (topic_key q) a b
    unfolding store_epoch
    known-store_epoch q a b h =
        let k' = starts_with-msg_key i in
        ground (
          arith,
          r.set_added db (msg_key i) received s.expiry k',
          r.zcount-set db (msg_key i) received s.expiry (topic_key q) a b k',
        )

    -- The first arrival of an id counts in each configured pattern that matches.
    new-store_epoch :
        (q : Text) (a b : ℤ)
        → is_none (r.get db (msg_key i)) ≡ true
        → any (λ p. text_eq p q) s.topics ≡ true
        → cutoff libs r s now <ℤ a
        → hit a b (zscore db (topic_key q) i) ≡ 0
        → zcount after (topic_key q) a b
          ≡ zcount db (topic_key q) a b
            + (if topic_matches libs q received && in_window a b epoch then 1 else 0)
    unfolding store_epoch
    new-store_epoch q a b h k c f =
        let k' = starts_with-msg_key i in
        ground (
          arith,
          k,
          f,
          r.set_added db (msg_key i) received s.expiry k',
          zcount-index_topics libs r s expires s.topics set_key.0 (cutoff libs r s now) i epoch
              received q a b c,
          r.zcount-set db (msg_key i) received s.expiry (topic_key q) a b k',
          r.zscore-set db (msg_key i) received s.expiry (topic_key q) i k',
        )

    get-store_epoch :
        (j : Text)
        → is_none (r.get after (msg_key j))
          ≡ (if text_eq i j then false else is_none (r.get db (msg_key j)))
    unfolding store_epoch
    get-store_epoch j =
        let k' = starts_with-msg_key i in
        ground (
          arith,
          r.set_added db (msg_key i) received s.expiry k',
          r.get-set db (msg_key i) received s.expiry (msg_key j) k',
          get-index_topics libs r s expires s.topics set_key.0 (cutoff libs r s now) i epoch
              received (msg_key j),
          msg_key_eq i j,
          text_eq_iff i j,
        )

    hit-store_epoch :
        (q m : Text) (a b : ℤ)
        → cutoff libs r s now <ℤ a
        → text_eq i m ≡ false
        → hit a b (zscore after (topic_key q) m) ≡ hit a b (zscore db (topic_key q) m)
    unfolding store_epoch
    hit-store_epoch q m a b c h =
        let k' = starts_with-msg_key i in
        ground (
          arith,
          r.set_added db (msg_key i) received s.expiry k',
          r.zscore-set db (msg_key i) received s.expiry (topic_key q) m k',
          hit-index_topics libs r s expires s.topics set_key.0 (cutoff libs r s now) i epoch
              received q m a b c h,
        )

    store_epoch-Tracks :
        (q : Text) (a b : ℤ) (seen : List Text)
        → cutoff libs r s now <ℤ a
        → Tracks libs r s q a b db seen
        → Tracks libs r s q a b after (i ∷ seen)
    store_epoch-Tracks q a b seen c t = record {
      keys = λ j. ground (arith, get-store_epoch j, t.keys j, text_eq_comm i j);
      fresh = λ j h. ground (arith, hit-store_epoch q j a b c, t.fresh j, text_eq_comm i j);
    }

    -- An id that was seen already adds nothing to what the database tracks.
    store_epoch-Tracks-known :
        (q : Text) (a b : ℤ) (seen : List Text)
        → known seen i ≡ true
        → Tracks libs r s q a b db seen
        → Tracks libs r s q a b after seen
    unfolding store_epoch
    store_epoch-Tracks-known q a b seen h t =
        let k' = starts_with-msg_key i in
        record {
          keys = λ j. ground (arith, get-store_epoch j, t.keys j, h, text_eq_iff i j);
          fresh = λ j k. ground (
            arith,
            r.set_added db (msg_key i) received s.expiry k',
            r.zscore-set db (msg_key i) received s.expiry (topic_key q) j k',
            t.keys i,
            t.fresh j k,
          );
        }

  -- For a configured topic, a store whose expiry is positive, and arrivals whose cutoff lies
  -- before the window, the baseline after the arrivals is what was counted before and the tally:
  -- each id that was not seen counts once, by its first arrival whose time parses, if that matches
  -- the topic and lies in the window. The database tracks the ids that were seen.
  pub count_messages-ingest :
      (q : Text) (a b : ℤ) (ms : List Arrival) (db : Db) (seen : List Text)
      → any (λ p. text_eq p q) s.topics ≡ true
      → All (λ m. cutoff libs r s m.now <ℤ a) ms
      → Tracks libs r s q a b db seen
      → count_messages libs r s (ingest libs r s db ms) q a b
        ≡ count_messages libs r s db q a b + tally libs q a b seen ms
  unfolding ingest tally count_messages store_message
  count_messages-ingest q a b [] db seen k c t = omega arith
  count_messages-ingest q a b (m ∷ ms) db seen k c t =
      elim (Option-cases (parse_time_to_epoch libs m.time_value)) [
        | inl bad ↦ ground (arith, bad, count_messages-ingest q a b ms db seen k c.1 t)
        | inr (epoch, good) ↦
            let db' = (store_epoch libs r s db m.now m.msg_id epoch m.topic).0 in
            elim (Bool-cases (known seen m.msg_id)) [
              | inl old ↦ ground (
                arith,
                good,
                old,
                count_messages-ingest q a b ms db' seen k c.1
                    (store_epoch-Tracks-known db m.now m.msg_id epoch m.topic q a b seen old t),
                known-store_epoch db m.now m.msg_id epoch m.topic q a b
                    (t.keys m.msg_id ∙ ap not old),
              )
              | inr new ↦ ground (
                arith,
                good,
                new,
                count_messages-ingest q a b ms db' (m.msg_id ∷ seen) k c.1
                    (store_epoch-Tracks db m.now m.msg_id epoch m.topic q a b seen c.0 t),
                new-store_epoch db m.now m.msg_id epoch m.topic q a b (t.keys m.msg_id ∙ ap not new)
                    k c.0 (t.fresh m.msg_id new),
              )
            ]
      ]

-- The ids that were seen after one more arrival.
pub seen_after : Libs → List Text → Arrival → List Text
seen_after libs seen m = elim (parse_time_to_epoch libs m.time_value) [
  | none ↦ seen
  | some epoch ↦ if known seen m.msg_id then seen else m.msg_id ∷ seen
]

pub tally_cons :
    (libs : Libs) (q : Text) (a b : ℤ) (seen : List Text) (m : Arrival) (ms : List Arrival)
    → tally libs q a b seen (m ∷ ms)
      ≡ tally libs q a b seen (m ∷ []) + tally libs q a b (seen_after libs seen m) ms
unfolding tally seen_after
tally_cons libs q a b seen m ms = ground arith

module _ (libs : Libs) (r : Redis) (s : RedisStore) (expires : 0 < s.expiry) where
  pub store_message-Tracks :
      (q : Text) (a b : ℤ) (m : Arrival) (db : r.Db) (seen : List Text)
      → cutoff libs r s m.now <ℤ a
      → Tracks libs r s q a b db seen
      → Tracks libs r s q a b
          (store_message libs r s db m.now m.msg_id m.time_value m.topic).0
          (seen_after libs seen m)
  unfolding seen_after store_message
  store_message-Tracks q a b m db seen c t =
      elim (Option-cases (parse_time_to_epoch libs m.time_value)) [
        | inl bad ↦ rw (bad, seen_after, store_message) t
        | inr (epoch, good) ↦ elim (Bool-cases (known seen m.msg_id)) [
          | inl old ↦
              rw (good, old, seen_after, store_message)
                (store_epoch-Tracks-known libs r s expires db m.now m.msg_id epoch m.topic q a b
                  seen old t)
          | inr new ↦
              rw (good, new, seen_after, store_message)
                (store_epoch-Tracks libs r s expires db m.now m.msg_id epoch m.topic q a b seen c t)
        ]
      ]
