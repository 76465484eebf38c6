-- ===== src/Store/Index.antt =====
-- What indexing one message does to the counts of a pattern.
use scgrep.Prelude.{
  ◌+◌, ◌<◌, ℤ, ◌<ℤ◌, ◌≡◌, refl, ap, inl, inr, false, ◌&&◌, Option, none, some, List, [], ◌∷◌, any,
  arith, Bool-cases, if◌then◌else◌,
}
use scgrep.Text.{Text, text_eq}
use scgrep.Text.Laws.{text_eq_refl, text_eq_cases, eq_of_text_eq}
use scgrep.Libs.{Libs}
use scgrep.Util.{topic_matches}
use scgrep.Redis.{Redis, hit, prune}
use scgrep.Store.{RedisStore, topic_key, index_topic, index_topics}
use scgrep.Store.Keys.{starts_with-topic_key, topic_key_eq}

-- The score of a member that survives the cutoff counts the same in a window above it.
pub hit-prune : (a b c : ℤ) (o : Option ℤ) → c <ℤ a → hit a b (prune c o) ≡ hit a b o
hit-prune a b c none h = refl
hit-prune a b c (some s) h = ground arith

module _ (libs : Libs) (r : Redis) (s : RedisStore) (expires : 0 < s.expiry) where
  open r use {Db, zscore, zcount}

  module _ (db : Db) (c : ℤ) (i : Text) (epoch : ℤ) where
    zscore-index_topic :
        (p q m : Text)
        → zscore (index_topic libs r s db c i epoch p) (topic_key q) m ≡ (
            if text_eq p q
            then prune c (if text_eq i m then some epoch else zscore db (topic_key q) m)
            else zscore db (topic_key q) m)
    unfolding index_topic
    zscore-index_topic p q m =
        let key = topic_key p in
        let j = topic_key q in
        let added = (r.zadd db key i epoch).0 in
        ground (
          arith,
          r.zscore-expire (r.zremrangebyscore added key c) key s.expiry j m expires,
          r.zscore-zrem added key c j m (starts_with-topic_key p),
          r.zscore-zadd db key i epoch j m (starts_with-topic_key p),
          topic_key_eq p q,
        )

    zcount-index_topic :
        (p q : Text) (a b : ℤ)
        → c <ℤ a
        → zcount (index_topic libs r s db c i epoch p) (topic_key q) a b
            + (if text_eq p q then hit a b (zscore db (topic_key q) i) else 0)
          ≡ zcount db (topic_key q) a b + (if text_eq p q then hit a b (some epoch) else 0)
    unfolding index_topic
    zcount-index_topic p q a b h =
        let key = topic_key p in
        let added = (r.zadd db key i epoch).0 in
        let n = starts_with-topic_key p in
        let expired =
          r.zcount-expire (r.zremrangebyscore added key c) key s.expiry (topic_key q) a b expires in
        let pruned = r.zcount-zrem added key c (topic_key q) a b n h in
        elim (text_eq_cases p q) [
          | inl e ↦ ground (
            arith,
            expired,
            pruned,
            r.zcount-zadd db key i epoch a b n,
            ap topic_key e,
            e,
            text_eq_refl q,
          )
          | inr e ↦ ground (
            arith,
            expired,
            pruned,
            e.0,
            topic_key_eq p q,
            r.zcount-zadd_ne db key i epoch (topic_key q) a b n,
          )
        ]

  -- A pattern gains the message exactly if it is configured and matches; a member that was there
  -- already is moved.
  pub zcount-index_topics :
      (ts : List Text) (db : Db) (c : ℤ) (i : Text) (epoch : ℤ) (received q : Text) (a b : ℤ)
      → c <ℤ a
      → zcount (index_topics libs r s db c i epoch received ts) (topic_key q) a b
          + (if any (λ p. text_eq p q) ts && topic_matches libs q received
              then hit a b (zscore db (topic_key q) i)
              else 0)
        ≡ zcount db (topic_key q) a b
          + (if any (λ p. text_eq p q) ts && topic_matches libs q received
              then hit a b (some epoch)
              else 0)
  unfolding index_topics
  zcount-index_topics [] db c i epoch received q a b h = refl
  zcount-index_topics (p ∷ ts) db c i epoch received q a b h =
      let db' = index_topic libs r s db c i epoch p in
      let rest = zcount-index_topics ts db c i epoch received q a b h in
      let rest' = zcount-index_topics ts db' c i epoch received q a b h in
      elim (Bool-cases (topic_matches libs p received)) [
        | inl m ↦ rw m (
            ground (
              arith,
              rest',
              m,
              zcount-index_topic db c i epoch p q a b h,
              zscore-index_topic db c i epoch p q i,
              text_eq_refl i,
              hit-prune a b c (some epoch) h,
              eq_of_text_eq p q,
            ))
        | inr m ↦ rw m (ground (arith, rest, m, eq_of_text_eq p q))
      ]

  -- Other members keep their scores, up to the cutoff.
  pub hit-index_topics :
      (ts : List Text) (db : Db) (c : ℤ) (i : Text) (epoch : ℤ) (received q m : Text) (a b : ℤ)
      → c <ℤ a
      → text_eq i m ≡ false
      → hit a b (zscore (index_topics libs r s db c i epoch received ts) (topic_key q) m)
        ≡ hit a b (zscore db (topic_key q) m)
  unfolding index_topics
  hit-index_topics [] db c i epoch received q m a b h k = refl
  hit-index_topics (p ∷ ts) db c i epoch received q m a b h k =
      let db' = index_topic libs r s db c i epoch p in
      let rest = hit-index_topics ts db c i epoch received q m a b h k in
      let rest' = hit-index_topics ts db' c i epoch received q m a b h k in
      elim (Bool-cases (topic_matches libs p received)) [
        | inl y ↦ rw y (
            ground (
              arith,
              rest',
              zscore-index_topic db c i epoch p q m,
              hit-prune a b c (zscore db (topic_key q) m) h,
            ))
        | inr n ↦ rw n rest
      ]

  -- The string keys are left alone.
  pub get-index_topics :
      (ts : List Text) (db : Db) (c : ℤ) (i : Text) (epoch : ℤ) (received j : Text)
      → r.get (index_topics libs r s db c i epoch received ts) j ≡ r.get db j
  unfolding index_topics index_topic
  get-index_topics [] db c i epoch received j = refl
  get-index_topics (p ∷ ts) db c i epoch received j =
      let key = topic_key p in
      let added = (r.zadd db key i epoch).0 in
      ground (
        arith,
        get-index_topics ts db c i epoch received j,
        get-index_topics ts (index_topic libs r s db c i epoch p) c i epoch received j,
        r.get-expire (r.zremrangebyscore added key c) key s.expiry j expires,
        r.get-zrem added key c j (starts_with-topic_key p),
        r.get-zadd db key i epoch j (starts_with-topic_key p),
      )
