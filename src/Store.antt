-- ===== src/Store.antt =====
-- scgrep/redis_store.py: the store of broker messages, replayed messages and fetched messages in
-- Redis. Each method takes the database and returns the new one. The server answers every command:
-- connection errors are not modelled. Times are microseconds, as the scores are.
pub mod Keys
pub mod Index
pub mod Member
pub mod Baseline
pub mod Replay
pub mod Sync
pub mod Isolation
pub mod Lifetime
pub mod Address
pub mod Scores
mod Tests
use scgrep.Prelude.{
  ℕ, zero, suc, ◌*◌, ℤ, pos, ◌-ℤ◌, Bool, true, false, ◌||◌, Option, none, some, List, [], ◌∷◌, ◌++◌,
  map, if◌then◌else◌, is_empty,
}
use scgrep.Text.{Text, codes}
use scgrep.Libs.{Libs}
use scgrep.Util.{parse_time_to_epoch, topic_matches}
use scgrep.Redis.{Redis, msg_prefix}

-- The fields `_expiry`, in seconds, and `_topics`.
pub record RedisStore : Type 0 where
  pub expiry : ℕ
  pub topics : List Text

abbrev pub second : ℕ
second = 1000000

abbrev pub topic_prefix : Text
topic_prefix = codes "scgrep:topic:"

abbrev pub replay_prefix : Text
replay_prefix = codes "scgrep:replay:"

abbrev pub sync_prefix : Text
sync_prefix = codes "scgrep:sync:"

pub msg_key : Text → Text
msg_key msg_id = msg_prefix ++ msg_id

pub topic_key : Text → Text
topic_key pattern = topic_prefix ++ pattern

-- _replay_key
pub replay_key : Text → Text → Text
replay_key centre_id pattern = replay_prefix ++ (centre_id ++ (b':' ∷ pattern))

-- _sync_key
pub sync_key : Text → Text → Text
sync_key centre_id pattern = sync_prefix ++ (centre_id ++ (b':' ∷ pattern))

-- [key(centre_id, pattern) for centre_id in centre_ids for pattern in topics]
pub keys_of : (Text → Text → Text) → List Text → List Text → List Text
keys_of key [] topics = []
keys_of key (centre_id ∷ centre_ids) topics =
    map (key centre_id) topics ++ keys_of key centre_ids topics

module _ (libs : Libs) (r : Redis) (s : RedisStore) where
  -- The pipeline of store_message for one pattern.
  pub index_topic : r.Db → ℤ → Text → ℤ → Text → r.Db
  index_topic db cutoff msg_id epoch pattern =
      let key = topic_key pattern in
      r.expire (r.zremrangebyscore (r.zadd db key msg_id epoch).0 key cutoff) key s.expiry

  pub index_topics : r.Db → ℤ → Text → ℤ → Text → List Text → r.Db
  index_topics db cutoff msg_id epoch received [] = db
  index_topics db cutoff msg_id epoch received (pattern ∷ patterns) =
      index_topics
        (if topic_matches libs pattern received
          then index_topic db cutoff msg_id epoch pattern
          else db)
        cutoff msg_id epoch received patterns

  pub store_epoch : r.Db → ℤ → Text → ℤ → Text → r.Db × Bool
  store_epoch db now msg_id epoch received =
      let (db', is_new) = r.set_nx_ex db (msg_key msg_id) received s.expiry in
      if is_new
      then (index_topics db' (now -ℤ pos (s.expiry * second)) msg_id epoch received s.topics, true)
      else (db', false)

  -- `now` is what time.time() returns.
  pub store_message : r.Db → ℤ → Text → Text → Text → r.Db × Bool
  store_message db now msg_id time_value received = elim (parse_time_to_epoch libs time_value) [
    | none ↦ (db, false)
    | some epoch ↦ store_epoch db now msg_id epoch received
  ]

  pub count_messages : r.Db → Text → ℤ → ℤ → ℕ
  count_messages db pattern start_epoch end_epoch =
      r.zcount db (topic_key pattern) start_epoch end_epoch

  -- The pipeline of store_replay_message and store_sync_message for one key.
  pub add_member : r.Db → Text → Text → ℤ → r.Db × Bool
  add_member db key msg_id epoch =
      let (db', added) = r.zadd db key msg_id epoch in (r.expire db' key s.expiry, added)

  pub replay_topics : r.Db → Text → Text → ℤ → Text → List Text → Bool → r.Db × Bool
  replay_topics db centre_id msg_id epoch original [] newly_added = (db, newly_added)
  replay_topics db centre_id msg_id epoch original (pattern ∷ patterns) newly_added =
      let step : r.Db × Bool =
        if topic_matches libs pattern original
        then add_member db (replay_key centre_id pattern) msg_id epoch
        else (db, false) in
      replay_topics step.0 centre_id msg_id epoch original patterns (newly_added || step.1)

  unfoldable pub store_replay_message : r.Db → Text → Text → Text → Text → r.Db × Bool
  store_replay_message db centre_id msg_id time_value original =
      elim (parse_time_to_epoch libs time_value) [
        | none ↦ (db, false)
        | some epoch ↦ replay_topics db centre_id msg_id epoch original s.topics false
      ]

  unfoldable pub count_replay_messages : r.Db → Text → Text → ℤ → ℤ → ℕ
  count_replay_messages db centre_id pattern start_epoch end_epoch =
      r.zcount db (replay_key centre_id pattern) start_epoch end_epoch

  unfoldable pub delete_keys : r.Db → List Text → r.Db
  delete_keys db keys = if is_empty keys then db else r.delete db keys

  unfoldable pub clear_replay : r.Db → List Text → r.Db
  clear_replay db centre_ids = delete_keys db (keys_of replay_key centre_ids s.topics)

  unfoldable pub store_sync_message : r.Db → Text → Text → Text → Text → r.Db × Bool
  store_sync_message db centre_id pattern msg_id time_value =
      elim (parse_time_to_epoch libs time_value) [
        | none ↦ (db, false)
        | some epoch ↦ add_member db (sync_key centre_id pattern) msg_id epoch
      ]

  unfoldable pub count_sync_messages : r.Db → Text → Text → ℤ → ℤ → ℕ
  count_sync_messages db centre_id pattern start_epoch end_epoch =
      r.zcount db (sync_key centre_id pattern) start_epoch end_epoch

  unfoldable pub clear_sync : r.Db → List Text → r.Db
  clear_sync db centre_ids = delete_keys db (keys_of sync_key centre_ids s.topics)
