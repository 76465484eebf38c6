-- ===== src/Commands/Fresh.antt =====
-- The counts of a cycle: from the clean sheet (clear_replay and clear_sync of scgrep/redis_store.py) on.
use scgrep.Prelude.{
  ◌<◌, ℤ, ◌≡◌, ◌∙◌, refl, true, false, none, List, [], ◌∷◌, any, All, arith, if◌then◌else◌,
}
use scgrep.Text.{Text, text_eq, has_char}
use scgrep.Libs.{Libs}
use scgrep.Redis.{Redis}
use scgrep.Store.{
  RedisStore, replay_key, sync_key, clear_replay, clear_sync, delete_keys, keys_of,
  count_replay_messages, count_sync_messages,
}
use scgrep.Store.Keys.{keys_of-covers}
use scgrep.Store.Replay.{count_replay-clear_replay}
use scgrep.Store.Sync.{count_sync-clear_sync}
use scgrep.Store.Isolation.{replay_isolated}
use scgrep.Commands.{Command, PlainCentre, fetched_entry, replayed_entry, run_commands, entries}
use scgrep.Commands.Latest.{latest_tally}
use scgrep.Commands.Refine.{zcount-fresh}
use scgrep.Commands.Counts.{fetched-Follows, replayed-Follows}

module _ (libs : Libs) (r : Redis) (s : RedisStore) (expires : 0 < s.expiry) where
  open r use {Db, zscore, zcount}

  zscore-delete_keys :
      (db : Db) (ks : List Text) (j m : Text)
      → zscore (delete_keys libs r s db ks) j m
        ≡ (if any (λ k. text_eq k j) ks then none else zscore db j m)
  unfolding delete_keys
  zscore-delete_keys db [] j m = refl
  zscore-delete_keys db (k ∷ ks) j m = r.zscore-delete db (k ∷ ks) j m

  -- Both clears, one after the other, as a cycle makes them.
  abbrev pub cleared : Db → List Text → Db
  cleared db ids = clear_sync libs r s (clear_replay libs r s db ids) ids

  module _ (db : Db) (ids : List Text) (c q : Text) (listed : any (text_eq c) ids ≡ true)
      (configured : any (text_eq q) s.topics ≡ true) where
    zscore_sync-cleared : (m : Text) → zscore (cleared db ids) (sync_key c q) m ≡ none
    unfolding clear_sync
    zscore_sync-cleared m = ground (
      arith,
      zscore-delete_keys (clear_replay libs r s db ids) (keys_of sync_key ids s.topics)
          (sync_key c q) m,
      keys_of-covers sync_key c q ids s.topics listed configured,
    )

    zscore_replay-cleared : (m : Text) → zscore (cleared db ids) (replay_key c q) m ≡ none
    unfolding clear_sync clear_replay
    zscore_replay-cleared m = ground (
      arith,
      zscore-delete_keys (clear_replay libs r s db ids) (keys_of sync_key ids s.topics)
          (replay_key c q) m,
      zscore-delete_keys db (keys_of replay_key ids s.topics) (replay_key c q) m,
      keys_of-covers replay_key c q ids s.topics listed configured,
    )

    module _ (plain : has_char b':' c ≡ false) (xs : List Command) (plains : All PlainCentre xs)
        (a b : ℤ) where
      -- After any sequence of calls that follows the clean sheet, the synchronous count of a centre and
      -- a topic is the number of ids that were fetched for them and whose last time lies in the window.
      pub count_sync-run_commands :
          count_sync_messages libs r s (run_commands libs r s (cleared db ids) xs) c q a b
          ≡ latest_tally a b (entries (fetched_entry libs c q) xs)
      unfolding count_sync_messages
      count_sync-run_commands =
          zcount-fresh libs r s (sync_key c q) a b (fetched_entry libs c q) PlainCentre
            (fetched-Follows libs r s expires c q a b plain) xs (cleared db ids) plains
            (count_sync-clear_sync libs r s expires (clear_replay libs r s db ids) ids c q a b
              listed configured)
            zscore_sync-cleared

      -- Likewise the count of the replayed messages is the number of ids that the centre replayed on a
      -- matching topic and whose last time lies in the window.
      pub count_replay-run_commands :
          count_replay_messages libs r s (run_commands libs r s (cleared db ids) xs) c q a b
          ≡ latest_tally a b (entries (replayed_entry libs s.topics c q) xs)
      unfolding count_replay_messages
      count_replay-run_commands =
          zcount-fresh libs r s (replay_key c q) a b (replayed_entry libs s.topics c q) PlainCentre
            (replayed-Follows libs r s expires c q a b plain) xs (cleared db ids) plains
            ((replay_isolated libs r s expires (clear_replay libs r s db ids) a q c c q [] [] [] ids
                a b).4
              ∙ count_replay-clear_replay libs r s expires db ids c q a b listed configured)
            zscore_replay-cleared
