-- ===== src/Cycle/Fetched.antt =====
-- The messages fetched that run_cycle (scgrep/test_cycle.py) publishes: what `_count_of` reads from the
-- database after the calls that all threads made since the clean sheet.
use scgrep.Prelude.{ℕ, ◌<◌, pos, ◌≡◌, inl, inr, true, false, List, any, All, arith, if◌then◌else◌}
use scgrep.Text.{Text, text_eq, has_char}
use scgrep.Libs.{Libs}
use scgrep.Redis.{Redis}
use scgrep.Store.{RedisStore}
use scgrep.Config.{Config}
use scgrep.Fetch.{Protocol, http, mqtt, FetchResult}
use scgrep.Commands.{Command, PlainCentre, fetched_entry, replayed_entry, run_commands, entries}
use scgrep.Commands.Latest.{latest_tally}
use scgrep.Commands.Fresh.{count_sync-run_commands, count_replay-run_commands}
use scgrep.Cycle.{Window, recount, clean}
use scgrep.Cycle.Results.{Protocol-cases}

-- The number of ids that the calls stored for the protocol, whose last time lies in the window.
abbrev pub stored_count : Libs → List Text → Text → Text → Window → List Command → Protocol → ℕ
stored_count libs topics centre_id topic w xs protocol = elim protocol [
  | http ↦ latest_tally w.start_epoch w.end_epoch (entries (fetched_entry libs centre_id topic) xs)
  | mqtt ↦
      latest_tally w.start_epoch w.end_epoch
        (entries (replayed_entry libs topics centre_id topic) xs)
]

module _ (libs : Libs) (r : Redis) (s : RedisStore) where
  -- For a listed centre without a colon, a configured topic and a positive expiry: after any calls of
  -- the threads since the clean sheet, for centres without a colon, a result that did not abort is
  -- counted as the number of ids that were stored for its protocol, its centre and its topic and
  -- whose last time lies in the window; a result that aborted is left as it is.
  pub recount-run_commands :
      0 < s.expiry
      → (c : Config) (db : r.Db) (w : Window) (centre_id topic : Text) (xs : List Command)
        (res : FetchResult)
      → any (text_eq centre_id) c.replay_centre_ids ≡ true
      → any (text_eq topic) s.topics ≡ true
      → has_char b':' centre_id ≡ false
      → All PlainCentre xs
      → recount libs r s (run_commands libs r s (clean libs r s c db) xs) w centre_id topic res ≡ (
          if res.aborted then res else record res {
            messages_fetched = pos (stored_count libs s.topics centre_id topic w xs res.protocol);
          })
  unfolding recount clean
  recount-run_commands expires c db w centre_id topic xs res listed configured plain plains =
      let ids = c.replay_centre_ids in
      elim (Protocol-cases res.protocol) [
        | inl e ↦ ground (
          arith,
          e,
          count_sync-run_commands libs r s expires db ids centre_id topic listed configured plain xs
              plains w.start_epoch w.end_epoch,
        )
        | inr e ↦ ground (
          arith,
          e,
          count_replay-run_commands libs r s expires db ids centre_id topic listed configured plain
              xs plains w.start_epoch w.end_epoch,
        )
      ]
