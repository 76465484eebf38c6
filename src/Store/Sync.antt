-- ===== src/Store/Sync.antt =====
-- store_sync_message, count_sync_messages and clear_sync of scgrep/redis_store.py.
use scgrep.Prelude.{
  ◌+◌, ◌<◌, ℤ, ◌≡◌, true, not, ◌&&◌, List, ◌∷◌, any, arith, inl, inr, Option-cases, if◌then◌else◌,
}
use scgrep.Text.{Text, text_eq}
use scgrep.Text.Laws.{text_eq-append_left}
use scgrep.Libs.{Libs}
use scgrep.Util.{parse_time_to_epoch}
use scgrep.Redis.{Redis, hit, is_none}
use scgrep.Store.{
  RedisStore, sync_key, store_sync_message, count_sync_messages, clear_sync, keys_of,
}
use scgrep.Store.Keys.{starts_with-sync_key, keys_of-covers}
use scgrep.Store.Member.{add_member_new, zcount-add_member, zcount-delete_keys}

same_centre : (c p q : Text) → text_eq (sync_key c p) (sync_key c q) ≡ text_eq p q
unfolding sync_key text_eq
same_centre c p q = text_eq-append_left c (b':' ∷ p) (b':' ∷ q)

module _ (libs : Libs) (r : Redis) (s : RedisStore) (expires : 0 < s.expiry) where
  open r use {Db, zscore, zcount}

  -- With a positive expiry, a fetched message counts in its own pattern of its centre alone, once
  -- however often it is paged, and the result says whether the id is new there; with a time that
  -- does not parse no count changes.
  pub count_sync-store_sync :
      (db : Db) (c p i time_value q : Text) (a b : ℤ)
      → let after = store_sync_message libs r s db c p i time_value in
        let parsed = parse_time_to_epoch libs time_value in
        (count_sync_messages libs r s after.0 c q a b
            + (if text_eq p q && not (is_none parsed)
                then hit a b (zscore db (sync_key c q) i)
                else 0)
          ≡ count_sync_messages libs r s db c q a b + (if text_eq p q then hit a b parsed else 0))
        × (after.1 ≡ (not (is_none parsed) && is_none (zscore db (sync_key c p) i)))
  unfolding count_sync_messages store_sync_message
  count_sync-store_sync db c p i time_value q a b =
      elim (Option-cases (parse_time_to_epoch libs time_value)) [
        | inl e ↦ (ground (arith, e), ground (arith, e))
        | inr (epoch, e) ↦
            let n = starts_with-sync_key c p in
            let k = sync_key c p in
            (
              ground (
                arith,
                e,
                zcount-add_member libs r s expires db k i epoch n (sync_key c q) a b,
                same_centre c p q,
              ),
              ground (arith, e, add_member_new libs r s expires db k i epoch n),
            )
      ]

  -- With a positive expiry, after clear_sync every listed centre has an empty count for every
  -- configured topic.
  pub count_sync-clear_sync :
      (db : Db) (cs : List Text) (c q : Text) (a b : ℤ)
      → any (text_eq c) cs ≡ true
      → any (text_eq q) s.topics ≡ true
      → count_sync_messages libs r s (clear_sync libs r s db cs) c q a b ≡ 0
  unfolding count_sync_messages clear_sync
  count_sync-clear_sync db cs c q a b h k =
      let keys = keys_of sync_key cs s.topics in
      ground (
        arith,
        zcount-delete_keys libs r s expires db keys (sync_key c q) a b,
        keys_of-covers sync_key c q cs s.topics h k,
      )
