-- ===== src/Store/Member.antt =====
-- Adding one member to one sorted set, as store_replay_message and store_sync_message do, and
-- clearing sets.
use scgrep.Prelude.{
  ◌+◌, ◌<◌, ℤ, ◌≡◌, refl, inl, inr, false, ◌&&◌, some, List, [], ◌∷◌, any, arith, if◌then◌else◌,
}
use scgrep.Text.{Text, text_eq, starts_with}
use scgrep.Text.Laws.{text_eq_refl, text_eq_cases}
use scgrep.Libs.{Libs}
use scgrep.Redis.{Redis, msg_prefix, hit, is_none}
use scgrep.Store.{RedisStore, add_member, delete_keys}

module _ (libs : Libs) (r : Redis) (s : RedisStore) (expires : 0 < s.expiry) where
  open r use {Db, zscore, zcount}

  module _ (db : Db) (k i : Text) (epoch : ℤ) (index : starts_with k msg_prefix ≡ false) where
    abbrev pub added : Db
    added = (r.zadd db k i epoch).0

    pub add_member_new : (add_member libs r s db k i epoch).1 ≡ is_none (zscore db k i)
    unfolding add_member
    add_member_new = r.zadd_added db k i epoch index

    pub zscore-add_member :
        (j n : Text)
        → zscore (add_member libs r s db k i epoch).0 j n
          ≡ (if text_eq k j && text_eq i n then some epoch else zscore db j n)
    unfolding add_member
    zscore-add_member j n =
        ground (
          arith,
          r.zscore-expire added k s.expiry j n expires,
          r.zscore-zadd db k i epoch j n index,
        )

    pub zcount-add_member :
        (j : Text) (a b : ℤ)
        → zcount (add_member libs r s db k i epoch).0 j a b
            + (if text_eq k j then hit a b (zscore db j i) else 0)
          ≡ zcount db j a b + (if text_eq k j then hit a b (some epoch) else 0)
    unfolding add_member
    zcount-add_member j a b =
        let kept = r.zcount-expire added k s.expiry j a b expires in
        elim (text_eq_cases k j) [
          | inl e ↦ ground (arith, kept, e, text_eq_refl k, r.zcount-zadd db k i epoch a b index)
          | inr e ↦ ground (arith, kept, e.0, r.zcount-zadd_ne db k i epoch j a b index e.0)
        ]

    pub get-add_member : (j : Text) → r.get (add_member libs r s db k i epoch).0 j ≡ r.get db j
    unfolding add_member
    get-add_member j =
        ground (arith, r.get-expire added k s.expiry j expires, r.get-zadd db k i epoch j index)

  -- The keys that are cleared count nothing, and the others what they did.
  pub zcount-delete_keys :
      (db : Db) (ks : List Text) (j : Text) (a b : ℤ)
      → zcount (delete_keys libs r s db ks) j a b
        ≡ (if any (λ k. text_eq k j) ks then 0 else zcount db j a b)
  unfolding delete_keys
  zcount-delete_keys db [] j a b = refl
  zcount-delete_keys db (k ∷ ks) j a b = r.zcount-delete db (k ∷ ks) j a b
