-- ===== src/Redis.antt =====
-- The Redis server as the program uses it: the commands of redis_store.py as operations on an
-- abstract database, with what the Redis documentation says of each command as laws.
-- A key that starts with `scgrep:msg:` holds a string and every other key a sorted set, so no
-- command meets a value of the wrong type. Scores are microseconds. Time does not pass inside a
-- command, and a time to live is given in seconds and is not 0.
pub mod Window
use scgrep.Prelude.{
  ℕ, ◌+◌, ◌<◌, ℤ, ◌≤ℤ◌, ◌<ℤ◌, leb_ℤ, ltb_ℤ, ◌≡◌, Bool, true, false, not, ◌&&◌, ◌||◌, Option, none,
  some, List, any, if◌then◌else◌,
}
pub use Window.{msg_prefix, is_none, in_window, hit, prune, or_else}
use scgrep.Text.{Text, text_eq, starts_with}

pub record Redis : Type 1 where
  pub Db : Type 0
  -- GET key, ZSCORE key member, EXISTS key and TTL key
  pub get : Db → Text → Option Text
  pub zscore : Db → Text → Text → Option ℤ
  pub present : Db → Text → Bool
  pub ttl : Db → Text → Option ℕ
  -- SET key value NX EX seconds, with whether it was set
  pub set_nx_ex : Db → Text → Text → ℕ → Db × Bool
  -- ZADD key score member, with whether a member was added
  pub zadd : Db → Text → Text → ℤ → Db × Bool
  -- ZREMRANGEBYSCORE key -inf cutoff
  pub zremrangebyscore : Db → Text → ℤ → Db
  -- EXPIRE key seconds
  pub expire : Db → Text → ℕ → Db
  -- ZCOUNT key start (end
  pub zcount : Db → Text → ℤ → ℤ → ℕ
  -- DEL key ...
  pub delete : Db → List Text → Db
  pub set_added :
      (db : Db) (k v : Text) (t : ℕ)
      → starts_with k msg_prefix ≡ true
      → (set_nx_ex db k v t).1 ≡ is_none (get db k)
  pub get-set :
      (db : Db) (k v : Text) (t : ℕ) (j : Text)
      → starts_with k msg_prefix ≡ true
      → get (set_nx_ex db k v t).0 j ≡ (if text_eq k j then or_else (get db k) v else get db j)
  pub zscore-set :
      (db : Db) (k v : Text) (t : ℕ) (j m : Text)
      → starts_with k msg_prefix ≡ true
      → zscore (set_nx_ex db k v t).0 j m ≡ zscore db j m
  pub zcount-set :
      (db : Db) (k v : Text) (t : ℕ) (j : Text) (a b : ℤ)
      → starts_with k msg_prefix ≡ true
      → zcount (set_nx_ex db k v t).0 j a b ≡ zcount db j a b
  pub present-set :
      (db : Db) (k v : Text) (t : ℕ) (j : Text)
      → starts_with k msg_prefix ≡ true
      → present (set_nx_ex db k v t).0 j ≡ (text_eq k j || present db j)
  pub ttl-set :
      (db : Db) (k v : Text) (t : ℕ) (j : Text)
      → starts_with k msg_prefix ≡ true
      → ttl (set_nx_ex db k v t).0 j
        ≡ (if text_eq k j && is_none (get db k) then some t else ttl db j)
  pub present-get :
      (db : Db) (k : Text)
      → starts_with k msg_prefix ≡ true
      → present db k ≡ not (is_none (get db k))
  pub zadd_added :
      (db : Db) (k m : Text) (s : ℤ)
      → starts_with k msg_prefix ≡ false
      → (zadd db k m s).1 ≡ is_none (zscore db k m)
  pub get-zadd :
      (db : Db) (k m : Text) (s : ℤ) (j : Text)
      → starts_with k msg_prefix ≡ false
      → get (zadd db k m s).0 j ≡ get db j
  pub zscore-zadd :
      (db : Db) (k m : Text) (s : ℤ) (j n : Text)
      → starts_with k msg_prefix ≡ false
      → zscore (zadd db k m s).0 j n
        ≡ (if text_eq k j && text_eq m n then some s else zscore db j n)
  -- Members are unique: a member that is there already moves, and is not counted twice.
  pub zcount-zadd :
      (db : Db) (k m : Text) (s a b : ℤ)
      → starts_with k msg_prefix ≡ false
      → zcount (zadd db k m s).0 k a b + hit a b (zscore db k m)
        ≡ zcount db k a b + hit a b (some s)
  pub zcount-zadd_ne :
      (db : Db) (k m : Text) (s : ℤ) (j : Text) (a b : ℤ)
      → starts_with k msg_prefix ≡ false
      → text_eq k j ≡ false
      → zcount (zadd db k m s).0 j a b ≡ zcount db j a b
  pub present-zadd :
      (db : Db) (k m : Text) (s : ℤ) (j : Text)
      → starts_with k msg_prefix ≡ false
      → present (zadd db k m s).0 j ≡ (text_eq k j || present db j)
  pub ttl-zadd :
      (db : Db) (k m : Text) (s : ℤ) (j : Text)
      → starts_with k msg_prefix ≡ false
      → ttl (zadd db k m s).0 j ≡ ttl db j
  pub get-zrem :
      (db : Db) (k : Text) (c : ℤ) (j : Text)
      → starts_with k msg_prefix ≡ false
      → get (zremrangebyscore db k c) j ≡ get db j
  pub zscore-zrem :
      (db : Db) (k : Text) (c : ℤ) (j n : Text)
      → starts_with k msg_prefix ≡ false
      → zscore (zremrangebyscore db k c) j n
        ≡ (if text_eq k j then prune c (zscore db j n) else zscore db j n)
  -- A window that begins above the cutoff loses nothing.
  pub zcount-zrem :
      (db : Db) (k : Text) (c : ℤ) (j : Text) (a b : ℤ)
      → starts_with k msg_prefix ≡ false
      → c <ℤ a
      → zcount (zremrangebyscore db k c) j a b ≡ zcount db j a b
  pub zcount-zrem_ne :
      (db : Db) (k : Text) (c : ℤ) (j : Text) (a b : ℤ)
      → starts_with k msg_prefix ≡ false
      → text_eq k j ≡ false
      → zcount (zremrangebyscore db k c) j a b ≡ zcount db j a b
  -- A set that becomes empty is gone, and a key that stays keeps its time to live.
  pub zrem-present :
      (db : Db) (k : Text) (c : ℤ) (j : Text)
      → starts_with k msg_prefix ≡ false
      → present (zremrangebyscore db k c) j ≡ true
      → (present db j ≡ true) × (ttl (zremrangebyscore db k c) j ≡ ttl db j)
  pub get-expire :
      (db : Db) (k : Text) (t : ℕ) (j : Text) → 0 < t → get (expire db k t) j ≡ get db j
  pub zscore-expire :
      (db : Db) (k : Text) (t : ℕ) (j n : Text) → 0 < t → zscore (expire db k t) j n ≡ zscore db j n
  pub zcount-expire :
      (db : Db) (k : Text) (t : ℕ) (j : Text) (a b : ℤ)
      → 0 < t
      → zcount (expire db k t) j a b ≡ zcount db j a b
  pub present-expire :
      (db : Db) (k : Text) (t : ℕ) (j : Text) → 0 < t → present (expire db k t) j ≡ present db j
  pub ttl-expire :
      (db : Db) (k : Text) (t : ℕ) (j : Text)
      → 0 < t
      → ttl (expire db k t) j ≡ (if text_eq k j && present db k then some t else ttl db j)
  pub get-delete :
      (db : Db) (ks : List Text) (j : Text)
      → get (delete db ks) j ≡ (if any (λ k. text_eq k j) ks then none else get db j)
  pub zscore-delete :
      (db : Db) (ks : List Text) (j n : Text)
      → zscore (delete db ks) j n ≡ (if any (λ k. text_eq k j) ks then none else zscore db j n)
  pub zcount-delete :
      (db : Db) (ks : List Text) (j : Text) (a b : ℤ)
      → zcount (delete db ks) j a b ≡ (if any (λ k. text_eq k j) ks then 0 else zcount db j a b)
  pub delete-present :
      (db : Db) (ks : List Text) (j : Text)
      → present (delete db ks) j ≡ true
      → (present db j ≡ true) × (ttl (delete db ks) j ≡ ttl db j)
