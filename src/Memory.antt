-- ===== src/Memory.antt =====
-- A database in memory with the laws of `Redis`: it shows that the laws can hold together, and it
-- runs in the tests.
mod Entries
use scgrep.Prelude.{
  ℕ, ◌+◌, ℤ, ◌≡◌, refl, Bool, true, false, not, ◌&&◌, ◌||◌, Option, none, some, List, [], ◌∷◌, any,
  arith, if◌then◌else◌, Bool-cases,
}
use scgrep.Text.{Text, text_eq, starts_with}
use scgrep.Text.Laws.{text_eq_iff, text_eq_refl}
use scgrep.Redis.{Redis, msg_prefix, is_none, in_window, hit, prune, or_else}
use Entries.{
  Entry, find, has_key, count, reject, Distinct, below, of_keys, reject-Distinct, find-reject-at,
  count-reject-at, count-reject-at_ne, has_key-reject, has_key-reject-at, find-reject_below,
  count-reject_below, count-reject_below_ne, find-reject_keys, count-reject_keys,
}

pub record Db : Type 0 where
  pub strings : Text → Option Text
  pub times : Text → Option ℕ
  pub entries : List Entry
  pub distinct : Distinct entries

abbrev pub update {ℓ} : {A : Type ℓ} → (Text → A) → Text → A → Text → A
update f k v j = if text_eq k j then v else f j

abbrev pub held : (Text → Option Text) → List Entry → Text → Bool
held strings entries j =
    if starts_with j msg_prefix then not (is_none (strings j)) else has_key j entries

abbrev pub set_db : Db → Text → Text → ℕ → Db
set_db db k v t = record {
  strings = update db.strings k (or_else (db.strings k) v);
  times = update db.times k (if is_none (db.strings k) then some t else db.times k);
  entries = db.entries;
  distinct = db.distinct;
}

abbrev pub zadd_entries : Db → Text → Text → ℤ → List Entry
zadd_entries db k m s =
    record { key = k; member = m; score = s }
    ∷ reject (λ e. text_eq e.key k && text_eq e.member m) db.entries

pub zadd-Distinct : (db : Db) (k m : Text) (s : ℤ) → Distinct (zadd_entries db k m s)
zadd-Distinct db k m s = (
  ground (arith, find-reject-at k m k m db.entries, text_eq_refl k, text_eq_refl m),
  reject-Distinct (λ e. text_eq e.key k && text_eq e.member m) db.entries db.distinct,
)

abbrev zadd_db : Db → Text → Text → ℤ → Db
zadd_db db k m s = record db { entries = zadd_entries db k m s; distinct = zadd-Distinct db k m s }

abbrev reject_db : (Entry → Bool) → Db → Db
reject_db p db = record db {
  entries = reject p db.entries;
  distinct = reject-Distinct p db.entries db.distinct;
}

abbrev pub delete_db : Db → List Text → Db
delete_db db ks =
    let kept = reject_db (of_keys ks) db in
    record kept { strings = λ j. if any (λ k. text_eq k j) ks then none else db.strings j }

pub memory_set :
    (db : Db) (k v : Text) (t : ℕ) (j : Text)
    → starts_with k msg_prefix ≡ true
    → held (set_db db k v t).strings db.entries j ≡ (text_eq k j || held db.strings db.entries j)
memory_set db k v t j h = ground (arith, text_eq_iff k j)

pub memory_zadd :
    (db : Db) (k m : Text) (s : ℤ) (j : Text)
    → starts_with k msg_prefix ≡ false
    → held db.strings (zadd_entries db k m s) j ≡ (text_eq k j || held db.strings db.entries j)
unfolding has_key
memory_zadd db k m s j h = ground (arith, text_eq_iff k j, has_key-reject-at k m j db.entries)

pub memory_zscore :
    (db : Db) (k m : Text) (s : ℤ) (j n : Text)
    → find j n (zadd_entries db k m s)
      ≡ (if text_eq k j && text_eq m n then some s else find j n db.entries)
unfolding find
memory_zscore db k m s j n = ground (arith, find-reject-at k m j n db.entries)

pub memory_zcount :
    (db : Db) (k m : Text) (s a b : ℤ)
    → count k a b (zadd_entries db k m s) + hit a b (find k m db.entries)
      ≡ count k a b db.entries + hit a b (some s)
unfolding count
memory_zcount db k m s a b =
    ground (arith, text_eq_refl k, count-reject-at k m a b db.entries db.distinct)

pub memory_zcount_ne :
    (db : Db) (k m : Text) (s : ℤ) (j : Text) (a b : ℤ)
    → text_eq k j ≡ false
    → count j a b (zadd_entries db k m s) ≡ count j a b db.entries
unfolding count
memory_zcount_ne db k m s j a b h = ground (arith, count-reject-at_ne k m j a b db.entries h)

pub memory_reject :
    (p : Entry → Bool) (db : Db) (j : Text)
    → held db.strings (reject p db.entries) j ≡ true
    → held db.strings db.entries j ≡ true
memory_reject p db j h = ground (arith, has_key-reject p j db.entries)

pub memory_delete :
    (db : Db) (ks : List Text) (j : Text)
    → held (delete_db db ks).strings (reject (of_keys ks) db.entries) j ≡ true
    → held db.strings db.entries j ≡ true
memory_delete db ks j h = ground (arith, has_key-reject (of_keys ks) j db.entries)

pub memory_ttl :
    (db : Db) (k v : Text) (t : ℕ) (j : Text)
    → (set_db db k v t).times j
      ≡ (if text_eq k j && is_none (db.strings k) then some t else db.times j)
memory_ttl db k v t j = ground (arith, text_eq_iff k j)

pub memory_expire :
    (db : Db) (k : Text) (t : ℕ) (j : Text)
    → update db.times k (if held db.strings db.entries k then some t else db.times k) j
      ≡ (if text_eq k j && held db.strings db.entries k then some t else db.times j)
memory_expire db k t j = ground (arith, text_eq_iff k j)

pub memory_present :
    (db : Db) (k : Text)
    → starts_with k msg_prefix ≡ true
    → held db.strings db.entries k ≡ not (is_none (db.strings k))
memory_present db k h = ground arith

abbrev expire_db : Db → Text → ℕ → Db
expire_db db k t = record db {
  times = update db.times k (if held db.strings db.entries k then some t else db.times k);
}

abbrev below_db : Db → Text → ℤ → Db
below_db db k c = reject_db (below k c) db

abbrev pub memory : Redis
memory = record {
  Db = Db;
  get = λ db k. db.strings k;
  zscore = λ db k m. find k m db.entries;
  present = λ db j. held db.strings db.entries j;
  ttl = λ db k. db.times k;
  set_nx_ex = λ db k v t. (set_db db k v t, is_none (db.strings k));
  zadd = λ db k m s. (zadd_db db k m s, is_none (find k m db.entries));
  zremrangebyscore = below_db;
  expire = expire_db;
  zcount = λ db k a b. count k a b db.entries;
  delete = delete_db;
  set_added = λ db k v t h. refl;
  get-set = λ db k v t j h. refl;
  zscore-set = λ db k v t j m h. refl;
  zcount-set = λ db k v t j a b h. refl;
  present-set = memory_set;
  ttl-set = λ db k v t j h. memory_ttl db k v t j;
  present-get = memory_present;
  zadd_added = λ db k m s h. refl;
  get-zadd = λ db k m s j h. refl;
  zscore-zadd = λ db k m s j n h. memory_zscore db k m s j n;
  zcount-zadd = λ db k m s a b h. memory_zcount db k m s a b;
  zcount-zadd_ne = λ db k m s j a b h. memory_zcount_ne db k m s j a b;
  present-zadd = memory_zadd;
  ttl-zadd = λ db k m s j h. refl;
  get-zrem = λ db k c j h. refl;
  zscore-zrem = λ db k c j n h. find-reject_below k c j n db.entries db.distinct;
  zcount-zrem = λ db k c j a b h. count-reject_below k c j a b db.entries;
  zcount-zrem_ne = λ db k c j a b h. count-reject_below_ne k c j a b db.entries;
  zrem-present = λ db k c j h e. (memory_reject (below k c) db j e, refl);
  get-expire = λ db k t j h. refl;
  zscore-expire = λ db k t j n h. refl;
  zcount-expire = λ db k t j a b h. refl;
  present-expire = λ db k t j h. refl;
  ttl-expire = λ db k t j h. memory_expire db k t j;
  get-delete = λ db ks j. refl;
  zscore-delete = λ db ks j n. find-reject_keys ks j n db.entries;
  zcount-delete = λ db ks j a b. count-reject_keys ks j a b db.entries;
  delete-present = λ db ks j e. (memory_delete db ks j e, refl);
}

-- An empty database.
abbrev pub blank : Db
blank = record { strings = λ k. none; times = λ k. none; entries = []; distinct = tt }

pub zscore-blank : (k i : Text) → memory.zscore blank k i ≡ none
unfolding find
zscore-blank k i = refl

pub present-blank : (k : Text) → memory.present blank k ≡ false
unfolding has_key
present-blank k = ground arith
