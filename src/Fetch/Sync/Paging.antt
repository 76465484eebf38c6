-- ===== src/Fetch/Sync/Paging.antt =====
-- The pages of a synchronous fetch: what is counted and what is stored.
use scgrep.Prelude.{
  ℕ, zero, suc, ◌+◌, ◌≡◌, subst, sym, inl, inr, List, [], ◌∷◌, arith, Option-cases, length,
}
use scgrep.Text.{Text}
use scgrep.Json.{Json, obj, Items, nil, cons, items}
use scgrep.Libs.{Libs}
use scgrep.Redis.{Redis}
use scgrep.Store.{RedisStore, store_sync_message}
use scgrep.Message.{id_and_time}
use scgrep.Fetch.{Service}
use scgrep.Fetch.Sync.{
  Walk, store_feature, store_features, features_of, count_page, next_page, walk_pages,
}

-- The features of a page.
abbrev pub feature_count : Json → ℕ
feature_count page = length (items (features_of page))

abbrev pub total : List Json → ℕ
total [] = 0
total (page ∷ pages) = feature_count page + total pages

module _ (libs : Libs) (r : Redis) (s : RedisStore) (v : Service) where
  pub seen-store_features :
      (db : r.Db) (c t : Text) (vs : Items) (seen : ℕ)
      → (store_features libs r s v db c t vs seen).1 ≡ seen + length (items vs)
  unfolding store_features
  seen-store_features db c t nil seen = omega arith
  seen-store_features db c t (cons f vs) seen =
      omega (arith, seen-store_features (store_feature libs r s v db c t f) c t vs (seen + 1))

  -- Asking for a page stores nothing and counts nothing.
  next_page_keeps :
      (deadline : ℕ) (w : Walk libs r s v) (page : Json) (url : Text)
      → ((next_page libs r s v deadline w page url).0.db ≡ w.db)
        × ((next_page libs r s v deadline w page url).0.messages_seen ≡ w.messages_seen)
  unfolding next_page
  next_page_keeps deadline w page url = (ground arith, ground arith)

  -- Induction over what the paging loop stores and counts: a feature is skipped, or its message is
  -- stored, and either way it is counted.
  module _ {ℓ} (P : r.Db → ℕ → Type ℓ) (c t : Text)
      (skip : (db : r.Db) (n : ℕ) → P db n → P db (n + 1))
      (step : (db : r.Db) (n : ℕ) (i time : Text)
        → P db n
        → P (store_sync_message libs r s db c t i time).0 (n + 1)) where
    store_feature_rule :
        (db : r.Db) (n : ℕ) (f : Json) → P db n → P (store_feature libs r s v db c t f) (n + 1)
    unfolding store_feature
    store_feature_rule db n (obj f) h = elim (Option-cases (id_and_time libs f)) [
      | inl e ↦ rw (e, store_feature) (skip db n h)
      | inr ((i, time), e) ↦ rw (e, store_feature) (step db n i time h)
    ]
    store_feature_rule db n _ h = skip db n h

    store_features_rule :
        (base : ℕ) (db : r.Db) (vs : Items) (seen : ℕ)
        → P db (base + seen)
        → P
            (store_features libs r s v db c t vs seen).0
            (base + (store_features libs r s v db c t vs seen).1)
    unfolding store_features
    store_features_rule base db nil seen h = h
    store_features_rule base db (cons f vs) seen h =
        let db' = store_feature libs r s v db c t f in
        let e : base + seen + 1 ≡ base + (seen + 1) = omega arith in
        store_features_rule base db' vs (seen + 1)
          (subst (P db') e (store_feature_rule db (base + seen) f h))

    count_page_rule :
        (w : Walk libs r s v) (page : Json)
        → P w.db w.messages_seen
        → P (count_page libs r s v c t w page).db (count_page libs r s v c t w page).messages_seen
    unfolding count_page
    count_page_rule w page h =
        store_features_rule w.messages_seen w.db (features_of page) 0
          (subst (P w.db) (omega arith) h)

    pub walk_pages_rule :
        (rounds deadline : ℕ) (w : Walk libs r s v) (page : Json) (url : Text)
        → P w.db w.messages_seen
        → P
            (walk_pages libs r s v rounds c t deadline w page url).db
            (walk_pages libs r s v rounds c t deadline w page url).messages_seen
    unfolding walk_pages
    walk_pages_rule zero deadline w page url h = h
    walk_pages_rule (suc rounds) deadline w page url h =
        let counted = count_page libs r s v c t w page in
        let fetched = next_page libs r s v deadline counted page url in
        let same = next_page_keeps deadline counted page url in
        let h' : P fetched.0.db fetched.0.messages_seen =
          subst (λ db. P db fetched.0.messages_seen) (sym same.0)
            (subst (P counted.db) (sym same.1) (count_page_rule w page h)) in
        elim (Option-cases fetched.1) [
          | inl e ↦ rw (e, walk_pages) h'
          | inr ((page', url'), e) ↦
              rw (e, walk_pages) (walk_pages_rule rounds deadline fetched.0 page' url' h')
        ]
