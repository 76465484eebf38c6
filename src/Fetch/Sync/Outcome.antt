-- ===== src/Fetch/Sync/Outcome.antt =====
-- The outcome of sync_fetch (scgrep/replay_tester.py).
use scgrep.Prelude.{
  ℕ, ◌+◌, ◌-ℤ◌, ◌≤◌, ◌<◌, ℤ, pos, pos_part, ◌≡◌, ◌∙◌, refl, ap, inl, inr, true, false, Option, none,
  some, [], arith, Bool-cases, leb, Option-cases, not, eqb_ℤ, zero, suc, ◌⊎◌,
}
use scgrep.Text.{Text, text_eq}
use scgrep.Json.{Json, is_null}
use scgrep.Result.{Result, ok, err}
use scgrep.Libs.{Libs}
use scgrep.Redis.{Redis}
use scgrep.Store.{
  RedisStore, store_sync_message, count_sync_messages, count_messages, count_replay_messages,
}
use scgrep.Store.Sync.{count_sync-store_sync}
use scgrep.Store.Isolation.{baseline_isolated, replay_isolated}
use scgrep.Util.{Fault, value_error, request_error}
use scgrep.Fetch.{
  next_page_href, http, FetchResult, no_messages, Service, StreamResponse, stream_failed, stream,
}
use scgrep.Fetch.Integer.{to_int}
use scgrep.Fetch.Sync.{
  SyncRequest, Walk, Fetched, max_pages, count_page, follow_link, next_page, walk_pages,
  matched_pages, first_page, parsed_page, first_answer, sync_fetch, number_matched_of,
}
use scgrep.Fetch.Sync.Paging.{walk_pages_rule}

-- The result when every page has been read.
abbrev pub read_result : ℤ → ℤ → ℕ → ℕ → FetchResult
read_result delay number_matched seen status = record (no_messages http false false delay status) {
  messages_fetched = number_matched;
  invalid_number_matched = not (eqb_ℤ (pos seen) number_matched);
  number_matched = number_matched;
}

module _ (libs : Libs) (r : Redis) (s : RedisStore) (v : Service) where
  abbrev pub start_walk : v.World → r.Db → ℕ → Walk libs r s v
  start_walk world db status = record {
    world = world;
    db = db;
    messages_seen = 0;
    last_status = status;
    raised = none;
  }

  -- A link on the page, whose URL cannot be joined to that of the page.
  abbrev pub BadLink : Type 0
  BadLink =
      (page : Json) × (url href : Text) × (next_page_href page ≡ some href)
      × (libs.urljoin url href ≡ none)

  next_page-raised :
      (deadline : ℕ) (w : Walk libs r s v) (page : Json) (url : Text)
      → w.raised ≡ none
      → let (w', next) = next_page libs r s v deadline w page url in
        (w'.raised ≡ none) ⊎ ((w'.raised ≡ some value_error) × (next ≡ none) × BadLink)
  unfolding next_page follow_link
  next_page-raised deadline w page url h = elim (Option-cases (next_page_href page)) [
    | inl e ↦ inl (ground (arith, h, e))
    | inr (href, e) ↦ elim (Option-cases (libs.urljoin url href)) [
      | inr (next_url, k) ↦ inl (ground (arith, h, e, k))
      | inl k ↦ elim (Bool-cases (leb deadline (v.monotonic w.world).1)) [
        | inl late ↦ inl (ground (arith, h, e, late))
        | inr soon ↦
            inr (
              ground (arith, h, e, k, soon),
              ground (arith, h, e, k, soon),
              (page, url, href, e, k),
            )
      ]
    ]
  ]

  -- The loop is left by an exception only where a URL cannot be joined.
  walk_pages-raised :
      (rounds : ℕ) (c t : Text) (deadline : ℕ) (w : Walk libs r s v) (page : Json) (url : Text)
      → w.raised ≡ none
      → let read = walk_pages libs r s v rounds c t deadline w page url in
        (read.raised ≡ none) ⊎ ((read.raised ≡ some value_error) × BadLink)
  unfolding walk_pages
  walk_pages-raised zero c t deadline w page url h = inl h
  walk_pages-raised (suc rounds) c t deadline w page url h =
      let counted = count_page libs r s v c t w page in
      let kept : counted.raised ≡ none = unfold count_page in h in
      let (w', next) = next_page libs r s v deadline counted page url in
      elim (next_page-raised deadline counted page url kept) [
        | inl e ↦ elim (Option-cases next) [
          | inl n ↦ rw (n, walk_pages) (inl e)
          | inr ((page', url'), n) ↦
              rw (n, walk_pages) (walk_pages-raised rounds c t deadline w' page' url' e)
        ]
        | inr (e, n, bad) ↦ rw (n, walk_pages) (inr (e, bad))
      ]

  -- What reading the pages leaves.
  abbrev pub reading : SyncRequest → v.World → r.Db → ℕ → Json → Text → ℕ → Walk libs r s v
  reading q world db status page url deadline =
      walk_pages libs r s v max_pages q.centre_id q.topic deadline (start_walk world db status) page
        url

  -- What may come back: the request failed, the answer is no counted collection, the fetch raised
  -- before it stored anything, every page was read and `number_matched` is compared with what was
  -- seen, or a link's URL could not be joined after pages had been read.
  pub data Outcome (q : SyncRequest) (db : r.Db) (f : Fetched libs r s v) : Type 0 where
    aborted :
        f.result ≡ ok (no_messages http true true (pos q.deadline) 0) → f.db ≡ db → Outcome q db f
    malformed :
        (delay : ℤ) (status : ℕ)
        → f.result ≡ ok (no_messages http false true delay status)
        → f.db ≡ db
        → Outcome q db f
    raised : (e : Fault) → f.result ≡ err e → f.db ≡ db → Outcome q db f
    complete :
        (delay : ℤ) (status : ℕ) (n : ℤ) (world : v.World) (page : Json) (url : Text) (deadline : ℕ)
        → (reading q world db status page url deadline).raised ≡ none
        → f.result
          ≡ ok (
              read_result delay n
                (reading q world db status page url deadline).messages_seen
                (reading q world db status page url deadline).last_status)
        → f.db ≡ (reading q world db status page url deadline).db
        → Outcome q db f
    interrupted :
        (status : ℕ) (world : v.World) (page : Json) (url : Text) (deadline : ℕ)
        → BadLink
        → f.result ≡ err value_error
        → f.db ≡ (reading q world db status page url deadline).db
        → Outcome q db f

  module _ (q : SyncRequest) (deadline : ℕ) (url : Text) (delay : ℤ) (status : ℕ) (world : v.World)
      (db : r.Db) (page : Json) where
    matched_pages-Outcome :
        (m : Result Fault ℤ)
        → Outcome q db (matched_pages libs r s v q deadline url delay status world db page m)
    unfolding matched_pages
    matched_pages-Outcome (err value_error) = malformed delay status refl refl
    matched_pages-Outcome (err e) = raised e refl refl
    matched_pages-Outcome (ok n) =
        let start = start_walk world db status in
        let read = walk_pages libs r s v max_pages q.centre_id q.topic deadline start page url in
        elim (walk_pages-raised max_pages q.centre_id q.topic deadline start page url refl) [
          | inl e ↦ complete delay status n world page url deadline e (ground (arith, e)) refl
          | inr (e, bad) ↦ interrupted status world page url deadline bad (ground (arith, e)) refl
        ]

    first_page-Outcome :
        Outcome q db (first_page libs r s v q deadline url delay status world db page)
    unfolding first_page
    first_page-Outcome = elim (Bool-cases (is_null (number_matched_of page))) [
      | inl missing ↦ rw (missing, first_page) (malformed delay status refl refl)
      | inr given ↦ rw (given, first_page) (matched_pages-Outcome (to_int (number_matched_of page)))
    ]

  parsed_page-Outcome :
      (q : SyncRequest) (deadline : ℕ) (url : Text) (delay : ℤ) (status : ℕ) (world : v.World)
      (db : r.Db) (o : Option Json)
      → Outcome q db (parsed_page libs r s v q deadline url delay status world db o)
  unfolding parsed_page
  parsed_page-Outcome q deadline url delay status world db none = malformed delay status refl refl
  parsed_page-Outcome q deadline url delay status world db (some page) =
      first_page-Outcome q deadline url delay status world db page

  first_answer-Outcome :
      (q : SyncRequest) (deadline : ℕ) (url : Text) (start : ℕ) (world : v.World) (db : r.Db)
      (a : StreamResponse)
      → Outcome q db (first_answer libs r s v q deadline url start world db a)
  unfolding first_answer
  first_answer-Outcome q deadline url start world db stream_failed = aborted refl refl
  first_answer-Outcome q deadline url start world db (stream status none) =
      raised request_error refl refl
  first_answer-Outcome q deadline url start world db (stream status (some text)) =
      parsed_page-Outcome q deadline url (pos (v.monotonic world).1 -ℤ pos start) status
        (v.monotonic world).0 db (libs.json_loads text)

  pub sync_fetch-Outcome :
      (q : SyncRequest) (world : v.World) (db : r.Db)
      → Outcome q db (sync_fetch libs r s v q world db)
  unfolding sync_fetch
  sync_fetch-Outcome q world db = first_answer-Outcome q _ _ _ _ db _

  -- What no call of store_sync_message changes, a fetch does not change.
  sync_fetch_keeps :
      {A : Type 0} (f : r.Db → A) (q : SyncRequest) (world : v.World) (db : r.Db)
      → ((d : r.Db) (i t : Text)
          → f (store_sync_message libs r s d q.centre_id q.topic i t).0 ≡ f d)
      → f (sync_fetch libs r s v q world db).db ≡ f db
  sync_fetch_keeps f q world db h = by_case (sync_fetch-Outcome q world db)
    where
      same :
          (status : ℕ) (w : v.World) (page : Json) (url : Text) (deadline : ℕ)
          → f
              (walk_pages libs r s v max_pages q.centre_id q.topic deadline
                (start_walk w db status)
                page
                url).db
            ≡ f db
      same status w page url deadline =
          walk_pages_rule libs r s v (λ d' m. f d' ≡ f db) q.centre_id q.topic (λ d' m k. k)
            (λ d' m i time k. h d' i time ∙ k) max_pages deadline (start_walk w db status) page url
            refl

      by_case : {g : Fetched libs r s v} → Outcome q db g → f g.db ≡ f db
      by_case (aborted e k) = ap f k
      by_case (malformed d t e k) = ap f k
      by_case (raised e p k) = ap f k
      by_case (complete d t n w page url deadline _ _ k) = ap f k ∙ same t w page url deadline
      by_case (interrupted t w page url deadline _ _ k) = ap f k ∙ same t w page url deadline

  module _ (expires : 0 < s.expiry) where
    -- With a positive expiry, a synchronous fetch, however it ends, changes no baseline of another
    -- topic, no count of its replayed messages, and no count of its fetched messages for the
    -- centre of the fetch.
    pub sync_fetch_isolated :
        (q : SyncRequest) (world : v.World) (db : r.Db) (c p : Text) (a b : ℤ)
        → text_eq q.topic p ≡ false
        → let after = (sync_fetch libs r s v q world db).db in
          (count_messages libs r s after p a b ≡ count_messages libs r s db p a b)
          × (count_replay_messages libs r s after c p a b
              ≡ count_replay_messages libs r s db c p a b)
          × (count_sync_messages libs r s after q.centre_id p a b
              ≡ count_sync_messages libs r s db q.centre_id p a b)
    sync_fetch_isolated q world db c p a b h = (
      sync_fetch_keeps (λ d. count_messages libs r s d p a b) q world db
          (λ d i t. (baseline_isolated libs r s expires d p q.centre_id q.topic i t [] [] a b).1),
      sync_fetch_keeps (λ d. count_replay_messages libs r s d c p a b) q world db
          (λ d i t.
            (replay_isolated libs r s expires d (pos 0) p c q.centre_id q.topic i t [] [] a b).2),
      sync_fetch_keeps (λ d. count_sync_messages libs r s d q.centre_id p a b) q world db
          (λ d i t.
            ground (
              arith,
              h,
              (count_sync-store_sync libs r s expires d q.centre_id q.topic i t p a b).0,
            )),
    )

    -- One stored message raises the count of its topic by one at most.
    count_sync-le :
        (db : r.Db) (c p i t : Text) (a b : ℤ)
        → count_sync_messages libs r s (store_sync_message libs r s db c p i t).0 c p a b
          ≤ count_sync_messages libs r s db c p a b + 1
    count_sync-le db c p i t a b =
        ground (arith, (count_sync-store_sync libs r s expires db c p i t p a b).0)

    -- Reading pages raises the count by what was seen at most.
    count_sync-walk_pages :
        (c p : Text) (a b : ℤ) (start : Walk libs r s v) (rounds deadline : ℕ) (page : Json)
        (url : Text)
        → start.messages_seen ≡ 0
        → let read = walk_pages libs r s v rounds c p deadline start page url in
          count_sync_messages libs r s read.db c p a b
          ≤ count_sync_messages libs r s start.db c p a b + read.messages_seen
    count_sync-walk_pages c p a b start rounds deadline page url h =
        walk_pages_rule libs r s v
          (λ d n.
            count_sync_messages libs r s d c p a b
            ≤ count_sync_messages libs r s start.db c p a b + n)
          c p (λ d n k. omega arith) (λ d n i t k. omega (arith, count_sync-le d c p i t a b))
          rounds deadline start page url (omega arith)

    -- With a positive expiry, if a fetch returned a result that is not aborted, well formed and
    -- whose numberMatched was right, the count of its topic over any window exceeds what was
    -- counted before by numberMatched at most.
    pub count_sync-sync_fetch :
        (q : SyncRequest) (world : v.World) (db : r.Db) (res : FetchResult) (a b : ℤ)
        → (sync_fetch libs r s v q world db).result ≡ ok res
        → res.aborted ≡ false
        → res.invalid_format ≡ false
        → res.invalid_number_matched ≡ false
        → count_sync_messages libs r s (sync_fetch libs r s v q world db).db q.centre_id q.topic a b
          ≤ count_sync_messages libs r s db q.centre_id q.topic a b + pos_part res.number_matched
    count_sync-sync_fetch q world db res a b e x y z = by_case (sync_fetch-Outcome q world db) e
      where
        by_case :
            {g : Fetched libs r s v}
            → Outcome q db g
            → g.result ≡ ok res
            → count_sync_messages libs r s g.db q.centre_id q.topic a b
              ≤ count_sync_messages libs r s db q.centre_id q.topic a b
                + pos_part res.number_matched
        by_case (aborted e k) m = absurd (ground (arith, e, m))
        by_case (malformed d t e k) m = absurd (ground (arith, e, m))
        by_case (raised e p k) m = absurd (ground (arith, p, m))
        by_case (interrupted t w page url deadline _ p k) m = absurd (ground (arith, p, m))
        by_case (complete d t n w page url deadline _ p k) m =
            let start = start_walk w db t in
            ground (
              arith,
              x,
              z,
              m,
              p,
              k,
              count_sync-walk_pages q.centre_id q.topic a b start max_pages deadline page url refl,
            )
