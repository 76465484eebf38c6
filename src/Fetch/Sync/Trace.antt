-- ===== src/Fetch/Sync/Trace.antt =====
-- The calls that sync_fetch (scgrep/replay_tester.py) makes on the store, in their order. What it
-- fetches does not depend on the store, so they are the same whatever other threads write meanwhile.
use scgrep.Prelude.{
  pos, none, ℕ, ℤ, zero, suc, ◌+◌, ◌-ℤ◌, ◌≡◌, ◌∙◌, refl, ap, inl, inr, Option, none, some, List, [],
  ◌∷◌, ◌++◌, All, All-append, arith, Option-cases, Bool-cases, length,
}
use scgrep.Text.{Text}
use scgrep.Json.{Json, is_null, obj, Items, nil, cons, items}
use scgrep.Fetch.Sync.Paging.{seen-store_features}
use scgrep.Libs.{Libs}
use scgrep.Result.{Result, ok, err}
use scgrep.Util.{Fault, value_error}
use scgrep.Redis.{Redis}
use scgrep.Store.{RedisStore}
use scgrep.Message.{id_and_time}
use scgrep.Fetch.{Service, FetchResult, StreamResponse, stream_failed, stream}
use scgrep.Fetch.Integer.{to_int}
use scgrep.Fetch.Sync.{
  SyncRequest, Walk, Fetched, features_of, store_feature, store_features, process_features,
  count_page, follow_link, next_page, walk_pages, sync_fetch, number_matched_of, matched_pages,
  first_page, parsed_page, first_answer, sync_result, max_pages,
}
use scgrep.Commands.{Command, fetched, run_command, run_commands}

module _ (libs : Libs) (r : Redis) (s : RedisStore) where
  pub run_commands-append :
      (xs ys : List Command) (db : r.Db)
      → run_commands libs r s db (xs ++ ys) ≡ run_commands libs r s (run_commands libs r s db xs) ys
  unfolding run_commands
  run_commands-append [] ys db = refl
  run_commands-append (x ∷ xs) ys db = run_commands-append xs ys (run_command libs r s db x)

feature_commands : Libs → Text → Text → Json → List Command
feature_commands libs c t (obj feature) = elim (id_and_time libs feature) [
  | none ↦ []
  | some (msg_id, time_value) ↦ fetched c t msg_id time_value ∷ []
]
feature_commands libs c t _ = []

page_commands : Libs → Text → Text → Items → List Command
unfolding feature_commands
page_commands libs c t nil = []
page_commands libs c t (cons feature rest) =
    feature_commands libs c t feature ++ page_commands libs c t rest

-- A call that a fetch of the centre and the topic makes.
abbrev pub OfFetch : Text → Text → Command → Type 0
OfFetch c t x = (i : Text) × (time : Text) × (x ≡ fetched c t i time)

feature_commands-OfFetch :
    (libs : Libs) (c t : Text) (f : Json) → All (OfFetch c t) (feature_commands libs c t f)
unfolding feature_commands
feature_commands-OfFetch libs c t (obj f) = elim (Option-cases (id_and_time libs f)) [
  | inl e ↦ rw (e, feature_commands) tt
  | inr ((i, time), e) ↦ rw (e, feature_commands) ((i, time, refl), tt)
]
feature_commands-OfFetch libs c t _ = tt

page_commands-OfFetch :
    (libs : Libs) (c t : Text) (vs : Items) → All (OfFetch c t) (page_commands libs c t vs)
unfolding page_commands
page_commands-OfFetch libs c t nil = tt
page_commands-OfFetch libs c t (cons f vs) =
    All-append (OfFetch c t) (feature_commands libs c t f) (page_commands libs c t vs)
      (feature_commands-OfFetch libs c t f) (page_commands-OfFetch libs c t vs)

module _ (libs : Libs) (r : Redis) (s : RedisStore) (v : Service) (c t : Text) where
  open r use {Db}

  store_feature-commands :
      (db : Db) (f : Json)
      → store_feature libs r s v db c t f ≡ run_commands libs r s db (feature_commands libs c t f)
  unfolding store_feature feature_commands run_commands run_command
  store_feature-commands db (obj f) = ground arith
  store_feature-commands db _ = refl

  store_features-commands :
      (vs : Items) (db : Db) (n : ℕ)
      → (store_features libs r s v db c t vs n).0
        ≡ run_commands libs r s db (page_commands libs c t vs)
  unfolding store_features page_commands run_commands
  store_features-commands nil db n = refl
  store_features-commands (cons f vs) db n =
      store_features-commands vs (store_feature libs r s v db c t f) (n + 1)
      ∙ ground (
        arith,
        store_feature-commands db f,
        run_commands-append libs r s (feature_commands libs c t f) (page_commands libs c t vs) db,
      )

  -- A walk, over another database.
  abbrev over : Walk libs r s v → Db → Walk libs r s v
  over w db = record w { db = db }

  count_page-over :
      (w : Walk libs r s v) (page : Json) (db : Db)
      → count_page libs r s v c t (over w db) page
        ≡ over
            (record w { messages_seen = w.messages_seen + (0 + length (items (features_of page))) })
            (run_commands libs r s db (page_commands libs c t (features_of page)))
  unfolding count_page process_features
  count_page-over w page db = ground (
    arith,
    store_features-commands (features_of page) db 0,
    seen-store_features libs r s v db c t (features_of page) 0,
  )

  next_page-over :
      (deadline : ℕ) (w : Walk libs r s v) (page : Json) (url : Text) (db : Db)
      → next_page libs r s v deadline (over w db) page url ≡ (
        over (next_page libs r s v deadline w page url).0 db,
        (next_page libs r s v deadline w page url).1,
      )
  unfolding next_page follow_link
  next_page-over deadline w page url db = ground arith

  -- What a walk leaves over any database, with the calls that it makes.
  pub record Traced (walk : Db → Walk libs r s v) : Type 0 where
    pub commands : List Command
    pub own : All (OfFetch c t) commands
    pub end : Walk libs r s v
    pub same : (db : Db) → walk db ≡ over end (run_commands libs r s db commands)

  walk_pages-Traced :
      (rounds deadline : ℕ) (w : Walk libs r s v) (page : Json) (url : Text)
      → Traced (λ db. walk_pages libs r s v rounds c t deadline (over w db) page url)
  unfolding walk_pages
  walk_pages-Traced zero deadline w page url = record {
    commands = [];
    own = tt;
    end = w;
    same = λ db. unfold run_commands in refl;
  }
  walk_pages-Traced (suc rounds) deadline w page url =
      let vs = features_of page in
      let counted : Walk libs r s v = record w {
        messages_seen = w.messages_seen + (0 + length (items vs));
      } in
      let (u, next) = next_page libs r s v deadline counted page url in
      let step = λ (db : Db).
        ap (λ x. next_page libs r s v deadline x page url) (count_page-over w page db)
        ∙ next_page-over deadline counted page url
            (run_commands libs r s db (page_commands libs c t vs)) in
      elim (Option-cases next) [
        | inl e ↦ record {
          commands = page_commands libs c t vs;
          own = page_commands-OfFetch libs c t vs;
          end = u;
          same = λ db. ground (arith, step db, e);
        }
        | inr ((page', url'), e) ↦
            let rest = walk_pages-Traced rounds deadline u page' url' in
            record {
              commands = page_commands libs c t vs ++ rest.commands;
              own =
                  All-append (OfFetch c t) (page_commands libs c t vs) rest.commands
                    (page_commands-OfFetch libs c t vs) rest.own;
              end = rest.end;
              same = λ db.
                  let db' = run_commands libs r s db (page_commands libs c t vs) in
                  ground (
                    arith,
                    step db,
                    e,
                    rest.same db',
                    run_commands-append libs r s (page_commands libs c t vs) rest.commands db,
                  );
            }
      ]

module _ (libs : Libs) (r : Redis) (s : RedisStore) (v : Service) where
  open r use {Db}

  -- A fetch that makes these calls on the store, and does the rest whatever the store holds.
  pub record Calls (c t : Text) (commands : List Command) (f : Db → Fetched libs r s v)
      : Type 0 where
    pub own : All (OfFetch c t) commands
    pub world : v.World
    pub result : Result Fault FetchResult
    pub same :
        (db : Db)
        → f db ≡ record { world = world; db = run_commands libs r s db commands; result = result }

  abbrev Called : Text → Text → (Db → Fetched libs r s v) → Type 0
  Called c t f = (commands : List Command) × Calls c t commands f

  no_calls :
      (c t : Text) (world : v.World) (result : Result Fault FetchResult)
      → Called c t (λ db. record { world = world; db = db; result = result })
  no_calls c t world result = (
    [],
    record { own = tt; world = world; result = result; same = λ db. unfold run_commands in refl },
  )

  module _ (q : SyncRequest) (deadline : ℕ) (url : Text) (delay : ℤ) (status : ℕ) (world : v.World)
      (base : Db) where
    matched_pages-Called :
        (page : Json) (m : Result Fault ℤ)
        → Called q.centre_id q.topic
            (λ db. matched_pages libs r s v q deadline url delay status world db page m)
    unfolding matched_pages
    matched_pages-Called page (err value_error) = no_calls q.centre_id q.topic world _
    matched_pages-Called page (err e) = no_calls q.centre_id q.topic world _
    matched_pages-Called page (ok n) =
        let begun : Walk libs r s v = record {
          world = world;
          db = base;
          messages_seen = 0;
          last_status = status;
          raised = none;
        } in
        let traced =
          walk_pages-Traced libs r s v q.centre_id q.topic max_pages deadline begun page url in
        (
          traced.commands,
          record {
            own = traced.own;
            world = traced.end.world;
            result = (sync_result libs r s v delay n traced.end).result;
            same = λ db. ap (sync_result libs r s v delay n) (traced.same db);
          },
        )

    first_page-Called :
        (page : Json)
        → Called q.centre_id q.topic
            (λ db. first_page libs r s v q deadline url delay status world db page)
    unfolding first_page
    first_page-Called page = elim (Bool-cases (is_null (number_matched_of page))) [
      | inl missing ↦ rw (missing, first_page) (no_calls q.centre_id q.topic world _)
      | inr given ↦
          rw (given, first_page) (matched_pages-Called page (to_int (number_matched_of page)))
    ]

    parsed_page-Called :
        (o : Option Json)
        → Called q.centre_id q.topic
            (λ db. parsed_page libs r s v q deadline url delay status world db o)
    unfolding parsed_page
    parsed_page-Called none = no_calls q.centre_id q.topic world _
    parsed_page-Called (some page) = first_page-Called page

  first_answer-Called :
      (q : SyncRequest) (deadline : ℕ) (url : Text) (start : ℕ) (world : v.World) (base : Db)
      (a : StreamResponse)
      → Called q.centre_id q.topic (λ db. first_answer libs r s v q deadline url start world db a)
  unfolding first_answer
  first_answer-Called q deadline url start world base stream_failed =
      no_calls q.centre_id q.topic world _
  first_answer-Called q deadline url start world base (stream status none) =
      no_calls q.centre_id q.topic (v.monotonic world).0 _
  first_answer-Called q deadline url start world base (stream status (some text)) =
      parsed_page-Called q deadline url (pos (v.monotonic world).1 -ℤ pos start) status
        (v.monotonic world).0 base (libs.json_loads text)

  -- A synchronous fetch makes a sequence of calls on the store, all for its own centre and topic, that
  -- depends on the service alone: over every database it makes the same calls, in the same order, and
  -- comes to the same result.
  pub sync_fetch-Calls :
      (q : SyncRequest) (world : v.World) (db : Db)
      → (commands : List Command) × Calls q.centre_id q.topic commands
          (sync_fetch libs r s v q world)
  unfolding sync_fetch
  sync_fetch-Calls q world db = first_answer-Called q _ _ _ _ db _
