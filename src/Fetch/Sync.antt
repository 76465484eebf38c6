-- ===== src/Fetch/Sync.antt =====
-- sync_fetch and _process_features of scgrep/replay_tester.py.
pub mod Paging
pub mod Chain
pub mod Outcome
pub mod Trace
mod Tests
use scgrep.Prelude.{
  ℕ, zero, suc, ◌+◌, ℤ, ◌-ℤ◌, pos, Bool, true, false, not, ◌&&◌, Option, none, some, List, [], ◌∷◌,
  ◌++◌, leb, eqb_ℤ, if◌then◌else◌,
}
use scgrep.Text.{Text, codes}
use scgrep.Json.{Json, obj, arr, null, Items, nil, cons, Fields, get_or_null, is_null}
use scgrep.Result.{Result, ok, err}
use scgrep.Libs.{Libs}
use scgrep.Util.{
  Fault, overflow_error, request_error, value_error, attribute_error, topic_to_collection,
  topic_to_query,
}
use scgrep.Redis.{Redis}
use scgrep.Store.{RedisStore, store_sync_message}
use scgrep.Message.{id_and_time}
use scgrep.Fetch.{
  Protocol, http, FetchResult, no_messages, Service, Response, failed, response, StreamResponse,
  stream_failed, stream, timeout, next_page_href,
}
use scgrep.Fetch.Integer.{to_int}

abbrev pub max_pages : ℕ
max_pages = 10000

-- What a fetch is asked for; `deadline_at` is the shared instant, or None.
pub record SyncRequest : Type 0 where
  pub replay_url : Text
  pub centre_id : Text
  pub topic : Text
  pub start_iso : Text
  pub end_iso : Text
  pub deadline : ℕ
  pub deadline_at : Option ℕ

-- page.get("numberMatched"), None for a page that is no object
abbrev pub number_matched_of : Json → Json
number_matched_of (obj page) = get_or_null (codes "numberMatched") page
number_matched_of _ = null

-- page.get("features"), where that is a list
pub features_of : Json → Items
features_of (obj page) = elim (get_or_null (codes "features") page) [ arr vs ↦ vs | _ ↦ nil ]
features_of _ = nil

module _ (libs : Libs) (r : Redis) (s : RedisStore) (v : Service) where
  -- One feature of a page: what has an id and a time is stored.
  pub store_feature : r.Db → Text → Text → Json → r.Db
  store_feature db centre_id topic (obj feature) = elim (id_and_time libs feature) [
    | none ↦ db
    | some (msg_id, time_value) ↦
        (store_sync_message libs r s db centre_id topic msg_id time_value).0
  ]
  store_feature db centre_id topic _ = db

  -- Every feature is counted, also one that is not stored.
  pub store_features : r.Db → Text → Text → Items → ℕ → r.Db × ℕ
  store_features db centre_id topic nil seen = (db, seen)
  store_features db centre_id topic (cons feature rest) seen =
      store_features (store_feature db centre_id topic feature) centre_id topic rest (seen + 1)

  -- _process_features
  pub process_features : r.Db → Text → Text → Json → r.Db × ℕ
  unfolding features_of
  process_features db centre_id topic page = store_features db centre_id topic (features_of page) 0

  -- The state of the paging loop: messages_seen and last_status are locals of the function, and
  -- `raised` is the exception that has left the loop.
  pub record Walk : Type 0 where
    pub world : v.World
    pub db : r.Db
    pub messages_seen : ℕ
    pub last_status : ℕ
    pub raised : Option Fault

  -- The features of a page are stored and counted.
  pub count_page : Text → Text → Walk → Json → Walk
  unfolding process_features
  count_page centre_id topic w page =
      let (db, n) = process_features w.db centre_id topic page in
      record w { db = db; messages_seen = w.messages_seen + n }

  -- The request for the next page; no page is a break out of the loop.
  pub follow_link : ℕ → Walk → Text → Walk × Option (Json × Text)
  follow_link deadline w next_url =
      let (world, now) = v.monotonic w.world in
      let (world', answer) = v.get_page world next_url (timeout deadline now) in
      elim answer [
        | failed ↦ (record w { world = world' }, none)
        | response status body ↦ (
          record w { world = world'; last_status = status },
          elim (libs.json_loads body) [ none ↦ none | some next ↦ some (next, next_url) ],
        )
      ]

  -- The loop's body after the page is counted. `urljoin` is called outside the `try`, so its
  -- ValueError leaves the loop.
  pub next_page : ℕ → Walk → Json → Text → Walk × Option (Json × Text)
  unfolding follow_link
  next_page deadline w page page_url = elim (next_page_href page) [
    | none ↦ (w, none)
    | some href ↦
        let (world, now) = v.monotonic w.world in
        let w' = record w { world = world } in
        if leb deadline now then (w', none) else elim (libs.urljoin page_url href) [
          | none ↦ (record w' { raised = some value_error }, none)
          | some next_url ↦ follow_link deadline w' next_url
        ]
  ]

  -- `for _ in range(_MAX_PAGES)`, with the rounds that are left.
  pub walk_pages : ℕ → Text → Text → ℕ → Walk → Json → Text → Walk
  walk_pages zero centre_id topic deadline w page page_url = w
  walk_pages (suc rounds) centre_id topic deadline w page page_url =
      let (w', next) = next_page deadline (count_page centre_id topic w page) page page_url in
      elim next [
        | none ↦ w'
        | some (page', url') ↦ walk_pages rounds centre_id topic deadline w' page' url'
      ]

  -- What a fetch leaves: the world, the database, and its result or the exception that leaves it.
  pub record Fetched : Type 0 where
    pub world : v.World
    pub db : r.Db
    pub result : Result Fault FetchResult

  -- The result after the last page, or the exception; what the pages brought is stored either way.
  abbrev pub sync_result : ℤ → ℤ → Walk → Fetched
  sync_result ttfb number_matched w = record {
    world = w.world;
    db = w.db;
    result = elim w.raised [
      | some e ↦ err e
      | none ↦ ok (record {
        protocol = http;
        aborted = false;
        invalid_format = false;
        fetch_delay = ttfb;
        messages_fetched = number_matched;
        invalid_number_matched = not (eqb_ℤ (pos w.messages_seen) number_matched);
        http_status = w.last_status;
        number_matched = number_matched;
      })
    ];
  }

  -- The pages, once `int(number_matched)` has a value or has raised.
  pub matched_pages :
      SyncRequest → ℕ → Text → ℤ → ℕ → v.World → r.Db → Json → Result Fault ℤ → Fetched
  matched_pages q deadline first_url ttfb status world db page (err value_error) = record {
    world = world;
    db = db;
    result = ok (no_messages http false true ttfb status);
  }
  matched_pages q deadline first_url ttfb status world db page (err e) = record {
    world = world;
    db = db;
    result = err e;
  }
  matched_pages q deadline first_url ttfb status world db page (ok n) = sync_result ttfb n (
      walk_pages max_pages q.centre_id q.topic deadline
        (record { world = world; db = db; messages_seen = 0; last_status = status; raised = none })
        page first_url)

  -- The first page, once its body is read and parsed.
  pub first_page : SyncRequest → ℕ → Text → ℤ → ℕ → v.World → r.Db → Json → Fetched
  unfolding matched_pages
  first_page q deadline first_url ttfb status world db page =
      let number_matched = number_matched_of page in
      if is_null number_matched
      then record { world = world; db = db; result = ok (no_messages http false true ttfb status) }
      else matched_pages q deadline first_url ttfb status world db page (to_int number_matched)

  -- json.loads of the first body.
  pub parsed_page : SyncRequest → ℕ → Text → ℤ → ℕ → v.World → r.Db → Option Json → Fetched
  parsed_page q deadline first_url ttfb status world db none = record {
    world = world;
    db = db;
    result = ok (no_messages http false true ttfb status);
  }
  parsed_page q deadline first_url ttfb status world db (some page) =
      first_page q deadline first_url ttfb status world db page

  -- What the first request brings; `start` is the instant of the request.
  pub first_answer : SyncRequest → ℕ → Text → ℕ → v.World → r.Db → StreamResponse → Fetched
  first_answer q deadline first_url start world db stream_failed = record {
    world = world;
    db = db;
    result = ok (no_messages http true true (pos q.deadline) 0);
  }
  first_answer q deadline first_url start world db (stream status none) = record {
    world = (v.monotonic world).0;
    db = db;
    result = err request_error;
  }
  first_answer q deadline first_url start world db (stream status (some text)) =
      let (world', now) = v.monotonic world in
      parsed_page q deadline first_url (pos now -ℤ pos start) status world' db
        (libs.json_loads text)

  pub sync_fetch : SyncRequest → v.World → r.Db → Fetched
  sync_fetch q world db =
      let interval = q.start_iso ++ (b'/' ∷ q.end_iso) in
      let base_url =
        q.replay_url
        ++ (codes "/collections/" ++ (topic_to_collection q.topic ++ codes "/items")) in
      let query_topic = topic_to_query q.topic in
      let first_url =
        base_url ++ (codes "?datetime=" ++ (interval ++ (codes "&topic=" ++ query_topic))) in
      let (world', start) = v.monotonic world in
      let deadline : ℕ = elim q.deadline_at [ none ↦ start + q.deadline | some at ↦ at ] in
      let (world'', answer) =
        v.get_first world' base_url interval query_topic (timeout deadline start) in
      first_answer q deadline first_url start world'' db answer
