-- ===== src/Fetch/Sync/Chain.antt =====
-- The paging loop of sync_fetch, for a service that serves its pages in time.
use scgrep.Prelude.{
  ℕ, zero, suc, ◌+◌, ◌<◌, ◌≡◌, ◌∙◌, refl, ap, false, none, some, List, [], ◌∷◌, arith, leb, length,
}
use scgrep.Text.{Text}
use scgrep.Json.{Json}
use scgrep.Libs.{Libs}
use scgrep.Redis.{Redis}
use scgrep.Store.{RedisStore}
use scgrep.Fetch.{Service, Response, response, timeout, next_page_href}
use scgrep.Fetch.Sync.{Walk, features_of, count_page, follow_link, next_page, walk_pages}
use scgrep.Fetch.Sync.Paging.{feature_count, total, seen-store_features}

module _ (libs : Libs) (r : Redis) (s : RedisStore) (v : Service) where
  -- The world after the request that follows a link.
  abbrev pub after_request : v.World → Text → ℕ → v.World × Response
  after_request world next_url deadline =
      let (world', _) = v.monotonic world in
      let (world'', now) = v.monotonic world' in v.get_page world'' next_url (timeout deadline now)

  -- From this page on, the links lead through the listed pages, each of them served before the
  -- deadline, and the last has no link.
  abbrev pub Serves : v.World → Text → ℕ → Json → List Json → Type 0
  Serves world url deadline page [] = next_page_href page ≡ none
  Serves world url deadline page (next ∷ rest) =
      (href : Text) × (url' : Text) × (status : ℕ) × (body : Text) × (next_page_href page
        ≡ some href)
      × (leb deadline (v.monotonic world).1 ≡ false)
      × (libs.urljoin url href ≡ some url')
      × ((after_request world url' deadline).1 ≡ response status body)
      × (libs.json_loads body ≡ some next)
      × Serves (after_request world url' deadline).0 url' deadline next rest

  count_page_lem :
      (c t : Text) (w : Walk libs r s v) (page : Json)
      → ((count_page libs r s v c t w page).messages_seen ≡ w.messages_seen + feature_count page)
        × ((count_page libs r s v c t w page).world ≡ w.world)
  unfolding count_page
  count_page_lem c t w page = (
    ap (λ n. w.messages_seen + n)
        (seen-store_features libs r s v w.db c t (features_of page) 0 ∙ omega arith),
    refl,
  )

  -- A page without a link ends the loop.
  last_page :
      (deadline : ℕ) (u : Walk libs r s v) (page : Json) (url : Text)
      → next_page_href page ≡ none
      → next_page libs r s v deadline u page url ≡ (u, none)
  unfolding next_page
  last_page deadline u page url h = ground (arith, h)

  -- One step along a link that is served.
  next_page_served :
      (deadline : ℕ) (u : Walk libs r s v) (page : Json) (url href url' body : Text) (status : ℕ)
      (next : Json)
      → next_page_href page ≡ some href
      → leb deadline (v.monotonic u.world).1 ≡ false
      → libs.urljoin url href ≡ some url'
      → (after_request u.world url' deadline).1 ≡ response status body
      → libs.json_loads body ≡ some next
      → next_page libs r s v deadline u page url ≡ (
        record u { world = (after_request u.world url' deadline).0; last_status = status },
        some (next, url'),
      )
  unfolding next_page follow_link
  next_page_served deadline u page url href url' body status next link soon joined answer parsed =
      ground (arith, link, soon, joined, answer, parsed)

  -- If the links lead through a list of pages that is shorter than the rounds, each page served
  -- before the deadline and the last one without a link, the loop counts the features of all of
  -- them.
  pub messages_seen-walk_pages :
      (c t : Text) (deadline rounds : ℕ) (w : Walk libs r s v) (page : Json) (url : Text)
      (rest : List Json)
      → length rest < rounds
      → Serves w.world url deadline page rest
      → (walk_pages libs r s v rounds c t deadline w page url).messages_seen
        ≡ w.messages_seen + total (page ∷ rest)
  unfolding walk_pages
  messages_seen-walk_pages c t deadline zero w page url rest h served = absurd (omega arith)
  messages_seen-walk_pages c t deadline (suc rounds) w page url [] h served = ground (
    arith,
    last_page deadline (count_page libs r s v c t w page) page url served,
    (count_page_lem c t w page).0,
  )
  messages_seen-walk_pages c t deadline (suc rounds) w page url (next ∷ rest) h served =
      let (href, url', status, body, link, soon, joined, answer, parsed, more) = served in
      let counted = count_page libs r s v c t w page in
      let same = (count_page_lem c t w page).1 in
      let step =
        next_page_served deadline counted page url href url' body status next link (rw same soon)
          joined (rw same answer) parsed in
      let after : Walk libs r s v = record counted {
        world = (after_request counted.world url' deadline).0;
        last_status = status;
      } in
      ground (
        arith,
        step,
        (count_page_lem c t w page).0,
        messages_seen-walk_pages c t deadline rounds after next url' rest (omega arith)
            (rw same more),
      )
