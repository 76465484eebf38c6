-- ===== src/Fetch.antt =====
-- scgrep/replay_tester.py: the result of a fetch, the service as the program sees it, and what both
-- fetches share. Instants are whole microseconds of the monotonic clock, and a delay is a difference
-- of two of them.
pub mod Integer
pub mod Sync
pub mod Async
pub mod Subscriptions
mod Tests
use scgrep.Prelude.{
  ℕ, ◌-◌, ◌*◌, ◌/◌, ℤ, pos, Bool, true, false, Option, none, some, List, [], ◌∷◌, ◌++◌, leb,
  if◌then◌else◌, is_empty,
}
use scgrep.Text.{Text, codes, text_eq, print_nat}
use scgrep.Json.{Json, str, arr, obj, Items, nil, cons, Fields, get_or_null}

pub data Protocol : Type 0 where
  http mqtt : Protocol

pub record FetchResult : Type 0 where
  pub protocol : Protocol
  pub aborted : Bool
  pub invalid_format : Bool
  pub fetch_delay : ℤ
  pub messages_fetched : ℤ
  pub invalid_number_matched : Bool
  pub http_status : ℕ
  pub number_matched : ℤ

-- FetchResult(protocol, aborted, invalid_format, delay, 0, http_status=status)
abbrev pub no_messages : Protocol → Bool → Bool → ℤ → ℕ → FetchResult
no_messages protocol aborted invalid_format delay status = record {
  protocol = protocol;
  aborted = aborted;
  invalid_format = invalid_format;
  fetch_delay = delay;
  messages_fetched = pos 0;
  invalid_number_matched = false;
  http_status = status;
  number_matched = pos 0;
}

-- A request raises RequestException, or brings a status and a body.
pub data Response : Type 0 where
  failed : Response
  response : ℕ → Text → Response

-- With stream=True the body is read later, and reading it may raise RequestException.
pub data StreamResponse : Type 0 where
  stream_failed : StreamResponse
  stream : ℕ → Option Text → StreamResponse

-- The clock and the service; each call may change the world. Times out are in microseconds.
pub record Service : Type 1 where
  pub World : Type 0
  pub monotonic : World → World × ℕ
  -- the base URL, the interval and the topic of the query
  pub get_first : World → Text → Text → Text → ℕ → World × StreamResponse
  pub get_page : World → Text → ℕ → World × Response

-- max(0.05, deadline - now)
abbrev pub timeout : ℕ → ℕ → ℕ
timeout deadline now = if leb 50000 (deadline - now) then deadline - now else 50000

next_link : Json → Option Text
next_link (obj link) =
    let rel : Bool = elim (get_or_null (codes "rel") link) [
      | str s ↦ text_eq s (codes "next")
      | _ ↦ false
    ] in
    let href : Option Text = elim (get_or_null (codes "href") link) [
      | str s ↦ if is_empty s then none else some s
      | _ ↦ none
    ] in
    if rel then href else none
next_link _ = none

first_link : Items → Option Text
unfolding next_link
first_link nil = none
first_link (cons link links) =
    let rest = first_link links in elim (next_link link) [ none ↦ rest | some href ↦ some href ]

links_of : Json → Option Text
links_of (arr links) = first_link links
links_of _ = none

-- _next_page_href
pub next_page_href : Json → Option Text
unfolding first_link links_of
next_page_href (obj page) = links_of (get_or_null (codes "links") page)
next_page_href _ = none
