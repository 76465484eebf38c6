-- ===== src/Fixtures.antt =====
-- Values that the tests run on: the libraries as small functions, a store, messages and a registry.
use scgrep.Prelude.{
  ℕ, suc, ℤ, pos, ◌≡◌, refl, Bool, ◌&&◌, ◌||◌, Option, none, some, [], ◌∷◌, if◌then◌else◌,
}
use scgrep.Text.{
  Text, codes, text_eq, starts_with, ends_with, drop_end, strip, rstrip_by, lstrip_by, is_space,
}
use scgrep.Json.{Json, str, obj, int, arr, nil, cons, Fields, end, field}
use scgrep.Libs.{Libs, Moment, Url, absent, invalid}
use scgrep.Util.{parse_time_to_epoch}
use scgrep.Store.{RedisStore}
use scgrep.Fetch.{Service, response, stream}
use scgrep.Fetch.Sync.{SyncRequest}

abbrev pub centre : Text
centre = codes "gr"

abbrev pub weather : Text
weather = codes "cache/uk/#"

abbrev pub weather_data : Text
weather_data = codes "cache/uk/data"

abbrev pub noon : Text
noon = codes "noon"

abbrev pub noon_epoch : ℤ
noon_epoch = pos 43200000000

-- A filter matches itself, and `x/#` what begins with `x/`.
abbrev matches_sub : Text → Text → Bool
matches_sub filter topic =
    text_eq filter topic || ends_with filter (codes "/#") && starts_with topic (drop_end 1 filter)

-- The only timestamps are noon, and noon with an offset of one second.
abbrev from_iso : Text → Option Moment
from_iso t =
    if text_eq t noon
    then some (record { micros = noon_epoch; utc_offset = none })
    else if text_eq t (codes "later")
    then some (record { micros = noon_epoch; utc_offset = some (pos 1000000) })
    else none

abbrev pub message_fields : Fields
message_fields =
    field (codes "id") (str (codes "m1"))
      (field (codes "properties") (obj (field (codes "pubtime") (str noon) end)) end)

-- A collection of one message, which has the link to the next page or not.
abbrev collection : Fields → Json
collection rest = obj (
    field (codes "numberMatched") (int (pos 2))
      (field (codes "features") (arr (cons (obj message_fields) nil)) rest))

abbrev pub final_page : Json
final_page = collection end

abbrev pub linked_page : Json
linked_page = collection (
    field (codes "links")
      (arr (
        cons
          (obj (
            field (codes "rel") (str (codes "next")) (field (codes "href") (str (codes "p2")) end)))
          nil))
      end)

abbrev pub subscription : Json
subscription = obj (
    field (codes "channel") (str (codes "replay/a/wis2/gr/me/cache/uk/#"))
      (field (codes "href") (str (codes "b1")) end))

abbrev pub subscribed : Fields
subscribed = field (codes "subscriptions") (arr (cons subscription nil)) end

abbrev load_json : Text → Option Json
load_json t =
    if text_eq t (codes "M")
    then some (obj message_fields)
    else if text_eq t (codes "1")
    then some (int (pos 1))
    else if text_eq t (codes "P1")
    then some linked_page
    else if text_eq t (codes "P2")
    then some final_page
    else if text_eq t (codes "S")
    then some (obj subscribed)
    else none

abbrev pub bad_url : Url
bad_url = record {
  scheme = codes "mqtt";
  hostname = some (codes "b");
  port = invalid;
  username = none;
  password = none;
}

abbrev parse_url : Text → Option Url
parse_url t =
    if text_eq t (codes "bad")
    then some bad_url
    else some (record {
      scheme = codes "mqtts";
      hostname = some t;
      port = absent;
      username = none;
      password = none;
    })

abbrev pub test_libs : Libs
test_libs = record {
  topic_matches_sub = matches_sub;
  fromisoformat = from_iso;
  urlparse = parse_url;
  urljoin = λ base href. if text_eq href (codes "[") then none else some href;
  lower = λ s. s;
  json_loads = load_json;
  strftime = λ t. codes "t";
  repr = λ v. codes "?";
}

abbrev pub test_store : RedisStore
test_store = record { expiry = 660; topics = weather ∷ codes "cache/fr/#" ∷ [] }

-- A service that always serves the same two pages: its world is the clock, which every reading
-- moves on.
abbrev pub two_pages : Service
two_pages = record {
  World = ℕ;
  monotonic = λ w. (suc w, w);
  get_first = λ w base interval topic t. (w, stream 200 (some (codes "P1")));
  get_page = λ w url t. (w, response 200 (codes "P2"));
}

abbrev pub question : SyncRequest
question = record {
  replay_url = codes "u";
  centre_id = centre;
  topic = weather;
  start_iso = codes "s";
  end_iso = codes "e";
  deadline = 100;
  deadline_at = none;
}

-- Noon is a time that parses.
pub noon_parses : parse_time_to_epoch test_libs noon ≡ some noon_epoch
unfolding parse_time_to_epoch text_eq ends_with strip rstrip_by lstrip_by is_space
noon_parses = refl
