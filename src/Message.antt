-- ===== src/Message.antt =====
-- The messages of scgrep/mqtt_client.py: `_parse_message`, and `MessageHandler` over the store and
-- the registry. An exception leaves the callback with what was written before it.
pub mod Routing
mod Tests
pub mod Topic
use scgrep.Prelude.{
  ℕ, ◌+◌, ℤ, Bool, true, false, not, ◌&&◌, Option, none, some, List, [], ◌∷◌, ◌++◌, ltb,
  if◌then◌else◌, length, drop, get_elem?,
}
use scgrep.Text.{Text, codes, starts_with, split_on, join}
use scgrep.Json.{Json, str, obj, Fields, get_or_null, truthy, is_null, null}
use scgrep.Result.{Result, ok, err, ◌>>=◌}
use scgrep.Libs.{Libs}
use scgrep.Util.{Fault, value_error, attribute_error}
use scgrep.Redis.{Redis}
use scgrep.Store.{RedisStore, store_message, store_replay_message}
use scgrep.Registry.{Registry, handle_replay}

-- str(v)
abbrev pub str_of : Libs → Json → Text
str_of libs (str s) = s
str_of libs v = libs.repr v

-- `properties.pubtime`, where `properties` is an object
pubtime : Json → Json
pubtime (obj props) = get_or_null (codes "pubtime") props
pubtime _ = null

-- The `time` of a message, or the `pubtime` of its properties.
pub time_of : Fields → Json
unfolding pubtime
time_of message =
    let time = get_or_null (codes "time") message in
    if is_null time then pubtime (get_or_null (codes "properties") message) else time

-- The id and the time, both of them neither missing nor empty.
pub id_and_time : Libs → Fields → Option (Text × Text)
id_and_time libs message =
    let msg_id = get_or_null (codes "id") message in
    let time = time_of message in
    if truthy msg_id && truthy time then some (str_of libs msg_id, str_of libs time) else none

-- data.get(…): a value that is no object has no such attribute.
parse_data : Libs → Json → Result Fault (Option (Text × Text))
parse_data libs (obj message) = ok (id_and_time libs message)
parse_data libs _ = err attribute_error

-- _parse_message
pub parse_message : Libs → Text → Result Fault (Option (Text × Text))
unfolding parse_data
parse_message libs payload = elim (libs.json_loads payload) [
  | none ↦ ok none
  | some v ↦ parse_data libs v
]

module _ (libs : Libs) (r : Redis) (s : RedisStore) where
  -- What the handler works on.
  pub record State : Type 0 where
    pub db : r.Db
    pub registry : Registry

  -- The state after a callback, and the exception that left it.
  abbrev pub Outcome : Type 0
  Outcome = State × Option Fault

  -- What is done with the parsed payload.
  abbrev pub with_message :
      State → Result Fault (Option (Text × Text)) → (Text → Text → r.Db) → Outcome
  with_message st (err e) write = (st, some e)
  with_message st (ok none) write = (st, none)
  with_message st (ok (some (msg_id, time_value))) write =
      (record st { db = write msg_id time_value }, none)

  -- parts[i], for an index in range
  abbrev pub part : List Text → ℕ → Text
  part parts i = elim (get_elem? parts i) [ none ↦ [] | some p ↦ p ]

  pub handle_replay_message : State → ℕ → Text → Text → Outcome
  handle_replay_message st mono topic payload =
      let st' = record st { registry = handle_replay libs st.registry mono topic } in
      let parts = split_on b'/' topic in
      if ltb (length parts) 6
      then (st', none)
      else with_message st' (parse_message libs payload) λ msg_id time_value.
        (store_replay_message libs r s st'.db (part parts 3) msg_id time_value
          (join b'/' (drop 5 parts))).0

  -- on_message; `now` and `mono` are what time.time() and time.monotonic() return.
  pub on_message : State → ℤ → ℕ → Text → Text → Outcome
  unfolding handle_replay_message
  on_message st now mono topic payload =
      if starts_with topic (codes "replay/")
      then handle_replay_message st mono topic payload
      else with_message st (parse_message libs payload)
          λ msg_id time_value. (store_message libs r s st.db now msg_id time_value topic).0
