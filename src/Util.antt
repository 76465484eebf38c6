-- ===== src/Util.antt =====
-- scgrep/util.py: times, topics and broker addresses.
pub mod Query
use scgrep.Prelude.{
  ℤ, pos, ◌-ℤ◌, Bool, ◌||◌, Option, none, some, List, [], ◌∷◌, ◌++◌, any, if◌then◌else◌, map,
}
use scgrep.Text.{
  Text, codes, text_eq, starts_with, ends_with, drop_end, strip, rstrip_char, rstrip_by, print_nat,
}
use scgrep.Result.{Result, ok, err}
use scgrep.Libs.{Libs, Moment, Url, Port, absent, invalid, given}

pub data Fault : Type 0 where
  value_error attribute_error overflow_error request_error : Fault

abbrev pub to_utc : Moment → ℤ
to_utc m = elim m.utc_offset [ none ↦ m.micros | some offset ↦ m.micros -ℤ offset ]

-- text[:-1] + "+00:00" for a trailing Z
abbrev pub with_offset : Text → Text
with_offset text =
    if ends_with text (codes "Z") || ends_with text (codes "z")
    then drop_end 1 text ++ codes "+00:00"
    else text

-- parse_time_to_epoch, in microseconds; `none` is the ValueError.
unfoldable pub parse_time_to_epoch : Libs → Text → Option ℤ
parse_time_to_epoch libs value = elim (libs.fromisoformat (with_offset (strip value))) [
  | none ↦ none
  | some m ↦ some (to_utc m)
]

-- `epoch` in microseconds
abbrev pub epoch_to_iso : Libs → ℤ → Text
epoch_to_iso libs epoch = libs.strftime epoch

abbrev pub topic_matches : Libs → Text → Text → Bool
topic_matches libs = libs.topic_matches_sub

abbrev pub notification_collection : Text
notification_collection = codes "wis2-notification-messages"

abbrev pub monitoring_collection : Text
monitoring_collection = codes "wis2-monitoring-event-messages"

abbrev pub monitoring_topic_prefixes : List Text
monitoring_topic_prefixes = codes "monitor/a/wis2" ∷ []

unfoldable pub topic_to_collection : Text → Text
topic_to_collection topic =
    let text = strip topic in
    if any (λ prefix. starts_with text prefix) monitoring_topic_prefixes
    then monitoring_collection
    else notification_collection

strip_wildcard : Text → Text
strip_wildcard query = if ends_with query (codes "/#") then drop_end 2 query else query

pub topic_to_query : Text → Text
unfolding strip_wildcard
topic_to_query topic =
    let query = strip topic in
    if text_eq query (codes "#") then [] else rstrip_char b'/' (strip_wildcard query)

-- str.lower for the ASCII letters; `hostname` is lower case already.
port_text : Url → Result Fault Text
port_text url = elim url.port [
  | given n ↦ ok (print_nat n)
  | absent ↦ ok (if text_eq url.scheme (codes "mqtts") then codes "8883" else codes "1883")
  | invalid ↦ err value_error
]

authority_of : Libs → Url → Result Fault Text
unfolding port_text
authority_of libs url =
    let host : Text = elim url.hostname [ none ↦ libs.lower [] | some h ↦ libs.lower h ] in
    elim (port_text url) [ ok port ↦ ok (host ++ (b':' ∷ port)) | err e ↦ err e ]

-- broker_authority; reading an invalid port raises ValueError.
unfoldable pub broker_authority : Libs → Text → Result Fault Text
unfolding authority_of
broker_authority libs url = elim (libs.urlparse url) [
  | none ↦ err value_error
  | some parsed ↦ authority_of libs parsed
]
