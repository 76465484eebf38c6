-- ===== src/Commands.antt =====
-- The calls that the threads of the program make on one store (scgrep/redis_store.py), as a sequence:
-- the network thread stores broker messages and replayed messages (scgrep/mqtt_client.py), and each
-- synchronous fetch stores what it reads (scgrep/replay_tester.py). Each call is one step.
pub mod Latest
pub mod Refine
pub mod Counts
pub mod Fresh
pub mod Baseline
pub mod Parallel
mod Tests
use scgrep.Prelude.{
  ℤ, ◌≡◌, Bool, true, false, ◌&&◌, Option, none, some, List, [], ◌∷◌, ◌++◌, any, if◌then◌else◌,
}
use scgrep.Text.{Text, text_eq, has_char}
use scgrep.Libs.{Libs}
use scgrep.Util.{parse_time_to_epoch, topic_matches}
use scgrep.Redis.{Redis}
use scgrep.Store.{RedisStore, store_message, store_replay_message, store_sync_message}
use scgrep.Store.Baseline.{Arrival}

pub data Command : Type 0 where
  broker : Arrival → Command
  replayed : (centre_id msg_id time_value original : Text) → Command
  fetched : (centre_id pattern msg_id time_value : Text) → Command

module _ (libs : Libs) (r : Redis) (s : RedisStore) where
  unfoldable pub run_command : r.Db → Command → r.Db
  run_command db (broker m) = (store_message libs r s db m.now m.msg_id m.time_value m.topic).0
  run_command db (replayed centre_id msg_id time_value original) =
      (store_replay_message libs r s db centre_id msg_id time_value original).0
  run_command db (fetched centre_id pattern msg_id time_value) =
      (store_sync_message libs r s db centre_id pattern msg_id time_value).0

  unfoldable pub run_commands : r.Db → List Command → r.Db
  run_commands db [] = db
  run_commands db (command ∷ commands) = run_commands (run_command db command) commands

-- The messages of the network thread that are broker messages.
unfoldable pub arrivals_of : List Command → List Arrival
arrivals_of [] = []
arrivals_of (broker m ∷ commands) = m ∷ arrivals_of commands
arrivals_of (command ∷ commands) = arrivals_of commands

-- The centre of a command holds no colon, which separates it from the topic in a key.
abbrev pub PlainCentre : Command → Type 0
PlainCentre (broker m) = Unit {0}
PlainCentre (replayed centre_id msg_id time_value original) = has_char b':' centre_id ≡ false
PlainCentre (fetched centre_id pattern msg_id time_value) = has_char b':' centre_id ≡ false

-- What a command says of a centre and a topic: an id and its time.
abbrev pub Entry : Type 0
Entry = Text × ℤ

abbrev pub entry_if : Bool → Text → Option ℤ → Option Entry
entry_if test msg_id none = none
entry_if test msg_id (some epoch) = if test then some (msg_id, epoch) else none

-- A message that the synchronous fetch of the centre and the topic stores.
pub fetched_entry : Libs → Text → Text → Command → Option Entry
fetched_entry libs c q (broker m) = none
fetched_entry libs c q (replayed centre_id msg_id time_value original) = none
fetched_entry libs c q (fetched centre_id pattern msg_id time_value) =
    entry_if (text_eq centre_id c && text_eq pattern q) msg_id (parse_time_to_epoch libs time_value)

-- A message that the centre replays and whose topic matches a configured one.
pub replayed_entry : Libs → List Text → Text → Text → Command → Option Entry
replayed_entry libs topics c q (broker m) = none
replayed_entry libs topics c q (replayed centre_id msg_id time_value original) =
    entry_if (text_eq centre_id c && any (λ p. text_eq p q) topics && topic_matches libs q original)
      msg_id (parse_time_to_epoch libs time_value)
replayed_entry libs topics c q (fetched centre_id pattern msg_id time_value) = none

-- The entries of a sequence, in its order.
pub entries : (Command → Option Entry) → List Command → List Entry
entries f [] = []
entries f (command ∷ commands) =
    let rest = entries f commands in elim (f command) [ none ↦ rest | some e ↦ e ∷ rest ]
