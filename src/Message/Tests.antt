-- ===== src/Message/Tests.antt =====
-- Tests of the message handler.
use scgrep.Prelude.{◌<◌, pos, ◌≡◌, refl, none, some, arith}
use scgrep.Text.{Text, codes, text_eq, starts_with, has_char}
use scgrep.Json.{truthy, get_or_null}
use scgrep.Result.{ok}
use scgrep.Memory.{memory, blank}
use scgrep.Fixtures.{test_libs, test_store, centre, weather_data, noon, noon_epoch}
use scgrep.Store.{store_replay_message, count_replay_messages, count_sync_messages}
use scgrep.Registry.{new_registry, handle_replay}
use scgrep.Message.{State, parse_message, id_and_time, time_of, on_message}
use scgrep.Message.Topic.{replay_topic}
use scgrep.Message.Routing.{on_message-replay_topic, on_message_isolated}

abbrev expires : 0 < 660
expires = omega arith

abbrev idle : State test_libs memory test_store
idle = record { db = blank; registry = new_registry }

abbrev replay_data : Text
replay_data = replay_topic centre (codes "me") weather_data

payload_parses : parse_message test_libs (codes "M") ≡ ok (some (codes "m1", noon))
unfolding parse_message text_eq id_and_time truthy get_or_null time_of
payload_parses = refl

on_message-replay_topic_example :
    on_message test_libs memory test_store idle noon_epoch 5 replay_data (codes "M") ≡ (
      record {
        db =
            (store_replay_message test_libs memory test_store blank centre
              (codes "m1")
              noon
              weather_data).0;
        registry = handle_replay test_libs new_registry 5 replay_data;
      },
      none,
    )
unfolding has_char
on_message-replay_topic_example =
    on_message-replay_topic test_libs memory test_store idle noon_epoch 5 centre (codes "me")
      weather_data (codes "M") (codes "m1") noon refl refl payload_parses

abbrev after : State test_libs memory test_store
after = (on_message test_libs memory test_store idle noon_epoch 5 weather_data (codes "M")).0

on_message_isolated_example :
    (after.registry ≡ idle.registry)
    × (count_replay_messages test_libs memory test_store after.db centre weather_data noon_epoch
          (pos 43300000000)
        ≡ count_replay_messages test_libs memory test_store blank centre weather_data noon_epoch
            (pos 43300000000))
    × (count_sync_messages test_libs memory test_store after.db centre weather_data noon_epoch
          (pos 43300000000)
        ≡ count_sync_messages test_libs memory test_store blank centre weather_data noon_epoch
            (pos 43300000000))
unfolding starts_with
on_message_isolated_example =
    on_message_isolated test_libs memory test_store expires idle noon_epoch 5 weather_data
      (codes "M") centre weather_data noon_epoch (pos 43300000000) refl
