-- ===== src/Mqtt/Tests.antt =====
-- Tests of the brokers that are connected to.
use scgrep.Prelude.{pos, ◌≡◌, refl, sym, subst, true, false, ◌&&◌, none, ◌++◌, All, [], ◌∷◌, any}
use scgrep.Text.{Text, codes, text_eq}
use scgrep.Config.{Config, BrokerConfig, replay_wildcard_topics}
use scgrep.Mqtt.{
  same_broker, plans_of, start, Client, global_broker, replay_broker, plan_globals, plan_replays,
  update_plan, add_global, add_replay, unique_after, client_of, clients_of,
}
use scgrep.Mqtt.Connection.{
  Manager, unconnected, connected, disconnected, call, connect_one, here, Reachable, ready, begins,
  calls, Tracked,
}
use scgrep.Mqtt.Certificates.{Verifies, start-Verifies}
use scgrep.Mqtt.Session.{start-Tracked}
use scgrep.Mqtt.Coverage.{has, start-covers}

abbrev broker_at : Text → BrokerConfig
broker_at host = record {
  url = host;
  host = host;
  port = 8883;
  username = none;
  password = none;
  tls = true;
}

-- One broker has both roles, and another only replays.
abbrev shared : Config
shared = record {
  sensor_centre_id = codes "me";
  brokers = broker_at (codes "b") ∷ [];
  subscription_topics = codes "cache/uk/#" ∷ [];
  replay_centre_ids = codes "gr" ∷ [];
  replay_urls = codes "u" ∷ [];
  redis_url = codes "redis:6379";
  metrics_endpoint = codes "/metrics";
  metrics_port = pos 8000;
  time_lag = pos 300;
  test_interval = pos 300;
  replay_brokers = broker_at (codes "b") ∷ broker_at (codes "c") ∷ [];
  redis_startup_timeout = pos 60;
  replay_broker_tls_insecure = true;
  log_http_response_max_chars = pos 1000;
  subscriber_id = codes "uuid";
}

start-covers_example :
    any
      (λ k.
        same_broker (broker_at (codes "c")) k.broker
        && has (codes "replay/a/wis2/gr/uuid/#") k.subscriptions)
      (start shared)
    ≡ true
unfolding text_eq replay_wildcard_topics
start-covers_example =
    start-covers shared (broker_at (codes "c")) (codes "replay/a/wis2/gr/uuid/#") refl

-- The first client connects, drops and comes back before the second one is connected to.
abbrev first_client : Client
first_client = record {
  broker = broker_at (codes "b");
  subscriptions = codes "cache/uk/#" ∷ codes "replay/a/wis2/gr/uuid/#" ∷ [];
  roles = global_broker ∷ replay_broker ∷ [];
  tls_insecure = false;
}

abbrev second_client : Client
second_client = record {
  broker = broker_at (codes "c");
  subscriptions = codes "replay/a/wis2/gr/uuid/#" ∷ [];
  roles = replay_broker ∷ [];
  tls_insecure = true;
}

clients : start shared ≡ first_client ∷ second_client ∷ []
unfolding start plans_of plan_globals plan_replays update_plan add_global add_replay unique_after
    client_of clients_of text_eq replay_wildcard_topics
clients = refl

abbrev back_again : Manager
back_again = call first_client (connected 0) (
    call first_client disconnected
      (call first_client (connected 0) (connect_one first_client (pos 5) unconnected)))

history :
    Reachable
      (first_client ∷ second_client ∷ [])
      (first_client ∷ second_client ∷ [])
      []
      (connect_one second_client (pos 9) back_again)
history = begins second_client (pos 9) (
    calls (connected 0) here
      (calls disconnected here (calls (connected 0) here (begins first_client (pos 5) ready))))

start-Tracked_example :
    ((first_client ∷ second_client ∷ []) ++ [] ≡ start shared)
    × All
        (Tracked (connect_one second_client (pos 9) back_again))
        (first_client ∷ second_client ∷ [])
start-Tracked_example =
    start-Tracked shared (first_client ∷ second_client ∷ []) []
      (connect_one second_client (pos 9) back_again)
      (subst
        (λ cs.
          Reachable cs (first_client ∷ second_client ∷ []) []
            (connect_one second_client (pos 9) back_again))
        (sym clients) history)

start-Verifies_example : All (Verifies shared) (start shared)
start-Verifies_example = start-Verifies shared
