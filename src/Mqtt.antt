-- ===== src/Mqtt.antt =====
-- `MqttManager` of scgrep/mqtt_client.py: which brokers are connected to, with which subscriptions,
-- and what the callbacks of a connection do.
pub mod Plans
pub mod Coverage
pub mod Connection
pub mod Url
pub mod Session
pub mod Roles
pub mod Certificates
mod Tests
use scgrep.Prelude.{
  ℕ, ◌+◌, ℤ, ◌-ℤ◌, Bool, true, false, not, ◌&&◌, ◌||◌, Option, none, some, List, [], ◌∷◌, ◌++◌, any,
  ◌==◌, if◌then◌else◌,
}
use scgrep.Text.{Text, codes, text_eq, print_nat}
use scgrep.Config.{Config, BrokerConfig, replay_wildcard_topics}

pub data Role : Type 0 where
  global_broker replay_broker : Role

abbrev pub is_global : Role → Bool
is_global global_broker = true
is_global replay_broker = false

abbrev pub same_role : Role → Role → Bool
same_role global_broker global_broker = true
same_role replay_broker replay_broker = true
same_role _ _ = false

pub record Plan : Type 0 where
  pub broker : BrokerConfig
  pub subs : List Text
  pub roles : List Role
  pub tls_insecure : Bool

-- The keys (host, port) of two plans are equal.
abbrev pub same_broker : BrokerConfig → BrokerConfig → Bool
same_broker a b = text_eq a.host b.host && a.port == b.port

abbrev pub new_plan : BrokerConfig → Plan
new_plan broker = record { broker = broker; subs = []; roles = []; tls_insecure = false }

-- plan_for(broker), and what is done to the plan that it returns
pub update_plan : BrokerConfig → (Plan → Plan) → List Plan → List Plan
update_plan broker f [] = f (new_plan broker) ∷ []
update_plan broker f (plan ∷ plans) =
    let rest = update_plan broker f plans in
    if same_broker plan.broker broker then f plan ∷ plans else plan ∷ rest

pub add_global : List Text → Plan → Plan
add_global topics plan = record plan {
  subs = plan.subs ++ topics;
  roles = plan.roles ++ (global_broker ∷ []);
}

pub add_replay : List Text → Bool → Plan → Plan
add_replay wildcards insecure plan = record plan {
  subs = plan.subs ++ wildcards;
  roles = plan.roles ++ (replay_broker ∷ []);
  tls_insecure =
      if any is_global (plan.roles ++ (replay_broker ∷ [])) then plan.tls_insecure else insecure;
}

pub plan_globals : List Text → List BrokerConfig → List Plan → List Plan
plan_globals topics [] plans = plans
plan_globals topics (b ∷ bs) plans =
    plan_globals topics bs (update_plan b (add_global topics) plans)

pub plan_replays : List Text → Bool → List BrokerConfig → List Plan → List Plan
plan_replays wildcards insecure [] plans = plans
plan_replays wildcards insecure (b ∷ bs) plans =
    plan_replays wildcards insecure bs (update_plan b (add_replay wildcards insecure) plans)

-- The plans of `start`, before the clients are built.
pub plans_of : Config → List Plan
plans_of c =
    plan_replays (replay_wildcard_topics c) c.replay_broker_tls_insecure c.replay_brokers
      (plan_globals c.subscription_topics c.brokers [])

-- list(dict.fromkeys(xs)), after the items that were seen
pub unique_after : {A : Type 0} → (A → A → Bool) → List A → List A → List A
unique_after eq seen [] = []
unique_after eq seen (x ∷ xs) =
    let skipped = unique_after eq seen xs in
    let kept = unique_after eq (x ∷ seen) xs in if any (eq x) seen then skipped else x ∷ kept

-- What `_build_client` and `_connect` are given.
pub record Client : Type 0 where
  pub broker : BrokerConfig
  pub subscriptions : List Text
  pub roles : List Role
  pub tls_insecure : Bool

pub client_of : Plan → Client
client_of plan = record {
  broker = plan.broker;
  subscriptions = unique_after text_eq [] plan.subs;
  roles = unique_after same_role [] plan.roles;
  tls_insecure = plan.tls_insecure;
}

pub clients_of : List Plan → List Client
clients_of [] = []
clients_of (plan ∷ plans) = client_of plan ∷ clients_of plans

-- MqttManager.start
pub start : Config → List Client
unfolding clients_of
start c = clients_of (plans_of c)

-- _broker_url
pub broker_url : BrokerConfig → Text
broker_url b =
    (if b.tls then codes "mqtts" else codes "mqtt")
    ++ (codes "://" ++ (b.host ++ (b':' ∷ print_nat b.port)))

-- What _build_client tells the client before it connects: TLS with the verification of certificates,
-- without it, or none.
pub data Security : Type 0 where
  plain verified unverified : Security

pub record Settings : Type 0 where
  pub client_id : Text
  pub user_data : Text
  pub credentials : Option (Text × Option Text)
  pub security : Security

pub build_client : Config → Client → Settings
build_client c client =
    let b = client.broker in
    record {
      client_id = codes "scgrep-" ++ (c.subscriber_id ++ (b'-' ∷ b.host));
      user_data = broker_url b;
      credentials = elim b.username [ none ↦ none | some name ↦ some (name, b.password) ];
      security = if b.tls then (if client.tls_insecure then unverified else verified) else plain;
    }

-- What a callback does besides logging: it sets the broker's gauge, or subscribes with QoS 1.
pub data Action : Type 0 where
  set_status : Text → Bool → Action
  subscribe : List (Text × ℕ) → Action

abbrev with_qos : List Text → List (Text × ℕ)
with_qos [] = []
with_qos (t ∷ ts) = (t, 1) ∷ with_qos ts

-- on_connect, with the reason code
pub on_connect : Client → ℕ → List Action
on_connect client reason_code =
    if reason_code == 0
    then set_status (broker_url client.broker) true ∷ subscribe (with_qos client.subscriptions) ∷ []
    else set_status (broker_url client.broker) false ∷ []

pub on_disconnect : Client → List Action
on_disconnect client = set_status (broker_url client.broker) false ∷ []

-- `_last_message_at`, and the wrapped callback that writes it
pub track_message : (Text → Option ℤ) → Text → ℤ → Text → Option ℤ
track_message last url now other = if text_eq url other then some now else last other

-- The gauge's function: seconds since the last message, once the clock has been started.
unfoldable pub message_age : (Text → Option ℤ) → Text → ℤ → Option ℤ
message_age last url now = elim (last url) [ none ↦ none | some at ↦ some (now -ℤ at) ]

-- What _connect does before the connection is tried: the gauge begins at 0, and the clock of the
-- broker's messages is started if it does not run yet.
pub connect : Client → ℤ → (Text → Option ℤ) → List Action × (Text → Option ℤ)
connect client now last =
    let url = broker_url client.broker in
    let seeded : Text → Option ℤ = elim (last url) [
      | none ↦ track_message last url now
      | some at ↦ last
    ] in
    (set_status url false ∷ [], seeded)
