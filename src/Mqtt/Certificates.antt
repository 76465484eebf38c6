-- ===== src/Mqtt/Certificates.antt =====
-- Which connections of MqttManager (scgrep/mqtt_client.py) verify the broker's certificate.
use scgrep.Prelude.{
  ◌≡◌, refl, ◌⊎◌, Bool, true, false, not, ◌&&◌, ◌||◌, List, [], ◌∷◌, All, any, all, arith,
  Bool-cases, inl, inr,
}
use scgrep.Text.{Text}
use scgrep.Config.{Config, BrokerConfig, replay_wildcard_topics}
use scgrep.Mqtt.Coverage.{any-++, same_broker_refl}
use scgrep.Mqtt.Roles.{knows, plans_of-knows}
use scgrep.Mqtt.{
  Role, global_broker, replay_broker, is_global, same_role, same_broker, Plan, new_plan,
  update_plan, add_global, add_replay, plan_globals, plan_replays, plans_of, unique_after, Client,
  client_of, clients_of, start, Security, plain, verified, unverified, build_client,
}

-- Verification is off only where the setting says so and no role is that of a Global Broker.
abbrev lenient : Bool → Bool → List Role → Bool
lenient flag tls_insecure roles = not tls_insecure || (flag && not (any is_global roles))

abbrev allowed : Bool → Plan → Bool
allowed flag p = lenient flag p.tls_insecure p.roles

module _ (flag : Bool) (b : BrokerConfig) (f : Plan → Plan)
    (keeps : (p : Plan) → allowed flag p ≡ true → allowed flag (f p) ≡ true) where
  update_plan-allowed :
      (ps : List Plan)
      → All (λ p. allowed flag p ≡ true) ps
      → All (λ p. allowed flag p ≡ true) (update_plan b f ps)
  unfolding update_plan
  update_plan-allowed [] h = (keeps (new_plan b) refl, tt)
  update_plan-allowed (p ∷ ps) h = ground (arith, h, keeps p, update_plan-allowed ps h.1)

add_replay-allowed :
    (flag : Bool) (wildcards : List Text) (p : Plan)
    → allowed flag p ≡ true
    → allowed flag (add_replay wildcards flag p) ≡ true
unfolding add_replay
add_replay-allowed flag wildcards p h =
    ground (arith, h, any-++ is_global p.roles (replay_broker ∷ []))

plan_replays-allowed :
    (flag : Bool) (wildcards : List Text) (bs : List BrokerConfig) (ps : List Plan)
    → All (λ p. allowed flag p ≡ true) ps
    → All (λ p. allowed flag p ≡ true) (plan_replays wildcards flag bs ps)
unfolding plan_replays
plan_replays-allowed flag wildcards [] ps h = h
plan_replays-allowed flag wildcards (b ∷ bs) ps h =
    plan_replays-allowed flag wildcards bs (update_plan b (add_replay wildcards flag) ps) (
      update_plan-allowed flag b (add_replay wildcards flag) (add_replay-allowed flag wildcards) ps
        h)

-- The plans that only Global Brokers made verify.
plan_globals-allowed :
    (topics : List Text) (bs : List BrokerConfig) (ps : List Plan)
    → All (λ p. allowed false p ≡ true) ps
    → All (λ p. allowed false p ≡ true) (plan_globals topics bs ps)
unfolding plan_globals
plan_globals-allowed topics [] ps h = h
plan_globals-allowed topics (b ∷ bs) ps h =
    plan_globals-allowed topics bs (update_plan b (add_global topics) ps)
      (update_plan-allowed false b (add_global topics) keeps ps h)
  where
    keeps : (p : Plan) → allowed false p ≡ true → allowed false (add_global topics p) ≡ true
    keeps p h = unfold add_global in ground (arith, h)

allowed-All :
    (flag : Bool) (ps : List Plan)
    → All (λ p. allowed false p ≡ true) ps
    → All (λ p. allowed flag p ≡ true) ps
allowed-All flag [] h = tt
allowed-All flag (p ∷ ps) h = (ground (arith, h.0), allowed-All flag ps h.1)

same_role-global : (a b : Role) → same_role a b ≡ true → is_global a ≡ is_global b
same_role-global global_broker global_broker h = refl
same_role-global replay_broker replay_broker h = refl
same_role-global global_broker replay_broker h = cc
same_role-global replay_broker global_broker h = cc

any-same_role :
    (x : Role) (seen : List Role)
    → any (same_role x) seen ≡ true
    → (any is_global seen || is_global x) ≡ any is_global seen
any-same_role x [] h = cc
any-same_role x (y ∷ seen) h = ground (arith, h, same_role-global x y, any-same_role x seen)

any-unique_after :
    (seen xs : List Role)
    → (any is_global seen || any is_global (unique_after same_role seen xs))
      ≡ (any is_global seen || any is_global xs)
unfolding unique_after
any-unique_after seen [] = refl
any-unique_after seen (x ∷ xs) =
    ground (arith, any-unique_after seen xs, any-unique_after (x ∷ seen) xs, any-same_role x seen)

clients_of-lenient :
    (flag : Bool) (ps : List Plan)
    → All (λ p. allowed flag p ≡ true) ps
    → All (λ k. lenient flag k.tls_insecure k.roles ≡ true) (clients_of ps)
unfolding clients_of client_of
clients_of-lenient flag [] h = tt
clients_of-lenient flag (p ∷ ps) h =
    (ground (arith, h.0, any-unique_after [] p.roles), clients_of-lenient flag ps h.1)

abbrev pub is_unverified : Security → Bool
is_unverified unverified = true
is_unverified plain = false
is_unverified verified = false

-- The client is not told to skip the verification, or the setting says so and its host and port are
-- those of no Global Broker.
abbrev pub Verifies : Config → Client → Type 0
Verifies c k =
    (is_unverified (build_client c k).security ≡ false)
    ⊎ ((c.replay_broker_tls_insecure ≡ true)
        × (any (same_broker k.broker) c.brokers ≡ false)
        × (any is_global k.roles ≡ false))

client_of-Verifies :
    (c : Config) (p : Plan)
    → lenient c.replay_broker_tls_insecure (client_of p).tls_insecure (client_of p).roles ≡ true
    → (any (same_broker p.broker) c.brokers ≡ true → knows p.broker p ≡ true)
    → Verifies c (client_of p)
unfolding build_client client_of
client_of-Verifies c p h k = elim (Bool-cases p.tls_insecure) [
  | inr n ↦ inl (ground (arith, n))
  | inl y ↦
      let local : any is_global p.roles ≡ false =
        ground (arith, h, y, any-unique_after [] p.roles) in
      elim (Bool-cases (any (same_broker p.broker) c.brokers)) [
        | inl g ↦ absurd (ground (arith, k g, local, same_broker_refl p.broker))
        | inr g ↦ inr (ground (arith, h, y), g, ground (arith, h, y))
      ]
]

clients_of-Verifies :
    (c : Config) (ps : List Plan)
    → All (λ k. lenient c.replay_broker_tls_insecure k.tls_insecure k.roles ≡ true) (clients_of ps)
    → ((x : BrokerConfig) → any (same_broker x) c.brokers ≡ true → all (knows x) ps ≡ true)
    → All (Verifies c) (clients_of ps)
unfolding clients_of
clients_of-Verifies c [] h k = tt
clients_of-Verifies c (p ∷ ps) h k = (
  client_of-Verifies c p h.0 (λ e. ground (arith, k p.broker e)),
  clients_of-Verifies c ps h.1 (λ x e. ground (arith, k x e)),
)

-- Of the clients of a configuration, one whose host and port are those of a Global Broker is never told
-- to skip the verification of certificates, and no other is unless the setting says so.
pub start-Verifies : (c : Config) → All (Verifies c) (start c)
unfolding start plans_of
start-Verifies c =
    let flag = c.replay_broker_tls_insecure in
    let globals = plan_globals c.subscription_topics c.brokers [] in
    clients_of-Verifies c (plans_of c)
      (clients_of-lenient flag (plans_of c) (
        plan_replays-allowed flag (replay_wildcard_topics c) c.replay_brokers globals
          (allowed-All flag globals (plan_globals-allowed c.subscription_topics c.brokers [] tt))))
      (plans_of-knows c)
