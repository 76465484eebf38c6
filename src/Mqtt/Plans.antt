-- ===== src/Mqtt/Plans.antt =====
-- The plans of `MqttManager.start` (scgrep/mqtt_client.py): one for each broker address.
use scgrep.Prelude.{
  ◌≡◌, refl, inl, inr, Bool, true, false, List, [], ◌∷◌, arith, Bool-cases, subst, sym, ==_iff,
}
use scgrep.Text.{Text}
use scgrep.Text.Laws.{text_eq_comm}
use scgrep.Config.{Config, BrokerConfig, replay_wildcard_topics}
use scgrep.Mqtt.{
  Plan, same_broker, new_plan, update_plan, add_global, add_replay, plan_globals, plan_replays,
  plans_of,
}

-- The address is none of theirs.
abbrev pub NoPlan : BrokerConfig → List Plan → Type 0
NoPlan b [] = Unit {0}
NoPlan b (p ∷ ps) = (same_broker p.broker b ≡ false) × NoPlan b ps

abbrev pub Apart : List Plan → Type 0
Apart [] = Unit {0}
Apart (p ∷ ps) = NoPlan p.broker ps × Apart ps

abbrev SameBroker : (Plan → Plan) → Type 0
SameBroker f = (p : Plan) → (f p).broker ≡ p.broker

NoPlan-same : (b c : BrokerConfig) → b ≡ c → (ps : List Plan) → NoPlan b ps → NoPlan c ps
NoPlan-same b c e ps n = subst (λ x. NoPlan x ps) e n

same_broker_comm : (a b : BrokerConfig) → same_broker b a ≡ false → same_broker a b ≡ false
same_broker_comm a b h =
    ground (arith, h, text_eq_comm a.host b.host, ==_iff a.port b.port, ==_iff b.port a.port)

module _ (b : BrokerConfig) (f : Plan → Plan) (same : SameBroker f) where
  NoPlan-update_plan :
      (c : BrokerConfig) (ps : List Plan)
      → same_broker b c ≡ false
      → NoPlan c ps
      → NoPlan c (update_plan b f ps)
  unfolding update_plan
  NoPlan-update_plan c [] h n = (ground (arith, same (new_plan b), h), tt)
  NoPlan-update_plan c (p ∷ ps) h n = ground (arith, NoPlan-update_plan c ps h n.1, same p, h)

  update_plan-nil : update_plan b f [] ≡ f (new_plan b) ∷ []
  unfolding update_plan
  update_plan-nil = refl

  update_plan-same :
      (p : Plan) (ps : List Plan)
      → same_broker p.broker b ≡ true
      → update_plan b f (p ∷ ps) ≡ f p ∷ ps
  unfolding update_plan
  update_plan-same p ps y = ground (arith, y)

  update_plan-other :
      (p : Plan) (ps : List Plan)
      → same_broker p.broker b ≡ false
      → update_plan b f (p ∷ ps) ≡ p ∷ update_plan b f ps
  unfolding update_plan
  update_plan-other p ps n = ground (arith, n)

  Apart-update_plan : (ps : List Plan) → Apart ps → Apart (update_plan b f ps)
  Apart-update_plan [] a = subst Apart (sym update_plan-nil) (tt, tt)
  Apart-update_plan (p ∷ ps) a = elim (Bool-cases (same_broker p.broker b)) [
    | inl y ↦
        subst Apart (sym (update_plan-same p ps y))
          (NoPlan-same p.broker (f p).broker (sym (same p)) ps a.0, a.1)
    | inr n ↦ subst Apart (sym (update_plan-other p ps n)) (
      NoPlan-update_plan p.broker ps (same_broker_comm b p.broker n) a.0,
      Apart-update_plan ps a.1,
    )
  ]

plan_globals-Apart :
    (topics : List Text) (bs : List BrokerConfig) (ps : List Plan)
    → Apart ps
    → Apart (plan_globals topics bs ps)
unfolding plan_globals add_global
plan_globals-Apart topics [] ps a = a
plan_globals-Apart topics (b ∷ bs) ps a =
    plan_globals-Apart topics bs (update_plan b (add_global topics) ps)
      (Apart-update_plan b (add_global topics) (λ p. refl) ps a)

plan_replays-Apart :
    (wildcards : List Text) (insecure : Bool) (bs : List BrokerConfig) (ps : List Plan)
    → Apart ps
    → Apart (plan_replays wildcards insecure bs ps)
unfolding plan_replays add_replay
plan_replays-Apart wildcards insecure [] ps a = a
plan_replays-Apart wildcards insecure (b ∷ bs) ps a =
    plan_replays-Apart wildcards insecure bs (update_plan b (add_replay wildcards insecure) ps)
      (Apart-update_plan b (add_replay wildcards insecure) (λ p. refl) ps a)

-- No two plans of a configuration, from which its clients are built, have the same host and port.
pub plans_of-Apart : (c : Config) → Apart (plans_of c)
unfolding plans_of
plans_of-Apart c =
    plan_replays-Apart (replay_wildcard_topics c) c.replay_broker_tls_insecure c.replay_brokers
      (plan_globals c.subscription_topics c.brokers [])
      (plan_globals-Apart c.subscription_topics c.brokers [] tt)
