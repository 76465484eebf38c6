-- ===== src/Mqtt/Roles.antt =====
-- The role of the plans of `MqttManager.start` (scgrep/mqtt_client.py) for the Global Brokers.
use scgrep.Prelude.{
  ◌≡◌, refl, Bool, true, not, ◌||◌, List, [], ◌∷◌, any, all, arith, Bool-cases, inl, inr, ==_iff,
}
use scgrep.Text.{Text}
use scgrep.Text.Laws.{text_eq_iff}
use scgrep.Config.{Config, BrokerConfig, replay_wildcard_topics}
use scgrep.Mqtt.Coverage.{any-++, update_plan-keeps, same_broker_trans}
use scgrep.Mqtt.{
  global_broker, replay_broker, is_global, Plan, same_broker, new_plan, update_plan, add_global,
  add_replay, plan_globals, plan_replays, plans_of,
}

-- The plan is for the address, and the plan has the role of a Global Broker if it is.
abbrev at : BrokerConfig → Plan → Bool
at x p = same_broker x p.broker

abbrev pub knows : BrokerConfig → Plan → Bool
knows x p = not (same_broker x p.broker) || any is_global p.roles

common :
    (x b p : BrokerConfig)
    → same_broker x b ≡ true
    → same_broker x p ≡ true
    → same_broker p b ≡ true
common x b p h k = ground (
  arith,
  h,
  k,
  text_eq_iff x.host b.host,
  text_eq_iff x.host p.host,
  text_eq_iff p.host b.host,
  ==_iff x.port b.port,
  ==_iff x.port p.port,
  ==_iff p.port b.port,
)

module _ (x : BrokerConfig) where
  knows-add_global : (topics : List Text) (p : Plan) → knows x (add_global topics p) ≡ true
  unfolding add_global
  knows-add_global topics p = ground (arith, any-++ is_global p.roles (global_broker ∷ []))

  knows-add_replay :
      (wildcards : List Text) (insecure : Bool) (p : Plan)
      → knows x p ≡ true
      → knows x (add_replay wildcards insecure p) ≡ true
  unfolding add_replay
  knows-add_replay wildcards insecure p h =
      ground (arith, h, any-++ is_global p.roles (replay_broker ∷ []))

  at-add_replay :
      (wildcards : List Text) (insecure : Bool) (p : Plan)
      → at x p ≡ true
      → at x (add_replay wildcards insecure p) ≡ true
  unfolding add_replay
  at-add_replay wildcards insecure p h = h

  at-add_global :
      (topics : List Text) (p : Plan) → at x p ≡ true → at x (add_global topics p) ≡ true
  unfolding add_global
  at-add_global topics p h = h

  update_plan-global :
      (topics : List Text) (b : BrokerConfig) (ps : List Plan)
      → all (knows x) ps ≡ true
      → all (knows x) (update_plan b (add_global topics) ps) ≡ true
  unfolding update_plan
  update_plan-global topics b [] h = ground (arith, knows-add_global topics (new_plan b))
  update_plan-global topics b (p ∷ ps) h =
      ground (arith, h, knows-add_global topics p, update_plan-global topics b ps)

  -- A Replay Broker at the address changes the plan that is there.
  update_plan-replay :
      (wildcards : List Text) (insecure : Bool) (b : BrokerConfig) (ps : List Plan)
      → (same_broker x b ≡ true → any (at x) ps ≡ true)
      → all (knows x) ps ≡ true
      → all (knows x) (update_plan b (add_replay wildcards insecure) ps) ≡ true
  unfolding update_plan
  update_plan-replay wildcards insecure b [] k h = elim (Bool-cases (same_broker x b)) [
    | inl y ↦ absurd (ground (arith, k y))
    | inr n ↦ ground (arith, n, knows-add_replay wildcards insecure (new_plan b))
  ]
  update_plan-replay wildcards insecure b (p ∷ ps) k h =
      elim (Bool-cases (same_broker p.broker b)) [
        | inl y ↦ ground (arith, y, h, knows-add_replay wildcards insecure p)
        | inr n ↦
            let rest =
              update_plan-replay wildcards insecure b ps
                (λ e. ground (arith, n, k e, common x b p.broker e)) (ground (arith, h)) in
            ground (arith, n, h, rest)
      ]

  update_plan-at :
      (topics : List Text) (b : BrokerConfig) (ps : List Plan)
      → same_broker x b ≡ true
      → any (at x) (update_plan b (add_global topics) ps) ≡ true
  unfolding update_plan add_global
  update_plan-at topics b [] h = ground (arith, h)
  update_plan-at topics b (p ∷ ps) h =
      ground (arith, h, update_plan-at topics b ps h, same_broker_trans x b p.broker h)

  plan_globals-at :
      (topics : List Text) (bs : List BrokerConfig) (ps : List Plan)
      → any (at x) ps || any (same_broker x) bs ≡ true
      → any (at x) (plan_globals topics bs ps) ≡ true
  unfolding plan_globals
  plan_globals-at topics [] ps h = ground (arith, h)
  plan_globals-at topics (b ∷ bs) ps h =
      plan_globals-at topics bs (update_plan b (add_global topics) ps) (
        ground (
          arith,
          h,
          update_plan-at topics b ps,
          update_plan-keeps b (add_global topics) (at x) (at-add_global topics) ps,
        ))

  plan_globals-knows :
      (topics : List Text) (bs : List BrokerConfig) (ps : List Plan)
      → all (knows x) ps ≡ true
      → all (knows x) (plan_globals topics bs ps) ≡ true
  unfolding plan_globals
  plan_globals-knows topics [] ps h = h
  plan_globals-knows topics (b ∷ bs) ps h =
      plan_globals-knows topics bs (update_plan b (add_global topics) ps)
        (update_plan-global topics b ps h)

  plan_replays-knows :
      (wildcards : List Text) (insecure : Bool) (bs : List BrokerConfig) (ps : List Plan)
      → any (at x) ps ≡ true
      → all (knows x) ps ≡ true
      → all (knows x) (plan_replays wildcards insecure bs ps) ≡ true
  unfolding plan_replays
  plan_replays-knows wildcards insecure [] ps k h = h
  plan_replays-knows wildcards insecure (b ∷ bs) ps k h =
      plan_replays-knows wildcards insecure bs (update_plan b (add_replay wildcards insecure) ps)
        (update_plan-keeps b (add_replay wildcards insecure) (at x)
          (at-add_replay wildcards insecure) ps k)
        (update_plan-replay wildcards insecure b ps (λ e. k) h)

-- Every plan at the address of a Global Broker has its role.
pub plans_of-knows :
    (c : Config) (x : BrokerConfig)
    → any (same_broker x) c.brokers ≡ true
    → all (knows x) (plans_of c) ≡ true
unfolding plans_of
plans_of-knows c x h =
    let globals = plan_globals c.subscription_topics c.brokers [] in
    plan_replays-knows x (replay_wildcard_topics c) c.replay_broker_tls_insecure c.replay_brokers
      globals (plan_globals-at x c.subscription_topics c.brokers [] h)
      (plan_globals-knows x c.subscription_topics c.brokers [] refl)
