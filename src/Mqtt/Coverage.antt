-- ===== src/Mqtt/Coverage.antt =====
-- The subscriptions of the clients of `MqttManager.start` (scgrep/mqtt_client.py).
use scgrep.Prelude.{
  ◌≡◌, refl, Bool, true, ◌&&◌, ◌||◌, List, [], ◌∷◌, ◌++◌, arith, any, all, Bool-cases, ==_iff, inl,
  inr,
}
use scgrep.Text.{Text, text_eq}
use scgrep.Text.Laws.{text_eq_iff, text_eq_refl}
use scgrep.Config.{Config, BrokerConfig, replay_wildcard_topics}
use scgrep.Mqtt.{
  Plan, same_broker, new_plan, update_plan, add_global, add_replay, plan_globals, plan_replays,
  plans_of, unique_after, client_of, clients_of, start,
}

abbrev pub has : Text → List Text → Bool
has t ts = any (text_eq t) ts

pub any-++ :
    {A : Type 0} (f : A → Bool) (xs ys : List A) → any f (xs ++ ys) ≡ (any f xs || any f ys)
any-++ f [] ys = refl
any-++ f (x ∷ xs) ys = ground (arith, any-++ f xs ys)

-- dict.fromkeys drops no topic.
has-unique_after :
    (t : Text) (seen xs : List Text)
    → (has t seen || has t (unique_after text_eq seen xs)) ≡ (has t seen || has t xs)
unfolding unique_after
has-unique_after t seen [] = refl
has-unique_after t seen (x ∷ xs) =
    ground (arith, has-unique_after t seen xs, has-unique_after t (x ∷ seen) xs, text_eq_iff t x)

module _ (b : BrokerConfig) (f : Plan → Plan) (q : Plan → Bool) where
  pub update_plan-keeps :
      ((p : Plan) → q p ≡ true → q (f p) ≡ true)
      → (ps : List Plan) → any q ps ≡ true
      → any q (update_plan b f ps) ≡ true
  unfolding update_plan
  update_plan-keeps k [] h = ground (arith, h)
  update_plan-keeps k (p ∷ ps) h = ground (arith, update_plan-keeps k ps, k p, h)

  update_plan-all :
      ((p : Plan) → q p ≡ true → q (f p) ≡ true)
      → q (new_plan b) ≡ true
      → (ps : List Plan) → all q ps ≡ true
      → all q (update_plan b f ps) ≡ true
  unfolding update_plan
  update_plan-all k n [] h = ground (arith, k (new_plan b) n)
  update_plan-all k n (p ∷ ps) h = ground (arith, update_plan-all k n ps, k p, h)

-- The plan has the address and the topic.
abbrev holds : BrokerConfig → Text → Plan → Bool
holds x t p = same_broker x p.broker && has t p.subs

pub same_broker_trans :
    (a b c : BrokerConfig)
    → same_broker a b ≡ true
    → same_broker c b ≡ true
    → same_broker a c ≡ true
same_broker_trans a b c h k = ground (
  arith,
  h,
  k,
  text_eq_iff a.host b.host,
  text_eq_iff c.host b.host,
  text_eq_iff a.host c.host,
  ==_iff a.port b.port,
  ==_iff c.port b.port,
  ==_iff a.port c.port,
)

pub same_broker_refl : (b : BrokerConfig) → same_broker b b ≡ true
same_broker_refl b = ground (arith, text_eq_refl b.host, ==_iff b.port b.port)

module _ (x : BrokerConfig) (t : Text) (topics : List Text) (listed : has t topics ≡ true) where
  update_plan-gains :
      (b : BrokerConfig) (f : Plan → Plan)
      → ((p : Plan) → (f p).broker ≡ p.broker)
      → ((p : Plan) → (f p).subs ≡ p.subs ++ topics)
      → same_broker x b ≡ true
      → (ps : List Plan) → any (holds x t) (update_plan b f ps) ≡ true
  unfolding update_plan
  update_plan-gains b f same more h [] =
      ground (arith, h, same (new_plan b), more (new_plan b), listed)
  update_plan-gains b f same more h (p ∷ ps) = ground (
    arith,
    h,
    listed,
    same p,
    more p,
    update_plan-gains b f same more h ps,
    same_broker_trans x b p.broker h,
    any-++ (text_eq t) p.subs topics,
  )

  holds-add_global : (p : Plan) → holds x t p ≡ true → holds x t (add_global topics p) ≡ true
  unfolding add_global
  holds-add_global p h = ground (arith, h, any-++ (text_eq t) p.subs topics)

  holds-add_replay :
      (insecure : Bool) (p : Plan)
      → holds x t p ≡ true
      → holds x t (add_replay topics insecure p) ≡ true
  unfolding add_replay
  holds-add_replay insecure p h = ground (arith, h, any-++ (text_eq t) p.subs topics)

module _ (x : BrokerConfig) (t : Text) where
  keeps-add_global :
      (topics : List Text) (p : Plan) → holds x t p ≡ true → holds x t (add_global topics p) ≡ true
  unfolding add_global
  keeps-add_global topics p h = ground (arith, h, any-++ (text_eq t) p.subs topics)

  keeps-add_replay :
      (topics : List Text) (insecure : Bool) (p : Plan)
      → holds x t p ≡ true
      → holds x t (add_replay topics insecure p) ≡ true
  unfolding add_replay
  keeps-add_replay topics insecure p h = ground (arith, h, any-++ (text_eq t) p.subs topics)

  plan_globals-keeps :
      (topics : List Text) (bs : List BrokerConfig) (ps : List Plan)
      → any (holds x t) ps ≡ true
      → any (holds x t) (plan_globals topics bs ps) ≡ true
  unfolding plan_globals
  plan_globals-keeps topics [] ps h = h
  plan_globals-keeps topics (b ∷ bs) ps h =
      plan_globals-keeps topics bs (update_plan b (add_global topics) ps)
        (update_plan-keeps b (add_global topics) (holds x t) (keeps-add_global topics) ps h)

  plan_replays-keeps :
      (topics : List Text) (insecure : Bool) (bs : List BrokerConfig) (ps : List Plan)
      → any (holds x t) ps ≡ true
      → any (holds x t) (plan_replays topics insecure bs ps) ≡ true
  unfolding plan_replays
  plan_replays-keeps topics insecure [] ps h = h
  plan_replays-keeps topics insecure (b ∷ bs) ps h =
      plan_replays-keeps topics insecure bs (update_plan b (add_replay topics insecure) ps) (
        update_plan-keeps b (add_replay topics insecure) (holds x t)
          (keeps-add_replay topics insecure) ps h)

  plan_globals-covers :
      (topics : List Text) (bs : List BrokerConfig) (ps : List Plan)
      → has t topics ≡ true
      → any (same_broker x) bs ≡ true
      → any (holds x t) (plan_globals topics bs ps) ≡ true
  unfolding plan_globals add_global
  plan_globals-covers topics (b ∷ bs) ps l h = elim (Bool-cases (same_broker x b)) [
    | inl y ↦
        plan_globals-keeps topics bs (update_plan b (add_global topics) ps)
          (update_plan-gains x t topics l b (add_global topics) (λ p. refl) (λ p. refl) y ps)
    | inr n ↦
        plan_globals-covers topics bs (update_plan b (add_global topics) ps) l
          (ground (arith, n, h))
  ]
  plan_globals-covers topics [] ps l h = ground (arith, h)

  plan_replays-covers :
      (topics : List Text) (insecure : Bool) (bs : List BrokerConfig) (ps : List Plan)
      → has t topics ≡ true
      → any (same_broker x) bs ≡ true
      → any (holds x t) (plan_replays topics insecure bs ps) ≡ true
  unfolding plan_replays add_replay
  plan_replays-covers topics insecure (b ∷ bs) ps l h = elim (Bool-cases (same_broker x b)) [
    | inl y ↦
        plan_replays-keeps topics insecure bs (update_plan b (add_replay topics insecure) ps) (
          update_plan-gains x t topics l b (add_replay topics insecure) (λ p. refl) (λ p. refl) y
            ps)
    | inr n ↦
        plan_replays-covers topics insecure bs (update_plan b (add_replay topics insecure) ps) l
          (ground (arith, n, h))
  ]
  plan_replays-covers topics insecure [] ps l h = ground (arith, h)

  any-clients_of :
      (ps : List Plan)
      → any (λ k. same_broker x k.broker && has t k.subscriptions) (clients_of ps)
        ≡ any (holds x t) ps
  unfolding clients_of client_of
  any-clients_of [] = refl
  any-clients_of (p ∷ ps) = ground (arith, any-clients_of ps, has-unique_after t [] p.subs)

-- For each configured topic and each Global Broker, and for each replay wildcard and each Replay
-- Broker, some client has the broker's host and port and the subscription.
pub start-covers :
    (c : Config) (x : BrokerConfig) (t : Text)
    → any (same_broker x) c.brokers && has t c.subscription_topics
        || any (same_broker x) c.replay_brokers && has t (replay_wildcard_topics c)
      ≡ true
    → any (λ k. same_broker x k.broker && has t k.subscriptions) (start c) ≡ true
unfolding start plans_of
start-covers c x t h = ground (
  arith,
  h,
  any-clients_of x t (plans_of c),
  plan_replays-covers x t (replay_wildcard_topics c) c.replay_broker_tls_insecure c.replay_brokers
      (plan_globals c.subscription_topics c.brokers []),
  plan_replays-keeps x t (replay_wildcard_topics c) c.replay_broker_tls_insecure c.replay_brokers
      (plan_globals c.subscription_topics c.brokers []),
  plan_globals-covers x t c.subscription_topics c.brokers [],
)
