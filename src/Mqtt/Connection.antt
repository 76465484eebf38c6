-- ===== src/Mqtt/Connection.antt =====
-- The connections of MqttManager (scgrep/mqtt_client.py) over time: the callbacks run one after the
-- other, in any order and any number of times, as brokers drop and come back.
use scgrep.Prelude.{
  ℕ, ℤ, ◌≡◌, ◌∙◌, refl, ◌⊎◌, inl, inr, Bool, true, false, Option, none, some, List, [], ◌∷◌, ◌++◌,
  All, arith, if◌then◌else◌, ◌==◌, Bool-cases,
}
use scgrep.Text.{Text, text_eq}
use scgrep.Text.Laws.{text_eq_refl, text_eq_comm}
use scgrep.Mqtt.{
  Client, broker_url, Action, set_status, subscribe, with_qos, on_connect, on_disconnect,
  track_message, connect,
}

-- The gauges of the connections, what was subscribed since the last connection of each broker began, and
-- when each broker's last message came; by the broker's URL.
pub record Manager : Type 0 where
  pub status : Text → Option Bool
  pub requested : Text → List (Text × ℕ)
  pub last_message : Text → Option ℤ

abbrev pub update : {A : Type 0} → (Text → A) → Text → A → Text → A
update f k v j = if text_eq k j then v else f j

abbrev pub url_of : Client → Text
url_of c = broker_url c.broker

-- One action of a callback of the client with this URL.
unfoldable pub apply : Text → Action → Manager → Manager
apply url (set_status series up) m = record m { status = update m.status series (some up) }
apply url (subscribe topics) m = record m {
  requested = update m.requested url (m.requested url ++ topics);
}

unfoldable pub apply_all : Text → List Action → Manager → Manager
apply_all url [] m = m
apply_all url (a ∷ actions) m = apply_all url actions (apply url a m)

-- A connection begins without subscriptions (clean_session=True).
abbrev pub fresh_session : Text → Manager → Manager
fresh_session url m = record m { requested = update m.requested url [] }

pub data Callback : Type 0 where
  connected : (reason_code : ℕ) → Callback
  disconnected : Callback
  message : (now : ℤ) → Callback

-- What a callback of a client does.
pub call : Client → Callback → Manager → Manager
call c (connected reason_code) m =
    apply_all (url_of c) (on_connect c reason_code) (fresh_session (url_of c) m)
call c disconnected m = apply_all (url_of c) (on_disconnect c) (fresh_session (url_of c) m)
call c (message now) m = record m { last_message = track_message m.last_message (url_of c) now }

pub data In : Client → List Client → Type 0 where
  here : {c : Client} {cs : List Client} → In c (c ∷ cs)
  there : {c d : Client} {cs : List Client} → In c cs → In c (d ∷ cs)

-- A connection begins: _connect of a client, at the instant that the clock reads.
abbrev pub connect_one : Client → ℤ → Manager → Manager
connect_one c now m =
    let (actions, seeded) = connect c now m.last_message in
    apply_all (url_of c) actions (record m { last_message = seeded })

abbrev pub unconnected : Manager
unconnected = record { status = λ u. none; requested = λ u. []; last_message = λ u. none }

-- What `start` and the network threads come to: the clients that are connected to so far, in the order
-- in which `start` has them, those that it has still to connect to, and the state. The callbacks of a
-- client run from then on, in any order and any number of times.
pub data Reachable (cs : List Client) : List Client → List Client → Manager → Type 0 where
  ready : Reachable cs [] cs unconnected
  begins :
      {started pending : List Client} {m : Manager} (c : Client) (now : ℤ)
      → Reachable cs started (c ∷ pending) m
      → Reachable cs (started ++ (c ∷ [])) pending (connect_one c now m)
  calls :
      {started pending : List Client} {m : Manager} {c : Client} (e : Callback)
      → In c started
      → Reachable cs started pending m
      → Reachable cs started pending (call c e m)

-- The URLs of the clients differ.
abbrev pub Urls : List Client → Type 0
Urls [] = Unit {0}
Urls (c ∷ cs) = All (λ d. text_eq (url_of c) (url_of d) ≡ false) cs × Urls cs

-- The gauge of a client is set; where it shows a connection, all of its topics were subscribed with
-- QoS 1 since that began, and nothing else; and the age of its last message can be read.
pub record Tracked (m : Manager) (c : Client) : Type 0 where
  pub shown :
      (m.status (url_of c) ≡ some false)
      ⊎ ((m.status (url_of c) ≡ some true) × (m.requested (url_of c) ≡ with_qos c.subscriptions))
  pub timed : (at : ℤ) × (m.last_message (url_of c) ≡ some at)

-- A callback of a client leaves the other URLs as they are.
apart :
    (c : Client) (e : Callback) (m : Manager) (u : Text)
    → text_eq (url_of c) u ≡ false
    → ((call c e m).status u ≡ m.status u)
      × ((call c e m).requested u ≡ m.requested u)
      × ((call c e m).last_message u ≡ m.last_message u)
unfolding call apply_all apply on_connect on_disconnect track_message
apart c (connected reason_code) m u h = elim (Bool-cases (reason_code == 0)) [
  | inl y ↦ (ground (arith, y, h), ground (arith, y, h), ground (arith, y, h))
  | inr n ↦ (ground (arith, n, h), ground (arith, n, h), ground (arith, n, h))
]
apart c disconnected m u h = (ground (arith, h), ground (arith, h), ground (arith, h))
apart c (message now) m u h = (refl, refl, ground (arith, h))

apart-Tracked :
    (c d : Client) (e : Callback) (m : Manager)
    → text_eq (url_of c) (url_of d) ≡ false
    → Tracked m d
    → Tracked (call c e m) d
apart-Tracked c d e m h t =
    let (status, requested, last) = apart c e m (url_of d) h in
    record {
      shown = elim t.shown [
        | inl off ↦ inl (status ∙ off)
        | inr (up, topics) ↦ inr (status ∙ up, requested ∙ topics)
      ];
      timed = (t.timed.0, last ∙ t.timed.1);
    }

own-Tracked : (c : Client) (e : Callback) (m : Manager) → Tracked m c → Tracked (call c e m) c
unfolding call apply_all apply on_connect on_disconnect track_message
own-Tracked c (connected reason_code) m t = elim (Bool-cases (reason_code == 0)) [
  | inl y ↦ record {
    shown =
        inr
          (ground (arith, y, text_eq_refl (url_of c)), ground (arith, y, text_eq_refl (url_of c)));
    timed = (t.timed.0, ground (arith, y, t.timed.1));
  }
  | inr n ↦ record {
    shown = inl (ground (arith, n, text_eq_refl (url_of c)));
    timed = (t.timed.0, ground (arith, n, t.timed.1));
  }
]
own-Tracked c disconnected m t = record {
  shown = inl (ground (arith, text_eq_refl (url_of c)));
  timed = t.timed;
}
own-Tracked c (message now) m t = record {
  shown = t.shown;
  timed = (now, ground (arith, text_eq_refl (url_of c)));
}

In-apart :
    {c : Client} {cs : List Client} (d : Client)
    → In c cs
    → All (λ x. text_eq (url_of d) (url_of x) ≡ false) cs
    → text_eq (url_of d) (url_of c) ≡ false
In-apart d here h = h.0
In-apart d (there i) h = In-apart d i h.1

All-apart :
    (c : Client) (e : Callback) (m : Manager) (cs : List Client)
    → All (λ d. text_eq (url_of c) (url_of d) ≡ false) cs
    → All (Tracked m) cs
    → All (Tracked (call c e m)) cs
All-apart c e m [] h t = tt
All-apart c e m (d ∷ cs) h t = (apart-Tracked c d e m h.0 t.0, All-apart c e m cs h.1 t.1)

pub call-All :
    {c : Client} {cs : List Client} (e : Callback) (m : Manager)
    → In c cs
    → Urls cs
    → All (Tracked m) cs
    → All (Tracked (call c e m)) cs
call-All e m (here {c = c} {cs = cs}) u t = (own-Tracked c e m t.0, All-apart c e m cs u.0 t.1)
call-All e m (there {c = c} {d = d} i) u t =
    let h = text_eq_comm (url_of c) (url_of d) ∙ In-apart d i u.0 in
    (apart-Tracked c d e m h t.0, call-All e m i u.1 t.1)
