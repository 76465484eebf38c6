-- ===== src/Mqtt/Session.antt =====
-- The connections of MqttManager (scgrep/mqtt_client.py) from `start` on.
use scgrep.Prelude.{
  ℤ, ◌≡◌, ◌∙◌, refl, sym, subst, inl, inr, All-append, false, List, [], ◌∷◌, ◌++◌, All, arith,
  Option-cases,
}
use mathlib.Core.List.{append_assoc}
use scgrep.Text.{Text, text_eq}
use scgrep.Text.Laws.{text_eq_refl, text_eq_comm}
use scgrep.Config.{Config}
use scgrep.Mqtt.{Client, start, connect, track_message}
use scgrep.Mqtt.Connection.{
  Manager, url_of, apply, apply_all, connect_one, Urls, Tracked, Reachable, ready, begins, calls,
  call-All,
}
use scgrep.Mqtt.Url.{start-Urls}

connect_one-own : (c : Client) (now : ℤ) (m : Manager) → Tracked (connect_one c now m) c
unfolding connect apply_all apply track_message
connect_one-own c now m = elim (Option-cases (m.last_message (url_of c))) [
  | inl e ↦ record {
    shown = inl (ground (arith, text_eq_refl (url_of c)));
    timed = (now, ground (arith, e, text_eq_refl (url_of c)));
  }
  | inr (at, e) ↦ record {
    shown = inl (ground (arith, text_eq_refl (url_of c)));
    timed = (at, ground (arith, e));
  }
]

connect_one-apart :
    (c : Client) (now : ℤ) (m : Manager) (u : Text)
    → text_eq (url_of c) u ≡ false
    → ((connect_one c now m).status u ≡ m.status u)
      × ((connect_one c now m).requested u ≡ m.requested u)
      × ((connect_one c now m).last_message u ≡ m.last_message u)
unfolding connect apply_all apply track_message
connect_one-apart c now m u h = (ground (arith, h), refl, ground (arith, h))

connect_one-Tracked :
    (c d : Client) (now : ℤ) (m : Manager)
    → text_eq (url_of c) (url_of d) ≡ false
    → Tracked m d
    → Tracked (connect_one c now m) d
connect_one-Tracked c d now m h t =
    let (status, requested, last) = connect_one-apart c now m (url_of d) h in
    record {
      shown = elim t.shown [
        | inl off ↦ inl (status ∙ off)
        | inr (up, topics) ↦ inr (status ∙ up, requested ∙ topics)
      ];
      timed = (t.timed.0, last ∙ t.timed.1);
    }

-- The URL of a client in the middle differs from those before it.
Urls-before :
    (xs : List Client) (c : Client) (ys : List Client)
    → Urls (xs ++ (c ∷ ys))
    → All (λ d. text_eq (url_of c) (url_of d) ≡ false) xs
Urls-before [] c ys u = tt
Urls-before (x ∷ xs) c ys u =
    (text_eq_comm (url_of c) (url_of x) ∙ among xs u.0, Urls-before xs c ys u.1)
  where
    among :
        (zs : List Client)
        → All (λ d. text_eq (url_of x) (url_of d) ≡ false) (zs ++ (c ∷ ys))
        → text_eq (url_of x) (url_of c) ≡ false
    among [] h = h.0
    among (z ∷ zs) h = among zs h.1

Urls-left : (xs ys : List Client) → Urls (xs ++ ys) → Urls xs
Urls-left [] ys u = tt
Urls-left (x ∷ xs) ys u = (before xs u.0, Urls-left xs ys u.1)
  where
    before :
        (zs : List Client)
        → All (λ d. text_eq (url_of x) (url_of d) ≡ false) (zs ++ ys)
        → All (λ d. text_eq (url_of x) (url_of d) ≡ false) zs
    before [] h = tt
    before (z ∷ zs) h = (h.0, before zs h.1)

connect_one-All :
    (c : Client) (now : ℤ) (m : Manager) (cs : List Client)
    → All (λ d. text_eq (url_of c) (url_of d) ≡ false) cs
    → All (Tracked m) cs
    → All (Tracked (connect_one c now m)) cs
connect_one-All c now m [] h t = tt
connect_one-All c now m (d ∷ cs) h t =
    (connect_one-Tracked c d now m h.0 t.0, connect_one-All c now m cs h.1 t.1)

Reachable-split :
    {cs started pending : List Client} {m : Manager}
    → Reachable cs started pending m
    → started ++ pending ≡ cs
Reachable-split ready = refl
Reachable-split (begins {started = xs} {pending = ys} c now r) =
    append_assoc xs (c ∷ []) ys ∙ Reachable-split r
Reachable-split (calls e i r) = Reachable-split r

Reachable-Tracked :
    {cs started pending : List Client} {m : Manager}
    → Urls cs
    → Reachable cs started pending m
    → All (Tracked m) started
Reachable-Tracked u ready = tt
Reachable-Tracked u (begins {started = xs} {pending = ys} {m = m} c now r) =
    let apart = Urls-before xs c ys (subst Urls (sym (Reachable-split r)) u) in
    All-append (Tracked (connect_one c now m)) xs (c ∷ [])
      (connect_one-All c now m xs apart (Reachable-Tracked u r)) (connect_one-own c now m, tt)
Reachable-Tracked u (calls {started = xs} {pending = ys} {m = m} e i r) =
    call-All e m i (Urls-left xs ys (subst Urls (sym (Reachable-split r)) u))
      (Reachable-Tracked u r)

-- From the start of a configuration's clients on, whatever callbacks run, in whatever order and however
-- often, also while later clients are still to be connected: the clients connected to so far come first
-- in the order of `start`, and the gauge of each is set; where it shows a connection, the topics of the
-- client were subscribed with QoS 1 since this connection began, and nothing else; and the age of its
-- last message can be read.
pub start-Tracked :
    (c : Config) (started pending : List Client) (m : Manager)
    → Reachable (start c) started pending m
    → (started ++ pending ≡ start c) × All (Tracked m) started
start-Tracked c started pending m r = (Reachable-split r, Reachable-Tracked (start-Urls c) r)
