-- ===== src/Mqtt/Url.antt =====
-- The URLs of the clients of `MqttManager.start` (scgrep/mqtt_client.py) differ.
use scgrep.Prelude.{
  ℕ, zero, suc, ◌≡◌, refl, ap, Bool, true, false, List, [], ◌∷◌, ◌++◌, All, arith, ==_iff,
  if◌then◌else◌,
}
use scgrep.Text.{Text, codes, text_eq, has_char, print_nat}
use scgrep.Text.Laws.{text_eq_iff, append_cancel}
use scgrep.Text.Decimal.{print_nat_inj, print_nat-digits}
use scgrep.Config.{Config, BrokerConfig}
use scgrep.Mqtt.{Plan, same_broker, plans_of, client_of, clients_of, start, broker_url}
use scgrep.Mqtt.Plans.{NoPlan, Apart, plans_of-Apart}
use scgrep.Mqtt.Connection.{Urls, url_of}

no_colon : (c : ℕ) (b q : Text) → has_char c (b ++ (c ∷ q)) ≡ true
unfolding has_char
no_colon c [] q = ground arith
no_colon c (x ∷ b) q = ground (arith, no_colon c b q)

-- The last colon splits a text in one way.
last_colon :
    (c : ℕ) (a b p q : Text)
    → has_char c p ≡ false
    → has_char c q ≡ false
    → a ++ (c ∷ p) ≡ b ++ (c ∷ q)
    → (a ≡ b) × (p ≡ q)
last_colon c [] [] p q h k e = (refl, cc)
last_colon c [] (y ∷ b) p q h k e =
    let f : p ≡ b ++ (c ∷ q) = cc in absurd (ground (arith, h, no_colon c b q, f))
last_colon c (x ∷ a) [] p q h k e =
    let f : q ≡ a ++ (c ∷ p) = cc in absurd (ground (arith, k, no_colon c a p, f))
last_colon c (x ∷ a) (y ∷ b) p q h k e = let (f, g) = last_colon c a b p q h k (cc) in (cc, g)

abbrev char_at : ℕ → Text → ℕ
char_at n [] = 0
char_at zero (x ∷ s) = x
char_at (suc n) (x ∷ s) = char_at n s

-- What follows the scheme.
behind_scheme :
    (t u : Bool) (x y : Text)
    → (if t then codes "mqtts" else codes "mqtt") ++ (codes "://" ++ x)
      ≡ (if u then codes "mqtts" else codes "mqtt") ++ (codes "://" ++ y)
    → x ≡ y
behind_scheme true true x y e = append_cancel (codes "mqtts://") e
behind_scheme true false x y e = absurd (omega (arith, ap (char_at 4) e))
behind_scheme false true x y e = absurd (omega (arith, ap (char_at 4) e))
behind_scheme false false x y e = append_cancel (codes "mqtt://") e

-- The URL of a broker names its host and its port.
pub broker_url_inj : (a b : BrokerConfig) → broker_url a ≡ broker_url b → same_broker a b ≡ true
unfolding broker_url
broker_url_inj a b e =
    let (host, port) =
      last_colon b':' a.host b.host (print_nat a.port) (print_nat b.port)
        (print_nat-digits a.port b':' (omega arith)) (print_nat-digits b.port b':' (omega arith))
        (behind_scheme a.tls b.tls (a.host ++ (b':' ∷ print_nat a.port))
          (b.host ++ (b':' ∷ print_nat b.port)) e) in
    ground (
      arith,
      (text_eq_iff a.host b.host).1 host,
      (==_iff a.port b.port).1 (print_nat_inj a.port b.port port),
    )

urls_apart :
    (p : Plan) (ps : List Plan)
    → NoPlan p.broker ps
    → All (λ d. text_eq (url_of (client_of p)) (url_of d) ≡ false) (clients_of ps)
unfolding clients_of client_of
urls_apart p [] h = tt
urls_apart p (x ∷ ps) h = (
  ground (
    arith,
    h.0,
    text_eq_iff (broker_url p.broker) (broker_url x.broker),
    broker_url_inj x.broker p.broker,
  ),
  urls_apart p ps h.1,
)

plans-Urls : (ps : List Plan) → Apart ps → Urls (clients_of ps)
unfolding clients_of
plans-Urls [] a = tt
plans-Urls (p ∷ ps) a = (urls_apart p ps a.0, plans-Urls ps a.1)

-- The clients of a configuration have different URLs.
pub start-Urls : (c : Config) → Urls (start c)
unfolding start
start-Urls c = plans-Urls (plans_of c) (plans_of-Apart c)
