-- ===== src/Registry/Deliver.antt =====
-- A counter of the registry from register to unregister.
use mathlib.Core.List.{append_assoc}
use scgrep.Prelude.{
  ℕ, zero, suc, ◌<◌, ◌≡◌, ◌∙◌, refl, sym, ap, ◌≢◌, true, false, Option, none, some, List, [], ◌∷◌,
  ◌++◌, arith, if◌then◌else◌, length, get_elem?, ◌==◌, All,
}
use scgrep.Text.{Text, codes, text_eq, starts_with, rstrip_char}
use scgrep.Text.Laws.{text_eq_refl, starts_with-append}
use scgrep.Text.Affix.{EndsClean, EndsClean-append, rstrip_by_id, rstrip_by-snoc}
use scgrep.Libs.{Libs}
use scgrep.Registry.{
  Registry, ReplayCounter, new_counter, assign, pop, register, unregister, snapshot,
  channel_matches, route, handle_replay,
}
use scgrep.Registry.Valid.{IsValid, Fresh, Apart, registry-IsValid}
use scgrep.Registry.Routing.{
  Delivery, is_at, deliver, observe, snapshot-handle_replay, active-handle_replay,
}

-- In a valid registry, however many messages arrive, a counter counts those that its channel is
-- the first to match, and keeps the time of the first of them.
pub snapshot-deliver :
    (libs : Libs) (g : Registry) (c : ℕ) (ms : List Delivery)
    → IsValid g
    → snapshot (deliver libs g ms) c ≡ observe libs g.active c (snapshot g c) ms
unfolding deliver observe
snapshot-deliver libs g c [] v = refl
snapshot-deliver libs g c ((now, topic) ∷ ms) v =
    let g' = handle_replay libs g now topic in
    ground (
      arith,
      snapshot-deliver libs g' c ms (registry-IsValid libs g topic topic now v).2,
      active-handle_replay libs g now topic,
      snapshot-handle_replay libs g now topic c v,
    )

-- A message that matches the channel at the head goes to that channel's counter alone.
observe_shadowed :
    (libs : Libs) (k : Text) (d c : ℕ) (rest : List (Text × ℕ)) (counter : ReplayCounter)
    (ms : List Delivery)
    → d ≢ c
    → All (λ m. channel_matches libs k m.1 ≡ true) ms
    → observe libs ((k, d) ∷ rest) c counter ms ≡ counter
unfolding observe route
observe_shadowed libs k d c rest counter [] h a = refl
observe_shadowed libs k d c rest counter ((now, topic) ∷ ms) h a =
    ground (arith, a.0, observe_shadowed libs k d c rest counter ms h a.1)

-- Overlapping topics: in a valid registry, as long as every message matches the channel that was
-- registered first, the counter of any other channel stays as it is, whether or not the messages
-- match that channel too.
pub snapshot-deliver_shadowed :
    (libs : Libs) (g : Registry) (k : Text) (d c : ℕ) (rest : List (Text × ℕ)) (ms : List Delivery)
    → IsValid g
    → g.active ≡ (k, d) ∷ rest
    → d ≢ c
    → All (λ m. channel_matches libs k m.1 ≡ true) ms
    → snapshot (deliver libs g ms) c ≡ snapshot g c
snapshot-deliver_shadowed libs g k d c rest ms v e h a =
    snapshot-deliver libs g c ms v
    ∙ ap (λ active. observe libs active c (snapshot g c) ms) e
    ∙ observe_shadowed libs k d c rest (snapshot g c) ms h a

route-Fresh :
    (libs : Libs) (c : ℕ) (xs : List (Text × ℕ)) (topic : Text)
    → Fresh c xs
    → is_at (route libs xs topic) c ≡ false
unfolding route
route-Fresh libs c [] topic f = refl
route-Fresh libs c ((k, d) ∷ xs) topic f = ground (arith, route-Fresh libs c xs topic f.1)

observe-Fresh :
    (libs : Libs) (c : ℕ) (xs : List (Text × ℕ)) (counter : ReplayCounter) (ms : List Delivery)
    → Fresh c xs
    → observe libs xs c counter ms ≡ counter
unfolding observe
observe-Fresh libs c xs counter [] f = refl
observe-Fresh libs c xs counter ((now, topic) ∷ ms) f =
    ground (arith, route-Fresh libs c xs topic f, observe-Fresh libs c xs counter ms f)

-- The address under a channel.
unfoldable pub address : Text → List (Text × ℕ) → Option ℕ
address k [] = none
address k ((j, d) ∷ xs) = let after = address k xs in if text_eq j k then some d else after

address-Fresh :
    (k : Text) (c d : ℕ) (xs : List (Text × ℕ)) → Fresh c xs → address k xs ≡ some d → d ≢ c
unfolding address
address-Fresh k c d [] f e = λ _. absurd (cc)
address-Fresh k c d ((j, b) ∷ xs) f e = λ q. ground (arith, address-Fresh k c d xs f.1)

pop-Fresh_self :
    (k : Text) (c : ℕ) (xs : List (Text × ℕ))
    → Apart xs
    → address k xs ≡ some c
    → Fresh c (pop k xs)
unfolding pop address
pop-Fresh_self k c [] a e = tt
pop-Fresh_self k c ((j, d) ∷ xs) a e =
    ground (arith, pop-Fresh_self k c xs a.1, a.0, address-Fresh k d c xs a.0)

-- In a valid registry, after unregister the counter that the channel had shows what it showed,
-- whatever arrives.
pub snapshot-deliver-unregister :
    (libs : Libs) (g : Registry) (channel : Text) (c : ℕ) (ms : List Delivery)
    → IsValid g
    → address channel g.active ≡ some c
    → snapshot (deliver libs (unregister g channel) ms) c ≡ snapshot g c
unfolding unregister snapshot
snapshot-deliver-unregister libs g channel c ms v e =
    snapshot-deliver libs (unregister g channel) c ms
      (registry-IsValid libs g channel channel 0 v).1
    ∙ observe-Fresh libs c (pop channel g.active) (snapshot g c) ms
        (pop-Fresh_self channel c g.active v.apart e)

get-append :
    (xs : List ReplayCounter) (y : ReplayCounter) (i : ℕ)
    → (get_elem? (xs ++ (y ∷ [])) (length xs) ≡ some y)
      × (i < length xs → get_elem? (xs ++ (y ∷ [])) i ≡ get_elem? xs i)
get-append [] y i = (refl, λ h. elim h [ ])
get-append (x ∷ xs) y zero = ((get-append xs y zero).0, λ h. refl)
get-append (x ∷ xs) y (suc i) = ((get-append xs y i).0, λ h. (get-append xs y i).1 (omega arith))

address-assign : (k : Text) (d : ℕ) (xs : List (Text × ℕ)) → address k (assign k d xs) ≡ some d
unfolding address assign
address-assign k d [] = ground (arith, text_eq_refl k)
address-assign k d ((j, c) ∷ xs) = ground (arith, address-assign k d xs)

-- register returns a new counter that shows nothing and enters it under the channel, and every
-- counter that there was shows what it showed.
pub snapshot-register :
    (g : Registry) (channel : Text) (c : ℕ)
    → c < length g.counters
    → (snapshot (register g channel).0 (register g channel).1 ≡ new_counter)
      × (snapshot (register g channel).0 c ≡ snapshot g c)
      × (address channel (register g channel).0.active ≡ some (register g channel).1)
unfolding register snapshot
snapshot-register g channel c h = (
  ground (arith, (get-append g.counters new_counter c).0),
  ground (arith, (get-append g.counters new_counter c).1 h),
  address-assign channel (length g.counters) g.active,
)

-- What stands before the wildcard of a filter.
rstrip_wildcard :
    (prefix : Text)
    → EndsClean (λ x. x == b'/') prefix
    → rstrip_char b'/' (rstrip_char b'#' (prefix ++ codes "/#")) ≡ prefix
rstrip_wildcard prefix h =
    ap (rstrip_char b'/') (
      ap (rstrip_char b'#') (sym (append_assoc prefix (codes "/") (codes "#")))
      ∙ rstrip_by-snoc (λ x. x == b'#') (prefix ++ codes "/") b'#' refl
      ∙ rstrip_by_id (λ x. x == b'#') (prefix ++ codes "/")
          (EndsClean-append (λ x. x == b'#') prefix b'/' [] refl))
    ∙ rstrip_by-snoc (λ x. x == b'/') prefix b'/' refl
    ∙ rstrip_by_id (λ x. x == b'/') prefix h

below_prefix :
    (prefix below : Text) → starts_with (prefix ++ (b'/' ∷ below)) (prefix ++ codes "/") ≡ true
below_prefix prefix below =
    ap (λ (t : Text). starts_with t (prefix ++ codes "/"))
      (sym (append_assoc prefix (codes "/") below))
    ∙ starts_with-append (prefix ++ codes "/") below

-- A channel matches itself, and the channel of a filter that ends in `/#` matches every topic below
-- its prefix, whatever paho's matching says.
pub channel_matches_lem :
    (libs : Libs) (channel : Text) (prefix below : Text)
    → EndsClean (λ x. x == b'/') prefix
    → (channel_matches libs channel channel ≡ true)
      × (channel_matches libs (prefix ++ codes "/#") (prefix ++ (b'/' ∷ below)) ≡ true)
unfolding channel_matches
channel_matches_lem libs channel prefix below h = (
  ground (arith, text_eq_refl channel),
  ground (arith, rstrip_wildcard prefix h, below_prefix prefix below),
)
