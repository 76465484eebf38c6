-- ===== src/Registry/Routing.antt =====
-- The routing of handle_replay (scgrep/replay_registry.py), message by message.
use scgrep.Prelude.{
  ℕ, zero, suc, ◌<◌, ◌≡◌, refl, Bool, false, Option, none, some, List, [], ◌∷◌, arith,
  if◌then◌else◌, length, get_elem?, set, ◌==◌,
}
use scgrep.Text.{Text}
use scgrep.Libs.{Libs}
use scgrep.Registry.{
  Registry, ReplayCounter, record_arrival, snapshot, route, record_at, handle_replay,
}
use scgrep.Registry.Valid.{IsValid, Below}

-- A replayed message: the clock's reading at its arrival, and its topic.
abbrev pub Delivery : Type 0
Delivery = ℕ × Text

-- The messages that arrive, one after the other.
unfoldable pub deliver : Libs → Registry → List Delivery → Registry
deliver libs g [] = g
deliver libs g ((now, topic) ∷ ms) = deliver libs (handle_replay libs g now topic) ms

abbrev pub is_at : Option ℕ → ℕ → Bool
is_at none c = false
is_at (some d) c = d == c

-- What one counter sees of the messages: those whose first matching channel is its own.
unfoldable pub observe : Libs → List (Text × ℕ) → ℕ → ReplayCounter → List Delivery → ReplayCounter
observe libs active c counter [] = counter
observe libs active c counter ((now, topic) ∷ ms) =
    observe libs active c
      (if is_at (route libs active topic) c then record_arrival counter now else counter) ms

get-set :
    (xs : List ReplayCounter) (i j : ℕ) (v : ReplayCounter)
    → i < length xs
    → get_elem? (set xs i v) j ≡ (if i == j then some v else get_elem? xs j)
get-set [] i j v h = elim h [ ]
get-set (x ∷ xs) zero zero v h = refl
get-set (x ∷ xs) zero (suc j) v h = ground arith
get-set (x ∷ xs) (suc i) zero v h = ground arith
get-set (x ∷ xs) (suc i) (suc j) v h = ground (arith, get-set xs i j v)

route-Below :
    (libs : Libs) (n : ℕ) (xs : List (Text × ℕ)) (topic : Text) (c : ℕ)
    → Below n xs
    → route libs xs topic ≡ some c
    → c < n
unfolding route
route-Below libs n [] topic c b h = absurd (cc)
route-Below libs n ((k, d) ∷ xs) topic c b h = ground (arith, route-Below libs n xs topic c b.1)

active-record_at : (g : Registry) (o : Option ℕ) (now : ℕ) → (record_at g o now).active ≡ g.active
unfolding record_at
active-record_at g none now = refl
active-record_at g (some c) now = refl

snapshot-record_at :
    (g : Registry) (o : Option ℕ) (now c : ℕ)
    → ((d : ℕ) → o ≡ some d → d < length g.counters)
    → snapshot (record_at g o now) c
      ≡ (if is_at o c then record_arrival (snapshot g c) now else snapshot g c)
unfolding record_at snapshot
snapshot-record_at g none now c h = refl
snapshot-record_at g (some d) now c h =
    ground (arith, get-set g.counters d c (record_arrival (snapshot g d) now) (h d refl))

-- One message reaches the counter of the first channel that it matches, and no other.
pub snapshot-handle_replay :
    (libs : Libs) (g : Registry) (now : ℕ) (topic : Text) (c : ℕ)
    → IsValid g
    → snapshot (handle_replay libs g now topic) c ≡ (
        if is_at (route libs g.active topic) c
        then record_arrival (snapshot g c) now
        else snapshot g c)
unfolding handle_replay
snapshot-handle_replay libs g now topic c v =
    snapshot-record_at g (route libs g.active topic) now c
      (λ d e. route-Below libs (length g.counters) g.active topic d v.below e)

pub active-handle_replay :
    (libs : Libs) (g : Registry) (now : ℕ) (topic : Text)
    → (handle_replay libs g now topic).active ≡ g.active
unfolding handle_replay
active-handle_replay libs g now topic = active-record_at g (route libs g.active topic) now
