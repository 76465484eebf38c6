-- ===== src/Registry/Activity.antt =====
-- What happens to the registry (scgrep/replay_registry.py) while a fetch waits: messages arrive on the
-- network thread, and the fetches that run in parallel register and unregister their channels. Each call
-- is one step; handle_replay releases the lock between reading the channels and counting, and what
-- happens between the two is taken to come after it.
use scgrep.Prelude.{
  ℕ, zero, suc, ◌+◌, ◌≡◌, refl, Bool, false, ◌||◌, Option, none, some, List, [], ◌∷◌, ◌++◌, arith,
  inl, inr, Bool-cases, Option-cases, if◌then◌else◌, length, length-append, get_elem?,
}
use scgrep.Text.{Text}
use scgrep.Libs.{Libs}
use scgrep.Registry.{
  Registry, ReplayCounter, new_counter, record_arrival, assign, pop, snapshot, route, record_at,
  register, unregister, handle_replay,
}
use scgrep.Registry.Valid.{IsValid, registry-IsValid, length-set}
use scgrep.Registry.Routing.{is_at, snapshot-handle_replay, active-handle_replay}

pub data Event : Type 0 where
  arrives : (now : ℕ) (topic : Text) → Event
  registers : (channel : Text) → Event
  unregisters : (channel : Text) → Event

unfoldable pub perform : Libs → Registry → Event → Registry
perform libs g (arrives now topic) = handle_replay libs g now topic
perform libs g (registers channel) = (register g channel).0
perform libs g (unregisters channel) = unregister g channel

unfoldable pub perform_all : Libs → Registry → List Event → Registry
perform_all libs g [] = g
perform_all libs g (e ∷ es) = perform_all libs (perform libs g e) es

-- What one counter shows after the events, given the channels with their addresses and the next
-- address: it counts a message whose first matching channel, among those registered when the message
-- arrives, has its address.
pub watch : Libs → List (Text × ℕ) → ℕ → ℕ → ReplayCounter → List Event → ReplayCounter
watch libs active next c counter [] = counter
watch libs active next c counter (arrives now topic ∷ es) =
    watch libs active next c
      (if is_at (route libs active topic) c then record_arrival counter now else counter) es
watch libs active next c counter (registers channel ∷ es) =
    watch libs (assign channel next active) (suc next) c counter es
watch libs active next c counter (unregisters channel ∷ es) =
    watch libs (pop channel active) next c counter es

-- No message of the events reaches the counter.
pub Silent : Libs → List (Text × ℕ) → ℕ → ℕ → List Event → Type 0
Silent libs active next c [] = Unit {0}
Silent libs active next c (arrives now topic ∷ es) =
    (is_at (route libs active topic) c ≡ false) × Silent libs active next c es
Silent libs active next c (registers channel ∷ es) =
    Silent libs (assign channel next active) (suc next) c es
Silent libs active next c (unregisters channel ∷ es) = Silent libs (pop channel active) next c es

perform-IsValid : (libs : Libs) (g : Registry) (e : Event) → IsValid g → IsValid (perform libs g e)
unfolding perform
perform-IsValid libs g (arrives now topic) v = (registry-IsValid libs g topic topic now v).2
perform-IsValid libs g (registers channel) v = (registry-IsValid libs g channel channel 0 v).0
perform-IsValid libs g (unregisters channel) v = (registry-IsValid libs g channel channel 0 v).1

pub perform_all-IsValid :
    (libs : Libs) (g : Registry) (es : List Event) → IsValid g → IsValid (perform_all libs g es)
unfolding perform_all
perform_all-IsValid libs g [] v = v
perform_all-IsValid libs g (e ∷ es) v =
    perform_all-IsValid libs (perform libs g e) es (perform-IsValid libs g e v)

pub perform_all-append :
    (libs : Libs) (g : Registry) (xs ys : List Event)
    → perform_all libs g (xs ++ ys) ≡ perform_all libs (perform_all libs g xs) ys
unfolding perform_all
perform_all-append libs g [] ys = refl
perform_all-append libs g (e ∷ xs) ys = perform_all-append libs (perform libs g e) xs ys

-- A counter that was not there shows nothing, and a new one shows nothing either.
snapshot-append :
    (xs : List ReplayCounter) (i : ℕ)
    → (elim (get_elem? (xs ++ (new_counter ∷ [])) i) [ none ↦ new_counter | some x ↦ x ])
      ≡ (elim (get_elem? xs i) [ none ↦ new_counter | some x ↦ x ])
snapshot-append [] zero = refl
snapshot-append [] (suc i) = refl
snapshot-append (x ∷ xs) zero = refl
snapshot-append (x ∷ xs) (suc i) = snapshot-append xs i

snapshot-register_any :
    (g : Registry) (channel : Text) (c : ℕ) → snapshot (register g channel).0 c ≡ snapshot g c
unfolding register snapshot
snapshot-register_any g channel c = snapshot-append g.counters c

length-register :
    (g : Registry) (channel : Text)
    → length (register g channel).0.counters ≡ suc (length g.counters)
unfolding register
length-register g channel = omega (arith, length-append g.counters (new_counter ∷ []))

active-register :
    (g : Registry) (channel : Text)
    → (register g channel).0.active ≡ assign channel (length g.counters) g.active
unfolding register
active-register g channel = refl

length-record_at :
    (g : Registry) (o : Option ℕ) (now : ℕ)
    → length (record_at g o now).counters ≡ length g.counters
unfolding record_at
length-record_at g none now = refl
length-record_at g (some d) now = length-set g.counters d (record_arrival (snapshot g d) now)

length-handle_replay :
    (libs : Libs) (g : Registry) (now : ℕ) (topic : Text)
    → length (handle_replay libs g now topic).counters ≡ length g.counters
unfolding handle_replay
length-handle_replay libs g now topic = length-record_at g (route libs g.active topic) now

-- In a valid registry, a counter shows after any events what `watch` says: the deliveries that its own
-- channel was the first to match, whatever the other fetches register and unregister meanwhile.
pub snapshot-perform_all :
    (libs : Libs) (g : Registry) (c : ℕ) (es : List Event)
    → IsValid g
    → snapshot (perform_all libs g es) c
      ≡ watch libs g.active (length g.counters) c (snapshot g c) es
unfolding perform_all perform watch unregister snapshot
snapshot-perform_all libs g c [] v = refl
snapshot-perform_all libs g c (arrives now topic ∷ es) v =
    let g' = handle_replay libs g now topic in
    ground (
      arith,
      snapshot-perform_all libs g' c es (registry-IsValid libs g topic topic now v).2,
      active-handle_replay libs g now topic,
      length-handle_replay libs g now topic,
      snapshot-handle_replay libs g now topic c v,
    )
snapshot-perform_all libs g c (registers channel ∷ es) v =
    let g' = (register g channel).0 in
    ground (
      arith,
      snapshot-perform_all libs g' c es (registry-IsValid libs g channel channel 0 v).0,
      snapshot-register_any g channel c,
      length-register g channel,
      active-register g channel,
    )
snapshot-perform_all libs g c (unregisters channel ∷ es) v =
    snapshot-perform_all libs (unregister g channel) c es
      (registry-IsValid libs g channel channel 0 v).1

-- A counter that shows no first message was reached by none.
watch_first :
    (libs : Libs) (active : List (Text × ℕ)) (next c : ℕ) (counter : ReplayCounter)
    (es : List Event) (t : ℕ)
    → counter.first_monotonic ≡ some t
    → (watch libs active next c counter es).first_monotonic ≡ some t
unfolding watch record_arrival
watch_first libs active next c counter [] t h = h
watch_first libs active next c counter (arrives now topic ∷ es) t h = ground (
  arith,
  h,
  watch_first libs active next c counter es t h,
  watch_first libs active next c (record { count = counter.count + 1; first_monotonic = some t }) es
      t refl,
)
watch_first libs active next c counter (registers channel ∷ es) t h =
    watch_first libs (assign channel next active) (suc next) c counter es t h
watch_first libs active next c counter (unregisters channel ∷ es) t h =
    watch_first libs (pop channel active) next c counter es t h

record_arrival_first :
    (counter : ReplayCounter) (now : ℕ)
    → (t : ℕ) × ((record_arrival counter now).first_monotonic ≡ some t)
unfolding record_arrival
record_arrival_first counter now = elim (Option-cases counter.first_monotonic) [
  | inl e ↦ (now, ground (arith, e))
  | inr (t, e) ↦ (t, ground (arith, e))
]

pub watch-Silent :
    (libs : Libs) (active : List (Text × ℕ)) (next c : ℕ) (counter : ReplayCounter)
    (es : List Event)
    → (watch libs active next c counter es).first_monotonic ≡ none
    → Silent libs active next c es
unfolding watch Silent
watch-Silent libs active next c counter [] h = tt
watch-Silent libs active next c counter (arrives now topic ∷ es) h =
    elim (Bool-cases (is_at (route libs active topic) c)) [
      | inl hit ↦ absurd (
          ground (
            arith,
            h,
            hit,
            let (first, e) = record_arrival_first counter now in
                watch_first libs active next c (record_arrival counter now) es first e,
          ))
      | inr miss ↦ (miss, watch-Silent libs active next c counter es (ground (arith, h, miss)))
    ]
watch-Silent libs active next c counter (registers channel ∷ es) h =
    watch-Silent libs (assign channel next active) (suc next) c counter es h
watch-Silent libs active next c counter (unregisters channel ∷ es) h =
    watch-Silent libs (pop channel active) next c counter es h

-- A counter that shows no first message showed none before.
pub silent_before :
    (libs : Libs) (g : Registry) (c : ℕ) (es : List Event)
    → IsValid g
    → (snapshot (perform_all libs g es) c).first_monotonic ≡ none
    → (snapshot g c).first_monotonic ≡ none
silent_before libs g c es v h = elim (Option-cases (snapshot g c).first_monotonic) [
  | inl e ↦ e
  | inr (t, e) ↦ absurd (
      ground (
        arith,
        h,
        snapshot-perform_all libs g c es v,
        watch_first libs g.active (length g.counters) c (snapshot g c) es t e,
      ))
]

-- Some message of the events reaches the counter.
unfoldable pub reaches : Libs → List (Text × ℕ) → ℕ → ℕ → List Event → Bool
reaches libs active next c [] = false
reaches libs active next c (arrives now topic ∷ es) =
    is_at (route libs active topic) c || reaches libs active next c es
reaches libs active next c (registers channel ∷ es) =
    reaches libs (assign channel next active) (suc next) c es
reaches libs active next c (unregisters channel ∷ es) = reaches libs (pop channel active) next c es

pub reaches-Silent :
    (libs : Libs) (active : List (Text × ℕ)) (next c : ℕ) (es : List Event)
    → Silent libs active next c es
    → reaches libs active next c es ≡ false
unfolding Silent reaches
reaches-Silent libs active next c [] s = refl
reaches-Silent libs active next c (arrives now topic ∷ es) s =
    ground (arith, s.0, reaches-Silent libs active next c es s.1)
reaches-Silent libs active next c (registers channel ∷ es) s =
    reaches-Silent libs (assign channel next active) (suc next) c es s
reaches-Silent libs active next c (unregisters channel ∷ es) s =
    reaches-Silent libs (pop channel active) next c es s
