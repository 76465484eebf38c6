-- ===== src/Fetch/Async/Waiting.antt =====
-- The loop of async_fetch that waits for the first message.
use mathlib.Core.List.{append-nil}
use scgrep.Prelude.{
  ℕ, ◌≡◌, subst, inl, inr, true, none, some, List, [], ◌∷◌, ◌++◌, arith, any, leb, Option-cases,
  Bool-cases, if◌then◌else◌,
}
use scgrep.Libs.{Libs}
use scgrep.Registry.{Registry, snapshot}
use scgrep.Registry.Valid.{IsValid}
use scgrep.Registry.Activity.{Event, perform_all, perform_all-append, perform_all-IsValid}
use scgrep.Fetch.Async.{Tick, wait_first}

-- What happens up to the first round that reads the deadline or later.
unfoldable pub heard : ℕ → List Tick → List Event
heard deadline [] = []
heard deadline (t ∷ ticks) = t.events ++ (if leb deadline t.now then [] else heard deadline ticks)

-- The loop returns as soon as some round reads the deadline or later.
pub wait_first_total :
    (libs : Libs) (g : Registry) (c deadline : ℕ) (ticks : List Tick)
    → any (λ t. leb deadline t.now) ticks ≡ true
    → (g' : Registry) × (wait_first libs g c deadline ticks ≡ some g')
unfolding wait_first
wait_first_total libs g c deadline [] h = absurd (cc)
wait_first_total libs g c deadline (t ∷ ticks) h =
    let g' = perform_all libs g t.events in
    elim (Bool-cases (leb deadline t.now)) [
      | inl late ↦ (g', ground (arith, late))
      | inr early ↦ elim (Option-cases (snapshot g' c).first_monotonic) [
        | inl e ↦
            let (r, k) = wait_first_total libs g' c deadline ticks (ground (arith, h, early)) in
            (r, ground (arith, early, e, k))
        | inr (first, e) ↦ (g', ground (arith, early, e))
      ]
    ]

-- If it returns with no first message, it has heard everything up to the deadline.
pub wait_first_silent :
    (libs : Libs) (g r : Registry) (c deadline : ℕ) (ticks : List Tick)
    → wait_first libs g c deadline ticks ≡ some r
    → (snapshot r c).first_monotonic ≡ none
    → r ≡ perform_all libs g (heard deadline ticks)
unfolding wait_first heard
wait_first_silent libs g r c deadline [] h k = absurd (cc)
wait_first_silent libs g r c deadline (t ∷ ticks) h k =
    let g' = perform_all libs g t.events in
    elim (Bool-cases (leb deadline t.now)) [
      | inl late ↦ ground (arith, late, h, append-nil t.events)
      | inr early ↦ elim (Option-cases (snapshot g' c).first_monotonic) [
        | inl e ↦
            let k' = wait_first_silent libs g' r c deadline ticks (ground (arith, early, e, h)) k in
            ground (arith, early, k', perform_all-append libs g t.events (heard deadline ticks))
        | inr (first, e) ↦ absurd (ground (arith, early, e, h, k))
      ]
    ]

pub wait_first-IsValid :
    (libs : Libs) (g r : Registry) (c deadline : ℕ) (ticks : List Tick)
    → IsValid g
    → wait_first libs g c deadline ticks ≡ some r
    → IsValid r
unfolding wait_first
wait_first-IsValid libs g r c deadline [] v h = absurd (cc)
wait_first-IsValid libs g r c deadline (t ∷ ticks) v h =
    let g' = perform_all libs g t.events in
    let v' = perform_all-IsValid libs g t.events v in
    let here = λ (e : g' ≡ r). subst IsValid e v' in
    elim (Bool-cases (leb deadline t.now)) [
      | inl late ↦ here (ground (arith, late, h))
      | inr early ↦ elim (Option-cases (snapshot g' c).first_monotonic) [
        | inl e ↦ wait_first-IsValid libs g' r c deadline ticks v' (ground (arith, early, e, h))
        | inr (first, e) ↦ here (ground (arith, early, e, h))
      ]
    ]
