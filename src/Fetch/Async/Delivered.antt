-- ===== src/Fetch/Async/Delivered.antt =====
-- A fetch of async_fetch (scgrep/replay_tester.py) whose messages are delivered.
use scgrep.Prelude.{
  ℕ, suc, ◌-ℤ◌, pos, ◌≡◌, ◌∙◌, ap, sym, inl, inr, Bool, true, false, some, List, [], ◌∷◌, ◌++◌,
  arith, any, leb, length, take, Option-cases, Bool-cases,
}
use mathlib.Core.List.{append-nil}
use scgrep.Libs.{Libs}
use scgrep.Registry.{Registry, ReplayCounter, snapshot}
use scgrep.Registry.Valid.{IsValid}
use scgrep.Registry.Activity.{
  Event, perform_all, perform_all-append, watch, reaches, reaches-Silent, snapshot-perform_all,
}
use scgrep.Fetch.{FetchResult}
use scgrep.Fetch.Async.{
  AsyncRequest, Environment, Tick, expect_messages, invalid_format, wait_first, conclude,
  async_fetch,
}
use scgrep.Fetch.Async.Waiting.{heard}
use scgrep.Fetch.Async.Abort.{
  deadline_of, registered, counter, posted, registered-IsValid, async_fetch_total,
  async_fetch_aborted,
}

-- What happens in some rounds.
abbrev pub events_of : List Tick → List Event
events_of [] = []
events_of (t ∷ ticks) = t.events ++ events_of ticks

-- The loop is left after some of the rounds.
wait_first_rounds :
    (libs : Libs) (g r : Registry) (c deadline : ℕ) (ticks : List Tick)
    → wait_first libs g c deadline ticks ≡ some r
    → (k : ℕ) × (r ≡ perform_all libs g (events_of (take k ticks)))
unfolding wait_first
wait_first_rounds libs g r c deadline [] h = absurd (cc)
wait_first_rounds libs g r c deadline (t ∷ ticks) h =
    let g' = perform_all libs g t.events in
    let one = λ (e : r ≡ g'). e ∙ ap (perform_all libs g) (sym (append-nil t.events)) in
    elim (Bool-cases (leb deadline t.now)) [
      | inl late ↦ (1, one (ground (arith, late, h)))
      | inr early ↦ elim (Option-cases (snapshot g' c).first_monotonic) [
        | inl e ↦
            let (k, rest) =
              wait_first_rounds libs g' r c deadline ticks (ground (arith, early, e, h)) in
            (suc k, rest ∙ sym (perform_all-append libs g t.events (events_of (take k ticks))))
        | inr (first, e) ↦ (1, one (ground (arith, early, e, h)))
      ]
    ]

module _ (libs : Libs) (q : AsyncRequest) (env : Environment) (g : Registry)
    (valid : IsValid g) where
  abbrev own : ℕ
  own = counter libs q env g valid

  abbrev begun : Registry
  begun = registered libs q env g valid

  -- What the fetch's counter shows after some events from its registration on.
  abbrev pub shown : List Event → ReplayCounter
  shown es = watch libs begun.active (length begun.counters) own (snapshot begun own) es

  -- With a valid registry, a fetch some round of which reads the deadline or later returns a result
  -- that did not abort, if one of the messages that arrive before it would give up is routed to its
  -- counter, whatever the other fetches register and unregister meanwhile.
  pub async_fetch_delivers :
      any (λ t. leb (deadline_of q env) t.now) env.ticks ≡ true
      → reaches libs begun.active
          (length begun.counters)
          own
          (env.during_post ++ (heard (deadline_of q env) env.ticks ++ env.last))
        ≡ true
      → (g' : Registry) × (res : FetchResult) × (async_fetch libs q env g ≡ some (g', res))
        × (res.aborted ≡ false)
  async_fetch_delivers h k =
      let (g', res, e) = async_fetch_total libs q env g valid h in
      elim (Bool-cases res.aborted) [
        | inl a ↦
            let (wanted, delay, fetched, silent) =
              async_fetch_aborted libs q env g valid g' res e a in
            absurd (ground (arith, k, reaches-Silent libs _ _ _ _ silent))
        | inr b ↦ (g', res, e, b)
      ]

  conclude_delivered :
      (r : Registry) (invalid : Bool)
      → (conclude libs q env invalid own r).1.aborted ≡ false
      → let r' = perform_all libs r env.last in
        (first : ℕ) × ((snapshot r' own).first_monotonic ≡ some first)
        × ((conclude libs q env invalid own r).1.fetch_delay ≡ pos first -ℤ pos env.start)
        × ((conclude libs q env invalid own r).1.messages_fetched
            ≡ pos (snapshot (perform_all libs r' env.remaining) own).count)
  unfolding conclude
  conclude_delivered r invalid b =
      let r' = perform_all libs r env.last in
      elim (Option-cases (snapshot r' own).first_monotonic) [
        | inl e ↦ absurd (ground (arith, e, b))
        | inr (first, e) ↦ (first, e, ground (arith, e), ground (arith, e))
      ]

  -- The events from the registration to the first snapshot after the loop.
  abbrev pub until_first : ℕ → List Event
  until_first rounds = env.during_post ++ (events_of (take rounds env.ticks) ++ env.last)

  -- With a valid registry, a fetch that expected messages and did not abort counts every message that
  -- reached its counter from its registration on until it unregisters, and its delay is the first
  -- one's instant less the fetch's start, which is negative where that message came in between. It waits for some number of rounds.
  pub async_fetch_counts :
      (g' : Registry) (res : FetchResult)
      → async_fetch libs q env g ≡ some (g', res)
      → expect_messages env.number_matched q.baseline ≡ true
      → res.aborted ≡ false
      → (rounds first : ℕ) × ((shown (until_first rounds)).first_monotonic ≡ some first)
        × (res.fetch_delay ≡ pos first -ℤ pos env.start)
        × (res.messages_fetched ≡ pos (shown (until_first rounds ++ env.remaining)).count)
  unfolding async_fetch
  async_fetch_counts g' res e y b =
      let invalid = invalid_format libs q env.answer in
      let before = posted libs q env g valid in
      elim (Option-cases (wait_first libs before own (deadline_of q env) env.ticks)) [
        | inl w ↦ absurd (ground (arith, e, y, w))
        | inr (r, w) ↦
            let out : res ≡ (conclude libs q env invalid own r).1 = ground (arith, e, y, w) in
            let (first, seen, delay, fetched) =
              conclude_delivered r invalid (ground (arith, out, b)) in
            let (k, rounds) = wait_first_rounds libs before r own (deadline_of q env) env.ticks w in
            let until : perform_all libs r env.last ≡ perform_all libs begun (until_first k) =
              ap (λ x. perform_all libs x env.last) rounds
              ∙ sym (perform_all-append libs before (events_of (take k env.ticks)) env.last)
              ∙ sym (
                  perform_all-append libs begun env.during_post
                    (events_of (take k env.ticks) ++ env.last)) in
            let all = perform_all-append libs begun (until_first k) env.remaining in
            let show = λ (es : List Event).
              snapshot-perform_all libs begun own es (registered-IsValid libs q env g valid) in
            (
              k,
              first,
              ground (arith, seen, until, show (until_first k)),
              ground (arith, out, delay),
              ground (arith, out, fetched, until, all, show (until_first k ++ env.remaining)),
            )
      ]
