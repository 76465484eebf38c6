-- ===== src/Fetch/Async/Abort.antt =====
-- The outcome of async_fetch (scgrep/replay_tester.py).
use scgrep.Prelude.{
  ℕ, ◌+◌, ◌-ℤ◌, pos, ◌≡◌, ◌∙◌, refl, ap, sym, inl, inr, Bool, true, false, none, some, List, [],
  ◌∷◌, ◌++◌, arith, any, leb, length, Option-cases, Bool-cases,
}
use scgrep.Text.{Text}
use scgrep.Text.Laws.{text_eq_iff}
use scgrep.Libs.{Libs}
use scgrep.Registry.{Registry, pop, register, unregister, snapshot}
use scgrep.Registry.Valid.{IsValid, Keyed, NoChannel, registry-IsValid}
use scgrep.Registry.Deliver.{address}
use scgrep.Registry.Activity.{
  perform_all, perform_all-append, perform_all-IsValid, Silent, watch-Silent, silent_before,
  snapshot-perform_all,
}
use scgrep.Fetch.{mqtt, FetchResult, no_messages}
use scgrep.Fetch.Async.{
  AsyncRequest, Environment, status_of, expected_channel, expect_messages, invalid_format,
  wait_first, conclude, async_fetch,
}
use scgrep.Fetch.Async.Waiting.{heard, wait_first_total, wait_first_silent, wait_first-IsValid}

abbrev pub deadline_of : AsyncRequest → Environment → ℕ
deadline_of q env = elim q.deadline_at [ none ↦ env.start + q.deadline | some at ↦ at ]

address-NoChannel : (k : Text) (xs : List (Text × ℕ)) → NoChannel k xs → address k xs ≡ none
unfolding address
address-NoChannel k [] n = refl
address-NoChannel k ((j, d) ∷ xs) n = ground (arith, address-NoChannel k xs n.1)

address-pop : (k : Text) (xs : List (Text × ℕ)) → Keyed xs → address k (pop k xs) ≡ none
unfolding address pop
address-pop k [] h = refl
address-pop k ((j, d) ∷ xs) h =
    ground (arith, address-pop k xs h.1, address-NoChannel k xs, text_eq_iff j k)

module _ (libs : Libs) (q : AsyncRequest) (env : Environment) (g : Registry)
    (valid : IsValid g) where
  abbrev pub registered : Registry
  registered = (register g (expected_channel q)).0

  abbrev pub counter : ℕ
  counter = (register g (expected_channel q)).1

  abbrev pub posted : Registry
  posted = perform_all libs registered env.during_post

  pub registered-IsValid : IsValid registered
  registered-IsValid = (registry-IsValid libs g (expected_channel q) (expected_channel q) 0 valid).0

  -- With a valid registry, a fetch returns a result if some round of the waiting loop reads the
  -- deadline or later.
  pub async_fetch_total :
      any (λ t. leb (deadline_of q env) t.now) env.ticks ≡ true
      → (g' : Registry) × (res : FetchResult) × (async_fetch libs q env g ≡ some (g', res))
  unfolding async_fetch
  async_fetch_total h = elim (Bool-cases (expect_messages env.number_matched q.baseline)) [
    | inl y ↦
        let (r, e) = wait_first_total libs posted counter (deadline_of q env) env.ticks h in
        let invalid = invalid_format libs q env.answer in
        let out = conclude libs q env invalid counter r in (out.0, out.1, ground (arith, y, e))
    | inr n ↦ (
      unregister posted (expected_channel q),
      no_messages mqtt false (invalid_format libs q env.answer)
          (pos env.responded_at -ℤ pos env.start) (status_of env.answer),
      ground (arith, n),
    )
  ]

  conclude_aborted :
      (r : Registry) (invalid : Bool)
      → (conclude libs q env invalid counter r).1.aborted ≡ true
      → ((snapshot (perform_all libs r env.last) counter).first_monotonic ≡ none)
        × ((conclude libs q env invalid counter r).1
            ≡ no_messages mqtt true invalid (pos q.deadline) (status_of env.answer))
  unfolding conclude
  conclude_aborted r invalid h =
      elim (Option-cases (snapshot (perform_all libs r env.last) counter).first_monotonic) [
        | inl e ↦ (e, ground (arith, e))
        | inr (t, e) ↦ absurd (ground (arith, e, h))
      ]

  -- An abort comes from the end of the waiting loop.
  async_fetch_expected :
      (g' : Registry) (res : FetchResult)
      → async_fetch libs q env g ≡ some (g', res)
      → res.aborted ≡ true
      → (expect_messages env.number_matched q.baseline ≡ true)
        × ((r : Registry) × (wait_first libs posted counter (deadline_of q env) env.ticks ≡ some r)
            × (res ≡ (conclude libs q env (invalid_format libs q env.answer) counter r).1))
  unfolding async_fetch
  async_fetch_expected g' res e a =
      elim (Bool-cases (expect_messages env.number_matched q.baseline)) [
        | inl y ↦
            elim (Option-cases (wait_first libs posted counter (deadline_of q env) env.ticks)) [
              | inl w ↦ absurd (ground (arith, e, y, w))
              | inr (r, w) ↦ (y, (r, w, ground (arith, e, y, w)))
            ]
        | inr n ↦ absurd (ground (arith, e, a, n))
      ]

  -- With a valid registry, an aborted fetch expected messages, it reports the deadline as its delay
  -- and no messages, and none of the messages that arrived before it gave up was routed to its
  -- counter by the channels registered when it arrived, whatever the other fetches registered and
  -- unregistered meanwhile.
  pub async_fetch_aborted :
      (g' : Registry) (res : FetchResult)
      → async_fetch libs q env g ≡ some (g', res)
      → res.aborted ≡ true
      → (expect_messages env.number_matched q.baseline ≡ true)
        × (res.fetch_delay ≡ pos q.deadline)
        × (res.messages_fetched ≡ pos 0)
        × Silent libs registered.active
            (length registered.counters)
            counter
            (env.during_post ++ (heard (deadline_of q env) env.ticks ++ env.last))
  async_fetch_aborted g' res e a =
      let invalid = invalid_format libs q env.answer in
      let (wanted, (r, waited, out)) = async_fetch_expected g' res e a in
      let silent = conclude_aborted r invalid (ground (arith, out, a)) in
      let r_valid =
        wait_first-IsValid libs posted r counter (deadline_of q env) env.ticks
          (perform_all-IsValid libs registered env.during_post registered-IsValid) waited in
      let before = silent_before libs r counter env.last r_valid silent.0 in
      let r_heard =
        wait_first_silent libs posted r counter (deadline_of q env) env.ticks waited before in
      let ms = env.during_post ++ (heard (deadline_of q env) env.ticks ++ env.last) in
      let whole : perform_all libs r env.last ≡ perform_all libs registered ms =
        ap (λ x. perform_all libs x env.last) r_heard
        ∙ sym (perform_all-append libs posted (heard (deadline_of q env) env.ticks) env.last)
        ∙ sym (
            perform_all-append libs registered env.during_post
              (heard (deadline_of q env) env.ticks ++ env.last)) in
      (
        wanted,
        ground (arith, out, silent.1),
        ground (arith, out, silent.1),
        watch-Silent libs registered.active (length registered.counters) counter
            (snapshot registered counter) ms
            (ground (
              arith,
              silent.0,
              whole,
              snapshot-perform_all libs registered counter ms registered-IsValid,
            )),
      )

  address-unregister :
      (r : Registry) (channel : Text)
      → IsValid r
      → address channel (unregister r channel).active ≡ none
  unfolding unregister
  address-unregister r channel v = address-pop channel r.active v.keyed

  address-conclude :
      (r : Registry) (invalid : Bool)
      → IsValid r
      → address (expected_channel q) (conclude libs q env invalid counter r).0.active ≡ none
  unfolding conclude
  address-conclude r invalid v =
      let heard = perform_all libs r env.last in
      let heard_valid = perform_all-IsValid libs r env.last v in
      elim (Option-cases (snapshot heard counter).first_monotonic) [
        | inl e ↦ ground (arith, e, address-unregister heard (expected_channel q) heard_valid)
        | inr (t, e) ↦ ground (
          arith,
          e,
          address-unregister (perform_all libs heard env.remaining) (expected_channel q)
              (perform_all-IsValid libs heard env.remaining heard_valid),
        )
      ]

  -- With a valid registry, whatever a fetch returns, its channel is registered no longer.
  pub async_fetch_unregisters :
      (g' : Registry) (res : FetchResult)
      → async_fetch libs q env g ≡ some (g', res)
      → address (expected_channel q) g'.active ≡ none
  unfolding async_fetch
  async_fetch_unregisters g' res e =
      let posted_valid = perform_all-IsValid libs registered env.during_post registered-IsValid in
      let invalid = invalid_format libs q env.answer in
      elim (Bool-cases (expect_messages env.number_matched q.baseline)) [
        | inl y ↦
            elim (Option-cases (wait_first libs posted counter (deadline_of q env) env.ticks)) [
              | inl w ↦ absurd (ground (arith, e, y, w))
              | inr (r, w) ↦ ground (
                arith,
                e,
                y,
                w,
                address-conclude r invalid (
                    wait_first-IsValid libs posted r counter (deadline_of q env) env.ticks
                      posted_valid w),
              )
            ]
        | inr n ↦ ground (arith, e, n, address-unregister posted (expected_channel q) posted_valid)
      ]
