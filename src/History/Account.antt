-- ===== src/History/Account.antt =====
-- No event is lost from what scripts/restart_history.py prints.
use scgrep.Prelude.{
  ℕ, suc, ◌+◌, ℤ, leb_ℤ, not, ◌&&◌, ◌≡◌, ◌∙◌, refl, Option, none, some, List, [], ◌∷◌, ◌++◌, arith,
  length, if◌then◌else◌, Bool-cases, inl, inr,
}
use scgrep.Text.{Text}
use scgrep.History.{
  EventKind, start, connect, disconnect, LogEvent, Options, Output, restart, listed,
  later_reconnections, orphans_before, is_disconnect, insert_event, sort_events, wanted_events,
  summarised, flush_later, show_event, show_events, history,
}

-- How many events an output stands for.
pub stands_for : List Output → ℕ
stands_for [] = 0
stands_for (restart at detail gap ∷ outputs) = suc (stands_for outputs)
stands_for (listed under kind at detail ∷ outputs) = suc (stands_for outputs)
stands_for (later_reconnections n ∷ outputs) = n + stands_for outputs
stands_for (orphans_before n ∷ outputs) = n + stands_for outputs

-- The events that the options ask for.
pub asked_for : Options → List LogEvent → ℕ
asked_for options [] = 0
asked_for options (e ∷ events) =
    (if is_disconnect e.kind && not options.disconnects then 0 else 1) + asked_for options events

stands_for-++ : (xs ys : List Output) → stands_for (xs ++ ys) ≡ stands_for xs + stands_for ys
unfolding stands_for
stands_for-++ [] ys = omega arith
stands_for-++ (restart a d g ∷ xs) ys = omega (arith, stands_for-++ xs ys)
stands_for-++ (listed u k a d ∷ xs) ys = omega (arith, stands_for-++ xs ys)
stands_for-++ (later_reconnections n ∷ xs) ys = omega (arith, stands_for-++ xs ys)
stands_for-++ (orphans_before n ∷ xs) ys = omega (arith, stands_for-++ xs ys)

-- What waits to be summarised: nothing if everything is listed.
abbrev waiting : Options → ℕ → ℕ
waiting options n = if options.connections then 0 else n

module _ (options : Options) where
  stands_for-flush_later : (n : ℕ) → stands_for (flush_later options n) ≡ waiting options n
  unfolding stands_for
  stands_for-flush_later n = ground arith

  stands_for-orphans :
      (n : ℕ) → stands_for (summarised options n orphans_before) ≡ waiting options n
  unfolding stands_for
  stands_for-orphans n = ground arith

  stands_for-show_event :
      (prev : Option ℤ) (later orphans : ℕ) (kind : EventKind) (at : ℤ) (detail : Text)
      → let (out, prev', later', orphans') = show_event options prev later orphans kind at detail in
        stands_for out + (waiting options later' + waiting options orphans')
        ≡ suc (waiting options later + waiting options orphans)
  unfolding show_event stands_for
  stands_for-show_event prev later orphans start at detail = ground (
    arith,
    stands_for-++ (flush_later options later) (restart at detail _ ∷ []),
    stands_for-flush_later later,
  )
  stands_for-show_event none later orphans connect at detail = ground arith
  stands_for-show_event none later orphans disconnect at detail = ground arith
  stands_for-show_event (some b) later orphans connect at detail = ground arith
  stands_for-show_event (some b) later orphans disconnect at detail = ground arith

  stands_for-show_events :
      (prev : Option ℤ) (later orphans : ℕ) (events : List LogEvent)
      → stands_for (show_events options prev later orphans events)
        ≡ waiting options later + waiting options orphans + length events
  unfolding show_events
  stands_for-show_events prev later orphans [] = omega (
    arith,
    stands_for-++ (flush_later options later) (summarised options orphans orphans_before),
    stands_for-flush_later later,
    stands_for-orphans orphans,
  )
  stands_for-show_events prev later orphans (e ∷ events) =
      let (out, prev', later', orphans') =
        show_event options prev later orphans e.kind e.at e.detail in
      omega (
        arith,
        stands_for-++ out (show_events options prev' later' orphans' events),
        stands_for-show_event prev later orphans e.kind e.at e.detail,
        stands_for-show_events prev' later' orphans' events,
      )

  length-wanted_events :
      (events : List LogEvent) → length (wanted_events options events) ≡ asked_for options events
  unfolding wanted_events asked_for
  length-wanted_events [] = refl
  length-wanted_events (e ∷ events) = ground (arith, length-wanted_events events)

  asked_for-insert_event :
      (e : LogEvent) (events : List LogEvent)
      → asked_for options (insert_event e events) ≡ asked_for options (e ∷ events)
  unfolding insert_event asked_for
  asked_for-insert_event e [] = refl
  asked_for-insert_event e (f ∷ events) = elim (Bool-cases (leb_ℤ e.at f.at)) [
    | inl y ↦ rw y refl
    | inr n ↦ rw n (omega (arith, asked_for-insert_event e events))
  ]

  asked_for-sort_events :
      (events : List LogEvent) → asked_for options (sort_events events) ≡ asked_for options events
  unfolding sort_events
  asked_for-sort_events [] = refl
  asked_for-sort_events (e ∷ events) =
      asked_for-insert_event e (sort_events events) ∙ same e _ _ (asked_for-sort_events events)
    where
      same :
          (e : LogEvent) (xs ys : List LogEvent)
          → asked_for options xs ≡ asked_for options ys
          → asked_for options (e ∷ xs) ≡ asked_for options (e ∷ ys)
      same e xs ys h = unfold asked_for in omega (arith, h)

  -- What is printed stands for as many events as the options ask for.
  pub stands_for-history :
      (events : List LogEvent) → stands_for (history options events) ≡ asked_for options events
  unfolding history
  stands_for-history events =
      let shown = wanted_events options (sort_events events) in
      ground (
        arith,
        stands_for-show_events none 0 0 shown,
        length-wanted_events (sort_events events),
        asked_for-sort_events events,
      )
