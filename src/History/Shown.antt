-- ===== src/History/Shown.antt =====
-- Which events scripts/restart_history.py prints and which it counts.
use scgrep.Prelude.{
  ℕ, ◌+◌, ℤ, ◌-ℤ◌, leb_ℤ, Bool, true, false, ◌||◌, ◌≡◌, ◌∙◌, refl, Option, none, some, List, [],
  ◌∷◌, ◌++◌, arith, if◌then◌else◌, Bool-cases, inl, inr, ap, subst, sym,
}
use mathlib.Core.List.{append_assoc}
use scgrep.Text.{Text}
use scgrep.History.{
  EventKind, start, connect, disconnect, LogEvent, Options, Output, restart, listed, orphans_before,
  summarised, flush_later, show_event, show_events,
}
use scgrep.History.Gaps.{
  printed, later_of, before_of, is_start, waiting, printed-flush, printed-orphans,
}

-- Some events in their order, of which the printed ones are shown, every restart among them, and the
-- others are counted: those after a restart, and those before the first restart.
pub data Picks : Bool → List LogEvent → List LogEvent → ℕ → ℕ → Type 0 where
  nothing : (started : Bool) → Picks started [] [] 0 0
  restarted :
      (started : Bool) (at : ℤ) (detail : Text) (xs ys : List LogEvent) (later before : ℕ)
      → Picks true xs ys later before
      → Picks started
          (record { kind = start; at = at; detail = detail } ∷ xs)
          (record { kind = start; at = at; detail = detail } ∷ ys)
          later
          before
  shown :
      (started : Bool) (e : LogEvent) (xs ys : List LogEvent) (later before : ℕ)
      → is_start e.kind ≡ false
      → Picks started xs ys later before
      → Picks started (e ∷ xs) (e ∷ ys) later before
  counted_later :
      (e : LogEvent) (xs ys : List LogEvent) (later before : ℕ)
      → is_start e.kind ≡ false
      → Picks true xs ys later before
      → Picks true xs (e ∷ ys) (later + 1) before
  counted_before :
      (e : LogEvent) (xs ys : List LogEvent) (later before : ℕ)
      → is_start e.kind ≡ false
      → Picks false xs ys later before
      → Picks false xs (e ∷ ys) later (before + 1)

abbrev started : Option ℤ → Bool
started none = false
started (some t) = true

module _ (options : Options) where
  -- What the outputs show of the events, where these numbers wait.
  unfoldable pub Shows : Option ℤ → ℕ → ℕ → List Output → List LogEvent → Type 0
  Shows prev later orphans outputs events =
      (n m : ℕ) × Picks (started prev) (printed outputs) events n m
      × (later_of outputs ≡ waiting options later + n)
      × (before_of outputs ≡ waiting options orphans + m)

  Shows-listed :
      (prev : Option ℤ) (later orphans orphans' : ℕ) (under : Bool) (kind : EventKind) (at : ℤ)
      (detail : Text) (tail : List Output) (events : List LogEvent)
      → is_start kind ≡ false
      → waiting options orphans ≡ waiting options orphans'
      → Shows prev later orphans' tail events
      → Shows prev later orphans
          (listed under kind at detail ∷ tail)
          (record { kind = kind; at = at; detail = detail } ∷ events)
  unfolding Shows printed later_of before_of
  Shows-listed prev later orphans orphans' under kind at detail tail events o w (n, m, p, h, k) =
      (n, m, shown _ _ _ _ _ _ o p, h, omega (arith, w, k))

  Shows-before :
      (later orphans : ℕ) (kind : EventKind) (at : ℤ) (detail : Text) (tail : List Output)
      (events : List LogEvent)
      → is_start kind ≡ false
      → Shows none later (orphans + 1) tail events
      → Shows none later orphans
          ((if options.connections then listed false kind at detail ∷ [] else []) ++ tail)
          (record { kind = kind; at = at; detail = detail } ∷ events)
  unfolding Shows
  Shows-before later orphans kind at detail tail events o s =
      elim (Bool-cases options.connections) [
        | inl y ↦
            subst (λ xs. Shows none later orphans (xs ++ tail) (e ∷ events)) (sym (chosen true y))
              (Shows-listed none later orphans (orphans + 1) false kind at detail tail events o
                (ground (arith, y)) s)
        | inr z ↦
            let (n, m, p, h, k) = s in
            subst (λ xs. Shows none later orphans (xs ++ tail) (e ∷ events)) (sym (chosen false z))
              (n, m + 1, counted_before e _ _ _ _ o p, h, ground (arith, z, k))
      ]
    where
      e : LogEvent
      e = record { kind = kind; at = at; detail = detail }

      one : List Output
      one = listed false kind at detail ∷ []

      chosen :
          (b : Bool)
          → options.connections ≡ b
          → (if options.connections then one else []) ≡ (if b then one else [])
      chosen b h = ap (λ b. if b then one else []) h

  Shows-start :
      (prev : Option ℤ) (later orphans : ℕ) (at : ℤ) (detail : Text) (gap : Option Text)
      (tail : List Output) (events : List LogEvent)
      → Shows (some at) 0 orphans tail events
      → Shows prev later orphans
          (flush_later options later ++ (restart at detail gap ∷ tail))
          (record { kind = start; at = at; detail = detail } ∷ events)
  unfolding Shows printed later_of before_of
  Shows-start prev later orphans at detail gap tail events (n, m, p, h, k) =
      let (same, _, sum, before) = printed-flush options later (restart at detail gap ∷ tail) in
      (
        n,
        m,
        subst
            (λ xs.
              Picks (started prev) xs (record { kind = start; at = at; detail = detail } ∷ events) n
                m)
            (sym same) (restarted (started prev) at detail (printed tail) events n m p),
        ground (arith, sum, h),
        ground (arith, before, k),
      )

  Shows-after :
      (b : ℤ) (later orphans : ℕ) (kind : EventKind) (at : ℤ) (detail : Text) (tail : List Output)
      (events : List LogEvent) (test : Bool)
      → is_start kind ≡ false
      → test || options.connections ≡ test
      → let (out, prev', later', orphans') : List Output × Option ℤ × ℕ × ℕ =
          if test
          then (listed true kind at detail ∷ [], some b, later, orphans)
          else ([], some b, later + 1, orphans) in
        Shows prev' later' orphans' tail events
        → Shows
            (some b)
            later
            orphans
            (out ++ tail)
            (record { kind = kind; at = at; detail = detail } ∷ events)
  unfolding Shows
  Shows-after b later orphans kind at detail tail events true o t s =
      Shows-listed (some b) later orphans orphans true kind at detail tail events o refl s
  Shows-after b later orphans kind at detail tail events false o t (n, m, p, h, k) =
      (n + 1, m, counted_later _ _ _ _ _ o p, ground (arith, t, h), k)

  Shows-step :
      (prev : Option ℤ) (later orphans : ℕ) (kind : EventKind) (at : ℤ) (detail : Text)
      (tail : List Output) (events : List LogEvent)
      → let (out, prev', later', orphans') = show_event options prev later orphans kind at detail in
        Shows prev' later' orphans' tail events
        → Shows prev later orphans
            (out ++ tail)
            (record { kind = kind; at = at; detail = detail } ∷ events)
  unfolding show_event
  Shows-step prev later orphans start at detail tail events s =
      subst
        (λ xs.
          Shows prev later orphans xs (record { kind = start; at = at; detail = detail } ∷ events))
        (sym (append_assoc (flush_later options later) (restart at detail _ ∷ []) tail))
        (Shows-start prev later orphans at detail _ tail events s)
  Shows-step none later orphans connect at detail tail events s =
      Shows-before later orphans connect at detail tail events refl s
  Shows-step none later orphans disconnect at detail tail events s =
      Shows-before later orphans disconnect at detail tail events refl s
  Shows-step (some b) later orphans connect at detail tail events s =
      Shows-after b later orphans connect at detail tail events
        (leb_ℤ (at -ℤ b) options.settle || options.connections) refl (ground arith) s
  Shows-step (some b) later orphans disconnect at detail tail events s =
      Shows-after b later orphans disconnect at detail tail events
        (leb_ℤ (at -ℤ b) options.settle || options.connections) refl (ground arith) s

  pub Shows-show_events :
      (prev : Option ℤ) (later orphans : ℕ) (events : List LogEvent)
      → Shows prev later orphans (show_events options prev later orphans events) events
  unfolding show_events Shows
  Shows-show_events prev later orphans [] =
      let (same, _, sum, before) =
        printed-flush options later (summarised options orphans orphans_before) in
      let (none_left, _, no_more, waits) = printed-orphans options orphans in
      (
        0,
        0,
        subst (λ xs. Picks (started prev) xs [] 0 0) (sym (same ∙ none_left))
            (nothing (started prev)),
        omega (arith, sum, no_more),
        omega (arith, before, waits),
      )
  Shows-show_events prev later orphans (e ∷ events) =
      let (out, prev', later', orphans') =
        show_event options prev later orphans e.kind e.at e.detail in
      Shows-step prev later orphans e.kind e.at e.detail _ events
        (Shows-show_events prev' later' orphans' events)
