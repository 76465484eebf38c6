-- ===== src/Purge/Twice.antt =====
-- What scripts/purge_logs.py removes from a file, and a file that it has purged, purged again.
use scgrep.Prelude.{
  ℕ, ◌+◌, ◌<◌, ◌≡◌, refl, sym, subst, Bool, true, false, Option, none, some, List, [], ◌∷◌, arith,
  Bool-cases, inl, inr, length, ltb,
}
use scgrep.Text.{Text}
use scgrep.Purge.{stamp, text_le, keeps, purge_lines, purge}

-- A text that comes before another in the order of the characters.
pub data Before : Text → Text → Type 0 where
  shorter : (y : ℕ) (b : Text) → Before [] (y ∷ b)
  less : (x y : ℕ) (a b : Text) → x < y → Before (x ∷ a) (y ∷ b)
  equal : (x : ℕ) (a b : Text) → Before a b → Before (x ∷ a) (x ∷ b)

-- Each line with the timestamp of its entry, that is with the last timestamp up to it.
pub dated : (ℕ → Bool) → Option Text → List Text → List (Option Text × Text)
dated is_decimal d [] = []
dated is_decimal d (line ∷ lines) =
    let d' : Option Text = elim (stamp is_decimal line) [ none ↦ d | some t ↦ some t ] in
    (d', line) ∷ dated is_decimal d' lines

-- An entry whose timestamp comes before the cutoff; lines without a timestamp are in no such entry.
abbrev pub Old : Text → Option Text → Type 0
Old cutoff none = ⊥
Old cutoff (some t) = Before t cutoff

-- Some lines with their timestamps, the lines of them that are not old, and the number of old ones.
pub data Splits (cutoff : Text) : List (Option Text × Text) → List Text → ℕ → Type 0 where
  done : Splits cutoff [] [] 0
  kept_line :
      (d : Option Text) (line : Text) (rest : List (Option Text × Text)) (kept : List Text) (n : ℕ)
      → ¬ Old cutoff d
      → Splits cutoff rest kept n
      → Splits cutoff ((d, line) ∷ rest) (line ∷ kept) n
  old_line :
      (d : Option Text) (line : Text) (rest : List (Option Text × Text)) (kept : List Text) (n : ℕ)
      → Old cutoff d
      → Splits cutoff rest kept n
      → Splits cutoff ((d, line) ∷ rest) kept (n + 1)

Before-text_le : (a b : Text) → Before a b → text_le b a ≡ false
unfolding text_le
Before-text_le a b (shorter y c) = refl
Before-text_le a b (less x y c d h) = ground arith
Before-text_le a b (equal x c d h) = ground (arith, Before-text_le c d h)

text_le-Before : (b a : Text) → text_le b a ≡ false → Before a b
unfolding text_le
text_le-Before [] a h = absurd (cc)
text_le-Before (x ∷ b) [] h = shorter x b
text_le-Before (x ∷ b) (y ∷ a) h = elim (Bool-cases (ltb y x)) [
  | inl lt ↦ less y x a b (ground (arith, lt))
  | inr ge ↦
      let e : y ≡ x = ground (arith, ge, h) in
      subst (λ z. Before (z ∷ a) (x ∷ b)) (sym e)
        (equal x a b (text_le-Before b a (ground (arith, ge, e, h))))
]

-- Whether lines with this timestamp are kept.
abbrev fresh : Text → Option Text → Bool
fresh cutoff none = true
fresh cutoff (some t) = text_le cutoff t

fresh-Old : (cutoff : Text) (d : Option Text) → fresh cutoff d ≡ true → ¬ Old cutoff d
fresh-Old cutoff none h o = o
fresh-Old cutoff (some t) h o = absurd (ground (arith, h, Before-text_le t cutoff o))

Old-fresh : (cutoff : Text) (d : Option Text) → fresh cutoff d ≡ false → Old cutoff d
Old-fresh cutoff none h = absurd (cc)
Old-fresh cutoff (some t) h = text_le-Before cutoff t h

module _ (is_decimal : ℕ → Bool) (cutoff : Text) where
  keeps-fresh :
      (d : Option Text) (line : Text)
      → keeps is_decimal cutoff (fresh cutoff d) line
        ≡ fresh cutoff (elim (stamp is_decimal line) [ none ↦ d | some t ↦ some t ])
  unfolding keeps
  keeps-fresh d line = ground arith

  purge_lines-Splits :
      (d : Option Text) (lines : List Text)
      → let (kept, removed) = purge_lines is_decimal cutoff (fresh cutoff d) lines in
        Splits cutoff (dated is_decimal d lines) kept removed
  unfolding purge_lines dated
  purge_lines-Splits d [] = done
  purge_lines-Splits d (line ∷ lines) =
      let d' : Option Text = elim (stamp is_decimal line) [ none ↦ d | some t ↦ some t ] in
      let split = λ (b : Bool) (e : fresh cutoff d' ≡ b).
        subst
          (λ b.
            Splits cutoff (dated is_decimal d' lines) (purge_lines is_decimal cutoff b lines).0
              (purge_lines is_decimal cutoff b lines).1)
          e (purge_lines-Splits d' lines) in
      elim (Bool-cases (fresh cutoff d')) [
        | inl y ↦
            rw (keeps-fresh d line, y)
              (kept_line d' line _ _ _ (fresh-Old cutoff d' y) (split true y))
        | inr n ↦
            rw (keeps-fresh d line, n)
              (old_line d' line _ _ _ (Old-fresh cutoff d' n) (split false n))
      ]

-- A line that is kept is kept whatever was kept before, if that was kept.
keeps-true :
    (is_decimal : ℕ → Bool) (cutoff : Text) (keep : Bool) (line : Text)
    → keeps is_decimal cutoff keep line ≡ true
    → keeps is_decimal cutoff true line ≡ true
unfolding keeps
keeps-true is_decimal cutoff keep line h = ground (arith, h)

-- The kept lines are kept again, and no line is lost from the counts.
purge_lines_again :
    (is_decimal : ℕ → Bool) (cutoff : Text) (keep : Bool) (lines : List Text)
    → let (kept, removed) = purge_lines is_decimal cutoff keep lines in
      (purge_lines is_decimal cutoff true kept ≡ (kept, 0)) × (length kept + removed ≡ length lines)
unfolding purge_lines
purge_lines_again is_decimal cutoff keep [] = (refl, refl)
purge_lines_again is_decimal cutoff keep (line ∷ lines) =
    let again = purge_lines_again is_decimal cutoff (keeps is_decimal cutoff keep line) lines in
    elim (Bool-cases (keeps is_decimal cutoff keep line)) [
      | inl y ↦ (
        ground (arith, y, again, keeps-true is_decimal cutoff keep line y),
        ground (arith, y, again),
      )
      | inr n ↦ (ground (arith, n, again), ground (arith, n, again))
    ]

-- A purge removes the lines of the entries whose timestamp comes before the cutoff, keeps all others
-- in their order, the lines before the first timestamp among them, and returns how many it kept and
-- removed, which add up to the lines of the file; a second purge with the same cutoff leaves the file
-- as it is and removes nothing.
pub purge_again :
    (is_decimal : ℕ → Bool) (cutoff : Text) (lines : List Text)
    → (kept : List Text) × (removed : ℕ) × (purge is_decimal cutoff (some lines)
        ≡ (some kept, length kept, removed))
      × Splits cutoff (dated is_decimal none lines) kept removed
      × (length kept + removed ≡ length lines)
      × (purge is_decimal cutoff (some kept) ≡ (some kept, length kept, 0))
unfolding purge
purge_again is_decimal cutoff lines =
    let (same, sum) = purge_lines_again is_decimal cutoff true lines in
    let (kept, removed) = purge_lines is_decimal cutoff true lines in
    (
      kept,
      removed,
      refl,
      purge_lines-Splits is_decimal cutoff none lines,
      sum,
      ground (arith, same),
    )
