-- ===== src/Summary/Sums.antt =====
-- The sums of the windows in build_summary_rows (scripts/replay_loss_report.py).
use scgrep.Prelude.{
  ◌+◌, ==_iff, ℤ, pos_part, neg_part, ltb_ℤ, eqb_ℤ, eq_of_parts, true, false, not, ◌&&◌, ◌||◌, ◌≡◌,
  ◌∙◌, refl, ap, subst, List, [], ◌∷◌, All, arith, if◌then◌else◌, Bool-cases, inl, inr,
}
use scgrep.Text.Laws.{&&-true}
use scgrep.Summary.{
  Counts, Key, Records, no_counts, add_counts, SummaryRow, same_window, add_window, aggregate,
  is_active, active_rows,
}

-- The sum of the counts of the series of a window.
pub sum_over : ℤ → ℤ → Records → Counts
sum_over s e [] = no_counts
sum_over s e ((k, counts) ∷ rest) =
    let sum = sum_over s e rest in
    if eqb_ℤ k.start s && eqb_ℤ k.end e then add_counts counts sum else sum

-- The counts of the first row of a window.
unfoldable pub counts_of : ℤ → ℤ → List SummaryRow → Counts
counts_of s e [] = no_counts
counts_of s e (row ∷ rows) =
    let rest = counts_of s e rows in if same_window row s e then row.counts else rest

-- No row has this window.
abbrev pub NoRow : ℤ → ℤ → List SummaryRow → Type 0
NoRow s e rows = All (λ r. same_window r s e ≡ false) rows

-- No two rows have the same window.
abbrev pub Windows : List SummaryRow → Type 0
Windows [] = Unit {0}
Windows (row ∷ rows) = NoRow row.start row.end rows × Windows rows

pub add_none : (c : Counts) → add_counts no_counts c ≡ c
add_none c = ground arith

add_none_right : (c : Counts) → add_counts c no_counts ≡ c
add_none_right c = ground arith

add_assoc : (a b c : Counts) → add_counts (add_counts a b) c ≡ add_counts a (add_counts b c)
add_assoc a b c = ground arith

pub eq_of_eqb : (a b : ℤ) → eqb_ℤ a b ≡ true → a ≡ b
eq_of_eqb a b h =
    ground (arith, eq_of_parts a b, ==_iff (pos_part a + neg_part b) (pos_part b + neg_part a), h)

pub window_eq :
    (row : SummaryRow) (a b : ℤ) → same_window row a b ≡ true → (row.start ≡ a) × (row.end ≡ b)
window_eq row a b h =
    let (p, q) = &&-true (eqb_ℤ row.start a) (eqb_ℤ row.end b) h in
    (eq_of_eqb row.start a p, eq_of_eqb row.end b q)

other_window :
    (row : SummaryRow) (s e a b : ℤ)
    → same_window row a b ≡ false
    → same_window row s e ≡ true
    → (eqb_ℤ a s && eqb_ℤ b e) ≡ false
other_window row s e a b n h = elim (Bool-cases (eqb_ℤ a s && eqb_ℤ b e)) [
  | inr k ↦ k
  | inl k ↦
      let (p, q) = &&-true (eqb_ℤ a s) (eqb_ℤ b e) k in
      let same : same_window row a b ≡ same_window row s e =
        ap (λ x. eqb_ℤ row.start x && eqb_ℤ row.end b) (eq_of_eqb a s p)
        ∙ ap (λ x. eqb_ℤ row.start s && eqb_ℤ row.end x) (eq_of_eqb b e q) in
      absurd (cc (n, h, same))
]

counts_of-add_window :
    (s e a b : ℤ) (c : Counts) (rows : List SummaryRow)
    → counts_of s e (add_window a b c rows)
      ≡ (if eqb_ℤ a s && eqb_ℤ b e then add_counts (counts_of s e rows) c else counts_of s e rows)
unfolding counts_of add_window
counts_of-add_window s e a b c [] = ground arith
counts_of-add_window s e a b c (row ∷ rows) = elim (Bool-cases (same_window row a b)) [
  | inl y ↦
      let (p, q) = window_eq row a b y in
      let same : same_window row s e ≡ (eqb_ℤ a s && eqb_ℤ b e) =
        ap (λ x. eqb_ℤ x s && eqb_ℤ row.end e) p ∙ ap (λ x. eqb_ℤ a s && eqb_ℤ x e) q in
      elim (Bool-cases (eqb_ℤ a s && eqb_ℤ b e)) [
        | inl h ↦ rw (y, h, same ∙ h) refl
        | inr k ↦ rw (y, k, same ∙ k) refl
      ]
  | inr n ↦ elim (Bool-cases (same_window row s e)) [
    | inl h ↦ rw (n, h, other_window row s e a b n h) refl
    | inr k ↦ rw (n, k) (counts_of-add_window s e a b c rows)
  ]
]

add_window-NoRow :
    (s e a b : ℤ) (c : Counts) (rows : List SummaryRow)
    → (eqb_ℤ a s && eqb_ℤ b e) ≡ false
    → NoRow s e rows
    → NoRow s e (add_window a b c rows)
unfolding add_window
add_window-NoRow s e a b c [] h n = (h, tt)
add_window-NoRow s e a b c (row ∷ rows) h n =
    ground (arith, add_window-NoRow s e a b c rows h n.1, n)

add_window-Windows :
    (a b : ℤ) (c : Counts) (rows : List SummaryRow) → Windows rows → Windows (add_window a b c rows)
unfolding add_window
add_window-Windows a b c [] w = (tt, tt)
add_window-Windows a b c (row ∷ rows) w =
    ground
      (arith, w, add_window-Windows a b c rows w.1, add_window-NoRow row.start row.end a b c rows)

pub aggregate-Windows :
    (since until : ℤ) (rows : List SummaryRow) (records : Records)
    → Windows rows
    → Windows (aggregate since until rows records)
unfolding aggregate
aggregate-Windows since until rows [] w = w
aggregate-Windows since until rows ((k, c) ∷ rest) w = ground (
  arith,
  aggregate-Windows since until rows rest w,
  aggregate-Windows since until (add_window k.start k.end c rows) rest,
  add_window-Windows k.start k.end c rows w,
)

-- What the aggregation adds to a window.
abbrev pub added : ℤ → ℤ → ℤ → ℤ → Records → Counts
added since until s e records =
    if ltb_ℤ s since || ltb_ℤ until s then no_counts else sum_over s e records

added-cons :
    (since until s e : ℤ) (k : Key) (c : Counts) (rest : Records)
    → added since until s e ((k, c) ∷ rest) ≡ (
        if (eqb_ℤ k.start s && eqb_ℤ k.end e) && not (ltb_ℤ k.start since || ltb_ℤ until k.start)
        then add_counts c (added since until s e rest)
        else added since until s e rest)
unfolding sum_over
added-cons since until s e k c rest = elim (Bool-cases (eqb_ℤ k.start s)) [
  | inl y ↦ ground (arith, y, eq_of_eqb k.start s y)
  | inr n ↦ ground (arith, n)
]

pub counts_of-aggregate :
    (since until s e : ℤ) (rows : List SummaryRow) (records : Records)
    → counts_of s e (aggregate since until rows records)
      ≡ add_counts (counts_of s e rows) (added since until s e records)
unfolding aggregate sum_over
counts_of-aggregate since until s e rows [] = ground (arith, add_none_right (counts_of s e rows))
counts_of-aggregate since until s e rows ((k, c) ∷ rest) = ground (
  arith,
  counts_of-aggregate since until s e rows rest,
  counts_of-aggregate since until s e (add_window k.start k.end c rows) rest,
  counts_of-add_window s e k.start k.end c rows,
  added-cons since until s e k c rest,
  add_assoc (counts_of s e rows) c (added since until s e rest),
)

counts_of-NoRow :
    (s e : ℤ) (rows : List SummaryRow) → NoRow s e rows → counts_of s e rows ≡ no_counts
unfolding counts_of
counts_of-NoRow s e [] n = refl
counts_of-NoRow s e (row ∷ rows) n = ground (arith, n.0, counts_of-NoRow s e rows n.1)

inactive : (c : Counts) → is_active c ≡ false → c ≡ no_counts
inactive c h = ground (arith, h)

pub active_rows-NoRow :
    (s e : ℤ) (rows : List SummaryRow) → NoRow s e rows → NoRow s e (active_rows rows)
unfolding active_rows
active_rows-NoRow s e [] n = tt
active_rows-NoRow s e (row ∷ rows) n = ground (arith, n, active_rows-NoRow s e rows n.1)

pub active_rows-Windows : (rows : List SummaryRow) → Windows rows → Windows (active_rows rows)
unfolding active_rows
active_rows-Windows [] w = tt
active_rows-Windows (row ∷ rows) w =
    ground (arith, active_rows-Windows rows w.1, active_rows-NoRow row.start row.end rows w.0)

pub counts_of-active_rows :
    (s e : ℤ) (rows : List SummaryRow)
    → Windows rows
    → counts_of s e (active_rows rows) ≡ counts_of s e rows
unfolding active_rows counts_of
counts_of-active_rows s e [] w = refl
counts_of-active_rows s e (row ∷ rows) w = elim (Bool-cases (is_active row.counts)) [
  | inl y ↦ ground (arith, y, counts_of-active_rows s e rows w.1)
  | inr n ↦ elim (Bool-cases (same_window row s e)) [
    | inl h ↦
        let (p, q) = window_eq row s e h in
        let none_left = counts_of-NoRow s e rows (subst2 p q w.0) in
        ground (arith, n, h, inactive row.counts n, none_left, counts_of-active_rows s e rows w.1)
    | inr k ↦ ground (arith, n, k, counts_of-active_rows s e rows w.1)
  ]
]
  where
    subst2 : row.start ≡ s → row.end ≡ e → NoRow row.start row.end rows → NoRow s e rows
    subst2 p q h = subst (λ x. NoRow s x rows) q (subst (λ x. NoRow x row.end rows) p h)
