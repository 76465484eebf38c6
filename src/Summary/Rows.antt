-- ===== src/Summary/Rows.antt =====
-- The rows of build_summary_rows (scripts/replay_loss_report.py).
use scgrep.Prelude.{
  ℤ, eqb_ℤ, true, false, ◌≡◌, ◌∙◌, refl, ap, List, [], ◌∷◌, All, arith, if◌then◌else◌, Bool-cases,
  inl, inr,
}
use scgrep.Summary.{
  Records, SummaryRow, same_window, aggregate, active_rows, row_before, insert_row, sort_rows,
  build_summary_rows,
}
use scgrep.Summary.Sums.{
  NoRow, Windows, window_eq, active_rows-Windows, aggregate-Windows, counts_of-active_rows,
  counts_of-aggregate, add_none, counts_of, added,
}

-- Each row is before those that follow.
abbrev pub Sorted : List SummaryRow → Type 0
Sorted [] = Unit {0}
Sorted (row ∷ rows) = All (λ r. row_before row r ≡ true) rows × Sorted rows

insert_row-NoRow :
    (s e : ℤ) (row : SummaryRow) (rows : List SummaryRow)
    → same_window row s e ≡ false
    → NoRow s e rows
    → NoRow s e (insert_row row rows)
unfolding insert_row
insert_row-NoRow s e row [] h n = (h, tt)
insert_row-NoRow s e row (r ∷ rows) h n = ground (arith, h, n, insert_row-NoRow s e row rows h n.1)

eqb_comm : (a b : ℤ) → eqb_ℤ a b ≡ eqb_ℤ b a
eqb_comm a b = ground arith

same_window_comm : (a b : SummaryRow) → same_window a b.start b.end ≡ same_window b a.start a.end
same_window_comm a b = ground (arith, eqb_comm a.start b.start, eqb_comm a.end b.end)

insert_row-Windows :
    (row : SummaryRow) (rows : List SummaryRow)
    → NoRow row.start row.end rows
    → Windows rows
    → Windows (insert_row row rows)
unfolding insert_row
insert_row-Windows row [] n w = (tt, tt)
insert_row-Windows row (r ∷ rows) n w = ground (
  arith,
  n,
  w,
  insert_row-Windows row rows n.1 w.1,
  insert_row-NoRow r.start r.end row rows (same_window_comm row r ∙ n.0) w.0,
)

sort_rows-NoRow : (s e : ℤ) (rows : List SummaryRow) → NoRow s e rows → NoRow s e (sort_rows rows)
unfolding sort_rows
sort_rows-NoRow s e [] n = tt
sort_rows-NoRow s e (row ∷ rows) n =
    insert_row-NoRow s e row (sort_rows rows) n.0 (sort_rows-NoRow s e rows n.1)

sort_rows-Windows : (rows : List SummaryRow) → Windows rows → Windows (sort_rows rows)
unfolding sort_rows
sort_rows-Windows [] w = tt
sort_rows-Windows (row ∷ rows) w =
    insert_row-Windows row (sort_rows rows) (sort_rows-NoRow row.start row.end rows w.0)
      (sort_rows-Windows rows w.1)

counts_of-insert_row :
    (s e : ℤ) (row : SummaryRow) (rows : List SummaryRow)
    → NoRow row.start row.end rows
    → counts_of s e (insert_row row rows)
      ≡ (if same_window row s e then row.counts else counts_of s e rows)
unfolding insert_row counts_of
counts_of-insert_row s e row [] n = refl
counts_of-insert_row s e row (r ∷ rows) n = elim (Bool-cases (row_before row r)) [
  | inl y ↦ rw y refl
  | inr k ↦ elim (Bool-cases (same_window row s e)) [
    | inl h ↦ elim (Bool-cases (same_window r s e)) [
      | inl g ↦
          let (p, q) = window_eq row s e h in
          let same : same_window r row.start row.end ≡ same_window r s e =
            ap (λ x. same_window r x row.end) p ∙ ap (same_window r s) q in
          absurd (cc (n.0, g, same))
      | inr g ↦ rw (k, g, h) (counts_of-insert_row s e row rows n.1 ∙ rw h refl)
    ]
    | inr h ↦ elim (Bool-cases (same_window r s e)) [
      | inl g ↦ rw (k, g, h) refl
      | inr g ↦ rw (k, g, h) (counts_of-insert_row s e row rows n.1 ∙ rw h refl)
    ]
  ]
]

counts_of-sort_rows :
    (s e : ℤ) (rows : List SummaryRow)
    → Windows rows
    → counts_of s e (sort_rows rows) ≡ counts_of s e rows
unfolding sort_rows counts_of
counts_of-sort_rows s e [] w = refl
counts_of-sort_rows s e (row ∷ rows) w =
    counts_of-insert_row s e row (sort_rows rows) (sort_rows-NoRow row.start row.end rows w.0)
    ∙ ap (λ x. if same_window row s e then row.counts else x) (counts_of-sort_rows s e rows w.1)

row_before_trans :
    (a b c : SummaryRow) → row_before a b ≡ true → row_before b c ≡ true → row_before a c ≡ true
row_before_trans a b c h k = ground (arith, h, k)

row_before_total :
    (a b : SummaryRow)
    → row_before a b ≡ false
    → same_window b a.start a.end ≡ false
    → row_before b a ≡ true
row_before_total a b h k = ground (arith, h, k)

All-before :
    (a b : SummaryRow) (rows : List SummaryRow)
    → row_before a b ≡ true
    → All (λ r. row_before b r ≡ true) rows
    → All (λ r. row_before a r ≡ true) rows
All-before a b [] h k = tt
All-before a b (r ∷ rows) h k = (row_before_trans a b r h k.0, All-before a b rows h k.1)

All-insert_row :
    (a row : SummaryRow) (rows : List SummaryRow)
    → row_before a row ≡ true
    → All (λ r. row_before a r ≡ true) rows
    → All (λ r. row_before a r ≡ true) (insert_row row rows)
unfolding insert_row
All-insert_row a row [] h k = (h, tt)
All-insert_row a row (r ∷ rows) h k = elim (Bool-cases (row_before row r)) [
  | inl y ↦ ground (arith, y, h, k)
  | inr n ↦ ground (arith, n, h, k, All-insert_row a row rows h k.1)
]

insert_row-Sorted :
    (row : SummaryRow) (rows : List SummaryRow)
    → NoRow row.start row.end rows
    → Sorted rows
    → Sorted (insert_row row rows)
unfolding insert_row
insert_row-Sorted row [] n s = (tt, tt)
insert_row-Sorted row (r ∷ rows) n s = elim (Bool-cases (row_before row r)) [
  | inl y ↦ ground (arith, y, s, All-before row r rows y s.0)
  | inr k ↦
      let before = row_before_total row r k n.0 in
      ground (arith, k, insert_row-Sorted row rows n.1 s.1, All-insert_row r row rows before s.0)
]

sort_rows-Sorted : (rows : List SummaryRow) → Windows rows → Sorted (sort_rows rows)
unfolding sort_rows
sort_rows-Sorted [] w = tt
sort_rows-Sorted (row ∷ rows) w =
    insert_row-Sorted row (sort_rows rows) (sort_rows-NoRow row.start row.end rows w.0)
      (sort_rows-Sorted rows w.1)

-- The rows ascend strictly by their windows, and each window that starts between the bounds has the sums
-- of the counts of its series; a window without a row has no counts.
pub counts_of-build_summary_rows :
    (records : Records) (since until : ℤ)
    → Sorted (build_summary_rows records since until)
      × ((s e : ℤ)
          → counts_of s e (build_summary_rows records since until) ≡ added since until s e records)
unfolding build_summary_rows
counts_of-build_summary_rows records since until =
    let rows = aggregate since until [] records in
    let w = aggregate-Windows since until [] records tt in
    (
      sort_rows-Sorted (active_rows rows) (active_rows-Windows rows w),
      λ s e.
          counts_of-sort_rows s e (active_rows rows) (active_rows-Windows rows w)
          ∙ counts_of-active_rows s e rows w
          ∙ counts_of-aggregate since until s e [] records
          ∙ (unfold counts_of in add_none (added since until s e records)),
    )
