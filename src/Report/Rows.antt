-- ===== src/Report/Rows.antt =====
-- The rows of build_rows (scripts/replay_loss_report.py).
use scgrep.Prelude.{
  ◌+◌, ℤ, pos_part, neg_part, eqb_ℤ, ◌<ℤ◌, eq_of_parts, true, false, ◌||◌, ◌≡◌, refl, Option, none,
  some, List, [], ◌∷◌, ◌++◌, All, arith, any, sym, subst, if◌then◌else◌, ◌⊎◌, Option-cases, inl,
  inr, ==_iff,
}
use scgrep.Report.{
  Scan, Buckets, ids_at, keys, Row, insert_minute, sorted_set, row_of, rows_of, build_rows,
}

-- The first row of a minute.
pub find_row : ℤ → List Row → Option Row
find_row m [] = none
find_row m (row ∷ rows) = let rest = find_row m rows in if eqb_ℤ m row.at then some row else rest

-- Each minute is before the next.
abbrev Ascending : List ℤ → Type 0
Ascending [] = Unit {0}
Ascending (m ∷ ms) = All (λ k. m <ℤ k) ms × Ascending ms

abbrev pub AscendingRows : List Row → Type 0
AscendingRows [] = Unit {0}
AscendingRows (row ∷ rows) = All (λ (next : Row). row.at <ℤ next.at) rows × AscendingRows rows

All-insert_minute :
    (a m : ℤ) (ks : List ℤ) → a <ℤ m → All (λ k. a <ℤ k) ks → All (λ k. a <ℤ k) (insert_minute m ks)
unfolding insert_minute
All-insert_minute a m [] h k = (h, tt)
All-insert_minute a m (x ∷ ks) h k = ground (arith, All-insert_minute a m ks h k.1, k, h)

All-before : (a b : ℤ) (ks : List ℤ) → a <ℤ b → All (λ k. b <ℤ k) ks → All (λ k. a <ℤ k) ks
All-before a b [] h k = tt
All-before a b (x ∷ ks) h k = (omega (arith, h, k.0), All-before a b ks h k.1)

insert_minute-Ascending : (m : ℤ) (ks : List ℤ) → Ascending ks → Ascending (insert_minute m ks)
unfolding insert_minute
insert_minute-Ascending m [] h = (tt, tt)
insert_minute-Ascending m (k ∷ ks) h = ground (
  arith,
  h,
  insert_minute-Ascending m ks h.1,
  All-insert_minute k m ks,
  All-before m k ks,
  eq_of_parts m k,
)

sorted_set-Ascending : (ms : List ℤ) → Ascending (sorted_set ms)
unfolding sorted_set
sorted_set-Ascending [] = tt
sorted_set-Ascending (m ∷ ms) = insert_minute-Ascending m (sorted_set ms) (sorted_set-Ascending ms)

any-insert_minute :
    (x m : ℤ) (ks : List ℤ) → any (eqb_ℤ x) (insert_minute m ks) ≡ (eqb_ℤ x m || any (eqb_ℤ x) ks)
unfolding insert_minute
any-insert_minute x m [] = refl
any-insert_minute x m (k ∷ ks) = ground (arith, any-insert_minute x m ks)

any-sorted_set : (x : ℤ) (ms : List ℤ) → any (eqb_ℤ x) (sorted_set ms) ≡ any (eqb_ℤ x) ms
unfolding sorted_set
any-sorted_set x [] = refl
any-sorted_set x (m ∷ ms) =
    ground (arith, any-sorted_set x ms, any-insert_minute x m (sorted_set ms))

any-++ :
    (x : ℤ) (xs ys : List ℤ) → any (eqb_ℤ x) (xs ++ ys) ≡ (any (eqb_ℤ x) xs || any (eqb_ℤ x) ys)
any-++ x [] ys = refl
any-++ x (y ∷ xs) ys = ground (arith, any-++ x xs ys)

-- A minute that is no key has no ids.
ids_at-absent : (m : ℤ) (bs : Buckets) → any (eqb_ℤ m) (keys bs) ≡ false → ids_at m bs ≡ []
unfolding ids_at keys
ids_at-absent m [] h = refl
ids_at-absent m ((k, ids) ∷ bs) h = ground (arith, h, ids_at-absent m bs)

eq_of_eqb : (a b : ℤ) → eqb_ℤ a b ≡ true → a ≡ b
eq_of_eqb a b h =
    ground (arith, eq_of_parts a b, ==_iff (pos_part a + neg_part b) (pos_part b + neg_part a), h)

module _ (found : Scan) (since until : ℤ) where
  Row-cases :
      (m : ℤ)
      → (row_of found since until m ≡ none)
        ⊎ ((row : Row) × (row_of found since until m ≡ some row) × (row.at ≡ m))
  Row-cases m = elim (Option-cases (row_of found since until m)) [
    | inl e ↦ inl e
    | inr (row, e) ↦ inr (row, e, at row e)
  ]
    where
      at : (row : Row) → row_of found since until m ≡ some row → row.at ≡ m
      at row e = unfold row_of in ground (arith, e)

  find_row-rows_of :
      (m : ℤ) (ms : List ℤ)
      → find_row m (rows_of found since until ms)
        ≡ (if any (eqb_ℤ m) ms then row_of found since until m else none)
  unfolding find_row rows_of
  find_row-rows_of m [] = refl
  find_row-rows_of m (k ∷ ms) = elim (Row-cases k) [
    | inl e ↦ ground (arith, find_row-rows_of m ms, e, eq_of_eqb m k)
    | inr (row, e, a) ↦ ground (arith, find_row-rows_of m ms, e, a, eq_of_eqb m k)
  ]

  row_of-absent :
      (m : ℤ)
      → any (eqb_ℤ m) (keys found.baseline) ≡ false
      → any (eqb_ℤ m) (keys found.replay) ≡ false
      → row_of found since until m ≡ none
  unfolding row_of
  row_of-absent m h k =
      ground (arith, ids_at-absent m found.baseline h, ids_at-absent m found.replay k)

  rows_of-after :
      (a : ℤ) (ms : List ℤ)
      → All (λ k. a <ℤ k) ms
      → All (λ (row : Row). a <ℤ row.at) (rows_of found since until ms)
  unfolding rows_of
  rows_of-after a [] h = tt
  rows_of-after a (m ∷ ms) h = elim (Row-cases m) [
    | inl e ↦ ground (arith, rows_of-after a ms h.1, e)
    | inr (row, e, at) ↦ ground (arith, rows_of-after a ms h.1, e, at, h.0)
  ]

  rows_of-Ascending : (ms : List ℤ) → Ascending ms → AscendingRows (rows_of found since until ms)
  unfolding rows_of
  rows_of-Ascending [] h = tt
  rows_of-Ascending (m ∷ ms) h = elim (Row-cases m) [
    | inl e ↦ ground (arith, rows_of-Ascending ms h.1, e)
    | inr (row, e, at) ↦
        let rows = rows_of found since until ms in
        let here : rows_of found since until (m ∷ ms) ≡ row ∷ rows = ground (arith, e) in
        let after =
          subst (λ a. All (λ (next : Row). a <ℤ next.at) rows) (sym at) (rows_of-after m ms h.0) in
        subst AscendingRows (sym here) (after, rows_of-Ascending ms h.1)
  ]

  -- The rows ascend, each minute at most once, and a minute has the row of its counts: the numbers of
  -- replayed and of baseline ids and their difference, where it lies in the bounds and has any ids.
  pub find_row-build_rows :
      AscendingRows (build_rows found since until)
      × ((m : ℤ) → find_row m (build_rows found since until) ≡ row_of found since until m)
  unfolding build_rows
  find_row-build_rows =
      let ms = keys found.baseline ++ keys found.replay in
      (
        rows_of-Ascending (sorted_set ms) (sorted_set-Ascending ms),
        λ m. ground (
          arith,
          find_row-rows_of m (sorted_set ms),
          any-sorted_set m ms,
          any-++ m (keys found.baseline) (keys found.replay),
          row_of-absent m,
        ),
      )
