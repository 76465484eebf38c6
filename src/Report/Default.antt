-- ===== src/Report/Default.antt =====
-- The bounds and the rows of scripts/replay_loss_report.py where no bounds are given.
use scgrep.Prelude.{
  true, ◌+◌, ◌<◌, ℤ, pos, ◌≤ℤ◌, eqb_ℤ, ◌+ℤ◌, ◌-ℤ◌, ◌*ℤ◌, ◌≡◌, some, List, [], ◌∷◌, arith, any, All,
  length, Option-cases, inl, inr,
}
use scgrep.Text.{Text}
use scgrep.Result.{ok}
use scgrep.Libs.{Libs}
use scgrep.Report.{
  Scan, Buckets, Args, Row, sources, minute, scan, ids_at, keys, row_of, rows_of, build_rows,
  report,
}
use scgrep.Report.Rows.{find_row, AscendingRows, find_row-build_rows}
use scgrep.Report.Loss.{counted_row, resolve_bounds-default}

-- The row's minute lies between the bounds, and some message is counted in it.
abbrev pub Within : ℤ → ℤ → Row → Type 0
Within since until row = (since ≤ℤ row.at) × (row.at ≤ℤ until) × (0 < row.replay + row.baseline)

module _ (found : Scan) (since until : ℤ) where
  row_of-Within :
      (m : ℤ) (row : Row) → row_of found since until m ≡ some row → Within since until row
  unfolding row_of
  row_of-Within m row e = (ground (arith, e), ground (arith, e), ground (arith, e))

  rows_of-Within : (ms : List ℤ) → All (Within since until) (rows_of found since until ms)
  unfolding rows_of
  rows_of-Within [] = tt
  rows_of-Within (m ∷ ms) = elim (Option-cases (row_of found since until m)) [
    | inl e ↦ rw (e, rows_of) (rows_of-Within ms)
    | inr (row, e) ↦ rw (e, rows_of) (row_of-Within m row e, rows_of-Within ms)
  ]

  build_rows-Within : All (Within since until) (build_rows found since until)
  unfolding build_rows
  build_rows-Within = rows_of-Within _

  find_row-counted :
      (m : ℤ)
      → find_row m (build_rows found since until)
        ≡ counted_row since until m
            (length (ids_at m found.replay))
            (length (ids_at m found.baseline))
  unfolding row_of
  find_row-counted m = ground (arith, (find_row-build_rows found since until).1 m)

-- Without given bounds, where any message of the lines was replayed, the report goes to the last
-- minute of a replayed message, and begins so many minutes before it that it spans as many as were
-- asked for. Its rows ascend, lie between the two and count some message each, and a minute has the
-- row of its numbers of replayed and of baseline ids, if it lies between the two and has any.
pub report-default :
    (libs : Libs) (args : Args) (lines : List Text) (k : ℤ) (ids : List Text) (rest : Buckets)
    → args.since ≡ []
    → args.until ≡ []
    → (scan libs lines args.topic (sources args.source)).replay ≡ (k, ids) ∷ rest
    → let found = scan libs lines args.topic (sources args.source) in
      (since until : ℤ) × (rows : List Row) × (report libs args lines
        ≡ ok (some (since, until, rows)))
      × (since +ℤ (args.minutes -ℤ pos 1) *ℤ minute ≡ until)
      × (any (eqb_ℤ until) (keys found.replay) ≡ true)
      × All (λ m. m ≤ℤ until) (keys found.replay)
      × AscendingRows rows
      × All (Within since until) rows
      × ((m : ℤ)
          → find_row m rows
            ≡ counted_row since until m
                (length (ids_at m found.replay))
                (length (ids_at m found.baseline)))
unfolding report
report-default libs args lines k ids rest h e r =
    let found = scan libs lines args.topic (sources args.source) in
    let (since, until, bounds, span, among, upper) =
      resolve_bounds-default libs args found k ids rest h e r in
    (
      since,
      until,
      build_rows found since until,
      ground (arith, bounds),
      span,
      among,
      upper,
      (find_row-build_rows found since until).0,
      build_rows-Within found since until,
      find_row-counted found since until,
    )
