-- ===== src/Report/Loss.antt =====
-- What scripts/replay_loss_report.py reports of a log that the program wrote.
use scgrep.Prelude.{
  ℕ, ℤ, pos, sub_ℕ, ◌≤ℤ◌, leb_ℤ, ltb_ℤ, eqb_ℤ, ◌+ℤ◌, ◌-ℤ◌, ◌*ℤ◌, +ℤ_parts, -ℤ_parts, eq_of_parts,
  true, false, ◌&&◌, ◌||◌, ◌≡◌, refl, Option, none, some, List, [], ◌∷◌, arith, ◌∙◌, any, All, map,
  is_empty, if◌then◌else◌, ◌==◌, Bool-cases, inl, inr,
}
use scgrep.Text.{Text}
use scgrep.Result.{ok}
use scgrep.Libs.{Libs}
use scgrep.Report.{
  Scan, Buckets, Args, Row, sources, minute, parse_pubtime, floor_minute, ids_at, keys, latest,
  row_of, last_minute, floor_bound, resolve_bounds, build_rows, report,
}
use scgrep.Report.Log.{Logged, Written, line_of, notes, scan_lines-line_of}
use scgrep.Report.Rows.{find_row, AscendingRows, find_row-build_rows}
use scgrep.Report.Counts.{live_entry, replay_entry, entries, distinct_at, length-notes}

-- The row of a minute with these counts.
abbrev pub counted_row : ℤ → ℤ → ℤ → ℕ → ℕ → Option Row
counted_row since until m r b =
    if ltb_ℤ m since || ltb_ℤ until m
    then none
    else if b == 0 && r == 0
    then none
    else some (record { at = m; replay = r; baseline = b; diff = sub_ℕ b r })

module _ (libs : Libs) where
  row_of-notes :
      (topic : Text) (kinds : List Text) (xs : List (Text × Text × Logged)) (since until m : ℤ)
      → row_of (notes libs topic kinds (record { baseline = []; replay = [] }) xs) since until m
        ≡ counted_row since until m
            (distinct_at m [] (entries (replay_entry libs topic kinds) xs))
            (distinct_at m [] (entries (live_entry libs topic) xs))
  unfolding row_of ids_at
  row_of-notes topic kinds xs since until m =
      let (b, r) = length-notes libs topic kinds m (record { baseline = []; replay = [] }) xs in
      ground (arith, b, r)

  resolve_bounds-given :
      (args : Args) (found : Scan) (a b : ℤ)
      → is_empty args.since ≡ false
      → is_empty args.until ≡ false
      → parse_pubtime libs args.since ≡ some a
      → parse_pubtime libs args.until ≡ some b
      → resolve_bounds libs args found ≡ ok (some (floor_minute a, floor_minute b))
  unfolding resolve_bounds last_minute floor_bound
  resolve_bounds-given args found a b h k e f = ground (arith, h, k, e, f)

  -- A log that the program wrote of broker messages and replayed messages, whose fields hold no white
  -- space, is reported between two given times that parse as rows of ascending minutes, and a minute
  -- has the row of these counts, if it lies between the two and any is not zero: the ids of its broker
  -- messages, and the ids of its messages that were replayed in one of the chosen ways, each id once,
  -- of the topics that contain the searched one.
  pub report-line_of :
      (args : Args) (xs : List (Text × Text × Logged)) (a b : ℤ)
      → All Written xs
      → is_empty args.since ≡ false
      → is_empty args.until ≡ false
      → parse_pubtime libs args.since ≡ some a
      → parse_pubtime libs args.until ≡ some b
      → (rows : List Row) × (report libs args (map line_of xs)
          ≡ ok (some (floor_minute a, floor_minute b, rows)))
        × AscendingRows rows
        × ((m : ℤ)
            → find_row m rows
              ≡ counted_row
                  (floor_minute a)
                  (floor_minute b)
                  m
                  (distinct_at m []
                    (entries (replay_entry libs args.topic (sources args.source)) xs))
                  (distinct_at m [] (entries (live_entry libs args.topic) xs)))
  unfolding report
  report-line_of args xs a b written h k e f =
      let kinds = sources args.source in
      let found = notes libs args.topic kinds (record { baseline = []; replay = [] }) xs in
      let (ascending, rows) = find_row-build_rows found (floor_minute a) (floor_minute b) in
      (
        build_rows found (floor_minute a) (floor_minute b),
        ground (
          arith,
          scan_lines-line_of libs args.topic kinds (record { baseline = []; replay = [] }) xs
              written,
          resolve_bounds-given args found a b h k e f,
        ),
        ascending,
        λ m. rows m ∙ row_of-notes args.topic kinds xs (floor_minute a) (floor_minute b) m,
      )

All-up : (a b : ℤ) (ms : List ℤ) → a ≤ℤ b → All (λ j. j ≤ℤ a) ms → All (λ j. j ≤ℤ b) ms
All-up a b [] h k = tt
All-up a b (m ∷ ms) h k = (omega (arith, h, k.0), All-up a b ms h k.1)

-- The latest of some minutes is one of them, and none is later.
latest-cons :
    (m : ℤ) (ms : List ℤ)
    → (k : ℤ) × (latest (m ∷ ms) ≡ some k)
      × (any (eqb_ℤ k) (m ∷ ms) ≡ true)
      × All (λ j. j ≤ℤ k) (m ∷ ms)
unfolding latest
latest-cons m [] = (m, refl, ground arith, (omega arith, tt))
latest-cons m (j ∷ ms) =
    let (k, l, among, upper) = latest-cons j ms in
    elim (Bool-cases (leb_ℤ m k)) [
      | inl y ↦ (k, ground (arith, l, y), ground (arith, among), (ground (arith, y), upper))
      | inr n ↦ (
        m,
        ground (arith, l, n),
        ground arith,
        (omega arith, All-up k m (j ∷ ms) (ground (arith, n)) upper),
      )
    ]

module _ (libs : Libs) where
  -- Without given bounds, where any message was replayed, the rows are those of the last replayed
  -- minute and of the minutes before it, as many as were asked for.
  pub resolve_bounds-default :
      (args : Args) (found : Scan) (k : ℤ) (ids : List Text) (rest : Buckets)
      → args.since ≡ []
      → args.until ≡ []
      → found.replay ≡ (k, ids) ∷ rest
      → (since until : ℤ) × (resolve_bounds libs args found ≡ ok (some (since, until)))
        × (since +ℤ (args.minutes -ℤ pos 1) *ℤ minute ≡ until)
        × (any (eqb_ℤ until) (keys found.replay) ≡ true)
        × All (λ m. m ≤ℤ until) (keys found.replay)
  unfolding resolve_bounds last_minute keys
  resolve_bounds-default args found k ids rest h e r =
      let (until, l, among, upper) = latest-cons k (keys rest) in
      let d = (args.minutes -ℤ pos 1) *ℤ minute in
      (
        until -ℤ d,
        until,
        ground (arith, h, e, r, l),
        eq_of_parts _ _ (omega (arith, +ℤ_parts (until -ℤ d) d, -ℤ_parts until d)),
        rw r among,
        rw r upper,
      )
