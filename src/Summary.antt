-- ===== src/Summary.antt =====
-- scripts/replay_loss_report.py with the source `summary`: the counts that the cycles logged, added up
-- over the series of each tested window. `decimal` is the value of a decimal digit of Unicode, which is
-- what `\d` matches and int() reads (numbers of up to 4300 digits). Reading the files and printing are
-- left out.
pub mod Sums
pub mod Rows
pub mod RoundTrip
pub mod Log
mod Tests
use scgrep.Prelude.{
  ℕ, ◌+◌, ◌*◌, ◌==◌, ℤ, ◌-ℤ◌, ◌*ℤ◌, ltb_ℤ, eqb_ℤ, Bool, true, false, not, ◌&&◌, ◌||◌, Option, none,
  some, List, [], ◌∷◌, is_empty, if◌then◌else◌,
}
use scgrep.Text.{Text, codes, text_eq, contains}
use scgrep.Result.{Result, ok, err, ◌>>=◌}
use scgrep.Libs.{Libs}
use scgrep.Util.{Fault}
use scgrep.Report.{Args, group, parse_pubtime, floor_bound, latest, minute}
use scgrep.Report.Pattern.{Piece, literal, run, search}
use scgrep.Report.Lines.{is_solid}

-- TESTPERIOD_RE; its groups are the bounds of the window.
abbrev pub period_pattern : List Piece
period_pattern =
    literal (codes "Test period begins: window ")
    ∷ run is_solid
    ∷ literal (codes " .. ")
    ∷ run is_solid
    ∷ []

abbrev pub is_decimal : (ℕ → Option ℕ) → ℕ → Bool
is_decimal decimal x = elim (decimal x) [ none ↦ false | some d ↦ true ]

-- RESULT_RE; its groups are the centre, the topic, the protocol and the two counts.
abbrev pub result_pattern : (ℕ → Option ℕ) → List Piece
result_pattern decimal =
    literal (codes "Result: centre_id=")
    ∷ run is_solid
    ∷ literal (codes " topic=")
    ∷ run is_solid
    ∷ literal (codes " protocol=")
    ∷ run is_solid
    ∷ literal (codes " baseline=")
    ∷ run (is_decimal decimal)
    ∷ literal (codes " fetched=")
    ∷ run (is_decimal decimal)
    ∷ []

-- int(digits)
pub int_of : (ℕ → Option ℕ) → ℕ → Text → ℕ
int_of decimal n [] = n
int_of decimal n (x ∷ s) =
    let d : ℕ = elim (decimal x) [ none ↦ 0 | some d ↦ d ] in int_of decimal (n * 10 + d) s

pub record Counts : Type 0 where
  pub baseline : ℕ
  pub http : ℕ
  pub mqtt : ℕ

-- A tested window and a series.
pub record Key : Type 0 where
  pub start : ℤ
  pub end : ℤ
  pub centre_id : Text
  pub topic : Text

abbrev pub same_key : Key → Key → Bool
same_key a b =
    eqb_ℤ a.start b.start
    && eqb_ℤ a.end b.end
    && text_eq a.centre_id b.centre_id
    && text_eq a.topic b.topic

abbrev pub Records : Type 0
Records = List (Key × Counts)

abbrev pub no_counts : Counts
no_counts = record { baseline = 0; http = 0; mqtt = 0 }

-- records.setdefault(key, {...}), and what is done to it
unfoldable pub update_at : Key → (Counts → Counts) → Records → Records
update_at key f [] = (key, f no_counts) ∷ []
update_at key f ((k, counts) ∷ rest) =
    let after = update_at key f rest in
    if same_key k key then (k, f counts) ∷ rest else (k, counts) ∷ after

-- What a result line sets.
unfoldable pub set_counts : Text → ℕ → ℕ → Counts → Counts
set_counts protocol baseline fetched counts =
    if text_eq protocol (codes "http")
    then record counts { baseline = baseline; http = fetched }
    else if text_eq protocol (codes "mqtt")
    then record counts { baseline = baseline; mqtt = fetched }
    else record counts { baseline = baseline }

-- The window of the period that the lines are in, and the records.
pub record Found : Type 0 where
  pub window : Option (ℤ × ℤ)
  pub records : Records

abbrev pub both_bounds : Option ℤ → Option ℤ → Option (ℤ × ℤ)
both_bounds none end = none
both_bounds (some s) none = none
both_bounds (some s) (some e) = some (s, e)

abbrev pub record_result : (ℕ → Option ℕ) → Text → Option (ℤ × ℤ) → List Text → Records → Records
record_result decimal topic none match records = records
record_result decimal topic (some (s, e)) match records =
    if contains topic (group 1 match)
    then update_at (record { start = s; end = e; centre_id = group 0 match; topic = group 1 match })
        (set_counts (group 2 match) (int_of decimal 0 (group 3 match))
          (int_of decimal 0 (group 4 match)))
        records
    else records

-- One line of scan_summary
pub summary_line : Libs → (ℕ → Option ℕ) → Text → Found → Text → Found
summary_line libs decimal topic found line = elim (search period_pattern line) [
  | some period ↦ record found {
    window =
        both_bounds (parse_pubtime libs (group 0 period)) (parse_pubtime libs (group 1 period));
  }
  | none ↦ elim (search (result_pattern decimal) line) [
    | none ↦ found
    | some match ↦ record found {
      records = record_result decimal topic found.window match found.records;
    }
  ]
]

pub summary_lines : Libs → (ℕ → Option ℕ) → Text → Found → List Text → Found
summary_lines libs decimal topic found [] = found
summary_lines libs decimal topic found (line ∷ lines) =
    summary_lines libs decimal topic (summary_line libs decimal topic found line) lines

-- scan_summary
abbrev pub scan_summary : Libs → (ℕ → Option ℕ) → List Text → Text → Records
scan_summary libs decimal lines topic =
    (summary_lines libs decimal topic (record { window = none; records = [] }) lines).records

abbrev pub starts : Records → List ℤ
starts [] = []
starts ((k, counts) ∷ rest) = k.start ∷ starts rest

-- The end of window_bounds_summary; a start that does not parse is None.
abbrev pub since_of : Libs → Args → ℤ → Option ℤ
since_of libs args until =
    if not (is_empty args.since)
    then parse_pubtime libs args.since
    else some (until -ℤ args.minutes *ℤ minute)

-- window_bounds_summary, as run_summary reads it: no bounds where there are no records, and none where
-- the start is None.
unfoldable pub summary_bounds : Libs → Args → Records → Result Fault (Option (ℤ × ℤ))
summary_bounds libs args records = elim (latest (starts records)) [
  | none ↦ ok none
  | some last ↦ do
    until ← if not (is_empty args.until) then floor_bound libs args.until else ok last
    elim (since_of libs args until) [ none ↦ ok none | some since ↦ ok (some (since, until)) ]
]

-- agg.setdefault((start, end), [0, 0, 0]), and the totals that are added to it
abbrev pub add_counts : Counts → Counts → Counts
add_counts a b = record {
  baseline = a.baseline + b.baseline;
  http = a.http + b.http;
  mqtt = a.mqtt + b.mqtt;
}

pub record SummaryRow : Type 0 where
  pub start : ℤ
  pub end : ℤ
  pub counts : Counts

abbrev pub same_window : SummaryRow → ℤ → ℤ → Bool
same_window row s e = eqb_ℤ row.start s && eqb_ℤ row.end e

pub add_window : ℤ → ℤ → Counts → List SummaryRow → List SummaryRow
add_window s e counts [] = record { start = s; end = e; counts = add_counts no_counts counts } ∷ []
add_window s e counts (row ∷ rows) =
    let after = add_window s e counts rows in
    if same_window row s e
    then record row { counts = add_counts row.counts counts } ∷ rows
    else row ∷ after

pub aggregate : ℤ → ℤ → List SummaryRow → Records → List SummaryRow
aggregate since until rows [] = rows
aggregate since until rows ((k, counts) ∷ rest) =
    aggregate since until
      (if ltb_ℤ k.start since || ltb_ℤ until k.start
        then rows
        else add_window k.start k.end counts rows)
      rest

-- Not all three counts are zero.
abbrev pub is_active : Counts → Bool
is_active c = not (c.baseline == 0 && c.http == 0 && c.mqtt == 0)

pub active_rows : List SummaryRow → List SummaryRow
active_rows [] = []
active_rows (row ∷ rows) =
    let rest = active_rows rows in if is_active row.counts then row ∷ rest else rest

-- Before, in the order of tuples; the windows of two rows differ, so the counts are not compared.
abbrev pub row_before : SummaryRow → SummaryRow → Bool
row_before a b = ltb_ℤ a.start b.start || eqb_ℤ a.start b.start && ltb_ℤ a.end b.end

pub insert_row : SummaryRow → List SummaryRow → List SummaryRow
insert_row row [] = row ∷ []
insert_row row (r ∷ rows) =
    let after = insert_row row rows in if row_before row r then row ∷ r ∷ rows else r ∷ after

-- rows.sort()
pub sort_rows : List SummaryRow → List SummaryRow
sort_rows [] = []
sort_rows (row ∷ rows) = insert_row row (sort_rows rows)

-- build_summary_rows
pub build_summary_rows : Records → ℤ → ℤ → List SummaryRow
build_summary_rows records since until = sort_rows (active_rows (aggregate since until [] records))
