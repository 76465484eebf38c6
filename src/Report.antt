-- ===== src/Report.antt =====
-- scripts/replay_loss_report.py, for the sources of single messages: what it counts in a log, minute by
-- minute, and the rows that it reports. Instants are microseconds since 1970-01-01, within the range of
-- `datetime`. Reading the files and printing are left out.
pub mod Pattern
pub mod Lines
pub mod RoundTrip
pub mod Log
pub mod Rows
pub mod Counts
pub mod Loss
pub mod Default
mod Tests
use scgrep.Prelude.{
  ℕ, ◌+◌, ◌-◌, ◌==◌, ◌*◌, ℤ, pos, sub_ℕ, ◌+ℤ◌, ◌-ℤ◌, ◌*ℤ◌, floor_div, leb_ℤ, ltb_ℤ, eqb_ℤ, Bool,
  true, false, not, ◌&&◌, ◌||◌, Option, none, some, List, [], ◌∷◌, ◌++◌, any, map, length, is_empty,
  if◌then◌else◌,
}
use scgrep.Text.{Text, codes, text_eq, contains, strip}
use scgrep.Result.{Result, ok, err, ◌>>=◌}
use scgrep.Libs.{Libs}
use scgrep.Util.{Fault, attribute_error, to_utc, with_offset}
use Pattern.{search}
use Lines.{baseline_pattern, replay_pattern}

-- SOURCES
pub data Source : Type 0 where
  both sync async : Source

abbrev pub sources : Source → List Text
sources both = codes "synchronous" ∷ codes "asynchronous" ∷ []
sources sync = codes "synchronous" ∷ []
sources async = codes "asynchronous" ∷ []

pub parse_pubtime : Libs → Text → Option ℤ
parse_pubtime libs value = elim (libs.fromisoformat (with_offset (strip value))) [
  | none ↦ none
  | some parsed ↦ some (to_utc parsed)
]

abbrev pub minute : ℕ
minute = 60000000

unfoldable pub floor_minute : ℤ → ℤ
floor_minute dt = floor_div dt minute *ℤ minute

-- A dict from minutes to sets of ids, in the order in which they came.
abbrev pub Buckets : Type 0
Buckets = List (ℤ × List Text)

abbrev pub add_id : Text → List Text → List Text
add_id msg_id ids = if any (text_eq msg_id) ids then ids else msg_id ∷ ids

-- buckets[m].add(msg_id), of a defaultdict
pub add_at : ℤ → Text → Buckets → Buckets
add_at m msg_id [] = (m, msg_id ∷ []) ∷ []
add_at m msg_id ((k, ids) ∷ rest) =
    let after = add_at m msg_id rest in
    if eqb_ℤ k m then (k, add_id msg_id ids) ∷ rest else (k, ids) ∷ after

-- buckets.get(m, ())
pub ids_at : ℤ → Buckets → List Text
ids_at m [] = []
ids_at m ((k, ids) ∷ rest) = let after = ids_at m rest in if eqb_ℤ k m then ids else after

pub add_time : Libs → Text → Text → Buckets → Buckets
add_time libs time_value msg_id buckets = elim (parse_pubtime libs time_value) [
  | none ↦ buckets
  | some dt ↦ add_at (floor_minute dt) msg_id buckets
]

-- The baseline and the replayed messages.
pub record Scan : Type 0 where
  pub baseline : Buckets
  pub replay : Buckets

unfoldable pub group : ℕ → List Text → Text
group n [] = []
group n (g ∷ groups) = let rest = group (n - 1) groups in if n == 0 then g else rest

-- One line of scan
pub scan_line : Libs → Text → List Text → Scan → Text → Scan
unfolding add_time group
scan_line libs topic kinds found line = elim (search baseline_pattern line) [
  | some match ↦
      if contains topic (group 0 match)
      then record found { baseline = add_time libs (group 2 match) (group 1 match) found.baseline }
      else found
  | none ↦ elim (search replay_pattern line) [
    | none ↦ found
    | some match ↦
        if any (text_eq (group 0 match)) kinds && contains topic (group 2 match)
        then record found { replay = add_time libs (group 4 match) (group 3 match) found.replay }
        else found
  ]
]

pub scan_lines : Libs → Text → List Text → Scan → List Text → Scan
scan_lines libs topic kinds found [] = found
scan_lines libs topic kinds found (line ∷ lines) =
    scan_lines libs topic kinds (scan_line libs topic kinds found line) lines

-- scan
abbrev pub scan : Libs → List Text → Text → List Text → Scan
scan libs lines topic kinds =
    scan_lines libs topic kinds (record { baseline = []; replay = [] }) lines

unfoldable pub keys : Buckets → List ℤ
keys [] = []
keys ((k, ids) ∷ rest) = k ∷ keys rest

-- max of the minutes; `none` of no minutes
pub latest : List ℤ → Option ℤ
latest [] = none
latest (m ∷ ms) = elim (latest ms) [ none ↦ some m | some k ↦ some (if leb_ℤ m k then k else m) ]

-- The options; a bound that is not given is empty.
pub record Args : Type 0 where
  pub topic : Text
  pub source : Source
  pub minutes : ℤ
  pub since : Text
  pub until : Text

-- floor_minute(parse_pubtime(bound)), which fails on a bound that is no time
pub floor_bound : Libs → Text → Result Fault ℤ
floor_bound libs bound = elim (parse_pubtime libs bound) [
  | none ↦ err attribute_error
  | some dt ↦ ok (floor_minute dt)
]

pub last_minute : Libs → Text → Scan → Result Fault (Option ℤ)
unfolding floor_bound keys
last_minute libs until found =
    if not (is_empty until)
    then (do bound ← floor_bound libs until; ok (some bound))
    else elim (latest (keys found.replay)) [
      | some m ↦ ok (some m)
      | none ↦ ok (latest (keys found.baseline))
    ]

-- window_bounds
pub resolve_bounds : Libs → Args → Scan → Result Fault (Option (ℤ × ℤ))
unfolding last_minute floor_bound
resolve_bounds libs args found = do
  until ← last_minute libs args.until found
  elim until [
    | none ↦ ok none
    | some m ↦
        if not (is_empty args.since)
        then (do since ← floor_bound libs args.since; ok (some (since, m)))
        else ok (some (m -ℤ (args.minutes -ℤ pos 1) *ℤ minute, m))
  ]

pub record Row : Type 0 where
  pub at : ℤ
  pub replay : ℕ
  pub baseline : ℕ
  pub diff : ℤ

-- Into ascending minutes, each once.
pub insert_minute : ℤ → List ℤ → List ℤ
insert_minute m [] = m ∷ []
insert_minute m (k ∷ ks) =
    let after = insert_minute m ks in
    if ltb_ℤ m k then m ∷ k ∷ ks else if eqb_ℤ m k then k ∷ ks else k ∷ after

-- sorted(set(ms))
pub sorted_set : List ℤ → List ℤ
sorted_set [] = []
sorted_set (m ∷ ms) = insert_minute m (sorted_set ms)

-- The row of a minute, where it has one.
pub row_of : Scan → ℤ → ℤ → ℤ → Option Row
row_of found since until m =
    let b = length (ids_at m found.baseline) in
    let r = length (ids_at m found.replay) in
    if ltb_ℤ m since || ltb_ℤ until m
    then none
    else if b == 0 && r == 0
    then none
    else some (record { at = m; replay = r; baseline = b; diff = sub_ℕ b r })

pub rows_of : Scan → ℤ → ℤ → List ℤ → List Row
rows_of found since until [] = []
rows_of found since until (m ∷ ms) =
    let rows = rows_of found since until ms in
    elim (row_of found since until m) [ none ↦ rows | some row ↦ row ∷ rows ]

-- build_rows
pub build_rows : Scan → ℤ → ℤ → List Row
unfolding rows_of keys
build_rows found since until =
    rows_of found since until (sorted_set (keys found.baseline ++ keys found.replay))

-- The TOTAL line of print_table: replayed, baseline and their difference.
unfoldable pub totals : List Row → ℕ × ℕ
totals [] = (0, 0)
totals (row ∷ rows) = let (r, b) = totals rows in (row.replay + r, row.baseline + b)

-- What main reports of the lines: the bounds and the rows, or that there are no messages.
pub report : Libs → Args → List Text → Result Fault (Option (ℤ × ℤ × List Row))
report libs args lines =
    let found = scan libs lines args.topic (sources args.source) in
    do
      bounds ← resolve_bounds libs args found
      elim bounds [
        | none ↦ ok none
        | some (since, until) ↦ ok (some (since, until, build_rows found since until))
      ]
