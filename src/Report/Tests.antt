-- ===== src/Report/Tests.antt =====
-- Tests of the report: a broker message that was not replayed, and one that was replayed twice.
use scgrep.Prelude.{
  length, ap, ◌∙◌, ℤ, pos, ◌≡◌, refl, true, false, some, List, [], ◌∷◌, map, any, all, all→All, All,
  is_empty, ◌+ℤ◌, ◌-ℤ◌, ◌*ℤ◌, ◌≤ℤ◌, eqb_ℤ,
}
use scgrep.Text.{Text, codes, text_eq, has_char, is_space, strip, rstrip_by, lstrip_by, ends_with}
use scgrep.Result.{ok}
use scgrep.Fixtures.{test_libs, centre, weather, weather_data, noon, noon_epoch}
use scgrep.Report.{
  async, Args, Scan, Row, both, sources, minute, parse_pubtime, floor_minute, keys, scan_lines,
  report,
}
use scgrep.Report.Lines.{synchronous, asynchronous}
use scgrep.Report.Lines.{is_solid}
use scgrep.Report.RoundTrip.{Solid}
use scgrep.Report.Log.{Logged, live, replay, line_of, Written, notes, scan_lines-line_of}
use scgrep.Report.Rows.{find_row, AscendingRows}
use scgrep.Report.Counts.{live_entry, replay_entry, entries, distinct_at}
use scgrep.Report.Loss.{counted_row, report-line_of}
use scgrep.Report.Default.{Within, report-default}
use scgrep.Report.{scan, ids_at, add_time, add_at}
use scgrep.Report.Log.{note}
use scgrep.Text.{contains, starts_with}

abbrev at : Text
at = codes "2026-01-01 12:00:01,000"

abbrev handler : Text
handler = codes "scgrep.mqtt_client"

abbrev log : List (Text × Text × Logged)
log =
    (at, handler, live weather_data (codes "m1") noon)
    ∷ (at, handler, live weather_data (codes "m2") noon)
    ∷ (at, handler, replay asynchronous centre weather_data (codes "m1") noon)
    ∷ (at, codes "scgrep.replay_tester", replay synchronous centre weather (codes "m1") noon)
    ∷ []

solid : (w : Text) → is_empty w ≡ false → all is_solid w ≡ true → Solid w
solid w h k = (h, all→All is_solid w k)

written : All Written log
unfolding has_char is_space
written =
    let topic = solid weather_data refl refl in
    let time = solid noon refl refl in
    let first = solid (codes "m1") refl refl in
    let gr = solid centre refl refl in
    (
      ((refl, refl), (refl, refl), (topic, first, time)),
      (
        ((refl, refl), (refl, refl), (topic, solid (codes "m2") refl refl, time)),
        (
          ((refl, refl), (refl, refl), (gr, topic, first, time)),
          (((refl, refl), (refl, refl), (gr, solid weather refl refl, first, time)), tt),
        ),
      ),
    )

abbrev options : Args
options = record { topic = codes "uk"; source = both; minutes = pos 60; since = noon; until = noon }

abbrev empty_scan : Scan
empty_scan = record { baseline = []; replay = [] }

scan_lines-line_of_example :
    scan_lines test_libs (codes "uk") (sources both) empty_scan (map line_of log)
    ≡ notes test_libs (codes "uk") (sources both) empty_scan log
scan_lines-line_of_example =
    scan_lines-line_of test_libs (codes "uk") (sources both) empty_scan log written

report-line_of_example :
    (rows : List Row) × (report test_libs options (map line_of log)
      ≡ ok (some (floor_minute noon_epoch, floor_minute noon_epoch, rows)))
    × AscendingRows rows
    × ((m : ℤ)
        → find_row m rows
          ≡ counted_row
              (floor_minute noon_epoch)
              (floor_minute noon_epoch)
              m
              (distinct_at m [] (entries (replay_entry test_libs (codes "uk") (sources both)) log))
              (distinct_at m [] (entries (live_entry test_libs (codes "uk")) log)))
unfolding parse_pubtime text_eq ends_with strip rstrip_by lstrip_by is_space
report-line_of_example =
    report-line_of test_libs options log noon_epoch noon_epoch written refl refl refl refl

abbrev unbounded : Args
unbounded = record options { since = []; until = []; source = async }

report-default_example :
    let found = scan test_libs (map line_of log) (codes "uk") (sources async) in
    (since until : ℤ) × (rows : List Row) × (report test_libs unbounded (map line_of log)
      ≡ ok (some (since, until, rows)))
    × (since +ℤ (pos 60 -ℤ pos 1) *ℤ minute ≡ until)
    × (any (eqb_ℤ until) (keys found.replay) ≡ true)
    × All (λ m. m ≤ℤ until) (keys found.replay)
    × AscendingRows rows
    × All (Within since until) rows
    × ((m : ℤ)
        → find_row m rows
          ≡ counted_row since until m
              (length (ids_at m found.replay))
              (length (ids_at m found.baseline)))
unfolding notes note add_time add_at parse_pubtime contains text_eq ends_with starts_with strip
    rstrip_by lstrip_by is_space
report-default_example =
    report-default test_libs unbounded (map line_of log) (floor_minute noon_epoch) (codes "m1" ∷ [])
      [] refl refl replayed
  where
    replayed :
        (scan test_libs (map line_of log) (codes "uk") (sources async)).replay
        ≡ (floor_minute noon_epoch, codes "m1" ∷ []) ∷ []
    replayed =
        ap (λ (found : Scan). found.replay)
          (scan_lines-line_of test_libs (codes "uk") (sources async) empty_scan log written)
        ∙ refl
