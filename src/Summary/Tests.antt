-- ===== src/Summary/Tests.antt =====
-- Tests of the summary: a period with the results of two protocols.
use scgrep.Prelude.{
  ℕ, ◌-◌, ℤ, pos, true, false, ◌&&◌, ◌≡◌, refl, arith, Option, none, some, List, [], ◌∷◌, map, All,
  all, all→All, is_empty, leb, if◌then◌else◌,
}
use scgrep.Text.{Text, codes, has_char, is_space}
use scgrep.Fixtures.{test_libs, centre, weather, noon, noon_epoch}
use scgrep.Report.Lines.{is_solid}
use scgrep.Report.RoundTrip.{Solid}
use scgrep.Summary.{Records, Found, summary_lines, build_summary_rows}
use scgrep.Summary.Sums.{counts_of, added}
use scgrep.Summary.Rows.{Sorted, counts_of-build_summary_rows}
use scgrep.Summary.RoundTrip.{Decimals}
use scgrep.Summary.Log.{Logged, period, result, line_of, Written, notes, summary_lines-line_of}

-- The ASCII digits.
abbrev ascii_digit : ℕ → Option ℕ
ascii_digit x = if leb 48 x && leb x 57 then some (x - 48) else none

ascii_digits : Decimals ascii_digit
ascii_digits = record { ascii = λ d h. ground (arith, h); space = refl }

abbrev at : Text
at = codes "2026-01-01 12:00:01,000"

abbrev logger : Text
logger = codes "scgrep.test_cycle"

abbrev log : List (Text × Text × Logged)
log =
    (at, logger, period noon noon)
    ∷ (at, logger, result centre weather (codes "http") 12 10 (codes "numberMatched=10"))
    ∷ (at, logger, result centre weather (codes "mqtt") 12 9 (codes "numberMatched=0"))
    ∷ []

solid : (w : Text) → is_empty w ≡ false → all is_solid w ≡ true → Solid w
solid w h k = (h, all→All is_solid w k)

written : All Written log
unfolding has_char is_space
written =
    let time = solid noon refl refl in
    let gr = solid centre refl refl in
    let topic = solid weather refl refl in
    (
      ((refl, refl), (time, time)),
      (
        ((refl, refl), (gr, topic, solid (codes "http") refl refl, refl)),
        (((refl, refl), (gr, topic, solid (codes "mqtt") refl refl, refl)), tt),
      ),
    )

abbrev nothing : Found
nothing = record { window = none; records = [] }

summary_lines-line_of_example :
    summary_lines test_libs ascii_digit (codes "uk") nothing (map line_of log)
    ≡ notes test_libs (codes "uk") nothing log
summary_lines-line_of_example =
    summary_lines-line_of test_libs ascii_digit ascii_digits (codes "uk") nothing log written

-- Two topics of one window.
abbrev recorded : Records
recorded =
    (
      record { start = noon_epoch; end = noon_epoch; centre_id = centre; topic = weather },
      record { baseline = 12; http = 10; mqtt = 9 },
    )
    ∷ (
      record {
        start = noon_epoch;
        end = noon_epoch;
        centre_id = centre;
        topic = codes "cache/fr/#";
      },
      record { baseline = 3; http = 3; mqtt = 3 },
    )
    ∷ []

counts_of-build_summary_rows_example :
    Sorted (build_summary_rows recorded (pos 0) noon_epoch)
    × ((s e : ℤ)
        → counts_of s e (build_summary_rows recorded (pos 0) noon_epoch)
          ≡ added (pos 0) noon_epoch s e recorded)
counts_of-build_summary_rows_example = counts_of-build_summary_rows recorded (pos 0) noon_epoch
