-- ===== src/Summary/Log.antt =====
-- A log that run_cycle (scgrep/test_cycle.py) wrote, scanned by the summary of
-- scripts/replay_loss_report.py.
use scgrep.Prelude.{
  ℕ, false, ◌≡◌, ◌∙◌, refl, ap, Option, none, some, List, [], ◌∷◌, ◌++◌, All, arith, map,
  if◌then◌else◌,
}
use mathlib.Core.List.{append_assoc}
use scgrep.Text.{Text, codes, has_char, contains}
use scgrep.Text.Affix.{has_char-append}
use scgrep.Libs.{Libs}
use scgrep.Report.{parse_pubtime, group}
use scgrep.Report.Lines.{log_line}
use scgrep.Report.RoundTrip.{Solid, newline}
use scgrep.Summary.{update_at, set_counts, Found, both_bounds, summary_line, summary_lines}
use scgrep.Summary.RoundTrip.{
  period_message, result_message, Decimals, search-result_message, search-period_message,
  unread-result_message, int_of-print_nat,
}

-- What stands in front of a message in its line.
abbrev pub front_of : Text → Text → Text
front_of asctime name = asctime ++ (codes " INFO [" ++ (name ++ codes "] "))

behind :
    (rest : Text) → has_char b'T' rest ≡ false → has_char b'T' (b' ' ∷ (rest ++ newline)) ≡ false
unfolding has_char
behind rest h = ground (arith, h, has_char-append b'T' rest newline)

-- What a cycle logs: the beginning of its period, or a result, with what stands behind the counts.
pub data Logged : Type 0 where
  period : (start end : Text) → Logged
  result : (centre_id topic protocol : Text) (baseline fetched : ℕ) (rest : Text) → Logged

abbrev pub message_of : Logged → Text
message_of (period s e) = period_message s e
message_of (result c t p b f rest) = result_message c t p b f (b' ' ∷ rest)

abbrev pub line_of : Text × Text × Logged → Text
line_of (asctime, name, logged) = log_line asctime name (message_of logged) ++ newline

-- The fields are words, and what stands behind the counts has no `T`.
abbrev pub Words : Logged → Type 0
Words (period s e) = Solid s × Solid e
Words (result c t p b f rest) = Solid c × Solid t × Solid p × (has_char b'T' rest ≡ false)

abbrev pub Clear : Text → Type 0
Clear s = (has_char b'T' s ≡ false) × (has_char b'R' s ≡ false)

-- In front of the message, the line has no first letter of a pattern.
abbrev pub Written : Text × Text × Logged → Type 0
Written (asctime, name, logged) = Clear (front_of asctime name) × Words logged

-- What the message adds.
unfoldable pub note : Libs → Text → Found → Logged → Found
note libs topic found (period s e) = record found {
  window = both_bounds (parse_pubtime libs s) (parse_pubtime libs e);
}
note libs topic found (result c t p b f rest) = elim found.window [
  | none ↦ found
  | some (s, e) ↦
      if contains topic t
      then record found {
        records =
            update_at (record { start = s; end = e; centre_id = c; topic = t }) (set_counts p b f)
              found.records;
      }
      else found
]

unfoldable pub notes : Libs → Text → Found → List (Text × Text × Logged) → Found
notes libs topic found [] = found
notes libs topic found (x ∷ xs) = notes libs topic (note libs topic found x.2) xs

line_of-period :
    (asctime name s e : Text)
    → line_of (asctime, name, period s e) ≡ front_of asctime name ++ period_message s (e ++ newline)
line_of-period asctime name s e = simp append_assoc

line_of-result :
    (asctime name c t p : Text) (b f : ℕ) (rest : Text)
    → line_of (asctime, name, result c t p b f rest)
      ≡ front_of asctime name ++ result_message c t p b f (b' ' ∷ (rest ++ newline))
line_of-result asctime name c t p b f rest = simp append_assoc

module _ (libs : Libs) (decimal : ℕ → Option ℕ) (documented : Decimals decimal) where
  summary_line-line_of :
      (topic : Text) (found : Found) (x : Text × Text × Logged)
      → Written x
      → summary_line libs decimal topic found (line_of x) ≡ note libs topic found x.2
  unfolding summary_line note group
  summary_line-line_of topic found (asctime, name, period s e) (clear, (hs, he)) =
      ap (summary_line libs decimal topic found) (line_of-period asctime name s e)
      ∙ ground (arith, search-period_message (front_of asctime name) s e clear.0 hs he)
  summary_line-line_of topic found (asctime, name, result c t p b f rest)
        (clear, (hc, ht, hp, hr)) =
      ap (summary_line libs decimal topic found) (line_of-result asctime name c t p b f rest)
      ∙ ground (
        arith,
        unread-result_message (front_of asctime name) c t p b f (b' ' ∷ (rest ++ newline)) clear.0
            (behind rest hr) hc ht hp,
        search-result_message decimal documented (front_of asctime name) c t p b f (rest ++ newline)
            clear.1 hc ht hp,
        int_of-print_nat decimal documented b,
        int_of-print_nat decimal documented f,
      )

  -- The lines that a cycle logs for its period and its results are read back as the window and the counts
  -- of its series, if the fields hold no white space, what stands behind the counts has no `T`, what
  -- stands in front of the message has neither a `T` nor an `R`, and the ASCII digits are decimal digits
  -- of their values, where a space is none.
  pub summary_lines-line_of :
      (topic : Text) (found : Found) (xs : List (Text × Text × Logged))
      → All Written xs
      → summary_lines libs decimal topic found (map line_of xs) ≡ notes libs topic found xs
  unfolding summary_lines notes
  summary_lines-line_of topic found [] h = refl
  summary_lines-line_of topic found (x ∷ xs) h =
      ap (λ f. summary_lines libs decimal topic f (map line_of xs))
        (summary_line-line_of topic found x h.0)
      ∙ summary_lines-line_of topic (note libs topic found x.2) xs h.1
