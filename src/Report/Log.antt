-- ===== src/Report/Log.antt =====
-- A log that the program wrote, scanned by scripts/replay_loss_report.py.
use scgrep.Prelude.{
  ℕ, false, ◌&&◌, ◌≡◌, refl, List, [], ◌∷◌, ◌++◌, All, arith, ◌∙◌, any, ap, if◌then◌else◌, map,
}
use mathlib.Core.List.{append_assoc}
use scgrep.Text.{Text, codes, has_char, text_eq, contains}
use scgrep.Text.Affix.{has_char-append}
use scgrep.Libs.{Libs}
use scgrep.Report.Lines.{Kind, kind_text, log_line, broker_message, replay_message}
use scgrep.Report.RoundTrip.{
  Solid, newline, search-broker_message, search-replay_message, unread-replay_message,
}
use scgrep.Report.{Scan, add_time, scan_line, scan_lines, group}

-- A message that the program logs: a broker message, or a replayed one.
pub data Logged : Type 0 where
  live : (topic msg_id time_value : Text) → Logged
  replay : (kind : Kind) (centre_id topic msg_id time_value : Text) → Logged

-- The line of the log: the time of the record, the name of the logger and the message.
abbrev pub message_of : Logged → Text
message_of (live t i v) = broker_message t i v
message_of (replay k c t i v) = replay_message (kind_text k) c t i v

abbrev pub line_of : Text × Text × Logged → Text
line_of (asctime, name, logged) = log_line asctime name (message_of logged) ++ newline

-- Its fields are words, as its patterns expect.
abbrev pub Words : Logged → Type 0
Words (live t i v) = Solid t × Solid i × Solid v
Words (replay k c t i v) = Solid c × Solid t × Solid i × Solid v

-- In front of the message, the line has no first letter of a pattern.
abbrev pub Clear : Text → Type 0
Clear s = (has_char b'G' s ≡ false) × (has_char b'R' s ≡ false)

abbrev pub Written : Text × Text × Logged → Type 0
Written (asctime, name, logged) = Clear asctime × Clear name × Words logged

-- What the message adds to the scan.
unfoldable pub note : Libs → Text → List Text → Scan → Logged → Scan
note libs topic kinds found (live t i v) =
    if contains topic t then record found { baseline = add_time libs v i found.baseline } else found
note libs topic kinds found (replay k c t i v) =
    if any (text_eq (kind_text k)) kinds && contains topic t
    then record found { replay = add_time libs v i found.replay }
    else found

prefix : Text → Text → Text
prefix asctime name = asctime ++ (codes " INFO [" ++ (name ++ codes "] "))

prefix-Clear : (asctime name : Text) → Clear asctime → Clear name → Clear (prefix asctime name)
unfolding prefix has_char
prefix-Clear asctime name h k = (clear b'G' h.0 k.0 refl refl, clear b'R' h.1 k.1 refl refl)
  where
    clear :
        (c : ℕ)
        → has_char c asctime ≡ false
        → has_char c name ≡ false
        → has_char c (codes " INFO [") ≡ false
        → has_char c (codes "] ") ≡ false
        → has_char c (prefix asctime name) ≡ false
    clear c h k e f = ground (
      arith,
      h,
      k,
      e,
      f,
      has_char-append c asctime (codes " INFO [" ++ (name ++ codes "] ")),
      has_char-append c (codes " INFO [") (name ++ codes "] "),
      has_char-append c name (codes "] "),
    )

-- The line of a broker message, with the line break at the end of its last field.
line_of-live :
    (asctime name t i v : Text)
    → line_of (asctime, name, live t i v) ≡ prefix asctime name ++ broker_message t i (v ++ newline)
unfolding prefix
line_of-live asctime name t i v = simp append_assoc

line_of-replay :
    (asctime name : Text) (k : Kind) (c t i v : Text)
    → line_of (asctime, name, replay k c t i v)
      ≡ prefix asctime name ++ replay_message (kind_text k) c t i (v ++ newline)
unfolding prefix
line_of-replay asctime name k c t i v = simp append_assoc

scan_line-line_of :
    (libs : Libs) (topic : Text) (kinds : List Text) (found : Scan) (x : Text × Text × Logged)
    → Written x
    → scan_line libs topic kinds found (line_of x) ≡ note libs topic kinds found x.2
unfolding scan_line note group
scan_line-line_of libs topic kinds found (asctime, name, live t i v) (ha, hn, (ht, hi, hv)) =
    ap (scan_line libs topic kinds found) (line_of-live asctime name t i v)
    ∙ ground (
      arith,
      search-broker_message (prefix asctime name) t i v (prefix-Clear asctime name ha hn).0 ht hi
          hv,
    )
scan_line-line_of libs topic kinds found (asctime, name, replay k c t i v)
      (ha, hn, (hc, ht, hi, hv)) =
    let clear = prefix-Clear asctime name ha hn in
    ap (scan_line libs topic kinds found) (line_of-replay asctime name k c t i v)
    ∙ ground (
      arith,
      unread-replay_message (prefix asctime name) k c t i v clear.0 hc ht hi hv,
      search-replay_message (prefix asctime name) k c t i v clear.1 hc ht hi hv,
    )

-- What the messages add, one after the other.
unfoldable pub notes : Libs → Text → List Text → Scan → List (Text × Text × Logged) → Scan
notes libs topic kinds found [] = found
notes libs topic kinds found (x ∷ xs) = notes libs topic kinds (note libs topic kinds found x.2) xs

-- The lines that the program logs for broker messages and replayed messages are read back as these
-- messages, in their order, if the fields hold no white space and the time and the logger's name in
-- front of the message have neither a `G` nor an `R`.
pub scan_lines-line_of :
    (libs : Libs) (topic : Text) (kinds : List Text) (found : Scan)
    (xs : List (Text × Text × Logged))
    → All Written xs
    → scan_lines libs topic kinds found (map line_of xs) ≡ notes libs topic kinds found xs
unfolding scan_lines notes
scan_lines-line_of libs topic kinds found [] h = refl
scan_lines-line_of libs topic kinds found (x ∷ xs) h =
    ap (λ f. scan_lines libs topic kinds f (map line_of xs))
      (scan_line-line_of libs topic kinds found x h.0)
    ∙ scan_lines-line_of libs topic kinds (note libs topic kinds found x.2) xs h.1
