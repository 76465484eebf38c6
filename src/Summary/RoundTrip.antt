-- ===== src/Summary/RoundTrip.antt =====
-- The lines that run_cycle (scgrep/test_cycle.py) logs of a cycle, read by the summary of
-- scripts/replay_loss_report.py.
use scgrep.Prelude.{
  ℕ, ◌+◌, ◌*◌, ◌<◌, true, false, ◌≡◌, ◌∙◌, refl, ap, sym, Option, none, some, [], ◌∷◌, ◌++◌, All,
  arith,
}
use mathlib.Core.List.{append-nil}
use scgrep.Text.{Text, codes, has_char, is_space, print_nat, starts_with}
use scgrep.Text.Decimal.{
  IsDigit, print_nat-IsDigit, print_nat-nonempty, print_nat-digits, value_from,
  value_from-print_nat,
}
use scgrep.Report.Pattern.{
  match_here, search, Word, match_here-literal, match_here-run, search-skip, search-here,
  search-skip_word,
}
use scgrep.Report.Lines.{is_solid}
use scgrep.Report.RoundTrip.{Solid, newline, newline_ends, solid-spaceless}
use scgrep.Summary.{period_pattern, result_pattern, is_decimal, int_of}

abbrev pub period_message : Text → Text → Text
period_message start end = codes "Test period begins: window " ++ (start ++ (codes " .. " ++ end))

-- The line of a result up to the second count; the rest of it is an argument.
abbrev pub result_message : Text → Text → Text → ℕ → ℕ → Text → Text
result_message centre_id topic protocol baseline fetched rest =
    codes "Result: centre_id="
    ++ (centre_id
        ++ (codes " topic="
            ++ (topic
                ++ (codes " protocol="
                    ++ (protocol
                        ++ (codes " baseline="
                            ++ (print_nat baseline
                                ++ (codes " fetched=" ++ (print_nat fetched ++ rest)))))))))

-- What is documented of decimal digits: the ASCII digits have their values, and a space is none.
pub record Decimals (decimal : ℕ → Option ℕ) : Type 0 where
  pub ascii : (d : ℕ) → d < 10 → decimal (48 + d) ≡ some d
  pub space : decimal b' ' ≡ none

module _ (decimal : ℕ → Option ℕ) (documented : Decimals decimal) where
  digits-decimal : (s : Text) → All IsDigit s → All (λ x. is_decimal decimal x ≡ true) s
  digits-decimal [] h = tt
  digits-decimal (x ∷ s) ((d, small, e), h) =
      (ground (arith, e, documented.ascii d small), digits-decimal s h)

  digits-int : (n : ℕ) (s : Text) → All IsDigit s → int_of decimal n s ≡ value_from n s
  unfolding int_of value_from
  digits-int n [] h = refl
  digits-int n (x ∷ s) ((d, small, e), h) =
      ground (arith, e, documented.ascii d small, digits-int (n * 10 + d) s h)

  pub int_of-print_nat : (n : ℕ) → int_of decimal 0 (print_nat n) ≡ n
  int_of-print_nat n = digits-int 0 (print_nat n) (print_nat-IsDigit n) ∙ value_from-print_nat n

  number : (n : ℕ) → Word (is_decimal decimal) (print_nat n)
  number n = (print_nat-nonempty n, digits-decimal (print_nat n) (print_nat-IsDigit n))

  space_stops : is_decimal decimal b' ' ≡ false
  space_stops = ground (arith, documented.space)

  pub search-result_message :
      (front c t p : Text) (b f : ℕ) (rest : Text)
      → has_char b'R' front ≡ false
      → Solid c
      → Solid t
      → Solid p
      → search (result_pattern decimal) (front ++ result_message c t p b f (b' ' ∷ rest))
        ≡ some (c ∷ t ∷ p ∷ print_nat b ∷ print_nat f ∷ [])
  unfolding is_space
  search-result_message front c t p b f rest hf hc ht hp =
      search-skip b'R' (codes "esult: centre_id=") front _ _ hf
      ∙ search-here _ (result_pattern decimal) _ (
          match_here-literal (codes "Result: centre_id=") _ _
          ∙ match_here-run is_solid c _ _ _ hc refl (
              match_here-literal (codes " topic=") _ _
              ∙ match_here-run is_solid t _ _ _ ht refl (
                  match_here-literal (codes " protocol=") _ _
                  ∙ match_here-run is_solid p _ _ _ hp refl (
                      match_here-literal (codes " baseline=") _ _
                      ∙ match_here-run (is_decimal decimal) (print_nat b) _ _ _ (number b)
                          space_stops
                          (match_here-literal (codes " fetched=") _ _
                            ∙ match_here-run (is_decimal decimal) (print_nat f) (b' ' ∷ rest) [] []
                                (number f) space_stops (unfold match_here in refl))))))

pub search-period_message :
    (front s e : Text)
    → has_char b'T' front ≡ false
    → Solid s
    → Solid e
    → search period_pattern (front ++ period_message s (e ++ newline)) ≡ some (s ∷ e ∷ [])
unfolding is_space
search-period_message front s e hf hs he =
    search-skip b'T' (codes "est period begins: window ") front _ _ hf
    ∙ search-here _ period_pattern _ (
        match_here-literal (codes "Test period begins: window ") _ _
        ∙ match_here-run is_solid s _ _ _ hs refl (
            match_here-literal (codes " .. ") _ _
            ∙ match_here-run is_solid e newline [] [] he newline_ends (unfold match_here in refl)))

-- The pattern of a period goes past a word and the field name that follows it.
past :
    (w name s : Text)
    → Solid w
    → starts_with (name ++ s) (codes "period begins: window ") ≡ false
    → has_char b'T' (b' ' ∷ name) ≡ false
    → search period_pattern (w ++ ((b' ' ∷ name) ++ s)) ≡ search period_pattern s
unfolding has_char
past w name s hw hd hn =
    search-skip_word (codes "Test") (codes "period begins: window ") w (name ++ s) _ refl
      (solid-spaceless w hw.1) hd
    ∙ search-skip b'T' (codes "est period begins: window ") (b' ' ∷ name) s _ hn

nothing : (t : Text) → has_char b'T' t ≡ false → search period_pattern t ≡ none
nothing t h =
    ap (search period_pattern) (sym (append-nil t))
    ∙ search-skip b'T' (codes "est period begins: window ") t [] _ h
    ∙ (unfold search match_here starts_with in refl)

pub unread-result_message :
    (front c t p : Text) (b f : ℕ) (rest : Text)
    → has_char b'T' front ≡ false
    → has_char b'T' rest ≡ false
    → Solid c
    → Solid t
    → Solid p
    → search period_pattern (front ++ result_message c t p b f rest) ≡ none
unfolding has_char starts_with
unread-result_message front c t p b f rest hf hr hc ht hp =
    search-skip b'T' (codes "est period begins: window ") front _ _ hf
    ∙ search-skip b'T' (codes "est period begins: window ") (codes "Result: centre_id=") _ _ refl
    ∙ past c (codes "topic=") _ hc refl refl
    ∙ past t (codes "protocol=") _ ht refl refl
    ∙ past p (codes "baseline=") _ hp refl refl
    ∙ search-skip b'T' (codes "est period begins: window ") (print_nat b) _ _
        (print_nat-digits b b'T' (omega arith))
    ∙ search-skip b'T' (codes "est period begins: window ") (codes " fetched=") _ _ refl
    ∙ search-skip b'T' (codes "est period begins: window ") (print_nat f) _ _
        (print_nat-digits f b'T' (omega arith))
    ∙ nothing rest hr
