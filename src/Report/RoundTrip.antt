-- ===== src/Report/RoundTrip.antt =====
-- What scripts/replay_loss_report.py reads in the lines that the program logs.
use scgrep.Prelude.{
  ℕ, true, false, ◌≡◌, refl, none, some, List, [], ◌∷◌, ◌++◌, All, arith, ==_iff, ◌∙◌,
}
use scgrep.Text.{Text, codes, is_space, has_char, starts_with}
use scgrep.Text.Affix.{has_char-append}
use scgrep.Report.Pattern.{
  Piece, literal, run, choice, match_here, search, Word, Stops, match_here-literal, match_here-run,
  search-skip, search-here, search-skip_word, search-spaceless,
}
use scgrep.Report.Lines.{
  is_solid, Kind, synchronous, asynchronous, kind_text, replay_message, baseline_pattern,
  replay_pattern,
}

-- The end of a line: nothing, or what begins with white space.
abbrev LineEnd : Text → Type 0
LineEnd = Stops is_solid

abbrev pub newline : Text
newline = 10 ∷ []

pub newline_ends : LineEnd newline
unfolding is_space
newline_ends = refl

abbrev pub Solid : Text → Type 0
Solid = Word is_solid

-- Three fields at the end of both patterns.
fields :
    (t i v end : Text)
    → Solid t
    → Solid i
    → Solid v
    → LineEnd end
    → match_here
        (run is_solid
          ∷ literal (codes " id=")
          ∷ run is_solid
          ∷ literal (codes " time=")
          ∷ run is_solid
          ∷ [])
        (t ++ (codes " id=" ++ (i ++ (codes " time=" ++ (v ++ end)))))
      ≡ some (t ∷ i ∷ v ∷ [])
unfolding is_space
fields t i v end ht hi hv he = match_here-run is_solid t _ _ (i ∷ v ∷ []) ht refl (
    match_here-literal (codes " id=") _ _
    ∙ match_here-run is_solid i _ _ (v ∷ []) hi refl (
        match_here-literal (codes " time=") _ _
        ∙ match_here-run is_solid v end [] [] hv he (unfold match_here in refl)))

pub search-broker_message :
    (p t i v : Text)
    → has_char b'G' p ≡ false
    → Solid t
    → Solid i
    → Solid v
    → search baseline_pattern (
        p
        ++ (codes "Global Broker message: topic="
            ++ (t ++ (codes " id=" ++ (i ++ (codes " time=" ++ (v ++ newline)))))))
      ≡ some (t ∷ i ∷ v ∷ [])
search-broker_message p t i v hp ht hi hv =
    search-skip b'G' (codes "lobal Broker message: topic=") p _ _ hp
    ∙ search-here _ baseline_pattern _ (
        match_here-literal (codes "Global Broker message: topic=") _ _
        ∙ fields t i v newline ht hi hv newline_ends)

-- The pieces of a replay line after the kind.
after_kind :
    (c t i v end : Text)
    → Solid c
    → Solid t
    → Solid i
    → Solid v
    → LineEnd end
    → match_here
        (literal (codes "): centre_id=")
          ∷ run is_solid
          ∷ literal (codes " topic=")
          ∷ run is_solid
          ∷ literal (codes " id=")
          ∷ run is_solid
          ∷ literal (codes " time=")
          ∷ run is_solid
          ∷ [])
        (codes "): centre_id="
          ++ (c
              ++ (codes " topic="
                  ++ (t ++ (codes " id=" ++ (i ++ (codes " time=" ++ (v ++ end))))))))
      ≡ some (c ∷ t ∷ i ∷ v ∷ [])
unfolding is_space
after_kind c t i v end hc ht hi hv he =
    match_here-literal (codes "): centre_id=") _ _
    ∙ match_here-run is_solid c _ _ (t ∷ i ∷ v ∷ []) hc refl
        (match_here-literal (codes " topic=") _ _ ∙ fields t i v end ht hi hv he)

match_here-kind :
    (k : Kind) (s : Text) (ps : List Piece) (groups : List Text)
    → match_here ps s ≡ some groups
    → match_here (choice (codes "synchronous") (codes "asynchronous") ∷ ps) (kind_text k ++ s)
      ≡ some (kind_text k ∷ groups)
unfolding match_here starts_with
match_here-kind synchronous s ps groups e = ground (arith, e)
match_here-kind asynchronous s ps groups e = ground (arith, e)

pub search-replay_message :
    (p : Text) (k : Kind) (c t i v : Text)
    → has_char b'R' p ≡ false
    → Solid c
    → Solid t
    → Solid i
    → Solid v
    → search replay_pattern (p ++ replay_message (kind_text k) c t i (v ++ newline))
      ≡ some (kind_text k ∷ c ∷ t ∷ i ∷ v ∷ [])
search-replay_message p k c t i v hp hc ht hi hv =
    search-skip b'R' (codes "eplay message (") p _ _ hp
    ∙ search-here _ replay_pattern _ (
        match_here-literal (codes "Replay message (") _ _
        ∙ match_here-kind k _ _ _ (after_kind c t i v newline hc ht hi hv newline_ends))

-- No white space means no space.
space_ends : is_solid b' ' ≡ false
unfolding is_space
space_ends = refl

pub solid-spaceless : (w : Text) → All (λ x. is_solid x ≡ true) w → has_char b' ' w ≡ false
unfolding has_char
solid-spaceless [] h = refl
solid-spaceless (x ∷ w) h = ground (arith, h.0, space_ends, solid-spaceless w h.1, ==_iff x b' ')

-- The baseline pattern goes past a word and the field name that follows it.
past :
    (w name s : Text) (d : ℕ)
    → Solid w
    → starts_with (d ∷ (name ++ s)) (codes "Broker message: topic=") ≡ false
    → has_char b'G' (b' ' ∷ d ∷ name) ≡ false
    → search baseline_pattern (w ++ ((b' ' ∷ d ∷ name) ++ s)) ≡ search baseline_pattern s
unfolding has_char
past w name s d hw hd hn =
    search-skip_word (codes "Global") (codes "Broker message: topic=") w (d ∷ (name ++ s)) _ refl
      (solid-spaceless w hw.1) hd
    ∙ search-skip b'G' (codes "lobal Broker message: topic=") (b' ' ∷ d ∷ name) s _ hn

past_end : (v : Text) → Solid v → search baseline_pattern (v ++ newline) ≡ none
unfolding has_char
past_end v h =
    search-spaceless (codes "Global") (codes "Broker message: topic=") (v ++ newline) _
      (ground (arith, has_char-append b' ' v newline, solid-spaceless v h.1))

pub unread-replay_message :
    (p : Text) (k : Kind) (c t i v : Text)
    → has_char b'G' p ≡ false
    → Solid c
    → Solid t
    → Solid i
    → Solid v
    → search baseline_pattern (p ++ replay_message (kind_text k) c t i (v ++ newline)) ≡ none
unfolding has_char starts_with
unread-replay_message p k c t i v hp hc ht hi hv =
    search-skip b'G' (codes "lobal Broker message: topic=") p _ _ hp
    ∙ kinds k
    ∙ past c (codes "opic=") _ b't' hc refl refl
    ∙ past t (codes "d=") _ b'i' ht refl refl
    ∙ past i (codes "ime=") (v ++ newline) b't' hi refl refl
    ∙ past_end v hv
  where
    kinds :
        (k : Kind)
        → search baseline_pattern (replay_message (kind_text k) c t i (v ++ newline))
          ≡ search baseline_pattern (
              c
              ++ (codes " topic="
                  ++ (t ++ (codes " id=" ++ (i ++ (codes " time=" ++ (v ++ newline)))))))
    kinds synchronous =
        search-skip b'G' (codes "lobal Broker message: topic=")
          (codes "Replay message (synchronous): centre_id=") _ _ refl
    kinds asynchronous =
        search-skip b'G' (codes "lobal Broker message: topic=")
          (codes "Replay message (asynchronous): centre_id=") _ _ refl
