-- ===== src/Report/Pattern.antt =====
-- The regular expressions of scripts/replay_loss_report.py, as pieces: a literal, a run of one or more
-- characters of a class (`\S+`), which is read up to its end because no piece that follows one begins
-- with a character of the class, and a choice between two literals that begin differently. Each run and
-- each choice gives a text, in the order of the pieces.
use scgrep.Prelude.{
  ℕ, Bool, true, false, Option, none, some, List, [], ◌∷◌, ◌++◌, ◌≡◌, refl, arith, is_empty,
  if◌then◌else◌, length, drop, All, ◌==◌,
}
use scgrep.Text.{Text, starts_with, has_char}
use scgrep.Text.Laws.{starts_with-append}

pub data Piece : Type 0 where
  literal : Text → Piece
  run : (ℕ → Bool) → Piece
  choice : Text → Text → Piece

-- The longest prefix of characters that satisfy the test, and the rest.
span : (ℕ → Bool) → Text → Text × Text
span p [] = ([], [])
span p (x ∷ s) = let (w, rest) = span p s in if p x then (x ∷ w, rest) else ([], x ∷ s)

onto : Text → Option (List Text) → Option (List Text)
onto w none = none
onto w (some groups) = some (w ∷ groups)

-- pattern.match(s), and its groups
unfoldable pub match_here : List Piece → Text → Option (List Text)
unfolding span onto
match_here [] s = some []
match_here (literal l ∷ ps) s =
    let rest = match_here ps (drop (length l) s) in if starts_with s l then rest else none
match_here (run p ∷ ps) s =
    let (w, after) = span p s in
    let rest = match_here ps after in if is_empty w then none else onto w rest
match_here (choice l k ∷ ps) s =
    let first = match_here ps (drop (length l) s) in
    let second = match_here ps (drop (length k) s) in
    if starts_with s l then onto l first else if starts_with s k then onto k second else none

-- pattern.search(s): the leftmost match
unfoldable pub search : List Piece → Text → Option (List Text)
search ps [] = match_here ps []
search ps (x ∷ s) =
    let rest = search ps s in
    elim (match_here ps (x ∷ s)) [ none ↦ rest | some groups ↦ some groups ]

drop-append : (l s : Text) → drop (length l) (l ++ s) ≡ s
drop-append [] s = refl
drop-append (x ∷ l) s = drop-append l s

-- A rest that a run before it does not go on into.
abbrev pub Stops : (ℕ → Bool) → Text → Type 0
Stops p [] = Unit {0}
Stops p (x ∷ s) = p x ≡ false

span-append :
    (p : ℕ → Bool) (w s : Text) → All (λ x. p x ≡ true) w → Stops p s → span p (w ++ s) ≡ (w, s)
unfolding span
span-append p [] [] h k = refl
span-append p [] (x ∷ s) h k = ground (arith, k)
span-append p (x ∷ w) s h k = ground (arith, h.0, span-append p w s h.1 k)

pub match_here-literal :
    (l s : Text) (ps : List Piece) → match_here (literal l ∷ ps) (l ++ s) ≡ match_here ps s
unfolding match_here
match_here-literal l s ps = ground (arith, starts_with-append l s, drop-append l s)

-- A word: characters of a class, at least one.
abbrev pub Word : (ℕ → Bool) → Text → Type 0
Word p w = (is_empty w ≡ false) × All (λ x. p x ≡ true) w

pub match_here-run :
    (p : ℕ → Bool) (w s : Text) (ps : List Piece) (groups : List Text)
    → Word p w
    → Stops p s
    → match_here ps s ≡ some groups
    → match_here (run p ∷ ps) (w ++ s) ≡ some (w ∷ groups)
unfolding match_here onto
match_here-run p w s ps groups h k e = ground (arith, h.0, span-append p w s h.1 k, e)

-- Nothing matches at a character other than the first of the pattern.
elsewhere :
    (c : ℕ) (l : Text) (x : ℕ) (s : Text) (ps : List Piece)
    → (x == c) ≡ false
    → match_here (literal (c ∷ l) ∷ ps) (x ∷ s) ≡ none
unfolding match_here starts_with
elsewhere c l x s ps n = ground (arith, n)

without :
    (c x : ℕ) (t : Text) → has_char c (x ∷ t) ≡ false → ((x == c) ≡ false) × (has_char c t ≡ false)
unfolding has_char
without c x t h = (ground (arith, h), ground (arith, h))

-- A pattern is found behind any text in which its first character is absent.
pub search-skip :
    (c : ℕ) (l t s : Text) (ps : List Piece)
    → has_char c t ≡ false
    → search (literal (c ∷ l) ∷ ps) (t ++ s) ≡ search (literal (c ∷ l) ∷ ps) s
unfolding search
search-skip c l [] s ps h = refl
search-skip c l (x ∷ t) s ps h =
    let (n, rest) = without c x t h in
    ground (arith, search-skip c l t s ps rest, elsewhere c l x (t ++ s) ps n)

pub search-here :
    (s : Text) (ps : List Piece) (groups : List Text)
    → match_here ps s ≡ some groups
    → search ps s ≡ some groups
unfolding search
search-here [] ps groups e = e
search-here (x ∷ s) ps groups e = ground (arith, e)

-- A literal of several words does not begin in a word that other words follow.
starts_with-apart :
    (u v w s : Text)
    → has_char b' ' u ≡ false
    → has_char b' ' w ≡ false
    → starts_with s v ≡ false
    → starts_with (w ++ (b' ' ∷ s)) (u ++ (b' ' ∷ v)) ≡ false
unfolding starts_with has_char
starts_with-apart [] v [] s h k n = ground (arith, n)
starts_with-apart [] v (x ∷ w) s h k n = ground (arith, k)
starts_with-apart (y ∷ u) v [] s h k n = ground (arith, h)
starts_with-apart (y ∷ u) v (x ∷ w) s h k n =
    ground (arith, h, k, starts_with-apart u v w s (ground (arith, h)) (ground (arith, k)) n)

-- So a pattern that begins with such a literal is not found in that word.
pub search-skip_word :
    (u v w s : Text) (ps : List Piece)
    → has_char b' ' u ≡ false
    → has_char b' ' w ≡ false
    → starts_with s v ≡ false
    → search (literal (u ++ (b' ' ∷ v)) ∷ ps) (w ++ (b' ' ∷ s))
      ≡ search (literal (u ++ (b' ' ∷ v)) ∷ ps) (b' ' ∷ s)
unfolding search
search-skip_word u v [] s ps h k n = refl
search-skip_word u v (x ∷ w) s ps h k n =
    ground (arith, search-skip_word u v w s ps h (without b' ' x w k).1 n, fails)
  where
    fails : match_here (literal (u ++ (b' ' ∷ v)) ∷ ps) (x ∷ (w ++ (b' ' ∷ s))) ≡ none
    fails = unfold match_here in ground (arith, starts_with-apart u v (x ∷ w) s h k n)

-- Nor is it found in a text without spaces.
starts_with-spaceless :
    (u v w : Text) → has_char b' ' w ≡ false → starts_with w (u ++ (b' ' ∷ v)) ≡ false
unfolding starts_with has_char
starts_with-spaceless [] v [] h = refl
starts_with-spaceless [] v (x ∷ w) h = ground (arith, h)
starts_with-spaceless (y ∷ u) v [] h = refl
starts_with-spaceless (y ∷ u) v (x ∷ w) h =
    ground (arith, starts_with-spaceless u v w (ground (arith, h)))

pub search-spaceless :
    (u v w : Text) (ps : List Piece)
    → has_char b' ' w ≡ false
    → search (literal (u ++ (b' ' ∷ v)) ∷ ps) w ≡ none
unfolding search match_here
search-spaceless u v [] ps h = ground (arith, starts_with-spaceless u v [] h)
search-spaceless u v (x ∷ w) ps h =
    ground
      (arith, starts_with-spaceless u v (x ∷ w) h, search-spaceless u v w ps (without b' ' x w h).1)
