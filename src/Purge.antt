-- ===== src/Purge.antt =====
-- scripts/purge_logs.py: the lines of a log file that are kept. The text of the cutoff, which the script
-- has from the clock, is an argument, and so is the test for a decimal digit of Unicode, which is the
-- `\d` of the pattern.
mod Tests
pub mod Twice
use scgrep.Prelude.{
  ℕ, ◌+◌, Bool, true, false, ◌&&◌, ◌||◌, Option, none, some, List, [], ◌∷◌, leb, ltb, ◌==◌,
  if◌then◌else◌, length, take,
}
use scgrep.Text.{Text, codes}

-- One character of a pattern in which `d` stands for a digit.
abbrev pub fits : (ℕ → Bool) → ℕ → ℕ → Bool
fits is_decimal p x = if p == b'd' then is_decimal x else x == p

pub fits_all : (ℕ → Bool) → Text → Text → Bool
fits_all is_decimal [] s = true
fits_all is_decimal (p ∷ ps) [] = false
fits_all is_decimal (p ∷ ps) (x ∷ s) = fits is_decimal p x && fits_all is_decimal ps s

-- _TIMESTAMP.match, and its group
unfoldable pub stamp : (ℕ → Bool) → Text → Option Text
unfolding fits_all
stamp is_decimal line =
    if fits_all is_decimal (codes "dddd-dd-dd dd:dd:dd") line then some (take 19 line) else none

-- `a <= b` on texts
unfoldable pub text_le : Text → Text → Bool
text_le [] b = true
text_le (x ∷ a) [] = false
text_le (x ∷ a) (y ∷ b) = ltb x y || x == y && text_le a b

-- `keep` after the line
unfoldable pub keeps : (ℕ → Bool) → Text → Bool → Text → Bool
keeps is_decimal cutoff keep line = elim (stamp is_decimal line) [
  | none ↦ keep
  | some t ↦ text_le cutoff t
]

-- The loop of purge: the lines that are written, and how many are not.
pub purge_lines : (ℕ → Bool) → Text → Bool → List Text → List Text × ℕ
purge_lines is_decimal cutoff keep [] = ([], 0)
purge_lines is_decimal cutoff keep (line ∷ lines) =
    let (kept, removed) = purge_lines is_decimal cutoff (keeps is_decimal cutoff keep line) lines in
    if keeps is_decimal cutoff keep line then (line ∷ kept, removed) else (kept, removed + 1)

-- purge: the file afterwards, and the counts that are returned. A missing file is left alone.
pub purge : (ℕ → Bool) → Text → Option (List Text) → Option (List Text) × ℕ × ℕ
purge is_decimal cutoff none = (none, 0, 0)
purge is_decimal cutoff (some lines) =
    let (kept, removed) = purge_lines is_decimal cutoff true lines in
    (some kept, length kept, removed)
