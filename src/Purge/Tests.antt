-- ===== src/Purge/Tests.antt =====
-- Tests of the purge.
use scgrep.Prelude.{ℕ, ◌+◌, ◌≡◌, Bool, ◌&&◌, leb, none, some, List, [], ◌∷◌, length}
use scgrep.Text.{Text, codes}
use scgrep.Purge.{purge}
use scgrep.Purge.Twice.{Splits, dated, purge_again}

-- An old entry of two lines, and a new one.
abbrev log_lines : List Text
log_lines =
    codes "2026-01-01 10:00:00 ERROR x"
    ∷ codes "Traceback"
    ∷ codes "2026-01-02 10:00:00 INFO y"
    ∷ []

abbrev ascii_digit : ℕ → Bool
ascii_digit x = leb b'0' x && leb x b'9'

abbrev cutoff : Text
cutoff = codes "2026-01-02 00:00:00"

purge_again_example :
    (kept : List Text) × (removed : ℕ) × (purge ascii_digit cutoff (some log_lines)
      ≡ (some kept, length kept, removed))
    × Splits cutoff (dated ascii_digit none log_lines) kept removed
    × (length kept + removed ≡ length log_lines)
    × (purge ascii_digit cutoff (some kept) ≡ (some kept, length kept, 0))
purge_again_example = purge_again ascii_digit cutoff log_lines
