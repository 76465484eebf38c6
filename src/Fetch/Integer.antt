-- ===== src/Fetch/Integer.antt =====
-- int(x), of a text and of a JSON value.
use scgrep.Prelude.{
  ℕ, zero, suc, ◌+◌, ◌-◌, ◌*◌, ℤ, pos, negsuc, Bool, false, ◌&&◌, ◌||◌, Option, none, some, [], ◌∷◌,
  leb, ◌==◌, if◌then◌else◌,
}
use scgrep.Text.{Text, strip}
use scgrep.Json.{Json, null, infinity, not_a_number, bool, int, float, str, arr, obj}
use scgrep.Result.{Result, ok, err}
use scgrep.Util.{Fault, value_error, overflow_error}

is_digit : ℕ → Bool
is_digit c = leb b'0' c && leb c b'9'

-- Decimal digits, with single underscores between them.
digits_value : ℕ → Bool → Text → Option ℕ
unfolding is_digit
digits_value acc after_digit [] = if after_digit then some acc else none
digits_value acc after_digit (c ∷ s) =
    let rest = digits_value (if is_digit c then acc * 10 + (c - 48) else acc) (is_digit c) s in
    if is_digit c || (c == b'_' && after_digit) then rest else none

negate : ℕ → ℤ
negate zero = pos zero
negate (suc n) = negsuc n

signed : Text → Option ℤ
unfolding digits_value negate
signed [] = none
signed (c ∷ s) =
    let digits = digits_value 0 false (if c == b'-' || c == b'+' then s else c ∷ s) in
    elim digits [ none ↦ none | some n ↦ some (if c == b'-' then negate n else pos n) ]

-- int(s); `none` is the ValueError. Only ASCII digits are read.
unfoldable pub parse_int : Text → Option ℤ
unfolding signed
parse_int s = signed (strip s)

-- int(v). ValueError and TypeError are caught alike, and stand as `value_error`; an infinite float
-- raises OverflowError.
unfoldable pub to_int : Json → Result Fault ℤ
to_int null = err value_error
to_int infinity = err overflow_error
to_int not_a_number = err value_error
to_int (bool b) = ok (if b then pos 1 else pos 0)
to_int (int n) = ok n
to_int (float truncated is_zero) = ok truncated
to_int (str s) = elim (parse_int s) [ none ↦ err value_error | some n ↦ ok n ]
to_int (arr vs) = err value_error
to_int (obj fields) = err value_error
