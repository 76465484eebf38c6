-- ===== src/Text.antt =====
-- Python's `str` as its list of code points, with the methods that the program calls:
-- startswith, endswith, strip, rstrip, split, join, slices and decimal printing.
pub mod Laws
pub mod Affix
pub mod Split
pub mod Decimal
use Prim.Native.Char.{code}
use scgrep.Prelude.{
  ℕ, zero, suc, ◌-◌, ◌/◌, ◌%◌, ◌+◌, ◌<◌, Bool, true, false, not, ◌&&◌, ◌||◌, List, [], ◌∷◌, ◌++◌,
  String, ltb, leb, ◌==◌, if◌then◌else◌, length, take, is_empty,
}

abbrev pub Text : Type 0
Text = List ℕ

-- The code points of a literal.
abbrev pub codes : String → Text
codes String.[] = []
codes (String.◌∷◌ c s) = code c ∷ codes s

-- s == t
unfoldable pub text_eq : Text → Text → Bool
text_eq [] [] = true
text_eq [] (y ∷ t) = false
text_eq (x ∷ s) [] = false
text_eq (x ∷ s) (y ∷ t) = x == y && text_eq s t

-- s.startswith(prefix)
unfoldable pub starts_with : Text → Text → Bool
starts_with s [] = true
starts_with [] (p ∷ prefix) = false
starts_with (x ∷ s) (p ∷ prefix) = x == p && starts_with s prefix

-- s.endswith(suffix)
unfoldable pub ends_with : Text → Text → Bool
ends_with [] suffix = text_eq [] suffix
ends_with (x ∷ s) suffix = text_eq (x ∷ s) suffix || ends_with s suffix

-- c in s, for one character
unfoldable pub has_char : ℕ → Text → Bool
has_char c [] = false
has_char c (x ∷ s) = x == c || has_char c s

-- part in s
unfoldable pub contains : Text → Text → Bool
contains part [] = is_empty part
contains part (x ∷ s) = starts_with (x ∷ s) part || contains part s

-- s[:-n]
unfoldable pub drop_end : ℕ → Text → Text
drop_end n s = take (length s - n) s

-- One character less at the right end, while it satisfies the test.
keep_left : (ℕ → Bool) → ℕ → Text → Text
keep_left p x rest = if is_empty rest && p x then [] else x ∷ rest

-- s.rstrip(chars), with the characters as a test
unfoldable pub rstrip_by : (ℕ → Bool) → Text → Text
unfolding keep_left
rstrip_by p [] = []
rstrip_by p (x ∷ s) = keep_left p x (rstrip_by p s)

-- s.lstrip(chars)
unfoldable pub lstrip_by : (ℕ → Bool) → Text → Text
lstrip_by p [] = []
lstrip_by p (x ∷ s) = let rest = lstrip_by p s in if p x then rest else x ∷ s

-- s.rstrip("c")
abbrev pub rstrip_char : ℕ → Text → Text
rstrip_char c = rstrip_by (λ x. x == c)

-- str.isspace of one code point
unfoldable pub is_space : ℕ → Bool
is_space c =
    (leb 9 c && leb c 13)
    || (leb 28 c && leb c 32)
    || c == 133
    || c == 160
    || c == 5760
    || (leb 8192 c && leb c 8202)
    || c == 8232
    || c == 8233
    || c == 8239
    || c == 8287
    || c == 12288

-- s.strip()
unfoldable pub strip : Text → Text
strip s = rstrip_by is_space (lstrip_by is_space s)

push_char : ℕ → List Text → List Text
push_char c [] = (c ∷ []) ∷ []
push_char c (part ∷ parts) = (c ∷ part) ∷ parts

-- s.split("c")
unfoldable pub split_on : ℕ → Text → List Text
unfolding push_char
split_on c [] = [] ∷ []
split_on c (x ∷ s) = let parts = split_on c s in if x == c then [] ∷ parts else push_char x parts

-- "c".join(parts)
pub join : ℕ → List Text → Text
join c [] = []
join c (part ∷ []) = part
join c (part ∷ next ∷ parts) = part ++ (c ∷ join c (next ∷ parts))

-- The decimal digits of a number below 10 ^ fuel, in front of a text.
digits_onto : ℕ → ℕ → Text → Text
digits_onto zero n out = out
digits_onto (suc fuel) n out =
    let more = digits_onto fuel (n / 10) ((48 + n % 10) ∷ out) in
    if ltb n 10 then (48 + n) ∷ out else more

-- str(n): a number n has at most n + 1 digits, so the fuel is never used up.
pub print_nat : ℕ → Text
unfolding digits_onto
print_nat n = digits_onto (suc n) n []
