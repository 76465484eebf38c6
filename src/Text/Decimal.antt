-- ===== src/Text/Decimal.antt =====
-- The decimal digits of a number.
use scgrep.Prelude.{
  ℕ, zero, suc, ◌+◌, ◌-◌, ◌*◌, ◌/◌, ◌%◌, ◌<◌, ◌≤◌, ◌≡◌, ◌∙◌, refl, ap, sym, false, [], ◌∷◌, arith,
  All, is_empty, ltb, ltb→lt, inl, inr, Bool-cases,
}
use scgrep.Text.{Text, has_char, digits_onto, print_nat}

-- What digits stand for behind the number that was read so far.
unfoldable pub value_from : ℕ → Text → ℕ
value_from n [] = n
value_from n (x ∷ s) = value_from (n * 10 + (x - 48)) s

smaller : (n fuel : ℕ) → n < suc fuel → ltb n 10 ≡ false → n / 10 < fuel
smaller n fuel h k = grind (arith, h, not_below)
  where
    not_below : 10 ≤ n
    not_below = ground (arith, k)

div_mod : (n : ℕ) → n / 10 * 10 + (48 + n % 10 - 48) ≡ n
div_mod n = grind arith

value-digits_onto :
    (fuel n : ℕ) (out : Text) → n < fuel → value_from 0 (digits_onto fuel n out) ≡ value_from n out
unfolding digits_onto value_from
value-digits_onto zero n out h = elim h [ ]
value-digits_onto (suc fuel) n out h = elim (Bool-cases (ltb n 10)) [
  | inl y ↦ ground (arith, y)
  | inr k ↦ ground (
    arith,
    k,
    value-digits_onto fuel (n / 10) ((48 + n % 10) ∷ out) (smaller n fuel h k),
    div_mod n,
    ap (λ x. value_from x out) (div_mod n),
  )
]

-- Different numbers are printed differently.
pub print_nat_inj : (a b : ℕ) → print_nat a ≡ print_nat b → a ≡ b
unfolding print_nat value_from
print_nat_inj a b h =
    sym (value-digits_onto (suc a) a [] (omega arith))
    ∙ ap (value_from 0) h
    ∙ value-digits_onto (suc b) b [] (omega arith)

last :
    (n c : ℕ) (out : Text)
    → 57 < c
    → has_char c out ≡ false
    → has_char c ((48 + n % 10) ∷ out) ≡ false
unfolding has_char
last n c out h k = ground (arith, h, k, low n)
  where
    low : (n : ℕ) → 48 + n % 10 < 58
    low n = grind arith

digits_onto-digits :
    (fuel n c : ℕ) (out : Text)
    → 57 < c
    → has_char c out ≡ false
    → has_char c (digits_onto fuel n out) ≡ false
unfolding digits_onto has_char
digits_onto-digits zero n c out h k = k
digits_onto-digits (suc fuel) n c out h k = elim (Bool-cases (ltb n 10)) [
  | inl y ↦ ground (arith, y, h, k)
  | inr m ↦
      ground
        (arith, m, digits_onto-digits fuel (n / 10) c ((48 + n % 10) ∷ out) h (last n c out h k))
]

-- What stands above the digits is in no printed number.
pub print_nat-digits : (n c : ℕ) → 57 < c → has_char c (print_nat n) ≡ false
unfolding print_nat
print_nat-digits n c h = digits_onto-digits (suc n) n c [] h (unfold has_char in refl)

-- A printed number is not empty, and its characters are digits.
abbrev pub IsDigit : ℕ → Type 0
IsDigit x = (d : ℕ) × (d < 10) × (x ≡ 48 + d)

digits_onto-IsDigit :
    (fuel n : ℕ) (out : Text) → All IsDigit out → All IsDigit (digits_onto fuel n out)
unfolding digits_onto
digits_onto-IsDigit zero n out h = h
digits_onto-IsDigit (suc fuel) n out h = elim (Bool-cases (ltb n 10)) [
  | inl y ↦ rw y ((n, ltb→lt n 10 y, refl), h)
  | inr k ↦
      rw k (digits_onto-IsDigit fuel (n / 10) ((48 + n % 10) ∷ out) ((n % 10, low n, refl), h))
]
  where
    low : (n : ℕ) → n % 10 < 10
    low n = grind arith

pub print_nat-IsDigit : (n : ℕ) → All IsDigit (print_nat n)
unfolding print_nat
print_nat-IsDigit n = digits_onto-IsDigit (suc n) n [] tt

digits_onto-nonempty :
    (fuel n : ℕ) (out : Text) → is_empty out ≡ false → is_empty (digits_onto fuel n out) ≡ false
unfolding digits_onto
digits_onto-nonempty zero n out h = h
digits_onto-nonempty (suc fuel) n out h =
    ground (arith, digits_onto-nonempty fuel (n / 10) ((48 + n % 10) ∷ out) refl)

pub print_nat-nonempty : (n : ℕ) → is_empty (print_nat n) ≡ false
unfolding print_nat digits_onto
print_nat-nonempty n = ground (arith, digits_onto-nonempty n (n / 10) ((48 + n % 10) ∷ []) refl)

pub value_from-print_nat : (n : ℕ) → value_from 0 (print_nat n) ≡ n
unfolding print_nat value_from
value_from-print_nat n = value-digits_onto (suc n) n [] (omega arith)
