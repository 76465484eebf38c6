-- ===== src/Text/Affix.antt =====
-- rstrip, strip and slices from the end.
use scgrep.Prelude.{
  ℕ, ◌-◌, ◌≡◌, refl, ap, inl, inr, Bool, true, false, ◌||◌, [], ◌∷◌, ◌++◌, arith, Bool-cases,
  length, length-append, take,
}
use scgrep.Text.{Text, text_eq, ends_with, has_char, drop_end, keep_left, rstrip_by}
use scgrep.Text.Laws.{text_eq_refl, eq_of_text_eq}

-- The last character, if there is one, fails the test.
abbrev pub EndsClean : (ℕ → Bool) → Text → Type 0
EndsClean p [] = Unit {0}
EndsClean p (x ∷ []) = p x ≡ false
EndsClean p (x ∷ y ∷ s) = EndsClean p (y ∷ s)

keep_left-EndsClean :
    (p : ℕ → Bool) (x : ℕ) (s : Text) → EndsClean p s → EndsClean p (keep_left p x s)
unfolding keep_left
keep_left-EndsClean p x [] h = elim (Bool-cases (p x)) [ inl e ↦ rw e tt | inr e ↦ rw e e ]
keep_left-EndsClean p x (y ∷ s) h = h

pub rstrip_by-EndsClean : (p : ℕ → Bool) (s : Text) → EndsClean p (rstrip_by p s)
unfolding rstrip_by
rstrip_by-EndsClean p [] = tt
rstrip_by-EndsClean p (x ∷ s) = keep_left-EndsClean p x (rstrip_by p s) (rstrip_by-EndsClean p s)

-- A text that ends clean is left alone.
pub rstrip_by_id : (p : ℕ → Bool) (s : Text) → EndsClean p s → rstrip_by p s ≡ s
unfolding rstrip_by keep_left
rstrip_by_id p [] h = refl
rstrip_by_id p (x ∷ []) h = rw h
rstrip_by_id p (x ∷ y ∷ s) h = rw (rstrip_by_id p (y ∷ s) h)

-- What rstrip returns is a prefix of its argument, and what it cut off satisfies the test.
pub rstrip_by_prefix : (p : ℕ → Bool) (s : Text) → (t : Text) × (s ≡ rstrip_by p s ++ t)
unfolding rstrip_by keep_left
rstrip_by_prefix p [] = ([], refl)
rstrip_by_prefix p (x ∷ s) = let (t, e) = rstrip_by_prefix p s in extend (rstrip_by p s) t e
  where
    extend : (r t : Text) → s ≡ r ++ t → (u : Text) × (x ∷ s ≡ keep_left p x r ++ u)
    extend [] t e = elim (Bool-cases (p x)) [
      | inl c ↦ (x ∷ s, rw c)
      | inr c ↦ (t, rw c (ap (◌∷◌ x) e))
    ]
    extend (y ∷ r) t e = (t, ap (◌∷◌ x) e)

-- A text that ends in `suffix` is a rest and the suffix.
pub ends_with_rest : (s suffix : Text) → ends_with s suffix ≡ true → (t : Text) × (s ≡ t ++ suffix)
unfolding ends_with
ends_with_rest [] suffix h = ([], eq_of_text_eq [] suffix h)
ends_with_rest (x ∷ s) suffix h = elim (Bool-cases (text_eq (x ∷ s) suffix)) [
  | inl e ↦ ([], eq_of_text_eq (x ∷ s) suffix e)
  | inr e ↦ let (t, q) = ends_with_rest s suffix (ground arith) in (x ∷ t, ap (◌∷◌ x) q)
]

pub ends_with-append : (t suffix : Text) → ends_with (t ++ suffix) suffix ≡ true
unfolding ends_with text_eq
ends_with-append [] [] = refl
ends_with-append [] (x ∷ suffix) = ground (arith, text_eq_refl (x ∷ suffix))
ends_with-append (x ∷ t) suffix = ground (arith, ends_with-append t suffix)

take-append : (t s : Text) → take (length t) (t ++ s) ≡ t
take-append [] [] = refl
take-append [] (x ∷ s) = refl
take-append (x ∷ t) s = ap (◌∷◌ x) (take-append t s)

-- Cutting off the length of the suffix leaves what stands before it.
pub drop_end-append : (t s : Text) → drop_end (length s) (t ++ s) ≡ t
unfolding drop_end
drop_end-append t s =
    let e : length (t ++ s) - length s ≡ length t = omega (arith, length-append {0} t s) in
    rw e (take-append t s)

pub has_char-append : (c : ℕ) (s t : Text) → has_char c (s ++ t) ≡ (has_char c s || has_char c t)
unfolding has_char
has_char-append c [] t = refl
has_char-append c (x ∷ s) t = ground (arith, has_char-append c s t)

pub EndsClean-append :
    (p : ℕ → Bool) (s : Text) (x : ℕ) (t : Text) → EndsClean p (x ∷ t) → EndsClean p (s ++ (x ∷ t))
EndsClean-append p [] x t h = h
EndsClean-append p (y ∷ []) x t h = h
EndsClean-append p (y ∷ z ∷ s) x t h = EndsClean-append p (z ∷ s) x t h

-- One more character that rstrip takes off.
pub rstrip_by-snoc :
    (p : ℕ → Bool) (s : Text) (x : ℕ) → p x ≡ true → rstrip_by p (s ++ (x ∷ [])) ≡ rstrip_by p s
unfolding rstrip_by keep_left
rstrip_by-snoc p [] x h = ground (arith, h)
rstrip_by-snoc p (y ∷ s) x h = rw (rstrip_by-snoc p s x h)
