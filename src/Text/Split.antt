-- ===== src/Text/Split.antt =====
-- split and join.
use scgrep.Prelude.{
  ℕ, ◌≡◌, refl, ap, false, List, [], ◌∷◌, ◌++◌, arith, Bool-cases, inl, inr, ◌==◌, ==_iff, ◌∙◌,
}
use scgrep.Text.{Text, split_on, push_char, join, has_char}

join-empty : (c : ℕ) → join c ([] ∷ []) ≡ []
unfolding join
join-empty c = refl

join-push_char : (c x : ℕ) (parts : List Text) → join c (push_char x parts) ≡ x ∷ join c parts
unfolding join push_char
join-push_char c x [] = refl
join-push_char c x (p ∷ []) = refl
join-push_char c x (p ∷ q ∷ parts) = refl

pub split_on-cons : (c : ℕ) (s : Text) → (p : Text) × (ps : List Text) × (split_on c s ≡ p ∷ ps)
unfolding split_on push_char
split_on-cons c [] = ([], [], refl)
split_on-cons c (x ∷ s) = elim (Bool-cases (x == c)) [
  | inl e ↦ ([], split_on c s, rw e)
  | inr e ↦ let (p, ps, q) = split_on-cons c s in (x ∷ p, ps, rw (e, q))
]

-- A separator in front opens a part of its own.
join-sep : (c : ℕ) (s : Text) → join c ([] ∷ split_on c s) ≡ c ∷ join c (split_on c s)
unfolding join
join-sep c s = let (p, ps, q) = split_on-cons c s in rw q

-- Joining what was split gives the text back.
pub join-split_on : (c : ℕ) (s : Text) → join c (split_on c s) ≡ s
unfolding split_on
join-split_on c [] = join-empty c
join-split_on c (x ∷ s) = elim (Bool-cases (x == c)) [
  | inl e ↦ rw e (join-sep c s ∙ cc (join-split_on c s, (==_iff x c).0 e))
  | inr e ↦ rw e (join-push_char c x (split_on c s) ∙ ap (◌∷◌ x) (join-split_on c s))
]

-- A text without the separator in front of a separator is the first part.
pub split_on-append :
    (c : ℕ) (s t : Text) → has_char c s ≡ false → split_on c (s ++ (c ∷ t)) ≡ s ∷ split_on c t
unfolding split_on has_char push_char
split_on-append c [] t h = ground arith
split_on-append c (x ∷ s) t h = ground (arith, split_on-append c s t)
