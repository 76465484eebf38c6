-- ===== src/Text/Laws.antt =====
-- Equality of texts, decided; prefixes of keys.
use scgrep.Prelude.{
  ◌≡◌, ◌≢◌, refl, ◌↔◌, ◌⊎◌, inl, inr, Bool, true, false, ◌&&◌, [], ◌∷◌, ◌++◌, arith, Bool-cases,
  ==_iff, ◌==◌,
}
use scgrep.Text.{Text, text_eq, starts_with}

pub &&-true : (a b : Bool) → (a && b) ≡ true → (a ≡ true) × (b ≡ true)
&&-true true true h = (refl, refl)
&&-true true false h = cc
&&-true false b h = cc

pub text_eq_refl : (s : Text) → text_eq s s ≡ true
unfolding text_eq
text_eq_refl [] = refl
text_eq_refl (x ∷ s) = ground (arith, text_eq_refl s)

pub eq_of_text_eq : (s t : Text) → text_eq s t ≡ true → s ≡ t
unfolding text_eq
eq_of_text_eq [] [] h = refl
eq_of_text_eq [] (y ∷ t) h = cc
eq_of_text_eq (x ∷ s) [] h = cc
eq_of_text_eq (x ∷ s) (y ∷ t) h =
    let (a, b) = &&-true (x == y) (text_eq s t) h in cc ((==_iff x y).0 a, eq_of_text_eq s t b)

pub text_eq_iff : (s t : Text) → (text_eq s t ≡ true) ↔ (s ≡ t)
text_eq_iff s t = (eq_of_text_eq s t, λ e. rw e (text_eq_refl t))

pub text_eq_cases : (s t : Text) → (s ≡ t) ⊎ ((text_eq s t ≡ false) × (s ≢ t))
text_eq_cases s t = elim (Bool-cases (text_eq s t)) [
  | inl e ↦ inl (eq_of_text_eq s t e)
  | inr e ↦ inr (e, λ p. cc ((text_eq_iff s t).1 p))
]

pub text_eq_comm : (s t : Text) → text_eq s t ≡ text_eq t s
text_eq_comm s t = ground (arith, text_eq_iff s t, text_eq_iff t s)

-- Keys with one prefix are equal when what follows it is.
pub text_eq-append_left : (p s t : Text) → text_eq (p ++ s) (p ++ t) ≡ text_eq s t
unfolding text_eq
text_eq-append_left [] s t = refl
text_eq-append_left (x ∷ p) s t = ground (arith, text_eq-append_left p s t)

pub append_cancel : (p : Text) {s t : Text} → p ++ s ≡ p ++ t → s ≡ t
append_cancel [] h = h
append_cancel (x ∷ p) h = append_cancel p (cc)

pub starts_with-append : (p s : Text) → starts_with (p ++ s) p ≡ true
unfolding starts_with
starts_with-append [] s = refl
starts_with-append (x ∷ p) s = ground (arith, starts_with-append p s)

-- A text with a prefix is that prefix and a rest.
pub starts_with_rest : (s p : Text) → starts_with s p ≡ true → (t : Text) × (s ≡ p ++ t)
unfolding starts_with
starts_with_rest s [] h = (s, refl)
starts_with_rest [] (x ∷ p) h = absurd (cc)
starts_with_rest (y ∷ s) (x ∷ p) h =
    let (a, b) = &&-true (y == x) (starts_with s p) h in
    let (t, e) = starts_with_rest s p b in (t, cc ((==_iff y x).0 a, e))
