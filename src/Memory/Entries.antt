-- ===== src/Memory/Entries.antt =====
-- Sorted sets as one list of entries in which a key and a member stand together at most once.
use scgrep.Prelude.{
  ℕ, ◌+◌, ℤ, ◌<ℤ◌, leb_ℤ, ◌≡◌, refl, inl, inr, Bool, true, false, ◌&&◌, ◌||◌, Option, none, some,
  List, [], ◌∷◌, any, arith, Bool-cases, if◌then◌else◌,
}
use scgrep.Text.{Text, text_eq}
use scgrep.Text.Laws.{text_eq_iff}
use scgrep.Redis.Window.{in_window, hit, prune}

pub record Entry : Type 0 where
  pub key : Text
  pub member : Text
  pub score : ℤ

abbrev at : Text → Text → Entry → Bool
at k m e = text_eq e.key k && text_eq e.member m

unfoldable pub find : Text → Text → List Entry → Option ℤ
find k m [] = none
find k m (e ∷ es) = if at k m e then some e.score else find k m es

unfoldable pub has_key : Text → List Entry → Bool
has_key k [] = false
has_key k (e ∷ es) = text_eq e.key k || has_key k es

unfoldable pub count : Text → ℤ → ℤ → List Entry → ℕ
count k a b [] = 0
count k a b (e ∷ es) = (if text_eq e.key k && in_window a b e.score then 1 else 0) + count k a b es

-- The entries that pass no test.
pub reject : (Entry → Bool) → List Entry → List Entry
reject p [] = []
reject p (e ∷ es) = let rest = reject p es in if p e then rest else e ∷ rest

abbrev pub Distinct : List Entry → Type 0
Distinct [] = Unit {0}
Distinct (e ∷ es) = (find e.key e.member es ≡ none) × Distinct es

abbrev pub below : Text → ℤ → Entry → Bool
below k c e = text_eq e.key k && leb_ℤ e.score c

abbrev pub of_keys : List Text → Entry → Bool
of_keys ks e = any (λ k. text_eq k e.key) ks

find-none-reject :
    (p : Entry → Bool) (k m : Text) (es : List Entry)
    → find k m es ≡ none
    → find k m (reject p es) ≡ none
unfolding find reject
find-none-reject p k m [] h = refl
find-none-reject p k m (e ∷ es) h = ground (arith, find-none-reject p k m es)

pub reject-Distinct : (p : Entry → Bool) (es : List Entry) → Distinct es → Distinct (reject p es)
unfolding reject
reject-Distinct p [] d = tt
reject-Distinct p (e ∷ es) d = elim (Bool-cases (p e)) [
  | inl c ↦ rw c (reject-Distinct p es d.1)
  | inr c ↦ rw c (find-none-reject p e.key e.member es d.0, reject-Distinct p es d.1)
]

pub find-reject-at :
    (k m j n : Text) (es : List Entry)
    → find j n (reject (at k m) es) ≡ (if text_eq k j && text_eq m n then none else find j n es)
unfolding find reject
find-reject-at k m j n [] = ground arith
find-reject-at k m j n (e ∷ es) = ground (
  arith,
  find-reject-at k m j n es,
  text_eq_iff e.key k,
  text_eq_iff e.member m,
  text_eq_iff e.key j,
  text_eq_iff e.member n,
  text_eq_iff k j,
  text_eq_iff m n,
)

pub count-reject-at :
    (k m : Text) (a b : ℤ) (es : List Entry)
    → Distinct es
    → count k a b (reject (at k m) es) + hit a b (find k m es) ≡ count k a b es
unfolding find reject count
count-reject-at k m a b [] d = omega arith
count-reject-at k m a b (e ∷ es) d =
    ground (arith, count-reject-at k m a b es d.1, text_eq_iff e.key k, text_eq_iff e.member m)

pub count-reject-at_ne :
    (k m j : Text) (a b : ℤ) (es : List Entry)
    → text_eq k j ≡ false
    → count j a b (reject (at k m) es) ≡ count j a b es
unfolding reject count
count-reject-at_ne k m j a b [] h = refl
count-reject-at_ne k m j a b (e ∷ es) h = ground (
  arith,
  count-reject-at_ne k m j a b es h,
  text_eq_iff e.key k,
  text_eq_iff e.key j,
  text_eq_iff k j,
)

pub has_key-reject :
    (p : Entry → Bool) (k : Text) (es : List Entry)
    → has_key k (reject p es) ≡ true
    → has_key k es ≡ true
unfolding has_key reject
has_key-reject p k [] h = h
has_key-reject p k (e ∷ es) h = ground (arith, has_key-reject p k es)

pub has_key-reject-at :
    (k m j : Text) (es : List Entry)
    → (text_eq k j || has_key j (reject (at k m) es)) ≡ (text_eq k j || has_key j es)
unfolding has_key reject
has_key-reject-at k m j [] = refl
has_key-reject-at k m j (e ∷ es) =
    ground
      (arith, has_key-reject-at k m j es, text_eq_iff e.key k, text_eq_iff e.key j, text_eq_iff k j)

pub find-reject_below :
    (k : Text) (c : ℤ) (j n : Text) (es : List Entry)
    → Distinct es
    → find j n (reject (below k c) es)
      ≡ (if text_eq k j then prune c (find j n es) else find j n es)
unfolding find reject
find-reject_below k c j n [] d = ground arith
find-reject_below k c j n (e ∷ es) d = ground (
  arith,
  find-reject_below k c j n es d.1,
  text_eq_iff e.key k,
  text_eq_iff e.key j,
  text_eq_iff e.member n,
  text_eq_iff k j,
)

-- A score up to the cutoff lies in no window above it.
pub below_window : (a b c s : ℤ) → c <ℤ a → leb_ℤ s c ≡ true → in_window a b s ≡ false
below_window a b c s h k = ground arith

pub count-reject_below :
    (k : Text) (c : ℤ) (j : Text) (a b : ℤ) (es : List Entry)
    → c <ℤ a
    → count j a b (reject (below k c) es) ≡ count j a b es
unfolding reject count
count-reject_below k c j a b [] h = refl
count-reject_below k c j a b (e ∷ es) h = elim (Bool-cases (leb_ℤ e.score c)) [
  | inl q ↦
      let r = below_window a b c e.score h q in ground (arith, count-reject_below k c j a b es h)
  | inr q ↦ ground (arith, count-reject_below k c j a b es h)
]

pub count-reject_below_ne :
    (k : Text) (c : ℤ) (j : Text) (a b : ℤ) (es : List Entry)
    → text_eq k j ≡ false
    → count j a b (reject (below k c) es) ≡ count j a b es
unfolding reject count
count-reject_below_ne k c j a b [] h = refl
count-reject_below_ne k c j a b (e ∷ es) h = ground (
  arith,
  count-reject_below_ne k c j a b es h,
  text_eq_iff e.key k,
  text_eq_iff e.key j,
  text_eq_iff k j,
)

pub find-reject_keys :
    (ks : List Text) (j n : Text) (es : List Entry)
    → find j n (reject (of_keys ks) es) ≡ (if any (λ k. text_eq k j) ks then none else find j n es)
unfolding find reject
find-reject_keys ks j n [] = ground arith
find-reject_keys ks j n (e ∷ es) = ground (arith, find-reject_keys ks j n es, text_eq_iff e.key j)

pub count-reject_keys :
    (ks : List Text) (j : Text) (a b : ℤ) (es : List Entry)
    → count j a b (reject (of_keys ks) es)
      ≡ (if any (λ k. text_eq k j) ks then 0 else count j a b es)
unfolding count reject
count-reject_keys ks j a b [] = ground arith
count-reject_keys ks j a b (e ∷ es) =
    ground (arith, count-reject_keys ks j a b es, text_eq_iff e.key j)
