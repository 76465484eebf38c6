-- ===== src/Commands/Latest.antt =====
-- Counting ids by the time that they were given last.
use scgrep.Prelude.{
  ℕ, ◌+◌, ℤ, ◌≡◌, refl, Bool, false, Option, none, some, List, [], ◌∷◌, any, arith, Bool-cases, inl,
  inr, if◌then◌else◌,
}
use scgrep.Text.{Text, text_eq}
use scgrep.Text.Laws.{text_eq_iff, text_eq_refl, text_eq_comm}
use scgrep.Redis.{hit}
use scgrep.Store.Baseline.{known}
use scgrep.Commands.{Entry}

abbrev pub named : Text → List Entry → Bool
named i es = any (λ e. text_eq i e.0) es

-- How many different ids have their last time in [a, b).
unfoldable pub latest_tally : ℤ → ℤ → List Entry → ℕ
latest_tally a b [] = 0
latest_tally a b ((i, t) ∷ es) = (if named i es then 0 else hit a b (some t)) + latest_tally a b es

-- How many of the ids, less those that were seen, have a score in [a, b).
unfoldable pub stale : ℤ → ℤ → (Text → Option ℤ) → List Text → List Entry → ℕ
stale a b scores seen [] = 0
stale a b scores seen ((i, t) ∷ es) =
    (if known seen i then 0 else hit a b (scores i)) + stale a b scores (i ∷ seen) es

abbrev pub moved : Option Entry → (Text → Option ℤ) → Text → Option ℤ
moved none scores m = scores m
moved (some (i, t)) scores m = if text_eq i m then some t else scores m

-- Only the ids that were not seen matter, and in what order they were seen does not.
pub stale_same :
    (a b : ℤ) (f g : Text → Option ℤ) (xs ys : List Text) (es : List Entry)
    → ((i : Text) → known xs i ≡ known ys i)
    → ((i : Text) → known xs i ≡ false → f i ≡ g i)
    → stale a b f xs es ≡ stale a b g ys es
unfolding stale
stale_same a b f g xs ys [] h k = refl
stale_same a b f g xs ys ((i, t) ∷ es) h k = ground (
  arith,
  h i,
  k i,
  stale_same a b f g (i ∷ xs) (i ∷ ys) es (λ j. ground (arith, h j))
      (λ j n. k j (ground (arith, n))),
)

stale-moved_seen :
    (a b : ℤ) (f g : Text → Option ℤ) (i : Text) (t : ℤ) (seen : List Text) (es : List Entry)
    → known seen i ≡ false
    → ((m : Text) → g m ≡ moved (some (i, t)) f m)
    → stale a b g seen es ≡ stale a b f (i ∷ seen) es + (if named i es then hit a b (some t) else 0)
unfolding stale
stale-moved_seen a b f g i t seen [] n h = refl
stale-moved_seen a b f g i t seen ((j, u) ∷ es) n h = elim (Bool-cases (text_eq i j)) [
  | inl y ↦ ground (
    arith,
    y,
    n,
    h j,
    text_eq_iff i j,
    text_eq_refl i,
    stale_same a b g f (j ∷ seen) (j ∷ (i ∷ seen)) es (λ m. ground (arith, y, text_eq_iff i j))
        (λ m x. ground (arith, x, y, h m, text_eq_iff i j, text_eq_comm i m)),
  )
  | inr x ↦ ground (
    arith,
    x,
    n,
    h j,
    text_eq_comm i j,
    stale-moved_seen a b f g i t (j ∷ seen) es (ground (arith, n, x)) h,
    stale_same a b f f (i ∷ (j ∷ seen)) (j ∷ (i ∷ seen)) es (λ m. ground arith) (λ m z. refl),
  )
]

pub stale-moved :
    (a b : ℤ) (f g : Text → Option ℤ) (i : Text) (t : ℤ) (es : List Entry)
    → ((m : Text) → g m ≡ moved (some (i, t)) f m)
    → stale a b g [] es ≡ stale a b f (i ∷ []) es + (if named i es then hit a b (some t) else 0)
stale-moved a b f g i t es h = stale-moved_seen a b f g i t [] es refl h

pub stale-none :
    (a b : ℤ) (f : Text → Option ℤ) (seen : List Text) (es : List Entry)
    → ((i : Text) → f i ≡ none)
    → stale a b f seen es ≡ 0
unfolding stale
stale-none a b f seen [] h = refl
stale-none a b f seen ((i, t) ∷ es) h = ground (arith, h i, stale-none a b f (i ∷ seen) es h)
