-- ===== src/Util/Query.antt =====
-- topic_to_query of scgrep/util.py.
use mathlib.Core.List.{append-nil, append_assoc}
use scgrep.Prelude.{
  ℕ, ◌≡◌, ◌∙◌, refl, ap, inl, inr, Bool, false, [], ◌∷◌, ◌++◌, arith, Bool-cases, ◌==◌,
}
use scgrep.Text.{
  Text, codes, text_eq, ends_with, drop_end, strip, rstrip_by, rstrip_char, lstrip_by, is_space,
}
use scgrep.Text.Laws.{eq_of_text_eq}
use scgrep.Text.Affix.{
  EndsClean, EndsClean-append, rstrip_by-EndsClean, rstrip_by_id, rstrip_by_prefix, ends_with_rest,
  ends_with-append, drop_end-append,
}
use scgrep.Util.{strip_wildcard, topic_to_query}

abbrev pub is_slash : ℕ → Bool
is_slash x = x == b'/'

-- Cutting the wildcard off leaves a prefix.
strip_wildcard_prefix : (s : Text) → (t : Text) × (s ≡ strip_wildcard s ++ t)
unfolding strip_wildcard
strip_wildcard_prefix s = elim (Bool-cases (ends_with s (codes "/#"))) [
  | inl e ↦
      let (u, q) = ends_with_rest s (codes "/#") e in
      (codes "/#", ground (arith, e, q, drop_end-append u (codes "/#"), ap (drop_end 2) q))
  | inr e ↦ ([], ground (arith, e, append-nil s))
]

-- A text without white space at its ends is what strip returns.
strip_id :
    (x : ℕ) (s : Text) → is_space x ≡ false → EndsClean is_space (x ∷ s) → strip (x ∷ s) ≡ x ∷ s
unfolding strip
strip_id x s h k =
    let e : lstrip_by is_space (x ∷ s) ≡ x ∷ s = unfold lstrip_by in rw h in
    rw e (rstrip_by_id is_space (x ∷ s) k)

-- The query never ends in a slash, and it is the trimmed topic less something at its end.
pub topic_to_query_lem :
    (topic : Text)
    → EndsClean is_slash (topic_to_query topic)
      × ((t : Text) × (strip topic ≡ topic_to_query topic ++ t))
unfolding topic_to_query
topic_to_query_lem topic = elim (Bool-cases (text_eq (strip topic) (codes "#"))) [
  | inl e ↦ rw e (tt, (codes "#", eq_of_text_eq (strip topic) (codes "#") e))
  | inr e ↦
      let query = strip_wildcard (strip topic) in
      let (t, p) = strip_wildcard_prefix (strip topic) in
      let (u, q) = rstrip_by_prefix is_slash query in
      rw e (
        rstrip_by-EndsClean is_slash query,
        (u ++ t, p ∙ ap (λ (v : Text). v ++ t) q ∙ append_assoc (rstrip_by is_slash query) u t),
      )
]

text_eq-append_nil : (s : Text) (y : ℕ) (t : Text) → text_eq (s ++ (y ∷ t)) [] ≡ false
unfolding text_eq
text_eq-append_nil [] y t = refl
text_eq-append_nil (x ∷ s) y t = refl

-- The query of a topic that is known once it is trimmed.
topic_to_query_trimmed :
    (topic : Text)
    → strip topic ≡ topic
    → text_eq topic (codes "#") ≡ false
    → topic_to_query topic ≡ rstrip_char b'/' (strip_wildcard topic)
unfolding topic_to_query
topic_to_query_trimmed topic h k = ground (arith, h, k)

strip_wildcard-append : (s : Text) → strip_wildcard (s ++ codes "/#") ≡ s
unfolding strip_wildcard
strip_wildcard-append s =
    ground (arith, ends_with-append s (codes "/#"), drop_end-append s (codes "/#"))

strip_wildcard_id : (s : Text) → ends_with s (codes "/#") ≡ false → strip_wildcard s ≡ s
unfolding strip_wildcard
strip_wildcard_id s h = ground (arith, h)

not_hash : (x : ℕ) (s : Text) → text_eq ((x ∷ s) ++ codes "/#") (codes "#") ≡ false
unfolding text_eq
not_hash x s = ground (arith, text_eq-append_nil s b'/' (codes "#"))

hash-EndsClean : EndsClean is_space (codes "/#")
unfolding is_space
hash-EndsClean = refl

-- A topic without white space at its ends that is not `#` and does not end in a slash or in `/#`
-- is sent as it is, and so is the topic filter that has `/#` behind it.
pub topic_to_query-wildcard :
    (x : ℕ) (s : Text)
    → is_space x ≡ false
    → EndsClean is_space (x ∷ s)
    → EndsClean is_slash (x ∷ s)
    → ends_with (x ∷ s) (codes "/#") ≡ false
    → text_eq (x ∷ s) (codes "#") ≡ false
    → (topic_to_query ((x ∷ s) ++ codes "/#") ≡ x ∷ s) × (topic_to_query (x ∷ s) ≡ x ∷ s)
topic_to_query-wildcard x s h k l m n = (
  topic_to_query_trimmed ((x ∷ s) ++ codes "/#")
        (strip_id x (s ++ codes "/#") h
          (EndsClean-append is_space (x ∷ s) b'/' (codes "#") hash-EndsClean))
        (not_hash x s)
      ∙ ap (rstrip_char b'/') (strip_wildcard-append (x ∷ s))
      ∙ rstrip_by_id is_slash (x ∷ s) l,
  topic_to_query_trimmed (x ∷ s) (strip_id x s h k) n
      ∙ ap (rstrip_char b'/') (strip_wildcard_id (x ∷ s) m)
      ∙ rstrip_by_id is_slash (x ∷ s) l,
)
