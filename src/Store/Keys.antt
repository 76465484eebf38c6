-- ===== src/Store/Keys.antt =====
-- The keyspaces of the store: which keys are one key.
use scgrep.Prelude.{
  ◌≡◌, ◌∙◌, refl, inl, inr, Bool, true, false, ◌&&◌, ◌||◌, List, [], ◌∷◌, ◌++◌, map, any, arith,
}
use scgrep.Text.{Text, text_eq, starts_with, has_char}
use scgrep.Text.Laws.{text_eq-append_left, text_eq_refl, text_eq_cases, starts_with-append}
use scgrep.Redis.{msg_prefix}
use scgrep.Store.{msg_key, topic_key, replay_key, sync_key, topic_prefix, keys_of}

pub starts_with-msg_key : (i : Text) → starts_with (msg_key i) msg_prefix ≡ true
unfolding msg_key
starts_with-msg_key i = starts_with-append msg_prefix i

pub starts_with-topic_key : (p : Text) → starts_with (topic_key p) msg_prefix ≡ false
unfolding topic_key starts_with
starts_with-topic_key p = refl

pub starts_with-replay_key : (c p : Text) → starts_with (replay_key c p) msg_prefix ≡ false
unfolding replay_key starts_with
starts_with-replay_key c p = refl

pub starts_with-sync_key : (c p : Text) → starts_with (sync_key c p) msg_prefix ≡ false
unfolding sync_key starts_with
starts_with-sync_key c p = refl

pub msg_key_eq : (i j : Text) → text_eq (msg_key i) (msg_key j) ≡ text_eq i j
unfolding msg_key
msg_key_eq i j = text_eq-append_left msg_prefix i j

pub topic_key_eq : (p q : Text) → text_eq (topic_key p) (topic_key q) ≡ text_eq p q
unfolding topic_key
topic_key_eq p q = text_eq-append_left topic_prefix p q

-- The baseline, the replayed and the fetched messages never share a key.
pub replay-topic_key : (c p q : Text) → text_eq (replay_key c p) (topic_key q) ≡ false
unfolding replay_key topic_key text_eq
replay-topic_key c p q = refl

pub sync-topic_key : (c p q : Text) → text_eq (sync_key c p) (topic_key q) ≡ false
unfolding sync_key topic_key text_eq
sync-topic_key c p q = refl

pub topic-replay_key : (q c p : Text) → text_eq (topic_key q) (replay_key c p) ≡ false
unfolding replay_key topic_key text_eq
topic-replay_key q c p = refl

pub topic-sync_key : (q c p : Text) → text_eq (topic_key q) (sync_key c p) ≡ false
unfolding sync_key topic_key text_eq
topic-sync_key q c p = refl

pub replay-sync_key : (c p d q : Text) → text_eq (replay_key c p) (sync_key d q) ≡ false
unfolding replay_key sync_key text_eq
replay-sync_key c p d q = refl

pub sync-replay_key : (c p d q : Text) → text_eq (sync_key c p) (replay_key d q) ≡ false
unfolding replay_key sync_key text_eq
sync-replay_key c p d q = refl

-- A centre without a colon is read back from its keys.
tagged_eq :
    (c d p q : Text)
    → has_char b':' c ≡ false
    → has_char b':' d ≡ false
    → text_eq (c ++ (b':' ∷ p)) (d ++ (b':' ∷ q)) ≡ (text_eq c d && text_eq p q)
unfolding text_eq has_char
tagged_eq [] [] p q h k = refl
tagged_eq [] (y ∷ d) p q h k = ground arith
tagged_eq (x ∷ c) [] p q h k = ground arith
tagged_eq (x ∷ c) (y ∷ d) p q h k = ground (arith, tagged_eq c d p q)

module _ (c d p q : Text) (h : has_char b':' c ≡ false) (k : has_char b':' d ≡ false) where
  pub replay_key_eq : text_eq (replay_key c p) (replay_key d q) ≡ (text_eq c d && text_eq p q)
  unfolding replay_key text_eq
  replay_key_eq = tagged_eq c d p q h k

  pub sync_key_eq : text_eq (sync_key c p) (sync_key d q) ≡ (text_eq c d && text_eq p q)
  unfolding sync_key text_eq
  sync_key_eq = tagged_eq c d p q h k

any-append :
    {A : Type 0} (f : A → Bool) (xs ys : List A) → any f (xs ++ ys) ≡ (any f xs || any f ys)
any-append f [] ys = refl
any-append f (x ∷ xs) ys = ground (arith, any-append f xs ys)

any-map-false :
    {A B : Type 0} (f : B → Bool) (g : A → B) (xs : List A)
    → ((a : A) → f (g a) ≡ false)
    → any f (map g xs) ≡ false
any-map-false f g [] h = refl
any-map-false f g (x ∷ xs) h = ground (arith, h x, any-map-false f g xs h)

any-map :
    {A B : Type 0} (f : B → Bool) (g : A → B) (xs : List A)
    → any f (map g xs) ≡ any (λ a. f (g a)) xs
any-map f g [] = refl
any-map f g (x ∷ xs) = ground (arith, any-map f g xs)

-- A key outside the keyspace is none of the keys that are cleared.
pub keys_of-disjoint :
    (key : Text → Text → Text) (j : Text) (cs ts : List Text)
    → ((c p : Text) → text_eq (key c p) j ≡ false)
    → any (λ k. text_eq k j) (keys_of key cs ts) ≡ false
unfolding keys_of
keys_of-disjoint key j [] ts h = refl
keys_of-disjoint key j (c ∷ cs) ts h =
    any-append (λ k. text_eq k j) (map (key c) ts) (keys_of key cs ts)
    ∙ ground
        (arith, any-map-false (λ k. text_eq k j) (key c) ts (h c), keys_of-disjoint key j cs ts h)

-- Equal patterns have equal keys.
map_key-covers :
    (key : Text → Text → Text) (c p : Text) (ts : List Text)
    → any (text_eq p) ts ≡ true
    → any (λ k. text_eq k (key c p)) (map (key c) ts) ≡ true
map_key-covers key c p [] k = k
map_key-covers key c p (t ∷ ts) k = elim (text_eq_cases p t) [
  | inl e ↦ rw (← e) (ground (arith, text_eq_refl (key c p)))
  | inr e ↦ ground (arith, map_key-covers key c p ts, e.0)
]

-- Every configured pattern of every listed centre is among them.
pub keys_of-covers :
    (key : Text → Text → Text) (c p : Text) (cs ts : List Text)
    → any (text_eq c) cs ≡ true
    → any (text_eq p) ts ≡ true
    → any (λ k. text_eq k (key c p)) (keys_of key cs ts) ≡ true
unfolding keys_of
keys_of-covers key c p [] ts h k = h
keys_of-covers key c p (d ∷ cs) ts h k =
    any-append (λ k. text_eq k (key c p)) (map (key d) ts) (keys_of key cs ts)
    ∙ elim (text_eq_cases c d) [
      | inl e ↦ rw (← e) (ground (arith, map_key-covers key c p ts k))
      | inr e ↦ ground (arith, keys_of-covers key c p cs ts, e.0, k)
    ]
