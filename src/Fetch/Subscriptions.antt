-- ===== src/Fetch/Subscriptions.antt =====
-- _validate_subscriptions of scgrep/replay_tester.py: the links of an asynchronous answer.
use scgrep.Prelude.{
  ◌≡◌, ◌∙◌, refl, ap, ◌⊎◌, inl, inr, subst, sym, Bool, true, false, Option, none, some, List, [],
  ◌∷◌, arith, any, all, All, all→All, Option-cases, Bool-cases, if◌then◌else◌,
}
use scgrep.Text.{Text, codes, text_eq, starts_with}
use scgrep.Text.Laws.{eq_of_text_eq}
use scgrep.Json.{Json, str, arr, obj, Items, nil, cons, items, Fields, get_or_null}
use scgrep.Result.{Result, ok, ◌>>=◌, >>=-eq-ok}
use scgrep.Libs.{Libs}
use scgrep.Util.{Fault, broker_authority}

-- isinstance(v, str)
abbrev pub as_text : Json → Option Text
as_text (str t) = some t
as_text _ = none

-- The href of a link whose channel lies in the namespace.
link_href : Text → Json → Option Text
link_href prefix (obj link) = elim (as_text (get_or_null (codes "channel") link)) [
  | none ↦ none
  | some channel ↦
      if starts_with channel prefix then as_text (get_or_null (codes "href") link) else none
]
link_href prefix _ = none

cons_href : Option Text → Option (List Text) → Option (List Text)
cons_href (some href) (some hrefs) = some (href ∷ hrefs)
cons_href _ _ = none

-- The hrefs of the links, if every link is well formed.
link_hrefs : Text → Items → Option (List Text)
unfolding cons_href link_href
link_hrefs prefix nil = some []
link_hrefs prefix (cons link links) = cons_href (link_href prefix link) (link_hrefs prefix links)

-- {broker_authority(h) for h in hrefs}
unfoldable pub authorities_of : Libs → List Text → Result Fault (List Text)
authorities_of libs [] = ok []
authorities_of libs (h ∷ hs) = do
  a ← broker_authority libs h
  rest ← authorities_of libs hs
  ok (a ∷ rest)

covers : List Text → List Text → Bool
covers found authorities = all (λ a. any (text_eq a) found) authorities

check_hrefs : Libs → List Text → Option (List Text) → Result Fault Bool
unfolding covers
check_hrefs libs authorities none = ok false
check_hrefs libs authorities (some hrefs) = do
  found ← authorities_of libs hrefs
  ok (covers found authorities)

check_links : Libs → Text → List Text → Json → Result Fault Bool
unfolding check_hrefs
check_links libs prefix authorities (arr nil) = ok false
check_links libs prefix authorities (arr (cons link links)) =
    check_hrefs libs authorities (link_hrefs prefix (cons link links))
check_links libs prefix authorities _ = ok false

-- _validate_subscriptions
unfoldable pub validate_subscriptions : Libs → Json → Text → List Text → Result Fault Bool
unfolding check_links authorities_of link_hrefs
validate_subscriptions libs (obj metadata) prefix authorities =
    check_links libs prefix authorities (get_or_null (codes "subscriptions") metadata)
validate_subscriptions libs _ prefix authorities = ok false

-- link.get("href"), where that is a text
abbrev pub link_target : Json → Option Text
link_target (obj link) = as_text (get_or_null (codes "href") link)
link_target _ = none

-- What an accepted link has: a channel that is a text in the namespace, and an href that is a text.
abbrev pub IsLink : Text → Json → Type 0
IsLink prefix (obj link) =
    (channel : Text) × (href : Text) × (as_text (get_or_null (codes "channel") link) ≡ some channel)
    × (starts_with channel prefix ≡ true)
    × (as_text (get_or_null (codes "href") link) ≡ some href)
IsLink prefix _ = ⊥

-- One of the links leads to the broker.
abbrev pub Offers : Libs → List Json → Text → Type 0
Offers libs [] authority = ⊥
Offers libs (link ∷ links) authority =
    ((href : Text) × (link_target link ≡ some href) × (broker_authority libs href ≡ ok authority))
    ⊎ Offers libs links authority

link_href-IsLink :
    (prefix : Text) (v : Json) (href : Text)
    → link_href prefix v ≡ some href
    → IsLink prefix v × (link_target v ≡ some href)
unfolding link_href
link_href-IsLink prefix (obj link) href h =
    elim (Option-cases (as_text (get_or_null (codes "channel") link))) [
      | inl e ↦ absurd (ground (arith, e, h))
      | inr (channel, e) ↦
          let inside : starts_with channel prefix ≡ true = ground (arith, e, h) in
          let target : as_text (get_or_null (codes "href") link) ≡ some href =
            ground (arith, e, h, inside) in
          ((channel, href, e, inside, target), target)
    ]
link_href-IsLink prefix _ href h = absurd (cc)

-- The hrefs belong to links that are accepted, one after the other.
abbrev Targets : Items → List Text → Type 0
Targets nil [] = Unit {0}
Targets nil (h ∷ hs) = ⊥
Targets (cons v vs) [] = ⊥
Targets (cons v vs) (h ∷ hs) = (link_target v ≡ some h) × Targets vs hs

cons_href-some :
    (a : Option Text) (b : Option (List Text)) (hs : List Text)
    → cons_href a b ≡ some hs
    → (h : Text) × (rest : List Text) × (a ≡ some h) × (b ≡ some rest) × (hs ≡ h ∷ rest)
unfolding cons_href
cons_href-some (some h) (some rest) hs e = (h, rest, refl, refl, ground (arith, e))
cons_href-some (some h) none hs e = absurd (cc)
cons_href-some none b hs e = absurd (cc)

link_hrefs-Targets :
    (prefix : Text) (vs : Items) (hs : List Text)
    → link_hrefs prefix vs ≡ some hs
    → All (IsLink prefix) (items vs) × Targets vs hs
unfolding link_hrefs
link_hrefs-Targets prefix nil [] e = (tt, tt)
link_hrefs-Targets prefix nil (h ∷ hs) e = absurd (cc)
link_hrefs-Targets prefix (cons v vs) hs e =
    let (h, rest, p, q, same) = cons_href-some (link_href prefix v) (link_hrefs prefix vs) hs e in
    let (good, target) = link_href-IsLink prefix v h p in
    let (goods, targets) = link_hrefs-Targets prefix vs rest q in
    ((good, goods), subst (Targets (cons v vs)) (sym same) (target, targets))

-- Every authority that was computed is offered by a link.
authorities_of-Offers :
    (libs : Libs) (vs : Items) (hs found : List Text) (a : Text)
    → Targets vs hs
    → authorities_of libs hs ≡ ok found
    → any (text_eq a) found ≡ true
    → Offers libs (items vs) a
unfolding authorities_of
authorities_of-Offers libs nil [] found a t e m = absurd (ground (arith, e, m))
authorities_of-Offers libs nil (h ∷ hs) found a t e m = elim t [ ]
authorities_of-Offers libs (cons v vs) [] found a t e m = elim t [ ]
authorities_of-Offers libs (cons v vs) (h ∷ hs) found a t e m =
    let (b, p, k) = >>=-eq-ok (broker_authority libs h) _ e in
    let (rest, q, l) = >>=-eq-ok (authorities_of libs hs) _ k in
    elim (Bool-cases (text_eq a b)) [
      | inl same ↦ inl (h, t.0, p ∙ ap ok (sym (eq_of_text_eq a b same)))
      | inr other ↦
          inr (authorities_of-Offers libs vs hs rest a t.1 q (ground (arith, l, m, other)))
    ]

All-Offers :
    (libs : Libs) (vs : Items) (hs found wanted : List Text)
    → Targets vs hs
    → authorities_of libs hs ≡ ok found
    → All (λ a. any (text_eq a) found ≡ true) wanted
    → All (Offers libs (items vs)) wanted
All-Offers libs vs hs found [] t e h = tt
All-Offers libs vs hs found (a ∷ rest) t e h =
    (authorities_of-Offers libs vs hs found a t e h.0, All-Offers libs vs hs found rest t e h.1)

check_hrefs-true :
    (libs : Libs) (wanted : List Text) (o : Option (List Text))
    → check_hrefs libs wanted o ≡ ok true
    → (hs : List Text) × (found : List Text) × (o ≡ some hs)
      × (authorities_of libs hs ≡ ok found)
      × (covers found wanted ≡ true)
unfolding check_hrefs
check_hrefs-true libs wanted none e = absurd (cc)
check_hrefs-true libs wanted (some hs) e =
    let (found, p, q) = >>=-eq-ok (authorities_of libs hs) _ e in
    (hs, found, refl, p, ground (arith, q))

check_links_sound :
    (libs : Libs) (prefix : Text) (wanted : List Text) (v : Json)
    → check_links libs prefix wanted v ≡ ok true
    → (link : Json) × (links : Items) × (v ≡ arr (cons link links))
      × All (IsLink prefix) (link ∷ items links)
      × All (Offers libs (link ∷ items links)) wanted
unfolding check_links
check_links_sound libs prefix wanted (arr nil) e = absurd (cc)
check_links_sound libs prefix wanted (arr (cons link links)) e =
    let (hs, found, p, q, c) =
      check_hrefs-true libs wanted (link_hrefs prefix (cons link links)) e in
    let (good, targets) = link_hrefs-Targets prefix (cons link links) hs p in
    (
      link,
      links,
      refl,
      good,
      All-Offers libs (cons link links) hs found wanted targets q
          (all→All (λ a. any (text_eq a) found) wanted (unfold covers in c)),
    )
check_links_sound libs prefix wanted _ e = absurd (cc)

-- An answer that is accepted has a list of links that is not empty, the channel of every link lies in
-- the subscriber's namespace, every link has an href, and each configured broker is one of them.
pub validate_subscriptions_sound :
    (libs : Libs) (metadata : Fields) (prefix : Text) (wanted : List Text)
    → validate_subscriptions libs (obj metadata) prefix wanted ≡ ok true
    → (link : Json) × (links : Items) × (get_or_null (codes "subscriptions") metadata
        ≡ arr (cons link links))
      × All (IsLink prefix) (link ∷ items links)
      × All (Offers libs (link ∷ items links)) wanted
unfolding validate_subscriptions
validate_subscriptions_sound libs metadata prefix wanted e =
    check_links_sound libs prefix wanted (get_or_null (codes "subscriptions") metadata) e
