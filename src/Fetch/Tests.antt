-- ===== src/Fetch/Tests.antt =====
-- Tests of the answer to a subscription.
use scgrep.Prelude.{◌≡◌, refl, true, List, [], ◌∷◌, All}
use scgrep.Text.{Text, codes, text_eq, starts_with}
use scgrep.Json.{Json, obj, arr, Items, cons, items, get_or_null}
use scgrep.Result.{ok}
use scgrep.Util.{broker_authority}
use scgrep.Fixtures.{test_libs, subscribed}
use scgrep.Fetch.Subscriptions.{
  validate_subscriptions, IsLink, Offers, validate_subscriptions_sound,
}

abbrev namespace : Text
namespace = codes "replay/a/wis2/gr/me/"

abbrev wanted : List Text
wanted = codes "b1:8883" ∷ []

accepted : validate_subscriptions test_libs (obj subscribed) namespace wanted ≡ ok true
unfolding validate_subscriptions get_or_null text_eq starts_with broker_authority
accepted = refl

validate_subscriptions_sound_example :
    (link : Json) × (links : Items) × (get_or_null (codes "subscriptions") subscribed
      ≡ arr (cons link links))
    × All (IsLink namespace) (link ∷ items links)
    × All (Offers test_libs (link ∷ items links)) wanted
validate_subscriptions_sound_example =
    validate_subscriptions_sound test_libs subscribed namespace wanted accepted
