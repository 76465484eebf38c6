-- ===== src/Registry/Tests.antt =====
-- Tests of the registry, with the channels of two topics that overlap.
use scgrep.Prelude.{◌≡◌, refl, true, List, [], ◌∷◌, arith}
use scgrep.Text.{Text, codes, text_eq, starts_with, ends_with, rstrip_by}
use scgrep.Fixtures.{test_libs}
use scgrep.Registry.{
  Registry, new_counter, register, unregister, snapshot, handle_replay, channel_matches,
}
use scgrep.Registry.Valid.{IsValid, registry-IsValid}
use scgrep.Registry.Routing.{Delivery, deliver}
use scgrep.Registry.Activity.{
  Event, arrives, registers, unregisters, perform_all, watch, snapshot-perform_all,
}
use scgrep.Registry.Deliver.{snapshot-deliver_shadowed}

abbrev wide : Text
wide = codes "r/me/cache/#"

abbrev narrow : Text
narrow = codes "r/me/cache/uk/#"

abbrev original : Text
original = codes "r/me/cache/uk/x"

abbrev two : Registry
two = record { active = (wide, 0) ∷ (narrow, 1) ∷ []; counters = new_counter ∷ new_counter ∷ [] }

two-IsValid : IsValid two
unfolding text_eq
two-IsValid = record {
  below = (omega arith, (omega arith, tt));
  apart = (((λ e. omega arith), tt), (tt, tt));
  keyed = ((refl, tt), (tt, tt));
}

abbrev heard : List Delivery
heard = (5, original) ∷ (7, original) ∷ []

registry-IsValid_example :
    IsValid (register two wide).0
    × IsValid (unregister two wide)
    × IsValid (handle_replay test_libs two 5 original)
registry-IsValid_example = registry-IsValid test_libs two wide original 5 two-IsValid

wide_matches : channel_matches test_libs wide original ≡ true
unfolding channel_matches text_eq ends_with starts_with rstrip_by
wide_matches = refl

snapshot-deliver_shadowed_example : snapshot (deliver test_libs two heard) 1 ≡ snapshot two 1
snapshot-deliver_shadowed_example =
    snapshot-deliver_shadowed test_libs two wide 0 1 ((narrow, 1) ∷ []) heard two-IsValid refl
      (λ e. omega arith) (wide_matches, (wide_matches, tt))

-- The channel of the narrow topic is taken away and comes back with a new counter.
abbrev activity : List Event
activity =
    arrives 5 original
    ∷ unregisters wide
    ∷ arrives 7 original
    ∷ registers narrow
    ∷ arrives 9 original
    ∷ []

snapshot-perform_all_example :
    snapshot (perform_all test_libs two activity) 1
    ≡ watch test_libs two.active 2 1 (snapshot two 1) activity
snapshot-perform_all_example = snapshot-perform_all test_libs two 1 activity two-IsValid
