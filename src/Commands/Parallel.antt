-- ===== src/Commands/Parallel.antt =====
-- A synchronous fetch (scgrep/replay_tester.py) among the other threads.
use scgrep.Prelude.{
  ◌<◌, ℤ, ◌≡◌, ◌∙◌, refl, sym, ap, subst, true, false, ◌&&◌, Option, none, List, [], ◌∷◌, ◌++◌, any,
  All, arith,
}
use scgrep.Text.{Text, text_eq, has_char}
use scgrep.Libs.{Libs}
use scgrep.Redis.{Redis}
use scgrep.Store.{RedisStore, count_sync_messages}
use scgrep.Fetch.{Service}
use scgrep.Fetch.Sync.{SyncRequest, Fetched, sync_fetch}
use scgrep.Fetch.Sync.Trace.{Calls, OfFetch}
use scgrep.Commands.{
  Command, broker, replayed, fetched, PlainCentre, Entry, fetched_entry, run_commands, entries,
}
use scgrep.Commands.Latest.{latest_tally}
use scgrep.Commands.Fresh.{cleared, count_sync-run_commands}

-- The third sequence has the steps of the first two, each in its own order.
pub data Merge : List Command → List Command → List Command → Type 0 where
  done : Merge [] [] []
  left : {xs ys zs : List Command} (x : Command) → Merge xs ys zs → Merge (x ∷ xs) ys (x ∷ zs)
  right : {xs ys zs : List Command} (y : Command) → Merge xs ys zs → Merge xs (y ∷ ys) (y ∷ zs)

-- Not a call of a fetch of the centre and the topic.
abbrev pub Other : Text → Text → Command → Type 0
Other c q (broker m) = Unit {0}
Other c q (replayed d i t o) = Unit {0}
Other c q (fetched d p i t) = (text_eq d c && text_eq p q) ≡ false

Other-none :
    (libs : Libs) (c q : Text) (x : Command) → Other c q x → fetched_entry libs c q x ≡ none
unfolding fetched_entry
Other-none libs c q (broker m) h = refl
Other-none libs c q (replayed d i t o) h = refl
Other-none libs c q (fetched d p i t) h = ground (arith, h)

entries-Merge :
    {xs ys zs : List Command} (f : Command → Option Entry)
    → Merge xs ys zs
    → All (λ y. f y ≡ none) ys
    → entries f zs ≡ entries f xs
unfolding entries
entries-Merge f done h = refl
entries-Merge f (left x m) h = ground (arith, entries-Merge f m h)
entries-Merge f (right y m) h = ground (arith, entries-Merge f m h.1, h.0)

All-Merge :
    {xs ys zs : List Command} (P : Command → Type 0)
    → Merge xs ys zs
    → All P xs
    → All P ys
    → All P zs
All-Merge P done h k = tt
All-Merge P (left x m) h k = (h.0, All-Merge P m h.1 k)
All-Merge P (right y m) h k = (k.0, All-Merge P m h k.1)

-- The steps of the second after all steps of the first.
pub Merge-append : (xs ys : List Command) → Merge xs ys (xs ++ ys)
Merge-append [] [] = done
Merge-append [] (y ∷ ys) = right y (Merge-append [] ys)
Merge-append (x ∷ xs) ys = left x (Merge-append xs ys)

OfFetch-PlainCentre :
    (c t : Text) (xs : List Command)
    → has_char b':' c ≡ false
    → All (OfFetch c t) xs
    → All PlainCentre xs
OfFetch-PlainCentre c t [] plain h = tt
OfFetch-PlainCentre c t (x ∷ xs) plain h =
    (subst PlainCentre (sym h.0.2) plain, OfFetch-PlainCentre c t xs plain h.1)

Other-All :
    (libs : Libs) (c q : Text) (ys : List Command)
    → All (Other c q) ys
    → All (λ y. fetched_entry libs c q y ≡ none) ys
Other-All libs c q [] h = tt
Other-All libs c q (y ∷ ys) h = (Other-none libs c q y h.0, Other-All libs c q ys h.1)

module _ (libs : Libs) (r : Redis) (s : RedisStore) (expires : 0 < s.expiry) where
  -- With a positive expiry, a listed centre without a colon and a configured topic: however the calls
  -- of a fetch are interleaved with those of the other threads, none of which is a fetch of the same
  -- centre and topic and whose centres have no colon either, the count over a window is the one that
  -- the fetch alone leaves in a cleared database.
  pub parallel-sync_fetch :
      (v : Service) (q : SyncRequest) (world : v.World) (db : r.Db) (ids : List Text)
      (own others all : List Command) (a b : ℤ)
      → any (text_eq q.centre_id) ids ≡ true
      → any (text_eq q.topic) s.topics ≡ true
      → has_char b':' q.centre_id ≡ false
      → Calls libs r s v q.centre_id q.topic own (sync_fetch libs r s v q world)
      → Merge own others all
      → All PlainCentre others
      → All (Other q.centre_id q.topic) others
      → count_sync_messages libs r s
          (run_commands libs r s (cleared libs r s expires db ids) all)
          q.centre_id
          q.topic
          a
          b
        ≡ count_sync_messages libs r s
            (sync_fetch libs r s v q world (cleared libs r s expires db ids)).db
            q.centre_id
            q.topic
            a
            b
  parallel-sync_fetch v q world db ids own others all a b listed configured plain calls m plains h =
      let c = q.centre_id in
      let t = q.topic in
      let own_plains = OfFetch-PlainCentre c t own plain calls.own in
      let start = cleared libs r s expires db ids in
      count_sync-run_commands libs r s expires db ids c t listed configured plain all
        (All-Merge PlainCentre m own_plains plains) a b
      ∙ ap (latest_tally a b)
          (entries-Merge (fetched_entry libs c t) m (Other-All libs c t others h))
      ∙ sym (
          count_sync-run_commands libs r s expires db ids c t listed configured plain own own_plains
            a b)
      ∙ ap (λ (f : Fetched libs r s v). count_sync_messages libs r s f.db c t a b)
          (sym (calls.same start))
