-- ===== src/Fetch/Sync/Tests.antt =====
-- Tests of the synchronous fetch, against a service that always serves the same two pages.
use scgrep.Prelude.{none, ◌-ℤ◌, ◌+◌, ◌<◌, ◌≤◌, pos, pos_part, ◌≡◌, refl, false, [], ◌∷◌, arith}
use scgrep.Text.{Text, codes, text_eq}
use scgrep.Json.{get_or_null}
use scgrep.Result.{ok}
use scgrep.Memory.{memory, Db, blank}
use scgrep.Fixtures.{
  test_libs, test_store, centre, weather, noon_epoch, final_page, linked_page, two_pages, question,
}
use scgrep.Store.{count_messages, count_replay_messages, count_sync_messages}
use scgrep.Fetch.{FetchResult, no_messages, http, next_page_href}
use scgrep.Fetch.Integer.{to_int}
use scgrep.Fetch.Sync.{
  first_answer, parsed_page, first_page, next_page, count_page, store_features, Walk, walk_pages,
  sync_fetch,
}
use scgrep.Fetch.Sync.Paging.{total}
use scgrep.Fetch.Sync.Chain.{Serves, messages_seen-walk_pages}
use scgrep.Fetch.Sync.Outcome.{Outcome, count_sync-sync_fetch, sync_fetch_isolated}

abbrev expires : 0 < 660
expires = omega arith

abbrev after : Db
after = (sync_fetch test_libs memory test_store two_pages question 0 blank).db

abbrev other_topic : Text
other_topic = codes "cache/fr/#"

abbrev begun : Walk test_libs memory test_store two_pages
begun = record { world = 0; db = blank; messages_seen = 0; last_status = 200; raised = none }

served :
    Serves test_libs memory test_store two_pages 0 (codes "u") 100 linked_page (final_page ∷ [])
unfolding next_page_href get_or_null text_eq
served = (codes "p2", codes "p2", 200, codes "P2", refl, refl, refl, refl, refl, refl)

messages_seen-walk_pages_example :
    (walk_pages test_libs memory test_store two_pages 5 centre weather 100 begun linked_page
      (codes "u")).messages_seen
    ≡ 0 + total (linked_page ∷ final_page ∷ [])
messages_seen-walk_pages_example =
    messages_seen-walk_pages test_libs memory test_store two_pages centre weather 100 5 begun
      linked_page (codes "u") (final_page ∷ []) (omega arith) served

abbrev answered : FetchResult
answered = record (no_messages http false false (pos 1) 200) {
  messages_fetched = pos 2;
  number_matched = pos 2;
}

fetch_answers :
    (sync_fetch test_libs memory test_store two_pages question 0 blank).result ≡ ok answered
unfolding sync_fetch first_answer parsed_page text_eq first_page get_or_null to_int walk_pages ◌-ℤ◌
    next_page next_page_href count_page store_features
fetch_answers = refl

count_sync-sync_fetch_example :
    count_sync_messages test_libs memory test_store after centre weather noon_epoch
      (pos 43300000000)
    ≤ count_sync_messages test_libs memory test_store blank centre weather noon_epoch
        (pos 43300000000)
      + pos_part (pos 2)
count_sync-sync_fetch_example =
    count_sync-sync_fetch test_libs memory test_store two_pages expires question 0 blank answered
      noon_epoch (pos 43300000000) fetch_answers refl refl refl

sync_fetch_isolated_example :
    (count_messages test_libs memory test_store after other_topic noon_epoch (pos 43300000000)
      ≡ count_messages test_libs memory test_store blank other_topic noon_epoch (pos 43300000000))
    × (count_replay_messages test_libs memory test_store after centre other_topic noon_epoch
          (pos 43300000000)
        ≡ count_replay_messages test_libs memory test_store blank centre other_topic noon_epoch
            (pos 43300000000))
    × (count_sync_messages test_libs memory test_store after centre other_topic noon_epoch
          (pos 43300000000)
        ≡ count_sync_messages test_libs memory test_store blank centre other_topic noon_epoch
            (pos 43300000000))
unfolding text_eq
sync_fetch_isolated_example =
    sync_fetch_isolated test_libs memory test_store two_pages expires question 0 blank centre
      other_topic noon_epoch (pos 43300000000) refl
