-- ===== src/Commands/Tests.antt =====
-- Tests of the interleaved calls: a fetch of two pages, and what the network thread stores meanwhile.
use scgrep.Prelude.{◌<◌, pos, ◌≡◌, refl, List, [], ◌∷◌, ◌++◌, arith}
use scgrep.Text.{codes, text_eq, has_char}
use scgrep.Memory.{memory, blank}
use scgrep.Fixtures.{
  test_libs, test_store, centre, weather, weather_data, noon, noon_epoch, two_pages, question,
}
use scgrep.Store.{count_sync_messages}
use scgrep.Store.Baseline.{Arrival}
use scgrep.Fetch.Sync.{sync_fetch}
use scgrep.Fetch.Sync.Trace.{Calls, sync_fetch-Calls}
use scgrep.Commands.{Command, broker, replayed, fetched, run_commands}
use scgrep.Commands.Fresh.{cleared}
use scgrep.Commands.Parallel.{Merge-append, parallel-sync_fetch}

abbrev expires : 0 < 660
expires = omega arith

sync_fetch-Calls_example :
    (commands : List Command) × Calls test_libs memory test_store two_pages centre weather commands
      (sync_fetch test_libs memory test_store two_pages question 0)
sync_fetch-Calls_example = sync_fetch-Calls test_libs memory test_store two_pages question 0 blank

abbrev arrival : Arrival
arrival = record { now = noon_epoch; msg_id = codes "m1"; time_value = noon; topic = weather_data }

abbrev others : List Command
others =
    broker arrival
    ∷ replayed centre (codes "m1") noon weather_data
    ∷ fetched centre (codes "cache/fr/#") (codes "m2") noon
    ∷ []

abbrev own : List Command
own = (sync_fetch-Calls test_libs memory test_store two_pages question 0 blank).0

parallel-sync_fetch_example :
    count_sync_messages test_libs memory test_store
      (run_commands test_libs memory test_store
        (cleared test_libs memory test_store expires blank (centre ∷ []))
        (own ++ others))
      centre
      weather
      noon_epoch
      (pos 43300000000)
    ≡ count_sync_messages test_libs memory test_store
        (sync_fetch test_libs memory test_store two_pages question 0
          (cleared test_libs memory test_store expires blank (centre ∷ []))).db
        centre
        weather
        noon_epoch
        (pos 43300000000)
unfolding text_eq has_char
parallel-sync_fetch_example =
    parallel-sync_fetch test_libs memory test_store expires two_pages question 0 blank (centre ∷ [])
      own others (own ++ others) noon_epoch (pos 43300000000) refl refl refl
      (sync_fetch-Calls test_libs memory test_store two_pages question 0 blank).1
      (Merge-append own others) (tt, (refl, (refl, tt))) (tt, (tt, (refl, tt)))
