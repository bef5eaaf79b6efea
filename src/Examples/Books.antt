-- ===== src/Examples/Books.antt =====
-- The collector's books over a put, a delete and a pass.
use mvcc_lite.Prelude.{◌+◌, ◌≡◌, refl, List, [], ◌∷◌, arith, string_key}
use mvcc_lite.UnorderedMap.{find, assign}
use mvcc_lite.VersionStore as Store
use mvcc_lite.VersionStore.Invariant.{puts, deletes, step}
use mvcc_lite.VersionStore.Timeline.{status}
use mvcc_lite.VersionStore.Garbage.{total_versions}
use mvcc_lite.GarbageCollector
use mvcc_lite.GarbageCollector.Account.{Event, calls, passes, run, written, run-total_versions}
use mvcc_lite.Examples.Store.{stocked-IsValid}
use mvcc_lite.Examples.Transactions.{engine}

abbrev events : List Event
events = calls (puts "c" "q") ∷ calls (deletes "a") ∷ passes ∷ []

written_here : written engine GarbageCollector.init events ≡ 2
unfolding written status step Store.put Store.delete Store.append Store.currently_visible find
    assign
written_here = refl

stocked_versions : total_versions engine.store.table ≡ 4
unfolding total_versions
stocked_versions = refl

run-total_versions_example :
    (run engine GarbageCollector.init events).1.cumulative_stats.versions_reclaimed
      + total_versions (run engine GarbageCollector.init events).0.store.table
    ≡ 0 + total_versions engine.store.table + written engine GarbageCollector.init events
run-total_versions_example =
    run-total_versions engine GarbageCollector.init events stocked-IsValid (refl, (refl, tt))
      (omega arith) (omega (arith, written_here, stocked_versions))
