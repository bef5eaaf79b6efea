-- ===== src/Examples/Collector.antt =====
-- Passes of the collector over the store of Examples/Store.
use mvcc_lite.Prelude.{
  [], ◌∷◌, ◌≡◌, refl, ℕ, none, some, string_key, nat_key, true, false, inl, inr,
}
use mvcc_lite.UnorderedMap.{find}
use mvcc_lite.VersionStore.Defs.{no_stats}
use mvcc_lite.TransactionManager
use mvcc_lite.TransactionManager.Laws.{registered, init-IsValid}
use mvcc_lite.Transaction.{Engine}
use mvcc_lite.GarbageCollector.{GarbageCollector, passing, run_once, stop_background}
use mvcc_lite.GarbageCollector.Pass.{run_once_idle}
use mvcc_lite.VersionStore.{current_version}
use mvcc_lite.VersionStore.Visible.{newest}
use mvcc_lite.GarbageCollector.Background.{Stopped, stop_background-Stopped}
use mvcc_lite.GarbageCollector.Background as BackgroundLaws
use mvcc_lite.Examples.Store.{stocked, stocked-IsValid}
use mvcc_lite.Examples.Transactions.{engine}

abbrev collector : GarbageCollector
collector = record {
  cumulative_stats = no_stats;
  running = true;
  stop_requested = false;
  background_thread = some passing;
}

collector-IsValid : BackgroundLaws.IsValid collector
collector-IsValid = record {
  has_thread = inr (λ e. cc);
  no_thread = inl refl;
  asked = inl (λ e. cc);
}

abbrev idle : Engine
idle = record { store = stocked; manager = TransactionManager.init }

idle_registered : (id : ℕ) → registered id idle.manager ≡ none
unfolding registered find
idle_registered id = refl

stop_background-Stopped_example : Stopped (stop_background 3 engine collector)
stop_background-Stopped_example = stop_background-Stopped 0 engine collector collector-IsValid

run_once_idle_example :
    find "a" (run_once idle collector).0.store.table
    ≡ some (record { version = 3; value = some "y" } ∷ [])
unfolding find newest current_version
run_once_idle_example =
    run_once_idle idle collector "a" stocked-IsValid init-IsValid idle_registered
