-- ===== src/GarbageCollector.antt =====
-- include/mvcc/gc.h and src/gc.cpp: the collector, run on demand or by a background thread.
pub mod Pass
pub mod Background
pub mod Race
pub mod Scan
pub mod Account
use mvcc_lite.Prelude.{
  ℕ, zero, suc, Bool, true, false, not, Option, none, some, u64_add, if◌then◌else◌,
}
use mvcc_lite.VersionStore.Defs.{GcStats, no_stats}
use mvcc_lite.VersionStore.Collection.{collect_garbage}
use mvcc_lite.TransactionManager.{oldest_active_snapshot}
use mvcc_lite.Transaction.{Engine}

-- Where the background thread stands: in `RunOnce`, in `wait_for`, or past its return.
pub data Thread : Type 0 where
  passing waiting returned : Thread

pub record GarbageCollector : Type 0 where
  pub cumulative_stats : GcStats
  pub running : Bool
  pub stop_requested : Bool
  pub background_thread : Option Thread  -- `none` is a thread that is not joinable

abbrev pub init : GarbageCollector
init = record {
  cumulative_stats = no_stats;
  running = false;
  stop_requested = false;
  background_thread = none;
}

-- The last part of `RunOnce`, under the mutex of the statistics.
unfoldable pub add_stats : GcStats → GarbageCollector → GarbageCollector
add_stats pass_stats g = record g {
  cumulative_stats = record {
    versions_reclaimed =
        u64_add g.cumulative_stats.versions_reclaimed pass_stats.versions_reclaimed;
    keys_removed = u64_add g.cumulative_stats.keys_removed pass_stats.keys_removed;
  };
}

-- A pass that no other thread interrupts.
unfoldable pub run_once : Engine → GarbageCollector → Engine × GarbageCollector × GcStats
unfolding add_stats
run_once e g =
    let boundary = oldest_active_snapshot e.store e.manager in
    let (store, pass_stats) = collect_garbage e.store boundary in
    (record e { store = store }, add_stats pass_stats g, pass_stats)

unfoldable pub start_background : GarbageCollector → GarbageCollector
start_background g =
    if g.running
    then g
    else record g { stop_requested = false; running = true; background_thread = some passing }

-- The next step of the background thread: the pass, or the end of a wait, after which it looks at
-- `stop_requested_`, however it was woken.
unfoldable pub thread_step : Engine → GarbageCollector → Engine × GarbageCollector
unfolding run_once
thread_step e g = elim g.background_thread [
  | none ↦ (e, g)
  | some thread ↦ elim thread [
    | passing ↦
        let (e', g', _) = run_once e g in (e', record g' { background_thread = some waiting })
    | waiting ↦
        (e, record g { background_thread = some (if g.stop_requested then returned else passing) })
    | returned ↦ (e, g)
  ]
]

-- The first part of `StopBackground`: the request and the notification.
unfoldable pub request_stop : GarbageCollector → GarbageCollector
request_stop g = if not g.running then g else record g { stop_requested = true }

-- The return of `join`: possible once the thread has returned, or at once with no thread.
unfoldable pub join : GarbageCollector → Option GarbageCollector
join g = elim g.background_thread [
  | none ↦ some (record g { running = false })
  | some thread ↦ elim thread [
    | passing ↦ none
    | waiting ↦ none
    | returned ↦ some (record g { background_thread = none; running = false })
  ]
]

-- The thread runs on until `join` returns; `none` means that the fuel ran out before.
unfoldable pub wait_for_thread : ℕ → Engine → GarbageCollector → Option (Engine × GarbageCollector)
unfolding thread_step join
wait_for_thread zero e g = none
wait_for_thread (suc fuel) e g =
    let later = wait_for_thread fuel (thread_step e g).0 (thread_step e g).1 in
    elim (join g) [ some g' ↦ some (e, g') | none ↦ later ]

-- Also what the destructor calls.
unfoldable pub stop_background : ℕ → Engine → GarbageCollector → Option (Engine × GarbageCollector)
unfolding wait_for_thread request_stop
stop_background fuel e g =
    if not g.running then some (e, g) else wait_for_thread fuel e (request_stop g)

unfoldable pub is_background_running : GarbageCollector → Bool
is_background_running g = g.running

abbrev pub cumulative_stats : GarbageCollector → GcStats
cumulative_stats g = g.cumulative_stats
