-- ===== src/Examples/Runs.antt =====
-- Short runs of the benchmark, with whole microseconds in place of doubles, and a reader of it among
-- other threads.
use mvcc_lite.Prelude.{refl, ◌++◌, ◌≡◌, ℕ, [], ◌∷◌, string_key, arith}
use mvcc_lite.Prelude.Text.{to_string}
use mvcc_lite.Status.{k_ok}
use mvcc_lite.VersionStore.{current_version}
use mvcc_lite.Benchmark.Report.{Scenario, Stack, Measured, main}
use mvcc_lite.Benchmark.Pages.{Prints, main-Prints}
use mvcc_lite.Benchmark.Runs.{by_reader, by_writer, by_collector, readers_of, writers_of}
use mvcc_lite.Examples.Measurements.{whole}
use mvcc_lite.Examples.Threads.{silent}
use mvcc_lite.Benchmark.Concurrent.{fill_log, fill-CalmReach, CalmReach-finds}
use mvcc_lite.Benchmark.Workload.{mvcc_fill, key_name}
use mvcc_lite.VersionStore as Store
use mvcc_lite.VersionStore.Invariant.{puts, step}
use mvcc_lite.VersionStore.Timeline.{status}
use mvcc_lite.TransactionManager.{fetch_txn_id, register}
use mvcc_lite.Transaction.Defs.{Transaction, construct}
use mvcc_lite.Transaction.{get}
use mvcc_lite.System.{
  System, init, fetched, placed, pinned, running, update, Step, wrote, direct_put,
}
use mvcc_lite.System.Calm.{CalmReach}

-- Every trial has the same samples, of the first reader and the first writer.
abbrev steady : Scenario → Stack → ℕ → Measured whole
steady sc stack t = record {
  samples = by_reader 0 5 30 ∷ by_writer 0 63 (λ _. 0) 50 ∷ by_collector ∷ [];
  wall_seconds = 1;
}

main-Prints_example : Prints whole 52 (main whole 3 steady)
unfolding readers_of writers_of
main-Prints_example = main-Prints whole 0 steady (
  λ stack t. ((omega arith, tt), (omega arith, tt), omega arith),
  (
    λ stack t. ((omega arith, tt), (omega arith, tt), omega arith),
    (λ stack t. ((omega arith, tt), (omega arith, tt), omega arith), tt),
  ),
)

abbrev filled : System
filled = record init { store = mvcc_fill 1 0 init.store }

filled-CalmReach : CalmReach (fill_log 1 0) filled
filled-CalmReach = fill-CalmReach 1 0 [] init (omega arith) CalmReach.start

abbrev reader : Transaction
reader = construct 1 1

abbrev reading : System
reading = record filled {
  manager = register 1 1 (register 1 0 (fetch_txn_id init.manager).1);
  clients =
      update (update (update (update init.clients 0 (fetched 1)) 0 (placed 1)) 0 (pinned 1 1)) 0
        (running reader);
}

reading-CalmReach : CalmReach (fill_log 1 0) reading
unfolding fetch_txn_id current_version mvcc_fill Store.put to_string
reading-CalmReach =
    let r1 = silent filled-CalmReach (Step.fetches 0 refl (omega arith)) tt in
    let r2 = silent r1 (Step.places 0 1 refl) (λ p. tt) in
    let r3 = silent r2 (Step.pins 0 1 refl) tt in silent r3 (Step.refines 0 1 1 refl) tt

-- Another thread has put the key since.
abbrev rewritten : System
rewritten = record reading { store = step reading.store (puts (key_name 0) "v0") }

rewritten-CalmReach :
    CalmReach (fill_log 1 0 ++ wrote reading.store (puts (key_name 0) "v0")) rewritten
unfolding to_string
rewritten-CalmReach =
    CalmReach.next reading-CalmReach
      (Step.calls (puts (key_name 0) "v0") (direct_put (key_name 0) "v0")
        (unfold mvcc_fill Store.put in omega arith))
      tt

CalmReach-finds_example : (get rewritten.store reader (key_name 0) "").0.code ≡ k_ok
unfolding status Store.put to_string
CalmReach-finds_example =
    CalmReach-finds 1 (wrote reading.store (puts (key_name 0) "v0")) rewritten 0 0 reader ""
      rewritten-CalmReach refl (omega arith) (omega arith) ((("v0", refl), tt), tt) tt
