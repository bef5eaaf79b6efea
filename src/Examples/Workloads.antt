-- ===== src/Examples/Workloads.antt =====
-- A few turns of the two workloads, over two keys.
use mvcc_lite.Prelude.{◌≡◌, refl, List, [], ◌∷◌, arith}
use mvcc_lite.Status.{k_ok}
use mvcc_lite.Prelude.Text.{to_string}
use mvcc_lite.UnorderedMap.{find, assign}
use mvcc_lite.KvStore as Kv
use mvcc_lite.VersionStore.Defs as StoreDefs
use mvcc_lite.TransactionManager as Manager
use mvcc_lite.Transaction.{Engine}
use mvcc_lite.GarbageCollector
use mvcc_lite.Benchmark.Workload.{
  Turn, reads, writes, collects, kv_run, kv_fill, kv_reader, kv_writer, mvcc_run, mvcc_fill,
}
use mvcc_lite.Benchmark.Agreement.{kv_run-mvcc_run}

abbrev turns : List Turn
turns = reads 1 ∷ writes 0 (λ _. 7) ∷ collects ∷ reads 0 ∷ writes 1 (λ _. 8) ∷ reads 1 ∷ []

abbrev filled : Engine
filled = record { store = mvcc_fill 2 0 StoreDefs.empty; manager = Manager.init }

kv_run-mvcc_run_example :
    kv_run (kv_fill 2 0 Kv.empty) turns ≡ mvcc_run filled GarbageCollector.init turns
kv_run-mvcc_run_example = kv_run-mvcc_run 2 turns GarbageCollector.init (omega arith)

kv_run-turns :
    kv_run (kv_fill 2 0 Kv.empty) turns ≡ (k_ok, "init") ∷ (k_ok, "v7") ∷ (k_ok, "v8") ∷ []
unfolding kv_run kv_fill kv_reader kv_writer Kv.put Kv.get find assign to_string
kv_run-turns = refl
