-- ===== src/Benchmark/Agreement.antt =====
-- The two workloads of the benchmark, over the same turns.
use mvcc_lite.Prelude.{
  ℕ, zero, suc, ◌+◌, ◌<◌, ◌≡◌, refl, ◌∙◌, String, List, [], ◌∷◌, none, some, if◌then◌else◌, ◌==◌,
  string_key, arith, u64_mod, length,
}
use mvcc_lite.UnorderedMap.{find}
use mvcc_lite.KvStore as Kv
use mvcc_lite.KvStore.{KvStore}
use mvcc_lite.VersionStore as Store
use mvcc_lite.VersionStore.Defs as StoreDefs
use mvcc_lite.VersionStore.Defs.{VersionStore}
use mvcc_lite.VersionStore.{current_version}
use mvcc_lite.VersionStore.Invariant.{IsValid, puts, step, Call, step-IsValid, empty-IsValid}
use mvcc_lite.VersionStore.Snapshot.{snapshot}
use mvcc_lite.VersionStore.Visible.{newest}
use mvcc_lite.VersionStore.Timeline.{step-snapshot, effect, status}
use mvcc_lite.TransactionManager as Manager
use mvcc_lite.TransactionManager.Laws as ManagerLaws
use mvcc_lite.TransactionManager.Laws.{registered}
use mvcc_lite.Transaction.{Engine}
use mvcc_lite.System.Roundtrip.{snapshot-current_version}
use mvcc_lite.GarbageCollector.{GarbageCollector, run_once}
use mvcc_lite.Benchmark.Workload.{
  Turn, reads, writes, collects, key_name, kv_run, kv_fill, kv_writer, mvcc_writer, mvcc_reader,
  mvcc_run, mvcc_fill,
}
use mvcc_lite.Benchmark.Alike.{Alike, narrow, key_name_named}
use mvcc_lite.Benchmark.Turns.{reader-Alike, writer-Alike, collects-Alike, kv_put-find}

run-Alike :
    (s : KvStore) (e : Engine) (g : GarbageCollector) (turns : List Turn)
    → Alike (length turns) s e
    → kv_run s turns ≡ mvcc_run e g turns
unfolding kv_run mvcc_run
run-Alike s e g [] a = refl
run-Alike s e g (reads i ∷ turns) a =
    let (same, a') = reader-Alike (length turns) i s e a in
    ground (arith, same, run-Alike s (mvcc_reader i e).1 g turns a')
run-Alike s e g (writes i numbers ∷ turns) a =
    run-Alike (kv_writer i (numbers 0) s) (mvcc_writer i numbers e) g turns
      (writer-Alike (length turns) i numbers s e a)
run-Alike s e g (collects ∷ turns) a = run-Alike s (run_once e g).0 (run_once e g).1 turns (
    collects-Alike (length turns) s e g
      (narrow (suc (length turns)) (length turns) s e (omega arith) a))

abbrev pub put_init : ℕ → VersionStore → VersionStore
put_init i store = (Store.put store (key_name i) "init" none).1

abbrev pub init_call : ℕ → Call
init_call i = puts (key_name i) "init"

pub put_init_lem :
    (i : ℕ) (s : VersionStore)
    → s.next_version + 1 < u64_mod
    → ((put_init i s).next_version ≡ s.next_version + 1) × (put_init i s ≡ step s (init_call i))
unfolding step
put_init_lem i s p = unfold Store.put in (ground (arith, key_name_named i), refl)

pub put_init_effect :
    (i : ℕ) (s : VersionStore)
    → effect s (init_call i) ≡ record { key = key_name i; value = some "init" } ∷ []
put_init_effect i s = unfold status Store.put in ground (arith, key_name_named i)

put_init-current :
    (i : ℕ) (s : VersionStore) (key : String)
    → IsValid s
    → s.next_version + 1 < u64_mod
    → snapshot (step s (init_call i)) (current_version (step s (init_call i))) key
      ≡ (if key_name i == key then some "init" else snapshot s (current_version s) key)
put_init-current i s key v p =
    let n : ℕ = s.next_version in
    let (next, same) = put_init_lem i s p in
    let next' : (step s (init_call i)).next_version ≡ n + 1 = rw (← same) next in
    let here : current_version (step s (init_call i)) ≡ n =
      unfold current_version in omega (arith, next') in
    let older = snapshot-current_version s n key v (omega arith) in
    let newer = step-snapshot s (init_call i) n key v (omega arith) in
    rw here (newer ∙ rw (put_init_effect i s) (ground (arith, older)))

put_init-Alike :
    (n i : ℕ) (s : KvStore) (e : Engine)
    → Alike (suc n) s e
    → Alike n (Kv.put s (key_name i) "init").1 (record e { store = put_init i e.store })
unfolding step
put_init-Alike n i s e a =
    let c : Call = init_call i in
    let room : e.store.next_version + 1 < u64_mod = omega (arith, a.versions) in
    let (next, _) = put_init_lem i e.store room in
    record {
      valid = step-IsValid e.store c room a.valid;
      manager = a.manager;
      idle = a.idle;
      same = λ key named. ground (
        arith,
        kv_put-find i "init" s key,
        a.same key named,
        put_init-current i e.store key a.valid room,
      );
      versions = omega (arith, next, a.versions);
      ids = omega (arith, a.ids);
    }

fill-Alike :
    (n i room : ℕ) (s : KvStore) (e : Engine)
    → Alike (n + room) s e
    → Alike room (kv_fill n i s) (record e { store = mvcc_fill n i e.store })
unfolding kv_fill mvcc_fill
fill-Alike zero i room s e a = narrow (0 + room) room s e (omega arith) a
fill-Alike (suc n) i room s e a =
    fill-Alike n (suc i) room (Kv.put s (key_name i) "init").1
      (record e { store = put_init i e.store })
      (put_init-Alike (n + room) i s e (narrow (suc n + room) (suc (n + room)) s e (omega arith) a))

-- The two stores after the fill.
pub filled-Alike :
    (n room : ℕ)
    → n + room + 1 < u64_mod
    → Alike room
        (kv_fill n 0 Kv.empty)
        (record { store = mvcc_fill n 0 StoreDefs.empty; manager = Manager.init })
filled-Alike n room p =
    fill-Alike n 0 room Kv.empty (record { store = StoreDefs.empty; manager = Manager.init })
      (record {
        valid = empty-IsValid;
        manager = ManagerLaws.init-IsValid;
        idle = λ id. unfold registered find in refl;
        same = λ key named. unfold find newest in refl;
        versions = omega arith;
        ids = omega arith;
      })

-- The benchmark's two stacks, filled alike, answer every read of the same turns alike: with the same
-- code and the same value, wherever the writes and the passes of the collector fall between the
-- reads. No turn is interrupted by another, and keys and turns together fit into 64 bits.
pub kv_run-mvcc_run :
    (n : ℕ) (turns : List Turn) (g : GarbageCollector)
    → n + length turns + 1 < u64_mod
    → kv_run (kv_fill n 0 Kv.empty) turns
      ≡ mvcc_run (record { store = mvcc_fill n 0 StoreDefs.empty; manager = Manager.init }) g turns
kv_run-mvcc_run n turns g p =
    run-Alike (kv_fill n 0 Kv.empty)
      (record { store = mvcc_fill n 0 StoreDefs.empty; manager = Manager.init }) g turns
      (filled-Alike n (length turns) p)
