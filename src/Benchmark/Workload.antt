-- ===== src/Benchmark/Workload.antt =====
-- The work of `RunKVStoreWorkload` and `RunMVCCWorkload`, without the timing: the fill, and the
-- bodies of the readers and the writers. A turn is one call of a body, or one pass of the collector,
-- that nothing interrupts; the random index and the numbers that `fetch_add` returns are its input.
use mvcc_lite.Prelude.{◌-◌, ℕ, zero, suc, String, List, [], ◌∷◌, none, pos}
use mvcc_lite.Prelude.Text.{concat, to_string}
use mvcc_lite.Status.{Code}
use mvcc_lite.KvStore as Kv
use mvcc_lite.KvStore.{KvStore}
use mvcc_lite.VersionStore as Store
use mvcc_lite.VersionStore.Defs.{VersionStore}
use mvcc_lite.TransactionManager.{begin}
use mvcc_lite.Transaction as Txn
use mvcc_lite.Transaction.{Engine, Ended, commit, destroy}
use mvcc_lite.Retry.{Body, run_with_retry}
use mvcc_lite.GarbageCollector.{GarbageCollector, run_once}

-- A writer's turn has the numbers that its attempts take; the baseline takes the first of them.
pub data Turn : Type 0 where
  reads : ℕ → Turn
  writes : ℕ → (ℕ → ℕ) → Turn
  collects : Turn

abbrev pub key_name : ℕ → String
key_name i = concat "key" (to_string i)

-- The value that the counter's number makes.
abbrev pub value_text : ℕ → String
value_text number = concat "v" (to_string number)

-- The code that a reader's `Get` returns, and its `value` afterwards.
abbrev pub Reading : Type 0
Reading = Code × String

-- The loop that fills the store, with `n` keys to go from index `i` on.
unfoldable pub kv_fill : ℕ → ℕ → KvStore → KvStore
kv_fill zero i s = s
kv_fill (suc n) i s = kv_fill n (suc i) (Kv.put s (key_name i) "init").1

unfoldable pub kv_reader : ℕ → KvStore → Reading
kv_reader i s = let r = Kv.get s (key_name i) "" in (r.0.code, r.1)

unfoldable pub kv_writer : ℕ → ℕ → KvStore → KvStore
kv_writer i number s = (Kv.put s (key_name i) (value_text number)).1

-- What the readers see over some turns.
unfoldable pub kv_run : KvStore → List Turn → List Reading
kv_run s [] = []
kv_run s (reads i ∷ turns) = kv_reader i s ∷ kv_run s turns
kv_run s (writes i numbers ∷ turns) = kv_run (kv_writer i (numbers 0) s) turns
kv_run s (collects ∷ turns) = kv_run s turns

unfoldable pub mvcc_fill : ℕ → ℕ → VersionStore → VersionStore
mvcc_fill zero i s = s
mvcc_fill (suc n) i s = mvcc_fill n (suc i) (Store.put s (key_name i) "init" none).1

unfoldable pub mvcc_reader : ℕ → Engine → Reading × Engine
mvcc_reader i e =
    let (manager, t) = begin e.store e.manager in
    let r = Txn.get e.store t (key_name i) "" in
    let ended : Ended = commit (record e { manager = manager }) t none none in
    ((r.0.code, r.1), destroy ended.engine ended.txn)

-- The function that `RunWithRetry` gets. What it reads is not used. Each attempt takes a number of its
-- own from the counter; the attempt with the transaction `first + k` takes `numbers k`.
unfoldable pub writer_fn : ℕ → (ℕ → ℕ) → ℕ → Body
writer_fn i numbers first e t =
    let (s, t') = Txn.put t (key_name i) (value_text (numbers (t.txn_id - first))) in (s, e, t')

-- The first attempt has the identifier that is next.
unfoldable pub mvcc_writer : ℕ → (ℕ → ℕ) → Engine → Engine
unfolding writer_fn
mvcc_writer i numbers e = (run_with_retry (writer_fn i numbers e.manager.next_txn_id) (pos 32) e).1

unfoldable pub mvcc_run : Engine → GarbageCollector → List Turn → List Reading
mvcc_run e g [] = []
mvcc_run e g (reads i ∷ turns) =
    let (reading, e') = mvcc_reader i e in reading ∷ mvcc_run e' g turns
mvcc_run e g (writes i numbers ∷ turns) = mvcc_run (mvcc_writer i numbers e) g turns
mvcc_run e g (collects ∷ turns) = let (e', g', _) = run_once e g in mvcc_run e' g' turns
