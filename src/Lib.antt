-- ===== src/Lib.antt =====
-- mvcc-lite: an in-memory key-value store with multi-version concurrency control.
--
-- The parts of the program, the files that model them, and how they interact:
--
-- KvStore models the baseline, include/mvcc/kv_store.h and src/kv_store.cpp: one value for each key.
-- VersionStore models include/mvcc/version_store.h and src/version_store.cpp: a history of versions
-- for each key, numbered by one counter, with reads at a version, batches, batches that are validated
-- against a snapshot (ApplyBatchIfNoConflict), and garbage collection.
-- TransactionManager and Transaction model include/mvcc/transaction.h and src/transaction.cpp. The
-- manager gives a transaction its identifier and its snapshot and registers the snapshot in one of 16
-- shards. A transaction buffers its writes, reads through its buffer and its snapshot, and commits
-- with one validated batch.
-- Retry models RunWithRetry of src/transaction.cpp.
-- GarbageCollector models include/mvcc/gc.h and src/gc.cpp: a pass asks the manager for the oldest
-- active snapshot and lets the store collect up to it, on demand or in a background thread.
-- System puts the classes together: any number of threads, each of which uses a transaction,
-- reads or writes the store directly, or runs a pass of the collector, interleaved at the locks (Step,
-- Reach). The abstract view of the store is the log of all batches that were written (System/Log): version n is
-- what the first n of them make. A calm execution is one in which no transaction registers its
-- placeholder in a shard that a pass under way has scanned already; System/Interrupted has executions
-- that are not calm, with the interleaving of GarbageCollector/Race. System/Truth has the invariant of
-- all executions, calm or not.
-- System/Spec is the abstract specification of all that: it has the log, and for each thread whether
-- it is in a transaction, with its version and its buffer, and says what a thread is told. It has no
-- shards, placeholders, collectors or counters; System/Refinement relates the two.
-- Benchmark models bench/bench_mvcc_vs_kv.cpp: its statistics (Stats), the fill and the bodies of its
-- two workloads (Workload), the threads and the collector of a run (Loops), RunKVStoreWorkload and
-- RunMVCCWorkload as a whole (Runs), and the trials, the scenarios and the lines that main prints
-- (Report). double is the interface Double of Benchmark/Numbers: a total order, with the ratios of the
-- three percentiles as parameters. Benchmark/Concurrent has the readers of the benchmark as threads of
-- System.
-- Status models include/mvcc/status.h. UnorderedMap is std::unordered_map as an association list;
-- Prelude holds numbers, strings and lists. Examples has the theorems at concrete inputs, and tests.
--
-- The state of a class is a record with the fields of the class; a method is a function with the name
-- of the method in snake_case that takes the state and returns it with the result. A pointer for an
-- output is an Option: none is a null pointer, and some x points to x. An output that is a reference
-- to a string is its content before the call, and the result has its content after it. uint64_t and
-- size_t are natural numbers with the wrap-around written out (u64_add, u64_sub).
--
-- Each method of the two stores holds its mutex for all that it reads and writes, so that a method
-- is one step and histories of calls are lists of steps. Begin and OldestActiveSnapshot take
-- several locks one after the other: their parts are functions of their own, from which System and
-- GarbageCollector/Scan put the interleavings together, and GarbageCollector/Race one in which a
-- transaction begins after the scan; begin, oldest_active_snapshot and run_once are the whole of
-- them without interruption (System/Alone). Commit, Abort and the destructor end in two steps: in
-- the first Commit has its answer of the store, and the second is what the method does to the
-- manager (commit_release, abort_release, destroy_release). A turn of the benchmark is a call of a
-- body, or a pass, that nothing interrupts; its random index and the numbers that its attempts take
-- from the counter are inputs of the turn. What happens in a run of the benchmark is a list of such
-- turns (Sample), each with the thread that made it and the time that it took, up to the moment
-- when the threads see stop; this list and the time that passed are the input of the run
-- (Measured). The lines that are printed are values (Line).
--
-- Bounds and fuel: theorems on histories of calls suppose that the counter of versions has a number
-- left for each call, and say so in a hypothesis; a step of System that takes a number has that as
-- a premise. The binary search (bisect) runs on fuel, one more than the length of the range, of
-- which each round leaves less. StopBackground waits on fuel: the pass under way, the wait after
-- it, and the look at the thread that has returned make three rounds. RunWithRetry recurs on the
-- number of attempts that are left.
--
-- Not modelled: the order in which a hash table iterates, beyond that of the list (but see
-- Transaction/Order for a commit); memory and allocation failure; real time: what the clocks and the
-- random numbers of the benchmark return is input; the text that printf makes of a line; the steps of
-- the collector's thread during the fill of the benchmark; the tests and the build files.
pub mod Prelude
pub mod UnorderedMap
pub mod Status
pub mod KvStore
pub mod VersionStore
pub mod Transaction
pub mod TransactionManager
pub mod Retry
pub mod GarbageCollector
pub mod System
pub mod Benchmark
pub mod Examples
