-- ===== src/Benchmark.antt =====
-- bench/bench_mvcc_vs_kv.cpp: what it computes from its measurements, and its workloads.
pub mod Numbers
pub mod Sorting
pub mod Stats
pub mod Ranks
pub mod Trials
pub mod Workload
pub mod Alike
pub mod Turns
pub mod Concurrent
pub mod Balance
pub mod Samples
pub mod Outcome
pub mod Loops
pub mod Runs
pub mod Report
pub mod Rows
pub mod Blocks
pub mod Pages
pub mod Agreement
pub mod Reads
