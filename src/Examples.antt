-- ===== src/Examples.antt =====
-- The theorems at work on a store with a few versions and a few transactions, and some tests of the
-- definitions.
pub mod Store
pub mod Transactions
pub mod Commits
pub mod Collector
pub mod Books
pub mod Retries
pub mod Threads
pub mod Endings
pub mod Measurements
pub mod Runs
pub mod Workloads
pub mod Baseline
