-- ===== src/System/Books.antt =====
-- The versions that the threads write and the passes reclaim, wherever their steps fall.
use mvcc_lite.Prelude.{ℕ, ◌+◌, ◌<◌, ◌≡◌, refl, ap, [], ◌∷◌, ◌++◌, true, length, arith, u64_mod}
use mvcc_lite.Status.{is_ok}
use mvcc_lite.VersionStore.Defs.{VersionStore}
use mvcc_lite.VersionStore.{key_count}
use mvcc_lite.VersionStore.Collection.{collect_garbage}
use mvcc_lite.VersionStore.Garbage.{total_versions, collect_garbage-counts}
use mvcc_lite.VersionStore.Invariant.{Call}
use mvcc_lite.VersionStore.Timeline.{status, effect}
use mvcc_lite.VersionStore.Runs.{advances}
use mvcc_lite.GarbageCollector.Account.{is_write, step-total_versions, key_count-total_versions}
use mvcc_lite.System.{
  System, running, engine, Step, IsDirect, direct_put, direct_delete, direct_batch, Reach, wrote,
  commit_call,
}
use mvcc_lite.System.Log.{Log}
use mvcc_lite.System.Moves.{commit-step}
use mvcc_lite.System.Calm.{direct_lem}
use mvcc_lite.System.Invariant.{Owned, Reach-Owned, at-Stands}

-- All writes of the log.
unfoldable pub size : Log → ℕ
size [] = 0
size (ops ∷ log) = length ops + size log

-- The count that a pass returns, in the step in which it collects.
abbrev pub reclaimed_by : {s t : System} {wrote : Log} → Step s wrote t → ℕ
reclaimed_by {s} (Step.reclaims p b e) = (collect_garbage s.store b).1.versions_reclaimed
reclaimed_by _ = 0

-- What the passes of an execution have returned in all.
abbrev pub reclaimed : {log : Log} {s : System} → Reach log s → ℕ
reclaimed Reach.start = 0
reclaimed (Reach.next r st) = reclaimed r + reclaimed_by st

size-append : (log more : Log) → size (log ++ more) ≡ size log + size more
unfolding size
size-append [] more = omega arith
size-append (ops ∷ log) more = omega (arith, size-append log more)

size-wrote :
    (s : VersionStore) (c : Call)
    → advances s c ≡ is_ok (status s c)
    → size (wrote s c) ≡ length (effect s c)
unfolding size
size-wrote s c adv = ground (arith, adv)

direct-is_write : (c : Call) → IsDirect c → is_write c ≡ true
direct-is_write _ (direct_put key value) = refl
direct-is_write _ (direct_delete key) = refl
direct-is_write _ (direct_batch ops) = refl

reclaims-total_versions :
    (s : System) (b : ℕ)
    → Owned s
    → total_versions s.store.table < u64_mod
    → (collect_garbage s.store b).1.versions_reclaimed
        + total_versions (collect_garbage s.store b).0.table
      ≡ total_versions s.store.table
unfolding key_count
reclaims-total_versions s b o p =
    let keys = key_count-total_versions s.store.next_version s.store.table o.store.entries in
    (collect_garbage-counts s.store b o.store p (omega arith)).0

-- Each step adds as many versions as it writes, and takes as many as its pass returns.
Step-total_versions :
    {s t : System} {wrote : Log} (st : Step s wrote t)
    → Owned s
    → total_versions s.store.table < u64_mod
    → reclaimed_by st + total_versions t.store.table ≡ total_versions s.store.table + size wrote
unfolding size
Step-total_versions (Step.fetches i e room) o p = omega arith
Step-total_versions (Step.places i id e) o p = omega arith
Step-total_versions (Step.pins i id e) o p = omega arith
Step-total_versions (Step.refines i id version e) o p = omega arith
Step-total_versions (Step.buffers_put i t key value e) o p = omega arith
Step-total_versions (Step.buffers_delete i t key e) o p = omega arith
Step-total_versions {s} (Step.commits i t e room) o p =
    let st = at-Stands s i (running t) o e in
    omega (
      arith,
      ap (λ (store : VersionStore). total_versions store.table) (commit-step (engine s) t st.2),
      step-total_versions s.store (commit_call t) refl,
      size-wrote s.store (commit_call t) refl,
    )
Step-total_versions (Step.aborts i t e) o p = omega arith
Step-total_versions (Step.drops i t e) o p = omega arith
Step-total_versions (Step.unregisters i release t e) o p = omega arith
Step-total_versions {s} (Step.calls c d room) o p = omega (
  arith,
  step-total_versions s.store c (direct-is_write c d),
  size-wrote s.store c (direct_lem s.store c d).0,
)
Step-total_versions (Step.gets i t key out e) o p = omega arith
Step-total_versions (Step.gets_now key out version) o p = omega arith
Step-total_versions (Step.starts q e) o p = omega arith
Step-total_versions (Step.scans q i acc e h) o p = omega arith
Step-total_versions (Step.bounds q acc e) o p = omega arith
Step-total_versions {s} (Step.reclaims q b e) o p = omega (arith, reclaims-total_versions s b o p)

-- The books balance in every execution, calm or not: however commits, direct calls and passes
-- interleave, the versions that the passes have returned as reclaimed, and those that the store
-- holds, are together as many as the writes in the log, while these are fewer than 2^64.
pub Reach-total_versions :
    {log : Log} {s : System} (r : Reach log s)
    → size log < u64_mod
    → reclaimed r + total_versions s.store.table ≡ size log
unfolding size
Reach-total_versions Reach.start p = unfold total_versions in refl
Reach-total_versions (Reach.next {log} {wrote} r st) p =
    let more = size-append log wrote in
    let before = Reach-total_versions r (omega (arith, more)) in
    omega
      (arith, more, before, Step-total_versions st (Reach-Owned r) (omega (arith, before, more)))
