-- ===== src/System/Calm.antt =====
-- Executions in which no `Begin` places its placeholder in a shard that a pass has scanned while
-- that pass still scans: from the scan of the shard up to the read of the current version.
use mvcc_lite.Prelude.{ℕ, ◌+◌, ◌≤◌, ◌<◌, ◌≡◌, refl, [], ◌++◌, arith, u64_mod}
use native.Mathlib.Decide.{ℕ_discrete}
use mvcc_lite.Status.{is_ok}
use mvcc_lite.VersionStore.Defs.{VersionStore}
use mvcc_lite.VersionStore.Invariant.{Call, puts, deletes, batches, validates, collects, step}
use mvcc_lite.VersionStore.Timeline.{status, horizon}
use mvcc_lite.VersionStore.Runs.{advances, step-next_version-bounds}
use mvcc_lite.TransactionManager.{shard_for, TransactionManager}
use mvcc_lite.System.{
  Reach, System, Client, idle, fetched, placed, pinned, running, leaving, update, Pass, resting,
  scanning, bounded, Step, IsDirect, init, wrote,
}
use mvcc_lite.System.Log.{Log}
use mvcc_lite.System.Agreement.{Agrees, step-Agrees}
use mvcc_lite.System.Ownership.{update-eq, update-ne}
use mvcc_lite.System.Invariant.{Owned}
use mvcc_lite.System.Guards.{Guards, InRange, InRange-widen}

-- The pass does not scan, or has the shard of the identifier still before it.
abbrev pub Outside : Pass → ℕ → Type 0
Outside resting id = Unit
Outside (scanning i acc) id = i ≤ shard_for id
Outside (bounded b) id = Unit

abbrev pub IsCalm : {s t : System} {wrote : Log} → Step s wrote t → Type 0
IsCalm {s} (Step.places i id e) = (p : ℕ) → Outside (s.passes p) id
IsCalm _ = Unit

-- The states that are reached by such executions, with all that was written on the way.
pub data CalmReach : Log → System → Type 0 where
  start : CalmReach [] init
  next :
      {log wrote : Log} {s t : System}
      → CalmReach log s
      → (st : Step s wrote t) → IsCalm st
      → CalmReach (log ++ wrote) t

pub CalmReach-Reach : {log : Log} {s : System} → CalmReach log s → Reach log s
CalmReach-Reach CalmReach.start = Reach.start
CalmReach-Reach (CalmReach.next r st calm) = Reach.next (CalmReach-Reach r) st

-- A snapshot that is in use is not below the floor.
abbrev pub IsHigh : ℕ → Client → Type 0
IsHigh floor idle = Unit
IsHigh floor (fetched id) = Unit
IsHigh floor (placed id) = Unit
IsHigh floor (pinned id snapshot) = floor ≤ snapshot
IsHigh floor (running t) = floor ≤ t.snapshot_version
IsHigh floor (leaving release t) = Unit

-- From the floor on the store agrees with the log, and no snapshot in use is below it or will be.
pub record IsSafe (log : Log) (s : System) (floor : ℕ) : Type 0 where
  pub below : floor < s.store.next_version
  pub agrees : Agrees floor log s.store
  pub high : (i : ℕ) → IsHigh floor (s.clients i)
  pub guards : (p i : ℕ) → Guards (s.passes p) (s.clients i)
  pub ranges : (p : ℕ) → InRange s.store.next_version (s.passes p)

pub update-all {ℓ κ} :
    {A : Type ℓ} (P : ℕ → A → Type κ) (f : ℕ → A) (i : ℕ) (a : A)
    → ((j : ℕ) → P j (f j))
    → P i a
    → (j : ℕ) → P j (update f i a j)
update-all P f i a h p j = elim (ℕ_discrete i j) [
  | yes here ↦ rw (update-eq f i j a here, ← here) p
  | no other ↦ rw (update-ne f i j a other) (h j)
]

-- A thread moves, and neither the store nor a pass does.
pub client-IsSafe :
    (log : Log) (s : System) (m : TransactionManager) (floor i : ℕ) (c : Client)
    → IsHigh floor c
    → ((p : ℕ) → Guards (s.passes p) c)
    → IsSafe log s floor
    → IsSafe log (record s { manager = m; clients = update s.clients i c }) floor
client-IsSafe log s m floor i c h g w = record {
  below = w.below;
  agrees = w.agrees;
  high = update-all (λ _ c'. IsHigh floor c') s.clients i c w.high h;
  guards = λ p. update-all (λ _ c'. Guards (s.passes p) c') s.clients i c (w.guards p) (g p);
  ranges = w.ranges;
}

-- A pass moves, and nothing else does.
pub pass-IsSafe :
    (log : Log) (s : System) (floor p : ℕ) (x : Pass)
    → InRange s.store.next_version x
    → ((i : ℕ) → Guards x (s.clients i))
    → IsSafe log s floor
    → IsSafe log (record s { passes = update s.passes p x }) floor
pass-IsSafe log s floor p x r g w = record {
  below = w.below;
  agrees = w.agrees;
  high = w.high;
  guards =
      λ q i. update-all (λ _ y. Guards y (s.clients i)) s.passes p x (λ j. w.guards j i) (g i) q;
  ranges = update-all (λ _ y. InRange s.store.next_version y) s.passes p x w.ranges r;
}

-- A call of the store that is not a collection of garbage.
pub call-IsSafe :
    (log : Log) (s : System) (floor : ℕ) (c : Call) (store' : VersionStore)
    → store' ≡ step s.store c
    → advances s.store c ≡ is_ok (status s.store c)
    → horizon c ≤ floor
    → s.store.next_version + 1 < u64_mod
    → Owned s
    → IsSafe log s floor
    → IsSafe (log ++ wrote s.store c) (record s { store = store' }) floor
call-IsSafe log s floor c store' e adv h p o w =
    let grows = (step-next_version-bounds s.store c p).0 in
    rw e (record {
      below = omega (arith, w.below);
      agrees = step-Agrees floor log s.store c adv h p o.store w.agrees;
      high = w.high;
      guards = w.guards;
      ranges = λ q. InRange-widen s.store.next_version _ (s.passes q) grows (w.ranges q);
    })

pub direct_lem :
    (s : VersionStore) (c : Call)
    → IsDirect c
    → (advances s c ≡ is_ok (status s c)) × (horizon c ≡ 0)
direct_lem s (puts key value) d = (refl, refl)
direct_lem s (deletes key) d = (refl, refl)
direct_lem s (batches ops) d = (refl, refl)
direct_lem s (validates ops n) d = (refl, refl)
direct_lem s (collects b) d = elim d [ ]
