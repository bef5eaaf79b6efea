-- ===== src/Benchmark/Concurrent.antt =====
-- The readers and the writers of `RunMVCCWorkload` as threads that interleave at the locks.
use mathlib.Core.List.{append-nil, append_assoc}
use mvcc_lite.Prelude.{
  Bool-cases, Option-cases, ℕ, zero, suc, ◌+◌, ◌≤◌, ◌<◌, ◌≡◌, refl, String, List, [], ◌∷◌, ◌++◌,
  Option, none, some, ◌==◌, string_key, arith, u64_mod, take, ◌⊎◌, inl, inr,
}
use mvcc_lite.Status.{k_ok}
use mvcc_lite.UnorderedMap.{find}
use mvcc_lite.UnorderedMap.Laws.{Entries, Entries-find}
use mvcc_lite.VersionStore as Store
use mvcc_lite.VersionStore.Defs.{WriteOp}
use mvcc_lite.VersionStore.Timeline.{status}
use mvcc_lite.VersionStore.Snapshot.{last_write, overlay}
use mvcc_lite.Transaction.Defs.{Transaction}
use mvcc_lite.Transaction.{get}
use mvcc_lite.System.{System, running, wrote, Step, direct_put}
use mvcc_lite.System.Log.{Log, replay}
use mvcc_lite.System.Calm.{CalmReach}
use mvcc_lite.System.Isolation.{sees, CalmReach-get}
use mvcc_lite.Benchmark.Workload.{key_name, mvcc_fill}
use mvcc_lite.Benchmark.Alike.{key_name_named}
use mvcc_lite.Benchmark.Agreement.{put_init, init_call, put_init_lem}

-- What the fill writes, with `n` keys to go from index `i` on.
unfoldable pub fill_log : ℕ → ℕ → Log
fill_log zero i = []
fill_log (suc n) i = (record { key = key_name i; value = some "init" } ∷ []) ∷ fill_log n (suc i)

-- There is a value, and no deletion.
abbrev pub Shows : Option String → Type 0
Shows o = (v : String) × (o ≡ some v)

abbrev pub PutsOnly : List WriteOp → Type 0
PutsOnly [] = Unit
PutsOnly (op ∷ ops) = Shows op.value × PutsOnly ops

abbrev pub AllPutsOnly : Log → Type 0
AllPutsOnly [] = Unit
AllPutsOnly (ops ∷ log) = PutsOnly ops × AllPutsOnly log

overlay-Shows :
    (k : String) (ops : List WriteOp) (before : Option String)
    → PutsOnly ops
    → Shows before
    → Shows (overlay ops k before)
overlay-Shows k ops before h b = elim (last_write-cases ops h) [
  | inl e ↦ rw (e, overlay) b
  | inr (v, e) ↦ rw (e, overlay) (v, refl)
]
  where
    last_write-cases :
        (ops : List WriteOp)
        → PutsOnly ops
        → (last_write k ops ≡ none) ⊎ ((v : String) × (last_write k ops ≡ some (some v)))
    last_write-cases [] h = inl refl
    last_write-cases (op ∷ ops) ((v, e), h) = elim (last_write-cases ops h) [
      | inl none_ ↦ elim (Bool-cases (op.key == k)) [
        | inl here ↦ inr (v, ground (arith, none_, here, e))
        | inr other ↦ inl (ground (arith, none_, other))
      ]
      | inr (w, e') ↦ inr (w, rw e' refl)
    ]

replay-Shows :
    (log : Log) (k : String) (v : Option String)
    → AllPutsOnly log
    → Shows v
    → Shows (replay log k v)
unfolding replay
replay-Shows [] k v h b = b
replay-Shows (ops ∷ log) k v h b =
    replay-Shows log k (overlay ops k v) h.1 (overlay-Shows k ops v h.0 b)

take-AllPutsOnly : (m : ℕ) (log : Log) → AllPutsOnly log → AllPutsOnly (take m log)
take-AllPutsOnly zero log h = tt
take-AllPutsOnly (suc m) [] h = tt
take-AllPutsOnly (suc m) (ops ∷ log) h = (h.0, take-AllPutsOnly m log h.1)

fill_log-AllPutsOnly :
    (n i : ℕ) (more : Log) → AllPutsOnly more → AllPutsOnly (fill_log n i ++ more)
unfolding fill_log
fill_log-AllPutsOnly zero i more h = h
fill_log-AllPutsOnly (suc n) i more h =
    ((("init", refl), tt), fill_log-AllPutsOnly n (suc i) more h)

fill_log-Shows :
    (n i m j : ℕ) (more : Log) (v : Option String)
    → i ≤ j
    → j < i + n
    → n ≤ m
    → AllPutsOnly more
    → Shows (replay (take m (fill_log n i ++ more)) (key_name j) v)
unfolding fill_log replay
fill_log-Shows zero i m j more v p q r h = absurd (omega arith)
fill_log-Shows (suc n) i zero j more v p q r h = absurd (omega arith)
fill_log-Shows (suc n) i (suc m) j more v p q r h = elim (nat_le-cases i j p) [
  | inl here ↦
      replay-Shows (take m (fill_log n (suc i) ++ more)) (key_name j)
        (overlay (record { key = key_name i; value = some "init" } ∷ []) (key_name j) v)
        (take-AllPutsOnly m _ (fill_log-AllPutsOnly n (suc i) more h))
        ("init", rw here (ground (arith, (string_key.same_iff (key_name j) (key_name j)).1 refl)))
  | inr later ↦ fill_log-Shows n (suc i) m j more _ later (omega arith) (omega arith) h
]
  where
    nat_le-cases : (i j : ℕ) → i ≤ j → (i ≡ j) ⊎ (i < j)
    nat_le-cases i j p = omega arith

sees-Shows :
    (n j : ℕ) (log : Log) (t : Transaction)
    → j < n
    → n ≤ t.snapshot_version
    → AllPutsOnly log
    → Entries (λ _ value. Shows value) t.write_set
    → Shows (sees (fill_log n 0 ++ log) t (key_name j))
sees-Shows n j log t p q h own = elim (Option-cases (find (key_name j) t.write_set)) [
  | inl e ↦
      rw (e, sees)
        (fill_log-Shows n 0 t.snapshot_version j log none (omega arith) (omega arith) q h)
  | inr (o, e) ↦ rw (e, sees) (Entries-find (λ _ value. Shows value) (key_name j) t.write_set own e)
]

-- A transaction that begins after the fill of `n` keys finds each of them, at any point of any calm
-- execution, whatever the other threads put and the collectors reclaim in between: `Get` returns
-- `OK`. Nothing has deleted a key, neither in the log since the fill nor in the transaction's own
-- write set.
pub CalmReach-finds :
    (n : ℕ) (log : Log) (s : System) (i j : ℕ) (t : Transaction) (out : String)
    → CalmReach (fill_log n 0 ++ log) s
    → s.clients i ≡ running t
    → n ≤ t.snapshot_version
    → j < n
    → AllPutsOnly log
    → Entries (λ _ value. Shows value) t.write_set
    → (get s.store t (key_name j) out).0.code ≡ k_ok
CalmReach-finds n log s i j t out r e begun p h own =
    let (v, shown) = sees-Shows n j log t p begun h own in
    let (code, _) =
      CalmReach-get (fill_log n 0 ++ log) s i t (key_name j) out r e (key_name_named j) in
    rw shown at code

-- The loop that fills the store is a calm execution, which writes what `fill_log` says.
pub fill-CalmReach :
    (n i : ℕ) (log : Log) (s : System)
    → s.store.next_version + n < u64_mod
    → CalmReach log s
    → CalmReach (log ++ fill_log n i) (record s { store = mvcc_fill n i s.store })
unfolding fill_log mvcc_fill
fill-CalmReach zero i log s p r = rw append-nil r
fill-CalmReach (suc n) i log s p r =
    let room : s.store.next_version + 1 < u64_mod = omega arith in
    let (next, same) = put_init_lem i s.store room in
    let written : wrote s.store (init_call i)
        ≡ (record { key = key_name i; value = some "init" } ∷ []) ∷ [] =
      unfold status Store.put in ground (arith, key_name_named i) in
    let there : CalmReach (log ++ ((record { key = key_name i; value = some "init" } ∷ []) ∷ []))
        (record s { store = put_init i s.store }) =
      rw (same, ← written) (CalmReach.next r (Step.calls (init_call i) (direct_put _ _) room) tt) in
    rw append_assoc at (
      fill-CalmReach n (suc i) _ (record s { store = put_init i s.store }) (omega (arith, next))
        there)
