-- ===== src/Benchmark/Reads.antt =====
-- What the readers of the benchmark find.
use mvcc_lite.Prelude.{
  ◌⊎◌, inl, inr, ℕ, zero, suc, ◌+◌, ◌<◌, ◌≡◌, refl, String, List, [], ◌∷◌, some, if◌then◌else◌,
  ◌==◌, string_key, arith, u64_mod, length,
}
use mvcc_lite.Status.{k_ok}
use mvcc_lite.UnorderedMap.{find}
use mvcc_lite.KvStore as Kv
use mvcc_lite.KvStore.{KvStore}
use mvcc_lite.VersionStore.Defs as StoreDefs
use mvcc_lite.TransactionManager as Manager
use mvcc_lite.GarbageCollector.{GarbageCollector}
use mvcc_lite.Benchmark.Workload.{
  Turn, reads, writes, collects, Reading, key_name, value_text, kv_run, kv_fill, kv_writer,
  mvcc_run, mvcc_fill,
}
use mvcc_lite.Benchmark.Turns.{kv_put-find, kv_reader_lem}
use mvcc_lite.Benchmark.Agreement.{kv_run-mvcc_run}

abbrev Present : ℕ → KvStore → Type 0
Present j s = (v : String) × (find (key_name j) s.table ≡ some v)

put-Present :
    (i j : ℕ) (value : String) (s : KvStore)
    → Present j s
    → Present j (Kv.put s (key_name i) value).1
put-Present i j value s (v, e) = (
  if key_name i == key_name j then value else v,
  ground (arith, e, kv_put-find i value s (key_name j)),
)

put-Present_same :
    (i : ℕ) (value : String) (s : KvStore) → Present i (Kv.put s (key_name i) value).1
put-Present_same i value s = (
  value,
  ground (
    arith,
    kv_put-find i value s (key_name i),
    (string_key.same_iff (key_name i) (key_name i)).1 refl,
  ),
)

fill-Present :
    (n i : ℕ) (s : KvStore)
    → ((j : ℕ) → j < i → Present j s)
    → (j : ℕ) → j < i + n
    → Present j (kv_fill n i s)
unfolding kv_fill
fill-Present zero i s h j p = h j (omega arith)
fill-Present (suc n) i s h j p =
    fill-Present n (suc i) (Kv.put s (key_name i) "init").1
      (λ k q. elim (nat_le-cases k i q) [
        | inl below ↦ put-Present i k "init" s (h k below)
        | inr same ↦ rw same (put-Present_same i "init" s)
      ])
      j (omega arith)
  where
    nat_le-cases : (k i : ℕ) → k < suc i → (k < i) ⊎ (k ≡ i)
    nat_le-cases k i q = omega arith

-- Every index of the turns is below the size of the key space.
abbrev pub Within : ℕ → List Turn → Type 0
Within n [] = Unit
Within n (reads i ∷ turns) = (i < n) × Within n turns
Within n (writes i numbers ∷ turns) = (i < n) × Within n turns
Within n (collects ∷ turns) = Within n turns

abbrev pub AllOk : List Reading → Type 0
AllOk [] = Unit
AllOk ((code, value) ∷ readings) = (code ≡ k_ok) × AllOk readings

kv_run-AllOk :
    (n : ℕ) (turns : List Turn) (s : KvStore)
    → ((j : ℕ) → j < n → Present j s)
    → Within n turns
    → AllOk (kv_run s turns)
unfolding kv_run kv_writer
kv_run-AllOk n [] s h w = tt
kv_run-AllOk n (reads i ∷ turns) s h w =
    let (v, e) = h i w.0 in (rw (kv_reader_lem i s, e) refl, kv_run-AllOk n turns s h w.1)
kv_run-AllOk n (writes i numbers ∷ turns) s h w =
    kv_run-AllOk n turns (kv_writer i (numbers 0) s)
      (λ j p. put-Present i j (value_text (numbers 0)) s (h j p)) w.1
kv_run-AllOk n (collects ∷ turns) s h w = kv_run-AllOk n turns s h w

-- After the fill no reader of either stack misses its key, whatever the other turns write and
-- collect: every `Get` of the turns returns `OK`. No turn is interrupted by another, the indices are
-- those of the key space, and keys and turns together fit into 64 bits.
runs-AllOk :
    (n : ℕ) (turns : List Turn) (g : GarbageCollector)
    → n + length turns + 1 < u64_mod
    → Within n turns
    → AllOk (kv_run (kv_fill n 0 Kv.empty) turns)
      × AllOk (
          mvcc_run
            (record { store = mvcc_fill n 0 StoreDefs.empty; manager = Manager.init })
            g
            turns)
runs-AllOk n turns g p w =
    let kv =
      kv_run-AllOk n turns (kv_fill n 0 Kv.empty)
        (λ j q. fill-Present n 0 Kv.empty (λ k r. absurd (omega arith)) j (omega arith)) w in
    (kv, rw (kv_run-mvcc_run n turns g p) at kv)
