-- ===== src/System/Log.antt =====
-- The abstract view of the store: the list of all batches that were written, the oldest first. The
-- version `n` is the state after the first `n` of them.
use mvcc_lite.Prelude.{ℕ, List, [], ◌∷◌, String, Option, none, Bool, false, ◌||◌, take, drop}
use mvcc_lite.VersionStore.Defs.{WriteOp}
use mvcc_lite.VersionStore.Snapshot.{overlay}
use mvcc_lite.VersionStore.Races.{writes_key}

abbrev pub Log : Type 0
Log = List (List WriteOp)

-- The value of the key after the batches, from the value before.
unfoldable pub replay : Log → String → Option String → Option String
replay [] k v = v
replay (ops ∷ log) k v = replay log k (overlay ops k v)

-- One of the batches writes the key.
unfoldable pub touches : Log → String → Bool
touches [] k = false
touches (ops ∷ log) k = writes_key k ops || touches log k

-- What version `n` holds, and whether the key was written after it.
abbrev pub contents : Log → ℕ → String → Option String
contents log n k = replay (take n log) k none

abbrev pub touched_after : Log → ℕ → String → Bool
touched_after log n k = touches (drop n log) k
