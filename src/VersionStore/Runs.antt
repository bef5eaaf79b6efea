-- ===== src/VersionStore/Runs.antt =====
-- Histories of operations of the store: what they do to snapshots and to validations.
use mvcc_lite.Prelude.{
  ℕ, ◌+◌, ◌≤◌, ◌<◌, ◌≡◌, ◌≢◌, refl, sym, ap, ◌∙◌, String, List, [], ◌∷◌, none, Bool, true, false,
  is_empty, arith, length, string_key, if◌then◌else◌, Bool-cases, inl, inr, u64_mod, u64_add,
}
use mvcc_lite.Status.{is_ok, is_conflict}
use mvcc_lite.VersionStore.Defs.{WriteOp, VersionStore}
use mvcc_lite.VersionStore.{
  put, delete, has_empty_key, apply_batch, apply_validated, conflicts, apply_batch_if_no_conflict,
  get_as_of,
}
use mvcc_lite.VersionStore.Collection.{collect_garbage}
use mvcc_lite.VersionStore.Invariant.{
  IsValid, step-IsValid, Call, puts, deletes, batches, validates, collects, step,
}
use mvcc_lite.VersionStore.Snapshot.{snapshot, get_as_of-Answers, code_for, value_or}
use mvcc_lite.VersionStore.Timeline.{status, writes, horizon, step-snapshot}
use mvcc_lite.VersionStore.Outcome.{apply_validated-conflict}
use mvcc_lite.VersionStore.Races.{newer, writes_key, step-Validated}

-- The call wrote a version.
abbrev pub advances : VersionStore → Call → Bool
advances s (collects b) = false
advances s c = is_ok (status s c)

apply_validated-next_version :
    (s : VersionStore) (ops : List WriteOp) (keys : List String)
    → (apply_validated s ops keys none none).1.next_version ≡ (
        if is_ok (apply_validated s ops keys none none).0
        then u64_add s.next_version 1
        else s.next_version)
apply_validated-next_version s ops [] = refl
apply_validated-next_version s ops (key ∷ keys) = refl

-- An operation that succeeds in writing uses up one version, whatever the number of its writes; no
-- other operation uses one up.
pub step-next_version :
    (s : VersionStore) (c : Call)
    → (step s c).next_version ≡ (if advances s c then u64_add s.next_version 1 else s.next_version)
unfolding step status
step-next_version s (puts key value) = unfold put in ground arith
step-next_version s (deletes key) = unfold delete in ground arith
step-next_version s (batches []) = unfold apply_batch in refl
step-next_version s (batches (op ∷ ops)) = unfold apply_batch in ground arith
step-next_version s (validates [] n) = unfold apply_batch_if_no_conflict in refl
step-next_version s (validates (op ∷ ops) n) =
    unfold apply_batch_if_no_conflict in
    ground (arith, apply_validated-next_version s (op ∷ ops) (conflicts n s.table (op ∷ ops)))
step-next_version s (collects b) = unfold collect_garbage in refl

pub step-next_version-bounds :
    (s : VersionStore) (c : Call)
    → s.next_version + 1 < u64_mod
    → (s.next_version ≤ (step s c).next_version) × ((step s c).next_version ≤ s.next_version + 1)
step-next_version-bounds s c p = elim (Bool-cases (advances s c)) [
  | inl moved ↦
      let e : (step s c).next_version ≡ u64_add s.next_version 1 =
        rw moved at (step-next_version s c) in
      omega arith
  | inr stayed ↦
      let e : (step s c).next_version ≡ s.next_version = rw stayed at (step-next_version s c) in
      omega arith
]

pub run : VersionStore → List Call → VersionStore
run s [] = s
run s (c ∷ cs) = run (step s c) cs

-- No garbage collection of the history reaches beyond `n`.
abbrev pub Spares : ℕ → List Call → Type 0
Spares n [] = Unit
Spares n (c ∷ cs) = (horizon c ≤ n) × Spares n cs

-- The counter has a number for each operation of the history.
abbrev pub HasRoom : VersionStore → List Call → Type 0
HasRoom s cs = s.next_version + length cs < u64_mod

step-HasRoom :
    (s : VersionStore) (c : Call) (cs : List Call) → HasRoom s (c ∷ cs) → HasRoom (step s c) cs
step-HasRoom s c cs r = omega (arith, step-next_version-bounds s c (omega arith))

run-IsValid : (s : VersionStore) (cs : List Call) → HasRoom s cs → IsValid s → IsValid (run s cs)
unfolding run
run-IsValid s [] r v = v
run-IsValid s (c ∷ cs) r v =
    run-IsValid (step s c) cs (step-HasRoom s c cs r) (step-IsValid s c (omega arith) v)

run-snapshot :
    (s : VersionStore) (cs : List Call) (n : ℕ) (k : String)
    → HasRoom s cs
    → IsValid s
    → n < s.next_version
    → Spares n cs
    → snapshot (run s cs) n k ≡ snapshot s n k
unfolding run
run-snapshot s [] n k r v p q = refl
run-snapshot s (c ∷ cs) n k r v p q =
    run-snapshot (step s c) cs n k (step-HasRoom s c cs r) (step-IsValid s c (omega arith) v)
      (omega (arith, step-next_version-bounds s c (omega arith))) q.1
    ∙ ground (arith, step-snapshot s c n k v q.0)

-- From a well-formed store, a reader of a non-empty key at a version that was given out reads the
-- same, in code and value, after any history of puts, deletes, batches, validated batches and
-- garbage collections whose boundaries are at or below that version, while the counter has a
-- number left for each.
pub run-get_as_of :
    (s : VersionStore) (cs : List Call) (key : String) (n : ℕ) (out : String)
    → HasRoom s cs
    → IsValid s
    → is_empty key ≡ false
    → n < s.next_version
    → Spares n cs
    → ((get_as_of (run s cs) key n out).0.code ≡ (get_as_of s key n out).0.code)
      × ((get_as_of (run s cs) key n out).1 ≡ (get_as_of s key n out).1)
run-get_as_of s cs key n out r v k p q =
    let later = get_as_of-Answers (run s cs) key n out (run-IsValid s cs r v) k in
    let now = get_as_of-Answers s key n out v k in
    let same = run-snapshot s cs n key r v p q in
    (later.0 ∙ ap code_for same ∙ sym now.0, later.1 ∙ ap (λ o. value_or o out) same ∙ sym now.1)

run-newer :
    (s : VersionStore) (cs : List Call) (snap : ℕ) (k : String)
    → HasRoom s cs
    → IsValid s
    → snap < s.next_version
    → Spares snap cs
    → newer s snap k ≡ true
    → newer (run s cs) snap k ≡ true
unfolding run
run-newer s [] snap k r v p q e = e
run-newer s (c ∷ cs) snap k r v p q e =
    run-newer (step s c) cs snap k (step-HasRoom s c cs r) (step-IsValid s c (omega arith) v)
      (omega (arith, step-next_version-bounds s c (omega arith))) q.1
      (ground (arith, step-Validated s c snap k v q.0))

newer-conflicts :
    (s : VersionStore) (snap : ℕ) (k : String) (ops : List WriteOp)
    → writes_key k ops ≡ true
    → newer s snap k ≡ true
    → conflicts snap s.table ops ≢ []
unfolding conflicts
newer-conflicts s snap k [] w e = cc
newer-conflicts s snap k (op ∷ ops) w e =
    λ none_left. ground (arith, string_key.same_iff op.key k, newer-conflicts s snap k ops)

-- A batch that writes a key whose last version in the store is newer than its snapshot is refused as
-- a conflict.
newer-conflict :
    (s : VersionStore) (snap : ℕ) (k : String) (ops : List WriteOp)
    → has_empty_key ops ≡ false
    → writes_key k ops ≡ true
    → newer s snap k ≡ true
    → is_conflict (status s (validates ops snap)) ≡ true
unfolding status apply_batch_if_no_conflict
newer-conflict s snap k [] h w e = cc
newer-conflict s snap k (op ∷ ops) h w e = ground (
  arith,
  apply_validated-conflict s (op ∷ ops) (conflicts snap s.table (op ∷ ops))
      (newer-conflicts s snap k (op ∷ ops) w e),
)

-- First committer wins, from a well-formed store: once a call has written a key, every later
-- validated batch with a snapshot that was given out before that call, with a write to the key and
-- no empty key, is refused as a conflict, whatever operations stand between, if no garbage
-- collection among them reaches beyond that snapshot and the counter has a number left for each.
pub first_committer_wins :
    (s : VersionStore) (c : Call) (cs : List Call) (k : String) (ops : List WriteOp) (snap : ℕ)
    → HasRoom s (c ∷ cs)
    → IsValid s
    → snap < s.next_version
    → Spares snap (c ∷ cs)
    → is_ok (status s c) ≡ true
    → writes_key k (writes c) ≡ true
    → has_empty_key ops ≡ false
    → writes_key k ops ≡ true
    → is_conflict (status (run (step s c) cs) (validates ops snap)) ≡ true
first_committer_wins s c cs k ops snap r v p q done w named w' =
    newer-conflict (run (step s c) cs) snap k ops named w' (
      run-newer (step s c) cs snap k (step-HasRoom s c cs r) (step-IsValid s c (omega arith) v)
        (omega (arith, step-next_version-bounds s c (omega arith))) q.1
        (ground (arith, step-Validated s c snap k v q.0)))
