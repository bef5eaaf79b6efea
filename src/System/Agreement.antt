-- ===== src/System/Agreement.antt =====
-- The store against the log of all that was written: they agree from some version on, below which
-- garbage may have been collected.
use mvcc_lite.Prelude.{
  ℕ, zero, suc, ◌+◌, ◌≤◌, ◌<◌, ◌≡◌, refl, sym, ◌∙◌, String, List, [], ◌∷◌, ◌++◌, Option, none, Bool,
  true, false, ◌||◌, if◌then◌else◌, leb, ltb, length, take, drop, length-append, arith, Bool-cases,
  inl, inr, u64_mod, u64_add,
}
use mvcc_lite.Status.{is_ok}
use mvcc_lite.VersionStore.Defs.{VersionStore, WriteOp}
use mvcc_lite.VersionStore.Collection.{collect_garbage}
use mvcc_lite.VersionStore.Invariant.{IsValid, Call, step}
use mvcc_lite.VersionStore.Snapshot.{snapshot, overlay}
use mvcc_lite.VersionStore.Timeline.{
  status, writes, horizon, step-snapshot, collect_garbage-snapshot,
}
use mvcc_lite.VersionStore.Races.{newer, writes_key, step-Validated, collect_garbage-Validated}
use mvcc_lite.VersionStore.Runs.{advances, step-next_version}
use mvcc_lite.VersionStore.Outcome.{step_failed}
use mvcc_lite.System.{wrote}
use mathlib.Core.List.{append-nil}
use mvcc_lite.System.Log.{Log, replay, touches, contents, touched_after}

pub replay-take-push :
    (log : Log) (ops : List WriteOp) (n : ℕ) (k : String) (v : Option String)
    → replay (take n (log ++ ops ∷ [])) k v ≡ (
        if ltb (length log) n
        then overlay ops k (replay (take n log) k v)
        else replay (take n log) k v)
unfolding replay
replay-take-push [] ops zero k v = ground arith
replay-take-push [] ops (suc zero) k v = ground arith
replay-take-push [] ops (suc (suc n)) k v = ground arith
replay-take-push (w ∷ log) ops zero k v = ground arith
replay-take-push (w ∷ log) ops (suc n) k v =
    ground (arith, replay-take-push log ops n k (overlay w k v))

pub touches-drop-push :
    (log : Log) (ops : List WriteOp) (n : ℕ) (k : String)
    → touches (drop n (log ++ ops ∷ [])) k ≡ (
        if writes_key k ops
        then leb n (length log) || touches (drop n log) k
        else touches (drop n log) k)
unfolding touches
touches-drop-push [] ops zero k = ground arith
touches-drop-push [] ops (suc zero) k = ground arith
touches-drop-push [] ops (suc (suc n)) k = ground arith
touches-drop-push (w ∷ log) ops zero k = ground (arith, touches-drop-push log ops zero k)
touches-drop-push (w ∷ log) ops (suc n) k = ground (arith, touches-drop-push log ops n k)

touches-drop_late :
    (log : Log) (n : ℕ) (k : String) → length log ≤ n → touches (drop n log) k ≡ false
unfolding touches
touches-drop_late [] zero k p = refl
touches-drop_late [] (suc n) k p = refl
touches-drop_late (w ∷ log) zero k p = absurd (omega arith)
touches-drop_late (w ∷ log) (suc n) k p = touches-drop_late log n k (omega arith)

-- From version `floor` on, the store shows what the log has, and counts the same keys as written
-- afterwards.
pub record Agrees (floor : ℕ) (log : Log) (s : VersionStore) : Type 0 where
  pub counter : s.next_version ≡ suc (length log)
  pub shows : (n : ℕ) (k : String) → floor ≤ n → snapshot s n k ≡ contents log n k
  pub knows : (n : ℕ) (k : String) → floor ≤ n → newer s n k ≡ touched_after log n k

shows-push :
    (log : Log) (ops : List WriteOp) (next n : ℕ) (k : String) (x x' : Option String)
    → next ≡ suc (length log)
    → x ≡ contents log n k
    → x' ≡ (if leb next n then overlay ops k x else x)
    → x' ≡ contents (log ++ ops ∷ []) n k
shows-push log ops next n k x x' c a e = ground (arith, replay-take-push log ops n k none)

knows-push :
    (log : Log) (ops : List WriteOp) (next n : ℕ) (k : String) (x x' : Bool)
    → next ≡ suc (length log)
    → x ≡ touched_after log n k
    → x' ≡ (if writes_key k ops then ltb n next else x)
    → x' ≡ touched_after (log ++ ops ∷ []) n k
knows-push log ops next n k x x' c a e =
    ground (arith, touches-drop-push log ops n k, touches-drop_late log n k)

-- A call that does not collect keeps the agreement, with its writes added to the log.
pub step-Agrees :
    (floor : ℕ) (log : Log) (s : VersionStore) (c : Call)
    → advances s c ≡ is_ok (status s c)
    → horizon c ≤ floor
    → s.next_version + 1 < u64_mod
    → IsValid s
    → Agrees floor log s
    → Agrees floor (log ++ wrote s c) (step s c)
step-Agrees floor log s c adv h p v a = elim (Bool-cases (advances s c)) [
  | inl moved ↦
      let good : is_ok (status s c) ≡ true = sym adv ∙ moved in
      let e : (step s c).next_version ≡ u64_add s.next_version 1 =
        rw moved at (step-next_version s c) in
      rw moved (record {
        counter = omega (arith, a.counter, length-append log (writes c ∷ []));
        shows = λ n k q.
            shows-push log (writes c) s.next_version n k (snapshot s n k) _ a.counter
              (a.shows n k q) (rw good at (step-snapshot s c n k v (omega arith)));
        knows = λ n k q.
            knows-push log (writes c) s.next_version n k (newer s n k) _ a.counter (a.knows n k q)
              (rw good at (step-Validated s c n k v (omega arith)));
      })
  | inr stayed ↦
      let bad : is_ok (status s c) ≡ false = sym adv ∙ stayed in
      rw (stayed, append-nil, step_failed s c bad) a
]

-- A collection keeps it from its boundary on.
pub collect_garbage-Agrees :
    (floor floor' b : ℕ) (log : Log) (s : VersionStore)
    → floor ≤ floor'
    → b ≤ floor'
    → IsValid s
    → Agrees floor log s
    → Agrees floor' log (collect_garbage s b).0
collect_garbage-Agrees floor floor' b log s p q v a = record {
  counter = unfold collect_garbage in a.counter;
  shows = λ n k r. collect_garbage-snapshot s b n k v (omega arith) ∙ a.shows n k (omega arith);
  knows = λ n k r. collect_garbage-Validated s b n k v (omega arith) ∙ a.knows n k (omega arith);
}
