-- ===== src/System/Truth.antt =====
-- The store against the log in every execution, also where a pass of the collector misses a
-- transaction that begins while it scans.
use mathlib.Core.List.{append-nil}
use mvcc_lite.Prelude.{
  ℕ, suc, ◌+◌, ◌<◌, ◌≡◌, refl, sym, ◌∙◌, String, List, [], ◌∷◌, ◌++◌, Option, none, true, false,
  if◌then◌else◌, leb, length, string_key, arith, u64_mod, inl, inr, Bool-cases, Option-cases,
}
use mvcc_lite.Status.{is_ok}
use mvcc_lite.VersionStore.Defs.{VersionStore, WriteOp}
use mvcc_lite.VersionStore.Collection.{collect_garbage}
use mvcc_lite.VersionStore.Invariant.{IsValid, Call, step}
use mvcc_lite.VersionStore.Snapshot.{snapshot, overlay, last_write}
use mvcc_lite.VersionStore.Timeline.{status, writes, horizon, step-snapshot}
use mvcc_lite.VersionStore.Runs.{advances, step-next_version-bounds}
use mvcc_lite.VersionStore.Outcome.{step_failed}
use mvcc_lite.VersionStore.Loss.{SameOrNone, collect_garbage-SameOrNone, collect_garbage-newer}
use mvcc_lite.VersionStore.Races.{newer, step-Validated}
use mvcc_lite.System.Log.{touched_after}
use mvcc_lite.TransactionManager.{k_num_shards}
use mvcc_lite.System.{
  System, running, update, engine, Pass, resting, bounded, Step, Reach, wrote, commit_call, init,
}
use mvcc_lite.System.Log.{Log, contents}
use mvcc_lite.System.Agreement.{
  touches-drop-push, Agrees, step-Agrees, collect_garbage-Agrees, replay-take-push,
}
use mvcc_lite.System.Moves.{commit-step}
use mvcc_lite.System.Invariant.{Owned, init-Owned, Step-Owned, at-Stands}
use mvcc_lite.System.Guards.{InRange, InRange-widen, scan_shard-InRange, boundary_of-InRange}
use mvcc_lite.System.Calm.{update-all, direct_lem}
use mvcc_lite.System.Safety.{max, init-IsSafe}

-- From the floor on, which is not above the current version, the store has what was written; below
-- it a key can have lost its value, and has no other.
pub record IsTrue (log : Log) (store : VersionStore) (passes : ℕ → Pass) : Type 0 where
  pub floor : ℕ
  pub below : floor < store.next_version
  pub agrees : Agrees floor log store
  pub ranges : (p : ℕ) → InRange store.next_version (passes p)
  pub never_wrong : (n : ℕ) (k : String) → SameOrNone (snapshot store n k) (contents log n k)
  pub never_early : (n : ℕ) (k : String) → newer store n k ≡ true → touched_after log n k ≡ true

push-SameOrNone :
    (log : Log) (ops : List WriteOp) (next n : ℕ) (k : String) (x x' : Option String)
    → next ≡ suc (length log)
    → SameOrNone x (contents log n k)
    → x' ≡ (if leb next n then overlay ops k x else x)
    → SameOrNone x' (contents (log ++ ops ∷ []) n k)
push-SameOrNone log ops next n k x x' c (inl a) e =
    inl (ground (arith, replay-take-push log ops n k none))
push-SameOrNone log ops next n k x x' c (inr a) e = elim (Bool-cases (leb next n)) [
  | inl late ↦ elim (Option-cases (last_write k ops)) [
    | inl other ↦ inr (ground (arith, late, other))
    | inr (w, here) ↦ inl (ground (arith, late, here, replay-take-push log ops n k none))
  ]
  | inr early ↦ inr (ground (arith, early))
]

step-SameOrNone :
    (log : Log) (s : VersionStore) (c : Call)
    → advances s c ≡ is_ok (status s c)
    → horizon c ≡ 0
    → IsValid s
    → s.next_version ≡ suc (length log)
    → ((n : ℕ) (k : String) → SameOrNone (snapshot s n k) (contents log n k))
    → (n : ℕ) (k : String) → SameOrNone (snapshot (step s c) n k) (contents (log ++ wrote s c) n k)
step-SameOrNone log s c adv h v counter w n k = elim (Bool-cases (advances s c)) [
  | inl moved ↦
      let good : is_ok (status s c) ≡ true = sym adv ∙ moved in
      rw moved (
        push-SameOrNone log (writes c) s.next_version n k (snapshot s n k) _ counter (w n k)
          (rw good at (step-snapshot s c n k v (omega (arith, h)))))
  | inr stayed ↦
      let bad : is_ok (status s c) ≡ false = sym adv ∙ stayed in
      rw (stayed, append-nil, step_failed s c bad) (w n k)
]

step-newer :
    (log : Log) (s : VersionStore) (c : Call)
    → advances s c ≡ is_ok (status s c)
    → horizon c ≡ 0
    → IsValid s
    → s.next_version ≡ suc (length log)
    → ((n : ℕ) (k : String) → newer s n k ≡ true → touched_after log n k ≡ true)
    → (n : ℕ) (k : String) → newer (step s c) n k ≡ true
    → touched_after (log ++ wrote s c) n k ≡ true
step-newer log s c adv h v counter w n k = elim (Bool-cases (advances s c)) [
  | inl moved ↦
      let good : is_ok (status s c) ≡ true = sym adv ∙ moved in
      let after = rw good at (step-Validated s c n k v (omega (arith, h))) in
      rw moved (λ p. ground (arith, after, touches-drop-push log (writes c) n k, w n k))
  | inr stayed ↦
      let bad : is_ok (status s c) ≡ false = sym adv ∙ stayed in
      rw (stayed, append-nil, step_failed s c bad) (w n k)
]

call-IsTrue :
    (log : Log) (s : System) (c : Call) (store' : VersionStore)
    → store' ≡ step s.store c
    → advances s.store c ≡ is_ok (status s.store c)
    → horizon c ≡ 0
    → s.store.next_version + 1 < u64_mod
    → Owned s
    → IsTrue log s.store s.passes
    → IsTrue (log ++ wrote s.store c) store' s.passes
call-IsTrue log s c store' e adv h p o w =
    let grows = (step-next_version-bounds s.store c p).0 in
    rw e (record {
      floor = w.floor;
      below = omega (arith, w.below);
      agrees = step-Agrees w.floor log s.store c adv (omega (arith, h)) p o.store w.agrees;
      ranges = λ q. InRange-widen s.store.next_version _ (s.passes q) grows (w.ranges q);
      never_wrong = step-SameOrNone log s.store c adv h o.store w.agrees.counter w.never_wrong;
      never_early = step-newer log s.store c adv h o.store w.agrees.counter w.never_early;
    })

pass-IsTrue :
    (log : Log) (s : System) (p : ℕ) (x : Pass)
    → InRange s.store.next_version x
    → IsTrue log s.store s.passes
    → IsTrue log s.store (update s.passes p x)
pass-IsTrue log s p x r w = record {
  floor = w.floor;
  below = w.below;
  agrees = w.agrees;
  ranges = update-all (λ _ y. InRange s.store.next_version y) s.passes p x w.ranges r;
  never_wrong = w.never_wrong;
  never_early = w.never_early;
}

reclaim-IsTrue :
    (log : Log) (s : System) (p b : ℕ)
    → s.passes p ≡ bounded b
    → Owned s
    → IsTrue log s.store s.passes
    → IsTrue log (collect_garbage s.store b).0 (update s.passes p resting)
reclaim-IsTrue log s p b e o w =
    let range : b < s.store.next_version = rw e at (w.ranges p) in
    pass-IsTrue log (record s { store = (collect_garbage s.store b).0 }) p resting tt
      (record {
        floor = max w.floor b;
        below = unfold collect_garbage in ground (arith, w.below);
        agrees =
            collect_garbage-Agrees w.floor (max w.floor b) b log s.store (ground arith)
              (ground arith) o.store w.agrees;
        ranges = unfold collect_garbage in w.ranges;
        never_early = λ n k q. w.never_early n k (collect_garbage-newer s.store b n k o.store q);
        never_wrong = λ n k. elim (collect_garbage-SameOrNone s.store b n k o.store) [
          | inl same ↦ elim (w.never_wrong n k) [ inl q ↦ inl (same ∙ q) | inr q ↦ inr (same ∙ q) ]
          | inr lost ↦ inr lost
        ];
      })

Step-IsTrue :
    {s t : System} {wrote log : Log} (st : Step s wrote t)
    → Owned s
    → IsTrue log s.store s.passes
    → IsTrue (log ++ wrote) t.store t.passes
Step-IsTrue (Step.fetches i e p) o w = rw append-nil w
Step-IsTrue (Step.places i id e) o w = rw append-nil w
Step-IsTrue (Step.pins i id e) o w = rw append-nil w
Step-IsTrue (Step.refines i id snapshot e) o w = rw append-nil w
Step-IsTrue (Step.buffers_put i t key value e) o w = rw append-nil w
Step-IsTrue (Step.buffers_delete i t key e) o w = rw append-nil w
Step-IsTrue {s} {log = log} (Step.commits i t e p) o w =
    let st = at-Stands s i (running t) o e in
    call-IsTrue log s (commit_call t) _ (commit-step (engine s) t st.2) refl refl p o w
Step-IsTrue (Step.aborts i t e) o w = rw append-nil w
Step-IsTrue (Step.drops i t e) o w = rw append-nil w
Step-IsTrue (Step.unregisters i release t e) o w = rw append-nil w
Step-IsTrue {s} {log = log} (Step.calls c d p) o w =
    let (adv, h) = direct_lem s.store c d in call-IsTrue log s c _ refl adv h p o w
Step-IsTrue (Step.gets i t key out e) o w = rw append-nil w
Step-IsTrue (Step.gets_now key out version) o w = rw append-nil w
Step-IsTrue {s} {log = log} (Step.starts p e) o w =
    rw append-nil (pass-IsTrue log s p _ (inl refl) w)
Step-IsTrue {s} {log = log} (Step.scans p i acc e b) o w = rw append-nil (
    pass-IsTrue log s p _
      (scan_shard-InRange s.store.next_version i (suc i) acc (s.manager.shards i) (o.below i)
        (rw e at (w.ranges p)))
      w)
Step-IsTrue {s} {log = log} (Step.bounds p acc e) o w = rw append-nil (
    pass-IsTrue log s p _
      (boundary_of-InRange s.store k_num_shards acc o.store (rw e at (w.ranges p))) w)
Step-IsTrue {s} {log = log} (Step.reclaims p b e) o w =
    rw append-nil (reclaim-IsTrue log s p b e o w)

init-IsTrue : IsTrue [] init.store init.passes
init-IsTrue = record {
  floor = 0;
  below = init-IsSafe.below;
  agrees = init-IsSafe.agrees;
  ranges = init-IsSafe.ranges;
  never_wrong = λ n k. inl (init-IsSafe.agrees.shows n k (omega arith));
  never_early = λ n k p. sym (init-IsSafe.agrees.knows n k (omega arith)) ∙ p;
}

pub Reach-IsTrue : {log : Log} {s : System} → Reach log s → Owned s × IsTrue log s.store s.passes
Reach-IsTrue Reach.start = (init-Owned, init-IsTrue)
Reach-IsTrue (Reach.next r st) =
    let (o, w) = Reach-IsTrue r in (Step-Owned st o, Step-IsTrue st o w)
