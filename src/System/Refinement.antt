-- ===== src/System/Refinement.antt =====
-- The threads and the abstract specification, side by side.
use mathlib.Core.Path.{subst}
use mvcc_lite.Prelude.{Option, ap, List, [], ◌∷◌, ◌++◌, String, none, string_key}
use mvcc_lite.VersionStore.{current_version}
use mvcc_lite.Transaction.Defs.{construct}
use mvcc_lite.Transaction.{put, delete, commit, abort}
use mvcc_lite.System.{
  destroy_release, abort_release, commit_release, System, idle, fetched, placed, pinned, running,
  leaving, Step, engine,
}
use mvcc_lite.System.Log.{Log}
use mvcc_lite.System.Spec.{get_now_told, get_told, Event, Act, Run}
use mvcc_lite.System.Replies.{current_version-length, running-shows, current-shows}
use mvcc_lite.System.Reads.{get_lem, get_now_lem}
use mvcc_lite.System.Safety.{CalmReach-Kept}
use mvcc_lite.System.Calm.{CalmReach}
use mvcc_lite.System.Safety.{CalmReach-Kept}
use mvcc_lite.System.Acts.{
  actors_of, actor_of, told, stay, act, stands, put-Act, delete-Act, commit-Act, call-Act,
}

-- Every step of a calm execution is a step of the specification, which tells the same.
Step-Act :
    {log : Log} {s t : System} {wrote : Log}
    → CalmReach log s
    → (st : Step s wrote t) → Act log (actors_of s.clients) (told st) wrote (actors_of t.clients)
Step-Act {s = s} r (Step.fetches i e room) = stay s.clients i (fetched _) (ap actor_of e)
Step-Act {s = s} r (Step.places i id e) = stay s.clients i (placed id) (ap actor_of e)
Step-Act {s = s} r (Step.pins i id e) =
    act s.clients i (pinned id (current_version s.store))
      (rw (current_version-length r) (Act.begins i (ap actor_of e)))
Step-Act {s = s} r (Step.refines i id version e) =
    stay s.clients i (running (construct id version)) (ap actor_of e)
Step-Act {s = s} r (Step.buffers_put i t key value e) =
    act s.clients i (running (put t key value).1) (put-Act i t key value r e)
Step-Act {s = s} r (Step.buffers_delete i t key e) =
    act s.clients i (running (delete s.store t key).1) (delete-Act i t key r e)
Step-Act {s = s} r (Step.commits i t e room) =
    act s.clients i (leaving (commit_release s.store t) (commit (engine s) t none none).txn)
      (commit-Act i t r e)
Step-Act {s = s} r (Step.aborts i t e) =
    act s.clients i (leaving (abort_release s.store t) (abort (engine s) t).2)
      (Act.ends i t.snapshot_version t.write_set (ap actor_of e))
Step-Act {s = s} r (Step.drops i t e) =
    act s.clients i (leaving (destroy_release s.store t) t)
      (Act.ends i t.snapshot_version t.write_set (ap actor_of e))
Step-Act {s = s} r (Step.unregisters i release t e) = stay s.clients i idle (ap actor_of e)
Step-Act r (Step.calls c d room) = call-Act c r d
Step-Act {log} {s} r (Step.gets i t key out e) =
    let (valid, active) = stands i t r e in
    subst
      (λ (a : Option String).
        Act log (actors_of s.clients) (get_told i key a ∷ []) [] (actors_of s.clients))
      (get_lem s.store t log key out active valid (running-shows i t r e))
      (Act.gets i t.snapshot_version t.write_set key (ap actor_of e))
Step-Act {log} {s} r (Step.gets_now key out version) =
    subst
      (λ (a : Option String).
        Act log (actors_of s.clients) (get_now_told key a ∷ []) [] (actors_of s.clients))
      (get_now_lem log s.store key out version (CalmReach-Kept r).0.store (current-shows r))
      (Act.gets_now key)
Step-Act r (Step.starts p e) = Act.stays
Step-Act r (Step.scans p i acc e h) = Act.stays
Step-Act r (Step.bounds p acc e) = Act.stays
Step-Act r (Step.reclaims p b e) = Act.stays

-- What the threads were told in an execution, in order.
abbrev pub trace : {log : Log} {s : System} → CalmReach log s → List Event
trace CalmReach.start = []
trace (CalmReach.next r st calm) = trace r ++ told st

-- Refinement: every calm execution of the threads, with all steps of `Begin`, `Commit`, the reads,
-- the calls and the collectors interleaved, is a run of the abstract specification, in which the
-- threads are told the same in the same order, whether a call succeeded and what a read returned; the
-- log is the same, and each thread is in its transaction with the same version and the same buffer.
pub CalmReach-Run :
    {log : Log} {s : System} (r : CalmReach log s) → Run (trace r) log (actors_of s.clients)
CalmReach-Run CalmReach.start = Run.start
CalmReach-Run (CalmReach.next r st calm) = Run.next (CalmReach-Run r) (Step-Act r st)
