-- ===== src/Examples/Threads.antt =====
-- An execution: one thread writes, a second begins a transaction, the first writes again, and a pass
-- of the collector starts.
use mvcc_lite.Prelude.{
  length, ◌∷◌, ◌≤◌, ◌≡◌, ◌⊎◌, refl, [], ◌++◌, none, some, true, string_key, nat_key, arith,
}
use mathlib.Core.List.{append-nil}
use mvcc_lite.UnorderedMap.{find, assign}
use mvcc_lite.Status.{k_ok, k_not_found, is_ok, is_conflict}
use mvcc_lite.VersionStore.Defs.{VersionStore}
use mvcc_lite.VersionStore as Store
use mvcc_lite.VersionStore.{current_version}
use mvcc_lite.VersionStore.Invariant.{puts, step}
use mvcc_lite.VersionStore.Snapshot.{Answers}
use mvcc_lite.TransactionManager.{fetch_txn_id, register, oldest_active_snapshot}
use mvcc_lite.TransactionManager.Laws.{registered}
use mvcc_lite.Transaction.Defs.{Transaction, construct}
use mvcc_lite.Transaction.{put, get, commit}
use mvcc_lite.System.{
  System, init, fetched, placed, pinned, running, update, engine, Step, Reach, wrote, direct_put,
}
use mvcc_lite.System.Log.{touches, contents, Log}
use mvcc_lite.System.Calm.{CalmReach, IsCalm, CalmReach-Reach}
use mvcc_lite.System.Isolation.{sees, CalmReach-get, CalmReach-repeatable}
use mvcc_lite.VersionStore.Timeline.{writes, status}
use mvcc_lite.System.Conflicts.{CalmReach-conflict}
use mvcc_lite.System.Spec.{Run}
use mvcc_lite.System.Interrupted.{Reach-lost}
use mvcc_lite.VersionStore.Visible.{newest}
use mvcc_lite.System.Always.{Reach-commit, Reach-get, Reach-current}
use mvcc_lite.System.Acts.{actors_of}
use mvcc_lite.System.Refinement.{trace, CalmReach-Run}
use mvcc_lite.System.Release.{Reach-registered}

abbrev pub store1 : VersionStore
store1 = step init.store (puts "a" "x")

abbrev pub log1 : Log
log1 = wrote init.store (puts "a" "x")

abbrev pub written : System
written = record init { store = store1 }

written-CalmReach : CalmReach log1 written
written-CalmReach =
    CalmReach.next CalmReach.start (Step.calls (puts "a" "x") (direct_put "a" "x") (omega arith)) tt

pub silent :
    {log : Log} {s t : System} → CalmReach log s → (st : Step s [] t) → IsCalm st → CalmReach log t
silent {log} {t = t} r st calm = rw append-nil at (CalmReach.next r st calm)

abbrev pub reader : Transaction
reader = construct 1 1

abbrev pub reading : System
reading = record written {
  manager = register 1 1 (register 1 0 (fetch_txn_id init.manager).1);
  clients =
      update (update (update (update init.clients 0 (fetched 1)) 0 (placed 1)) 0 (pinned 1 1)) 0
        (running reader);
}

reading-CalmReach : CalmReach log1 reading
unfolding fetch_txn_id current_version step Store.put
reading-CalmReach =
    let r1 = silent written-CalmReach (Step.fetches 0 refl (omega arith)) tt in
    let r2 = silent r1 (Step.places 0 1 refl) (λ p. tt) in
    let r3 = silent r2 (Step.pins 0 1 refl) tt in silent r3 (Step.refines 0 1 1 refl) tt

-- The second write, after which the reader still sees the first.
abbrev pub rewritten : System
rewritten = record reading { store = step store1 (puts "a" "y") }

abbrev pub log2 : Log
log2 = wrote store1 (puts "a" "y")

pub rewritten-CalmReach : CalmReach (log1 ++ log2) rewritten
rewritten-CalmReach =
    CalmReach.next reading-CalmReach
      (Step.calls (puts "a" "y") (direct_put "a" "y") (unfold step Store.put in omega arith)) tt

CalmReach-get_example :
    Answers (sees (log1 ++ log2) reader "a") "" (get rewritten.store reader "a" "")
CalmReach-get_example =
    CalmReach-get (log1 ++ log2) rewritten 0 reader "a" "" rewritten-CalmReach refl refl

CalmReach-repeatable_example :
    ((get rewritten.store reader "a" "").0.code ≡ (get reading.store reader "a" "").0.code)
    × ((get rewritten.store reader "a" "").1 ≡ (get reading.store reader "a" "").1)
CalmReach-repeatable_example =
    CalmReach-repeatable log1 log2 reading rewritten 0 0 reader "a" "" reading-CalmReach
      rewritten-CalmReach refl refl refl

written-Reach : Reach log1 written
written-Reach = CalmReach-Reach written-CalmReach

Reach-registered_example :
    (registered 1 rewritten.manager ≡ some 1)
    × (oldest_active_snapshot rewritten.store rewritten.manager ≤ 1)
Reach-registered_example =
    Reach-registered (log1 ++ log2) rewritten 0 reader (CalmReach-Reach rewritten-CalmReach) refl

-- The reader writes as well, after the second write of the other thread.
abbrev pub late : System
late = record rewritten { clients = update rewritten.clients 0 (running (put reader "a" "z").1) }

pub late-CalmReach : CalmReach (log1 ++ (writes (puts "a" "y") ∷ [])) late
unfolding status Store.put
late-CalmReach = silent rewritten-CalmReach (Step.buffers_put 0 reader "a" "z" refl) tt

CalmReach-conflict_example :
    (is_conflict (commit (engine late) (put reader "a" "z").1 none none).status ≡ true)
    × ((commit (engine late) (put reader "a" "z").1 none none).engine.store ≡ late.store)
unfolding put assign find status Store.put
CalmReach-conflict_example =
    CalmReach-conflict log1 [] (writes (puts "a" "y")) late 0 (put reader "a" "z").1 "a" (some "z")
      late-CalmReach refl (omega arith) refl refl

-- Afterwards the reader reads, with and without its transaction.
asked-CalmReach : CalmReach (((log1 ++ log2) ++ []) ++ []) rewritten
asked-CalmReach =
    CalmReach.next (CalmReach.next rewritten-CalmReach (Step.gets 0 reader "a" "" refl) tt)
      (Step.gets_now "a" "" none) tt

CalmReach-Run_example :
    Run (trace asked-CalmReach) (((log1 ++ log2) ++ []) ++ []) (actors_of rewritten.clients)
CalmReach-Run_example = CalmReach-Run asked-CalmReach

Reach-get_example :
    Answers (sees (log1 ++ log2) reader "a") "" (get rewritten.store reader "a" "")
    ⊎ Answers none "" (get rewritten.store reader "a" "")
Reach-get_example =
    Reach-get (log1 ++ log2) rewritten 0 reader "a" "" (CalmReach-Reach rewritten-CalmReach) refl
      refl

Reach-current_example :
    Answers
      (contents (log1 ++ log2) (length (log1 ++ log2)) "a")
      ""
      ((Store.get rewritten.store "a" "" none).0, (Store.get rewritten.store "a" "" none).1)
Reach-current_example =
    Reach-current (log1 ++ log2) rewritten "a" "" none (CalmReach-Reach rewritten-CalmReach) refl

-- The late writer has no conflict on a key that nobody else has written.
abbrev pub apart : System
apart = record rewritten { clients = update rewritten.clients 0 (running (put reader "b" "z").1) }

pub apart-CalmReach : CalmReach (log1 ++ log2) apart
apart-CalmReach = silent rewritten-CalmReach (Step.buffers_put 0 reader "b" "z" refl) tt

Reach-commit_example : is_ok (commit (engine apart) (put reader "b" "z").1 none none).status ≡ true
unfolding put assign status Store.put touches
Reach-commit_example =
    Reach-commit (log1 ++ log2) apart 0 (put reader "b" "z").1 (CalmReach-Reach apart-CalmReach)
      refl (refl, tt)

Reach-lost_example :
    (s' : System) × (t : Transaction) × Reach (log1 ++ wrote written.store (puts "a" "y")) s'
    × (s'.clients 0 ≡ running t)
    × (registered t.txn_id s'.manager ≡ some t.snapshot_version)
    × ((get written.store t "a" "").0.code ≡ k_ok)
    × ((get written.store t "a" "").1 ≡ "x")
    × ((get s'.store t "a" "").0.code ≡ k_not_found)
    × ((get s'.store t "a" "").1 ≡ "")
unfolding Store.put current_version find newest step assign Store.append
Reach-lost_example =
    Reach-lost log1 written 0 0 "a" "x" "y" "" written-Reach (λ j. refl) refl (omega arith)
      (omega arith) refl refl
