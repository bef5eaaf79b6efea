-- ===== src/GarbageCollector/Background.antt =====
-- The background thread of src/gc.cpp: where it stands, and how it is stopped.
use mvcc_lite.Prelude.{
  Bool-cases, ℕ, suc, ◌≡◌, ◌≢◌, refl, Bool, true, false, Option, none, some, arith, ◌⊎◌, inl, inr,
}
use mvcc_lite.VersionStore.Defs.{GcStats}
use mvcc_lite.Transaction.{Engine}
use mvcc_lite.GarbageCollector.{
  Thread, passing, waiting, returned, GarbageCollector, init, start_background, thread_step,
  wait_for_thread, stop_background,
}

-- The collector counts as running exactly while it has a thread, and a thread that has returned was
-- asked to.
pub record IsValid (g : GarbageCollector) : Type 0 where
  pub has_thread : (g.running ≡ false) ⊎ (g.background_thread ≢ none)
  pub no_thread : (g.running ≡ true) ⊎ (g.background_thread ≡ none)
  pub asked : (g.background_thread ≢ some returned) ⊎ (g.stop_requested ≡ true)

pub init-IsValid : IsValid init
init-IsValid = record { has_thread = inl refl; no_thread = inr refl; asked = inl (λ e. cc) }

pub start_background-IsValid : (g : GarbageCollector) → IsValid g → IsValid (start_background g)
unfolding start_background
start_background-IsValid g v = ground arith

pub thread_step-IsValid :
    (e : Engine) (g : GarbageCollector) → IsValid g → IsValid (thread_step e g).1
unfolding thread_step
thread_step-IsValid e g v = ground arith

-- A collector that was asked to stop, with its thread anywhere.
abbrev stopping : GcStats → Bool → Option Thread → GarbageCollector
stopping stats running thread = record {
  cumulative_stats = stats;
  running = running;
  stop_requested = true;
  background_thread = thread;
}

-- The result of a stop: nothing runs, and no thread is left.
abbrev pub Stopped : Option (Engine × GarbageCollector) → Type 0
Stopped o =
    (r : Engine × GarbageCollector) × (o ≡ some r)
    × (r.1.running ≡ false)
    × (r.1.background_thread ≡ none)

wait_for_thread-Stopped :
    (fuel : ℕ) (e : Engine) (stats : GcStats) (running : Bool) (thread : Option Thread)
    → Stopped (wait_for_thread (suc (suc (suc fuel))) e (stopping stats running thread))
unfolding wait_for_thread
wait_for_thread-Stopped fuel e stats running none = (_, refl, refl, refl)
wait_for_thread-Stopped fuel e stats running (some returned) = (_, refl, refl, refl)
wait_for_thread-Stopped fuel e stats running (some waiting) = (_, refl, refl, refl)
wait_for_thread-Stopped fuel e stats running (some passing) = (_, refl, refl, refl)

-- On a well-formed collector `StopBackground` returns, wherever the thread stands: the pass that
-- is under way and one wake-up are all that it waits for, so that it looks at the thread three
-- times at most. Then no thread is left, and the collector does not count as running.
pub stop_background-Stopped :
    (fuel : ℕ) (e : Engine) (g : GarbageCollector)
    → IsValid g
    → Stopped (stop_background (suc (suc (suc fuel))) e g)
unfolding stop_background
stop_background-Stopped fuel e g v = elim (Bool-cases g.running) [
  | inl runs ↦ rw runs (wait_for_thread-Stopped fuel e g.cumulative_stats true g.background_thread)
  | inr rests ↦ ((e, g), ground arith, rests, ground arith)
]
