-- ===== src/Sync/Future/System.antt =====
-- Threads that count a future down, beside fibers that wait until it is 0, in any order.
use tcengine.Base.{ℕ, ◌+◌, ◌<◌, ◌≡◌, Bool, true, false, Option, none, some}
use tcengine.Base.{if◌then◌else◌, update}
use tcengine.Sync.Future.{
  Future, WakePc, scan, WaitPc, idle, trying, fut_new, fut_decr, wake_step, wait_step,
}

-- A thread is at rest, or in `counter_wakeup` with a value.
pub data Job : Type 0 where
  rest : Job
  waking : (value : ℕ) → WakePc → Job

-- `ready f` counts the calls of `tc_fiber_ready` with fiber `f`.
pub record System : Type 0 where
  pub future : Future
  pub jobs : ℕ → Job
  pub waits : ℕ → WaitPc
  pub ready : ℕ → ℕ

abbrev pub readied : Option ℕ → (ℕ → ℕ) → ℕ → ℕ
readied none ready = ready
readied (some f) ready = update ready f (ready f + 1)

abbrev pub after_wake : System → (t value : ℕ) → Future × WakePc × Option ℕ → System
after_wake s t value (c, pc, woken) = record s {
  future = c;
  jobs = update s.jobs t (waking value pc);
  ready = readied woken s.ready;
}

abbrev pub after_wait : System → ℕ → Future × WaitPc → System
after_wait s f (c, pc) = record s { future = c; waits = update s.waits f pc }

abbrev pub after_decr : System → ℕ → Future × ℕ → System
after_decr s t (c, value) = record s { future = c; jobs = update s.jobs t (waking value (scan 0)) }

abbrev pub at_rest : Job → Bool
at_rest rest = true
at_rest (waking _ WakePc.done) = true
at_rest (waking _ _) = false

-- `tc_fut_decr` is called as often at most as the counter was set to, once for each job.
pub data Step (s : System) : System → Type 0 where
  decr :
      (t : ℕ)
      → at_rest (s.jobs t) ≡ true
      → 0 < s.future.value
      → Step s (after_decr s t (fut_decr s.future))
  wake :
      (t value : ℕ) (pc : WakePc)
      → s.jobs t ≡ waking value pc
      → Step s (after_wake s t value (wake_step value s.future pc))
  wait : (f : ℕ) → Step s (after_wait s f (wait_step f 0 s.future (s.waits f)))

-- A new future, at which the fibers of `waiting` call `tc_fut_wait` for 0.
abbrev pub start : (value num_slots : ℕ) → (waiting : ℕ → Bool) → System
start value num_slots waiting = record {
  future = fut_new value num_slots;
  jobs = λ _. rest;
  waits = λ f. if waiting f then trying 0 else idle;
  ready = λ _. 0;
}

pub data Reach (s : System) : System → Type 0 where
  here : Reach s s
  next : {t u : System} → Reach s t → Step t u → Reach s u
