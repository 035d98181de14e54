-- ===== src/Sync/Future/Tests.antt =====
-- Futures at work.
use tcengine.Base.{ℕ, zero, suc, ◌≤◌, ◌<◌, ◌≡◌, refl, arith, true, false, List, [], ◌∷◌, ◌==◌, ◌||◌}
use tcengine.Sync.Future.{returned, fut_new, fut_decr, wake_step, wait_step}
use tcengine.Sync.Future.System.{
  System, Job, rest, waking, at_rest, start, Reach, here, next, decr, wake, wait, after_wake,
  after_wait, after_decr,
}
use tcengine.Sync.Future.Wakeup.{wakes_once}

-- What is to run next: a count down by thread 0, an access of thread 0, or one of a fiber.
data Turn : Type 0 where
  count : Turn
  access : Turn
  fiber : ℕ → Turn

run_job : System → Job → System
run_job s rest = s
run_job s (waking v pc) = after_wake s 0 v (wake_step v s.future pc)

run : List Turn → System → System
run [] s = s
run (count ∷ ts) s = run ts (after_decr s 0 (fut_decr s.future))
run (access ∷ ts) s = run ts (run_job s (s.jobs 0))
run (fiber f ∷ ts) s = run ts (after_wait s f (wait_step f 0 s.future (s.waits f)))

abbrev repeat : ℕ → Turn → List Turn → List Turn
repeat zero t ts = ts
repeat (suc n) t ts = t ∷ repeat n t ts

-- Fiber 5 waits at a future of one job.
abbrev waiting : System
waiting = start 1 4 (λ f. f == 5)

one_job : System
one_job = run (repeat 6 (fiber 5) (count ∷ repeat 11 access [])) waiting

-- It is woken, once.
one_job_woken : (one_job.ready 5 ≡ 1) × (one_job.waits 5 ≡ returned false)
unfolding one_job run run_job wake_step wait_step fut_new fut_decr
one_job_woken = (refl, refl)

-- A run is made of steps, where no count down comes too early or too often.
abbrev Legal : List Turn → System → Type 0
Legal [] s = Unit {0}
Legal (count ∷ ts) s =
    (at_rest (s.jobs 0) ≡ true)
    × (0 < s.future.value)
    × Legal ts (after_decr s 0 (fut_decr s.future))
Legal (access ∷ ts) s = Legal ts (run_job s (s.jobs 0))
Legal (fiber f ∷ ts) s = Legal ts (after_wait s f (wait_step f 0 s.future (s.waits f)))

Reach-run_job : {s t : System} (j : Job) → t.jobs 0 ≡ j → Reach s t → Reach s (run_job t j)
unfolding run_job
Reach-run_job rest e r = r
Reach-run_job (waking v pc) e r = next r (wake 0 v pc e)

Reach-run : {s : System} (ts : List Turn) (t : System) → Legal ts t → Reach s t → Reach s (run ts t)
unfolding run
Reach-run [] t h r = r
Reach-run (count ∷ ts) t h r = Reach-run ts _ h.2 (next r (decr 0 h.0 h.1))
Reach-run (access ∷ ts) t h r = Reach-run ts _ h (Reach-run_job (t.jobs 0) refl r)
Reach-run (fiber f ∷ ts) t h r = Reach-run ts _ h (next r (wait f))

one_job-Reach : Reach waiting one_job
unfolding one_job run_job wake_step wait_step fut_new fut_decr
one_job-Reach =
    Reach-run (repeat 6 (fiber 5) (count ∷ repeat 11 access [])) waiting (refl, omega arith, tt)
      here

wakes_once_example :
    (one_job.ready 5 ≤ 1)
    × (one_job.ready 5 ≡ 1 → one_job.future.value ≡ 0)
    × (one_job.waits 5 ≡ returned true → (one_job.future.value ≡ 0) × (one_job.ready 5 ≡ 0))
    × (one_job.waits 5 ≡ returned false
        → one_job.future.value ≡ 0
        → ((t : ℕ) → at_rest (one_job.jobs t) ≡ true)
        → one_job.ready 5 ≡ 1)
wakes_once_example =
    wakes_once {w = 5} {n = 4} {v = 1} {s = one_job} (omega arith) (omega arith) (omega arith)
      one_job-Reach

-- Fibers 5 and 6 wait at a future of one job. Its thread loads fiber 5 from slot 0, fiber 5 takes
-- itself out, and fiber 6 takes the slot.
abbrev both : System
both = start 1 4 (λ f. f == 5 || f == 6)

abbrev swap : List Turn
swap = repeat 3 (fiber 5) (count ∷ repeat 3 access (repeat 5 (fiber 5) (repeat 4 (fiber 6) [])))

stale : System
stale = run swap both

stale-Reach : Reach both stale
unfolding stale run_job wake_step wait_step fut_new fut_decr
stale-Reach = Reach-run swap both (refl, omega arith, tt) here

-- When all is over, fiber 6 waits for a counter that is 0, and nobody is going to wake it.
lost : System
lost = run (repeat 3 access (fiber 6 ∷ repeat 4 access [])) stale

fiber_lost :
    (lost.waits 6 ≡ returned false)
    × (lost.ready 6 ≡ 0)
    × (lost.ready 5 ≡ 1)
    × (lost.future.value ≡ 0)
    × (at_rest (lost.jobs 0) ≡ true)
unfolding lost stale run run_job wake_step wait_step fut_new fut_decr
fiber_lost = (refl, refl, refl, refl, refl)
