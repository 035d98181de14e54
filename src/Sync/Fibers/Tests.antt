-- ===== src/Sync/Fibers/Tests.antt =====
-- Two workers and a pool of two fibers.
use tcengine.Base.{ℕ, ◌≤◌, ◌≡◌, ◌≢◌, refl, true, false, some, List, [], ◌∷◌}
use tcengine.Sync.Fibers.{
  busy_fiber, Pool, running, no_context, Event, works, wakes, run, step, work, pop_ready, start_job,
  tc_fiber_resume, tc_fiber_ready, save_context, check_job, fiber_pool_init, fiber_numbers,
  AreInTime, InTime,
}
use tcengine.Sync.Fibers.Places.{held}
use tcengine.Sync.Fibers.Apart.{count_resting, fibers_in_one_place}

-- Worker 0 starts a job, which sleeps; woken, it goes on at worker 1, while worker 0 starts another.
abbrev events : List Event
events =
    works 0 false false
    ∷ works 0 true false
    ∷ works 0 false false
    ∷ works 0 false false
    ∷ works 0 false false
    ∷ works 0 false false
    ∷ wakes 1
    ∷ works 1 false false
    ∷ works 0 false false
    ∷ works 0 true false
    ∷ works 1 false false
    ∷ []

events-AreInTime : AreInTime events (fiber_pool_init 2)
unfolding AreInTime InTime step work pop_ready start_job tc_fiber_resume tc_fiber_ready save_context
    check_job fiber_pool_init fiber_numbers
events-AreInTime = (tt, (tt, (tt, (tt, (tt, (tt, (refl, (tt, (tt, (tt, (tt, tt)))))))))))

events-run : (run events (fiber_pool_init 2)).worker 1 ≡ running false 1
unfolding run step work pop_ready start_job tc_fiber_resume tc_fiber_ready save_context check_job
    fiber_pool_init fiber_numbers
events-run = refl

fibers_in_one_place_example :
    ((w : ℕ) → (run events (fiber_pool_init 2)).worker w ≢ no_context)
    × ((w : ℕ) → (run events (fiber_pool_init 2)).worker w ≢ busy_fiber)
    × ((v w n : ℕ)
        → held ((run events (fiber_pool_init 2)).worker v) ≡ some n
        → held ((run events (fiber_pool_init 2)).worker w) ≡ some n
        → v ≡ w)
    × ((w n : ℕ)
        → held ((run events (fiber_pool_init 2)).worker w) ≡ some n
        → count_resting n (run events (fiber_pool_init 2)) ≡ 0)
    × ((n : ℕ) → count_resting n (run events (fiber_pool_init 2)) ≤ 1)
fibers_in_one_place_example = fibers_in_one_place 2 events events-AreInTime

-- Worker 0 has started a job in fiber 1, which has yielded; its context is saved, and worker 0 has
-- not looked at the job yet.
half_way : Pool
half_way =
    run
      (works 0 false false
        ∷ works 0 true false
        ∷ works 0 false false
        ∷ works 0 false false
        ∷ works 0 false false
        ∷ [])
      (fiber_pool_init 2)

-- Fiber 1 is woken while its job still runs at worker 0, and worker 1 resumes it.
abbrev early : List Event
early =
    works 0 false false
    ∷ works 0 true false
    ∷ works 0 false false
    ∷ wakes 1
    ∷ works 1 false false
    ∷ works 1 false false
    ∷ []

early_ready : (run early (fiber_pool_init 2)).worker 1 ≡ no_context
unfolding run step work pop_ready start_job tc_fiber_resume tc_fiber_ready fiber_pool_init
    fiber_numbers
early_ready = refl
