-- ===== src/Sync/Fibers.antt =====
-- Fibers and workers of src/fiber.c: the loop of a worker, which runs fibers that are ready and starts
-- jobs in free ones. The stacks of ready and of free fibers are taken by their contract, and so is the
-- queue of jobs; what a fiber does between two calls is left open.
pub mod Places
mod Steps
pub mod Apart
pub mod Race
mod Tests
use tcengine.Base.{
  ℕ, zero, suc, ◌≡◌, Bool, true, false, not, Option, none, some, List, [], ◌∷◌, ◌==◌, if◌then◌else◌,
  ltb, update,
}

-- The scheduling fiber of a worker, whose id is 0, or a fiber of the pool.
pub data Fiber : Type 0 where
  sched : (w : ℕ) → Fiber
  fiber : (n : ℕ) → Fiber

-- Where a worker stands. `polls` tells whether worker_loop is at the queue of jobs, behind the fibers
-- that are ready. A worker fails where a TC_ASSERT does: in tc_fiber_resume at a fiber that has no
-- context, behind fiber_create where no fiber is free or the free one has a job.
pub data Pc : Type 0 where
  idle : (polls : Bool) → Pc
  resuming : (polls : Bool) (n : ℕ) → Pc
  running : (polls : Bool) (n : ℕ) → Pc
  leaving : (polls : Bool) (n : ℕ) → Pc
  checking : (polls : Bool) (n : ℕ) → Pc
  returned : Pc
  no_context : Pc
  no_fiber : Pc
  busy_fiber : Pc

-- `fiber_context_t` with the fields `job` and `fctx` of the fibers, both of them as "is not NULL", and
-- the place of every worker. `asleep` is no field: it tells which fibers have yielded, were seen with
-- their jobs by the worker that they left, and wait for tc_fiber_ready.
pub record Pool : Type 0 where
  pub ready : List Fiber
  pub free : List ℕ
  pub job : ℕ → Bool
  pub fctx : ℕ → Bool
  pub asleep : ℕ → Bool
  pub worker : ℕ → Pc

abbrev pub at : ℕ → Pc → Pool → Pool
at w pc p = record p { worker = update p.worker w pc }

-- Fibers `n - 1` to 0, in the order of their stack.
pub fiber_numbers : ℕ → List ℕ
fiber_numbers zero = []
fiber_numbers (suc n) = n ∷ fiber_numbers n

-- `fiber_pool_init`: fiber_init runs every fiber up to its first jump back, which gives its context.
pub fiber_pool_init : (num_fibers : ℕ) → Pool
fiber_pool_init num_fibers = record {
  ready = [];
  free = fiber_numbers num_fibers;
  job = λ n. false;
  fctx = λ n. ltb n num_fibers;
  asleep = λ n. false;
  worker = λ w. idle false;
}

pub tc_fiber_ready : ℕ → Pool → Pool
tc_fiber_ready n p = record p { ready = fiber n ∷ p.ready; asleep = update p.asleep n false }

-- The first part of a round of worker_loop: what lf_lifo_pop gave, and the stack without it.
pub pop_ready : (w : ℕ) → List Fiber → Pool → Pool
pop_ready w [] p = at w (idle true) p
pop_ready w (sched v ∷ ready) p =
    if v == w then at w returned (record p { ready = ready }) else at w (idle true) p
pop_ready w (fiber n ∷ ready) p = at w (resuming false n) (record p { ready = ready })

-- The second part: fiber_create and fiber_start, where the queue has a job.
pub start_job : (w : ℕ) → List ℕ → Pool → Pool
start_job w [] p = at w no_fiber p
start_job w (n ∷ free) p =
    if p.job n
    then at w busy_fiber (record p { free = free })
    else at w (resuming true n) (record p { free = free; job = update p.job n true })

-- `tc_fiber_resume` up to the jump.
pub tc_fiber_resume : (w : ℕ) (polls : Bool) (n : ℕ) → Pool → Pool
tc_fiber_resume w polls n p =
    if p.fctx n
    then at w (running polls n) (record p { fctx = update p.fctx n false })
    else at w no_context p

-- The end of a job in fiber_loop, up to the jump of tc_fiber_yield.
pub finish_job : (w : ℕ) (polls : Bool) (n : ℕ) → Pool → Pool
finish_job w polls n p = at w (leaving polls n) (record p { job = update p.job n false })

-- `tc_fiber_resume` behind the jump: the context of the fiber is there again.
pub save_context : (w : ℕ) (polls : Bool) (n : ℕ) → Pool → Pool
save_context w polls n p = at w (checking polls n) (record p { fctx = update p.fctx n true })

-- worker_loop behind tc_fiber_resume: fiber_destroy where the fiber has no job. The worker reads the
-- job after the context is saved, when the fiber may have gone on elsewhere.
pub check_job : (w : ℕ) (polls : Bool) (n : ℕ) → Pool → Pool
check_job w polls n p =
    let behind = at w (idle (not polls)) p in
    if p.job n
    then record behind { asleep = update p.asleep n true }
    else record behind { free = n ∷ p.free }

-- What a worker does next. `has_job` is what the queue has, and `done` whether the fiber's job is done
-- when it jumps back.
pub work : (w : ℕ) (has_job done : Bool) → Pc → Pool → Pool
work w has_job done (idle false) p = pop_ready w p.ready p
work w false done (idle true) p = at w (idle false) p
work w true done (idle true) p = start_job w p.free p
work w has_job done (resuming polls n) p = tc_fiber_resume w polls n p
work w has_job false (running polls n) p = at w (leaving polls n) p
work w has_job true (running polls n) p = finish_job w polls n p
work w has_job done (leaving polls n) p = save_context w polls n p
work w has_job done (checking polls n) p = check_job w polls n p
work w has_job done returned p = p
work w has_job done no_context p = p
work w has_job done no_fiber p = p
work w has_job done busy_fiber p = p

pub data Event : Type 0 where
  works : (w : ℕ) (has_job done : Bool) → Event
  wakes : (n : ℕ) → Event
  stops : (w : ℕ) → Event

-- fiber_pool_destroy makes a worker's scheduling fiber ready.
pub step : Event → Pool → Pool
step (works w has_job done) p = work w has_job done (p.worker w) p
step (wakes n) p = tc_fiber_ready n p
step (stops w) p = record p { ready = sched w ∷ p.ready }

pub run : List Event → Pool → Pool
run [] p = p
run (e ∷ es) p = run es (step e p)

-- tc_fiber_ready is called for fibers whose yield is done and whose worker has looked at the job,
-- once for each yield. tc_fut_wait does not see to that.
pub InTime : Event → Pool → Type 0
InTime (works w has_job done) p = Unit
InTime (wakes n) p = p.asleep n ≡ true
InTime (stops w) p = Unit

pub AreInTime : List Event → Pool → Type 0
AreInTime [] p = Unit
AreInTime (e ∷ es) p = InTime e p × AreInTime es (step e p)
