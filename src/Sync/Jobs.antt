-- ===== src/Sync/Jobs.antt =====
-- Jobs and timers of src/fiber.c: requests of several jobs, and the future that counts them down.
-- The job queue is taken by its contract, a queue that refuses items when it is full; what a
-- job's function returns is a parameter.
pub mod Finish
mod Tests
use tcengine.Base.{
  ℕ, zero, suc, ◌+◌, ◌-◌, ◌%◌, ◌^◌, Bool, true, false, Option, none, some, List, [], ◌∷◌, ◌++◌,
}
use tcengine.Base.{◌==◌, if◌then◌else◌, ltb, length, update}
use tcengine.Sync.Future.{Future, fut_new, fut_decr}

-- `jobdecl_t`
pub record Declaration : Type 0 where
  pub func : ℕ
  pub arg : ℕ

-- `job_t`; all jobs here are of one request, and count down its future.
pub record Job : Type 0 where
  pub func : ℕ
  pub arg : ℕ
  pub id : ℕ

-- `jobrequest_t` with its future.
pub record Request : Type 0 where
  pub future : Future
  pub num_jobs : ℕ
  pub results : ℕ
  pub result_ptr : Option (ℕ → ℕ)

-- `lf_queue_put` on a queue of `limit` cells.
pub queue_put : (limit : ℕ) → List Job → Job → List Job × Bool
queue_put limit queue job =
    if ltb (length queue) limit then (queue ++ (job ∷ []), true) else (queue, false)

-- The loop of `tc_run_jobs`, from job `i` on: what `lf_queue_put` returns is not looked at. The number
-- of jobs is a uint32_t, so the lists it stands for have fewer than 2^32 of them.
pub put_jobs : (limit i : ℕ) → List Declaration → List Job → List Job
put_jobs limit i [] queue = queue
put_jobs limit i (d ∷ ds) queue =
    put_jobs limit (i + 1) ds
      (queue_put limit queue (record { func = d.func; arg = d.arg; id = i })).0

-- `tc_run_jobs`
pub run_jobs :
    (limit : ℕ) (jobs : List Declaration) (results : Option (ℕ → ℕ)) (queue : List Job)
    → Request × List Job
run_jobs limit jobs results queue = (
  record {
    future = fut_new (length jobs) 4;
    num_jobs = length jobs;
    results = 0;
    result_ptr = results;
  },
  put_jobs limit 0 jobs queue,
)

-- `job_finish`, up to the fibers that `tc_fut_decr` wakes.
pub job_finish : Request → Job → (result : ℕ) → Request
job_finish req job result = record req {
  future = (fut_decr req.future).0;
  results = result;
  result_ptr = elim req.result_ptr [ none ↦ none | some ptr ↦ some (update ptr job.id result) ];
}

-- The jobs finish, in some order.
pub finish_all : (returns : Job → ℕ) → List Job → Request → Request
finish_all returns [] req = req
finish_all returns (j ∷ js) req = finish_all returns js (job_finish req j (returns j))

-- `timer_t`, and whether libuv runs it.
pub record Timer : Type 0 where
  pub repeats : ℕ
  pub future : Future
  pub active : Bool

-- `tc_timer_start`: none for no repeats.
pub timer_start : (repeats : ℕ) → Option Timer
timer_start repeats =
    if repeats == 0
    then none
    else some (record { repeats = repeats; future = fut_new repeats 4; active = true })

-- `timer_cb`, up to the fibers that it wakes.
pub timer_cb : Timer → Timer
timer_cb timer =
    let repeats = (timer.repeats + 2 ^ 64 - 1) % 2 ^ 64 in
    record {
      repeats = repeats;
      future = (fut_decr timer.future).0;
      active = if repeats == 0 then false else timer.active;
    }

-- libuv calls `timer_cb` up to `n` times, while the timer runs.
pub fire : (n : ℕ) → Timer → Timer
fire zero timer = timer
fire (suc n) timer = let rest = fire n (timer_cb timer) in if timer.active then rest else timer
