-- ===== src/Sync/Jobs/Tests.antt =====
-- Jobs and timers at work.
use tcengine.Base.{ℕ, ◌+◌, ◌≡◌, refl, arith, none, some, List, [], ◌∷◌, length, true}
use tcengine.Sync.Jobs.{
  put_jobs, queue_put, Declaration, Job, run_jobs, finish_all, Timer, timer_start,
}
use tcengine.Sync.Jobs.Finish.{numbered, Stored, jobs_complete}
use tcengine.Sync.Future.{fut_new}

abbrev two : List Declaration
two = record { func = 7; arg = 1 } ∷ record { func = 7; arg = 2 } ∷ []

abbrev returns : Job → ℕ
returns j = j.arg + 10

-- The second job finishes first.
abbrev order : List Job
order = record { func = 7; arg = 2; id = 1 } ∷ record { func = 7; arg = 1; id = 0 } ∷ []

abbrev array : ℕ → ℕ
array = λ _. 0

jobs_complete_example :
    ((run_jobs 8 two (some array) []).1 ≡ numbered 0 two)
    × ((finish_all returns order (run_jobs 8 two (some array) []).0).future.value ≡ 0)
    × ((ptr' : ℕ → ℕ) × ((finish_all returns order (run_jobs 8 two (some array) []).0).result_ptr
          ≡ some ptr')
        × Stored returns ptr' order)
jobs_complete_example =
    jobs_complete 8 two array [] returns order (omega arith) (omega arith) refl refl

abbrev other : Job
other = record { func = 3; arg = 0; id = 0 }

-- One cell is left for two jobs.
one_put : length (run_jobs 2 two none (other ∷ [])).1 ≡ 2
unfolding run_jobs put_jobs queue_put
one_put = refl

abbrev timer : Timer
timer = record { repeats = 3; future = fut_new 3 4; active = true }

started : timer_start 3 ≡ some timer
unfolding timer_start
started = refl
