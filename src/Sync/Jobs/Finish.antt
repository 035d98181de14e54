-- ===== src/Sync/Jobs/Finish.antt =====
-- What is so when jobs have finished and timers have fired.
use mathlib.Core.Path.{subst}
use mathlib.Core.List.{append_assoc, append-nil}
use tcengine.Base.{ℕ, zero, suc, ◌+◌, ◌-◌, ◌^◌, ◌≤◌, ◌<◌, ◌≡◌, refl, sym, ap, ◌∙◌, arith, min}
use tcengine.Base.{Bool, true, false, Option, some, List, [], ◌∷◌, ◌++◌}
use tcengine.Base.{
  ◌==◌, ltb, length, length-append, update, has, Bool-cases, inl, inr, if-true, if-false,
}
use tcengine.Data.List.Chain.{distinct}
use tcengine.Sync.Future.{fut_decr, fut_new}
use tcengine.Sync.Jobs.{
  Declaration, Job, Request, queue_put, put_jobs, run_jobs, job_finish, finish_all, Timer,
  timer_start, timer_cb, fire,
}

abbrev pub ids : List Job → List ℕ
ids [] = []
ids (j ∷ js) = j.id ∷ ids js

-- The jobs of a request, from number `i` on.
abbrev pub numbered : ℕ → List Declaration → List Job
numbered i [] = []
numbered i (d ∷ ds) = record { func = d.func; arg = d.arg; id = i } ∷ numbered (i + 1) ds

put_jobs-room :
    (limit i : ℕ) (ds : List Declaration) (queue : List Job)
    → length queue + length ds ≤ limit
    → put_jobs limit i ds queue ≡ queue ++ numbered i ds
unfolding put_jobs queue_put
put_jobs-room limit i [] queue h = sym (append-nil queue)
put_jobs-room limit i (d ∷ ds) queue h =
    let j : Job = record { func = d.func; arg = d.arg; id = i } in
    let room : ltb (length queue) limit ≡ true = ground arith in
    ap (λ (t : List Job × Bool). put_jobs limit (i + 1) ds t.0)
      (if-true (queue ++ (j ∷ []), true) (queue, false) room)
    ∙ put_jobs-room limit (i + 1) ds (queue ++ (j ∷ []))
        (omega (arith, length-append queue (j ∷ [])))
    ∙ append_assoc queue (j ∷ []) (numbered (i + 1) ds)

length-put_jobs :
    (limit i : ℕ) (ds : List Declaration) (queue : List Job)
    → length queue ≤ limit
    → length (put_jobs limit i ds queue) ≡ min limit (length queue + length ds)
unfolding put_jobs queue_put
length-put_jobs limit i [] queue h = ground arith
length-put_jobs limit i (d ∷ ds) queue h = ground (
  arith,
  length-append queue (record { func = d.func; arg = d.arg; id = i } ∷ []),
  length-put_jobs limit (i + 1) ds
      (queue_put limit queue (record { func = d.func; arg = d.arg; id = i })).0,
)

finish_all-counter :
    (returns : Job → ℕ) (js : List Job) (req : Request)
    → length js ≤ req.future.value
    → req.future.value < 2 ^ 64
    → (finish_all returns js req).future.value ≡ req.future.value - length js
unfolding finish_all job_finish fut_decr
finish_all-counter returns [] req h small = omega arith
finish_all-counter returns (j ∷ js) req h small = omega (
  arith,
  finish_all-counter returns js (job_finish req j (returns j)) (omega arith) (omega arith),
)

-- The result of each job stands at its number.
abbrev pub Stored : (Job → ℕ) → (ℕ → ℕ) → List Job → Type 0
Stored returns ptr [] = Unit {0}
Stored returns ptr (j ∷ js) = (ptr j.id ≡ returns j) × Stored returns ptr js

finish_all-results :
    (returns : Job → ℕ) (js : List Job) (req : Request) (ptr : ℕ → ℕ)
    → req.result_ptr ≡ some ptr
    → distinct (ids js) ≡ true
    → (ptr' : ℕ → ℕ) × ((finish_all returns js req).result_ptr ≡ some ptr')
      × Stored returns ptr' js
      × ((k : ℕ) → has k (ids js) ≡ false → ptr' k ≡ ptr k)
unfolding finish_all job_finish
finish_all-results returns [] req ptr e d = (ptr, e, tt, λ k h. refl)
finish_all-results returns (j ∷ js) req ptr e d =
    let (ptr', same, stored, kept) =
      finish_all-results returns js (job_finish req j (returns j)) (update ptr j.id (returns j))
        (rw e refl) (ground arith) in
    (ptr', same, (ground (arith, kept j.id), stored), λ k h. ground (arith, kept k))

-- Where the queue has room for them, tc_run_jobs puts all jobs of a request on it, numbered from
-- 0, and when as many jobs with different numbers have finished, in any order, the future is 0
-- and each result stands in the array at the number of its job, for fewer than 2^64 jobs.
pub jobs_complete :
    (limit : ℕ) (ds : List Declaration) (ptr : ℕ → ℕ) (queue : List Job) (returns : Job → ℕ)
    (js : List Job)
    → length queue + length ds ≤ limit
    → length ds < 2 ^ 64
    → length js ≡ length ds
    → distinct (ids js) ≡ true
    → ((run_jobs limit ds (some ptr) queue).1 ≡ queue ++ numbered 0 ds)
      × ((finish_all returns js (run_jobs limit ds (some ptr) queue).0).future.value ≡ 0)
      × ((ptr' : ℕ → ℕ) × ((finish_all returns js (run_jobs limit ds (some ptr) queue).0).result_ptr
            ≡ some ptr')
          × Stored returns ptr' js)
unfolding run_jobs fut_new
jobs_complete limit ds ptr queue returns js room small all d =
    let req : Request = (run_jobs limit ds (some ptr) queue).0 in
    let (ptr', same, stored, kept) = finish_all-results returns js req ptr refl d in
    (
      put_jobs-room limit 0 ds queue room,
      omega (arith, finish_all-counter returns js req (omega arith) small),
      (ptr', same, stored),
    )

-- Where the queue has no room for all jobs of a request, tc_run_jobs loses those that do not fit:
-- when as many jobs as went into the queue have finished, the future has not come to 0.
pub jobs_lost :
    (limit : ℕ) (ds : List Declaration) (results : Option (ℕ → ℕ)) (queue : List Job)
    (returns : Job → ℕ) (js : List Job)
    → length queue ≤ limit
    → limit < length queue + length ds
    → length ds < 2 ^ 64
    → length queue + length js ≡ length (run_jobs limit ds results queue).1
    → (finish_all returns js (run_jobs limit ds results queue).0).future.value
      ≡ length queue + length ds - limit
unfolding run_jobs fut_new
jobs_lost limit ds results queue returns js fits over small all = omega (
  arith,
  length-put_jobs limit 0 ds queue fits,
  finish_all-counter returns js (run_jobs limit ds results queue).0
      (omega (arith, length-put_jobs limit 0 ds queue fits)) small,
)

fire-counts :
    (n : ℕ) (t : Timer)
    → t.repeats ≡ t.future.value
    → t.repeats < 2 ^ 64
    → t.active ≡ ltb 0 t.repeats
    → ((fire n t).future.value ≡ t.repeats - n) × ((fire n t).active ≡ ltb n t.repeats)
unfolding fire timer_cb fut_decr
fire-counts zero t e small on = ground arith
fire-counts (suc n) t e small on = elim (Bool-cases t.active) [
  | inl h ↦
      subst
        (λ (u : Timer). (u.future.value ≡ t.repeats - suc n) × (u.active ≡ ltb (suc n) t.repeats))
        (sym (if-true (fire n (timer_cb t)) t h))
        (ground (arith, fire-counts n (timer_cb t) (ground arith) (ground arith) (ground arith)))
  | inr h ↦
      subst
        (λ (u : Timer). (u.future.value ≡ t.repeats - suc n) × (u.active ≡ ltb (suc n) t.repeats))
        (sym (if-false (fire n (timer_cb t)) t h)) (ground arith)
]

-- A timer of `repeats` repeats counts its future down by one at each of them, and stops at 0.
pub timer_counts :
    (repeats n : ℕ) {t : Timer}
    → repeats < 2 ^ 64
    → timer_start repeats ≡ some t
    → ((fire n t).future.value ≡ repeats - n) × ((fire n t).active ≡ ltb n repeats)
unfolding timer_start fut_new
timer_counts repeats n {t} small started = elim (Bool-cases (repeats == 0)) [
  | inl e ↦ ground arith
  | inr e ↦
      let same : t ≡ record { repeats = repeats; future = fut_new repeats 4; active = true } =
        ground arith in
      subst
        (λ (u : Timer).
          ((fire n u).future.value ≡ repeats - n) × ((fire n u).active ≡ ltb n repeats))
        (sym same)
        (fire-counts n (record { repeats = repeats; future = fut_new repeats 4; active = true })
          refl small (ground arith))
]
