-- ===== src/Sync/Fibers/Apart.antt =====
-- What the places mean: no two workers have one fiber, and no fiber is resumed without its context.
use mathlib.Core.Path.{subst}
use tcengine.Base.{
  ℕ, zero, suc, ◌+◌, ◌≤◌, ◌≡◌, ◌≢◌, refl, sym, ap, ◌∙◌, arith, true, false, ℕ_discrete, Bool-cases,
  inl, inr,
}
use tcengine.Base.{some, List, [], ◌∷◌, if◌then◌else◌, ltb, update}
use tcengine.Sync.Fibers.{
  Pc, idle, resuming, running, leaving, checking, returned, no_context, no_fiber, busy_fiber, Pool,
}
use tcengine.Sync.Fibers.{
  fiber_numbers, fiber_pool_init, tc_fiber_ready, Event, works, wakes, stops, step, run, InTime,
  AreInTime,
}
use tcengine.Sync.Fibers.Places.{
  count_ready, count_free, held, Place, absent, free, ready, asleep, on, At, Holds, IsPlaced,
  update_self, update_ne, Holds-other, keep, At-asleep,
}
use tcengine.Sync.Fibers.Steps.{Next, work-Next, counted, not_counted}

module _ (place : ℕ → Place) (p : Pool) (placed : IsPlaced place p) where
  wakes-Next : (n : ℕ) → p.asleep n ≡ true → Next (tc_fiber_ready n p)
  unfolding tc_fiber_ready count_ready
  wakes-Next n e =
      let (is_asleep, (r, f, s, c, j)) = At-asleep p n (place n) (placed.fibers n) e in
      let here : At (tc_fiber_ready n p) n ready = (
        counted n (count_ready n p.ready) ∙ omega (arith, r),
        f,
        update_self p.asleep n false,
        c,
        j,
      ) in
      (
        update place n ready,
        record {
          fibers = λ m. elim (ℕ_discrete m n) [
            | yes t ↦
                subst (λ k. At (tc_fiber_ready n p) k (update place n ready k)) (sym t)
                  (subst (At (tc_fiber_ready n p) n) (sym (update_self place n ready)) here)
            | no t ↦ rw (update_ne place n m ready t) (
                keep p (tc_fiber_ready n p) m (place m)
                  (
                    not_counted n m (count_ready m p.ready) t,
                    refl,
                    update_ne p.asleep n m false t,
                    refl,
                    refl,
                  )
                  (λ v h. refl) (placed.fibers m))
          ];
          workers = λ v.
              Holds-other place n v ready (p.worker v) (λ t. cc (is_asleep, t)) (placed.workers v);
        },
      )

  stops-Next : (w : ℕ) → Next (step (stops w) p)
  unfolding step count_ready
  stops-Next w = (
    place,
    record {
      fibers = λ m.
          keep p (step (stops w) p) m (place m) (refl, refl, refl, refl, refl) (λ v h. refl)
            (placed.fibers m);
      workers = placed.workers;
    },
  )

  step-Next : (e : Event) → InTime e p → Next (step e p)
  unfolding step InTime
  step-Next (works w has_job done) t = work-Next place p w placed has_job done (p.worker w) refl
  step-Next (wakes n) t = wakes-Next n t
  step-Next (stops w) t = stops-Next w

  -- Where a fiber is held, it is nowhere else.
  on_holder : (w n : ℕ) (pc : Pc) → held pc ≡ some n → Holds place w pc → place n ≡ on w
  on_holder w n (idle polls) h o = ground arith
  on_holder w n (resuming polls m) h o = ap place (ground arith) ∙ o
  on_holder w n (running polls m) h o = ap place (ground arith) ∙ o
  on_holder w n (leaving polls m) h o = ap place (ground arith) ∙ o
  on_holder w n (checking polls m) h o = ap place (ground arith) ∙ o
  on_holder w n returned h o = ground arith
  on_holder w n no_context h o = ground arith
  on_holder w n no_fiber h o = ground arith
  on_holder w n busy_fiber h o = ground arith

run-Next :
    (es : List Event) (place : ℕ → Place) (p : Pool)
    → IsPlaced place p
    → AreInTime es p
    → Next (run es p)
unfolding run AreInTime
run-Next [] place p placed t = (place, placed)
run-Next (e ∷ es) place p placed (now, later) =
    let (place', placed') = step-Next place p placed e now in
    run-Next es place' (step e p) placed' later

count_free-numbers : (k n : ℕ) → count_free n (fiber_numbers k) ≡ (if ltb n k then 1 else 0)
unfolding count_free fiber_numbers
count_free-numbers zero n = ground arith
count_free-numbers (suc k) n = ground (arith, count_free-numbers k n)

init-Next : (num : ℕ) → Next (fiber_pool_init num)
unfolding fiber_pool_init count_ready
init-Next num = (
  λ n. if ltb n num then free else absent,
  record {
    fibers = λ n. elim (Bool-cases (ltb n num)) [
      | inl e ↦
          rw e (refl, count_free-numbers num n ∙ ap (λ t. if t then 1 else 0) e, refl, refl, refl)
      | inr e ↦ rw e (refl, count_free-numbers num n ∙ ap (λ t. if t then 1 else 0) e, refl)
    ];
    workers = λ w. tt;
  },
)

-- How often a fiber is on the stacks or asleep.
pub count_resting : ℕ → Pool → ℕ
count_resting n p = count_ready n p.ready + count_free n p.free + (if p.asleep n then 1 else 0)

resting_once : (p : Pool) (n : ℕ) (x : Place) → At p n x → count_resting n p ≤ 1
unfolding count_resting
resting_once p n absent a = ground arith
resting_once p n free a = ground arith
resting_once p n ready a = ground arith
resting_once p n asleep a = ground arith
resting_once p n (on w) a = ground arith

resting_not : (p : Pool) (n w : ℕ) → At p n (on w) → count_resting n p ≡ 0
unfolding count_resting
resting_not p n w a = ground arith

-- However the workers of a new pool take turns, and whatever their fibers do, where every fiber
-- is made ready once for each yield, after the worker that it left has looked at its job: no
-- worker resumes a fiber without a context, none starts a job in a fiber that still has a job, no
-- two workers have one fiber, a fiber that a worker has is on no stack and not asleep, and the
-- others are at one of these places at most once.
pub fibers_in_one_place :
    (num : ℕ) (es : List Event)
    → AreInTime es (fiber_pool_init num)
    → ((w : ℕ) → (run es (fiber_pool_init num)).worker w ≢ no_context)
      × ((w : ℕ) → (run es (fiber_pool_init num)).worker w ≢ busy_fiber)
      × ((v w n : ℕ)
          → held ((run es (fiber_pool_init num)).worker v) ≡ some n
          → held ((run es (fiber_pool_init num)).worker w) ≡ some n
          → v ≡ w)
      × ((w n : ℕ)
          → held ((run es (fiber_pool_init num)).worker w) ≡ some n
          → count_resting n (run es (fiber_pool_init num)) ≡ 0)
      × ((n : ℕ) → count_resting n (run es (fiber_pool_init num)) ≤ 1)
fibers_in_one_place num es t =
    let (start, started) = init-Next num in
    let (place, placed) = run-Next es start (fiber_pool_init num) started t in
    let p = run es (fiber_pool_init num) in
    let holder : (w n : ℕ) → held (p.worker w) ≡ some n → place n ≡ on w =
      λ w n h. on_holder place p placed w n (p.worker w) h (placed.workers w) in
    (
      λ w e. subst (Holds place w) e (placed.workers w),
      λ w e. subst (Holds place w) e (placed.workers w),
      λ v w n h h'. let same : on v ≡ on w = sym (holder v n h) ∙ holder w n h' in ground arith,
      λ w n h. resting_not p n w (subst (At p n) (holder w n h) (placed.fibers n)),
      λ n. resting_once p n (place n) (placed.fibers n),
    )
