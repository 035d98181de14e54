-- ===== src/Sync/Fibers/Steps.antt =====
-- Every step of a worker leaves the fibers in one place each.
use mathlib.Core.Path.{subst}
use tcengine.Base.{
  ℕ, ◌+◌, ◌≡◌, ◌≢◌, inl, inr, refl, sym, ap, ◌∙◌, arith, Bool, true, false, not, Bool-cases,
}
use tcengine.Base.{none, some, List, [], ◌∷◌, ◌==◌, if◌then◌else◌, update, ==_self, ==_false}
use tcengine.Sync.Fibers.{
  Fiber, sched, fiber, Pc, idle, resuming, running, leaving, checking, returned, no_context,
  no_fiber, busy_fiber, Pool, at,
}
use tcengine.Sync.Fibers.{
  pop_ready, start_job, tc_fiber_resume, finish_job, save_context, check_job, work,
}
use tcengine.Sync.Fibers.Places.{
  count_ready, count_free, held, Place, free, asleep, on, Runs, At, Holds, IsPlaced, update_self,
  update_ne, moves, stays, At-ready, At-free,
}

abbrev pub Next : Pool → Type 0
Next p = (place : ℕ → Place) × IsPlaced place p

pub counted : (n k : ℕ) → (if n == n then 1 else 0) + k ≡ 1 + k
counted n k = rw (==_self n) refl

pub not_counted : (n m k : ℕ) → m ≢ n → (if n == m then 1 else 0) + k ≡ k
not_counted n m k h = rw (==_false n m (λ t. h (sym t))) (omega arith)

module _ (place : ℕ → Place) (p : Pool) (w : ℕ) (placed : IsPlaced place p) where
  others : (pc : Pc) (v : ℕ) → v ≢ w → (at w pc p).worker v ≡ p.worker v
  others pc v h = update_ne p.worker w v pc h

  nothing_held : (pc : Pc) (n : ℕ) → p.worker w ≡ pc → held pc ≡ none → held (p.worker w) ≢ some n
  nothing_held pc n e h t = cc (ap held e, h, t)

  pop_ready-Next :
      (fs : List Fiber) → p.ready ≡ fs → p.worker w ≡ idle false → Next (pop_ready w fs p)
  unfolding pop_ready count_ready
  pop_ready-Next [] e pc = (
    place,
    stays place p (at w (idle true) p) w placed (ap held pc) (λ m. (refl, refl, refl, refl, refl))
        (others (idle true)) (rw (update_self p.worker w (idle true)) tt),
  )
  pop_ready-Next (sched v ∷ fs) e pc = elim (Bool-cases (v == w)) [
    | inl t ↦ rw t (
      place,
      stays place p (at w returned (record p { ready = fs })) w placed (ap held pc)
          (λ m. (sym (ap (count_ready m) e), refl, refl, refl, refl)) (others returned)
          (rw (update_self p.worker w returned) tt),
    )
    | inr t ↦ rw t (
      place,
      stays place p (at w (idle true) p) w placed (ap held pc) (λ m. (refl, refl, refl, refl, refl))
          (others (idle true)) (rw (update_self p.worker w (idle true)) tt),
    )
  ]
  pop_ready-Next (fiber n ∷ fs) e pc =
      let here : count_ready n p.ready ≡ 1 + count_ready n fs =
        ap (count_ready n) e ∙ ap (λ t. (if t then 1 else 0) + count_ready n fs) (==_self n) in
      let (is_ready, (c, f, s, ctx, j)) =
        At-ready p n (place n) (placed.fibers n) (omega (arith, here)) in
      (
        update place n (on w),
        moves place p (at w (resuming false n) (record p { ready = fs })) w n (on w) placed
            (λ v o t. cc (is_ready, t)) (λ m o. nothing_held (idle false) m pc refl)
            (λ m o. (
              omega (arith, ap (count_ready m) e, not_counted n m (count_ready m fs) o),
              refl,
              refl,
              refl,
              refl,
            ))
            (others (resuming false n))
            (
              omega (arith, here, c),
              f,
              s,
              rw (update_self p.worker w (resuming false n)) refl,
              rw (update_self p.worker w (resuming false n)) (ctx, j),
            )
            (rw (update_self p.worker w (resuming false n)) (update_self place n (on w))),
      )

  held_elsewhere :
      (pc : Pc) (n m : ℕ) → p.worker w ≡ pc → held pc ≡ some n → m ≢ n → held (p.worker w) ≢ some m
  held_elsewhere pc n m e h o t =
      let same : some n ≡ some m = sym h ∙ sym (ap held e) ∙ t in o (ground arith)

  start_job-Next : (ns : List ℕ) → p.free ≡ ns → p.worker w ≡ idle true → Next (start_job w ns p)
  unfolding start_job count_free
  start_job-Next [] e pc = (
    place,
    stays place p (at w no_fiber p) w placed (ap held pc) (λ m. (refl, refl, refl, refl, refl))
        (others no_fiber) (rw (update_self p.worker w no_fiber) tt),
  )
  start_job-Next (n ∷ ns) e pc =
      let here : count_free n p.free ≡ 1 + count_free n ns =
        ap (count_free n) e ∙ ap (λ t. (if t then 1 else 0) + count_free n ns) (==_self n) in
      let (is_free, (r, f, s, ctx, no_job)) =
        At-free p n (place n) (placed.fibers n) (omega (arith, here)) in
      let next = resuming true n in
      let started = update_self p.worker w next in
      rw no_job (
        update place n (on w),
        moves place p (at w next (record p { free = ns; job = update p.job n true })) w n (on w)
            placed (λ v o t. cc (is_free, t)) (λ m o. nothing_held (idle true) m pc refl)
            (λ m o. (
              refl,
              omega (arith, ap (count_free m) e, not_counted n m (count_free m ns) o),
              refl,
              refl,
              update_ne p.job n m true o,
            ))
            (others next)
            (
              r,
              omega (arith, here, f),
              s,
              rw started refl,
              rw started (ctx, update_self p.job n true),
            )
            (rw started (update_self place n (on w))),
      )

  -- A worker goes on with its fiber.
  held_step :
      (pc next : Pc) (n : ℕ) (fctx job : ℕ → Bool)
      → p.worker w ≡ pc
      → held pc ≡ some n
      → held next ≡ some n
      → place n ≡ on w
      → ((m : ℕ) → m ≢ n → fctx m ≡ p.fctx m)
      → ((m : ℕ) → m ≢ n → job m ≡ p.job m)
      → Runs next (fctx n) (job n)
      → Holds (update place n (on w)) w next
      → Next (at w next (record p { fctx = fctx; job = job }))
  held_step pc next n fctx job e h h' here fs js runs holds =
      let (r, f, s, h0, rest) = subst (At p n) here (placed.fibers n) in
      let started = update_self p.worker w next in
      (
        update place n (on w),
        moves place p (at w next (record p { fctx = fctx; job = job })) w n (on w) placed
            (λ v o t. let same : on v ≡ on w = sym t ∙ here in o (ground arith))
            (λ m o. held_elsewhere pc n m e h o) (λ m o. (refl, refl, refl, fs m o, js m o))
            (others next) (r, f, s, ap held started ∙ h', rw started runs) (rw started holds),
      )

  at_worker : (pc : Pc) (n : ℕ) → p.worker w ≡ pc → place n ≡ on w → Runs pc (p.fctx n) (p.job n)
  at_worker pc n e here =
      let (r, f, s, h, runs) = subst (At p n) here (placed.fibers n) in
      subst (λ c. Runs c (p.fctx n) (p.job n)) e runs

  on_worker : (pc : Pc) → p.worker w ≡ pc → Holds place w pc
  on_worker pc e = subst (Holds place w) e (placed.workers w)

  tc_fiber_resume-Next :
      (polls : Bool) (n : ℕ) → p.worker w ≡ resuming polls n → Next (tc_fiber_resume w polls n p)
  unfolding tc_fiber_resume
  tc_fiber_resume-Next polls n e =
      let here : place n ≡ on w = on_worker (resuming polls n) e in
      rw ((at_worker (resuming polls n) n e here).0) (
        held_step (resuming polls n) (running polls n) n (update p.fctx n false) p.job e refl refl
          here (λ m o. update_ne p.fctx n m false o) (λ m o. refl) (update_self p.fctx n false)
          (update_self place n (on w)))

  yield-Next :
      (polls : Bool) (n : ℕ) → p.worker w ≡ running polls n → Next (at w (leaving polls n) p)
  yield-Next polls n e =
      let here : place n ≡ on w = on_worker (running polls n) e in
      held_step (running polls n) (leaving polls n) n p.fctx p.job e refl refl here (λ m o. refl)
        (λ m o. refl) (at_worker (running polls n) n e here) (update_self place n (on w))

  finish_job-Next :
      (polls : Bool) (n : ℕ) → p.worker w ≡ running polls n → Next (finish_job w polls n p)
  unfolding finish_job
  finish_job-Next polls n e =
      let here : place n ≡ on w = on_worker (running polls n) e in
      held_step (running polls n) (leaving polls n) n p.fctx (update p.job n false) e refl refl here
        (λ m o. refl) (λ m o. update_ne p.job n m false o) (at_worker (running polls n) n e here)
        (update_self place n (on w))

  save_context-Next :
      (polls : Bool) (n : ℕ) → p.worker w ≡ leaving polls n → Next (save_context w polls n p)
  unfolding save_context
  save_context-Next polls n e =
      let here : place n ≡ on w = on_worker (leaving polls n) e in
      held_step (leaving polls n) (checking polls n) n (update p.fctx n true) p.job e refl refl here
        (λ m o. update_ne p.fctx n m true o) (λ m o. refl) (update_self p.fctx n true)
        (update_self place n (on w))

  check_job-Next :
      (polls : Bool) (n : ℕ) → p.worker w ≡ checking polls n → Next (check_job w polls n p)
  unfolding check_job count_free
  check_job-Next polls n e =
      let here : place n ≡ on w = on_worker (checking polls n) e in
      let (r, f, s, h, runs) = subst (At p n) here (placed.fibers n) in
      let saved : p.fctx n ≡ true = at_worker (checking polls n) n e here in
      let elsewhere : (v : ℕ) → v ≢ w → place n ≢ on v =
        λ v o t. let same : on v ≡ on w = sym t ∙ here in o (ground arith) in
      let next = idle (not polls) in
      let back = update_self p.worker w next in
      elim (Bool-cases (p.job n)) [
        | inl j ↦ rw j (
          update place n asleep,
          moves place p (at w next (record p { asleep = update p.asleep n true })) w n asleep placed
              elsewhere (λ m o. held_elsewhere (checking polls n) n m e refl o)
              (λ m o. (refl, refl, update_ne p.asleep n m true o, refl, refl)) (others next)
              (r, f, update_self p.asleep n true, saved, j) (rw back tt),
        )
        | inr j ↦ rw j (
          update place n free,
          moves place p (at w next (record p { free = n ∷ p.free })) w n free placed elsewhere
              (λ m o. held_elsewhere (checking polls n) n m e refl o)
              (λ m o. (refl, not_counted n m (count_free m p.free) o, refl, refl, refl))
              (others next) (r, counted n (count_free n p.free) ∙ omega (arith, f), s, saved, j)
              (rw back tt),
        )
      ]

  idle-Next : p.worker w ≡ idle true → Next (at w (idle false) p)
  idle-Next e = (
    place,
    stays place p (at w (idle false) p) w placed (ap held e) (λ m. (refl, refl, refl, refl, refl))
        (others (idle false)) (rw (update_self p.worker w (idle false)) tt),
  )

  pub work-Next :
      (has_job done : Bool) (pc : Pc) → p.worker w ≡ pc → Next (work w has_job done pc p)
  unfolding work
  work-Next has_job done (idle false) e = pop_ready-Next p.ready refl e
  work-Next false done (idle true) e = idle-Next e
  work-Next true done (idle true) e = start_job-Next p.free refl e
  work-Next has_job done (resuming polls n) e = tc_fiber_resume-Next polls n e
  work-Next has_job false (running polls n) e = yield-Next polls n e
  work-Next has_job true (running polls n) e = finish_job-Next polls n e
  work-Next has_job done (leaving polls n) e = save_context-Next polls n e
  work-Next has_job done (checking polls n) e = check_job-Next polls n e
  work-Next has_job done returned e = (place, placed)
  work-Next has_job done no_context e = (place, placed)
  work-Next has_job done no_fiber e = (place, placed)
  work-Next has_job done busy_fiber e = (place, placed)
