-- ===== src/Sync/Fibers/Places.antt =====
-- Every fiber of the pool is in one place: with one worker, asleep, or once on one of the stacks.
use tcengine.Base.{ℕ, ◌+◌, ◌<◌, ◌≡◌, ◌≢◌, refl, sym, ap, ◌∙◌, arith, Bool, true, false, ℕ_discrete}
use tcengine.Base.{
  Option, none, some, List, [], ◌∷◌, ◌==◌, if◌then◌else◌, update, ==_self, ==_false,
}
use tcengine.Sync.Fibers.{
  Fiber, sched, fiber, Pc, idle, resuming, running, leaving, checking, returned, no_context,
  no_fiber, busy_fiber, Pool,
}

-- How often a fiber stands on a stack.
unfoldable pub count_ready : ℕ → List Fiber → ℕ
count_ready n [] = 0
count_ready n (sched w ∷ fs) = count_ready n fs
count_ready n (fiber m ∷ fs) = (if m == n then 1 else 0) + count_ready n fs

unfoldable pub count_free : ℕ → List ℕ → ℕ
count_free n [] = 0
count_free n (m ∷ ms) = (if m == n then 1 else 0) + count_free n ms

-- The fiber that a worker has.
abbrev pub held : Pc → Option ℕ
held (idle polls) = none
held (resuming polls n) = some n
held (running polls n) = some n
held (leaving polls n) = some n
held (checking polls n) = some n
held returned = none
held no_context = none
held no_fiber = none
held busy_fiber = none

pub data Place : Type 0 where
  absent : Place
  free : Place
  ready : Place
  asleep : Place
  on : (w : ℕ) → Place

-- What a worker that holds a fiber has made of the fiber's context and job.
abbrev pub Runs : Pc → (fctx job : Bool) → Type 0
Runs (resuming polls n) fctx job = (fctx ≡ true) × (job ≡ true)
Runs (running polls n) fctx job = fctx ≡ false
Runs (leaving polls n) fctx job = fctx ≡ false
Runs (checking polls n) fctx job = fctx ≡ true
Runs other fctx job = ⊥

-- A fiber with these counts and fields is at this place.
abbrev pub Fits :
    Place → (readies frees : ℕ) (sleeps fctx job : Bool) (worker : ℕ → Pc) → ℕ → Type 0
Fits absent r f s c j worker n = (r ≡ 0) × (f ≡ 0) × (s ≡ false)
Fits free r f s c j worker n = (r ≡ 0) × (f ≡ 1) × (s ≡ false) × (c ≡ true) × (j ≡ false)
Fits ready r f s c j worker n = (r ≡ 1) × (f ≡ 0) × (s ≡ false) × (c ≡ true) × (j ≡ true)
Fits asleep r f s c j worker n = (r ≡ 0) × (f ≡ 0) × (s ≡ true) × (c ≡ true) × (j ≡ true)
Fits (on w) r f s c j worker n =
    (r ≡ 0) × (f ≡ 0) × (s ≡ false) × (held (worker w) ≡ some n) × Runs (worker w) c j

abbrev pub At : Pool → ℕ → Place → Type 0
At p n place =
    Fits place (count_ready n p.ready) (count_free n p.free) (p.asleep n) (p.fctx n) (p.job n)
      p.worker n

-- A worker's fiber is at the worker, and no worker has failed in tc_fiber_resume or at a fiber that
-- has a job.
abbrev pub Holds : (ℕ → Place) → ℕ → Pc → Type 0
Holds place w (resuming polls n) = place n ≡ on w
Holds place w (running polls n) = place n ≡ on w
Holds place w (leaving polls n) = place n ≡ on w
Holds place w (checking polls n) = place n ≡ on w
Holds place w no_context = ⊥
Holds place w busy_fiber = ⊥
Holds place w other = Unit

pub record IsPlaced (place : ℕ → Place) (p : Pool) : Type 0 where
  pub fibers : (n : ℕ) → At p n (place n)
  pub workers : (w : ℕ) → Holds place w (p.worker w)

-- All that a change leaves alone at a fiber.
abbrev pub Same : (p p' : Pool) → ℕ → Type 0
Same p p' m =
    (count_ready m p'.ready ≡ count_ready m p.ready)
    × (count_free m p'.free ≡ count_free m p.free)
    × (p'.asleep m ≡ p.asleep m)
    × (p'.fctx m ≡ p.fctx m)
    × (p'.job m ≡ p.job m)

pub keep :
    (p p' : Pool) (m : ℕ) (x : Place)
    → Same p p' m
    → ((v : ℕ) → held (p.worker v) ≡ some m → p'.worker v ≡ p.worker v)
    → At p m x
    → At p' m x
keep p p' m absent (r, f, s, c, j) ws (a, b, d) = (r ∙ a, f ∙ b, s ∙ d)
keep p p' m free (r, f, s, c, j) ws (a, b, d, e, g) = (r ∙ a, f ∙ b, s ∙ d, c ∙ e, j ∙ g)
keep p p' m ready (r, f, s, c, j) ws (a, b, d, e, g) = (r ∙ a, f ∙ b, s ∙ d, c ∙ e, j ∙ g)
keep p p' m asleep (r, f, s, c, j) ws (a, b, d, e, g) = (r ∙ a, f ∙ b, s ∙ d, c ∙ e, j ∙ g)
keep p p' m (on v) (r, f, s, c, j) ws (a, b, d, e, g) =
    (r ∙ a, f ∙ b, s ∙ d, ap held (ws v e) ∙ e, rw (ws v e, c, j) g)

-- A change of worker `w` changes no worker that has the fiber `m`.
same_holder :
    (p p' : Pool) (w m : ℕ)
    → ((v : ℕ) → v ≢ w → p'.worker v ≡ p.worker v)
    → held (p.worker w) ≢ some m
    → (v : ℕ) → held (p.worker v) ≡ some m
    → p'.worker v ≡ p.worker v
same_holder p p' w m others nh v h = elim (ℕ_discrete v w) [
  | yes e ↦ absurd (nh (ap (λ u. held (p.worker u)) (sym e) ∙ h))
  | no e ↦ others v e
]

update_other :
    (place : ℕ → Place) (n m v : ℕ) (x : Place)
    → place n ≢ on v
    → place m ≡ on v
    → update place n x m ≡ on v
update_other place n m v x h o = elim (ℕ_discrete n m) [
  | yes e ↦ absurd (h (ap place e ∙ o))
  | no e ↦ rw (==_false n m e) o
]

pub update_self : {A : Type 0} (f : ℕ → A) (n : ℕ) (x : A) → update f n x n ≡ x
update_self f n x = rw (==_self n) refl

pub update_ne : {A : Type 0} (f : ℕ → A) (n m : ℕ) (x : A) → m ≢ n → update f n x m ≡ f m
update_ne f n m x h = rw (==_false n m (λ e. h (sym e))) refl

pub Holds-other :
    (place : ℕ → Place) (n v : ℕ) (x : Place) (pc : Pc)
    → place n ≢ on v
    → Holds place v pc
    → Holds (update place n x) v pc
Holds-other place n v x (idle polls) h o = tt
Holds-other place n v x (resuming polls m) h o = update_other place n m v x h o
Holds-other place n v x (running polls m) h o = update_other place n m v x h o
Holds-other place n v x (leaving polls m) h o = update_other place n m v x h o
Holds-other place n v x (checking polls m) h o = update_other place n m v x h o
Holds-other place n v x returned h o = tt
Holds-other place n v x no_context h o = o
Holds-other place n v x no_fiber h o = tt
Holds-other place n v x busy_fiber h o = o

-- Worker `w` takes fiber `n` to the place `x`.
pub moves :
    (place : ℕ → Place) (p p' : Pool) (w n : ℕ) (x : Place)
    → IsPlaced place p
    → ((v : ℕ) → v ≢ w → place n ≢ on v)
    → ((m : ℕ) → m ≢ n → held (p.worker w) ≢ some m)
    → ((m : ℕ) → m ≢ n → Same p p' m)
    → ((v : ℕ) → v ≢ w → p'.worker v ≡ p.worker v)
    → At p' n x
    → Holds (update place n x) w (p'.worker w)
    → IsPlaced (update place n x) p'
moves place p p' w n x placed here held_here same others at_n holds_w = record {
  fibers = λ m. elim (ℕ_discrete m n) [
    | yes e ↦ rw (e, update_self place n x) at_n
    | no e ↦ rw (update_ne place n m x e) (
        keep p p' m (place m) (same m e) (same_holder p p' w m others (held_here m e))
          (placed.fibers m))
  ];
  workers = λ v. elim (ℕ_discrete v w) [
    | yes e ↦ rw e holds_w
    | no e ↦ rw (others v e) (Holds-other place n v x (p.worker v) (here v e) (placed.workers v))
  ];
}

-- A worker without a fiber goes on without one.
pub stays :
    (place : ℕ → Place) (p p' : Pool) (w : ℕ)
    → IsPlaced place p
    → held (p.worker w) ≡ none
    → ((m : ℕ) → Same p p' m)
    → ((v : ℕ) → v ≢ w → p'.worker v ≡ p.worker v)
    → Holds place w (p'.worker w)
    → IsPlaced place p'
stays place p p' w placed nothing same others holds_w = record {
  fibers = λ m.
      keep p p' m (place m) (same m) (same_holder p p' w m others (λ e. cc (nothing, e)))
        (placed.fibers m);
  workers = λ v. elim (ℕ_discrete v w) [
    | yes e ↦ rw e holds_w
    | no e ↦ rw (others v e) (placed.workers v)
  ];
}

-- A fiber on a stack is at no other place.
pub At-ready :
    (p : Pool) (n : ℕ) (x : Place)
    → At p n x
    → 0 < count_ready n p.ready
    → (x ≡ ready) × At p n ready
At-ready p n absent a h = absurd (omega (arith, a.0))
At-ready p n free a h = absurd (omega (arith, a.0))
At-ready p n ready a h = (refl, a)
At-ready p n asleep a h = absurd (omega (arith, a.0))
At-ready p n (on w) a h = absurd (omega (arith, a.0))

pub At-free :
    (p : Pool) (n : ℕ) (x : Place) → At p n x → 0 < count_free n p.free → (x ≡ free) × At p n free
At-free p n absent a h = absurd (omega (arith, a.1))
At-free p n free a h = (refl, a)
At-free p n ready a h = absurd (omega (arith, a.1))
At-free p n asleep a h = absurd (omega (arith, a.1))
At-free p n (on w) a h = absurd (omega (arith, a.1))

pub At-asleep :
    (p : Pool) (n : ℕ) (x : Place) → At p n x → p.asleep n ≡ true → (x ≡ asleep) × At p n asleep
At-asleep p n absent a h = cc (h, a.2)
At-asleep p n free a h = cc (h, a.2)
At-asleep p n ready a h = cc (h, a.2)
At-asleep p n asleep a h = (refl, a)
At-asleep p n (on w) a h = cc (h, a.2)
