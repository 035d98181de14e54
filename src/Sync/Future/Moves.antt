-- ===== src/Sync/Future/Moves.antt =====
-- The parts of the invariant at a step: a thread that moves on, and one that wakes the fiber.
use tcengine.Base.{ℕ, ◌≡◌, ◌≢◌, refl, arith, inl, inr, Bool-cases, ==_self}
use mathlib.Core.Path.{subst, sym}
use tcengine.Base.{Bool, true, false, none, some, ◌==◌, update}
use tcengine.Sync.Future.{
  Slot, WakePc, scan, loaded, unused, matched, claimed, cleared, done, WaitPc, set_slot,
}
use tcengine.Sync.Future.System.{System, Job, rest, waking, after_wake}
use tcengine.Sync.Future.Invariant.{
  Phase, before, placed, waiting, taken, emptied, woken, own, gone, Comes, Fits, is_before,
  is_closed, Shows, Inv,
}

pub at_update :
    (P : ℕ → Job → Type 0) (jobs : ℕ → Job) (t : ℕ) (j : Job) (u : ℕ)
    → P t j
    → (u ≢ t → P u (jobs u))
    → P u (update jobs t j u)
at_update P jobs t j u here there = elim (Bool-cases (t == u)) [
  | inl e ↦ let same : t ≡ u = ground arith in rw e (subst (λ x. P x j) same here)
  | inr e ↦ rw e (there (ground arith))
]

-- Where only the place of thread `t` changes, from `jobs t` to `j`.
module _ (w t : ℕ) (j : Job) where
  pub Comes-update :
      (jobs : ℕ → Job)
      → (Comes w (jobs t) → Comes w j)
      → (u : ℕ) × Comes w (jobs u)
      → (u : ℕ) × Comes w (update jobs t j u)
  Comes-update jobs keep (u, c) = elim (Bool-cases (t == u)) [
    | inl e ↦
        let same : u ≡ t = ground arith in
        (t, rw (==_self t) (keep (subst (λ x. Comes w (jobs x)) same c)))
    | inr e ↦ (u, rw e c)
  ]

  pub Shows-update :
      (p : Phase) (v : ℕ) (s : Slot) (pc : WaitPc) (r : ℕ) (jobs : ℕ → Job)
      → Shows w p v s pc r jobs
      → (p ≡ waiting → Comes w (jobs t) → Comes w j)
      → (p ≡ taken t → j ≡ jobs t)
      → (p ≡ emptied t → j ≡ jobs t)
      → Shows w p v s pc r (update jobs t j)
  Shows-update before v s pc r jobs h keep x y = h
  Shows-update placed v s pc r jobs h keep x y = h
  Shows-update waiting v s pc r jobs h keep x y =
      (h.0, h.1, h.2, λ m z. Comes-update jobs (keep refl) (h.3 m z))
  Shows-update (taken u) v s pc r jobs h keep x y = (h.0, h.1, h.2, h.3, ground arith)
  Shows-update (emptied u) v s pc r jobs h keep x y = (h.0, h.1, h.2, h.3, ground arith)
  Shows-update woken v s pc r jobs h keep x y = h
  Shows-update own v s pc r jobs h keep x y = h
  Shows-update gone v s pc r jobs h keep x y = h

  pub move-Inv :
      {n : ℕ} {s : System} (p : Phase)
      → Inv w n p s
      → Fits w s.future.value p t j
      → (p ≡ waiting → Comes w (s.jobs t) → Comes w j)
      → (p ≡ taken t → j ≡ s.jobs t)
      → (p ≡ emptied t → j ≡ s.jobs t)
      → Inv w n p (record s { jobs = update s.jobs t j })
  move-Inv {s} p inv fit keep x y = record {
    fiber = inv.fiber;
    some_slot = inv.some_slot;
    slots = inv.slots;
    small = inv.small;
    others = inv.others;
    rest_free = inv.rest_free;
    fits = λ u. at_update (Fits w s.future.value p) s.jobs t j u fit (λ _. inv.fits u);
    shows =
        Shows-update p s.future.value (s.future.slots 0) (s.waits w) (s.ready w) s.jobs inv.shows
          keep x y;
  }

-- Who stands in slot 0.
pub fiber_there :
    {w n : ℕ} (p : Phase) {s : System}
    → Inv w n p s
    → (s.future.slots 0).fiber ≢ 0
    → ((s.future.slots 0).fiber ≡ w) × (is_before p ≡ false)
fiber_there p inv h = ground (arith, inv.shows)

pub fiber_in_waiting :
    {w n : ℕ} (p : Phase) {s : System}
    → Inv w n p s
    → p ≡ waiting
    → ((s.future.slots 0).fiber ≡ w) × ((s.future.slots 0).inuse ≡ false)
fiber_in_waiting waiting inv h = ground (arith, inv.shows)
fiber_in_waiting p inv h = cc

-- A fiber that is found stands in slot 0, and it is the one that waits.
pub found :
    {w n : ℕ} (p : Phase) {s : System}
    → Inv w n p s
    → (i : ℕ) → (s.future.slots i).fiber ≢ 0
    → (i ≡ 0) × ((s.future.slots i).fiber ≡ w) × (is_before p ≡ false)
found {w} p {s} inv i h = elim (Bool-cases (i == 0)) [
  | inl e ↦
      let first : 0 ≡ i = ground arith in
      let there = fiber_there p inv (λ z. h (subst (λ x. (s.future.slots x).fiber ≡ 0) first z)) in
      (sym first, subst (λ x. (s.future.slots x).fiber ≡ w) first there.0, there.1)
  | inr e ↦ absurd (h (inv.rest_free i (ground arith)))
]

pub slot_value : {w n : ℕ} (p : Phase) {s : System} → Inv w n p s → (s.future.slots 0).value ≡ 0
slot_value before inv = ground (arith, inv.shows)
slot_value p inv = ground (arith, inv.shows)

pub open_waits :
    {w n : ℕ} (p : Phase) {s : System}
    → Inv w n p s
    → (s.future.slots 0).inuse ≡ false
    → p ≡ waiting
open_waits waiting inv h = refl
open_waits p inv h = ground (arith, inv.shows)

pub Fits-change :
    (w v : ℕ) (p q : Phase) (u : ℕ) (j : Job)
    → is_closed q ≡ false
    → p ≢ taken u
    → p ≢ emptied u
    → Fits w v p u j
    → Fits w v q u j
Fits-change w v p before u j c x y h = cc
Fits-change w v p q u rest c x y h = h
Fits-change w v p q u (waking value (scan i)) c x y h = h
Fits-change w v p q u (waking value (loaded i f)) c x y h = (h.0, h.1, h.2, ground arith)
Fits-change w v p q u (waking value (unused i f)) c x y h = (h.0, h.1, h.2, c)
Fits-change w v p q u (waking value (matched i f)) c x y h = (h.0, h.1, h.2, h.3, c)
Fits-change w v p q u (waking value (claimed i f)) c x y h = absurd (x h.4)
Fits-change w v p q u (waking value (cleared i f)) c x y h = absurd (y h.4)
Fits-change w v p q u (waking value done) c x y h = h

abbrev pub is_claimed : WakePc → Bool
is_claimed (claimed i f) = true
is_claimed _ = false

abbrev pub is_cleared : WakePc → Bool
is_cleared (cleared i f) = true
is_cleared _ = false

pub not-taken :
    {w n : ℕ} (p : Phase) {s : System}
    → Inv w n p s
    → (t value : ℕ) (pc : WakePc) → s.jobs t ≡ waking value pc
    → is_claimed pc ≡ false
    → p ≢ taken t
not-taken (taken u) inv t value pc e c h = ground (arith, inv.shows)
not-taken p inv t value pc e c h = cc

pub not-emptied :
    {w n : ℕ} (p : Phase) {s : System}
    → Inv w n p s
    → (t value : ℕ) (pc : WakePc) → s.jobs t ≡ waking value pc
    → is_cleared pc ≡ false
    → p ≢ emptied t
not-emptied (emptied u) inv t value pc e c h = ground (arith, inv.shows)
not-emptied p inv t value pc e c h = cc

-- The three steps by which a thread wakes the fiber that waits.
module _ {w n : ℕ} {s : System} (t : ℕ) where
  pub matched_claims :
      Inv w n waiting s
      → s.future.value ≡ 0
      → s.jobs t ≡ waking 0 (matched 0 w)
      → Inv w n (taken t) (
          after_wake s t 0
            (set_slot 0 (record (s.future.slots 0) { inuse = true }) s.future, claimed 0 w, none))
  matched_claims inv z e = record {
    fiber = inv.fiber;
    some_slot = inv.some_slot;
    slots = inv.slots;
    small = inv.small;
    others = inv.others;
    rest_free = λ i h. ground (arith, inv.rest_free i h);
    fits = λ u.
        at_update (Fits w s.future.value (taken t)) s.jobs t (waking 0 (claimed 0 w)) u
          (refl, z, refl, refl, refl)
          (λ ne.
            Fits-change w s.future.value waiting (taken t) u (s.jobs u) refl (cc) (cc)
              (inv.fits u));
    shows = ground (arith, inv.shows);
  }

  pub claimed_clears :
      Inv w n (taken t) s
      → Inv w n (emptied t) (
          after_wake s t 0
            (set_slot 0 (record (s.future.slots 0) { fiber = 0 }) s.future, cleared 0 w, none))
  claimed_clears inv = record {
    fiber = inv.fiber;
    some_slot = inv.some_slot;
    slots = inv.slots;
    small = inv.small;
    others = inv.others;
    rest_free = λ i h. ground (arith, inv.rest_free i h);
    fits = λ u.
        at_update (Fits w s.future.value (emptied t)) s.jobs t (waking 0 (cleared 0 w)) u
          (refl, inv.shows.3, refl, refl, refl)
          (λ ne.
            Fits-change w s.future.value (taken t) (emptied t) u (s.jobs u) refl (λ h. ne (cc)) (cc)
              (inv.fits u));
    shows = ground (arith, inv.shows);
  }

  pub cleared_readies :
      Inv w n (emptied t) s → Inv w n woken (after_wake s t 0 (s.future, scan 1, some w))
  cleared_readies inv = record {
    fiber = inv.fiber;
    some_slot = inv.some_slot;
    slots = inv.slots;
    small = inv.small;
    others = inv.others;
    rest_free = inv.rest_free;
    fits = λ u.
        at_update (Fits w s.future.value woken) s.jobs t (waking 0 (scan 1)) u (λ _. inv.shows.3)
          (λ ne.
            Fits-change w s.future.value (emptied t) woken u (s.jobs u) refl (cc) (λ h. ne (cc))
              (inv.fits u));
    shows = ground (arith, inv.shows);
  }
