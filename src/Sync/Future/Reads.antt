-- ===== src/Sync/Future/Reads.antt =====
-- The accesses by which the fiber that waits goes on from one phase to the next.
use mathlib.Core.Path.{subst, sym}
use tcengine.Base.{ℕ, ◌≡◌, ◌≢◌, refl, arith, ==_self}
use tcengine.Base.{Bool, true, false}
use tcengine.Sync.Future.{
  Slot, scan, loaded, unused, matched, claimed, cleared, done, WaitPc, trying, got, valued, opened,
  won, returned, wait_step, set_slot,
}
use tcengine.Sync.Future.System.{System, Job, rest, waking, after_wait}
use tcengine.Sync.Future.Invariant.{
  Phase, before, placed, waiting, taken, emptied, woken, own, gone, IsOpen, has_missed, Comes, Fits,
  is_before, is_closed, Shows, Inv,
}

abbrev pub Holds : ℕ → ℕ → System → Type 0
Holds w n s = (q : Phase) × Inv w n q s

Fits-later :
    (w v : ℕ) (p q : Phase) (u : ℕ) (j : Job)
    → (is_before p ≡ false → is_before q ≡ false)
    → (is_closed p ≡ false → is_closed q ≡ false)
    → p ≢ taken u
    → p ≢ emptied u
    → Fits w v p u j
    → Fits w v q u j
Fits-later w v p q u rest b c x y h = h
Fits-later w v p q u (waking value (scan i)) b c x y h = h
Fits-later w v p q u (waking value (loaded i f)) b c x y h = (h.0, h.1, h.2, b h.3)
Fits-later w v p q u (waking value (unused i f)) b c x y h = (h.0, h.1, h.2, c h.3)
Fits-later w v p q u (waking value (matched i f)) b c x y h = (h.0, h.1, h.2, h.3, c h.4)
Fits-later w v p q u (waking value (claimed i f)) b c x y h = absurd (x h.4)
Fits-later w v p q u (waking value (cleared i f)) b c x y h = absurd (y h.4)
Fits-later w v p q u (waking value done) b c x y h = h

-- Whether a phase is one in which no thread has the fiber.
abbrev no_thread : Phase → Bool
no_thread (taken t) = false
no_thread (emptied t) = false
no_thread _ = true

not-thread : (p : Phase) (u : ℕ) → no_thread p ≡ true → (p ≢ taken u) × (p ≢ emptied u)
not-thread p u h = (λ e. ground arith, λ e. ground arith)

-- The fiber reads only.
Shows-read :
    (w : ℕ) (p : Phase) (v : ℕ) (slot : Slot) (pc pc' : WaitPc) (r : ℕ) (jobs : ℕ → Job)
    → Shows w p v slot pc r jobs
    → IsOpen v pc
    → IsOpen v pc'
    → (p ≡ waiting → has_missed pc' ≡ true → v ≡ 0 → (t : ℕ) × Comes w (jobs t))
    → Shows w p v slot pc' r jobs
Shows-read w before v slot pc pc' r jobs h o o' m = absurd (ground arith)
Shows-read w placed v slot pc pc' r jobs h o o' m = absurd (ground arith)
Shows-read w waiting v slot pc pc' r jobs h o o' m = (h.0, o', h.2, m refl)
Shows-read w (taken t) v slot pc pc' r jobs h o o' m = (h.0, o', h.2, h.3, h.4)
Shows-read w (emptied t) v slot pc pc' r jobs h o o' m = (h.0, o', h.2, h.3, h.4)
Shows-read w woken v slot pc pc' r jobs h o o' m = (h.0, o', h.2, h.3)
Shows-read w own v slot pc pc' r jobs h o o' m = absurd (ground arith)
Shows-read w gone v slot pc pc' r jobs h o o' m = absurd (ground arith)

module _ {w n : ℕ} {s : System} where
  -- The fiber writes slot 0, or nothing, and goes on to `pc`.
  pub go_on :
      (p q : Phase) (slot : Slot) (pc : WaitPc)
      → Inv w n p s
      → (is_before p ≡ false → is_before q ≡ false)
      → (is_closed p ≡ false → is_closed q ≡ false)
      → no_thread p ≡ true
      → Shows w q s.future.value slot pc (s.ready w) s.jobs
      → Inv w n q (after_wait s w (set_slot 0 slot s.future, pc))
  go_on p q slot pc inv b c alone sh = record {
    fiber = inv.fiber;
    some_slot = inv.some_slot;
    slots = inv.slots;
    small = inv.small;
    others = λ f h. ground (arith, inv.others f h);
    rest_free = λ i h. ground (arith, inv.rest_free i h);
    fits = λ u.
        Fits-later w s.future.value p q u (s.jobs u) b c (not-thread p u alone).0
          (not-thread p u alone).1 (inv.fits u);
    shows = rw (==_self w) sh;
  }

  pub read_on :
      (p : Phase) (pc' : WaitPc)
      → Inv w n p s
      → IsOpen s.future.value (s.waits w)
      → IsOpen s.future.value pc'
      → (p ≡ waiting → has_missed pc' ≡ true → s.future.value ≡ 0 → (t : ℕ) × Comes w (s.jobs t))
      → Holds w n (after_wait s w (s.future, pc'))
  read_on p pc' inv o o' m = (
    p,
    record {
      fiber = inv.fiber;
      some_slot = inv.some_slot;
      slots = inv.slots;
      small = inv.small;
      others = λ f h. ground (arith, inv.others f h);
      rest_free = inv.rest_free;
      fits = inv.fits;
      shows = rw (==_self w) (
          Shows-read w p s.future.value (s.future.slots 0) (s.waits w) pc' (s.ready w) s.jobs
            inv.shows o o' m);
    },
  )

  pub before-Inv : Inv w n before s → Holds w n (after_wait s w (wait_step w 0 s.future (trying 0)))
  unfolding wait_step
  before-Inv inv =
      let step : (wait_step w 0 s.future (trying 0))
          ≡ (set_slot 0 (record (s.future.slots 0) { fiber = w }) s.future, got 0) =
        ground (arith, inv.slots, inv.some_slot, inv.shows) in
      (
        placed,
        subst (λ x. Inv w n placed (after_wait s w x)) (sym step)
            (go_on before placed (record (s.future.slots 0) { fiber = w }) (got 0) inv (λ h. refl)
              (λ h. cc) refl (ground (arith, inv.shows))),
      )

  pub got_zero :
      Inv w n placed s
      → s.waits w ≡ got 0
      → Holds w n (after_wait s w (wait_step w 0 s.future (got 0)))
  unfolding wait_step
  got_zero inv e = (
    placed,
    go_on placed placed (record (s.future.slots 0) { value = 0 }) (valued 0) inv (λ h. h) (λ h. h)
        refl (ground (arith, inv.shows)),
  )

  pub valued_zero :
      Inv w n placed s
      → s.waits w ≡ valued 0
      → Holds w n (after_wait s w (wait_step w 0 s.future (valued 0)))
  unfolding wait_step
  valued_zero inv e = (
    waiting,
    go_on placed waiting (record (s.future.slots 0) { inuse = false }) (opened 0) inv (λ h. h)
        (λ h. refl) refl
        ((inv.shows.0.0, refl, inv.shows.0.2), refl, inv.shows.2, λ m z. absurd (cc)),
  )

  -- The fiber claims slot 0 for itself, and empties it.
  pub claims :
      Inv w n waiting s
      → s.future.value ≡ 0
      → Inv w n own
          (after_wait s w (set_slot 0 (record (s.future.slots 0) { inuse = true }) s.future, won 0))
  claims inv z =
      go_on waiting own (record (s.future.slots 0) { inuse = true }) (won 0) inv (λ h. refl)
        (λ h. refl) refl (ground (arith, inv.shows))

  pub leaves : Inv w n own s → Holds w n (after_wait s w (wait_step w 0 s.future (won 0)))
  unfolding wait_step
  leaves inv = (
    gone,
    go_on own gone (record (s.future.slots 0) { fiber = 0 }) (returned true) inv (λ h. refl)
        (λ h. refl) refl (ground (arith, inv.shows)),
  )
