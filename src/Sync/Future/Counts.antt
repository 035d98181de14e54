-- ===== src/Sync/Future/Counts.antt =====
-- One count down keeps the invariant.
use tcengine.Base.{ℕ, ◌+◌, ◌-◌, ◌%◌, ◌^◌, ◌<◌, refl, arith, ==_self}
use tcengine.Base.{update}
use tcengine.Sync.Future.{
  Slot, scan, loaded, unused, matched, claimed, cleared, done, WaitPc, opened, probed, free,
  claiming, returned, fut_decr,
}
use tcengine.Sync.Future.System.{System, Job, rest, waking, after_decr}
use tcengine.Sync.Future.Invariant.{
  Phase, before, placed, waiting, taken, emptied, woken, own, gone, IsOpen, Fits, Shows, Inv,
}
use tcengine.Sync.Future.Moves.{at_update}

Fits-count : (w v v' : ℕ) (p : Phase) (u : ℕ) (j : Job) → 0 < v → Fits w v p u j → Fits w v' p u j
Fits-count w v v' p u rest pos h = h
Fits-count w v v' p u (waking value (scan i)) pos h = λ z. absurd (omega (arith, h z))
Fits-count w v v' p u (waking value (loaded i f)) pos h =
    (λ z. absurd (omega (arith, h.0 z)), h.1, h.2, h.3)
Fits-count w v v' p u (waking value (unused i f)) pos h =
    (λ z. absurd (omega (arith, h.0 z)), h.1, h.2, h.3)
Fits-count w v v' p u (waking value (matched i f)) pos h = absurd (omega (arith, h.1))
Fits-count w v v' p u (waking value (claimed i f)) pos h = absurd (omega (arith, h.1))
Fits-count w v v' p u (waking value (cleared i f)) pos h = absurd (omega (arith, h.1))
Fits-count w v v' p u (waking value done) pos h = λ z. absurd (omega (arith, h z))

IsOpen-count : (v v' : ℕ) (pc : WaitPc) → 0 < v → IsOpen v pc → IsOpen v' pc
IsOpen-count v v' (opened i) pos h = h
IsOpen-count v v' (probed i p) pos h = (h.0, λ z. absurd (omega (arith, h.1 z)))
IsOpen-count v v' (free i p) pos h = (h.0, λ z. absurd (omega (arith, h.1 z)))
IsOpen-count v v' (claiming i) pos h = absurd (omega (arith, h.1))
IsOpen-count v v' (returned b) pos h = h
IsOpen-count v v' pc pos h = absurd h

-- Thread `t` starts to wake the fibers that wait for `v'`.
Shows-count :
    (w : ℕ) (p : Phase) (v v' : ℕ) (slot : Slot) (pc : WaitPc) (r : ℕ) (jobs : ℕ → Job) (t : ℕ)
    → 0 < v
    → Shows w p v slot pc r jobs
    → Shows w p v' slot pc r (update jobs t (waking v' (scan 0)))
Shows-count w before v v' slot pc r jobs t pos h = h
Shows-count w placed v v' slot pc r jobs t pos h = h
Shows-count w waiting v v' slot pc r jobs t pos h =
    (h.0, IsOpen-count v v' pc pos h.1, h.2, λ m z. (t, rw (==_self t) (z, refl)))
Shows-count w (taken u) v v' slot pc r jobs t pos h = absurd (omega (arith, h.3))
Shows-count w (emptied u) v v' slot pc r jobs t pos h = absurd (omega (arith, h.3))
Shows-count w woken v v' slot pc r jobs t pos h = absurd (omega (arith, h.3))
Shows-count w own v v' slot pc r jobs t pos h = absurd (omega (arith, h.3))
Shows-count w gone v v' slot pc r jobs t pos h = absurd (omega (arith, h.3))

pub decr-Inv :
    {w n : ℕ} (p : Phase) {s : System}
    → Inv w n p s
    → (t : ℕ) → 0 < s.future.value
    → Inv w n p (after_decr s t (fut_decr s.future))
unfolding fut_decr
decr-Inv {w} p {s} inv t pos =
    let v : ℕ = (s.future.value + 2 ^ 64 - 1) % 2 ^ 64 in
    record {
      fiber = inv.fiber;
      some_slot = inv.some_slot;
      slots = inv.slots;
      small = omega arith;
      others = inv.others;
      rest_free = inv.rest_free;
      fits = λ u.
          at_update (Fits w v p) s.jobs t (waking v (scan 0)) u (λ z. z)
            (λ _. Fits-count w s.future.value v p u (s.jobs u) pos (inv.fits u));
      shows =
          Shows-count w p s.future.value v (s.future.slots 0) (s.waits w) (s.ready w) s.jobs t pos
            inv.shows;
    }
