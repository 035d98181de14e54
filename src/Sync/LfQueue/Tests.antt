-- ===== src/Sync/LfQueue/Tests.antt =====
-- Runs of the queue, and its theorems at them.
use tcengine.Base.{ℕ, ◌+◌, ◌≤◌, ◌<◌, ◌≡◌, inl, refl, arith}
use tcengine.Base.{false, some}
use tcengine.Sync.LfQueue.{Cell, PutPc, GetPc, init, init_cells, put_step, get_step}
use tcengine.Sync.LfQueue.System.{System, put, get, Reach, here, next}
use tcengine.Sync.LfQueue.System.{call_put, call_get, run_put, run_get}
use tcengine.Sync.LfQueue.Invariant.{IsSize}
use tcengine.Sync.LfQueue.Fifo.{get_returns_put, capacity, exclusive}

abbrev two : IsSize 2
two = record { bits = 1; is_power = refl; at_least_two = omega arith; at_most = omega arith }

abbrev blank : ℕ → Cell
blank _ = record { sequence = 0; datum = 0 }

-- Two threads take the two positions.
taken :
    (s : System) × Reach 2 blank 6 s
    × (s.pc 0 ≡ put 7 (PutPc.claimed 0))
    × (s.pc 1 ≡ put 8 (PutPc.claimed 1))
unfolding init init_cells put_step
taken = (
  _,
  next
      (next
        (next
          (next (next (next here (call_put 0 7 refl)) (run_put 0 7 false (PutPc.looking 0) refl))
            (run_put 0 7 false (PutPc.claiming 0) refl))
          (call_put 1 8 refl))
        (run_put 1 8 false (PutPc.looking 1) refl))
      (run_put 1 8 false (PutPc.claiming 1) refl),
  refl,
  refl,
)

-- Thread 0 puts 7, and thread 1 gets it.
delivered :
    (s : System) × Reach 2 blank 10 s
    × (s.pc 1 ≡ get (GetPc.returned (some (0, 7))))
    × (s.log 0 ≡ 7)
    × (s.queue.read ≡ 1)
unfolding init init_cells put_step get_step
delivered = (
  _,
  next
      (next
        (next
          (next
            (next
              (next
                (next
                  (next
                    (next (next here (call_put 0 7 refl))
                      (run_put 0 7 false (PutPc.looking 0) refl))
                    (run_put 0 7 false (PutPc.claiming 0) refl))
                  (run_put 0 7 false (PutPc.claimed 0) refl))
                (run_put 0 7 false (PutPc.stored 0) refl))
              (call_get 1 refl))
            (run_get 1 false (GetPc.looking 0) refl))
          (run_get 1 false (GetPc.claiming 0) refl))
        (run_get 1 false (GetPc.claimed 0) refl))
      (run_get 1 false (GetPc.loaded 0 7) refl),
  refl,
  refl,
  refl,
)

get_returns_put_example :
    let s = delivered.0 in (0 < s.queue.read) × (s.queue.read ≤ s.queue.write) × (7 ≡ s.log 0)
get_returns_put_example = get_returns_put two blank (omega arith) delivered.1 1 0 7 delivered.2

capacity_example :
    let s = delivered.0 in (s.queue.read ≤ s.queue.write) × (s.queue.write ≤ s.queue.read + 2)
capacity_example = capacity two blank (omega arith) delivered.1

exclusive_example : ◌≡◌ {A = ℕ} 0 0
unfolding taken
exclusive_example = exclusive two blank (omega arith) taken.1 0 0 0 0 (inl refl) (inl refl) refl
