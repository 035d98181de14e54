-- ===== src/Sync/LfQueue/Fifo.antt =====
-- The queue's promise, in every state that any interleaving of puts and gets reaches.
use mathlib.Core.Path.{subst}
use tcengine.Base.{ℕ, zero, suc, ◌+◌, ◌-◌, ◌%◌, ◌^◌, ◌≤◌, ◌<◌, ◌≡◌, ◌⊎◌, inl, refl, sym, arith}
use tcengine.Base.{some}
use tcengine.Sync.LfQueue.{Cell, PutPc, GetPc, init, init_cells, put_step, get_step}
use tcengine.Sync.LfQueue.System.{System, get, start, Step, Reach, here, next}
use tcengine.Sync.LfQueue.System.{call_put, call_get, run_put, run_get}
use tcengine.Sync.LfQueue.Invariant.{
  IsSize, Inv, Own, writing, reading, sequence_of, index-eq-mod, index-ne,
}
use tcengine.Sync.LfQueue.Threads.{put-Inv, get-Inv, call_put-Inv, call_get-Inv}

Step-Inv :
    {n limit : ℕ} {s t : System}
    → IsSize n
    → limit < 2 ^ 62
    → Step s t
    → Inv n limit s
    → Inv n (suc limit) t
Step-Inv size small (call_put i d rest) inv = call_put-Inv size inv small i d rest
Step-Inv size small (call_get i rest) inv = call_get-Inv size inv small i rest
Step-Inv {s} size small (run_put i d spurious p e) inv =
    put-Inv size inv small i d spurious p e (subst (Own s.queue s.log) e (inv.own i))
Step-Inv {s} size small (run_get i spurious p e) inv =
    get-Inv size inv small i spurious p e (subst (Own s.queue s.log) e (inv.own i))

init_cells-sequence : (n i : ℕ) (memory : ℕ → Cell) → i < n → (init_cells n memory i).sequence ≡ i
unfolding init_cells
init_cells-sequence zero i memory h = absurd (omega arith)
init_cells-sequence (suc n) i memory h = ground (arith, init_cells-sequence n i memory)

abbrev pub InOrder : System → System → Type 0
InOrder s t =
    ((t.queue.write ≡ s.queue.write) ⊎ (t.queue.write ≡ s.queue.write + 1))
    × ((t.queue.read ≡ s.queue.read) ⊎ (t.queue.read ≡ s.queue.read + 1))
    × ((p : ℕ) → p < s.queue.write → t.log p ≡ s.log p)

Step-InOrder :
    {n limit : ℕ} {s t : System}
    → IsSize n
    → limit < 2 ^ 62
    → Inv n limit s
    → Step s t
    → InOrder s t
unfolding put_step get_step
Step-InOrder size small inv (call_put i d rest) = (inl refl, inl refl, λ p h. refl)
Step-InOrder size small inv (call_get i rest) = (inl refl, inl refl, λ p h. refl)
Step-InOrder {s} size small inv (run_put i d spurious (PutPc.claiming pos) e) =
    (ground arith, ground arith, λ p h. ground arith)
Step-InOrder {s} size small inv (run_put i d spurious p e) =
    (ground arith, ground arith, λ p h. ground arith)
Step-InOrder {s} size small inv (run_get i spurious (GetPc.claiming pos) e) =
    (ground arith, ground arith, λ p h. refl)
Step-InOrder {s} size small inv (run_get i spurious p e) = (ground arith, ground arith, λ p h. refl)

module _ {n : ℕ} (size : IsSize n) (memory : ℕ → Cell) where
  sequence_start : (p : ℕ) → sequence_of (start n memory).queue p ≡ p % n
  unfolding init
  sequence_start p =
      subst (λ x. (init_cells n memory x).sequence ≡ p % n)
        (sym (index-eq-mod size {m = n - 1} refl p))
        (init_cells-sequence n (p % n) memory (omega (arith, size.at_least_two)))

  Inv-start : Inv n 0 (start n memory)
  unfolding init
  Inv-start = record {
    mask = refl;
    write_in = omega arith;
    word = λ p. grind (arith, sequence_start p, size.at_least_two);
    order = omega arith;
    room = omega arith;
    own = λ j. tt;
    writer = λ a b p. cc;
    reader = λ a b p. cc;
    full = λ p h. absurd (grind (arith, sequence_start p, size.at_least_two));
    vacant = λ p h. grind (arith, sequence_start p, size.at_least_two);
  }

  pub Reach-Inv : {k : ℕ} {s : System} → k < 2 ^ 62 → Reach n memory k s → Inv n k s
  Reach-Inv small here = Inv-start
  Reach-Inv small (next r st) = Step-Inv size (omega arith) st (Reach-Inv (omega arith) r)

  module _ {k : ℕ} {s : System} (small : k < 2 ^ 62) (r : Reach n memory k s) where
    -- In every state that any interleaving of any number of threads reaches from lf_queue_init,
    -- with a power of two of cells from 2 to 2^32, in fewer than 2^62 steps, a get that returned
    -- with position p returns the datum that the put which took p was called with; p was taken by
    -- a get, and no get is ahead of the puts.
    pub get_returns_put :
        (i p d : ℕ)
        → s.pc i ≡ get (GetPc.returned (some (p, d)))
        → (p < s.queue.read) × (s.queue.read ≤ s.queue.write) × (d ≡ s.log p)
    get_returns_put i p d e =
        ground (arith, Reach-Inv small r, subst (Own s.queue s.log) e ((Reach-Inv small r).own i))

    -- In every state that any interleaving of any number of threads reaches from lf_queue_init,
    -- with a power of two of cells from 2 to 2^32, in fewer than 2^62 steps, the queue holds no
    -- more items than it has cells, and no get is ahead of the puts.
    pub capacity : (s.queue.read ≤ s.queue.write) × (s.queue.write ≤ s.queue.read + n)
    capacity = ground (arith, Reach-Inv small r)

    -- In every state that any interleaving of any number of threads reaches from lf_queue_init,
    -- with a power of two of cells from 2 to 2^32, in fewer than 2^62 steps, two threads that are
    -- busy with positions they have taken, for a put or for a get, and whose positions fall on
    -- the same cell are one thread: no cell is read or written by two threads at once.
    pub exclusive :
        (i j a b : ℕ)
        → (writing (s.pc i) ≡ some a) ⊎ (reading (s.pc i) ≡ some a)
        → (writing (s.pc j) ≡ some b) ⊎ (reading (s.pc j) ≡ some b)
        → a % n ≡ b % n
        → i ≡ j
    exclusive i j a b x y e = ground (
      arith,
      inv.own i,
      inv.own j,
      inv.writer i j a,
      inv.reader i j a,
      index-ne size inv.mask a b,
      index-ne size inv.mask b a,
      index-eq-mod size inv.mask a,
      index-eq-mod size inv.mask b,
    )
      where
        inv : Inv n k s
        inv = Reach-Inv small r

    -- In every state that any interleaving of any number of threads reaches from lf_queue_init,
    -- with a power of two of cells from 2 to 2^32, in fewer than 2^62 steps, any next step takes
    -- at most the next position for a put and the next one for a get, and never changes the datum
    -- of a position that was taken before.
    pub positions-InOrder : {t : System} → Step s t → InOrder s t
    positions-InOrder st = Step-InOrder size small (Reach-Inv small r) st
