-- ===== src/Sync/LfQueue/Invariant.antt =====
-- What holds between any two steps of the queue's threads.
use tcengine.Base.{ℕ, ◌+◌, ◌-◌, ◌%◌, ◌^◌, ◌≤◌, ◌<◌, ◌≡◌, ◌≢◌, arith}
use tcengine.Base.{ap, Option, none, some, bit_and, bit_and_mask}
use native.Mathlib.Nat.{div-add-mod}
use tcengine.Sync.LfQueue.{Queue, PutPc, GetPc, cell_at}
use tcengine.Sync.LfQueue.System.{System, Pc, put, get}

-- The position that a thread has taken and not yet given on.
abbrev pub writing : Pc → Option ℕ
writing (put _ (PutPc.claimed pos)) = some pos
writing (put _ (PutPc.stored pos)) = some pos
writing _ = none

abbrev pub reading : Pc → Option ℕ
reading (get (GetPc.claimed pos)) = some pos
reading (get (GetPc.loaded pos _)) = some pos
reading _ = none

abbrev pub sequence_of : Queue → ℕ → ℕ
sequence_of q pos = (cell_at q pos).sequence

-- What the locals of a thread say about shared memory.
abbrev pub Own : Queue → (ℕ → ℕ) → Pc → Type 0
Own q log (put d (PutPc.looking pos)) = pos ≤ q.write
Own q log (put d (PutPc.claiming pos)) = (pos ≤ q.write) × (q.write ≡ pos → sequence_of q pos ≡ pos)
Own q log (put d (PutPc.claimed pos)) = (pos < q.write) × (sequence_of q pos ≡ pos) × (log pos ≡ d)
Own q log (put d (PutPc.stored pos)) =
    (pos < q.write) × (sequence_of q pos ≡ pos) × ((cell_at q pos).datum ≡ log pos)
Own q log (get (GetPc.looking pos)) = pos ≤ q.read
Own q log (get (GetPc.claiming pos)) = (pos ≤ q.read) × (q.read ≡ pos → sequence_of q pos ≡ pos + 1)
Own q log (get (GetPc.claimed pos)) = (pos < q.read) × (sequence_of q pos ≡ pos + 1)
Own q log (get (GetPc.loaded pos d)) =
    (pos < q.read) × (sequence_of q pos ≡ pos + 1) × (d ≡ log pos)
Own q log (get (GetPc.returned (some (pos, d)))) = (pos < q.read) × (d ≡ log pos)
Own q log _ = Unit

-- `n` is the number of cells; the positions are below `limit`, so that no sum wraps.
pub record Inv (n limit : ℕ) (s : System) : Type 0 where
  pub mask : s.queue.mask ≡ n - 1
  pub write_in : s.queue.write ≤ limit
  pub word : (p : ℕ) → sequence_of s.queue p ≤ limit + n
  pub order : s.queue.read ≤ s.queue.write
  pub room : s.queue.write ≤ s.queue.read + n
  pub own : (i : ℕ) → Own s.queue s.log (s.pc i)
  pub writer : (i j p : ℕ) → writing (s.pc i) ≡ some p → writing (s.pc j) ≡ some p → i ≡ j
  pub reader : (i j p : ℕ) → reading (s.pc i) ≡ some p → reading (s.pc j) ≡ some p → i ≡ j
  pub full :
      (p : ℕ)
      → sequence_of s.queue p ≡ p + 1
      → (p < s.queue.write) × ((cell_at s.queue p).datum ≡ s.log p)
  pub vacant : (p : ℕ) → sequence_of s.queue p ≡ p → p < s.queue.read + n

-- `elements` is a power of two from 2 to 2^32, as the assertion of `lf_queue_init` wants.
pub record IsSize (n : ℕ) : Type 0 where
  pub bits : ℕ
  pub is_power : n ≡ 2 ^ bits
  pub at_least_two : 2 ≤ n
  pub at_most : n ≤ 2 ^ 32

-- A step of one, or of one less than a whole round, changes the remainder.
mod_suc_ne : (n a : ℕ) → 2 ≤ n → a % n ≢ (a + 1) % n
mod_suc_ne n a two e = grind (arith, div-add-mod)

mod-add_self : (n b : ℕ) → 2 ≤ n → (b + n) % n ≡ b % n
mod-add_self n b two = grind arith

module _ {n : ℕ} (size : IsSize n) {m : ℕ} (mask : m ≡ n - 1) where
  -- The mask names a cell by the remainder.
  pub index-eq-mod : (pos : ℕ) → bit_and pos m ≡ pos % n
  index-eq-mod pos = rw (mask, size.is_power) (bit_and_mask size.bits pos)

  -- Neighbouring positions have different cells.
  pub index-ne : (a b : ℕ) → bit_and a m ≡ bit_and b m → a + 1 ≢ b
  index-ne a b e h =
      mod_suc_ne n a size.at_least_two
        (omega (arith, index-eq-mod a, index-eq-mod b, ap (λ (t : ℕ). t % n) h))

  pub index-ne_round : (a b : ℕ) → bit_and a m ≡ bit_and b m → a + 1 ≢ b + n
  index-ne_round a b e h = mod_suc_ne n a size.at_least_two (
      omega (
        arith,
        index-eq-mod a,
        index-eq-mod b,
        ap (λ (t : ℕ). t % n) h,
        mod-add_self n b size.at_least_two,
      ))
