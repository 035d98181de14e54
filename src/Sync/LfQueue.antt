-- ===== src/Sync/LfQueue.antt =====
-- src/datastructures/lfqueue.h: the bounded queue of the job system, which any number of threads
-- put to and get from. Each thread runs one shared access at a time, in any order with the others
-- (sequentially consistent). `size_t` positions wrap at 2^64.
pub mod System
pub mod Invariant
pub mod Threads
pub mod Fifo
mod Tests
use tcengine.Base.{ℕ, zero, suc, ◌+◌, ◌-◌, ◌%◌, ◌^◌, Bool, true, false, Option, none, some, bit_and}
use tcengine.Base.{◌==◌, leb, if◌then◌else◌, update}

abbrev pub size_mod : ℕ
size_mod = 2 ^ 64

-- `cell_t`; the field `data` is called `datum` here.
pub record Cell : Type 0 where
  pub sequence : ℕ
  pub datum : ℕ

-- `lf_queue_t`; a cell is always named through the mask.
pub record Queue : Type 0 where
  pub mask : ℕ
  pub buffer : ℕ → Cell
  pub write : ℕ
  pub read : ℕ

-- `queue->buffer[pos & queue->mask]`
abbrev pub cell_at : Queue → ℕ → Cell
cell_at q pos = q.buffer (bit_and pos q.mask)

abbrev pub set_cell : Queue → ℕ → Cell → Queue
set_cell q pos c = record q { buffer = update q.buffer (bit_and pos q.mask) c }

init_cells : ℕ → (ℕ → Cell) → ℕ → Cell
init_cells zero buffer = buffer
init_cells (suc i) buffer =
    update (init_cells i buffer) i (record { sequence = i; datum = (buffer i).datum })

-- `lf_queue_init` over the memory that the allocator returned.
pub init : (elements : ℕ) → (memory : ℕ → Cell) → Queue
unfolding init_cells
init elements memory = record {
  mask = elements - 1;
  buffer = init_cells elements memory;
  write = 0;
  read = 0;
}

-- `(intptr_t)a - (intptr_t)b` as a bit pattern, and the test `dif < 0` on it.
abbrev pub dif : ℕ → ℕ → ℕ
dif a b = (a + size_mod - b % size_mod) % size_mod

abbrev pub is_negative : ℕ → Bool
is_negative d = leb (2 ^ 63) d

-- Where `lf_queue_put` stands, with its live locals.
pub data PutPc : Type 0 where
  looking : (pos : ℕ) → PutPc  -- head of the loop
  claiming : (pos : ℕ) → PutPc  -- before the compare-exchange
  claimed : (pos : ℕ) → PutPc  -- behind the loop
  stored : (pos : ℕ) → PutPc  -- before the store of the sequence
  returned : Bool → PutPc

-- One shared access of `lf_queue_put`. A weak compare-exchange may fail although the values agree
-- (`spurious`); when it fails it loads the current value into `pos`.
pub put_step : (spurious : Bool) → (datum : ℕ) → Queue → PutPc → Queue × PutPc
put_step spurious datum q (looking pos) =
    let d = dif (cell_at q pos).sequence pos in
    if d == 0
    then (q, claiming pos)
    else if is_negative d
    then (q, returned false)
    else (q, looking q.write)
put_step spurious datum q (claiming pos) =
    if (if spurious then false else q.write == pos)
    then (record q { write = (pos + 1) % size_mod }, claimed pos)
    else (q, looking q.write)
put_step spurious datum q (claimed pos) =
    (set_cell q pos (record (cell_at q pos) { datum = datum }), stored pos)
put_step spurious datum q (stored pos) =
    (set_cell q pos (record (cell_at q pos) { sequence = (pos + 1) % size_mod }), returned true)
put_step spurious datum q (returned b) = (q, returned b)

-- Where `lf_queue_get` stands.
pub data GetPc : Type 0 where
  looking : (pos : ℕ) → GetPc
  claiming : (pos : ℕ) → GetPc
  claimed : (pos : ℕ) → GetPc
  loaded : (pos datum : ℕ) → GetPc  -- `*data` is set
  returned : Option (ℕ × ℕ) → GetPc  -- the position (a ghost) and the datum

-- One shared access of `lf_queue_get`.
pub get_step : (spurious : Bool) → Queue → GetPc → Queue × GetPc
get_step spurious q (looking pos) =
    let d = dif (cell_at q pos).sequence ((pos + 1) % size_mod) in
    if d == 0
    then (q, claiming pos)
    else if is_negative d
    then (q, returned none)
    else (q, looking q.read)
get_step spurious q (claiming pos) =
    if (if spurious then false else q.read == pos)
    then (record q { read = (pos + 1) % size_mod }, claimed pos)
    else (q, looking q.read)
get_step spurious q (claimed pos) = (q, loaded pos (cell_at q pos).datum)
get_step spurious q (loaded pos datum) = (
  set_cell q pos (record (cell_at q pos) { sequence = (pos + q.mask + 1) % size_mod }),
  returned (some (pos, datum)),
)
get_step spurious q (returned r) = (q, returned r)
