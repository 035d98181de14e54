-- ===== src/Sync/LfLifo.antt =====
-- The lock-free stack of src/datastructures/lflifo.h: one access of shared memory is one step of a thread.
-- A word holds a 64 KB aligned address and, in its low 16 bits, a count of the changes.
pub mod System
mod Invariant
mod Moves
pub mod Stack
mod Tests
use tcengine.Base.{
  ℕ, ◌+◌, ◌-◌, ◌%◌, ◌^◌, Bool, true, false, ◌==◌, if◌then◌else◌, update, Option, none, some,
}

abbrev pub aba_value : ℕ → ℕ
aba_value a = a % 65536

abbrev pub lf_lifo : ℕ → ℕ
lf_lifo a = a - a % 65536

-- The head, and the `next` fields by address.
pub record Lifo : Type 0 where
  pub head : ℕ
  pub next : ℕ → ℕ

abbrev pub lf_lifo_init : (memory : ℕ → ℕ) → Lifo
lf_lifo_init memory = record { head = 0; next = memory }

abbrev pub lf_lifo_is_empty : Lifo → Bool
lf_lifo_is_empty q = lf_lifo q.head == 0

-- Where a push stands: before the load, with the loaded word before the store into its element, and
-- before the compare-exchange.
pub data PushPc : Type 0 where
  load : PushPc
  store : (next : ℕ) → PushPc
  swap : (next : ℕ) → PushPc

-- A compare-exchange that fails, also without a reason, loads the head. `none`: the push returns.
pub push_step : (spurious : Bool) (elem : ℕ) → Lifo → PushPc → Lifo × Option PushPc
push_step spurious elem q load = (q, some (store q.head))
push_step spurious elem q (store next) =
    (record q { next = update q.next (lf_lifo elem) (lf_lifo next) }, some (swap next))
push_step spurious elem q (swap next) =
    if (if spurious then false else q.head == next)
    then (record q { head = lf_lifo elem + aba_value (next + 1) }, none)
    else (q, some (store q.head))

pub data PopPc : Type 0 where
  load_head : PopPc
  test : (next : ℕ) → PopPc
  swap_head : (next newhead : ℕ) → PopPc

pub data Popping : Type 0 where
  at : PopPc → Popping
  returns : Option ℕ → Popping

pub pop_step : (spurious : Bool) → Lifo → PopPc → Lifo × Popping
pop_step spurious q load_head = (q, at (test q.head))
pop_step spurious q (test next) =
    if lf_lifo next == 0
    then (q, returns none)
    else (q, at (swap_head next (lf_lifo (q.next (lf_lifo next)) + aba_value (next + 1))))
pop_step spurious q (swap_head next newhead) =
    if (if spurious then false else q.head == next)
    then (record q { head = newhead }, returns (some (lf_lifo next)))
    else (q, at (test q.head))
