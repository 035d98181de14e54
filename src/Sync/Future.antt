-- ===== src/Sync/Future.antt =====
-- Futures of src/fiber.c: a counter, and slots for the fibers that wait until it has a value. Each
-- function is a thread that makes one access to shared memory at a time.
pub mod System
pub mod Invariant
pub mod Moves
pub mod Wakes
pub mod Reads
pub mod Waits
pub mod Counts
pub mod Wakeup
mod Tests
use tcengine.Base.{ℕ, ◌+◌, ◌-◌, ◌%◌, ◌^◌, Bool, true, false, Option, none, some}
use tcengine.Base.{◌==◌, if◌then◌else◌, ltb, update}

-- `fiber_entry`: a fiber is its address, and NULL is 0.
pub record Slot : Type 0 where
  pub fiber : ℕ
  pub inuse : Bool
  pub value : ℕ

-- `fut_t` with the slots behind it.
pub record Future : Type 0 where
  pub value : ℕ
  pub num_slots : ℕ
  pub slots : ℕ → Slot

abbrev pub set_slot : ℕ → Slot → Future → Future
set_slot i s c = record c { slots = update c.slots i s }

-- `tc_fut_new`
unfoldable pub fut_new : (value num_slots : ℕ) → Future
fut_new value num_slots = record {
  value = value;
  num_slots = num_slots;
  slots = λ _. record { fiber = 0; inuse = true; value = 0 };
}

-- A thread in `counter_wakeup`, by the slot it is at and the fiber it has loaded from it.
pub data WakePc : Type 0 where
  scan : (i : ℕ) → WakePc
  loaded : (i f : ℕ) → WakePc
  unused : (i f : ℕ) → WakePc
  matched : (i f : ℕ) → WakePc
  claimed : (i f : ℕ) → WakePc
  cleared : (i f : ℕ) → WakePc
  done : WakePc

-- One access of `counter_wakeup`; the last part is the fiber that `tc_fiber_ready` is called with.
pub wake_step : (value : ℕ) → Future → WakePc → Future × WakePc × Option ℕ
wake_step value c (scan i) =
    if ltb i c.num_slots
    then (if (c.slots i).fiber == 0
        then (c, scan (i + 1), none)
        else (c, loaded i (c.slots i).fiber, none))
    else (c, done, none)
wake_step value c (loaded i f) =
    if (c.slots i).inuse then (c, scan (i + 1), none) else (c, unused i f, none)
wake_step value c (unused i f) =
    if (c.slots i).value == value then (c, matched i f, none) else (c, scan (i + 1), none)
wake_step value c (matched i f) =
    if (c.slots i).inuse
    then (c, scan (i + 1), none)
    else (set_slot i (record (c.slots i) { inuse = true }) c, claimed i f, none)
wake_step value c (claimed i f) =
    (set_slot i (record (c.slots i) { fiber = 0 }) c, cleared i f, none)
wake_step value c (cleared i f) = (c, scan (i + 1), some f)
wake_step value c done = (c, done, none)

-- A fiber in `counter_add_to_waiting`; behind `returned false` it has called `tc_fiber_yield`.
pub data WaitPc : Type 0 where
  idle : WaitPc
  trying : (i : ℕ) → WaitPc
  got : (i : ℕ) → WaitPc
  valued : (i : ℕ) → WaitPc
  opened : (i : ℕ) → WaitPc
  probed : (i p : ℕ) → WaitPc
  free : (i p : ℕ) → WaitPc
  claiming : (i : ℕ) → WaitPc
  won : (i : ℕ) → WaitPc
  returned : Bool → WaitPc

-- One access of fiber `f` in `counter_add_to_waiting`.
pub wait_step : (f value : ℕ) → Future → WaitPc → Future × WaitPc
wait_step f value c idle = (c, idle)
wait_step f value c (trying i) =
    if ltb i c.num_slots
    then (if (c.slots i).fiber == 0
        then (set_slot i (record (c.slots i) { fiber = f }) c, got i)
        else (c, trying (i + 1)))
    else (c, returned false)
wait_step f value c (got i) = (set_slot i (record (c.slots i) { value = value }) c, valued i)
wait_step f value c (valued i) = (set_slot i (record (c.slots i) { inuse = false }) c, opened i)
wait_step f value c (opened i) = (c, probed i c.value)
wait_step f value c (probed i p) = if (c.slots i).inuse then (c, returned false) else (c, free i p)
wait_step f value c (free i p) =
    if (c.slots i).value == p then (c, claiming i) else (c, returned false)
wait_step f value c (claiming i) =
    if (c.slots i).inuse
    then (c, returned false)
    else (set_slot i (record (c.slots i) { inuse = true }) c, won i)
wait_step f value c (won i) = (set_slot i (record (c.slots i) { fiber = 0 }) c, returned true)
wait_step f value c (returned r) = (c, returned r)

-- The counter's part of `tc_fut_incr` and `tc_fut_decr`, and the value that they wake fibers for.
pub fut_incr : Future → Future × ℕ
fut_incr c = let value = (c.value + 1) % 2 ^ 64 in (record c { value = value }, value)

unfoldable pub fut_decr : Future → Future × ℕ
fut_decr c = let value = (c.value + 2 ^ 64 - 1) % 2 ^ 64 in (record c { value = value }, value)
