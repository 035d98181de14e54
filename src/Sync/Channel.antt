-- ===== src/Sync/Channel.antt =====
-- Channels of src/fiber.c: a ring of pointers with the fibers that wait for data and for room. A
-- function is one section under the lock: a fiber that waits gives the lock back in tc_fiber_yield
-- and runs the section again when it is made ready. A queue of fibers is the list of its nodes.
pub mod Ring
pub mod Fifo
pub mod Sections
pub mod Wakeups
mod Tests
use tcengine.Base.{ℕ, ◌+◌, ◌%◌, ◌^◌, Bool, true, false, Option, none, some, List, [], ◌∷◌, ◌++◌}
use tcengine.Base.{◌==◌, if◌then◌else◌, update}

pub record Channel : Type 0 where
  pub slots : ℕ → ℕ
  pub producers : List ℕ
  pub consumers : List ℕ
  pub cap : ℕ
  pub head : ℕ
  pub tail : ℕ
  pub closed : Bool

-- `tc_chan_new`
pub new : ℕ → Channel
new num_slots = record {
  slots = λ _. 0;
  producers = [];
  consumers = [];
  cap = num_slots;
  head = 0;
  tail = 0;
  closed = false;
}

-- `(i + 1) % c->cap`, in 32 bits.
pub following : ℕ → ℕ → ℕ
following cap i = (i + 1) % 2 ^ 32 % cap

pub channel_full : Channel → Bool
channel_full c = c.tail == following c.cap c.head

pub channel_empty : Channel → Bool
channel_empty c = c.tail == c.head

-- `queue_notify_one`: the queue behind, and the fiber that is made ready.
pub queue_notify_one : List ℕ → List ℕ × List ℕ
queue_notify_one [] = ([], [])
queue_notify_one (f ∷ queue) = (queue, f ∷ [])

-- `queue_notify_all`
pub queue_notify_all : List ℕ → List ℕ × List ℕ
queue_notify_all [] = ([], [])
queue_notify_all (f ∷ queue) = let (left, ready) = queue_notify_all queue in (left, f ∷ ready)

-- What a section leaves: the channel, the producers and consumers that it made ready, and what the
-- call returns.
pub record After (R : Type 0) : Type 0 where
  pub channel : Channel
  pub ready_producers : List ℕ
  pub ready_consumers : List ℕ
  pub result : R

abbrev pub unchanged : {R : Type 0} → Channel → R → After R
unchanged c r = record { channel = c; ready_producers = []; ready_consumers = []; result = r }

-- The sections' common part, where there is data, and where there is room.
pub take_slot : Channel → After ℕ
take_slot c =
    let (producers, ready) = queue_notify_one c.producers in
    record {
      channel = record c { tail = following c.cap c.tail; producers = producers };
      ready_producers = ready;
      ready_consumers = [];
      result = c.slots c.tail;
    }

pub fill_slot : Channel → ℕ → After Bool
fill_slot c value =
    let (consumers, ready) = queue_notify_one c.consumers in
    record {
      channel = record c {
        slots = update c.slots c.head value;
        head = following c.cap c.head;
        consumers = consumers;
      };
      ready_producers = [];
      ready_consumers = ready;
      result = true;
    }

abbrev pub with_result : {R S : Type 0} → (R → S) → After R → After S
with_result f a = record {
  channel = a.channel;
  ready_producers = a.ready_producers;
  ready_consumers = a.ready_consumers;
  result = f a.result;
}

-- `_channel_get`, run by fiber `f`: none where the fiber waits, else the word the job returns.
pub channel_get : ℕ → Channel → After (Option ℕ)
channel_get f c =
    if c.closed
    then unchanged c (some 0)
    else if channel_empty c
    then unchanged (record c { consumers = c.consumers ++ (f ∷ []) }) none
    else with_result some (take_slot c)

-- `tc_chan_try_get`: none for false.
pub chan_try_get : Channel → After (Option ℕ)
chan_try_get c =
    if c.closed
    then unchanged c none
    else if channel_empty c
    then unchanged c none
    else with_result some (take_slot c)

abbrev pub one_if : Bool → Option ℕ
one_if true = some 1
one_if false = some 0

-- `_channel_put`, run by fiber `f`.
pub channel_put : ℕ → Channel → (value : ℕ) → After (Option ℕ)
channel_put f c value =
    if c.closed
    then unchanged c (some 0)
    else if channel_full c
    then unchanged (record c { producers = c.producers ++ (f ∷ []) }) none
    else with_result one_if (fill_slot c value)

-- `tc_chan_try_put`
pub chan_try_put : Channel → (value : ℕ) → After Bool
chan_try_put c value =
    if c.closed
    then unchanged c false
    else if channel_full c
    then unchanged c false
    else fill_slot c value

-- `tc_chan_close`
pub chan_close : Channel → After (Unit {0})
chan_close c =
    if c.closed
    then unchanged c tt
    else (let (producers, ready_producers) = queue_notify_all c.producers in
        let (consumers, ready_consumers) = queue_notify_all c.consumers in
        record {
          channel = record c { closed = true; producers = producers; consumers = consumers };
          ready_producers = ready_producers;
          ready_consumers = ready_consumers;
          result = tt;
        })
