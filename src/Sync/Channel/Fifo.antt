-- ===== src/Sync/Channel/Fifo.antt =====
-- A channel is a bounded queue: whatever calls are made of it, in any order, they return what the
-- queue returns. The fibers that wait are the subject of Wakeups.
use tcengine.Base.{ℕ, ◌-◌, ◌^◌, ◌≤◌, ◌<◌, ◌≡◌, refl, sym, ◌∙◌, ap, arith}
use tcengine.Base.{Bool, true, false, not, Option, none, some, List, [], ◌∷◌, ◌++◌}
use tcengine.Base.{if◌then◌else◌, ltb, length, Bool-cases, if-true, if-false, inl, inr}
use mathlib.Core.Path.{subst, ap₂}
use tcengine.Sync.Channel.{
  queue_notify_one, unchanged, with_result, Channel, After, new, channel_get, chan_try_get,
  channel_put, chan_try_put, chan_close, channel_full, channel_empty, take_slot, fill_slot,
}
use tcengine.Sync.Channel.Ring.{
  IsValid, contents, length-contents, following-lt, channel_full-eq, contents-fill, contents-take,
  contents-empty, contents-same, same-IsValid,
}

pub data Call : Type 0 where
  get : (fiber : ℕ) → Call
  try_get : Call
  put : (fiber value : ℕ) → Call
  try_put : (value : ℕ) → Call
  close : Call

-- The word that a call returns; none where the fiber waits or there is nothing.
pub answer : Call → Channel → Channel × Option ℕ
answer (get f) c = let a = channel_get f c in (a.channel, a.result)
answer try_get c = let a = chan_try_get c in (a.channel, a.result)
answer (put f v) c = let a = channel_put f c v in (a.channel, a.result)
answer (try_put v) c = let a = chan_try_put c v in (a.channel, if a.result then some 1 else some 0)
answer close c = ((chan_close c).channel, none)

-- The queue that a channel is meant to be.
pub record Queue : Type 0 where
  pub limit : ℕ
  pub data_in : List ℕ
  pub closed : Bool

unfoldable pub pop_front : Queue → List ℕ → Queue × Option ℕ
pop_front q [] = (q, none)
pop_front q (x ∷ xs) = (record q { data_in = xs }, some x)

unfoldable pub dequeue : (when_closed : Option ℕ) → Queue → Queue × Option ℕ
dequeue when_closed q = if q.closed then (q, when_closed) else pop_front q q.data_in

unfoldable pub enqueue : (when_full : Option ℕ) (value : ℕ) → Queue → Queue × Option ℕ
enqueue when_full v q =
    if q.closed
    then (q, some 0)
    else if ltb (length q.data_in) q.limit
    then (record q { data_in = q.data_in ++ (v ∷ []) }, some 1)
    else (q, when_full)

unfoldable pub queue_answer : Call → Queue → Queue × Option ℕ
queue_answer (get f) q = dequeue (some 0) q
queue_answer try_get q = dequeue none q
queue_answer (put f v) q = enqueue none v q
queue_answer (try_put v) q = enqueue (some 0) v q
queue_answer close q = (record q { closed = true }, none)

pub view : Channel → Queue
view c = record { limit = c.cap - 1; data_in = contents c; closed = c.closed }

pub answers : List Call → Channel → List (Option ℕ)
answers [] c = []
answers (k ∷ ks) c = let (c', r) = answer k c in r ∷ answers ks c'

unfoldable pub queue_answers : List Call → Queue → List (Option ℕ)
queue_answers [] q = []
queue_answers (k ∷ ks) q = let (q', r) = queue_answer k q in r ∷ queue_answers ks q'

-- A section leaves a valid channel and does what the queue does.
Refines : {R : Type 0} → (R → Option ℕ) → After R → Queue × Option ℕ → Type 0
Refines g a q = IsValid a.channel × ((view a.channel, g a.result) ≡ q)

module _ {R : Type 0} (g : R → Option ℕ) where
  subst-Refines :
      {a b : After R} {p q : Queue × Option ℕ} → a ≡ b → q ≡ p → Refines g b p → Refines g a q
  subst-Refines {b} {q} e f r =
      subst (λ t. Refines g t q) (sym e) (subst (λ t. Refines g b t) (sym f) r)

module _ (c : Channel) (valid : IsValid c) where
  take_slot-IsValid : IsValid (take_slot c).channel
  unfolding take_slot
  take_slot-IsValid = record {
    cap_small = valid.cap_small;
    head_lt = valid.head_lt;
    tail_lt = following-lt c.cap c.tail valid.cap_small valid.tail_lt;
  }

  fill_slot-IsValid : (v : ℕ) → IsValid (fill_slot c v).channel
  unfolding fill_slot
  fill_slot-IsValid v = record {
    cap_small = valid.cap_small;
    head_lt = following-lt c.cap c.head valid.cap_small valid.head_lt;
    tail_lt = valid.tail_lt;
  }

  view-take_slot :
      channel_empty c ≡ false
      → pop_front (view c) (contents c) ≡ (view (take_slot c).channel, some (take_slot c).result)
  unfolding take_slot view pop_front
  view-take_slot h =
      ap (pop_front (view c)) (contents-take c valid (queue_notify_one c.producers).0 h)

  module _ (when_closed : Option ℕ) (waiting : List ℕ) where
    waits : Channel
    waits = record c { consumers = waiting }

    dequeue-Refines :
        Refines
          (λ r. r)
          (if c.closed
            then unchanged c when_closed
            else if channel_empty c
            then unchanged waits none
            else with_result some (take_slot c))
          (dequeue when_closed (view c))
    unfolding dequeue view waits Refines pop_front
    dequeue-Refines = elim (Bool-cases c.closed) [
      | inl e ↦ subst-Refines (λ r. r) (if-true _ _ e) (if-true _ _ e) (valid, refl)
      | inr e ↦ elim (Bool-cases (channel_empty c)) [
        | inl left ↦
            subst-Refines (λ r. r) (if-false _ _ e ∙ if-true _ _ left)
              (if-false _ _ e ∙ ap (pop_front (view c)) (contents-empty c valid left))
              (
                same-IsValid c c.producers waiting c.closed valid,
                ap (λ t. (record (view c) { data_in = t }, none))
                    (contents-same c c.producers waiting c.closed),
              )
        | inr left ↦
            subst-Refines (λ r. r) (if-false _ _ e ∙ if-false _ _ left)
              (if-false _ _ e ∙ view-take_slot left) (take_slot-IsValid, refl)
      ]
    ]

  room : Bool
  room = ltb (length (contents c)) (c.cap - 1)

  full-room : channel_full c ≡ not room
  unfolding room
  full-room =
      ground (arith, channel_full-eq c valid, length-contents c, valid.head_lt, valid.tail_lt)

  -- `enqueue` where the channel is full, and where it is not.
  module _ (v : ℕ) {R : Type 0} (g : R → Option ℕ) (when_closed when_full : R) (done : R)
      (e_closed : g when_closed ≡ some 0) (e_done : g done ≡ some 1) (waiting : List ℕ) where
    full_waits : Channel
    full_waits = record c { producers = waiting }

    filled : After R
    filled = record {
      channel = (fill_slot c v).channel;
      ready_producers = [];
      ready_consumers = (fill_slot c v).ready_consumers;
      result = done;
    }

    enqueue-Refines :
        Refines g
          (if c.closed
            then unchanged c when_closed
            else if channel_full c
            then unchanged full_waits when_full
            else filled)
          (enqueue (g when_full) v (view c))
    unfolding enqueue view full_waits Refines filled fill_slot room
    enqueue-Refines = elim (Bool-cases c.closed) [
      | inl e ↦
          subst-Refines g (if-true _ _ e) (if-true _ _ e) (valid, ap (λ t. (view c, t)) e_closed)
      | inr e ↦ elim (Bool-cases (channel_full c)) [
        | inl full ↦
            let no_room : room ≡ false = ground (arith, full-room) in
            subst-Refines g (if-false _ _ e ∙ if-true _ _ full)
              (if-false _ _ e ∙ if-false _ _ no_room)
              (
                same-IsValid c waiting c.consumers c.closed valid,
                ap (λ t. (record (view c) { data_in = t }, g when_full))
                    (contents-same c waiting c.consumers c.closed),
              )
        | inr full ↦
            let some_room : room ≡ true = ground (arith, full-room) in
            subst-Refines g (if-false _ _ e ∙ if-false _ _ full)
              (if-false _ _ e ∙ if-true _ _ some_room)
              (
                fill_slot-IsValid v,
                ap₂ (λ t r. (record (view c) { data_in = t }, r))
                    (contents-fill c valid v (queue_notify_one c.consumers).0 full) e_done,
              )
      ]
    ]

chan_close-Refines :
    (c : Channel) → IsValid c → Refines (λ r. none) (chan_close c) (queue_answer close (view c))
unfolding chan_close queue_answer view Refines
chan_close-Refines c valid = elim (Bool-cases c.closed) [
  | inl e ↦
      subst-Refines (λ r. none) (if-true _ _ e) refl
        (valid, ap (λ t. (record (view c) { closed = t }, none)) e)
  | inr e ↦
      subst-Refines (λ r. none) (if-false _ _ e) refl
        (
          same-IsValid c _ _ true valid,
          ap (λ t. (record (view c) { data_in = t; closed = true }, none))
              (contents-same c _ _ true),
        )
]

answer-refines :
    (k : Call) (c : Channel)
    → IsValid c
    → IsValid (answer k c).0 × ((view (answer k c).0, (answer k c).1) ≡ queue_answer k (view c))
unfolding answer queue_answer Refines channel_get chan_try_get channel_put chan_try_put waits
    full_waits filled fill_slot
answer-refines (get f) c valid = dequeue-Refines c valid (some 0) (c.consumers ++ (f ∷ []))
answer-refines try_get c valid = dequeue-Refines c valid none c.consumers
answer-refines (put f v) c valid =
    enqueue-Refines c valid v (λ r. r) (some 0) none (some 1) refl refl (c.producers ++ (f ∷ []))
answer-refines (try_put v) c valid =
    enqueue-Refines c valid v (λ r. if r then some 1 else some 0) false false true refl refl
      c.producers
answer-refines close c valid = chan_close-Refines c valid

answers-refine :
    (ks : List Call) (c : Channel) → IsValid c → answers ks c ≡ queue_answers ks (view c)
unfolding answers queue_answers
answers-refine [] c valid = refl
answers-refine (k ∷ ks) c valid =
    let (valid', e) = answer-refines k c valid in
    ap (λ t. (answer k c).1 ∷ t) (answers-refine ks (answer k c).0 valid')
    ∙ ap (λ t. t.1 ∷ queue_answers ks t.0) e

new-IsValid : (n : ℕ) → 1 ≤ n → n < 2 ^ 32 → IsValid (new n)
unfolding new
new-IsValid n some_slot small = record {
  cap_small = small;
  head_lt = some_slot;
  tail_lt = some_slot;
}

view-new :
    (n : ℕ)
    → 1 ≤ n
    → n < 2 ^ 32
    → view (new n) ≡ record { limit = n - 1; data_in = []; closed = false }
unfolding view new channel_empty
view-new n some_slot small =
    ap (λ t. record { limit = n - 1; data_in = t; closed = false })
      (contents-empty (new n) (new-IsValid n some_slot small) refl)

-- Whatever calls are made of a new channel, gets, puts, tries and closes in any order, return
-- what a queue with room for one item less than the channel has slots returns, which closing
-- makes refuse everything: for 1 up to 2^32 - 1 slots.
pub channel_is_queue :
    (n : ℕ) (ks : List Call)
    → 1 ≤ n
    → n < 2 ^ 32
    → answers ks (new n) ≡ queue_answers ks (record { limit = n - 1; data_in = []; closed = false })
channel_is_queue n ks some_slot small =
    answers-refine ks (new n) (new-IsValid n some_slot small)
    ∙ ap (queue_answers ks) (view-new n some_slot small)
