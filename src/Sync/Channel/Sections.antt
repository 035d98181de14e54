-- ===== src/Sync/Channel/Sections.antt =====
-- What one section of a channel's functions does to the fibers that wait and that are ready.
use mathlib.Core.Path.{subst}
use tcengine.Base.{ℕ, suc, ◌+◌, ◌≤◌, ◌≡◌, ◌≢◌, refl, sym, ◌∙◌, arith}
use tcengine.Base.{Bool, true, false, List, [], ◌∷◌, ◌++◌}
use tcengine.Base.{if◌then◌else◌, length, length-append, Bool-cases, if-true, if-false, inl, inr}
use tcengine.Sync.Channel.{
  Channel, After, chan_close, channel_full, channel_empty, take_slot, fill_slot, queue_notify_one,
  queue_notify_all, unchanged, with_result,
}
use tcengine.Sync.Channel.Ring.{
  IsValid, count, following-lt, channel_full-eq, channel_empty-eq, count-fill, count-take,
}

-- The channel, and the fibers that tc_fiber_ready was called with and that have not run since:
-- those that get, and those that put.
pub record System : Type 0 where
  pub channel : Channel
  pub getters : List ℕ
  pub putters : List ℕ

-- The system behind a section that `getters` and `putters` were ready before.
abbrev pub behind : {R : Type 0} → (getters putters : List ℕ) → After R → System
behind getters putters a = record {
  channel = a.channel;
  getters = a.ready_consumers ++ getters;
  putters = a.ready_producers ++ putters;
}

-- Each item in the channel has a consumer on its way, or no consumer waits; each free slot has a
-- producer on its way, or no producer waits; nobody waits at a closed channel.
pub record Inv (s : System) : Type 0 where
  pub valid : IsValid s.channel
  pub items_called : s.channel.consumers ≢ [] → count s.channel ≤ length s.getters
  pub room_called :
      s.channel.producers ≢ [] → s.channel.cap ≤ count s.channel + 1 + length s.putters
  pub none_wait : s.channel.closed ≡ true → (s.channel.consumers ≡ []) × (s.channel.producers ≡ [])

subst-Inv :
    {R : Type 0} {a b : After R} (getters putters : List ℕ)
    → a ≡ b
    → Inv (behind getters putters b)
    → Inv (behind getters putters a)
subst-Inv getters putters e i = subst (λ a. Inv (behind getters putters a)) (sym e) i

some_called :
    (queue : List ℕ)
    → (queue_notify_one queue).0 ≢ []
    → (queue ≢ []) × (length (queue_notify_one queue).1 ≡ 1)
unfolding queue_notify_one
some_called [] h = absurd (h refl)
some_called (f ∷ queue) h = (cc, refl)

open_still : {A : Type 0} {closed : Bool} → closed ≡ false → closed ≡ true → A
open_still e h = absurd (cc)

called-append : (xs ys : List ℕ) → length xs ≡ 1 → length (xs ++ ys) ≡ suc (length ys)
called-append xs ys h = omega (arith, length-append xs ys)

module _ {R : Type 0} (c : Channel) (valid : IsValid c) (getters putters : List ℕ)
    (none_wait : c.closed ≡ true → (c.consumers ≡ []) × (c.producers ≡ [])) where
  closed-Inv : (r : R) → c.closed ≡ true → Inv (behind getters putters (unchanged c r))
  closed-Inv r e = record {
    valid = valid;
    items_called = λ h. absurd (h (none_wait e).0);
    room_called = λ h. absurd (h (none_wait e).1);
    none_wait = none_wait;
  }

  -- The section of a get, run by one of the ready consumers or beside them.
  module _ (items_called : c.consumers ≢ [] → count c ≤ suc (length getters))
      (room_called : c.producers ≢ [] → c.cap ≤ count c + 1 + length putters) where
    wait_for_data :
        (waiting : List ℕ) (r : R)
        → c.closed ≡ false
        → channel_empty c ≡ true
        → Inv (behind getters putters (unchanged (record c { consumers = waiting }) r))
    wait_for_data waiting r e left = record {
      valid = record {
        cap_small = valid.cap_small;
        head_lt = valid.head_lt;
        tail_lt = valid.tail_lt;
      };
      items_called = λ h. ground (arith, channel_empty-eq c valid);
      room_called = room_called;
      none_wait = open_still e;
    }

    took :
        (g : ℕ → R)
        → c.closed ≡ false
        → channel_empty c ≡ false
        → Inv (behind getters putters (with_result g (take_slot c)))
    unfolding take_slot
    took g e left = record {
      valid = record {
        cap_small = valid.cap_small;
        head_lt = valid.head_lt;
        tail_lt = following-lt c.cap c.tail valid.cap_small valid.tail_lt;
      };
      items_called = λ h. omega (arith, items_called h, count-take c valid left);
      room_called = λ h.
          let (waited, called) = some_called c.producers h in
          omega (
            arith,
            room_called waited,
            count-take c valid left,
            called-append (queue_notify_one c.producers).1 putters called,
          );
      none_wait = open_still e;
    }

    pub get-Inv :
        (when_closed : R) (waiting : List ℕ) (when_empty : R) (g : ℕ → R)
        → Inv (
            behind getters putters (
              if c.closed
              then unchanged c when_closed
              else if channel_empty c
              then unchanged (record c { consumers = waiting }) when_empty
              else with_result g (take_slot c)))
    get-Inv when_closed waiting when_empty g = elim (Bool-cases c.closed) [
      | inl e ↦ subst-Inv getters putters (if-true _ _ e) (closed-Inv when_closed e)
      | inr e ↦ elim (Bool-cases (channel_empty c)) [
        | inl left ↦
            subst-Inv getters putters (if-false _ _ e ∙ if-true _ _ left)
              (wait_for_data waiting when_empty e left)
        | inr left ↦ subst-Inv getters putters (if-false _ _ e ∙ if-false _ _ left) (took g e left)
      ]
    ]

  -- The section of a put, run by one of the ready producers or beside them.
  module _ (items_called : c.consumers ≢ [] → count c ≤ length getters)
      (room_called : c.producers ≢ [] → c.cap ≤ count c + 2 + length putters) where
    wait_for_room :
        (waiting : List ℕ) (r : R)
        → c.closed ≡ false
        → channel_full c ≡ true
        → Inv (behind getters putters (unchanged (record c { producers = waiting }) r))
    wait_for_room waiting r e full = record {
      valid = record {
        cap_small = valid.cap_small;
        head_lt = valid.head_lt;
        tail_lt = valid.tail_lt;
      };
      items_called = items_called;
      room_called = λ h. ground (arith, channel_full-eq c valid);
      none_wait = open_still e;
    }

    put_in :
        (v : ℕ) (g : Bool → R)
        → c.closed ≡ false
        → channel_full c ≡ false
        → Inv (behind getters putters (with_result g (fill_slot c v)))
    unfolding fill_slot
    put_in v g e full = record {
      valid = record {
        cap_small = valid.cap_small;
        head_lt = following-lt c.cap c.head valid.cap_small valid.head_lt;
        tail_lt = valid.tail_lt;
      };
      items_called = λ h.
          let (waited, called) = some_called c.consumers h in
          omega (
            arith,
            items_called waited,
            count-fill c valid full,
            called-append (queue_notify_one c.consumers).1 getters called,
          );
      room_called = λ h. omega (arith, room_called h, count-fill c valid full);
      none_wait = open_still e;
    }

    pub put-Inv :
        (v : ℕ) (when_closed : R) (waiting : List ℕ) (when_full : R) (g : Bool → R)
        → Inv (
            behind getters putters (
              if c.closed
              then unchanged c when_closed
              else if channel_full c
              then unchanged (record c { producers = waiting }) when_full
              else with_result g (fill_slot c v)))
    put-Inv v when_closed waiting when_full g = elim (Bool-cases c.closed) [
      | inl e ↦ subst-Inv getters putters (if-true _ _ e) (closed-Inv when_closed e)
      | inr e ↦ elim (Bool-cases (channel_full c)) [
        | inl full ↦
            subst-Inv getters putters (if-false _ _ e ∙ if-true _ _ full)
              (wait_for_room waiting when_full e full)
        | inr full ↦
            subst-Inv getters putters (if-false _ _ e ∙ if-false _ _ full) (put_in v g e full)
      ]
    ]

none_left : (queue : List ℕ) → (queue_notify_all queue).0 ≡ []
unfolding queue_notify_all
none_left [] = refl
none_left (f ∷ queue) = none_left queue

pub chan_close-Inv : (s : System) → Inv s → Inv (behind s.getters s.putters (chan_close s.channel))
unfolding chan_close
chan_close-Inv s inv =
    let c = s.channel in
    elim (Bool-cases c.closed) [
      | inl e ↦
          subst-Inv s.getters s.putters (if-true _ _ e)
            (closed-Inv c inv.valid s.getters s.putters inv.none_wait tt e)
      | inr e ↦ subst-Inv s.getters s.putters (if-false _ _ e) (record {
        valid = record {
          cap_small = inv.valid.cap_small;
          head_lt = inv.valid.head_lt;
          tail_lt = inv.valid.tail_lt;
        };
        items_called = λ h. absurd (h (none_left c.consumers));
        room_called = λ h. absurd (h (none_left c.producers));
        none_wait = λ h. (none_left c.consumers, none_left c.producers);
      })
    ]
