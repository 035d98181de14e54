-- ===== src/Sync/Channel/Wakeups.antt =====
-- Fibers that wait at a channel are made ready in time: any number of fibers that get and put,
-- beside callers that try and close, interleaved in any order.
use tcengine.Base.{ℕ, suc, ◌+◌, ◌^◌, ◌≤◌, ◌<◌, ◌≡◌, ◌≢◌, refl, ◌∙◌, ap, arith}
use tcengine.Base.{true, false, none, some, List, [], ◌∷◌, ◌++◌}
use tcengine.Base.{length, length-append}
use tcengine.Sync.Channel.{
  new, channel_get, chan_try_get, channel_put, chan_try_put, chan_close, one_if,
}
use tcengine.Sync.Channel.Sections.{System, behind, Inv, get-Inv, put-Inv, chan_close-Inv}
use tcengine.Sync.Channel.Ring.{contents, length-contents}

-- A fiber comes to the section first, or runs it again where it was made ready. `value f` is the
-- pointer that fiber `f` puts.
pub data Step (value : ℕ → ℕ) (s : System) : System → Type 0 where
  get_first : (f : ℕ) → Step value s (behind s.getters s.putters (channel_get f s.channel))
  get_again :
      (f : ℕ) (before after : List ℕ)
      → s.getters ≡ before ++ (f ∷ after)
      → Step value s (behind (before ++ after) s.putters (channel_get f s.channel))
  put_first :
      (f : ℕ) → Step value s (behind s.getters s.putters (channel_put f s.channel (value f)))
  put_again :
      (f : ℕ) (before after : List ℕ)
      → s.putters ≡ before ++ (f ∷ after)
      → Step value s (behind s.getters (before ++ after) (channel_put f s.channel (value f)))
  try_get : Step value s (behind s.getters s.putters (chan_try_get s.channel))
  try_put : (v : ℕ) → Step value s (behind s.getters s.putters (chan_try_put s.channel v))
  close : Step value s (behind s.getters s.putters (chan_close s.channel))

pub data Reach (value : ℕ → ℕ) (num_slots : ℕ) : System → Type 0 where
  here : Reach value num_slots (record { channel = new num_slots; getters = []; putters = [] })
  next : {s t : System} → Reach value num_slots s → Step value s t → Reach value num_slots t

one_less :
    {all : List ℕ} (f : ℕ) (before after : List ℕ)
    → all ≡ before ++ (f ∷ after)
    → length all ≡ suc (length (before ++ after))
one_less f before after e =
    ap length e ∙ omega (arith, length-append before (f ∷ after), length-append before after)

Step-Inv : {value : ℕ → ℕ} {s t : System} → Step value s t → Inv s → Inv t
unfolding channel_get chan_try_get channel_put chan_try_put
Step-Inv {s} (get_first f) inv =
    get-Inv s.channel inv.valid s.getters s.putters inv.none_wait
      (λ h. omega (arith, inv.items_called h)) inv.room_called (some 0)
      (s.channel.consumers ++ (f ∷ [])) none some
Step-Inv {s} (get_again f before after e) inv =
    get-Inv s.channel inv.valid (before ++ after) s.putters inv.none_wait
      (λ h. omega (arith, inv.items_called h, one_less f before after e)) inv.room_called (some 0)
      (s.channel.consumers ++ (f ∷ [])) none some
Step-Inv {value} {s} (put_first f) inv =
    put-Inv s.channel inv.valid s.getters s.putters inv.none_wait inv.items_called
      (λ h. omega (arith, inv.room_called h)) (value f) (some 0) (s.channel.producers ++ (f ∷ []))
      none one_if
Step-Inv {value} {s} (put_again f before after e) inv =
    put-Inv s.channel inv.valid s.getters (before ++ after) inv.none_wait inv.items_called
      (λ h. omega (arith, inv.room_called h, one_less f before after e)) (value f) (some 0)
      (s.channel.producers ++ (f ∷ [])) none one_if
Step-Inv {s} try_get inv =
    get-Inv s.channel inv.valid s.getters s.putters inv.none_wait
      (λ h. omega (arith, inv.items_called h)) inv.room_called none s.channel.consumers none some
Step-Inv {s} (try_put v) inv =
    put-Inv s.channel inv.valid s.getters s.putters inv.none_wait inv.items_called
      (λ h. omega (arith, inv.room_called h)) v false s.channel.producers false (λ r. r)
Step-Inv {s} close inv = chan_close-Inv s inv

start-Inv :
    {n : ℕ} → 1 ≤ n → n < 2 ^ 32 → Inv (record { channel = new n; getters = []; putters = [] })
unfolding new
start-Inv some_slot small = record {
  valid = record { cap_small = small; head_lt = some_slot; tail_lt = some_slot };
  items_called = λ h. absurd (h refl);
  room_called = λ h. absurd (h refl);
  none_wait = λ h. (refl, refl);
}

Reach-Inv : {value : ℕ → ℕ} {n : ℕ} {s : System} → 1 ≤ n → n < 2 ^ 32 → Reach value n s → Inv s
Reach-Inv some_slot small here = start-Inv some_slot small
Reach-Inv some_slot small (next r step) = Step-Inv step (Reach-Inv some_slot small r)

-- In every state that any interleaving of fibers that get and put and of callers that try and
-- close reaches from a new channel of 1 up to 2^32 - 1 slots: while a consumer waits, at least as
-- many consumers are ready to run as the channel holds items; while a producer waits, at least as
-- many producers are ready as there is room for items; at a closed channel no fiber waits.
pub waiters_are_called :
    {value : ℕ → ℕ} {n : ℕ} {s : System}
    → 1 ≤ n
    → n < 2 ^ 32
    → Reach value n s
    → (s.channel.consumers ≢ [] → length (contents s.channel) ≤ length s.getters)
      × (s.channel.producers ≢ []
          → s.channel.cap ≤ length (contents s.channel) + 1 + length s.putters)
      × (s.channel.closed ≡ true → (s.channel.consumers ≡ []) × (s.channel.producers ≡ []))
waiters_are_called {s} some_slot small r =
    let inv = Reach-Inv some_slot small r in
    (
      λ h. omega (arith, inv.items_called h, length-contents s.channel),
      λ h. omega (arith, inv.room_called h, length-contents s.channel),
      inv.none_wait,
    )
