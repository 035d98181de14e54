-- ===== src/Sync/Channel/Tests.antt =====
-- Channels at work.
use tcengine.Base.{◌+◌, ◌≤◌, ◌≡◌, ◌≢◌, refl, arith, List, [], ◌∷◌, length, none, some, true, false}
use tcengine.Sync.Channel.{new, channel_get}
use tcengine.Sync.Channel.Ring.{contents}
use tcengine.Sync.Channel.Fifo.{
  Call, get, try_get, put, try_put, close, answers, queue_answers, queue_answer, dequeue, enqueue,
  pop_front, channel_is_queue,
}
use tcengine.Sync.Channel.Sections.{System, behind}
use tcengine.Sync.Channel.Wakeups.{Reach, here, next, get_first, waiters_are_called}

-- Three slots hold two items.
abbrev calls : List Call
calls = try_put 5 ∷ try_put 6 ∷ try_put 7 ∷ try_get ∷ put 1 8 ∷ try_get ∷ close ∷ get 2 ∷ []

channel_is_queue_example :
    answers calls (new 3) ≡ queue_answers calls (record { limit = 2; data_in = []; closed = false })
channel_is_queue_example = channel_is_queue 3 calls (omega arith) (omega arith)

expected :
    queue_answers calls (record { limit = 2; data_in = []; closed = false })
    ≡ some 1 ∷ some 1 ∷ some 0 ∷ some 5 ∷ some 1 ∷ some 6 ∷ none ∷ some 0 ∷ []
unfolding queue_answers queue_answer dequeue enqueue pop_front
expected = refl

-- One fiber waits for data.
abbrev waiting : System
waiting = behind [] [] (channel_get 9 (new 2))

waiting-Reach : Reach (λ f. f) 2 waiting
waiting-Reach = next here (get_first 9)

waiters_are_called_example :
    (waiting.channel.consumers ≢ [] → length (contents waiting.channel) ≤ length waiting.getters)
    × (waiting.channel.producers ≢ []
        → waiting.channel.cap ≤ length (contents waiting.channel) + 1 + length waiting.putters)
    × (waiting.channel.closed ≡ true
        → (waiting.channel.consumers ≡ []) × (waiting.channel.producers ≡ []))
waiters_are_called_example =
    waiters_are_called {value = λ f. f} {n = 2} {s = waiting} (omega arith) (omega arith)
      waiting-Reach
