-- ===== src/Data/Slist/Tests.antt =====
-- Queues at work: the queue at address 10, and nodes at 20 and 30.
use tcengine.Base.{List, [], ◌∷◌, ◌≡◌, refl, arith, [], ◌∷◌}
use tcengine.Data.Slist.{Heap, slist_init}
use tcengine.Data.Slist.Runs.{
  Call, add_tail, push_front, pop_front, calls, all_meant, calls-slist_init,
}
use tcengine.Data.Slist.Fifo.{IsQueue}

abbrev memory : Heap
memory = record { next = λ _. 0; tail = λ _. 0 }

abbrev some_calls : List Call
some_calls =
    add_tail 20 ∷ push_front 30 ∷ pop_front ∷ add_tail 30 ∷ pop_front ∷ pop_front ∷ pop_front ∷ []

calls-slist_init_example :
    IsQueue (calls 10 some_calls (slist_init 10 memory)).0 10 (all_meant some_calls []).0
    × ((calls 10 some_calls (slist_init 10 memory)).1 ≡ (all_meant some_calls []).1)
calls-slist_init_example =
    calls-slist_init memory 10 some_calls (omega arith)
      (refl, (refl, (tt, (refl, (tt, (tt, (tt, tt)))))))

what_comes : (all_meant some_calls []).1 ≡ 0 ∷ 0 ∷ 30 ∷ 0 ∷ 20 ∷ 30 ∷ 0 ∷ []
unfolding all_meant
what_comes = refl
