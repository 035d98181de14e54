-- ===== src/Data/List/Tests.antt =====
-- Lists at work: the list at address 10, and nodes at 20, 30 and 40.
use tcengine.Base.{List, [], ◌∷◌, ◌≡◌, refl, [], ◌∷◌}
use tcengine.Data.List.{Heap, list_init, list_add, list_add_tail}
use tcengine.Data.List.Runs.{
  Call, add, add_tail, remove, pop, calls, without, all_meant, calls-list_init,
}
use tcengine.Data.List.Operations.{IsList, list_init-IsList, list_add-IsList, list_add_tail-IsList}

abbrev memory : Heap
memory = record { next = λ _. 0; prev = λ _. 0 }

abbrev empty : Heap
empty = list_init 10 memory

empty-IsList : IsList empty 10 []
empty-IsList = list_init-IsList memory 10

abbrev one : Heap
one = list_add 10 20 empty

one-IsList : IsList one 10 (20 ∷ [])
one-IsList = list_add-IsList empty 10 20 [] empty-IsList refl

abbrev two : Heap
two = list_add_tail 10 30 one

two-IsList : IsList two 10 (20 ∷ 30 ∷ [])
two-IsList = list_add_tail-IsList one 10 30 (20 ∷ []) one-IsList refl

abbrev some_calls : List Call
some_calls = add 20 ∷ add_tail 30 ∷ add 40 ∷ remove 20 ∷ pop ∷ []

calls-list_init_example :
    IsList (calls 10 some_calls empty).0 10 (all_meant some_calls []).0
    × ((calls 10 some_calls empty).1 ≡ (all_meant some_calls []).1)
calls-list_init_example =
    calls-list_init memory 10 some_calls (refl, (refl, (refl, (refl, (tt, tt)))))

what_is_left : all_meant some_calls [] ≡ (30 ∷ [], 0 ∷ 0 ∷ 0 ∷ 0 ∷ 40 ∷ [])
unfolding all_meant without
what_is_left = refl
