-- ===== src/Registry/Tests.antt =====
-- Runs of the registry, and the theorems at concrete modules. The hash is the sum of the bytes, once
-- alone and once above 32 bits.
use tcengine.Base.{ℕ, ◌+◌, ◌^◌, ◌≡◌, ◌≢◌, ◌⊎◌, refl, arith}
use tcengine.Base.{none, some, List, [], ◌∷◌}
use tcengine.Registry.{
  Module, State, probe, get_module, registry_init, remove_implementation, set_module,
  add_implementation, remove_module,
}
use tcengine.Registry.Map.{get_module-get_module}
use tcengine.Registry.Implementations.{
  implementations, one_if, remove_implementation-implementations,
}

abbrev sum : List ℕ → ℕ
sum [] = 1
sum (c ∷ name) = c + sum name

abbrev the_first : ℕ
the_first = 1

abbrev the_second : ℕ
the_second = 2

-- A hash of 2^32 and more.
abbrev long_sum : List ℕ → ℕ
long_sum name = 2 ^ 32 + sum name

abbrev first_state : State
first_state = (get_module long_sum (64 ∷ []) registry_init).0

abbrev second_state : State
second_state = (get_module long_sum (64 ∷ []) first_state).0

first_slot : get_module long_sum (64 ∷ []) registry_init ≡ (first_state, some 1)
unfolding probe
first_slot = refl

second_slot : get_module long_sum (64 ∷ []) first_state ≡ (second_state, some 2)
unfolding probe
second_slot = refl

get_module-get_module_example : the_first ≢ the_second
get_module-get_module_example =
    get_module-get_module long_sum (64 ∷ []) registry_init first_state second_state the_first
      the_second (omega arith) (λ e. absurd (omega arith)) first_slot second_slot

abbrev renderer : Module
renderer = record {
  hash = 3;
  name = 70 ∷ [];
  size = 2;
  entries = 8 ∷ 9 ∷ 0 ∷ 0 ∷ 0 ∷ 0 ∷ 0 ∷ 0 ∷ [];
}

remove_implementation-implementations_example :
    ((implementations 8 renderer ≡ 0) × (remove_implementation 8 renderer ≡ none))
    ⊎ ((n : Module) × (remove_implementation 8 renderer ≡ some n)
        × ((x : ℕ) → implementations x n + one_if x 8 ≡ implementations x renderer))
remove_implementation-implementations_example =
    remove_implementation-implementations 8 renderer refl (omega arith)

-- Two pointers set, and all removed. A size of 16 bytes counts as 16
-- entries, so no more can be added.
module_run :
    (set_module (5 ∷ 6 ∷ []) renderer
      ≡ some (record renderer { size = 16; entries = 5 ∷ 6 ∷ 0 ∷ 0 ∷ 0 ∷ 0 ∷ 0 ∷ 0 ∷ [] }))
    × (add_implementation 7 (record renderer { size = 16 }) ≡ none)
    × ((remove_module renderer).entries ≡ 0 ∷ 0 ∷ 0 ∷ 0 ∷ 0 ∷ 0 ∷ 0 ∷ 0 ∷ [])
unfolding add_implementation
module_run = (refl, refl, refl)
