-- ===== src/Memory/Resource/Tests.antt =====
-- A table at work, and the theorems about tables at it.
use tcengine.Base.{ℕ, ◌+◌, ◌^◌, ◌<◌, ◌≡◌, ◌≢◌, refl, arith, some, none}
use tcengine.Memory.Resource.{Resources, Rid, Supply, alloc, free, get}
use tcengine.Memory.Resource.Slots.{IsValid, IsLive, alloc-IsLive, free-IsLive}
use tcengine.Memory.Resource.Ids.{get-free}
use tcengine.Memory.Resource.Ids.{neighbours_overlap}
use tcengine.Memory.Resource.Growth.{IsFull, growth_resets}

abbrev supply : Supply
supply = record { chunk = 16384; entries = λ _. 77; free_list = λ _. 99 }

-- Four slots of 1 KB, of which 0 and 1 are handed out.
abbrev table : Resources
table = record {
  chunks = λ _. 8192;
  free_list = λ i. i;
  entries = λ _. 1;
  type = 5;
  obj_size = 1024;
  cap = 4;
  used = 2;
}

abbrev full : Resources
full = record table { used = 4 }

abbrev id : ℕ → Rid
id i = record { index = i; gen = 1; type = 5 }

-- The second object starts one byte behind the first.
one_byte : (get table (id 0) ≡ some 8192) × (get table (id 1) ≡ some 8193)
unfolding get
one_byte = (refl, refl)

table-IsValid : IsValid table
table-IsValid = record {
  used_le = omega arith;
  small = omega arith;
  in_table = λ j h l. l;
  different = λ i j h l h' l' e. e;
}

one-IsLive : IsLive table 1
one-IsLive = (omega arith, λ j h l e. omega arith)

alloc-IsLive_example :
    let (i, r') = alloc supply table in
    IsValid r'
    × (¬ (IsLive table i.index))
    × IsLive r' i.index
    × ((j : ℕ) → IsLive table j → IsLive r' j)
alloc-IsLive_example = alloc-IsLive table-IsValid supply (omega arith)

free-IsLive_example :
    let r' = free table (id 1) in
    IsValid r' × (¬ (IsLive r' 1)) × ((i : ℕ) → i ≢ 1 → IsLive table i → IsLive r' i)
free-IsLive_example = free-IsLive table-IsValid (id 1) (omega arith) one-IsLive

get-free_example :
    let r' = free table (id 1) in
    let (i, r'') = alloc supply r' in
    (get r' (id 1) ≡ none)
    × (get r'' (id 1) ≡ none)
    × (i.index ≡ 1)
    × (2 < 2 ^ 22 → get r'' i ≡ some 8193)
    × ((other : Rid) → other.index ≢ 1 → get r'' other ≡ get table other)
unfolding get
get-free_example = get-free table-IsValid supply (id 1) (omega arith) (omega arith) one-IsLive refl

neighbours_overlap_example : (8192 < 8193) × (8193 < 8192 + 1024)
unfolding get
neighbours_overlap_example =
    neighbours_overlap table (id 0) (id 1) (omega arith) refl refl refl refl

full-IsFull : IsFull full
full-IsFull = record { one_chunk = refl; full = refl; slots = omega arith; at_most = omega arith }

growth_resets_example :
    let r' = (alloc supply full).1 in
    (◌≡◌ {A = ℕ} 1 1 → get r' (id 2) ≡ some (8192 + 2)) × (◌≢◌ {A = ℕ} 1 1 → get r' (id 2) ≡ none)
growth_resets_example = growth_resets full-IsFull supply (id 2) (omega arith) (omega arith)
