-- ===== src/Memory/Resource/Growth.antt =====
-- What happens when a full table of one chunk grows.
use tcengine.Base.{◌+◌, ◌-◌, ◌*◌, ◌/◌, ◌%◌, ◌^◌, ◌≤◌, ◌<◌, ◌≡◌, ◌≢◌, arith}
use tcengine.Base.{some, none}
use tcengine.Memory.Resource.{Resources, Rid, Supply, elements, grow, alloc, get}

-- The table is full with its first chunk, of at least two slots.
pub record IsFull (r : Resources) : Type 0 where
  pub one_chunk : r.cap ≡ elements r
  pub full : r.used ≡ r.cap
  pub slots : 2 ≤ r.cap
  pub at_most : r.cap ≤ 4096

module _ {r : Resources} (f : IsFull r) (s : Supply) where
  one_round : r.cap / elements r ≡ 1
  one_round = grind (arith, f.one_chunk, f.slots)

  -- When res_alloc grows a full table of one chunk of two or more slots, every slot but the first
  -- has generation 1 again: ids of generation 1 give their objects also if they were freed
  -- before, and ids of another generation give NULL also if they are live.
  pub growth_resets :
      (id : Rid)
      → 1 ≤ id.index
      → id.index < r.cap
      → let r' = (alloc s r).1 in
        (id.gen ≡ 1 → get r' id ≡ some (r.chunks 0 + id.index)) × (id.gen ≢ 1 → get r' id ≡ none)
  unfolding alloc get grow
  growth_resets id pos lt =
      let first : id.index / elements r ≡ 0 = grind (arith, f.one_chunk) in
      let place : id.index % elements r ≡ id.index = grind (arith, f.one_chunk) in
      (λ e. ground (arith, one_round), λ e. ground (arith, one_round))

  -- The res_alloc that grows such a table returns the last slot of the new chunk, and the next
  -- res_alloc returns whatever index the memory of the new free list held behind it.
  pub growth_loses_slots :
      let (a, r1) = alloc s r in
      let (b, r2) = alloc s r1 in
      (a.index ≡ 2 * r.cap - 1) × (b.index ≡ s.free_list (r.cap + 1) % 2 ^ 32)
  unfolding alloc grow
  growth_loses_slots = ground (arith, one_round)
