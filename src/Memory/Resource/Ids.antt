-- ===== src/Memory/Resource/Ids.antt =====
-- What an id gives: a live id its object, a stale id nothing; and where generations fail.
use tcengine.Base.{ℕ, ◌+◌, ◌/◌, ◌%◌, ◌^◌, ◌≤◌, ◌<◌, ◌≡◌, ◌≢◌, arith}
use tcengine.Base.{ap, ◌*◌, some, none}
use native.Mathlib.Nat.{div-add-mod}
use tcengine.Memory.Resource.{Resources, Rid, Supply, elements, grow, create, alloc, free, get}
use tcengine.Memory.Resource.Slots.{IsValid, IsLive, alloc_room, free_live, free-IsLive}

-- The first res_alloc on a new table, which adds its first chunk, leaves a valid table with a
-- live slot, and res_get of the returned id is the start of the chunk, for object sizes from 1 to
-- 4096 and types below 2^10.
pub create-alloc :
    (obj_size type : ℕ) (s : Supply)
    → 0 < obj_size
    → obj_size ≤ 4096
    → type < 2 ^ 10
    → let (id, r) = alloc s (create obj_size type) in
      IsValid r × IsLive r id.index × (get r id ≡ some s.chunk)
unfolding alloc create grow get
create-alloc obj_size type s pos le lt =
    let n : 4096 / obj_size ≤ 4096 = grind arith in
    let p : 1 ≤ 4096 / obj_size = grind arith in
    (
      record {
        used_le = ground arith;
        small = ground arith;
        in_table = λ j h l. ground arith;
        different = λ i j h l h' l' e. ground arith;
      },
      (ground arith, λ j h l. ground arith),
      ground arith,
    )

module _ {r : Resources} (v : IsValid r) (s : Supply) where
  open v use {used_le, small, in_table, different}

  -- In a valid table that is not full, res_get of the id that res_alloc returns is the address of
  -- its slot if the stored generation is below 2^22, and NULL if it is not.
  pub get-alloc :
      r.used < r.cap
      → let (id, r') = alloc s r in
        let idx = r.free_list r.used in
        (r.entries idx < 2 ^ 22 → get r' id ≡ some (r.chunks (idx / elements r) + idx % elements r))
        × (2 ^ 22 ≤ r.entries idx → get r' id ≡ none)
  unfolding get
  get-alloc room =
      rw (alloc_room v s room) (ground (arith, in_table r.used), ground (arith, in_table r.used))

  -- After res_free of a live id with its current generation that id gives NULL, also after the
  -- next res_alloc, which returns the same slot; the new id gives the same object unless the
  -- generation reaches 2^22, and ids of other slots give what they gave.
  pub get-free :
      (id : Rid) {a : ℕ}
      → 0 < r.used
      → id.gen < 2 ^ 22
      → IsLive r id.index
      → get r id ≡ some a
      → let r' = free r id in
        let (id', r'') = alloc s r' in
        (get r' id ≡ none)
        × (get r'' id ≡ none)
        × (id'.index ≡ id.index)
        × (id.gen + 1 < 2 ^ 22 → get r'' id' ≡ some a)
        × ((other : Rid) → other.index ≢ id.index → get r'' other ≡ get r other)
  unfolding get
  get-free id pos low live e =
      let freed = free-IsLive v id pos live in
      let state = free_live v id pos live.0 in
      let low_index : id.index < 2 ^ 32 = omega (arith, live.0) in
      let next = alloc_room freed.0 s (rw state (omega arith)) in
      rw (next, state)
        (ground arith, ground arith, ground arith, λ h. ground arith, λ other ne. ground arith)

  -- In a valid table with two or more slots used, a slot that is freed twice is returned by the
  -- next two calls of res_alloc, with the same id.
  pub alloc-free-free :
      (id : Rid)
      → 2 ≤ r.used
      → id.index < r.cap
      → let (a, r1) = alloc s (free (free r id) id) in
        let (b, r2) = alloc s r1 in (a.index ≡ id.index) × (b ≡ a)
  unfolding alloc free
  alloc-free-free id two lt = ground arith

-- For every object size from 2 on, the addresses that res_get gives for two neighbouring slots of
-- one chunk are less than an object apart, so the objects overlap.
pub neighbours_overlap :
    (r : Resources) (id next : Rid) {a b : ℕ}
    → 2 ≤ r.obj_size
    → next.index ≡ id.index + 1
    → next.index / elements r ≡ id.index / elements r
    → get r id ≡ some a
    → get r next ≡ some b
    → (a < b) × (b < a + r.obj_size)
unfolding get
neighbours_overlap r id next two e same ga gb = ground (
  arith,
  div-add-mod id.index (elements r),
  div-add-mod next.index (elements r),
  ap (λ (t : ℕ). elements r * t) same,
)
