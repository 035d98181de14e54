-- ===== src/Memory/Resource/Slots.antt =====
-- The free list of a table with one chunk: no slot is handed out twice.
use tcengine.Base.{ℕ, ◌+◌, ◌-◌, ◌^◌, ◌≤◌, ◌<◌, ◌≡◌, ◌≢◌, refl, arith}
use tcengine.Base.{false, ◌==◌, leb, update, ◌%◌}
use tcengine.Memory.Resource.{Resources, Rid, Supply, alloc, free, rid, u32}

-- The slots behind `used` in the free list are free; they are different slots of the table.
pub record IsValid (r : Resources) : Type 0 where
  pub used_le : r.used ≤ r.cap
  pub small : r.cap ≤ 4096
  pub in_table : (j : ℕ) → r.used ≤ j → j < r.cap → r.free_list j < r.cap
  pub different :
      (i j : ℕ)
      → r.used ≤ i
      → i < r.cap
      → r.used ≤ j
      → j < r.cap
      → r.free_list i ≡ r.free_list j
      → i ≡ j

-- A slot is live while it is not in the free part of the free list.
abbrev pub IsLive : Resources → ℕ → Type 0
IsLive r i = (i < r.cap) × ((j : ℕ) → r.used ≤ j → j < r.cap → r.free_list j ≢ i)

module _ {r : Resources} (v : IsValid r) where
  open v use {used_le, small, in_table, different}

  -- What an allocation is while the table is not full, without the wrap of 32-bit sums.
  pub alloc_room :
      (s : Supply)
      → r.used < r.cap
      → alloc s r ≡ (
        rid (r.free_list r.used) (r.entries (r.free_list r.used)) r.type,
        record r { used = r.used + 1 },
      )
  unfolding alloc
  alloc_room s room =
      let part : (r.used == r.cap) ≡ false = ground arith in
      let sum : u32 (r.used + 1) ≡ r.used + 1 = omega arith in rw (part, sum)

  pub free_live :
      (id : Rid)
      → 0 < r.used
      → id.index < r.cap
      → free r id ≡ record r {
        entries = update r.entries id.index (u32 (r.entries id.index + 1));
        used = r.used - 1;
        free_list = update r.free_list (r.used - 1) id.index;
      }
  unfolding free
  free_live id pos lt =
      let inside : leb r.cap id.index ≡ false = ground arith in
      let diff : u32 (r.used + 2 ^ 32 - 1) ≡ r.used - 1 = omega arith in rw (inside, diff)

  -- In a valid table that is not full, res_alloc takes a slot that was not live, makes it live,
  -- keeps the other live slots and leaves the table valid.
  pub alloc-IsLive :
      (s : Supply)
      → r.used < r.cap
      → let (id, r') = alloc s r in
        IsValid r'
        × (¬ (IsLive r id.index))
        × IsLive r' id.index
        × ((i : ℕ) → IsLive r i → IsLive r' i)
  alloc-IsLive s room =
      let idx = r.free_list r.used in
      let low : idx % 2 ^ 32 ≡ idx = omega (arith, in_table r.used) in
      rw (alloc_room s room, low)
        (
          record {
            used_le = omega arith;
            small = small;
            in_table = λ j h l. in_table j (omega arith) l;
            different = λ i j h l h' l' e. different i j (omega arith) l (omega arith) l' e;
          },
          λ live. live.1 r.used (omega arith) room refl,
          (
            in_table r.used (omega arith) room,
            λ j h l e.
                absurd (omega (arith, different j r.used (omega arith) l (omega arith) room e)),
          ),
          λ i live. (live.0, λ j h l. live.1 j (omega arith) l),
        )

  -- In a valid table, res_free of a live slot ends the life of that slot and of no other, and
  -- leaves the table valid.
  pub free-IsLive :
      (id : Rid)
      → 0 < r.used
      → IsLive r id.index
      → let r' = free r id in
        IsValid r' × (¬ (IsLive r' id.index)) × ((i : ℕ) → i ≢ id.index → IsLive r i → IsLive r' i)
  free-IsLive id some_used live = rw (free_live id some_used live.0) (
    record {
      used_le = omega arith;
      small = small;
      in_table = λ j h l. ground (arith, in_table j, live.0);
      different = λ i j h l h' l' e. ground (arith, different i j, live.1 i, live.1 j);
    },
    λ alive. alive.1 (r.used - 1) (omega arith) (omega arith) (ground arith),
    λ i ne alive. (alive.0, λ j h l. ground (arith, alive.1 j)),
  )
