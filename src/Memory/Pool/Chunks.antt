-- ===== src/Memory/Pool/Chunks.antt =====
-- Where a pool that has not had anything back puts its objects.
use tcengine.Base.{ℕ, ◌+◌, ◌-◌, ◌*◌, ◌/◌, ◌%◌, ◌^◌, ◌≤◌, ◌<◌, ◌≡◌, ◌≢◌, refl, arith}
use tcengine.Base.{inl, inr, Bool-cases, ◌==◌, ◌++◌, length, get_or, set, take, replicate}
use tcengine.Base.{take-length, length-append, length-replicate, length-set, get_or-set_self}
use tcengine.Base.{
  get_or-set_ne, get_or-append_replicate, ==_iff, true, ℕ_discrete, ◌∙◌, if◌then◌else◌,
}
use tcengine.Memory.Pool.{Pool, chunk_size, u32_mod, alloc, next_chunk, grow}

-- The pool has cut `used` bytes from `m` chunks, the last one being in use; chunk `j` is at
-- `chunks j`. The bound keeps the 32-bit sums from wrapping.
pub record Bump (chunks : ℕ → ℕ) (m : ℕ) (p : Pool) : Type 0 where
  pub none_freed : p.freed ≡ 0
  pub below : p.used ≤ m * 4096
  pub above : m * 4096 < p.used + 4096
  pub last : p.index ≡ (m + u32_mod - 1) % u32_mod
  pub capacity : p.cap ≡ length p.table * 4096
  pub fits : m ≤ length p.table
  pub small : length p.table ≤ 2 * m
  pub bound : m < 2 ^ 18
  pub filled : (j : ℕ) → j < m → get_or p.table j 0 ≡ chunks j
  pub vacant : (j : ℕ) → m ≤ j → get_or p.table j 0 ≡ 0

module _ {chunks : ℕ → ℕ} (nonzero : (j : ℕ) → chunks j ≢ 0) {m : ℕ} {p : Pool}
    (b : Bump chunks m p) where
  open b use {below, above, last, capacity, fits, small, bound, filled, vacant}

  -- The table behind `grow` has room for one more, and the same entries.
  record Grown (q : Pool) : Type 0 where
    used : q.used ≡ p.used
    freed : q.freed ≡ 0
    objsize : q.objsize ≡ p.objsize
    capacity : q.cap ≡ length q.table * 4096
    fits : m < length q.table
    small : length q.table ≤ 2 * (m + 1)
    same : (j : ℕ) → get_or q.table j 0 ≡ get_or p.table j 0

  table-grow :
      (k : ℕ) (j : ℕ)
      → get_or (take (length p.table) p.table ++ replicate k 0) j 0 ≡ get_or p.table j 0
  table-grow k j = rw take-length (get_or-append_replicate p.table k j 0)

  length-grow :
      (k : ℕ) → length (take (length p.table) p.table ++ replicate k 0) ≡ length p.table + k
  length-grow k = rw (take-length, length-append, length-replicate)

  grow-Grown : m ≡ length p.table → Grown (grow p)
  unfolding grow
  grow-Grown full =
      let nr : p.cap / chunk_size ≡ length p.table = omega arith in
      let k = (if length p.table == 0 then 1 else length p.table * 2) - length p.table in
      rw nr record {
        used = refl;
        freed = b.none_freed;
        objsize = refl;
        capacity = ground (arith, length-grow k);
        fits = ground (arith, length-grow k);
        small = ground (arith, length-grow k);
        same = table-grow k;
      }

  -- What `next_chunk` leaves: one chunk more, and nothing of it used.
  record Opened (q : Pool) : Type 0 where
    used : q.used ≡ p.used
    freed : q.freed ≡ 0
    objsize : q.objsize ≡ p.objsize
    last : q.index ≡ m
    capacity : q.cap ≡ length q.table * 4096
    fits : m + 1 ≤ length q.table
    small : length q.table ≤ 2 * (m + 1)
    filled : (j : ℕ) → j < m + 1 → get_or q.table j 0 ≡ chunks j
    vacant : (j : ℕ) → m + 1 ≤ j → get_or q.table j 0 ≡ 0

  fill-Opened :
      (q : Pool)
      → Grown q
      → Opened (record q {
        index = m;
        table = if get_or q.table m 0 == 0 then set q.table m (chunks m) else q.table;
      })
  fill-Opened q g =
      let empty : get_or q.table m 0 ≡ 0 = g.same m ∙ vacant m (omega arith) in
      rw empty record {
        used = g.used;
        freed = g.freed;
        objsize = g.objsize;
        last = refl;
        capacity = omega (arith, g.capacity, length-set q.table m (chunks m));
        fits = omega (arith, g.fits, length-set q.table m (chunks m));
        small = omega (arith, g.small, length-set q.table m (chunks m));
        filled = λ j h. elim (ℕ_discrete m j) [
          | yes e ↦ rw (← e) (get_or-set_self q.table m (chunks m) 0 g.fits)
          | no ne ↦
              get_or-set_ne q.table m j (chunks m) 0 ne ∙ g.same j ∙ filled j (omega (arith, ne))
        ];
        vacant = λ j h.
            get_or-set_ne q.table m j (chunks m) 0 (omega arith)
            ∙ g.same j
            ∙ vacant j (omega arith);
      }

  next_chunk-Opened : Opened (next_chunk (chunks m) p)
  unfolding next_chunk
  next_chunk-Opened =
      let index : (p.index + 1) % u32_mod ≡ m = omega arith in
      let nr : p.cap / chunk_size ≡ length p.table = omega arith in
      rw (index, nr)
        (elim (Bool-cases (m == length p.table)) [
          | inl full ↦ rw full (fill-Opened (grow p) (grow-Grown ((==_iff _ _).0 full)))
          | inr part ↦ rw part (fill-Opened p (ground arith))
        ])

  -- What an allocation from the chunks returns.
  pub record Placed (a : ℕ) (p' : Pool) : Type 0 where
    pub address : a ≡ chunks (p.used / 4096) + p.used % 4096
    pub used : p'.used ≡ p.used + p.objsize
    pub objsize : p'.objsize ≡ p.objsize
    pub number : ℕ
    pub bump : Bump chunks number p'
    pub number_le : number ≤ m + 1

  -- The next object lies in the chunk that `used` points to, just behind the bytes used, and the
  -- pool is as before with its size more.
  pub alloc-Placed :
      0 < p.objsize
      → p.used % 4096 + p.objsize ≤ 4096
      → m + 1 < 2 ^ 18
      → let (a, p') = alloc (chunks m) p in Placed a p'
  unfolding alloc
  alloc-Placed pos room limit =
      let fresh : (p.freed == 0) ≡ true = (==_iff _ _).1 b.none_freed in
      elim (Bool-cases (p.used % chunk_size == 0)) [
        | inl full ↦
            let open_chunk = next_chunk-Opened in
            let at_end : p.used ≡ m * 4096 = ground arith in
            rw (fresh, full)
              record {
                address = ground (arith, open_chunk, open_chunk.filled m (omega arith));
                used = ground (arith, open_chunk);
                objsize = open_chunk.objsize;
                number = m + 1;
                bump = record {
                  none_freed = open_chunk.freed;
                  below = ground (arith, open_chunk);
                  above = ground (arith, open_chunk);
                  last = ground (arith, open_chunk);
                  capacity = open_chunk.capacity;
                  fits = open_chunk.fits;
                  small = open_chunk.small;
                  bound = limit;
                  filled = open_chunk.filled;
                  vacant = open_chunk.vacant;
                };
                number_le = omega arith;
              }
        | inr part ↦
            let index : p.index ≡ p.used / 4096 = ground arith in
            rw (fresh, part)
              record {
                address = ground (arith, filled (p.used / 4096));
                used = ground arith;
                objsize = refl;
                number = m;
                bump = record {
                  none_freed = b.none_freed;
                  below = ground arith;
                  above = ground arith;
                  last = last;
                  capacity = capacity;
                  fits = fits;
                  small = small;
                  bound = bound;
                  filled = filled;
                  vacant = vacant;
                };
                number_le = omega arith;
              }
      ]
