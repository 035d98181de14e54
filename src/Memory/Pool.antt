-- ===== src/Memory/Pool.antt =====
-- src/datastructures/pool.c: objects of one size, cut from 4 KB chunks of a parent allocator.
-- Addresses are numbers, 0 is NULL. What the parent returns for a chunk is an argument.
pub mod Reuse
pub mod Chunks
pub mod Disjoint
mod Tests
use tcengine.Base.{ℕ, zero, suc, ◌+◌, ◌-◌, ◌*◌, ◌/◌, ◌%◌, ◌^◌, List, [], ◌∷◌, ◌++◌, max}
use tcengine.Base.{
  ◌==◌, if◌then◌else◌, ltb, update, get_or, set, take, length, replicate, ◌≡◌, refl,
}

abbrev pub chunk_size : ℕ
chunk_size = 4096

abbrev pub u32_mod : ℕ
u32_mod = 2 ^ 32

-- `mempool_t`, with the table of chunks that `data` points to as a list, and `word`, the memory
-- in which freed objects hold their links.
pub record Pool : Type 0 where
  pub table : List ℕ
  pub freed : ℕ
  pub objsize : ℕ
  pub cap : ℕ
  pub used : ℕ
  pub index : ℕ
  pub word : ℕ → ℕ

-- `mempool_create`; `sizeof(void*)` is 8, and the index starts at -1.
pub create : (objsize : ℕ) → (memory : ℕ → ℕ) → Pool
create objsize memory = record {
  table = [];
  freed = 0;
  objsize = max objsize 8;
  cap = 0;
  used = 0;
  index = u32_mod - 1;
  word = memory;
}

-- `mempool_alloc` at a pointer, with `new_size` 0.
pub free : ℕ → Pool → Pool
free ptr p = record p {
  word = update p.word ptr p.freed;
  freed = ptr;
  used = (p.used + u32_mod - p.objsize) % u32_mod;
}

-- A table of twice the size, zeroed behind the old entries.
grow : Pool → Pool
grow p =
    let nr_blocks = p.cap / chunk_size in
    let new_blocks = if nr_blocks == 0 then 1 else nr_blocks * 2 in
    record p {
      table = take nr_blocks p.table ++ replicate (new_blocks - nr_blocks) 0;
      cap = if nr_blocks == 0 then chunk_size else p.cap * 2 % u32_mod;
    }

-- The chunk behind the last one: the table grows if it is full, and an empty entry is filled.
next_chunk : (chunk : ℕ) → Pool → Pool
next_chunk chunk p =
    let nr_blocks = p.cap / chunk_size in
    let index = (p.index + 1) % u32_mod in
    let q = if index == nr_blocks then grow p else p in
    record q {
      index = index;
      table = if get_or q.table index 0 == 0 then set q.table index chunk else q.table;
    }

-- `mempool_alloc` at NULL: the pointer and the pool. `chunk` is what the parent returns if it is
-- asked.
pub alloc : (chunk : ℕ) → Pool → ℕ × Pool
alloc chunk p =
    if p.freed == 0
    then (let q = if p.used % chunk_size == 0 then next_chunk chunk p else p in
        (
          get_or q.table q.index 0 + q.used % chunk_size,
          record q { used = (q.used + q.objsize) % u32_mod },
        ))
    else (p.freed, record p { freed = p.word p.freed })

-- `mempool_clear`: the chunks that go back to the parent, and the pool. The table and the capacity
-- stay as they are.
pub clear : Pool → List ℕ × Pool
clear p = (
  if length p.table == 0 then [] else take (p.cap / chunk_size) p.table,
  record p { used = 0; index = u32_mod - 1; freed = 0 },
)
