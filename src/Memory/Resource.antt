-- ===== src/Memory/Resource.antt =====
-- src/datastructures/resource.c: tables of objects behind ids with a generation. Addresses are
-- numbers, 0 is NULL. The arrays are maps, and what a fresh or wrongly reallocated array holds is
-- an argument, as are the addresses that the base allocator returns.
pub mod Slots
pub mod Ids
pub mod Growth
mod Tests
use tcengine.Base.{ℕ, zero, suc, ◌+◌, ◌-◌, ◌*◌, ◌/◌, ◌%◌, ◌^◌, Option, none, some}
use tcengine.Base.{◌==◌, if◌then◌else◌, ltb, leb, not, update}

abbrev pub chunk_size : ℕ
chunk_size = 4096

abbrev pub u32 : ℕ → ℕ
u32 n = n % 2 ^ 32

-- `tc_rid_t`, a bit field of 32, 22 and 10 bits.
pub record Rid : Type 0 where
  pub index : ℕ
  pub gen : ℕ
  pub type : ℕ

abbrev pub rid : ℕ → ℕ → ℕ → Rid
rid index gen type = record { index = index % 2 ^ 32; gen = gen % 2 ^ 22; type = type % 2 ^ 10 }

-- `resources_t`
pub record Resources : Type 0 where
  pub chunks : ℕ → ℕ
  pub free_list : ℕ → ℕ
  pub entries : ℕ → ℕ
  pub type : ℕ
  pub obj_size : ℕ
  pub cap : ℕ
  pub used : ℕ

-- For objects of 1 to 4096 bytes; for larger ones the source divides by zero later.
abbrev pub elements : Resources → ℕ
elements r = chunk_size / r.obj_size

-- `res_create`; `type` is what the counter `res_id` gives.
pub create : (obj_size type : ℕ) → Resources
create obj_size type = record {
  chunks = λ _. 0;
  free_list = λ _. 0;
  entries = λ _. 0;
  type = type;
  obj_size = obj_size;
  cap = 0;
  used = 0;
}

-- `TC_REALLOC`: the first `n` entries stay, the others are what the memory holds.
abbrev pub realloc : ℕ → (ℕ → ℕ) → (ℕ → ℕ) → ℕ → ℕ
realloc n old memory i = if ltb i n then old i else memory i

-- `for (i = 0; i < n; i++) array[first + i] = value + step * i`
abbrev pub fill : (first n value step : ℕ) → (ℕ → ℕ) → ℕ → ℕ
fill first n value step array i =
    if leb first i
    then (if ltb i (first + n) then value + step * (i - first) else array i)
    else array i

-- What the environment supplies when the table grows.
pub record Supply : Type 0 where
  pub chunk : ℕ  -- the address of the new chunk
  pub entries : ℕ → ℕ  -- what the new part of `entries` holds
  pub free_list : ℕ → ℕ  -- what the memory holds that replaces `free_list`

-- The growth in `res_alloc`. The array that is reallocated for `free_list` is `res->free`, a
-- function, so nothing of the old free list is kept.
pub grow : Supply → Resources → Resources
grow s r =
    let n = if r.used == 0 then 0 else r.cap / elements r in
    record r {
      chunks = update r.chunks n s.chunk;
      entries = fill n (elements r) 1 0 (realloc (n * elements r) r.entries s.entries);
      free_list = fill n (elements r) r.used 1 s.free_list;
      cap = u32 (r.cap + elements r);
    }

-- `res_alloc`
pub alloc : Supply → Resources → Rid × Resources
alloc s r =
    let q = if r.used == r.cap then grow s r else r in
    let idx = q.free_list q.used in
    (rid idx (q.entries idx) q.type, record q { used = u32 (q.used + 1) })

-- `res_get`; `&res->chunks[chunk][element]` counts bytes.
pub get : Resources → Rid → Option ℕ
get r id =
    if leb r.cap id.index
    then none
    else if r.entries id.index == id.gen
    then some (r.chunks (id.index / elements r) + id.index % elements r)
    else none

-- `res_free`
pub free : Resources → Rid → Resources
free r id =
    if leb r.cap id.index
    then r
    else (let used = u32 (r.used + 2 ^ 32 - 1) in
        record r {
          entries = update r.entries id.index (u32 (r.entries id.index + 1));
          used = used;
          free_list = update r.free_list used id.index;
        })
