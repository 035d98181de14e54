-- ===== src/Memory/Temp.antt =====
-- The temporary allocator of src/include/private/memory.h: bytes cut from a buffer of 1024 bytes inside
-- the allocator, and then from chunks of a parent. Addresses are numbers; what the parent returns for a
-- chunk is an argument.
pub mod Bump
pub mod Overrun
mod Tests
use tcengine.Base.{
  ℕ, suc, ◌+◌, ◌-◌, ◌%◌, ◌^◌, min, Bool, true, false, ltb, if◌then◌else◌, List, [], ◌∷◌,
}
use tcengine.Math.{next_power_of_2, u32}

abbrev pub chunk_size : ℕ
chunk_size = 4096

-- `sizeof(temp_internal_t)` and `sizeof(temp_node_t)`.
abbrev pub internal_size : ℕ
internal_size = 24

abbrev pub node_size : ℕ
node_size = 16

abbrev pub buffer_size : ℕ
buffer_size = 1024

-- `tc_temp_t` with the `temp_internal_t` at the start of its buffer; the chunks with their sizes.
pub record Temp : Type 0 where
  pub used : ℕ
  pub cap : ℕ
  pub end : ℕ
  pub nodes : List (ℕ × ℕ)

pub tc_temp_init : (buffer : ℕ) → Temp
tc_temp_init buffer = record {
  used = internal_size;
  cap = buffer_size;
  end = buffer + internal_size;
  nodes = [];
}

abbrev pub full : (new_size : ℕ) → Temp → Bool
full new_size t = ltb t.cap ((t.used + new_size) % 2 ^ 64)

pub new_node : (new_size chunk : ℕ) → Temp → Temp
new_node new_size chunk t =
    let size = min chunk_size (next_power_of_2 (u32 (new_size + node_size))) in
    record {
      used = node_size;
      cap = size;
      end = chunk + node_size;
      nodes = (chunk, size) ∷ t.nodes;
    }

abbrev pub bump : (new_size : ℕ) → Temp → Temp × ℕ
bump new_size t = (record t { used = (t.used + new_size) % 2 ^ 64; end = t.end + new_size }, t.end)

pub temp_realloc : (ptr old_size new_size chunk : ℕ) → Temp → Temp × ℕ
temp_realloc ptr old_size new_size chunk t =
    if ltb old_size new_size
    then bump new_size (if full new_size t then new_node new_size chunk t else t)
    else (t, ptr)
