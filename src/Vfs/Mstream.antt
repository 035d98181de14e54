-- ===== src/Vfs/Mstream.antt =====
-- Memory streams of src/vfs.c: a buffer, a cursor and a size. The memory that tc_realloc and
-- tc_malloc add is a parameter, and none where they fail.
pub mod Writes
mod Tests
use tcengine.Base.{
  ℕ, ◌+◌, ◌-◌, ◌*◌, ◌/◌, ◌%◌, ◌^◌, min, max, bit_and, Bool, true, false, ◌&&◌, ◌||◌, not,
}
use tcengine.Base.{Option, none, some, List, [], ◌==◌, if◌then◌else◌, ltb, leb, length, get_or}

abbrev pub file_read : ℕ
file_read = 0

abbrev pub file_write : ℕ
file_write = 1

abbrev pub file_append : ℕ
file_append = 8

-- `fstream_t` with its `mstream_t`.
pub record Stream : Type 0 where
  pub buffer : ℕ → ℕ
  pub cursor : ℕ
  pub capacity : ℕ
  pub owner : Bool
  pub size : ℕ
  pub flags : ℕ

-- `flags & (FILE_WRITE | FILE_APPEND)`
abbrev pub writable : ℕ → Bool
writable flags = not (bit_and flags (file_write + file_append) == 0)

abbrev pub u64 : ℕ → ℕ
u64 n = n % 2 ^ 64

-- MEMORY_STREAM_GROW_SIZE times what holds `n` bytes.
pub grown : ℕ → ℕ
grown n = u64 (4096 * (n / 4096 + (if n % 4096 == 0 then 0 else 1)))

-- `memcpy`, and `realloc`, which keeps the bytes that were there.
pub copy : (buffer : ℕ → ℕ) (start : ℕ) (bytes : List ℕ) → ℕ → ℕ
copy buffer start bytes i =
    if leb start i && ltb i (start + length bytes) then get_or bytes (i - start) 0 else buffer i

pub realloc : (buffer fresh : ℕ → ℕ) (capacity : ℕ) → ℕ → ℕ
realloc buffer fresh capacity i = if ltb i capacity then buffer i else fresh i

-- `mstream_cap`, whose numbers are signed.
pub mstream_cap : Stream → ℕ → ℕ
mstream_cap s reqsize = min reqsize (s.size - s.cursor)

-- `mstream_read`: how many bytes were copied, from the cursor on.
pub mstream_read : Stream → ℕ → Stream × ℕ
mstream_read s len =
    if bit_and s.flags file_read == 0
    then (s, 0)
    else if leb s.size s.cursor
    then (s, 0)
    else (record s { cursor = s.cursor + mstream_cap s len }, mstream_cap s len)

-- The end of `mstream_write`, where the buffer is large enough.
pub store : Stream → List ℕ → Stream × ℕ
store s bytes = (
  record s {
    buffer = copy s.buffer s.cursor bytes;
    cursor = u64 (s.cursor + length bytes);
    size = max s.size (u64 (s.cursor + length bytes));
  },
  length bytes,
)

-- The buffer grows, if there is memory.
pub grow : Option (ℕ → ℕ) → Stream → ℕ → Option Stream
grow none s len = none
grow (some fresh) s len = some (record s {
  buffer = realloc s.buffer fresh s.capacity;
  capacity = grown (u64 (s.cursor + len));
})

-- Without memory the stream stays as it is, and nothing is written.
pub store_in : Stream → Option Stream → List ℕ → Stream × ℕ
store_in s none bytes = (s, 0)
store_in s (some t) bytes = store t bytes

-- `mstream_write`: how many bytes were written.
pub mstream_write : Option (ℕ → ℕ) → Stream → List ℕ → Stream × ℕ
mstream_write memory s bytes =
    if writable s.flags
    then (if ltb (s.capacity - s.cursor) (length bytes)
        then store_in s (grow memory s (length bytes)) bytes
        else store s bytes)
    else (s, 0)

-- `fs_open_mstream`: `buffer` is none for NULL. A stream that has no memory because it is opened at
-- NULL and not for writing has bytes here that none of the functions reads.
unfoldable pub fs_open_mstream :
    (fresh : ℕ → ℕ) (buffer : Option (ℕ → ℕ)) (bufsize flags : ℕ) (owner : Bool) → Stream
fs_open_mstream fresh none bufsize flags owner = record {
  buffer = fresh;
  cursor = 0;
  capacity = if writable flags then grown bufsize else bufsize;
  owner = if writable flags then true else owner;
  size = 0;
  flags = flags;
}
fs_open_mstream fresh (some buffer) bufsize flags owner = record {
  buffer = if writable flags && not owner then realloc buffer fresh bufsize else buffer;
  cursor = if bit_and flags file_append == 0 then 0 else bufsize;
  capacity = if writable flags && not owner then grown bufsize else bufsize;
  owner = if writable flags && not owner then true else owner;
  size = bufsize;
  flags = flags;
}
