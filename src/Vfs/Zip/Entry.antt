-- ===== src/Vfs/Zip/Entry.antt =====
-- Entries of a zip file of src/vfs.c: a memory stream that holds the bytes of the entry, read when it is
-- opened and written back when it is closed.
pub mod Balance
pub mod Runs
pub mod Answers
mod Tests
use tcengine.Base.{
  ℕ, ◌+◌, ◌-◌, ◌%◌, ◌^◌, bit_and, bit_or, Bool, true, false, not, ◌&&◌, ◌||◌, Option, none, some,
}
use tcengine.Base.{List, [], ◌∷◌, ◌==◌, if◌then◌else◌, leb, length}
use tcengine.Vfs.Mstream.{Stream, file_read, file_write, file_append, writable, fs_open_mstream}
use tcengine.Vfs.Zip.{
  Library, Zip, max_password_length, password_or_null, fs_open_zip, fs_close_zip,
}

-- The `fstream_t` that zstream_open writes, with its `zstream_t`. `base_buffered` tells that the buffer of the
-- memory stream is not NULL.
pub record Zstream : Type 0 where
  pub flags : ℕ
  pub base : Stream
  pub base_buffered : Bool
  pub path : List ℕ
  pub password : List ℕ

-- `sizeof` of the structs does not matter.
abbrev pub entry_size : ℕ
entry_size = 328

abbrev pub stream_size : ℕ
stream_size = 96

-- The mode that a stream is opened in.
pub entry_mode : ℕ → ℕ
entry_mode flags = if bit_and flags file_append == 0 then flags else bit_or flags file_write

-- How many blocks a buffer is.
pub buffer_blocks : Bool → ℕ
buffer_blocks buffered = if buffered then 1 else 0

pub is_some : Option ((ℕ → ℕ) × ℕ) → Bool
is_some none = false
is_some (some b) = true

-- A password that does not fit its field, in an entry that is opened for writing.
pub too_long : (mode : ℕ) → Option (List ℕ) → Bool
too_long mode none = false
too_long mode (some pwd) =
    not (bit_and mode file_write == 0) && leb max_password_length (length pwd)

pub kept_password : (mode : ℕ) → Option (List ℕ) → List ℕ
kept_password mode none = []
kept_password mode (some pwd) = if bit_and mode file_write == 0 then [] else pwd

-- The memory stream over the bytes; `fresh` is what its own buffer holds.
pub open_base : (ℕ → ℕ) → Option ((ℕ → ℕ) × ℕ) → (mode : ℕ) → Stream
open_base fresh none mode = fs_open_mstream fresh none 0 mode true
open_base fresh (some (bytes, len)) mode = fs_open_mstream fresh (some bytes) len mode true

module _ {H : Type 0} (lib : Library H) where
  -- `tc_malloc`, or `tc_calloc` without its memset, which stops the program at NULL.
  pub allocate : ℕ → Zip H → Zip H × Bool
  allocate size zip =
      let (h, ok) = lib.allocate size zip.handle in
      (record zip { handle = h; blocks = if ok then zip.blocks + 1 else zip.blocks }, ok)

  -- `tc_free` of so many blocks.
  pub free : ℕ → Zip H → Zip H
  free n zip = record zip { blocks = zip.blocks - n }

  -- `tc_free` at NULL: system_alloc asks for a block of no bytes, which nobody keeps.
  pub free_null : Zip H → Zip H
  free_null zip =
      let (h, ok) = lib.allocate 0 zip.handle in
      record zip { handle = h; leaked = if ok then zip.leaked + 1 else zip.leaked }

  pub free_buffer : (buffered : Bool) → Zip H → Zip H
  free_buffer buffered zip = if buffered then free 1 zip else free_null zip

  -- fs_open_mstream asks for a buffer of its own where it has none and is opened for writing, of no
  -- bytes here. Whether the stream has a buffer then; the assertion that it has is left out.
  pub grow_buffer : (mode : ℕ) (buffered : Bool) → Zip H → Zip H × Bool
  grow_buffer mode buffered zip =
      if writable mode && not buffered then allocate 0 zip else (zip, buffered)

  -- The end of an error path: blocks are freed, and the archive has one entry less.
  pub give_up : ℕ → Zip H → Zip H
  give_up n zip = (fs_close_zip lib (free n zip)).0

  pub close_entry : Zip H → Zip H
  close_entry zip = record zip { handle = (lib.mz_zip_entry_close zip.handle).0 }

  -- Reads `len` bytes into a buffer. `none`: the error path is done.
  pub read_buffer : (len : ℕ) → Zip H → Zip H × Option (Option ((ℕ → ℕ) × ℕ))
  read_buffer len zip =
      let (zip1, ok) = allocate len zip in
      let (h, count, bytes) = lib.mz_zip_entry_read (len % 2 ^ 32) zip1.handle in
      let zip2 = record zip1 { handle = h } in
      if not ok
      then (give_up 1 (close_entry zip1), none)
      else if not (count == len)
      then (give_up 1 (close_entry (free 1 zip2)), none)
      else (close_entry (close_entry zip2), some (some (bytes, len)))

  -- The entry has been located.
  pub read_located : Option (List ℕ) → Zip H → Zip H × Option (Option ((ℕ → ℕ) × ℕ))
  read_located pwd zip =
      let (h, result) = lib.mz_zip_entry_read_open pwd zip.handle in
      let zip1 = record zip { handle = h } in
      let (h', result', len) = lib.mz_zip_entry_get_local_info h in
      let zip2 = record zip { handle = h' } in
      if result == 0
      then (give_up 1 zip1, none)
      else if result' == 0
      then (give_up 1 (close_entry zip2), none)
      else if len == 0
      then (close_entry zip2, some none)
      else read_buffer len zip2

  -- The bytes of the entry, or NULL, where they are asked for.
  pub read_entry :
      (path : List ℕ) (mode : ℕ) → Option (List ℕ) → Zip H → Zip H × Option (Option ((ℕ → ℕ) × ℕ))
  read_entry path mode pwd zip =
      let (h, result) = lib.mz_zip_locate_entry path zip.handle in
      let zip1 = record zip { handle = h } in
      if bit_and mode file_read == 0 && bit_and mode file_append == 0
      then (zip, some none)
      else if result == 0
      then (if bit_and mode file_write == 0 then (give_up 1 zip1, none) else (zip1, some none))
      else read_located pwd zip1

  pub open_stream :
      (fresh : ℕ → ℕ) (path : List ℕ) (mode : ℕ)
      → Option (List ℕ)
      → Zip H × Option (Option ((ℕ → ℕ) × ℕ))
      → Zip H × Option Zstream
  open_stream fresh path mode pwd (zip, none) = (zip, none)
  open_stream fresh path mode pwd (zip, some buffer) =
      let (zip1, ok) = allocate stream_size zip in
      let (zip2, buffered) = grow_buffer mode (is_some buffer) zip1 in
      if not ok
      then (give_up 1 (free_buffer (is_some buffer) zip1), none)
      else if too_long mode pwd
      then ((fs_close_zip lib zip2).0, none)
      else (
        zip2,
        some (record {
          flags = mode;
          base = open_base fresh buffer mode;
          base_buffered = buffered;
          path = path;
          password = kept_password mode pwd;
        }),
      )

  -- `path` is what fs_path_join makes of the resource directory and the name.
  pub zstream_open :
      (fresh : ℕ → ℕ) (path : List ℕ) (flags : ℕ) → Option (List ℕ) → Zip H → Zip H × Option Zstream
  zstream_open fresh path flags pwd zip =
      let mode = entry_mode flags in
      let (zip1, ok) = fs_open_zip lib zip in
      let (zip2, entry) = allocate entry_size zip1 in
      if not ok
      then (zip1, none)
      else if not (bit_and mode (lib.stream_flags zip1.handle) == mode)
      then (give_up 0 zip1, none)
      else if not entry
      then (give_up 0 zip2, none)
      else open_stream fresh path mode pwd (read_entry path mode pwd zip2)

  pub zstream_flush : Zstream → Zip H → Zip H × Bool
  zstream_flush stream zip =
      let password = password_or_null stream.password in
      let (h, result) = lib.mz_zip_locate_entry stream.path zip.handle in
      let located = not (result == 0) in
      let h1 = if located then (lib.mz_zip_entry_get_info h).0 else h in
      let (h2, opened) =
        lib.mz_zip_entry_write_open located stream.path stream.base.size password h1 in
      let (h3, count) = lib.mz_zip_entry_write stream.base.buffer (stream.base.size % 2 ^ 32) h2 in
      let h4 = if stream.base.size == 0 then h2 else h3 in
      let wrote = stream.base.size == 0 || count == stream.base.size in
      let (h5, closed) = lib.mz_zip_entry_close h4 in
      if not (writable stream.flags)
      then (zip, true)
      else if opened == 0
      then (record zip { handle = h2 }, false)
      else (record zip { handle = h5 }, wrote && not (closed == 0))

  -- `mtream_close` and the two frees behind it.
  pub free_stream : Zstream → Zip H → Zip H
  free_stream stream zip =
      free 2 (if stream.base.owner then free_buffer stream.base_buffered zip else zip)

  pub zstream_close : Zstream → Zip H → Zip H × Bool
  zstream_close stream zip =
      let (zip1, flushed) = zstream_flush stream zip in
      let (zip2, closed) = fs_close_zip lib (free_stream stream zip1) in (zip2, flushed && closed)
