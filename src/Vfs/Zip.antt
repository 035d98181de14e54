-- ===== src/Vfs/Zip.antt =====
-- Zip files of src/vfs.c: the archive, which is open while one of its entries is. minizip, the system's
-- streams and the allocator are a parameter; an `int32_t` of minizip is its 64-bit pattern.
pub mod Entry
use tcengine.Base.{
  ℕ, ◌+◌, ◌-◌, ◌%◌, ◌^◌, bit_and, bit_or, Bool, true, false, not, ◌&&◌, Option, none, some,
}
use tcengine.Base.{List, [], ◌∷◌, ◌==◌, if◌then◌else◌, leb, length}
use tcengine.Vfs.Mstream.{file_read, file_append}

abbrev pub file_readwrite : ℕ
file_readwrite = 2

abbrev pub max_path : ℕ
max_path = 512

abbrev pub max_password_length : ℕ
max_password_length = 64

-- What the code calls, over a state `H` of their own: fs_open_fstream and fs_close_stream on the
-- archive's stream, minizip, and the allocator, which tells whether it gave memory.
pub record Library (H : Type 0) : Type 0 where
  pub open_fstream : (dir : ℕ) (filename : List ℕ) (mode : ℕ) → Option (List ℕ) → H → H × Bool
  pub close_fstream : H → H × Bool
  pub mz_zip_open : (mode : ℕ) → H → H × ℕ
  pub mz_zip_close : H → H × ℕ
  -- The flags of the stream that mz_zip_get_stream gives.
  pub stream_flags : H → ℕ
  pub mz_zip_locate_entry : (path : List ℕ) → H → H × ℕ
  pub mz_zip_entry_read_open : Option (List ℕ) → H → H × ℕ
  -- With the entry's uncompressed size.
  pub mz_zip_entry_get_local_info : H → H × ℕ × ℕ
  -- With the bytes in the buffer.
  pub mz_zip_entry_read : (len : ℕ) → H → H × ℕ × (ℕ → ℕ)
  pub mz_zip_entry_close : H → H × ℕ
  pub mz_zip_entry_get_info : H → H × ℕ
  -- With what mz_zip_entry_get_info wrote, or the fresh description of the entry.
  pub mz_zip_entry_write_open :
      (written : Bool) (path : List ℕ) (size : ℕ) → Option (List ℕ) → H → H × ℕ
  pub mz_zip_entry_write : (buffer : ℕ → ℕ) (len : ℕ) → H → H × ℕ
  pub allocate : (size : ℕ) → H → H × Bool

-- `zipfile_t`, with what the library keeps as `handle`. `is_zipfs` tells that the file system's functions
-- are those of zipfs, `blocks` counts the allocated blocks of the entries, and `leaked` those that tc_free
-- allocated at NULL.
pub record Zip (H : Type 0) : Type 0 where
  pub handle : H
  pub opened : ℕ
  pub dir : ℕ
  pub flags : ℕ
  pub filename : List ℕ
  pub pwd : List ℕ
  pub is_zipfs : Bool
  pub blocks : ℕ
  pub leaked : ℕ

-- NULL for the empty password.
pub password_or_null : List ℕ → Option (List ℕ)
password_or_null [] = none
password_or_null (c ∷ cs) = some (c ∷ cs)

-- The mode in which the archive is opened.
pub open_mode : (flags : ℕ) (first : Bool) → ℕ
open_mode flags first =
    let mode = if first then flags else bit_or flags file_read in
    if bit_and mode file_append == 0 then mode else bit_or mode file_readwrite

module _ {H : Type 0} (lib : Library H) where
  unfoldable pub force_open_zip : Zip H → (first : Bool) → Zip H × Bool
  force_open_zip zip first =
      let mode = open_mode zip.flags first in
      let (h, ok) =
        lib.open_fstream zip.dir zip.filename (mode - bit_and mode file_append)
          (password_or_null zip.pwd) zip.handle in
      let (h', result) = lib.mz_zip_open mode h in
      if not ok
      then (record zip { handle = h }, false)
      else if result == 0
      then (record zip { handle = (lib.close_fstream h').0 }, false)
      else (record zip { handle = h' }, true)

  unfoldable pub force_close_zip : Zip H → Zip H × Bool
  force_close_zip zip =
      let (h, result) = lib.mz_zip_close zip.handle in
      let (h', ok) = lib.close_fstream h in (record zip { handle = h' }, not (result == 0) && ok)

  -- Counts one more entry, where the archive is open.
  unfoldable pub count_entry : Zip H × Bool → Zip H × Bool
  count_entry (zip, ok) =
      if ok then (record zip { opened = (zip.opened + 1) % 2 ^ 32 }, true) else (zip, false)

  unfoldable pub fs_open_zip : Zip H → Zip H × Bool
  fs_open_zip zip =
      if not zip.is_zipfs
      then (zip, false)
      else if zip.opened == 0
      then count_entry (force_open_zip zip false)
      else count_entry (zip, true)

  unfoldable pub fs_close_zip : Zip H → Zip H × Bool
  fs_close_zip zip =
      let zip' = record zip { opened = zip.opened - 1 } in
      if not zip.is_zipfs
      then (zip, false)
      else if zip.opened == 0
      then (zip, true)
      else if zip'.opened == 0
      then force_close_zip zip'
      else (zip', true)

  -- `h` is the state behind mz_zip_create. `none`: no file system is written; the archive that
  -- cleanup_zip frees is gone.
  unfoldable pub init_zip_fs :
      (dir : ℕ) (filename : List ℕ) (flags : ℕ) (pwd : List ℕ) → H → Option (Zip H)
  init_zip_fs dir filename flags pwd h =
      let zip : Zip H = record {
        handle = h;
        opened = 0;
        dir = dir;
        flags = flags;
        filename = filename;
        pwd = pwd;
        is_zipfs = true;
        blocks = 0;
        leaked = 0;
      } in
      let (zip', ok) = force_open_zip zip true in
      let (zip'', closed) = force_close_zip zip' in
      if leb max_path (length filename)
      then none
      else if leb max_password_length (length pwd)
      then none
      else if not ok
      then none
      else if not closed
      then none
      else some zip''

  -- The state that the library is left in, and the result.
  unfoldable pub exit_zip_fs : Zip H → H × Bool
  exit_zip_fs zip =
      let (zip', ok) = force_close_zip (record zip { opened = 0 }) in
      if not zip.is_zipfs
      then (zip.handle, false)
      else if zip.opened == 0
      then (zip.handle, true)
      else (zip'.handle, true)
