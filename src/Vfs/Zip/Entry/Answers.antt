-- ===== src/Vfs/Zip/Entry/Answers.antt =====
-- How the answers of minizip are read: 0, which is its MZ_OK, counts as a failure.
use tcengine.Base.{ℕ, ◌≡◌, ap, ◌∙◌, arith, Bool, false}
use tcengine.Base.{Option, none, some, List, bit_and, bit_and-zero}
use tcengine.Vfs.Mstream.{file_append, fs_open_mstream}
use tcengine.Vfs.Zip.{Library, Zip, force_open_zip, count_entry, fs_open_zip, init_zip_fs}
use tcengine.Vfs.Zip.Entry.{
  Zstream, entry_mode, allocate, open_base, read_entry, open_stream, zstream_open,
}

-- minizip opens every archive, and says so.
unfoldable pub OpensArchives : {H : Type 0} → Library H → Type 0
OpensArchives {H} lib = (mode : ℕ) (h : H) → (lib.mz_zip_open mode h).1 ≡ 0

abbrev content : Option Zstream → ℕ
content none = 0
content (some s) = s.base.size

module _ {H : Type 0} (lib : Library H) where
  force_open-refused :
      (zip : Zip H) (first : Bool) → OpensArchives lib → (force_open_zip lib zip first).1 ≡ false
  unfolding force_open_zip OpensArchives
  force_open-refused zip first ok = grind (arith, ok)

  -- Where minizip opens every archive and answers MZ_OK, which is 0, init_zip_fs gives no file
  -- system, and zstream_open opens no entry of an archive that is not open.
  pub opened_archive_refused :
      (dir : ℕ) (filename : List ℕ) (flags : ℕ) (pwd : List ℕ) (h : H) (fresh : ℕ → ℕ)
      (path : List ℕ) (mode : ℕ) (key : Option (List ℕ)) (zip : Zip H)
      → OpensArchives lib
      → zip.opened ≡ 0
      → (init_zip_fs lib dir filename flags pwd h ≡ none)
        × ((zstream_open lib fresh path mode key zip).1 ≡ none)
  unfolding init_zip_fs zstream_open fs_open_zip count_entry
  opened_archive_refused dir filename flags pwd h fresh path mode key zip ok e =
      (grind (arith, force_open-refused), ground (arith, force_open-refused zip false ok))

  open_stream-content :
      (fresh : ℕ → ℕ) (path : List ℕ) (mode : ℕ) (pwd : Option (List ℕ)) (zip : Zip H)
      → content (open_stream lib fresh path mode pwd (zip, some none)).1 ≡ 0
  unfolding open_stream open_base fs_open_mstream
  open_stream-content fresh path mode pwd zip = ground arith

  read_entry-nothing :
      (path : List ℕ) (mode : ℕ) (pwd : Option (List ℕ)) (zip : Zip H)
      → bit_and mode file_append ≡ 0
      → read_entry lib path mode pwd zip ≡ (zip, some none)
  unfolding read_entry
  read_entry-nothing path mode pwd zip e = ground (arith, bit_and-zero mode)

  -- A stream that zstream_open opens without FILE_APPEND, for reading for instance, is empty,
  -- whatever the archive holds.
  pub zstream_open-content :
      (fresh : ℕ → ℕ) (path : List ℕ) (flags : ℕ) (pwd : Option (List ℕ)) (zip : Zip H)
      (s : Zstream)
      → bit_and flags file_append ≡ 0
      → (zstream_open lib fresh path flags pwd zip).1 ≡ some s
      → s.base.size ≡ 0
  unfolding zstream_open entry_mode
  zstream_open-content fresh path flags pwd zip s e h =
      let zip' = (allocate lib 328 (fs_open_zip lib zip).0).0 in
      let empty : content
            (open_stream lib fresh path flags pwd (read_entry lib path flags pwd zip')).1
          ≡ 0 =
        ap (λ r. content (open_stream lib fresh path flags pwd r).1)
          (read_entry-nothing path flags pwd zip' e)
        ∙ open_stream-content fresh path flags pwd zip' in
      ground (arith, empty)
