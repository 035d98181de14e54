-- ===== src/Vfs/Zip/Entry/Balance.antt =====
-- What opening and closing an entry does to the count of open entries and to the allocated blocks.
use tcengine.Base.{
  ℕ, suc, ◌+◌, ◌-◌, ◌^◌, ◌<◌, ◌≡◌, ◌∙◌, arith, Bool, true, false, not, Bool-cases, inl, inr,
}
use tcengine.Base.{Option, none, some, List, if◌then◌else◌}
use tcengine.Vfs.Zip.{
  Library, Zip, force_open_zip, force_close_zip, count_entry, fs_open_zip, fs_close_zip,
}
use tcengine.Vfs.Zip.Entry.{
  Zstream, buffer_blocks, is_some, too_long, entry_mode, allocate, free, free_null, free_buffer,
  grow_buffer, give_up, close_entry, read_buffer, read_located, read_entry, open_stream,
  zstream_open, zstream_flush, free_stream, zstream_close,
}

abbrev pub open_entries : {A : Type 0} → Option A → ℕ
open_entries none = 0
open_entries (some a) = 1

-- The blocks of an entry whose bytes are read, and of an entry that is open.
abbrev read_blocks : Option (Option ((ℕ → ℕ) × ℕ)) → ℕ
read_blocks none = 0
read_blocks (some b) = 1 + buffer_blocks (is_some b)

abbrev pub stream_blocks : Zstream → ℕ
stream_blocks s = 2 + buffer_blocks s.base_buffered

abbrev pub open_blocks : Option Zstream → ℕ
open_blocks none = 0
open_blocks (some s) = stream_blocks s

-- The archive with these counts.
abbrev pub Counts : {H : Type 0} → Zip H → (opened blocks : ℕ) → Type 0
Counts zip opened blocks = (zip.opened ≡ opened) × (zip.blocks ≡ blocks) × (zip.is_zipfs ≡ true)

-- Opening a stream: nothing changes where it fails, but for the blocks that a password that is too
-- long leaves behind.
abbrev pub Opens : {H : Type 0} → Bool → Zip H × Option Zstream → (opened blocks : ℕ) → Type 0
Opens fits r opened blocks =
    (r.0.opened ≡ opened + open_entries r.1)
    × (fits ≡ true → r.0.blocks ≡ blocks + open_blocks r.1)
    × (r.0.is_zipfs ≡ true)

module _ {H : Type 0} (lib : Library H) where
  force_open-Counts :
      (zip : Zip H) (first : Bool)
      → ((force_open_zip lib zip first).0.opened ≡ zip.opened)
        × ((force_open_zip lib zip first).0.blocks ≡ zip.blocks)
        × ((force_open_zip lib zip first).0.is_zipfs ≡ zip.is_zipfs)
  unfolding force_open_zip
  force_open-Counts zip first = (ground arith, ground arith, ground arith)

  fs_open-Counts :
      (zip : Zip H)
      → zip.opened + 1 < 2 ^ 32
      → ((fs_open_zip lib zip).0.opened
          ≡ (if (fs_open_zip lib zip).1 then zip.opened + 1 else zip.opened))
        × ((fs_open_zip lib zip).0.blocks ≡ zip.blocks)
        × ((fs_open_zip lib zip).0.is_zipfs ≡ zip.is_zipfs)
        × ((fs_open_zip lib zip).1 ≡ true → zip.is_zipfs ≡ true)
  unfolding fs_open_zip count_entry
  fs_open-Counts zip h = (
    ground (arith, force_open-Counts zip false),
    ground (arith, force_open-Counts zip false),
    ground (arith, force_open-Counts zip false),
    ground (arith, force_open-Counts zip false),
  )

  fs_close-Counts :
      (zip : Zip H) (opened blocks : ℕ)
      → Counts zip (suc opened) blocks
      → Counts (fs_close_zip lib zip).0 opened blocks
  unfolding fs_close_zip force_close_zip
  fs_close-Counts zip opened blocks h = (ground arith, ground arith, ground arith)

  give_up-Counts :
      (zip : Zip H) (n opened blocks : ℕ)
      → Counts zip (suc opened) (blocks + n)
      → Counts (give_up lib n zip) opened blocks
  unfolding give_up free
  give_up-Counts zip n opened blocks h =
      fs_close-Counts (record zip { blocks = zip.blocks - n }) opened blocks (h.0, omega arith, h.2)

  -- Reading the entry takes the archive's count and blocks from these to these.
  abbrev Reads : Zip H × Option (Option ((ℕ → ℕ) × ℕ)) → (opened blocks : ℕ) → Type 0
  Reads r opened blocks = Counts r.0 (opened + open_entries r.1) (blocks + read_blocks r.1)

  close_entry-Counts :
      (zip : Zip H) (opened blocks : ℕ)
      → Counts zip opened blocks
      → Counts (close_entry lib zip) opened blocks
  unfolding close_entry
  close_entry-Counts zip opened blocks h = h

  read_buffer-Counts :
      (len : ℕ) (zip : Zip H) (opened blocks : ℕ)
      → Counts zip (suc opened) (suc blocks)
      → Reads (read_buffer lib len zip) opened blocks
  unfolding read_buffer allocate free close_entry give_up is_some buffer_blocks fs_close_zip
      force_close_zip
  read_buffer-Counts len zip opened blocks h = (ground arith, ground arith, ground arith)

  read_located-Counts :
      (pwd : Option (List ℕ)) (zip : Zip H) (opened blocks : ℕ)
      → Counts zip (suc opened) (suc blocks)
      → Reads (read_located lib pwd zip) opened blocks
  unfolding read_located free close_entry give_up is_some buffer_blocks fs_close_zip force_close_zip
  read_located-Counts pwd zip opened blocks h =
      let (h1, r1) = lib.mz_zip_entry_read_open pwd zip.handle in
      let (h2, r2, len) = lib.mz_zip_entry_get_local_info h1 in
      let read = read_buffer-Counts len (record zip { handle = h2 }) opened blocks h in
      (ground arith, ground arith, ground arith)

  read_entry-Counts :
      (path : List ℕ) (mode : ℕ) (pwd : Option (List ℕ)) (zip : Zip H) (opened blocks : ℕ)
      → Counts zip (suc opened) (suc blocks)
      → Reads (read_entry lib path mode pwd zip) opened blocks
  unfolding read_entry free give_up is_some buffer_blocks fs_close_zip force_close_zip
  read_entry-Counts path mode pwd zip opened blocks h =
      let (h1, r1) = lib.mz_zip_locate_entry path zip.handle in
      let read = read_located-Counts pwd (record zip { handle = h1 }) opened blocks h in
      (ground arith, ground arith, ground arith)

  open_stream-Counts :
      (fresh : ℕ → ℕ) (path : List ℕ) (mode : ℕ) (pwd : Option (List ℕ))
      (r : Zip H × Option (Option ((ℕ → ℕ) × ℕ))) (opened blocks : ℕ)
      → Reads r opened blocks
      → Opens (not (too_long mode pwd)) (open_stream lib fresh path mode pwd r) opened blocks
  unfolding open_stream allocate free free_null free_buffer grow_buffer give_up is_some
      buffer_blocks fs_close_zip force_close_zip
  open_stream-Counts fresh path mode pwd (zip, none) opened blocks h = (h.0, λ f. h.1, h.2)
  open_stream-Counts fresh path mode pwd (zip, some none) opened blocks h =
      (ground arith, λ f. ground arith, ground arith)
  open_stream-Counts fresh path mode pwd (zip, some (some b)) opened blocks h =
      (ground arith, λ f. ground arith, ground arith)

  pub zstream_open-Counts :
      (fresh : ℕ → ℕ) (path : List ℕ) (flags : ℕ) (pwd : Option (List ℕ)) (zip : Zip H)
      → zip.is_zipfs ≡ true
      → zip.opened + 1 < 2 ^ 32
      → Opens
          (not (too_long (entry_mode flags) pwd))
          (zstream_open lib fresh path flags pwd zip)
          zip.opened
          zip.blocks
  unfolding zstream_open allocate free give_up fs_close_zip force_close_zip
  zstream_open-Counts fresh path flags pwd zip e h =
      let mode = entry_mode flags in
      let z1 = (fs_open_zip lib zip).0 in
      let opens = fs_open-Counts zip h in
      elim (Bool-cases (fs_open_zip lib zip).1) [
        | inl t ↦ elim (Bool-cases (lib.allocate 328 z1.handle).1) [
          | inl a ↦
              let zip' = (allocate lib 328 z1).0 in
              let counts : Counts zip' (suc zip.opened) (suc zip.blocks) =
                (ground arith, ground arith, ground arith) in
              let rest =
                open_stream-Counts fresh path mode pwd (read_entry lib path mode pwd zip')
                  zip.opened zip.blocks
                  (read_entry-Counts path mode pwd zip' zip.opened zip.blocks counts) in
              (ground arith, λ f. ground arith, ground arith)
          | inr a ↦ (ground arith, λ f. ground arith, ground arith)
        ]
        | inr t ↦ (ground arith, λ f. ground arith, ground arith)
      ]

  flush-Counts :
      (stream : Zstream) (zip : Zip H)
      → ((zstream_flush lib stream zip).0.opened ≡ zip.opened)
        × ((zstream_flush lib stream zip).0.blocks ≡ zip.blocks)
        × ((zstream_flush lib stream zip).0.is_zipfs ≡ zip.is_zipfs)
  unfolding zstream_flush
  flush-Counts stream zip = (ground arith, ground arith, ground arith)

  free_stream-Counts :
      (stream : Zstream) (zip : Zip H) (opened blocks : ℕ)
      → stream.base.owner ≡ true
      → Counts zip opened (blocks + stream_blocks stream)
      → Counts (free_stream lib stream zip) opened blocks
  unfolding free_stream free free_null free_buffer buffer_blocks
  free_stream-Counts stream zip opened blocks o h = rw o (elim (Bool-cases stream.base_buffered) [
    | inl b ↦ rw b (h.0, ground arith, h.2)
    | inr b ↦ rw b (h.0, ground arith, h.2)
  ])

  pub zstream_close-Counts :
      (stream : Zstream) (zip : Zip H) (opened blocks : ℕ)
      → stream.base.owner ≡ true
      → Counts zip (suc opened) (blocks + stream_blocks stream)
      → Counts (zstream_close lib stream zip).0 opened blocks
  unfolding zstream_close
  zstream_close-Counts stream zip opened blocks o h =
      let flushed = flush-Counts stream zip in
      fs_close-Counts (free_stream lib stream (zstream_flush lib stream zip).0) opened blocks (
        free_stream-Counts stream (zstream_flush lib stream zip).0 (suc opened) blocks o
          (flushed.0 ∙ h.0, flushed.1 ∙ h.1, flushed.2 ∙ h.2))
