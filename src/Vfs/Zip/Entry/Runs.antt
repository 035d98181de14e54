-- ===== src/Vfs/Zip/Entry/Runs.antt =====
-- Entries of a zip file opened and closed in any order.
use tcengine.Base.{
  ℕ, zero, suc, ◌+◌, ◌^◌, ◌<◌, ◌≡◌, refl, sym, ap, ◌∙◌, arith, Bool, true, false, not,
}
use tcengine.Base.{Option, none, some, List, [], ◌∷◌, length, get_elem?}
use tcengine.Vfs.Mstream.{fs_open_mstream}
use tcengine.Vfs.Zip.{Library, Zip, force_open_zip, force_close_zip, init_zip_fs}
use tcengine.Vfs.Zip.Entry.{
  Zstream, too_long, entry_mode, open_base, open_stream, zstream_open, zstream_close,
}
use tcengine.Vfs.Zip.Entry.Balance.{
  Counts, Opens, stream_blocks, open_blocks, open_entries, zstream_open-Counts,
  zstream_close-Counts,
}

-- What a user of the archive does; streams are numbered, the last opened first.
pub data Op : Type 0 where
  open_entry : (fresh : ℕ → ℕ) (path : List ℕ) (flags : ℕ) (pwd : Option (List ℕ)) → Op
  close_entry : (i : ℕ) → Op

remove_at : {A : Type 0} → List A → ℕ → List A
remove_at [] i = []
remove_at (x ∷ xs) zero = xs
remove_at (x ∷ xs) (suc i) = x ∷ remove_at xs i

-- The blocks of all open streams.
unfoldable pub total : List Zstream → ℕ
total [] = 0
total (s ∷ ss) = stream_blocks s + total ss

-- The passwords fit their field.
unfoldable pub Fit : List Op → Type 0
Fit [] = Unit
Fit (open_entry fresh path flags pwd ∷ ops) = (too_long (entry_mode flags) pwd ≡ false) × Fit ops
Fit (close_entry i ∷ ops) = Fit ops

abbrev owner : Option Zstream → Bool
owner none = true
owner (some s) = s.base.owner

open_base-owner :
    (fresh : ℕ → ℕ) (buffer : Option ((ℕ → ℕ) × ℕ)) (mode : ℕ)
    → (open_base fresh buffer mode).owner ≡ true
unfolding open_base fs_open_mstream
open_base-owner fresh none mode = ground arith
open_base-owner fresh (some (bytes, len)) mode = ground arith

abbrev Owned : List Zstream → Type 0
Owned [] = Unit
Owned (s ∷ ss) = (s.base.owner ≡ true) × Owned ss

total-remove_at :
    (ss : List Zstream) (i : ℕ) (s : Zstream)
    → get_elem? ss i ≡ some s
    → Owned ss
    → (s.base.owner ≡ true)
      × Owned (remove_at ss i)
      × (total ss ≡ total (remove_at ss i) + stream_blocks s)
      × (length ss ≡ suc (length (remove_at ss i)))
unfolding total remove_at
total-remove_at [] i s h o = cc (h)
total-remove_at (t ∷ ss) zero s h (first, o) =
    let e : t ≡ s = ground arith in
    (
      sym (ap (λ (x : Zstream). x.base.owner) e) ∙ first,
      o,
      omega (arith, ap (λ (x : Zstream). stream_blocks x) e),
      refl,
    )
total-remove_at (t ∷ ss) (suc i) s h (first, o) =
    let (own, rest, sum, count) = total-remove_at ss i s h o in
    (own, (first, rest), omega (arith, sum), omega (arith, count))

module _ {H : Type 0} (lib : Library H) where
  after_open : Zip H × Option Zstream → List Zstream → Zip H × List Zstream
  after_open (zip, none) ss = (zip, ss)
  after_open (zip, some s) ss = (zip, s ∷ ss)

  after_close : Option Zstream → ℕ → Zip H → List Zstream → Zip H × List Zstream
  after_close none i zip ss = (zip, ss)
  after_close (some s) i zip ss = ((zstream_close lib s zip).0, remove_at ss i)

  pub run : List Op → Zip H → List Zstream → Zip H × List Zstream
  run [] zip ss = (zip, ss)
  run (open_entry fresh path flags pwd ∷ ops) zip ss =
      let (zip', ss') = after_open (zstream_open lib fresh path flags pwd zip) ss in
      run ops zip' ss'
  run (close_entry i ∷ ops) zip ss =
      let (zip', ss') = after_close (get_elem? ss i) i zip ss in run ops zip' ss'

  open_stream-owner :
      (fresh : ℕ → ℕ) (path : List ℕ) (mode : ℕ) (pwd : Option (List ℕ))
      (r : Zip H × Option (Option ((ℕ → ℕ) × ℕ)))
      → owner (open_stream lib fresh path mode pwd r).1 ≡ true
  unfolding open_stream
  open_stream-owner fresh path mode pwd (zip, none) = refl
  open_stream-owner fresh path mode pwd (zip, some b) = ground (arith, open_base-owner fresh b mode)

  zstream_open-owner :
      (fresh : ℕ → ℕ) (path : List ℕ) (flags : ℕ) (pwd : Option (List ℕ)) (zip : Zip H)
      → owner (zstream_open lib fresh path flags pwd zip).1 ≡ true
  unfolding zstream_open
  zstream_open-owner fresh path flags pwd zip = grind (arith, open_stream-owner)

  -- The archive counts the open streams, and the allocated blocks are theirs.
  abbrev IsBalanced : Zip H → List Zstream → Type 0
  IsBalanced zip ss = Counts zip (length ss) (total ss) × Owned ss

  after_open-IsBalanced :
      (r : Zip H × Option Zstream) (ss : List Zstream)
      → Opens true r (length ss) (total ss)
      → owner r.1 ≡ true
      → Owned ss
      → IsBalanced (after_open r ss).0 (after_open r ss).1
  unfolding after_open total
  after_open-IsBalanced (zip, none) ss h o owned =
      ((omega (arith, h.0), omega (arith, h.1 refl), h.2), owned)
  after_open-IsBalanced (zip, some s) ss h o owned =
      ((omega (arith, h.0), omega (arith, h.1 refl), h.2), (o, owned))

  after_close-IsBalanced :
      (o : Option Zstream) (i : ℕ) (zip : Zip H) (ss : List Zstream)
      → get_elem? ss i ≡ o
      → IsBalanced zip ss
      → IsBalanced (after_close o i zip ss).0 (after_close o i zip ss).1
  unfolding after_close
  after_close-IsBalanced none i zip ss e h = h
  after_close-IsBalanced (some s) i zip ss e (h, owned) =
      let (own, rest, sum, count) = total-remove_at ss i s e owned in
      (
        zstream_close-Counts lib s zip (length (remove_at ss i)) (total (remove_at ss i)) own
            (h.0 ∙ count, h.1 ∙ sum, h.2),
        rest,
      )

  length-after_open :
      (r : Zip H × Option Zstream) (ss : List Zstream) → length (after_open r ss).1 < length ss + 2
  unfolding after_open
  length-after_open (zip, none) ss = omega arith
  length-after_open (zip, some s) ss = omega arith

  length-remove_at : (ss : List Zstream) (i : ℕ) → length (remove_at ss i) < length ss + 1
  unfolding remove_at
  length-remove_at [] i = omega arith
  length-remove_at (s ∷ ss) zero = omega arith
  length-remove_at (s ∷ ss) (suc i) = omega (arith, length-remove_at ss i)

  length-after_close :
      (o : Option Zstream) (i : ℕ) (zip : Zip H) (ss : List Zstream)
      → length (after_close o i zip ss).1 < length ss + 1
  unfolding after_close
  length-after_close none i zip ss = omega arith
  length-after_close (some s) i zip ss = length-remove_at ss i

  run-IsBalanced :
      (ops : List Op) (zip : Zip H) (ss : List Zstream)
      → Fit ops
      → length ops + length ss < 2 ^ 32
      → IsBalanced zip ss
      → IsBalanced (run ops zip ss).0 (run ops zip ss).1
  unfolding run Fit
  run-IsBalanced [] zip ss f h b = b
  run-IsBalanced (open_entry fresh path flags pwd ∷ ops) zip ss (fit, f) h b =
      let r = zstream_open lib fresh path flags pwd zip in
      let (opened, blocks, zipfs) = b.0 in
      let counts = zstream_open-Counts lib fresh path flags pwd zip zipfs (omega (arith, opened)) in
      let opens : Opens true r (length ss) (total ss) = (
        counts.0 ∙ ap (λ (n : ℕ). n + open_entries r.1) opened,
        λ e. counts.1 (ap not fit) ∙ ap (λ (n : ℕ). n + open_blocks r.1) blocks,
        counts.2,
      ) in
      run-IsBalanced ops (after_open r ss).0 (after_open r ss).1 f
        (omega (arith, length-after_open r ss))
        (after_open-IsBalanced r ss opens (zstream_open-owner fresh path flags pwd zip) b.1)
  run-IsBalanced (close_entry i ∷ ops) zip ss f h b =
      let c = after_close (get_elem? ss i) i zip ss in
      run-IsBalanced ops c.0 c.1 f (omega (arith, length-after_close (get_elem? ss i) i zip ss))
        (after_close-IsBalanced (get_elem? ss i) i zip ss refl b)

  init-Counts :
      (dir : ℕ) (filename : List ℕ) (flags : ℕ) (pwd : List ℕ) (h : H) (zip : Zip H)
      → init_zip_fs lib dir filename flags pwd h ≡ some zip
      → Counts zip 0 0
  unfolding init_zip_fs force_open_zip force_close_zip
  init-Counts dir filename flags pwd h zip e = (ground arith, ground arith, ground arith)

  -- After any opening and closing of entries of an archive that init_zip_fs gave, fewer than 2^32
  -- calls whose passwords fit, and whatever minizip, the system and the allocator answer, as far
  -- as the memset of tc_calloc and the assertion of fs_open_mstream, which stop the program at
  -- NULL, let it go on, the archive counts the streams that are open, and the blocks of tc_malloc
  -- and tc_calloc that are not freed are those of these streams.
  pub zip_counts_streams :
      (dir : ℕ) (filename : List ℕ) (flags : ℕ) (pwd : List ℕ) (h : H) (zip : Zip H) (ops : List Op)
      → init_zip_fs lib dir filename flags pwd h ≡ some zip
      → Fit ops
      → length ops < 2 ^ 32
      → ((run ops zip []).0.opened ≡ length (run ops zip []).1)
        × ((run ops zip []).0.blocks ≡ total (run ops zip []).1)
  unfolding total
  zip_counts_streams dir filename flags pwd h zip ops e f short =
      let start : IsBalanced zip [] = (init-Counts dir filename flags pwd h zip e, tt) in
      let finish = (run-IsBalanced ops zip [] f (omega arith) start).0 in (finish.0, finish.1)
