-- ===== src/Vfs/Zip/Entry/Tests.antt =====
-- Zip files over a minizip that gives one answer everywhere.
use tcengine.Base.{ℕ, suc, ◌≡◌, refl, arith, true, false, none, some, List, [], ◌∷◌, length}
use tcengine.Vfs.Zip.{
  Library, Zip, init_zip_fs, force_open_zip, force_close_zip, fs_open_zip, count_entry,
}
use tcengine.Vfs.Zip.Entry.{
  Zstream, zstream_open, too_long, entry_mode, open_base, allocate, read_entry, open_stream,
  grow_buffer, is_some, kept_password,
}
use tcengine.Vfs.Zip.Entry.Runs.{Op, open_entry, close_entry, Fit, run, total, zip_counts_streams}
use tcengine.Vfs.Zip.Entry.Answers.{OpensArchives, opened_archive_refused, zstream_open-content}

-- The state counts the calls of the allocator.
abbrev answering : ℕ → Library ℕ
answering a = record {
  open_fstream = λ dir filename mode pwd h. (h, true);
  close_fstream = λ h. (h, true);
  mz_zip_open = λ mode h. (h, a);
  mz_zip_close = λ h. (h, a);
  stream_flags = λ h. 11;
  mz_zip_locate_entry = λ path h. (h, a);
  mz_zip_entry_read_open = λ pwd h. (h, a);
  mz_zip_entry_get_local_info = λ h. (h, a, 3);
  mz_zip_entry_read = λ len h. (h, len, λ i. i);
  mz_zip_entry_close = λ h. (h, a);
  mz_zip_entry_get_info = λ h. (h, a);
  mz_zip_entry_write_open = λ written path size pwd h. (h, a);
  mz_zip_entry_write = λ buffer len h. (h, len);
  allocate = λ size h. (suc h, true);
}

abbrev archive : Zip ℕ
archive = record {
  handle = 0;
  opened = 0;
  dir = 2;
  flags = 8;
  filename = 97 ∷ [];
  pwd = [];
  is_zipfs = true;
  blocks = 0;
  leaked = 0;
}

archive_run : init_zip_fs (answering 1) 2 (97 ∷ []) 8 [] 0 ≡ some archive
unfolding init_zip_fs force_open_zip force_close_zip
archive_run = refl

abbrev ops : List Op
ops =
    open_entry (λ i. 0) (98 ∷ []) 0 none
    ∷ open_entry (λ i. 0) (99 ∷ []) 8 (some (112 ∷ []))
    ∷ close_entry 1
    ∷ open_entry (λ i. 0) (98 ∷ []) 1 none
    ∷ []

ops-Fit : Fit ops
unfolding Fit too_long entry_mode
ops-Fit = (refl, (refl, (refl, tt)))

zip_counts_streams_example :
    ((run (answering 1) ops archive []).0.opened ≡ length (run (answering 1) ops archive []).1)
    × ((run (answering 1) ops archive []).0.blocks ≡ total (run (answering 1) ops archive []).1)
zip_counts_streams_example =
    zip_counts_streams (answering 1) 2 (97 ∷ []) 8 [] 0 archive ops archive_run ops-Fit
      (omega arith)

answering-OpensArchives : OpensArchives (answering 0)
unfolding OpensArchives
answering-OpensArchives mode h = refl

opened_archive_refused_example :
    (init_zip_fs (answering 0) 2 (97 ∷ []) 8 [] 0 ≡ none)
    × ((zstream_open (answering 0) (λ i. 0) (98 ∷ []) 0 none archive).1 ≡ none)
opened_archive_refused_example =
    opened_archive_refused (answering 0) 2 (97 ∷ []) 8 [] 0 (λ i. 0) (98 ∷ []) 0 none archive
      answering-OpensArchives refl

abbrev image : Zstream
image = record {
  flags = 0;
  base = open_base (λ i. 0) none 0;
  base_buffered = false;
  path = 98 ∷ [];
  password = [];
}

image_run : (zstream_open (answering 1) (λ i. 0) (98 ∷ []) 0 none archive).1 ≡ some image
unfolding zstream_open fs_open_zip count_entry force_open_zip entry_mode allocate read_entry
    open_stream grow_buffer is_some too_long kept_password
image_run = refl

zstream_open-content_example : image.base.size ≡ 0
zstream_open-content_example =
    zstream_open-content (answering 1) (λ i. 0) (98 ∷ []) 0 none archive image refl image_run
