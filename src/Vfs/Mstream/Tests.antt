-- ===== src/Vfs/Mstream/Tests.antt =====
-- Memory streams at work.
use tcengine.Base.{ℕ, ◌≡◌, refl, arith, List, [], ◌∷◌, length, some, none, true}
use tcengine.Vfs.Mstream.{Stream, mstream_write}
use tcengine.Vfs.Mstream.Writes.{IsOpen, IsWritten, mstream_write-IsWritten, mstream_write-IsOpen}

abbrev page : ℕ → ℕ
page = λ _. 0

-- Three bytes of a buffer of 4096 are in use.
abbrev log : Stream
log = record { buffer = page; cursor = 3; capacity = 4096; owner = true; size = 3; flags = 8 }

log-IsOpen : IsOpen log
log-IsOpen = record { size_le = omega arith; cursor_le = omega arith }

abbrev line : List ℕ
line = b'o' ∷ b'k' ∷ []

mstream_write-IsWritten_example :
    IsWritten log line (mstream_write (some page) log line).0
    × ((mstream_write (some page) log line).1 ≡ length line)
mstream_write-IsWritten_example =
    mstream_write-IsWritten page log line log-IsOpen refl (omega arith)

mstream_write-IsOpen_example : IsOpen (mstream_write none log line).0
mstream_write-IsOpen_example = mstream_write-IsOpen none log line log-IsOpen (omega arith)
