-- ===== src/Vfs/Mstream/Writes.antt =====
-- What writes and reads do to a memory stream.
use tcengine.Base.{ℕ, ◌+◌, ◌-◌, ◌^◌, ◌≤◌, ◌<◌, ◌≡◌, refl, sym, ◌∙◌, ap, arith, max}
use tcengine.Base.{bit_and, bit_and-zero, Bool, true, ◌&&◌, ltb, leb, length, get_or}
use tcengine.Base.{Option, none, some, List, ◌==◌, if-true, if-false, Bool-cases, inl, inr}
use mathlib.Core.Path.{subst}
use tcengine.Vfs.Mstream.{
  Stream, writable, grown, copy, realloc, mstream_read, mstream_write, store, store_in, grow,
  file_read, u64, mstream_write, fs_open_mstream,
}

-- mstream_read copies nothing from any memory stream, whatever its flags and bytes.
pub mstream_read-nothing : (s : Stream) (len : ℕ) → mstream_read s len ≡ (s, 0)
unfolding mstream_read
mstream_read-nothing s len =
    let no_flag : (bit_and s.flags file_read == 0) ≡ true = rw (bit_and-zero s.flags) refl in
    if-true _ _ no_flag

grown-le : (n : ℕ) → n < 2 ^ 63 → n ≤ grown n
unfolding grown
grown-le n h = ground arith

-- What is so after `bytes` were written at the cursor of `s`: the stream's bytes before the cursor
-- and behind the new ones are what they were, and the buffer holds all of them.
pub record IsWritten (s : Stream) (bytes : List ℕ) (t : Stream) : Type 0 where
  pub at_cursor : (i : ℕ) → i < length bytes → t.buffer (s.cursor + i) ≡ get_or bytes i 0
  pub before : (i : ℕ) → i < s.cursor → t.buffer i ≡ s.buffer i
  pub after : (i : ℕ) → s.cursor + length bytes ≤ i → i < s.size → t.buffer i ≡ s.buffer i
  pub cursor_moves : t.cursor ≡ s.cursor + length bytes
  pub size_grows : t.size ≡ max s.size t.cursor
  pub in_buffer : t.size ≤ t.capacity

-- The buffer holds the stream's bytes, and the cursor stands among them or behind.
pub record IsOpen (s : Stream) : Type 0 where
  pub size_le : s.size ≤ s.capacity
  pub cursor_le : s.cursor ≤ s.size

store-length : (s : Stream) (bytes : List ℕ) → (store s bytes).1 ≡ length bytes
unfolding store
store-length s bytes = refl

in_room :
    (s : Stream) (bytes : List ℕ)
    → IsOpen s
    → s.cursor + length bytes < 2 ^ 63
    → length bytes ≤ s.capacity - s.cursor
    → IsWritten s bytes (store s bytes).0
unfolding store copy
in_room s bytes o small room = record {
  at_cursor = λ i h.
      let e : s.cursor + i - s.cursor ≡ i = omega arith in
      let inside : (leb s.cursor (s.cursor + i) && ltb (s.cursor + i) (s.cursor + length bytes))
          ≡ true =
        ground arith in
      if-true _ _ inside ∙ ap (λ t. get_or bytes t 0) e;
  before = λ i h. ground arith;
  after = λ i h k. ground arith;
  cursor_moves = omega arith;
  size_grows = refl;
  in_buffer = ground (arith, o.size_le, o.cursor_le);
}

with_growth :
    (fresh : ℕ → ℕ) (s : Stream) (bytes : List ℕ)
    → IsOpen s
    → s.cursor + length bytes < 2 ^ 63
    → s.capacity - s.cursor < length bytes
    → IsWritten s bytes
        (store
          (record s {
            buffer = realloc s.buffer fresh s.capacity;
            capacity = grown (u64 (s.cursor + length bytes));
          })
          bytes).0
unfolding store copy realloc
with_growth fresh s bytes o small short = record {
  at_cursor = λ i h.
      let e : s.cursor + i - s.cursor ≡ i = omega arith in
      let inside : (leb s.cursor (s.cursor + i) && ltb (s.cursor + i) (s.cursor + length bytes))
          ≡ true =
        ground arith in
      if-true _ _ inside ∙ ap (λ t. get_or bytes t 0) e;
  before = λ i h. ground (arith, o.size_le, o.cursor_le);
  after = λ i h k. ground (arith, o.size_le);
  cursor_moves = omega arith;
  size_grows = refl;
  in_buffer =
      let e : u64 (s.cursor + length bytes) ≡ s.cursor + length bytes = omega arith in
      ground
        (arith, o.size_le, o.cursor_le, grown-le (u64 (s.cursor + length bytes)) (omega arith));
}

-- A write to an open stream with FILE_WRITE or FILE_APPEND, where there is memory and the stream
-- stays below 2^63 bytes, writes all of its bytes at the cursor and nothing else, and leaves the
-- cursor behind them and the buffer large enough.
pub mstream_write-IsWritten :
    (fresh : ℕ → ℕ) (s : Stream) (bytes : List ℕ)
    → IsOpen s
    → writable s.flags ≡ true
    → s.cursor + length bytes < 2 ^ 63
    → IsWritten s bytes (mstream_write (some fresh) s bytes).0
      × ((mstream_write (some fresh) s bytes).1 ≡ length bytes)
unfolding mstream_write grow store_in
mstream_write-IsWritten fresh s bytes o flag small =
    elim (Bool-cases (ltb (s.capacity - s.cursor) (length bytes))) [
      | inl short ↦
          subst (λ (t : Stream × ℕ). IsWritten s bytes t.0 × (t.1 ≡ length bytes))
            (sym (if-true _ _ flag ∙ if-true _ _ short))
            (with_growth fresh s bytes o small (ground arith), store-length _ bytes)
      | inr room ↦
          subst (λ (t : Stream × ℕ). IsWritten s bytes t.0 × (t.1 ≡ length bytes))
            (sym (if-true _ _ flag ∙ if-false _ _ room))
            (in_room s bytes o small (ground arith), store-length s bytes)
    ]

IsWritten-IsOpen : {s t : Stream} {bytes : List ℕ} → IsWritten s bytes t → IsOpen t
IsWritten-IsOpen w = record { size_le = w.in_buffer; cursor_le = omega (arith, w.size_grows) }

grown-IsOpen :
    (memory : Option (ℕ → ℕ)) (s : Stream) (bytes : List ℕ)
    → IsOpen s
    → s.cursor + length bytes < 2 ^ 63
    → s.capacity - s.cursor < length bytes
    → IsOpen (store_in s (grow memory s (length bytes)) bytes).0
unfolding grow store_in
grown-IsOpen none s bytes o small short = o
grown-IsOpen (some fresh) s bytes o small short =
    IsWritten-IsOpen (with_growth fresh s bytes o small short)

-- Every write keeps the stream open (the size within the buffer, the cursor within the size),
-- with memory or without and whatever the flags, where the stream stays below 2^63 bytes.
pub mstream_write-IsOpen :
    (memory : Option (ℕ → ℕ)) (s : Stream) (bytes : List ℕ)
    → IsOpen s
    → s.cursor + length bytes < 2 ^ 63
    → IsOpen (mstream_write memory s bytes).0
unfolding mstream_write
mstream_write-IsOpen memory s bytes o small = elim (Bool-cases (writable s.flags)) [
  | inr flag ↦ subst (λ (t : Stream × ℕ). IsOpen t.0) (sym (if-false _ _ flag)) o
  | inl flag ↦ elim (Bool-cases (ltb (s.capacity - s.cursor) (length bytes))) [
    | inr room ↦
        subst (λ (t : Stream × ℕ). IsOpen t.0) (sym (if-true _ _ flag ∙ if-false _ _ room))
          (IsWritten-IsOpen (in_room s bytes o small (ground arith)))
    | inl short ↦
        subst (λ (t : Stream × ℕ). IsOpen t.0) (sym (if-true _ _ flag ∙ if-true _ _ short))
          (grown-IsOpen memory s bytes o small (ground arith))
  ]
]

-- fs_open_mstream gives an open stream with every buffer, flags and owner, for sizes below 2^63.
pub fs_open_mstream-IsOpen :
    (fresh : ℕ → ℕ) (buffer : Option (ℕ → ℕ)) (bufsize flags : ℕ) (owner : Bool)
    → bufsize < 2 ^ 63
    → IsOpen (fs_open_mstream fresh buffer bufsize flags owner)
unfolding fs_open_mstream
fs_open_mstream-IsOpen fresh none bufsize flags owner small = record {
  size_le = ground arith;
  cursor_le = omega arith;
}
fs_open_mstream-IsOpen fresh (some buffer) bufsize flags owner small = record {
  size_le = ground (arith, grown-le bufsize small);
  cursor_le = ground arith;
}
