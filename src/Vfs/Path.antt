-- ===== src/Vfs/Path.antt =====
-- The path functions of src/vfs.c. A path is the list of its bytes, without the final 0; `sep` is
-- FS_SEP of include/private/vfs.h. fs_parent_path and fs_path_ext return none
-- where they leave `output` alone.
pub mod Split
pub mod Loop
pub mod Join
mod Tests
use tcengine.Base.{ℕ, zero, suc, ◌+◌, ◌-◌, ◌%◌, ◌^◌, Bool, true, false, ◌&&◌, ◌||◌, not}
use tcengine.Base.{Option, none, some, List, [], ◌∷◌, ◌++◌, ◌==◌, if◌then◌else◌, ltb, leb}
use tcengine.Base.{length, take, drop, get_or}
use mathlib.Core.List.{reverse}

abbrev pub slash : ℕ
slash = b'/'

abbrev pub dot : ℕ
dot = b'.'

-- FS_MAX_PATH.
abbrev pub fs_max_path : ℕ
fs_max_path = 512

-- The index of the last `c`, as `strrchr` finds it.
pub last_index : ℕ → List ℕ → Option ℕ
last_index c [] = none
last_index c (x ∷ xs) = elim (last_index c xs) [
  | some i ↦ some (suc i)
  | none ↦ if x == c then some 0 else none
]

module _ (sep : ℕ) where
  -- `fs_parent_path`
  pub parent_path : List ℕ → Option (List ℕ)
  parent_path path = elim (last_index sep path) [
    | some i ↦ some (take i path)
    | none ↦ elim (last_index slash path) [ some i ↦ some (take i path) | none ↦ none ]
  ]

  -- The end of `fs_path_ext`, behind the dot.
  extension : List ℕ → Option (List ℕ)
  extension [] = none
  extension (c ∷ cs) = if c == slash || c == sep then none else some (c ∷ cs)

  -- `fs_path_ext`
  pub path_ext : List ℕ → Option (List ℕ)
  path_ext path = elim (last_index dot path) [
    | some i ↦ extension (drop (i + 1) path)
    | none ↦ none
  ]

  -- The lengths that `fs_path_filename` computes: where the name starts, and how many bytes it
  -- copies. The buffers it hands to the other two are zeroed.
  abbrev or_empty : Option (List ℕ) → List ℕ
  or_empty none = []
  or_empty (some s) = s

  pub filename_start : List ℕ → ℕ
  filename_start path =
      let parent = length (or_empty (parent_path path)) in
      if ltb parent (length path) && (get_or path parent 0 == sep || get_or path parent 0 == slash)
      then parent + 1
      else parent

  pub filename_length : List ℕ → ℕ
  filename_length path =
      let ext = length (or_empty (path_ext path)) in
      let extension_length = if ext == 0 then 0 else ext + 1 in
      (length path + 2 ^ 64 - filename_start path + 2 ^ 64 - extension_length) % 2 ^ 64

  -- The text and its 0 fit a buffer of FS_MAX_PATH bytes.
  abbrev fits : Option (List ℕ) → Bool
  fits text = ltb (length (or_empty text)) fs_max_path

  -- `fs_path_filename`: `strncpy` of that many bytes, if the text has as many. It gives none where
  -- TC_ASSERT stops at an empty path, or where parentPath or extension overruns.
  pub path_filename : List ℕ → Option (List ℕ)
  path_filename path =
      if not (length path == 0) && (fits (parent_path path) && fits (path_ext path))
      then some (take (filename_length path) (drop (filename_start path) path))
      else none

  abbrev pub is_sep : ℕ → Bool
  is_sep c = c == sep || c == slash

  abbrev pub ends_in_sep : List ℕ → Bool
  ends_in_sep [] = false
  ends_in_sep (c ∷ _) = c == sep

  -- The output so far, its last byte first, and the bytes between `newlen` and the 0 that ends the
  -- buffer's text: `..` shortens the path without moving that 0.
  abbrev pub Output : Type 0
  Output = List ℕ × List ℕ

  -- `output[newlen] = c`, with the 0 behind it.
  abbrev pub add : ℕ → Output → Output
  add c (out, stale) = (c ∷ out, [])

  -- `strncat` appends at the 0, and the next 0 is put behind `newlen`.
  abbrev pub add_sep : Output → Output
  add_sep (out, []) = (sep ∷ out, [])
  add_sep (out, b ∷ stale) = (b ∷ out, [])

  -- The `for` loop that `..` runs.
  pub to_parent : List ℕ → List ℕ → Output
  to_parent [] stale = ([], stale)
  to_parent (c ∷ out) stale = if is_sep c then (c ∷ out, stale) else to_parent out (c ∷ stale)

  pub pop_component : Output → Output
  pop_component ([], stale) = ([], stale)
  pop_component (c ∷ [], stale) = to_parent (c ∷ []) stale
  pop_component (c ∷ d ∷ out, stale) =
      if c == sep then to_parent (d ∷ out) (c ∷ stale) else to_parent (c ∷ d ∷ out) stale

  -- The first test in the loop: a separator where the output has bytes and does not end in one.
  abbrev pub separates : ℕ → Output → Bool
  separates c (out, stale) = is_sep c && (not (ends_in_sep out) && leb 1 (length out))

  -- Behind `..`: a separator makes it go up, anything else makes the first dot a byte of the path.
  -- The bytes that the loop goes on with, and the output.
  pub two_dots : List ℕ → Output → List ℕ × Output
  two_dots [] o = (dot ∷ [], add dot o)
  two_dots (e ∷ es) o = if is_sep e then (es, pop_component o) else (dot ∷ e ∷ es, add dot o)

  -- Behind a dot: `./` is dropped.
  pub one_dot : List ℕ → Output → List ℕ × Output
  one_dot [] o = ([], add dot o)
  one_dot (d ∷ ds) o =
      if is_sep d then (ds, o) else if d == dot then two_dots ds o else (d ∷ ds, add dot o)

  -- One round of the loop of `fs_path_join`, at byte `c` of the component.
  pub turn : ℕ → List ℕ → Output → List ℕ × Output
  turn c cs o =
      if separates c o then (cs, add_sep o) else if c == dot then one_dot cs o else (cs, add c o)

  -- The loop on fuel; each round takes a byte at least, so the component's length is enough. A round
  -- starts with TC_ASSERT on the length of the output; none is where it stops.
  pub join_loop : (fuel : ℕ) → List ℕ → Output → Option Output
  join_loop fuel [] o = some o
  join_loop zero (c ∷ cs) o = none
  join_loop (suc fuel) (c ∷ cs) o =
      let (s, o') = turn c cs o in
      let rest = join_loop fuel s o' in if ltb (length o.0) fs_max_path then rest else none

  -- The 0 at the end, and the separator before it that is dropped; none is the read of
  -- `output[-1]`.
  pub finish : Output → Option (List ℕ)
  finish ([], stale) = none
  finish (l ∷ out, stale) = some (if l == sep then reverse out else reverse (l ∷ out))

  -- `base` as the loop finds it in the output, with a separator behind it.
  pub join_start : List ℕ → Output
  join_start base =
      let first = reverse base in
      (if ends_in_sep first || length base == 0 then first else sep ∷ first, [])

  -- `fs_path_join`
  pub path_join : (base component : List ℕ) → Option (List ℕ)
  path_join base [] = some base
  path_join base (c ∷ cs) = elim (join_loop (suc (length cs)) (c ∷ cs) (join_start base)) [
    | none ↦ none
    | some o ↦ finish o
  ]
