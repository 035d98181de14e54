-- ===== src/Vfs/Path/Split.antt =====
-- `fs_parent_path`, `fs_path_ext` and `fs_path_filename` take a path apart.
use tcengine.Base.{has, has-append, ℕ, suc, ◌+◌, ◌^◌, ◌<◌, ◌≡◌, ◌≢◌, refl, sym, ◌∙◌, ap, arith}
use tcengine.Base.{false, none, some, List, [], ◌∷◌, ◌++◌}
use tcengine.Base.{length, take, drop, length-append, ==_self}
use tcengine.Base.{get_or}
use mathlib.Core.List.{append_assoc}
use tcengine.Vfs.Path.{
  slash, dot, last_index, parent_path, extension, path_ext, filename_start, filename_length,
  path_filename, fs_max_path,
}

last_index-none : (c : ℕ) (xs : List ℕ) → has c xs ≡ false → last_index c xs ≡ none
unfolding last_index
last_index-none c [] h = refl
last_index-none c (x ∷ xs) h = ground (arith, last_index-none c xs)

-- The last `c` of a text that ends in `c` and bytes other than `c`.
last_index-append :
    (c : ℕ) (xs ys : List ℕ) → has c ys ≡ false → last_index c (xs ++ (c ∷ ys)) ≡ some (length xs)
unfolding last_index
last_index-append c [] ys h = rw (last_index-none c ys h, ==_self c)
last_index-append c (x ∷ xs) ys h = rw (last_index-append c xs ys h)

take-length_append : (xs ys : List ℕ) → take (length xs) (xs ++ ys) ≡ xs
take-length_append [] ys = refl
take-length_append (x ∷ xs) ys = ap (λ t. x ∷ t) (take-length_append xs ys)

drop-length_append : (xs ys : List ℕ) → drop (length xs) (xs ++ ys) ≡ ys
drop-length_append [] ys = refl
drop-length_append (x ∷ xs) ys = drop-length_append xs ys

drop_behind : (xs : List ℕ) (c : ℕ) (ys : List ℕ) → drop (suc (length xs)) (xs ++ (c ∷ ys)) ≡ ys
drop_behind [] c ys = refl
drop_behind (x ∷ xs) c ys = drop_behind xs c ys

drop-suc_append : (xs : List ℕ) (c : ℕ) (ys : List ℕ) → drop (length xs + 1) (xs ++ (c ∷ ys)) ≡ ys
drop-suc_append xs c ys =
    let e : length xs + 1 ≡ suc (length xs) = omega arith in rw e (drop_behind xs c ys)

length_pos : (xs : List ℕ) → xs ≢ [] → 0 < length xs
length_pos [] h = absurd (h refl)
length_pos (x ∷ xs) h = omega arith

get_or-append_length :
    (xs : List ℕ) (c : ℕ) (ys : List ℕ) → get_or (xs ++ (c ∷ ys)) (length xs) 0 ≡ c
get_or-append_length [] c ys = refl
get_or-append_length (x ∷ xs) c ys = get_or-append_length xs c ys

-- A name without separators and dots, and an extension likewise.
pub record IsName (sep : ℕ) (s : List ℕ) : Type 0 where
  pub some_bytes : s ≢ []
  pub no_sep : has sep s ≡ false
  pub no_slash : has slash s ≡ false
  pub no_dot : has dot s ≡ false

extension-name : (sep : ℕ) (s : List ℕ) → IsName sep s → extension sep s ≡ some s
unfolding extension
extension-name sep [] h = absurd (h.some_bytes refl)
extension-name sep (c ∷ cs) h = ground (arith, h.no_sep, h.no_slash)

parent_path-append :
    (sep : ℕ) (dir name : List ℕ)
    → has sep name ≡ false
    → parent_path sep (dir ++ (sep ∷ name)) ≡ some dir
unfolding parent_path
parent_path-append sep dir name h =
    rw (last_index-append sep dir name h, parent_path) (ap some (take-length_append dir _))

path_ext-append :
    (sep : ℕ) (before ext : List ℕ)
    → has dot ext ≡ false
    → path_ext sep (before ++ (dot ∷ ext)) ≡ extension sep ext
unfolding path_ext
path_ext-append sep before ext h =
    rw (last_index-append dot before ext h, path_ext)
      (ap (extension sep) (drop-suc_append before dot ext))

module _ (sep : ℕ) (ne_dot : sep ≢ dot) (dir name ext : List ℕ) (name_ok : IsName sep name)
    (ext_ok : IsName sep ext) where
  abbrev path : List ℕ
  path = dir ++ (sep ∷ (name ++ (dot ∷ ext)))

  tail_no_sep : has sep (name ++ (dot ∷ ext)) ≡ false
  tail_no_sep = ground (arith, has-append sep name (dot ∷ ext), name_ok.no_sep, ext_ok.no_sep)

  parent-path : parent_path sep path ≡ some dir
  parent-path = parent_path-append sep dir (name ++ (dot ∷ ext)) tail_no_sep

  before_dot : List ℕ
  before_dot = dir ++ (sep ∷ name)

  path_as_dot : path ≡ before_dot ++ (dot ∷ ext)
  unfolding before_dot
  path_as_dot = sym (append_assoc dir (sep ∷ name) (dot ∷ ext))

  ext-path : path_ext sep path ≡ some ext
  ext-path =
      ap (path_ext sep) path_as_dot
      ∙ path_ext-append sep before_dot ext ext_ok.no_dot
      ∙ extension-name sep ext ext_ok

  length-path : length path ≡ length dir + length name + length ext + 2
  length-path =
      omega (arith, length-append dir (sep ∷ (name ++ (dot ∷ ext))), length-append name (dot ∷ ext))

  start-path : filename_start sep path ≡ length dir + 1
  unfolding filename_start
  start-path =
      rw (parent-path, filename_start)
        (ground (arith, length-path, get_or-append_length dir sep (name ++ (dot ∷ ext))))

  length-filename : length path < 2 ^ 63 → filename_length sep path ≡ length name
  unfolding filename_length
  length-filename h =
      rw (ext-path, start-path, filename_length)
        (ground (arith, length-path, length_pos ext ext_ok.some_bytes))

  filename_taken :
      length path < fs_max_path
      → take (filename_length sep path) (drop (filename_start sep path) path) ≡ name
  filename_taken h =
      rw (length-filename (omega (arith, h)), start-path)
        (rw (drop-suc_append dir sep (name ++ (dot ∷ ext))) (take-length_append name (dot ∷ ext)))

  filename-path : length path < fs_max_path → path_filename sep path ≡ some name
  unfolding path_filename
  filename-path h = rw (filename_taken h, parent-path, ext-path) (ground (arith, h, length-path))

  -- A path that is put together from a directory, a name and an extension, the latter two without
  -- separators and dots, of fewer than 512 bytes, is taken apart into these by `fs_parent_path`, `fs_path_filename` and
  -- `fs_path_ext`.
  pub parts_of_path :
      length path < fs_max_path
      → (parent_path sep path ≡ some dir)
        × (path_filename sep path ≡ some name)
        × (path_ext sep path ≡ some ext)
  parts_of_path h = (parent-path, filename-path h, ext-path)

module _ (sep : ℕ) (dir name : List ℕ) (c : ℕ) (rest : List ℕ) where
  -- A dot in the last directory, the start `c` of what follows it, and a name behind a separator.
  abbrev pub dotted : List ℕ
  dotted = dir ++ (dot ∷ c ∷ (rest ++ (sep ∷ name)))

  parent_part : List ℕ
  parent_part = dir ++ (dot ∷ c ∷ rest)

  length-parent_part : length parent_part ≡ length dir + length rest + 2
  unfolding parent_part
  length-parent_part = omega (arith, length-append dir (dot ∷ c ∷ rest))

  dotted_as_parent : dotted ≡ parent_part ++ (sep ∷ name)
  unfolding parent_part
  dotted_as_parent = sym (append_assoc dir (dot ∷ c ∷ rest) (sep ∷ name))

  length-dotted : length dotted ≡ length dir + length rest + length name + 3
  length-dotted =
      omega (
        arith,
        length-append dir (dot ∷ c ∷ (rest ++ (sep ∷ name))),
        length-append rest (sep ∷ name),
      )

  module _ (ne : sep ≢ dot) (no_sep : has sep name ≡ false) (c_slash : c ≢ slash) (c_sep : c ≢ sep)
      (c_dot : c ≢ dot) (rest_dot : has dot rest ≡ false) (name_dot : has dot name ≡ false) where
    dotted_ext : path_ext sep dotted ≡ some (c ∷ (rest ++ (sep ∷ name)))
    unfolding extension
    dotted_ext =
        path_ext-append sep dir (c ∷ (rest ++ (sep ∷ name)))
          (ground (arith, has-append dot rest (sep ∷ name)))
        ∙ ground arith

    dotted_parent : parent_path sep dotted ≡ some parent_part
    dotted_parent =
        ap (parent_path sep) dotted_as_parent ∙ parent_path-append sep parent_part name no_sep

    dotted_start : filename_start sep dotted ≡ length dir + length rest + 3
    unfolding filename_start
    dotted_start =
        rw (dotted_parent, filename_start)
          (ground (
            arith,
            length-dotted,
            length-parent_part,
            ap (λ t. get_or t (length parent_part) 0) dotted_as_parent,
            get_or-append_length parent_part sep name,
          ))

    -- Where the last dot of a path stands in a directory, and no separator right behind it, the
    -- length that fs_path_filename computes for the name is above 2^63, for a name without
    -- separators and a path below 2^63 bytes.
    pub filename_length_wraps : length dotted < 2 ^ 63 → 2 ^ 63 < filename_length sep dotted
    unfolding filename_length
    filename_length_wraps h =
        rw (dotted_ext, dotted_start, filename_length)
          (ground (arith, length-dotted, length-append rest (sep ∷ name)))
