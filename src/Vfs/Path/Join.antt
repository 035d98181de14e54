-- ===== src/Vfs/Path/Join.antt =====
-- `fs_path_join`: plain components, `./`, `../`, and a separator at the start.
use mathlib.Core.List.{reverse, reverse_aux}
use tcengine.Base.{has-append, ℕ, suc, ◌<◌, ◌≡◌, ◌≢◌, refl, ◌∙◌, ap, arith}
use tcengine.Base.{true, some, List, [], ◌∷◌, ◌++◌}
use tcengine.Base.{length, length-append, ◌+◌, ◌≤◌}
use tcengine.Vfs.Path.{
  slash, dot, parent_path, path_ext, path_filename, path_join, join_loop, turn, one_dot, two_dots,
  pop_component, is_sep, fs_max_path,
}
use tcengine.Vfs.Path.Split.{IsName, parts_of_path}
use tcengine.Vfs.Path.Loop.{
  length-reverse, IsPlain, IsBase, loop_turn, join_loop-plain, start-eq, open_end-reverse_aux,
  reverse_aux-ne-nil, finish-open, reverse-joined, finish-plain, join_of_loop, join_loop_rest,
  nil-append, IsBase-append, pop_last,
}

module _ (sep : ℕ) where
  IsPlain-name :
      sep ≢ dot
      → (name ext : List ℕ) → IsName sep name
      → IsName sep ext
      → IsPlain sep (name ++ (dot ∷ ext))
  IsPlain-name ne name ext n e = (
    ground (arith, has-append sep name (dot ∷ ext), n.no_sep, e.no_sep),
    ground (arith, has-append slash name (dot ∷ ext), n.no_slash, e.no_slash),
  )

  length-joined : (base s : List ℕ) → length (base ++ (sep ∷ s)) ≡ length base + length s + 1
  length-joined base s = omega (arith, length-append base (sep ∷ s))

  room :
      (base s : List ℕ)
      → length (base ++ (sep ∷ s)) < fs_max_path
      → length s + length (sep ∷ reverse base) ≤ fs_max_path
  room base s fits = omega (arith, length-joined base s, length-reverse sep base)

  -- Joining a base with a component without separators puts one separator between them, where the
  -- result has fewer than 512 bytes.
  pub path_join-plain :
      (base s : List ℕ)
      → IsBase sep base
      → s ≢ []
      → IsPlain sep s
      → length (base ++ (sep ∷ s)) < fs_max_path
      → path_join sep base s ≡ some (base ++ (sep ∷ s))
  path_join-plain base [] b ne h fits = absurd (ne refl)
  path_join-plain base (c ∷ cs) b ne h fits =
      join_of_loop sep base c cs (
        ap (join_loop sep (suc (length cs)) (c ∷ cs)) (start-eq sep b)
        ∙ join_loop-plain sep (suc (length cs)) (c ∷ cs) (sep ∷ reverse base) (omega arith)
            (room base (c ∷ cs) fits) h)
      ∙ finish-plain sep (c ∷ cs) base ne h

  -- A base, a name and an extension that fs_path_join joins are found again by fs_parent_path,
  -- fs_path_filename and fs_path_ext: for a base that has bytes and does not end in a separator,
  -- a name and an extension that have bytes and no separators and dots, and a path below 512
  -- bytes.
  pub parts-path_join :
      (base name ext : List ℕ)
      → sep ≢ dot
      → IsBase sep base
      → IsName sep name
      → IsName sep ext
      → length (base ++ (sep ∷ (name ++ (dot ∷ ext)))) < fs_max_path
      → (path : List ℕ) × (path_join sep base (name ++ (dot ∷ ext)) ≡ some path)
        × (parent_path sep path ≡ some base)
        × (path_filename sep path ≡ some name)
        × (path_ext sep path ≡ some ext)
  parts-path_join base name ext ne b n e h =
      let (parent, filename, extension) = parts_of_path sep ne base name ext n e h in
      (
        base ++ (sep ∷ (name ++ (dot ∷ ext))),
        path_join-plain base (name ++ (dot ∷ ext)) b (nil-append sep name dot ext)
            (IsPlain-name ne name ext n e) h,
        parent,
        filename,
        extension,
      )

  module _ (sep_dot : sep ≢ dot) (e : ℕ) (e_sep : is_sep sep e ≡ true) where
    here_turn : (s out : List ℕ) → turn sep dot (e ∷ s) (sep ∷ out, []) ≡ (s, (sep ∷ out, []))
    unfolding turn one_dot
    here_turn s out = ground arith

    up_turn :
        (s out : List ℕ)
        → turn sep dot (dot ∷ e ∷ s) (sep ∷ out, []) ≡ (s, pop_component sep (sep ∷ out, []))
    unfolding turn one_dot two_dots
    up_turn s out = ground arith

    sep_turn : (s out : List ℕ) → turn sep e s (sep ∷ out, []) ≡ (s, (e ∷ sep ∷ out, []))
    unfolding turn one_dot two_dots
    sep_turn s out = ground arith

    module _ (base s : List ℕ) (b : IsBase sep base) (ne : s ≢ []) (plain : IsPlain sep s) where
      -- A ./ at the start of a component is dropped when it is joined to a base that has bytes
      -- and does not end in a separator, where the rest of the component has bytes and no
      -- separators and the result fewer than 512 bytes.
      pub path_join_here :
          length (base ++ (sep ∷ s)) < fs_max_path
          → path_join sep base (dot ∷ e ∷ s) ≡ some (base ++ (sep ∷ s))
      path_join_here fits =
          join_of_loop sep base dot (e ∷ s) (
            ap (join_loop sep (suc (length (e ∷ s))) (dot ∷ e ∷ s)) (start-eq sep b)
            ∙ loop_turn sep (length (e ∷ s)) dot (e ∷ s) (sep ∷ reverse base, [])
                (omega (arith, fits, length-joined base s, length-reverse sep base))
                (here_turn s (reverse base))
            ∙ join_loop_rest sep (length (e ∷ s)) s (sep ∷ reverse base) [] (omega arith)
                (room base s fits) ne plain)
          ∙ finish-plain sep s base ne plain

      -- A separator at the start of a component is kept beside the one that fs_path_join puts
      -- behind the base, for a base that has bytes and does not end in a separator and a rest of
      -- the component that has bytes and no separators, in fewer than 512 bytes, so that the result has two in a row.
      pub path_join_double :
          length (base ++ (sep ∷ e ∷ s)) < fs_max_path
          → path_join sep base (e ∷ s) ≡ some (base ++ (sep ∷ e ∷ s))
      path_join_double fits =
          join_of_loop sep base e s (
            ap (join_loop sep (suc (length s)) (e ∷ s)) (start-eq sep b)
            ∙ loop_turn sep (length s) e s (sep ∷ reverse base, [])
                (omega (arith, fits, length-joined base (e ∷ s), length-reverse sep base))
                (sep_turn s (reverse base))
            ∙ join_loop_rest sep (length s) s (e ∷ sep ∷ reverse base) [] (omega arith)
                (omega (arith, fits, length-joined base (e ∷ s), length-reverse sep base)) ne plain)
          ∙ finish-open sep (reverse_aux s (e ∷ sep ∷ reverse base)) (reverse_aux-ne-nil sep s _ cc)
              (open_end-reverse_aux sep s _ ne plain)
          ∙ ap some (reverse-joined sep (e ∷ s) base)

    -- A component that starts with ../ takes the last part of the base away: the result is the
    -- directory of the base, one separator and the rest of the component, where the last part and
    -- the rest have bytes and no separators, and the base with a separator behind it and the
    -- result have fewer than 512 bytes each.
    pub path_join_up :
        (dir last s : List ℕ)
        → last ≢ []
        → IsPlain sep last
        → s ≢ []
        → IsPlain sep s
        → length (dir ++ (sep ∷ last)) + 1 < fs_max_path
        → length (dir ++ (sep ∷ s)) < fs_max_path
        → path_join sep (dir ++ (sep ∷ last)) (dot ∷ dot ∷ e ∷ s) ≡ some (dir ++ (sep ∷ s))
    path_join_up dir last s some_last plain_last ne plain base_fits fits =
        join_of_loop sep (dir ++ (sep ∷ last)) dot (dot ∷ e ∷ s) (
          ap (join_loop sep (suc (length (dot ∷ e ∷ s))) (dot ∷ dot ∷ e ∷ s))
            (start-eq sep (IsBase-append sep dir last some_last plain_last))
          ∙ loop_turn sep (length (dot ∷ e ∷ s)) dot (dot ∷ e ∷ s)
              (sep ∷ reverse (dir ++ (sep ∷ last)), [])
              (omega (arith, base_fits, length-reverse sep (dir ++ (sep ∷ last))))
              (up_turn s (reverse (dir ++ (sep ∷ last))))
          ∙ ap (join_loop sep (length (dot ∷ e ∷ s)) s) (pop_last sep dir last some_last plain_last)
          ∙ join_loop_rest sep (length (dot ∷ e ∷ s)) s (sep ∷ reverse dir) _ (omega arith)
              (room dir s fits) ne plain)
        ∙ finish-plain sep s dir ne plain
