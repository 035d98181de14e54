-- ===== src/Vfs/Path/Tests.antt =====
-- Paths of a system whose separator is `\\`, taken apart and joined.
use tcengine.Base.{ℕ, ◌≡◌, ◌≢◌, refl, arith, List, [], ◌∷◌, ◌++◌, some}
use tcengine.Vfs.Path.{
  slash, dot, parent_path, path_ext, path_filename, path_join, join_loop, join_start, turn, one_dot,
  two_dots, finish, pop_component, to_parent,
}
use tcengine.Vfs.Path.Split.{IsName, parts_of_path}
use tcengine.Vfs.Path.Loop.{IsBase}
use tcengine.Vfs.Path.Join.{path_join-plain, path_join_up, parts-path_join}

abbrev back : ℕ
back = 92

abbrev res : List ℕ
res = b'r' ∷ b'e' ∷ b's' ∷ []

abbrev hero : List ℕ
hero = b'h' ∷ b'e' ∷ b'r' ∷ b'o' ∷ []

abbrev png : List ℕ
png = b'p' ∷ b'n' ∷ b'g' ∷ []

hero-IsName : IsName back hero
hero-IsName = record { some_bytes = cc; no_sep = refl; no_slash = refl; no_dot = refl }

png-IsName : IsName back png
png-IsName = record { some_bytes = cc; no_sep = refl; no_slash = refl; no_dot = refl }

parts_of_path_example :
    (parent_path back (res ++ (back ∷ (hero ++ (dot ∷ png)))) ≡ some res)
    × (path_filename back (res ++ (back ∷ (hero ++ (dot ∷ png)))) ≡ some hero)
    × (path_ext back (res ++ (back ∷ (hero ++ (dot ∷ png)))) ≡ some png)
parts_of_path_example =
    parts_of_path back (omega arith) res hero png hero-IsName png-IsName (omega arith)

hero_some : hero ≢ []
hero_some = cc

png_some : png ≢ []
png_some = cc

res-IsBase : IsBase back res
res-IsBase = record { some_bytes = cc; open_end = refl }

path_join-plain_example : path_join back res hero ≡ some (res ++ (back ∷ hero))
path_join-plain_example =
    path_join-plain back res hero res-IsBase hero_some (refl, refl) (omega arith)

path_join_up_example :
    path_join back (res ++ (back ∷ png)) (dot ∷ dot ∷ slash ∷ hero) ≡ some (res ++ (back ∷ hero))
path_join_up_example =
    path_join_up back (omega arith) slash refl res png hero png_some (refl, refl) hero_some
      (refl, refl) (omega arith) (omega arith)

-- `../` in a base of one part leaves no base, and the separator that stood behind it is passed by.
up_and_out : path_join back res (dot ∷ dot ∷ slash ∷ hero) ≡ some hero
unfolding path_join join_loop turn one_dot two_dots finish pop_component join_start to_parent
up_and_out = refl

parts-path_join_example :
    (path : List ℕ) × (path_join back res (hero ++ (dot ∷ png)) ≡ some path)
    × (parent_path back path ≡ some res)
    × (path_filename back path ≡ some hero)
    × (path_ext back path ≡ some png)
parts-path_join_example =
    parts-path_join back res hero png (omega arith) res-IsBase hero-IsName png-IsName (omega arith)
