-- ===== src/Memory/Buddy/Blocks/Tree.antt =====
-- The blocks as a tree: block 1 is the buffer, and the halves of block n are 2n and 2n + 1.
use tcengine.Base.{ℕ, suc, ◌+◌, ◌-◌, ◌*◌, ◌^◌, ◌≤◌, ◌<◌, ◌≡◌, ◌≢◌, inl, inr, arith, min}
use tcengine.Base.{Bool, true, false, not, Bool-cases, List, [], ◌∷◌, ◌++◌, ◌==◌, if◌then◌else◌}
use tcengine.Memory.Buddy.Blocks.{Blocks, list_remove}

pub data Status : Type 0 where
  absent : Status
  free : Status
  split : Status
  used : Status

abbrev pub is_free : Status → Bool
is_free free = true
is_free other = false

abbrev pub is_used : Status → Bool
is_used used = true
is_used other = false

abbrev pub differ : Bool → Bool → Bool
differ true b = not b
differ false b = b

unfoldable pub count : ℕ → List ℕ → ℕ
count x [] = 0
count x (y ∷ ys) = (if y == x then 1 else 0) + count x ys

pub count-append : (x : ℕ) (xs ys : List ℕ) → count x (xs ++ ys) ≡ count x xs + count x ys
unfolding count
count-append x [] ys = omega arith
count-append x (y ∷ xs) ys = omega (arith, count-append x xs ys)

pub count-list_remove :
    (x y : ℕ) (xs : List ℕ)
    → count y (list_remove x xs) + (if x == y then min 1 (count x xs) else 0) ≡ count y xs
unfolding count list_remove
count-list_remove x y [] = ground arith
count-list_remove x y (z ∷ xs) = ground (arith, count-list_remove x y xs)

-- Every element is a block of level `suc l`.
unfoldable pub AreBlocks : (c l : ℕ) → List ℕ → Type 0
AreBlocks c l [] = Unit
AreBlocks c l (x ∷ xs) = ((q : ℕ) × (q < 2 ^ suc l) × (x ≡ q * 2 ^ (c - suc l))) × AreBlocks c l xs

pub AreBlocks-append :
    (c l : ℕ) (xs ys : List ℕ) → AreBlocks c l xs → AreBlocks c l ys → AreBlocks c l (xs ++ ys)
unfolding AreBlocks
AreBlocks-append c l [] ys a b = b
AreBlocks-append c l (x ∷ xs) ys (x_block, a) b = (x_block, AreBlocks-append c l xs ys a b)

pub AreBlocks-list_remove :
    (c l x : ℕ) (xs : List ℕ) → AreBlocks c l xs → AreBlocks c l (list_remove x xs)
unfolding AreBlocks list_remove
AreBlocks-list_remove c l x [] a = tt
AreBlocks-list_remove c l x (y ∷ xs) (y_block, a) = elim (Bool-cases (y == x)) [
  | inl e ↦ rw e a
  | inr e ↦ rw e (y_block, AreBlocks-list_remove c l x xs a)
]

-- A part of the tree that is not split has no halves.
unfoldable pub AreParts : (ℕ → Status) → Type 0
AreParts st = (n : ℕ) → 0 < n → st n ≢ split → (st (2 * n) ≡ absent) × (st (2 * n + 1) ≡ absent)

-- The state of the allocator, as the tree `st` tells it.
pub record Fits (c : ℕ) (st : ℕ → Status) (s : Blocks) : Type 0 where
  pub lists :
      (l q : ℕ)
      → suc l ≤ c
      → q < 2 ^ suc l
      → count (q * 2 ^ (c - suc l)) (s.free (suc l))
        ≡ (if is_free (st (2 ^ suc l + q)) then 1 else 0)
  pub blocks : (l : ℕ) → suc l ≤ c → AreBlocks c l (s.free (suc l))
  pub bits :
      (n : ℕ) → 0 < n → s.bits (n - 1) ≡ differ (is_free (st (2 * n))) (is_free (st (2 * n + 1)))
  pub parts : AreParts st
