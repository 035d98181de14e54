-- ===== src/Data/List/Chain.antt =====
-- Chains of nodes, linked both ways.
use tcengine.Base.{has, has-append, ℕ, ◌≡◌, ◌≢◌, arith, List, [], ◌∷◌, ◌++◌}
use tcengine.Base.{Bool, true, false, not, ◌&&◌, update}
use tcengine.Data.List.{Heap}

abbrev pub distinct : List ℕ → Bool
distinct [] = true
distinct (x ∷ xs) = not (has x xs) && distinct xs

-- From `a` through `xs` to `b`.
abbrev pub Chain : Heap → ℕ → List ℕ → ℕ → Type 0
Chain h a [] b = (h.next a ≡ b) × (h.prev b ≡ a)
Chain h a (x ∷ xs) b = (h.next a ≡ x) × (h.prev x ≡ a) × Chain h x xs b

abbrev pub last_of : ℕ → List ℕ → ℕ
last_of a [] = a
last_of a (x ∷ xs) = last_of x xs

abbrev pub first_of : List ℕ → ℕ → ℕ
first_of [] b = b
first_of (x ∷ xs) b = x

-- The links between which a node is put, and from between which it is taken.
abbrev pub link : (p n q : ℕ) → Heap → Heap
link p n q h = record {
  next = update (update h.next n q) p n;
  prev = update (update h.prev n p) q n;
}

abbrev pub unlink : (p q : ℕ) → Heap → Heap
unlink p q h = record { next = update h.next p q; prev = update h.prev q p }

pub Chain-first :
    (h : Heap) (a : ℕ) (xs : List ℕ) (b : ℕ) → Chain h a xs b → h.next a ≡ first_of xs b
Chain-first h a [] b c = c.0
Chain-first h a (x ∷ xs) b c = c.0

pub Chain-last : (h : Heap) (a : ℕ) (xs : List ℕ) (b : ℕ) → Chain h a xs b → h.prev b ≡ last_of a xs
Chain-last h a [] b c = c.1
Chain-last h a (x ∷ xs) b c = Chain-last h x xs b c.2

pub has-last_of : (a : ℕ) (xs : List ℕ) (n : ℕ) → has n (a ∷ xs) ≡ false → n ≢ last_of a xs
has-last_of a [] n h = ground arith
has-last_of a (x ∷ xs) n h = has-last_of x xs n (ground arith)

has-first_of : (b : ℕ) (ys : List ℕ) (n : ℕ) → has n ys ≡ false → n ≢ b → n ≢ first_of ys b
has-first_of b [] n h ne = ne
has-first_of b (y ∷ ys) n h ne = ground arith

-- A link that is made behind the chain's nodes leaves them.
pub Chain-link :
    (h : Heap) (a : ℕ) (xs : List ℕ) (b p n q : ℕ)
    → Chain h a xs b
    → has n (a ∷ xs) ≡ false
    → has p (a ∷ xs) ≡ false
    → has n (b ∷ xs) ≡ false
    → has q (b ∷ xs) ≡ false
    → Chain (link p n q h) a xs b
Chain-link h a [] b p n q c na pa nb qb = (ground arith, ground arith)
Chain-link h a (x ∷ xs) b p n q c na pa nb qb = (
  ground arith,
  ground arith,
  Chain-link h x xs b p n q c.2 (ground arith) (ground arith) (ground arith) (ground arith),
)

pub Chain-unlink :
    (h : Heap) (a : ℕ) (xs : List ℕ) (b p q : ℕ)
    → Chain h a xs b
    → has p (a ∷ xs) ≡ false
    → has q (b ∷ xs) ≡ false
    → Chain (unlink p q h) a xs b
Chain-unlink h a [] b p q c pa qb = (ground arith, ground arith)
Chain-unlink h a (x ∷ xs) b p q c pa qb =
    (ground arith, ground arith, Chain-unlink h x xs b p q c.2 (ground arith) (ground arith))

-- A node is put at the front.
pub Chain-prepend :
    (h : Heap) (a : ℕ) (xs : List ℕ) (b n : ℕ)
    → Chain h a xs b
    → distinct (a ∷ xs) ≡ true
    → has b xs ≡ false
    → has n (a ∷ b ∷ xs) ≡ false
    → Chain (link a n (first_of xs b) h) a (n ∷ xs) b
Chain-prepend h a [] b n c d bx nx = ground arith
Chain-prepend h a (x ∷ xs) b n c d bx nx = (
  ground arith,
  ground arith,
  (
    ground arith,
    ground arith,
    Chain-link h x xs b a n x c.2 (ground arith) (ground arith) (ground arith) (ground arith),
  ),
)

-- A node is put at the end.
pub Chain-append :
    (h : Heap) (a : ℕ) (xs : List ℕ) (b n : ℕ)
    → Chain h a xs b
    → distinct (a ∷ xs) ≡ true
    → has b xs ≡ false
    → has n (a ∷ b ∷ xs) ≡ false
    → Chain (link (last_of a xs) n b h) a (xs ++ (n ∷ [])) b
Chain-append h a [] b n c d bx nx = ground arith
Chain-append h a (x ∷ xs) b n c d bx nx = (
  ground (arith, has-last_of x xs a (ground arith)),
  ground arith,
  Chain-append h x xs b n c.2 (ground arith) (ground arith) (ground arith),
)

-- A node is taken out.
pub Chain-remove :
    (h : Heap) (a : ℕ) (xs : List ℕ) (n : ℕ) (ys : List ℕ) (b : ℕ)
    → Chain h a (xs ++ (n ∷ ys)) b
    → distinct (a ∷ (xs ++ (n ∷ ys))) ≡ true
    → has b (xs ++ (n ∷ ys)) ≡ false
    → Chain (unlink (last_of a xs) (first_of ys b) h) a (xs ++ ys) b
Chain-remove h a [] n [] b c d bx = ground arith
Chain-remove h a [] n (y ∷ ys) b c d bx =
    (ground arith, ground arith, Chain-unlink h y ys b a y c.2.2 (ground arith) (ground arith))
Chain-remove h a (x ∷ xs) n ys b c d bx = (
  ground (arith, has-last_of x xs a (ground (arith, has-append a (x ∷ xs) (n ∷ ys)))),
  ground (arith, has-first_of b ys x (ground (arith, has-append x xs (n ∷ ys))) (ground arith)),
  Chain-remove h x xs n ys b c.2 (ground arith) (ground arith),
)

pub Chain-at :
    (h : Heap) (a : ℕ) (xs : List ℕ) (n : ℕ) (ys : List ℕ) (b : ℕ)
    → Chain h a (xs ++ (n ∷ ys)) b
    → (h.prev n ≡ last_of a xs) × (h.next n ≡ first_of ys b)
Chain-at h a [] n ys b c = (c.1, Chain-first h n ys b c.2)
Chain-at h a (x ∷ xs) n ys b c = Chain-at h x xs n ys b c.2
