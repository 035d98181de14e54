-- ===== src/Memory/Temp/Bump.antt =====
-- Where the objects of a temporary allocator lie.
use mathlib.Core.Path.{subst}
use tcengine.Base.{ℕ, zero, suc, ◌+◌, ◌≤◌, ◌<◌, ◌≡◌, ◌≢◌, ◌⊎◌, inl, inr, refl, ap, ◌∙◌, arith, min}
use tcengine.Base.{Bool-cases, if-true, if-false, if◌then◌else◌, List, [], ◌∷◌, length, true, false}
use tcengine.Math.{next_power_of_2, u32}
use tcengine.Math.Powers.{next_power_of_2_lem}
use tcengine.Memory.Temp.{Temp, tc_temp_init, full, new_node, bump, temp_realloc}

-- The objects of requests for memory: `base (suc n)` is what the parent returns for chunk n.
unfoldable pub objects : (base : ℕ → ℕ) (requests : List ℕ) → Temp → List (ℕ × ℕ)
objects base [] t = []
objects base (size ∷ requests) t =
    let (u, ptr) = temp_realloc 0 0 size (base (suc (length t.nodes))) t in
    (ptr, size) ∷ objects base requests u

-- The bytes of the buffer, number 0, and of the chunks: the parent's chunk `suc n` has `sizes n`.
unfoldable pub room : (sizes : ℕ → ℕ) → ℕ → ℕ
room sizes zero = 1024
room sizes (suc n) = sizes n

-- The newest chunk has the size that it was requested with, or more.
unfoldable pub IsGranted : (sizes : ℕ → ℕ) → List (ℕ × ℕ) → Type 0
IsGranted sizes [] = Unit
IsGranted sizes ((chunk, size) ∷ nodes) = size ≤ sizes (length nodes)

-- So have all chunks that the requests need.
unfoldable pub AreGranted : (base sizes : ℕ → ℕ) (requests : List ℕ) → Temp → Type 0
AreGranted base sizes [] t = Unit
AreGranted base sizes (size ∷ requests) t =
    let u = (temp_realloc 0 0 size (base (suc (length t.nodes))) t).0 in
    IsGranted sizes u.nodes × AreGranted base sizes requests u

unfoldable pub Apart : (a n b m : ℕ) → Type 0
Apart a n b m = (a + n ≤ b) ⊎ (b + m ≤ a)

unfoldable pub AreApart : (base sizes : ℕ → ℕ) → Type 0
AreApart base sizes = (i j : ℕ) → i ≢ j → Apart (base i) (room sizes i) (base j) (room sizes j)

-- The state between two requests: `end` stands behind the used bytes of the last chunk.
IsBump : (base sizes : ℕ → ℕ) → Temp → Type 0
IsBump base sizes t =
    (t.end ≡ base (length t.nodes) + t.used)
    × (t.used ≤ t.cap)
    × (t.cap ≤ room sizes (length t.nodes))
    × (t.cap ≤ 4096)

-- An object that a request from `t` on may return.
Above : (base sizes : ℕ → ℕ) → Temp → ℕ × ℕ → Type 0
Above base sizes t (ptr, size) =
    (i : ℕ) × (base i ≤ ptr)
    × (ptr + size ≤ base i + room sizes i)
    × (((i ≡ length t.nodes) × (t.end ≤ ptr)) ⊎ (length t.nodes < i))

small : (size : ℕ) → size ≤ 4080 → u32 (size + 16) ≡ size + 16
small size h = omega arith

chunk_fits : (size : ℕ) → size ≤ 4080 → size + 16 ≤ min 4096 (next_power_of_2 (u32 (size + 16)))
chunk_fits size h =
    let (_, enough, _) = next_power_of_2_lem (size + 16) (omega arith) (omega arith) in
    ground (arith, ap next_power_of_2 (small size h))

fits :
    (size : ℕ) (t : Temp)
    → t.used ≤ t.cap
    → t.cap ≤ 4096
    → size ≤ 4080
    → full size t ≡ false
    → t.used + size ≤ t.cap
fits size t within small h e = ground arith

-- A request either cuts from the last chunk or from a new one.
pub realloc-bump :
    (size chunk : ℕ) (t : Temp)
    → 0 < size
    → (full size t ≡ false) × (temp_realloc 0 0 size chunk t ≡ bump size t)
      ⊎ (full size t ≡ true) × (temp_realloc 0 0 size chunk t ≡ bump size (new_node size chunk t))
unfolding temp_realloc
realloc-bump zero chunk t h = absurd (omega arith)
realloc-bump (suc size) chunk t h = elim (Bool-cases (full (suc size) t)) [
  | inl e ↦ inr (
    e,
    if-true (bump (suc size) (if full (suc size) t then new_node (suc size) chunk t else t)) (t, 0)
          (ground arith)
        ∙ ap (bump (suc size)) (if-true (new_node (suc size) chunk t) t e),
  )
  | inr e ↦ inl (
    e,
    if-true (bump (suc size) (if full (suc size) t then new_node (suc size) chunk t else t)) (t, 0)
          (ground arith)
        ∙ ap (bump (suc size)) (if-false (new_node (suc size) chunk t) t e),
  )
]

bump-IsBump :
    (base sizes : ℕ → ℕ) (size : ℕ) (t : Temp)
    → IsBump base sizes t
    → t.used + size ≤ t.cap
    → size ≤ 4080
    → IsBump base sizes (bump size t).0
unfolding IsBump
bump-IsBump base sizes size t (at, within, cap, small) fits h =
    (omega arith, omega arith, cap, small)

new-IsBump :
    (base sizes : ℕ → ℕ) (size : ℕ) (t : Temp)
    → size ≤ 4080
    → IsGranted sizes (new_node size (base (suc (length t.nodes))) t).nodes
    → IsBump base sizes (new_node size (base (suc (length t.nodes))) t)
      × ((new_node size (base (suc (length t.nodes))) t).used + size
          ≤ (new_node size (base (suc (length t.nodes))) t).cap)
unfolding IsBump new_node room IsGranted
new-IsBump base sizes size t h granted = (
  (refl, omega (arith, chunk_fits size h), granted, omega arith),
  omega (arith, chunk_fits size h),
)

-- The object that is cut off lies above the old state, and apart from what lies above the new one.
bump-Above :
    (base sizes : ℕ → ℕ) (size : ℕ) (t : Temp)
    → IsBump base sizes t
    → t.used + size ≤ t.cap
    → Above base sizes t (t.end, size)
unfolding Above IsBump
bump-Above base sizes size t (at, within, cap, small) fits =
    (length t.nodes, omega arith, omega arith, inl (refl, omega arith))

Above-bump :
    (base sizes : ℕ → ℕ) (size : ℕ) (t : Temp) (o : ℕ × ℕ)
    → Above base sizes (bump size t).0 o
    → Above base sizes t o
unfolding Above
Above-bump base sizes size t o (i, low, high, inl (here, over)) =
    (i, low, high, inl (here, omega arith))
Above-bump base sizes size t o (i, low, high, inr later) = (i, low, high, inr later)

Above-new :
    (base sizes : ℕ → ℕ) (size : ℕ) (t : Temp) (o : ℕ × ℕ)
    → Above base sizes (new_node size (base (suc (length t.nodes))) t) o
    → Above base sizes t o
unfolding Above new_node
Above-new base sizes size t o (i, low, high, inl (here, over)) = (i, low, high, inr (omega arith))
Above-new base sizes size t o (i, low, high, inr later) = (i, low, high, inr (omega arith))

bump-Apart :
    (base sizes : ℕ → ℕ) (size : ℕ) (t : Temp) (o : ℕ × ℕ)
    → AreApart base sizes
    → IsBump base sizes t
    → t.used + size ≤ t.cap
    → Above base sizes (bump size t).0 o
    → Apart t.end size o.0 o.1
unfolding Above IsBump AreApart Apart
bump-Apart base sizes size t o apart (at, within, cap, small) fits
      (i, low, high, inl (here, over)) =
    inl over
bump-Apart base sizes size t o apart (at, within, cap, small) fits (i, low, high, inr later) =
    elim (apart (length t.nodes) i (λ e. absurd (omega arith))) [
      | inl h ↦ inl (omega arith)
      | inr h ↦ inr (omega arith)
    ]

-- What a request does, in the last chunk or in a new one.
request :
    (base sizes : ℕ → ℕ) (size : ℕ) (t : Temp)
    → IsBump base sizes t
    → 0 < size
    → size ≤ 4080
    → IsGranted sizes (temp_realloc 0 0 size (base (suc (length t.nodes))) t).0.nodes
    → (s : Temp) × (temp_realloc 0 0 size (base (suc (length t.nodes))) t ≡ bump size s)
      × IsBump base sizes s
      × (s.used + size ≤ s.cap)
      × ((o : ℕ × ℕ) → Above base sizes s o → Above base sizes t o)
unfolding IsBump
request base sizes size t (at, within, cap, small) pos h granted =
    elim (realloc-bump size (base (suc (length t.nodes))) t pos) [
      | inl (e, r) ↦ (t, r, (at, within, cap, small), fits size t within small h e, λ o a. a)
      | inr (e, r) ↦
          let (b, f) =
            new-IsBump base sizes size t h
              (subst (λ (x : Temp × ℕ). IsGranted sizes x.0.nodes) r granted) in
          (new_node size (base (suc (length t.nodes))) t, r, b, f, Above-new base sizes size t)
    ]

-- Requests of at least one byte that fit a chunk behind its node.
unfoldable pub Fit : List ℕ → Type 0
Fit [] = Unit
Fit (size ∷ requests) = (0 < size) × (size ≤ 4080) × Fit requests

unfoldable pub All : (ℕ × ℕ → Type 0) → List (ℕ × ℕ) → Type 0
All P [] = Unit
All P (o ∷ rest) = P o × All P rest

All-map : {P Q : ℕ × ℕ → Type 0} (l : List (ℕ × ℕ)) → ((o : ℕ × ℕ) → P o → Q o) → All P l → All Q l
unfolding All
All-map [] f a = tt
All-map (o ∷ l) f (p, a) = (f o p, All-map l f a)

-- No two objects of the list overlap.
unfoldable pub NoOverlap : List (ℕ × ℕ) → Type 0
NoOverlap [] = Unit
NoOverlap (o ∷ rest) = All (λ x. Apart o.0 o.1 x.0 x.1) rest × NoOverlap rest

objects-Above :
    (base sizes : ℕ → ℕ) (requests : List ℕ) (t : Temp)
    → AreApart base sizes
    → IsBump base sizes t
    → Fit requests
    → AreGranted base sizes requests t
    → All (Above base sizes t) (objects base requests t) × NoOverlap (objects base requests t)
unfolding objects Fit All NoOverlap AreGranted
objects-Above base sizes [] t apart b f g = (tt, tt)
objects-Above base sizes (size ∷ requests) t apart b (pos, h, f) (granted, g) =
    let (s, r, at, enough, lift) = request base sizes size t b pos h granted in
    let (above, no_overlap) =
      objects-Above base sizes requests (bump size s).0 apart
        (bump-IsBump base sizes size s at enough h) f
        (subst (λ (x : Temp × ℕ). AreGranted base sizes requests x.0) r g) in
    rw r (
      (
        lift (s.end, size) (bump-Above base sizes size s at enough),
        All-map (objects base requests (bump size s).0)
            (λ o a. lift o (Above-bump base sizes size s o a)) above,
      ),
      (
        All-map (objects base requests (bump size s).0)
            (λ o a. bump-Apart base sizes size s o apart at enough a) above,
        no_overlap,
      ),
    )

init-IsBump : (base sizes : ℕ → ℕ) → IsBump base sizes (tc_temp_init (base 0))
unfolding IsBump tc_temp_init room
init-IsBump base sizes = (refl, omega arith, omega arith, omega arith)

-- No two objects of a new temporary allocator overlap, for requests of 1 up to 4080 bytes, where
-- the parent returns chunks of the sizes that it is asked for, or larger ones, that overlap
-- neither each other nor the buffer.
pub temp_objects-NoOverlap :
    (base sizes : ℕ → ℕ) (requests : List ℕ)
    → AreApart base sizes
    → Fit requests
    → AreGranted base sizes requests (tc_temp_init (base 0))
    → NoOverlap (objects base requests (tc_temp_init (base 0)))
temp_objects-NoOverlap base sizes requests apart f g =
    (objects-Above base sizes requests (tc_temp_init (base 0)) apart (init-IsBump base sizes) f g).1
