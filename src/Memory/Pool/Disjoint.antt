-- ===== src/Memory/Pool/Disjoint.antt =====
-- The objects of a pool whose size divides the chunk lie in the chunks and apart; those of a size
-- that does not may reach past the chunk's end.
use tcengine.Base.{ℕ, zero, suc, ◌+◌, ◌*◌, ◌/◌, ◌%◌, ◌^◌, ◌≤◌, ◌<◌, ◌≡◌, ◌≢◌, arith}
use tcengine.Base.{◌⊎◌, inl, ap, sym, ◌∙◌, ℕ_discrete}
use native.Mathlib.Nat.{div-add-mod}
use mathlib.Core.Path.{subst}
use tcengine.Memory.Pool.{Pool, u32_mod, create, alloc}
use tcengine.Memory.Pool.Chunks.{Bump, Placed, alloc-Placed}

-- An allocation when the parent returns `chunks j` for the pool's chunk `j`.
abbrev pub request : (ℕ → ℕ) → Pool → ℕ × Pool
request chunks p = alloc (chunks ((p.index + 1) % u32_mod)) p

-- The pool after `n` such requests.
pub after : (ℕ → ℕ) → ℕ → Pool → Pool
after chunks zero p = p
after chunks (suc n) p = (request chunks (after chunks n p)).1

-- The parent's chunks are not NULL and do not overlap.
pub record IsParent (chunks : ℕ → ℕ) : Type 0 where
  pub nonzero : (j : ℕ) → chunks j ≢ 0
  pub apart : (i j : ℕ) → i ≢ j → (chunks i + 4096 ≤ chunks j) ⊎ (chunks j + 4096 ≤ chunks i)

-- A size from 8 on of which `per_chunk` make up a chunk.
pub record IsFitting (objsize : ℕ) : Type 0 where
  pub at_least : 8 ≤ objsize
  pub per_chunk : ℕ
  pub exact : per_chunk * objsize ≡ 4096

mul_mono : (a b s : ℕ) → a ≤ b → a * s ≤ b * s
mul_mono a b s h = grind arith

module _ {chunks : ℕ → ℕ} (parent : IsParent chunks) {objsize : ℕ} (fit : IsFitting objsize)
    (memory : ℕ → ℕ) where
  per_chunk_pos : 0 < fit.per_chunk
  per_chunk_pos = elim (ℕ_discrete fit.per_chunk 0) [
    | yes e ↦ absurd (omega (arith, ap (λ (t : ℕ). t * objsize) e, fit.exact))
    | no ne ↦ omega arith
  ]

  rest_in_chunk : (n : ℕ) → n * objsize % 4096 + objsize ≤ 4096
  rest_in_chunk n =
      let k = fit.per_chunk in
      let row : n * objsize ≡ n / k * 4096 + n % k * objsize =
        ap (λ (t : ℕ). t * objsize) (sym (div-add-mod n k))
        ∙ omega (arith, ap (λ (t : ℕ). n / k * t) fit.exact) in
      let short : n % k * objsize + objsize ≤ 4096 =
        omega (arith, fit.exact, mul_mono (n % k + 1) k objsize (omega (arith, per_chunk_pos))) in
      omega arith

  record After (n : ℕ) (p : Pool) : Type 0 where
    number : ℕ
    bump : Bump chunks number p
    used : p.used ≡ n * objsize
    size : p.objsize ≡ objsize
    number_le : number ≤ n

  create-After : After 0 (create objsize memory)
  unfolding create
  create-After = record {
    number = 0;
    bump = ground arith;
    used = omega arith;
    size = omega (arith, fit.at_least);
    number_le = omega arith;
  }

  request-Placed :
      {n : ℕ} {p : Pool} (a : After n p)
      → n < 2 ^ 17
      → let (x, p') = request chunks p in Placed parent.nonzero a.bump x p'
  request-Placed {n} {p} a h =
      let m : (p.index + 1) % u32_mod ≡ a.number = omega (arith, a.bump.last) in
      rw m (
        alloc-Placed parent.nonzero a.bump (omega (arith, a.size, fit.at_least))
          (omega (arith, a.size, a.used, rest_in_chunk n, ap (λ (t : ℕ). t % 4096) a.used))
          (omega (arith, a.number_le)))

  after-After : (n : ℕ) → n ≤ 2 ^ 17 → After n (after chunks n (create objsize memory))
  unfolding after
  after-After zero h = create-After
  after-After (suc n) h =
      let a = after-After n (omega arith) in
      let x = request-Placed a (omega arith) in
      record {
        number = x.number;
        bump = x.bump;
        used = omega (arith, x.used, a.used, a.size);
        size = x.objsize ∙ a.size;
        number_le = omega (arith, x.number_le, a.number_le);
      }

  abbrev pub nth : ℕ → ℕ
  nth n = (request chunks (after chunks n (create objsize memory))).0

  -- Object n of a new pool, below 2^17, lies in chunk n * objsize / 4096 right behind the objects
  -- before it, and ends inside that chunk, when nothing is given back, the object size is at
  -- least 8 and divides the chunk size, and the parent returns chunks that are not NULL and do
  -- not overlap.
  pub nth_object :
      (n : ℕ)
      → n < 2 ^ 17
      → (nth n ≡ chunks (n * objsize / 4096) + n * objsize % 4096)
        × (n * objsize % 4096 + objsize ≤ 4096)
  nth_object n h =
      let a = after-After n (omega arith) in
      (
        subst (λ (u : ℕ). nth n ≡ chunks (u / 4096) + u % 4096) a.used (request-Placed a h).address,
        rest_in_chunk n,
      )

  -- No two of the first 2^17 objects of a new pool overlap, when nothing is given back, the
  -- object size is at least 8 and divides the chunk size, and the parent returns chunks that are
  -- not NULL and do not overlap.
  pub objects_apart :
      (i j : ℕ) → i < j → j < 2 ^ 17 → (nth i + objsize ≤ nth j) ⊎ (nth j + objsize ≤ nth i)
  objects_apart i j lt h =
      let x = nth_object i (omega arith) in
      let y = nth_object j h in
      let ordered : i * objsize + objsize ≤ j * objsize = grind arith in
      elim (ℕ_discrete (i * objsize / 4096) (j * objsize / 4096)) [
        | yes e ↦ inl (omega (arith, x, y, ap chunks e))
        | no ne ↦ omega (arith, x, y, parent.apart _ _ ne)
      ]
