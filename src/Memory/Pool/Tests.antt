-- ===== src/Memory/Pool/Tests.antt =====
-- Pools at work, and the theorems about them at concrete pools.
use tcengine.Base.{ℕ, ◌+◌, ◌-◌, ◌*◌, ◌≤◌, ◌≡◌, ◌≢◌, ◌⊎◌, refl, arith}
use tcengine.Base.{[], ◌∷◌}
use tcengine.Memory.Pool.{Pool, u32_mod, create, alloc, free, grow, next_chunk}
use tcengine.Memory.Pool.Reuse.{Links, Avoids, alloc-alloc-free-free, alloc_twice}
use tcengine.Memory.Pool.Disjoint.{IsParent, IsFitting, after, request, objects_apart}

abbrev blank : ℕ → ℕ
blank _ = 0

-- A pool of 64-byte objects, new and with three objects of its first chunk handed out.
abbrev fresh : Pool
fresh = record {
  table = [];
  freed = 0;
  objsize = 64;
  cap = 0;
  used = 0;
  index = u32_mod - 1;
  word = blank;
}

abbrev busy : Pool
busy = record fresh { table = 8192 ∷ []; cap = 4096; used = 192; index = 0 }

create-fresh : create 64 blank ≡ fresh
unfolding create
create-fresh = refl

-- The second object after a free and an allocation is one that is still in use.
overlap :
    let (a, p1) = alloc 8192 fresh in
    let (b, p2) = alloc 0 p1 in
    let (a', p3) = alloc 0 (free a p2) in
    ((a ≡ 8192) × (b ≡ 8256)) × ((a' ≡ 8192) × ((alloc 0 p3).0 ≡ 8256))
unfolding alloc free next_chunk grow
overlap = ((refl, refl), (refl, refl))

-- The object at 8320 has been freed before.
abbrev freed_once : Pool
freed_once = free 8320 busy

Links-once : Links (8320 ∷ []) freed_once.freed freed_once.word
unfolding Links free
Links-once = (refl, λ e. absurd (omega arith), refl)

Avoids-8192 : Avoids 8192 (8320 ∷ [])
unfolding Avoids
Avoids-8192 = ((λ e. absurd (omega arith)), tt)

Avoids-8256 : Avoids 8256 (8320 ∷ [])
unfolding Avoids
Avoids-8256 = ((λ e. absurd (omega arith)), tt)

alloc-alloc-free-free_example :
    let (x, p1) = alloc 0 (free 8256 (free 8192 freed_once)) in
    let (y, p2) = alloc 0 p1 in (x ≡ 8256) × (y ≡ 8192) × Links (8320 ∷ []) p2.freed p2.word
alloc-alloc-free-free_example =
    alloc-alloc-free-free freed_once 0 8192 8256 (8320 ∷ []) (omega arith) (omega arith)
      (omega arith) Avoids-8192 Avoids-8256 Links-once

alloc_twice_example :
    let (a, p1) = alloc 0 busy in
    let (b, p2) = alloc 0 p1 in
    let (a', p3) = alloc 0 (free a p2) in (a' ≡ a) × ((alloc 0 p3).0 ≡ b)
alloc_twice_example = alloc_twice busy 0 refl (omega arith) (omega arith) nonzero
  where
    nonzero : (alloc 0 busy).0 ≢ 0
    nonzero = unfold alloc in omega arith

abbrev pages : ℕ → ℕ
pages j = j * 4096 + 65536

pages-IsParent : IsParent pages
pages-IsParent = record { nonzero = λ j. omega arith; apart = λ i j ne. omega arith }

abbrev fitting : IsFitting 64
fitting = record { at_least = omega arith; per_chunk = 64; exact = refl }

objects_apart_example :
    let nth = λ (n : ℕ). (request pages (after pages n (create 64 blank))).0 in
    (nth 63 + 64 ≤ nth 64) ⊎ (nth 64 + 64 ≤ nth 63)
objects_apart_example = objects_apart pages-IsParent fitting blank 63 64 (omega arith) (omega arith)
