-- ===== src/Memory/Pool/Reuse.antt =====
-- Freed objects are reused, the last one first; and what the count of used bytes misses.
use tcengine.Base.{
  ℕ, ◌+◌, ◌%◌, ◌<◌, ◌≡◌, ◌≢◌, refl, sym, ◌∙◌, arith, update, [], ==_self, get_or, ==_false, List,
  ◌∷◌, get_elem?, some, suc, ◌-◌, ◌≤◌, ◌/◌,
}
use tcengine.Memory.Pool.{Pool, chunk_size, u32_mod, free, alloc, clear, next_chunk, grow}

-- An object that is freed is the next one that is allocated, and then the list of freed objects is
-- what it was.
pub alloc-free :
    (p : Pool) (chunk ptr : ℕ)
    → ptr ≢ 0
    → let (q, p') = alloc chunk (free ptr p) in (q ≡ ptr) × (p'.freed ≡ p.freed)
unfolding alloc free
alloc-free p chunk ptr h = ground arith

-- The objects of a list of links from `head` on.
unfoldable pub Links : (objects : List ℕ) (head : ℕ) (word : ℕ → ℕ) → Type 0
Links [] head word = head ≡ 0
Links (o ∷ objects) head word = (head ≡ o) × (o ≢ 0) × Links objects (word o) word

unfoldable pub Avoids : ℕ → List ℕ → Type 0
Avoids ptr [] = Unit
Avoids ptr (o ∷ objects) = (o ≢ ptr) × Avoids ptr objects

-- A write outside the objects of a list leaves the list alone.
Links-update :
    (ptr value : ℕ) (objects : List ℕ) (head : ℕ) (word : ℕ → ℕ)
    → Avoids ptr objects
    → Links objects head word
    → Links objects head (update word ptr value)
unfolding Links Avoids
Links-update ptr value [] head word apart l = l
Links-update ptr value (o ∷ objects) head word (ne, apart) (at, pos, l) = (
  at,
  pos,
  rw (==_false ptr o (λ e. ne (sym e))) (Links-update ptr value objects (word o) word apart l),
)

reuse :
    (p : Pool) (chunk : ℕ)
    → p.freed ≢ 0
    → alloc chunk p ≡ (p.freed, record p { freed = p.word p.freed })
unfolding alloc
reuse p chunk h = rw (==_false p.freed 0 h) refl

reuse-free :
    (p : Pool) (chunk ptr : ℕ)
    → ptr ≢ 0
    → alloc chunk (free ptr p) ≡ (ptr, record (free ptr p) { freed = p.freed })
unfolding free
reuse-free p chunk ptr h = reuse (free ptr p) chunk h ∙ rw (==_self ptr) refl

-- Two different objects that are not on the list of freed objects and are freed one after the
-- other are handed out again by the next two allocations, the last one first, and then the list
-- has the objects that it had before, in their order.
pub alloc-alloc-free-free :
    (p : Pool) (chunk a b : ℕ) (freed : List ℕ)
    → a ≢ 0
    → b ≢ 0
    → a ≢ b
    → Avoids a freed
    → Avoids b freed
    → Links freed p.freed p.word
    → let (x, p1) = alloc chunk (free b (free a p)) in
      let (y, p2) = alloc chunk p1 in (x ≡ b) × (y ≡ a) × Links freed p2.freed p2.word
unfolding free
alloc-alloc-free-free p chunk a b freed ha hb ne apart_a apart_b l =
    rw (reuse-free (free a p) chunk b hb) (
      rw (reuse (record (free b (free a p)) { freed = a }) chunk ha) (
        refl,
        refl,
        rw (==_false b a (λ e. ne (sym e)), ==_self a)
            (Links-update b a freed p.freed (update p.word a p.freed) apart_b
              (Links-update a p.freed freed p.freed p.word apart_a l)),
      ))

-- Inside a chunk an allocation is the next piece of it.
alloc-inside :
    (p : Pool) (chunk : ℕ)
    → p.freed ≡ 0
    → p.used % chunk_size ≢ 0
    → alloc chunk p ≡ (
      get_or p.table p.index 0 + p.used % chunk_size,
      record p { used = (p.used + p.objsize) % u32_mod },
    )
unfolding alloc
alloc-inside p chunk e h = rw (e, ==_false _ _ h)

-- What a fresh allocation leaves alone.
pub alloc_fresh :
    (p : Pool) (chunk : ℕ)
    → p.freed ≡ 0
    → let p' = (alloc chunk p).1 in
      (p'.freed ≡ 0) × (p'.objsize ≡ p.objsize) × (p'.used ≡ (p.used + p.objsize) % u32_mod)
unfolding alloc next_chunk grow
alloc_fresh p chunk e = ground arith

-- The second object again, where the first allocation has left the pool `p`.
second_twice :
    (p : Pool) (chunk a : ℕ)
    → a ≢ 0
    → p.freed ≡ 0
    → p.used < u32_mod
    → p.objsize < chunk_size
    → p.used % chunk_size ≢ 0
    → let (b, p2) = alloc chunk p in
      let (a', p3) = alloc chunk (free a p2) in (a' ≡ a) × ((alloc chunk p3).0 ≡ b)
unfolding free
second_twice p chunk a ha e fits small inside =
    rw (alloc-inside p chunk e inside) (unfold alloc in ground arith)

-- A pool without freed objects that hands out a and then b, takes a back and hands it out again,
-- hands out b a second time at the next request, although b was never given back, wherever b is
-- not the first object of a chunk.
pub alloc_twice :
    (p : Pool) (chunk : ℕ)
    → p.freed ≡ 0
    → p.objsize < chunk_size
    → (p.used + p.objsize) % u32_mod % chunk_size ≢ 0
    → (alloc chunk p).0 ≢ 0
    → let (a, p1) = alloc chunk p in
      let (b, p2) = alloc chunk p1 in
      let (a', p3) = alloc chunk (free a p2) in (a' ≡ a) × ((alloc chunk p3).0 ≡ b)
alloc_twice p chunk e small inside ne =
    let after = alloc_fresh p chunk e in
    second_twice (alloc chunk p).1 chunk (alloc chunk p).0 ne after.0 (omega (arith, after.2))
      (omega (arith, after.1)) (λ h. inside (rw after.2 at h))

-- A pool with a chunk that is cleared gives its first chunk back to the parent and hands out the
-- start of that chunk at the next request.
pub alloc-clear_stale :
    (p : Pool) (chunk c : ℕ) (rest : List ℕ)
    → p.table ≡ c ∷ rest
    → c ≢ 0
    → chunk_size ≤ p.cap
    → let (released, p') = clear p in (get_elem? released 0 ≡ some c) × ((alloc chunk p').0 ≡ c)
unfolding clear alloc next_chunk
alloc-clear_stale p chunk c rest e ne full =
    let nr : p.cap / chunk_size ≡ suc (p.cap / chunk_size - 1) = omega arith in
    (ground arith, ground arith)
