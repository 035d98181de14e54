-- ===== src/Memory/Temp/Overrun.antt =====
-- Requests that do not fit a chunk of a temporary allocator.
use tcengine.Base.{ℕ, ◌+◌, ◌^◌, ◌≤◌, ◌<◌, ◌≡◌, ◌≢◌, inl, inr, refl, ap, ◌∙◌, arith, min}
use tcengine.Base.{◌∷◌, false}
use tcengine.Math.{next_power_of_2, u32}
use tcengine.Math.Powers.{next_power_of_2_lem}
use tcengine.Memory.Temp.{Temp, full, new_node, temp_realloc}
use tcengine.Memory.Temp.Bump.{realloc-bump}

new-short :
    (size chunk : ℕ) (t : Temp)
    → 4080 < size
    → size + 16 ≤ 2 ^ 31
    → (new_node size chunk t).nodes ≡ (chunk, 4096) ∷ t.nodes
unfolding new_node
new-short size chunk t large small =
    let (_, enough, _) = next_power_of_2_lem (size + 16) (omega arith) small in
    let word : u32 (size + 16) ≡ size + 16 = omega arith in
    ap (λ s. (chunk, s) ∷ t.nodes) (ap (λ w. min 4096 (next_power_of_2 w)) word ∙ omega arith)

new-end : (size chunk : ℕ) (t : Temp) → (new_node size chunk t).end ≡ chunk + 16
unfolding new_node
new-end size chunk t = refl

must_be_full :
    (size : ℕ) (t : Temp)
    → 4080 < size
    → size + 16 ≤ 2 ^ 31
    → 16 ≤ t.used
    → t.used ≤ t.cap
    → t.cap ≤ 4096
    → full size t ≢ false
must_be_full size t large small header used cap e = ground arith

-- A request of more than 4080 bytes, up to 2^31 - 16, gets a chunk of 4096 bytes and returns an
-- object that ends behind it, in a state whose used bytes, a node at least, are within a chunk.
pub temp_realloc-overrun :
    (size chunk : ℕ) (t : Temp)
    → 4080 < size
    → size + 16 ≤ 2 ^ 31
    → 16 ≤ t.used
    → t.used ≤ t.cap
    → t.cap ≤ 4096
    → ((temp_realloc 0 0 size chunk t).0.nodes ≡ (chunk, 4096) ∷ t.nodes)
      × ((temp_realloc 0 0 size chunk t).1 ≡ chunk + 16)
      × (chunk + 4096 < (temp_realloc 0 0 size chunk t).1 + size)
temp_realloc-overrun size chunk t large small header used cap =
    elim (realloc-bump size chunk t (omega arith)) [
      | inl (e, _) ↦ absurd (must_be_full size t large small header used cap e)
      | inr (_, r) ↦ rw r (
        new-short size chunk t large small,
        new-end size chunk t,
        omega (arith, new-end size chunk t),
      )
    ]
