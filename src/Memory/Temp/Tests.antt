-- ===== src/Memory/Temp/Tests.antt =====
-- The theorems on the temporary allocator at concrete requests.
use tcengine.Base.{
  ℕ, zero, suc, ◌+◌, ◌*◌, ◌≤◌, ◌<◌, ◌≡◌, ◌≢◌, inl, inr, arith, List, [], ◌∷◌, refl, dec_lt,
}
use tcengine.Math.{next_power_of_2, smear}
use tcengine.Memory.Temp.{Temp, temp_realloc, new_node, tc_temp_init}
use tcengine.Memory.Temp.Bump.{
  objects, room, Apart, AreApart, IsGranted, AreGranted, Fit, NoOverlap, temp_objects-NoOverlap,
}
use tcengine.Memory.Temp.Overrun.{temp_realloc-overrun}

-- The buffer at 8192, a chunk of 256 bytes behind it, and right behind that the others.
abbrev base : ℕ → ℕ
base zero = 8192
base (suc zero) = 9216
base (suc (suc n)) = 9472 + 4096 * n

abbrev sizes : ℕ → ℕ
sizes zero = 256
sizes (suc n) = 4096

ends_below : (i j : ℕ) → i < j → base i + room sizes i ≤ base j
unfolding room
ends_below zero (suc zero) h = omega arith
ends_below zero (suc (suc j)) h = omega arith
ends_below (suc zero) (suc (suc j)) h = omega arith
ends_below (suc (suc i)) (suc (suc j)) h = omega arith
ends_below (suc i) (suc zero) h = absurd (omega arith)
ends_below i zero h = absurd (omega arith)

below : (i j : ℕ) → i ≢ j → ¬ i < j → j < i
below i j h p = ground arith

base-AreApart : AreApart base sizes
unfolding AreApart Apart
base-AreApart i j h = elim (dec_lt i j) [
  | yes p ↦ inl (ends_below i j p)
  | no p ↦ inr (ends_below j i (below i j h p))
]

abbrev requests : List ℕ
requests = 900 ∷ 200 ∷ 4000 ∷ 64 ∷ []

requests-Fit : Fit requests
unfolding Fit
requests-Fit = (
  omega arith,
  omega arith,
  (omega arith, omega arith, (omega arith, omega arith, (omega arith, omega arith, tt))),
)

-- The second object stands in a chunk of 256 bytes, the third one in a chunk of 4096.
objects_run :
    objects base requests (tc_temp_init (base 0))
    ≡ (8216, 900) ∷ (9232, 200) ∷ (9488, 4000) ∷ (13488, 64) ∷ []
unfolding objects temp_realloc tc_temp_init new_node next_power_of_2 smear
objects_run = refl

requests-AreGranted : AreGranted base sizes requests (tc_temp_init (base 0))
unfolding AreGranted IsGranted temp_realloc tc_temp_init new_node next_power_of_2 smear
requests-AreGranted = (tt, (omega arith, (omega arith, (omega arith, tt))))

temp_objects-NoOverlap_example : NoOverlap (objects base requests (tc_temp_init (base 0)))
temp_objects-NoOverlap_example =
    temp_objects-NoOverlap base sizes requests base-AreApart requests-Fit requests-AreGranted

abbrev fresh : Temp
fresh = record { used = 24; cap = 1024; end = 8216; nodes = [] }

temp_realloc-overrun_example :
    ((temp_realloc 0 0 8000 65536 fresh).0.nodes ≡ (65536, 4096) ∷ [])
    × ((temp_realloc 0 0 8000 65536 fresh).1 ≡ 65552)
    × (65536 + 4096 < (temp_realloc 0 0 8000 65536 fresh).1 + 8000)
temp_realloc-overrun_example =
    temp_realloc-overrun 8000 65536 fresh (omega arith) (omega arith) (omega arith) (omega arith)
      (omega arith)
