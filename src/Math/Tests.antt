-- ===== src/Math/Tests.antt =====
-- Runs of the integer functions, and the theorems at concrete numbers.
use tcengine.Base.{ℕ, ◌-◌, ◌%◌, ◌^◌, ◌≤◌, ◌≡◌, refl, arith, true, false}
use tcengine.Math.{next_power_of_2, previous_power_of_2, closest_power_of_2, smear}
use tcengine.Math.{align_down, align_up, round_up, is_power_of_2}
use tcengine.Math.Powers.{next_power_of_2_lem}
use tcengine.Math.Align.{align-round_up}

-- Of 64 and 128, a number in the middle goes to the larger one.
closest_power_of_2-below : closest_power_of_2 95 ≡ 64
unfolding closest_power_of_2 next_power_of_2 previous_power_of_2 smear
closest_power_of_2-below = refl

closest_power_of_2-middle : closest_power_of_2 96 ≡ 128
unfolding closest_power_of_2 next_power_of_2 previous_power_of_2 smear
closest_power_of_2-middle = refl

is_power_of_2-zero : is_power_of_2 0 ≡ false
unfolding is_power_of_2
is_power_of_2-zero = refl

is_power_of_2-high : is_power_of_2 (2 ^ 31) ≡ true
unfolding is_power_of_2
is_power_of_2-high = refl

next_power_of_2_lem_example :
    ((k : ℕ) × next_power_of_2 1025 ≡ 2 ^ k)
    × (1025 ≤ next_power_of_2 1025)
    × ((j : ℕ) → 1025 ≤ 2 ^ j → next_power_of_2 1025 ≤ 2 ^ j)
next_power_of_2_lem_example = next_power_of_2_lem 1025 (omega arith) (omega arith)

-- An address above 2^32 loses its high part.
align-round_up_example :
    (align_down 0x123456789a (2 ^ 4) ≡ (0x123456789a - 0x123456789a % 2 ^ 4) % 2 ^ 32)
    × (align_up 0x123456789a (2 ^ 4) ≡ round_up 0x123456789a (2 ^ 4) % 2 ^ 32)
align-round_up_example = align-round_up 4 0x123456789a (omega arith) (omega arith)
