-- ===== src/Math.antt =====
-- The integer functions of src/include/private/math.h. A uint32_t wraps at 2^32, a size_t at 2^64.
pub mod Smear
pub mod Powers
pub mod Align
mod Tests
use tcengine.Base.{ℕ, ◌+◌, ◌-◌, ◌*◌, ◌/◌, ◌%◌, ◌^◌, bit_and, bit_or, Bool, true, false, ◌&&◌, not}
use tcengine.Base.{List, [], ◌∷◌, ◌==◌, if◌then◌else◌, ltb, get_or}

abbrev pub u32 : ℕ → ℕ
u32 n = n % 2 ^ 32

-- `x |= x >> k`, for the numbers 2^k that the functions use.
abbrev pub or_shifted : (power : ℕ) → ℕ → ℕ
or_shifted power x = bit_or x (x / power)

-- The five lines that three functions share.
unfoldable pub smear : ℕ → ℕ
smear x =
    or_shifted 0x10000 (or_shifted 0x100 (or_shifted 0x10 (or_shifted 0x4 (or_shifted 0x2 x))))

abbrev pub log2_tab32 : List ℕ
log2_tab32 =
    0 ∷ 9 ∷ 1 ∷ 10 ∷ 13 ∷ 21 ∷ 2 ∷ 29 ∷ 11 ∷ 14 ∷ 16 ∷ 18 ∷ 22 ∷ 25 ∷ 3 ∷ 30 ∷ 8 ∷ 12 ∷ 20 ∷ 28 ∷ 15
    ∷ 17 ∷ 24 ∷ 7 ∷ 19 ∷ 27 ∷ 23 ∷ 6 ∷ 26 ∷ 5 ∷ 4 ∷ 31 ∷ []

pub log2_32 : ℕ → ℕ
log2_32 value = get_or log2_tab32 (u32 (smear value * 0x07c4acdd) / 2 ^ 27) 0

pub is_power_of_2 : ℕ → Bool
is_power_of_2 val = ltb 0 val && bit_and val (val - 1) == 0

-- `-align` is a uint32_t, and widened with zeros.
pub align_down : (val align : ℕ) → ℕ
align_down val align = bit_and val (u32 (2 ^ 32 - align))

pub align_up : (val align : ℕ) → ℕ
align_up val align = bit_and ((val + (align - 1)) % 2 ^ 64) (u32 (2 ^ 32 - align))

pub round_up : (val multiple : ℕ) → ℕ
round_up val multiple =
    if multiple == 0
    then val
    else if val % multiple == 0
    then val
    else (val + multiple - val % multiple) % 2 ^ 64

unfoldable pub next_power_of_2 : ℕ → ℕ
next_power_of_2 x = if x == 0 then 0 else u32 (smear (x - 1) + 1)

pub previous_power_of_2 : ℕ → ℕ
previous_power_of_2 x = smear x - smear x / 2

pub closest_power_of_2 : ℕ → ℕ
closest_power_of_2 x =
    let nx = next_power_of_2 x in
    let px = previous_power_of_2 x in
    if ltb (u32 (x + 2 ^ 32 - px)) (u32 (nx + 2 ^ 32 - x)) then px else nx
