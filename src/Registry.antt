-- ===== src/Registry.antt =====
-- The registry of modules (src/module.c): 32 slots found by the hash of a name, which may be 64 bits
-- wide, though the table entry is read into 32 bits. _get_module returns the address of its local
-- variable that points to a slot; here it is the slot's number. A name is its bytes without the
-- terminator, and 32 of them count. TC_ASSERT stops: `none`; the one that a slot without a hash has
-- no name is left out.
mod Probes
pub mod Map
pub mod Implementations
mod Tests
use tcengine.Base.{
  ℕ, zero, suc, ◌+◌, ◌-◌, ◌*◌, ◌/◌, ◌%◌, ◌^◌, bit_and, Bool, true, false, ◌&&◌, Option, none, some,
}
use tcengine.Base.{
  List, [], ◌∷◌, ◌++◌, ◌==◌, ltb, leb, if◌then◌else◌, length, take, drop, set, get_or, replicate,
  update,
}

pub record Module : Type 0 where
  pub hash : ℕ
  pub name : List ℕ
  pub size : ℕ
  pub entries : List ℕ

abbrev pub State : Type 0
State = ℕ → Module

abbrev pub u32 : ℕ → ℕ
u32 n = n % 2 ^ 32

abbrev pub strncmp_equal : List ℕ → List ℕ → Bool
strncmp_equal [] [] = true
strncmp_equal [] (c ∷ t) = false
strncmp_equal (b ∷ s) [] = false
strncmp_equal (b ∷ s) (c ∷ t) = b == c && strncmp_equal s t

-- `strncpy(mod->name, name, len)`: the bytes behind the `len` ones stay.
abbrev pub reserve : Module → (hash : ℕ) (name : List ℕ) → Module
reserve m hash name = record m { hash = hash; name = name ++ drop (length name) m.name }

-- The loop of _get_module, with the first `len` bytes of the name and the rounds that are left.
pub probe : (rounds hash : ℕ) (name : List ℕ) (idx : ℕ) → State → State × Option ℕ
probe zero hash name idx s = (s, none)
probe (suc n) hash name idx s =
    let rest = probe n hash name (bit_and (idx + 1) 31) s in
    let h = u32 (s idx).hash in
    if h == hash
    then if strncmp_equal (take 32 (s idx).name) name then (s, some idx) else rest
    else if h == 0
    then (update s idx (reserve (s idx) hash name), some idx)
    else rest

abbrev pub registry_init : State
registry_init _ = record { hash = 0; name = []; size = 0; entries = replicate 8 0 }

-- memcpy of whole pointers over the first entries.
abbrev pub copy : (source target : List ℕ) → List ℕ
copy [] target = target
copy (w ∷ source) [] = []
copy (w ∷ source) (_ ∷ target) = w ∷ copy source target

-- What the functions do to the module that _get_module found.
abbrev pub set_module : (items : List ℕ) → Module → Option Module
set_module items m =
    if leb (8 * length items) 64
    then some (record m { size = 8 * length items; entries = copy items m.entries })
    else none

abbrev pub remove_module : Module → Module
remove_module m = record m { entries = replicate 8 0 }

pub add_implementation : (item : ℕ) → Module → Option Module
add_implementation item m =
    if ltb m.size 8
    then some (record m { entries = set m.entries m.size item; size = m.size + 1 })
    else none

-- The loop of remove_implementation, from index `i` with `n` entries to come.
pub remove_from : (n i item : ℕ) → Module → Option Module
remove_from zero i item m = none
remove_from (suc n) i item m =
    let rest = remove_from n (suc i) item m in
    if get_or m.entries i 0 == item
    then some (record m {
      entries = set m.entries i (get_or m.entries (m.size - 1) 0);
      size = m.size - 1;
    })
    else rest

pub remove_implementation : (item : ℕ) → Module → Option Module
remove_implementation item m = remove_from m.size 0 item m

module _ (stbds_hash_bytes : List ℕ → ℕ) where
  abbrev pub get_module : (name : List ℕ) → State → State × Option ℕ
  get_module name s =
      let key = take 32 name in
      let hash = stbds_hash_bytes key in probe 32 hash key (bit_and hash 31) s
