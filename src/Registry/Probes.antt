-- ===== src/Registry/Probes.antt =====
-- The runs of the loop of _get_module.
use tcengine.Base.{ℕ, zero, suc, ◌+◌, ◌≡◌, ◌≢◌, ◌⊎◌, inl, inr, arith, ℕ_discrete}
use tcengine.Base.{true, false, Bool-cases, Option, none, some, List, take, bit_and, update}
use tcengine.Registry.{Module, State, u32, strncmp_equal, reserve, probe}

abbrev pub following : ℕ → ℕ
following idx = bit_and (idx + 1) 31

probe-hit :
    (n hash : ℕ) (name : List ℕ) (idx : ℕ) (s : State)
    → u32 (s idx).hash ≡ hash
    → strncmp_equal (take 32 (s idx).name) name ≡ true
    → probe (suc n) hash name idx s ≡ (s, some idx)
unfolding probe
probe-hit n hash name idx s h e = ground arith

probe-collision :
    (n hash : ℕ) (name : List ℕ) (idx : ℕ) (s : State)
    → u32 (s idx).hash ≡ hash
    → strncmp_equal (take 32 (s idx).name) name ≡ false
    → probe (suc n) hash name idx s ≡ probe n hash name (following idx) s
unfolding probe
probe-collision n hash name idx s h e = ground arith

probe-reserve :
    (n hash : ℕ) (name : List ℕ) (idx : ℕ) (s : State)
    → u32 (s idx).hash ≢ hash
    → u32 (s idx).hash ≡ 0
    → probe (suc n) hash name idx s ≡ (update s idx (reserve (s idx) hash name), some idx)
unfolding probe
probe-reserve n hash name idx s h e = ground arith

probe-other :
    (n hash : ℕ) (name : List ℕ) (idx : ℕ) (s : State)
    → u32 (s idx).hash ≢ hash
    → u32 (s idx).hash ≢ 0
    → probe (suc n) hash name idx s ≡ probe n hash name (following idx) s
unfolding probe
probe-other n hash name idx s h e = ground arith

-- A slot that the loop steps over.
unfoldable pub Passes : (hash : ℕ) (name : List ℕ) → Module → Type 0
Passes hash name m =
    ((u32 m.hash ≡ hash) × (strncmp_equal (take 32 m.name) name ≡ false))
    ⊎ ((u32 m.hash ≢ hash) × (u32 m.hash ≢ 0))

unfoldable pub Matches : (hash : ℕ) (name : List ℕ) → Module → Type 0
Matches hash name m = (u32 m.hash ≡ hash) × (strncmp_equal (take 32 m.name) name ≡ true)

-- The runs of the loop.
pub data Probed (hash : ℕ) (name : List ℕ)
    : (rounds idx : ℕ) → State → State → Option ℕ → Type 0 where
  nowhere : {idx : ℕ} {s : State} → Probed hash name 0 idx s s none
  hit :
      {n idx : ℕ} {s : State}
      → Matches hash name (s idx)
      → Probed hash name (suc n) idx s s (some idx)
  fresh :
      {n idx : ℕ} {s : State}
      → u32 (s idx).hash ≢ hash
      → u32 (s idx).hash ≡ 0
      → Probed hash name (suc n) idx s (update s idx (reserve (s idx) hash name)) (some idx)
  past :
      {n idx : ℕ} {s t : State} {o : Option ℕ}
      → Passes hash name (s idx)
      → Probed hash name n (following idx) s t o
      → Probed hash name (suc n) idx s t o

pub Probed-probe :
    (n hash : ℕ) (name : List ℕ) (idx : ℕ) (s : State)
    → Probed hash name n idx s (probe n hash name idx s).0 (probe n hash name idx s).1
unfolding probe Passes Matches
Probed-probe zero hash name idx s = nowhere
Probed-probe (suc n) hash name idx s = elim (ℕ_discrete (u32 (s idx).hash) hash) [
  | yes e ↦ elim (Bool-cases (strncmp_equal (take 32 (s idx).name) name)) [
    | inl b ↦ rw (probe-hit n hash name idx s e b) (hit (e, b))
    | inr b ↦
        rw (probe-collision n hash name idx s e b)
          (past (inl (e, b)) (Probed-probe n hash name (following idx) s))
  ]
  | no d ↦ elim (ℕ_discrete (u32 (s idx).hash) 0) [
    | yes z ↦ rw (probe-reserve n hash name idx s d z) (fresh d z)
    | no u ↦
        rw (probe-other n hash name idx s d u)
          (past (inr (d, u)) (Probed-probe n hash name (following idx) s))
  ]
]
