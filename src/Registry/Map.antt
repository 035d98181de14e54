-- ===== src/Registry/Map.antt =====
-- What becomes of names whose hashes do not fit 32 bits.
use mathlib.Core.Path.{subst}
use tcengine.Base.{ℕ, ◌≤◌, ◌≡◌, ◌≢◌, sym, ap, ◌∙◌, arith}
use tcengine.Base.{Option, none, some, List, bit_and, take, ◌^◌, update}
use tcengine.Registry.{Module, State, u32, get_module, probe, reserve}
use tcengine.Registry.Probes.{Matches, Probed, nowhere, hit, fresh, past, Probed-probe}

update_self : (s : State) (i : ℕ) (m : Module) → update s i m i ≡ m
update_self s i m = ground arith

FreshAt : ℕ → State → State → Option ℕ → Type 0
FreshAt hash s t none = Unit
FreshAt hash s t (some i) = (u32 (s i).hash ≡ 0) × ((t i).hash ≡ hash)

-- A hash above 32 bits matches no slot.
probe-FreshAt :
    {hash : ℕ} {name : List ℕ} {n idx : ℕ} {s t : State} {o : Option ℕ}
    → Probed hash name n idx s t o
    → 2 ^ 32 ≤ hash
    → FreshAt hash s t o
unfolding FreshAt Matches
probe-FreshAt nowhere long = tt
probe-FreshAt (hit (h, _)) long = absurd (omega arith)
probe-FreshAt {hash = hash} {name = name} {idx = idx} {s = s} (fresh d z) long =
    (z, ap (λ m. m.hash) (update_self s idx (reserve (s idx) hash name)))
probe-FreshAt (past p r) long = probe-FreshAt r long

found-FreshAt :
    (rounds hash : ℕ) (name : List ℕ) (idx : ℕ) (s t : State) (i : ℕ)
    → probe rounds hash name idx s ≡ (t, some i)
    → 2 ^ 32 ≤ hash
    → (u32 (s i).hash ≡ 0) × ((t i).hash ≡ hash)
unfolding FreshAt
found-FreshAt rounds hash name idx s t i h long =
    subst (λ (r : State × Option ℕ). FreshAt hash s r.0 r.1) h
      (probe-FreshAt (Probed-probe rounds hash name idx s) long)

module _ (stbds_hash_bytes : List ℕ → ℕ) where
  -- A name whose hash does not fit 32 bits, the low ones not all zero, is never found again: the
  -- next call for it takes another slot.
  pub get_module-get_module :
      (name : List ℕ) (s t u : State) (i j : ℕ)
      → 2 ^ 32 ≤ stbds_hash_bytes (take 32 name)
      → u32 (stbds_hash_bytes (take 32 name)) ≢ 0
      → get_module stbds_hash_bytes name s ≡ (t, some i)
      → get_module stbds_hash_bytes name t ≡ (u, some j)
      → i ≢ j
  get_module-get_module name s t u i j long low first second same =
      let hash = stbds_hash_bytes (take 32 name) in
      let key = take 32 name in
      let (_, taken) = found-FreshAt 32 hash key (bit_and hash 31) s t i first long in
      let (free, _) = found-FreshAt 32 hash key (bit_and hash 31) t u j second long in
      low (sym (ap u32 taken) ∙ ap (λ k. u32 (t k).hash) same ∙ free)
