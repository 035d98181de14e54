-- ===== src/Memory/Buddy/Blocks/Toggles.antt =====
-- Bits that stand above a level play no part in what is freed there.
use native.Mathlib.Nat.{pow-suc, one-le-pow}
use mathlib.Core.Path.{fun_ext}
use tcengine.Base.{
  ℕ, zero, suc, ◌+◌, ◌-◌, ◌*◌, ◌/◌, ◌%◌, ◌^◌, ◌≤◌, ◌<◌, ◌≡◌, ◌≢◌, inl, inr, refl, sym, ap, ◌∙◌,
  arith, min, ℕ_discrete,
}
use tcengine.Base.{
  Bool, true, false, not, Bool-cases, List, [], ◌∷◌, ◌++◌, ◌==◌, ==_self, if◌then◌else◌, if-true,
  if-false, update,
}
use tcengine.Memory.Buddy.{Buddy, block_index, buddy_offset}
use tcengine.Memory.Buddy.Pairs.{buddy_of, buddy_offset-block, next_block, previous_block}
use tcengine.Memory.Buddy.Blocks.{Blocks, bit_toggle, with_free, list_remove, buddy_free_block}
use tcengine.Memory.Buddy.Blocks.Tree.{differ, count, count-list_remove}
use tcengine.Memory.Buddy.Blocks.Flips.{update_ne}
use tcengine.Memory.Buddy.Blocks.Halves.{parent_index, twice}

toggle_twice :
    (i j : ℕ) (s : Blocks) → i ≢ j → bit_toggle i (bit_toggle j s) ≡ bit_toggle j (bit_toggle i s)
unfolding bit_toggle
toggle_twice i j s h = ap (λ f. record s { bits = f }) (fun_ext (λ n. ground arith))

pub buddy_of-even : (q : ℕ) → q % 2 ≡ 0 → buddy_of q ≡ q + 1
unfolding buddy_of
buddy_of-even q h = ground arith

pub buddy_of-odd : (q : ℕ) → q % 2 ≢ 0 → buddy_of q ≡ q - 1
unfolding buddy_of
buddy_of-odd q h = ground arith

pub differ_right : (a : Bool) → differ a false ≡ a
differ_right true = refl
differ_right false = refl

pub none_left : (k : ℕ) (xs : List ℕ) → count k xs ≡ 1 → count k (list_remove k xs) ≡ 0
none_left k xs h = omega (
  arith,
  h,
  count-list_remove k k xs,
  ap {B = ℕ} (λ t. if t then min 1 (count k xs) else 0) (==_self k),
)

pub others_left :
    (k y : ℕ) (xs : List ℕ) → (k == y) ≡ false → count y (list_remove k xs) ≡ count y xs
others_left k y xs h =
    omega (arith, count-list_remove k y xs, ap {B = ℕ} (λ t. if t then min 1 (count k xs) else 0) h)

halved : (q : ℕ) → q % 2 ≡ 0 → 2 * (q / 2) ≡ q
halved q h = omega arith

halved_odd : (q : ℕ) → q % 2 ≢ 0 → 2 * (q / 2) ≡ q - 1
halved_odd q h = omega arith

module _ (c : ℕ) (ba : Buddy) (power : ba.cap ≡ 2 ^ c) (small : c ≤ 31) where
  -- Where two buddies start together.
  pub merged_at :
      (l q : ℕ)
      → suc l ≤ c
      → q < 2 ^ suc l
      → min (q * 2 ^ (c - suc l)) (buddy_offset ba (q * 2 ^ (c - suc l)) (suc l))
        ≡ q / 2 * 2 ^ (c - l)
  merged_at l q below inside =
      let s : ℕ = 2 ^ (c - suc l) in
      let half = twice c ba power small l (q / 2) below in
      ap (min (q * s)) (buddy_offset-block c ba power small l q below inside)
      ∙ elim (ℕ_discrete (q % 2) 0) [
        | yes even ↦ omega (
          arith,
          half,
          next_block q s,
          ap (λ (t : ℕ). t * s) (buddy_of-even q even),
          ap (λ (t : ℕ). t * s) (halved q even),
        )
        | no odd ↦ omega (
          arith,
          half,
          previous_block q s (omega (arith, odd)),
          ap (λ (t : ℕ). t * s) (buddy_of-odd q odd),
          ap (λ (t : ℕ). t * s) (halved_odd q odd),
        )
      ]

  -- A bit that stands above level `l` plays no part in what is freed there.
  pub free-toggle :
      (l q i : ℕ) (s : Blocks)
      → l ≤ c
      → q < 2 ^ l
      → 2 ^ l - 1 ≤ i
      → buddy_free_block ba (q * 2 ^ (c - l)) l (bit_toggle i s)
        ≡ bit_toggle i (buddy_free_block ba (q * 2 ^ (c - l)) l s)
  unfolding buddy_free_block bit_toggle
  free-toggle zero q i s below inside high = refl
  free-toggle (suc l) q i s below inside high =
      let x : ℕ = q * 2 ^ (c - suc l) in
      let index : ℕ = block_index ba x l in
      let low : index < 2 ^ suc l - 1 =
        omega
          (arith, parent_index c ba power small l q below inside, pow-suc 2 l, one-le-pow l 2) in
      let buddy : ℕ = buddy_offset ba x (suc l) in
      let rest : Blocks = with_free (suc l) (list_remove buddy (s.free (suc l))) s in
      let alone : Blocks = with_free (suc l) (s.free (suc l) ++ (x ∷ [])) s in
      let merged : Blocks → Blocks = buddy_free_block ba (min x buddy) l in
      let at = merged_at l q below inside in
      let same_bit : update s.bits i (not (s.bits i)) index ≡ s.bits index =
        update_ne s.bits i index (not (s.bits i)) (λ t. omega (arith, t, low, high)) in
      let later : merged (bit_toggle i rest) ≡ bit_toggle i (merged rest) =
        ap (λ k. buddy_free_block ba k l (bit_toggle i rest)) at
        ∙ free-toggle l (q / 2) i rest (omega arith) (omega (arith, pow-suc 2 l))
            (omega (arith, high, pow-suc 2 l))
        ∙ ap (λ k. bit_toggle i (buddy_free_block ba k l rest)) (sym at) in
      let inner : (if update s.bits i (not (s.bits i)) index
            then merged (bit_toggle i rest)
            else bit_toggle i alone)
          ≡ bit_toggle i (if s.bits index then merged rest else alone) =
        elim (Bool-cases (s.bits index)) [
          | inl e ↦
              if-true (merged (bit_toggle i rest)) (bit_toggle i alone) (same_bit ∙ e)
              ∙ later
              ∙ ap (bit_toggle i) (sym (if-true (merged rest) alone e))
          | inr e ↦
              if-false (merged (bit_toggle i rest)) (bit_toggle i alone) (same_bit ∙ e)
              ∙ ap (bit_toggle i) (sym (if-false (merged rest) alone e))
        ] in
      ap (bit_toggle index) inner
      ∙ toggle_twice index i (if s.bits index then merged rest else alone)
          (λ t. omega (arith, t, low, high))
