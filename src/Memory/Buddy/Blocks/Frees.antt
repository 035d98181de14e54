-- ===== src/Memory/Buddy/Blocks/Frees.antt =====
-- buddy_free_block, through all levels.
use native.Mathlib.Nat.{pow-suc, one-le-pow}
use mathlib.Core.Path.{subst}
use tcengine.Base.{
  ℕ, zero, suc, ◌+◌, ◌-◌, ◌*◌, ◌/◌, ◌^◌, ◌≤◌, ◌<◌, ◌≡◌, ◌≢◌, inl, inr, refl, sym, ap, ◌∙◌, arith,
  min, ℕ_discrete,
}
use tcengine.Base.{Bool-cases, [], ◌∷◌, ◌++◌, if◌then◌else◌, if-true, if-false, update}
use tcengine.Memory.Buddy.{Buddy, block_index, buddy_offset}
use tcengine.Memory.Buddy.Pairs.{buddy_of, buddy_of-ne, buddy_offset-block}
use tcengine.Memory.Buddy.Blocks.{Blocks, bit_toggle, with_free, list_remove, buddy_free_block}
use tcengine.Memory.Buddy.Blocks.Tree.{
  Status, absent, split, used, is_free, is_used, Fits, AreParts,
}
use tcengine.Memory.Buddy.Blocks.Flips.{
  AreParts-update, update_self, update_ne, half_of, still-Fits, above_split,
}
use tcengine.Memory.Buddy.Blocks.Halves.{one_free, parent_index}
use tcengine.Memory.Buddy.Blocks.Toggles.{merged_at, free-toggle}
use tcengine.Memory.Buddy.Blocks.Merges.{Frees, bit_of_used, return-Frees, merge-Fits}

module _ (c : ℕ) (ba : Buddy) (power : ba.cap ≡ 2 ^ c) (small : c ≤ 31) where
  pub buddy_free_block-Frees :
      (l q : ℕ) (st : ℕ → Status) (s : Blocks)
      → l ≤ c
      → q < 2 ^ l
      → Fits c st s
      → st (2 ^ l + q) ≡ used
      → Frees c (2 ^ l + q) st (buddy_free_block ba (q * 2 ^ (c - l)) l s)
  unfolding buddy_free_block AreParts
  buddy_free_block-Frees zero q st s below inside fits is =
      let b : ℕ = 2 ^ zero + q in
      (
        update st b absent,
        still-Fits c st s b absent fits (sym (ap is_free is)) (
            AreParts-update st b absent fits.parts (omega arith)
              (λ n. fits.parts b (omega arith) (λ t. cc (t, is))) (λ u. inr refl)),
        ap is_used (update_self st b absent),
        λ m h. ap is_used (update_ne st b m absent h),
      )
  buddy_free_block-Frees (suc l) q st s below inside fits is =
      let b : ℕ = 2 ^ suc l + q in
      let d : ℕ = 2 ^ suc l + buddy_of q in
      let p : ℕ = 2 ^ l + q / 2 in
      let x : ℕ = q * 2 ^ (c - suc l) in
      let k : ℕ = buddy_of q * 2 ^ (c - suc l) in
      let i : ℕ = 2 ^ l + q / 2 - 1 in
      let index : block_index ba x l ≡ i = parent_index c ba power small l q below inside in
      let buddy : buddy_offset ba x (suc l) ≡ k =
        buddy_offset-block c ba power small l q below inside in
      let at = merged_at c ba power small l q below inside in
      let bit = bit_of_used c ba power small st s l q fits (ap is_free is) in
      let rest : Blocks = with_free (suc l) (list_remove k (s.free (suc l))) s in
      let alone : Blocks = with_free (suc l) (s.free (suc l) ++ (x ∷ [])) s in
      let merged : Blocks =
        buddy_free_block ba (min x (buddy_offset ba x (suc l))) l
          (with_free (suc l) (list_remove (buddy_offset ba x (suc l)) (s.free (suc l))) s) in
      let run : buddy_free_block ba x (suc l) s
          ≡ bit_toggle i (if s.bits i then merged else alone) =
        ap (λ j. bit_toggle j (if s.bits j then merged else alone)) index in
      elim (Bool-cases (is_free (st d))) [
        | inl e ↦
            let st1 = update st b absent in
            let st2 = update st1 d absent in
            let st3 = update st2 p used in
            let fits3 = merge-Fits c ba power small st s l q below inside fits is e in
            let (after, fits', gone, same) =
              buddy_free_block-Frees l (q / 2) st3 (bit_toggle i rest) (omega arith)
                (omega (arith, pow-suc 2 l)) fits3 (update_self st2 p used) in
            let later : merged ≡ buddy_free_block ba (q / 2 * 2 ^ (c - l)) l rest =
              ap
                (λ n.
                  buddy_free_block ba n l (
                    with_free (suc l) (list_remove (buddy_offset ba x (suc l)) (s.free (suc l))) s))
                at
              ∙ ap
                  (λ t.
                    buddy_free_block ba (q / 2 * 2 ^ (c - l)) l
                      (with_free (suc l) (list_remove t (s.free (suc l))) s))
                  buddy in
            let result : buddy_free_block ba x (suc l) s
                ≡ buddy_free_block ba (q / 2 * 2 ^ (c - l)) l (bit_toggle i rest) =
              run
              ∙ ap (bit_toggle i) (if-true merged alone (bit ∙ e) ∙ later)
              ∙ sym (
                  free-toggle c ba power small l (q / 2) i rest (omega arith)
                    (omega (arith, pow-suc 2 l)) (omega arith)) in
            let big : 2 ≤ b = omega (arith, pow-suc 2 l, one-le-pow l 2) in
            let is_p : st p ≡ split =
              ap st (sym (half_of l q)) ∙ above_split st b fits.parts big (λ t. cc (t, is)) in
            let b_p : b ≢ p = λ t. omega (arith, t, pow-suc 2 l, one-le-pow l 2) in
            let d_p : d ≢ p = λ t. omega (arith, t, pow-suc 2 l, one-le-pow l 2) in
            let b_d : b ≢ d = λ t. buddy_of-ne q (omega (arith, t)) in
            (
              after,
              subst (Fits c after) (sym result) fits',
              same b b_p
                  ∙ ap is_used (
                      update_ne st2 p b used b_p
                      ∙ update_ne st1 d b absent b_d
                      ∙ update_self st b absent),
              λ m h. elim (ℕ_discrete m p) [
                | yes t ↦
                    ap (λ n. is_used (after n)) t
                    ∙ gone
                    ∙ sym (ap (λ n. is_used (st n)) t ∙ ap is_used is_p)
                | no m_p ↦ elim (ℕ_discrete m d) [
                  | yes t ↦
                      ap (λ n. is_used (after n)) t
                      ∙ same d d_p
                      ∙ ap is_used (update_ne st2 p d used d_p ∙ update_self st1 d absent)
                      ∙ sym (ap (λ n. is_used (st n)) t ∙ ap is_used (one_free (st d) e))
                  | no m_d ↦
                      same m m_p
                      ∙ ap is_used (
                          update_ne st2 p m used m_p
                          ∙ update_ne st1 d m absent m_d
                          ∙ update_ne st b m absent h)
                ]
              ],
            )
        | inr e ↦
            subst (Frees c b st) (sym (run ∙ ap (bit_toggle i) (if-false merged alone (bit ∙ e))))
              (return-Frees c ba power small st s l q below inside fits is)
      ]
