-- ===== src/Memory/Buddy/Blocks/Flips.antt =====
-- How a tree changes at one block, with the list of its level and the bit of its parent.
use native.Mathlib.Nat.{pow-suc, one-le-pow, pow-le-pow_right}
use mathlib.Core.Path.{subst}
use tcengine.Base.{
  ℕ, suc, ◌+◌, ◌-◌, ◌*◌, ◌/◌, ◌%◌, ◌^◌, ◌≤◌, ◌<◌, ◌≡◌, ◌≢◌, ◌⊎◌, inl, inr, refl, sym, ap, ◌∙◌,
  arith, ℕ_discrete, dec_lt,
}
use tcengine.Base.{Bool, not, Bool-cases, List, ◌==◌, ==_self, ==_false, if◌then◌else◌, update}
use tcengine.Memory.Buddy.Blocks.{Blocks, bit_toggle, with_free}
use tcengine.Memory.Buddy.Blocks.Tree.{
  Status, absent, free, split, used, is_free, differ, count, AreBlocks, AreParts, Fits,
}

pub halves : (l q : ℕ) → 2 ^ suc l + 2 * q ≡ 2 * (2 ^ l + q)
halves l q = omega (arith, pow-suc 2 l)

-- A block of level `suc l` in its parent.
pub half_of : (l q : ℕ) → (2 ^ suc l + q) / 2 ≡ 2 ^ l + q / 2
half_of l q = omega (arith, pow-suc 2 l)

is_free-update :
    (st : ℕ → Status) (n m : ℕ) (x : Status)
    → is_free (update st n x m) ≡ (if n == m then is_free x else is_free (st m))
is_free-update st n m x = elim (Bool-cases (n == m)) [ inl e ↦ rw e refl | inr e ↦ rw e refl ]

-- A block changes between free and not free, and the bit of its parent goes over.
flip_lem :
    (f : ℕ → Bool) (st : ℕ → Status) (b n : ℕ) (x : Status)
    → 0 < n
    → 2 ≤ b
    → f (n - 1) ≡ differ (is_free (st (2 * n))) (is_free (st (2 * n + 1)))
    → is_free x ≡ not (is_free (st b))
    → update f (b / 2 - 1) (not (f (b / 2 - 1))) (n - 1)
      ≡ differ (is_free (update st b x (2 * n))) (is_free (update st b x (2 * n + 1)))
flip_lem f st b n x pos two h e =
    rw (is_free-update st b (2 * n) x, is_free-update st b (2 * n + 1) x) (ground arith)

-- A block stays free or not free.
still_lem :
    (st : ℕ → Status) (b n : ℕ) (x : Status)
    → is_free x ≡ is_free (st b)
    → is_free (update st b x n) ≡ is_free (st n)
still_lem st b n x e = elim (ℕ_discrete b n) [
  | yes t ↦ is_free-update st b n x ∙ ground (arith, t)
  | no t ↦ is_free-update st b n x ∙ ground (arith, t)
]

pub update_self : {A : Type 0} (st : ℕ → A) (n : ℕ) (x : A) → update st n x n ≡ x
update_self st n x = rw (==_self n) refl

pub update_ne : {A : Type 0} (st : ℕ → A) (n m : ℕ) (x : A) → m ≢ n → update st n x m ≡ st m
update_ne st n m x h = rw (==_false n m (λ e. h (sym e))) refl

pub AreParts-update :
    (st : ℕ → Status) (b : ℕ) (x : Status)
    → AreParts st
    → 0 < b
    → (x ≢ split → (st (2 * b) ≡ absent) × (st (2 * b + 1) ≡ absent))
    → (2 ≤ b → (st (b / 2) ≡ split) ⊎ (x ≡ absent))
    → AreParts (update st b x)
unfolding AreParts
AreParts-update st b x parts two own above n pos h = elim (ℕ_discrete n b) [
  | yes e ↦
      let halves = own (λ t. h (ap (update st b x) e ∙ update_self st b x ∙ t)) in
      (
        update_ne st b (2 * n) x (λ t. omega (arith, t, e, two))
            ∙ ap (λ k. st (2 * k)) e
            ∙ halves.0,
        update_ne st b (2 * n + 1) x (λ t. omega (arith, t, e, two))
            ∙ ap (λ k. st (2 * k + 1)) e
            ∙ halves.1,
      )
  | no e ↦
      let here : st n ≢ split = λ t. h (update_ne st b n x e ∙ t) in
      let halves = parts n pos here in
      let half : (m : ℕ) → m / 2 ≡ n → st m ≡ absent → update st b x m ≡ absent = λ m t gone.
        elim (ℕ_discrete m b) [
          | yes same ↦
              ap (update st b x) same
              ∙ update_self st b x
              ∙ elim (above (omega (arith, t, same, pos))) [
                | inl is_split ↦
                    absurd (here (ap st (sym t ∙ ap (λ (k : ℕ). k / 2) same) ∙ is_split))
                | inr e' ↦ e'
              ]
          | no other ↦ update_ne st b m x other ∙ gone
        ] in
      (half (2 * n) (omega arith) halves.0, half (2 * n + 1) (omega arith) halves.1)
]

levels_differ : (l m q r : ℕ) → l < m → q < 2 ^ suc l → 2 ^ suc l + q ≢ 2 ^ suc m + r
levels_differ l m q r lower h e = omega (
  arith,
  e,
  pow-suc 2 (suc l),
  pow-le-pow_right {n = 2} (omega arith) {i = suc (suc l)} {j = suc m} (omega arith),
)

levels_apart :
    (l m q r : ℕ)
    → q < 2 ^ suc l
    → r < 2 ^ suc m
    → 2 ^ suc l + q ≡ 2 ^ suc m + r
    → (l ≡ m) × (q ≡ r)
levels_apart l m q r h k e = elim (dec_lt l m) [
  | yes lower ↦ absurd (levels_differ l m q r lower h e)
  | no a ↦ elim (dec_lt m l) [
    | yes higher ↦ absurd (levels_differ m l r q higher k (sym e))
    | no b ↦
        let same : l ≡ m = omega (arith, a, b) in
        (same, omega (arith, e, ap (λ (t : ℕ). 2 ^ suc t) same))
  ]
]

-- What Fits says, for a tree and a state that agree on what is free.
pub still-Fits :
    (c : ℕ) (st : ℕ → Status) (s : Blocks) (b : ℕ) (x : Status)
    → Fits c st s
    → is_free x ≡ is_free (st b)
    → AreParts (update st b x)
    → Fits c (update st b x) s
unfolding AreParts
still-Fits c st s b x fits e parts = record {
  lists = λ l q below inside.
      fits.lists l q below inside
      ∙ ap (λ t. if t then 1 else 0) (sym (still_lem st b (2 ^ suc l + q) x e));
  blocks = fits.blocks;
  bits = λ n pos.
      fits.bits n pos ∙ sym (rw (still_lem st b (2 * n) x e, still_lem st b (2 * n + 1) x e) refl);
  parts = parts;
}

module _ (c : ℕ) (st : ℕ → Status) (s : Blocks) (l q : ℕ) (fits : Fits c st s) (below : suc l ≤ c)
    (inside : q < 2 ^ suc l) where
  -- The list of level `suc l` changes at one block, which becomes free or is no longer free.
  pub flip-Fits :
      (x : Status) (ys : List ℕ)
      → is_free x ≡ not (is_free (st (2 ^ suc l + q)))
      → AreParts (update st (2 ^ suc l + q) x)
      → AreBlocks c l ys
      → count (q * 2 ^ (c - suc l)) ys ≡ (if is_free x then 1 else 0)
      → ((r : ℕ)
          → r < 2 ^ suc l
          → r ≢ q
          → count (r * 2 ^ (c - suc l)) ys ≡ count (r * 2 ^ (c - suc l)) (s.free (suc l)))
      → Fits c
          (update st (2 ^ suc l + q) x)
          (bit_toggle (2 ^ l + q / 2 - 1) (with_free (suc l) ys s))
  unfolding bit_toggle AreParts
  flip-Fits x ys e parts ys-blocks here others =
      let b : ℕ = 2 ^ suc l + q in
      let bit : Status → ℕ = λ t. if is_free t then 1 else 0 in
      let Counts : ℕ → ℕ → Type 0 = λ m r.
        count (r * 2 ^ (c - suc m)) (update s.free (suc l) ys (suc m))
        ≡ bit (update st b x (2 ^ suc m + r)) in
      let own : count (q * 2 ^ (c - suc l)) (update s.free (suc l) ys (suc l))
          ≡ bit (update st b x b) =
        ap (count (q * 2 ^ (c - suc l))) (update_self s.free (suc l) ys)
        ∙ here
        ∙ ap bit (sym (update_self st b x)) in
      let same_level : (r : ℕ) → r < 2 ^ suc l → Counts l r = λ r small. elim (ℕ_discrete r q) [
        | yes block ↦ subst (Counts l) (sym block) own
        | no other ↦
            ap (count (r * 2 ^ (c - suc l))) (update_self s.free (suc l) ys)
            ∙ others r small other
            ∙ fits.lists l r below small
            ∙ ap bit (sym (update_ne st b (2 ^ suc l + r) x (λ t. other (omega (arith, t)))))
      ] in
      record {
        lists = λ m r deep small. elim (ℕ_discrete l m) [
          | yes level ↦ subst (λ k. r < 2 ^ suc k → Counts k r) level (same_level r) small
          | no level ↦
              ap (count (r * 2 ^ (c - suc m)))
                (update_ne s.free (suc l) (suc m) ys (λ t. level (omega (arith, t))))
              ∙ fits.lists m r deep small
              ∙ ap bit (
                  sym (
                    update_ne st b (2 ^ suc m + r) x
                      (λ t. level (sym (levels_apart m l r q small inside t).0))))
        ];
        blocks = λ m deep. elim (ℕ_discrete l m) [
          | yes level ↦
              subst (λ k. AreBlocks c k (update s.free (suc l) ys (suc k))) level
                (subst (AreBlocks c l) (sym (update_self s.free (suc l) ys)) ys-blocks)
          | no level ↦
              subst (AreBlocks c m)
                (sym (update_ne s.free (suc l) (suc m) ys (λ t. level (omega (arith, t)))))
                (fits.blocks m deep)
        ];
        bits = λ n pos.
            ap (λ (i : ℕ). update s.bits i (not (s.bits i)) (n - 1))
              (ap (λ (t : ℕ). t - 1) (sym (half_of l q)))
            ∙ flip_lem s.bits st b n x pos (omega (arith, pow-suc 2 l, one-le-pow l 2))
                (fits.bits n pos) e;
        parts = parts;
      }

is_split : (x : Status) → (x ≡ split) ⊎ (x ≢ split)
is_split absent = inr (λ e. cc (e))
is_split free = inr (λ e. cc (e))
is_split split = inl refl
is_split used = inr (λ e. cc (e))

-- What a part of the tree that is there stands in is split.
pub above_split :
    (st : ℕ → Status) (b : ℕ) → AreParts st → 2 ≤ b → st b ≢ absent → st (b / 2) ≡ split
unfolding AreParts
above_split st b parts two here = elim (is_split (st (b / 2))) [
  | inl e ↦ e
  | inr n ↦
      let (left, right) = parts (b / 2) (omega arith) n in
      elim (ℕ_discrete (b % 2) 0) [
        | yes even ↦ absurd (here (ap st (omega (arith, even)) ∙ left))
        | no odd ↦ absurd (here (ap st (omega (arith, odd)) ∙ right))
      ]
]
