-- ===== src/Memory/Buddy/Blocks/History.antt =====
-- Blocks taken and given back in any order do not overlap.
use native.Mathlib.Nat.{one-le-pow, pow-suc, pow-le-pow_right}
use mathlib.Core.Path.{subst}
use tcengine.Base.{
  ℕ, zero, suc, ◌+◌, ◌-◌, ◌*◌, ◌^◌, ◌≤◌, ◌<◌, ◌≡◌, ◌≢◌, inl, inr, refl, sym, ap, ◌∙◌, arith, dec_lt,
}
use tcengine.Base.{true, false, Option, none, some, List, [], ◌∷◌, get_elem?}
use tcengine.Memory.Buddy.{Buddy}
use tcengine.Memory.Buddy.Blocks.{Blocks, buddy_alloc_block, buddy_free_block}
use tcengine.Memory.Buddy.Blocks.Tree.{Status, used, is_used, AreParts}
use tcengine.Memory.Buddy.Blocks.Ranges.{Apart, Apart-sym, Apart-used}

-- What a user does with the blocks. The blocks of a user are offsets with their levels, the last one first.
pub data Op : Type 0 where
  take_block : (level : ℕ) → Op
  give_back : (i : ℕ) → Op

pub remove_at : List (ℕ × ℕ) → ℕ → List (ℕ × ℕ)
remove_at [] i = []
remove_at (o ∷ os) zero = os
remove_at (o ∷ os) (suc i) = o ∷ remove_at os i

unfoldable pub after_take : ℕ → Blocks × Option ℕ → List (ℕ × ℕ) → Blocks × List (ℕ × ℕ)
after_take level (s, none) os = (s, os)
after_take level (s, some x) os = (s, (x, level) ∷ os)

unfoldable pub after_give :
    Buddy → Option (ℕ × ℕ) → ℕ → Blocks → List (ℕ × ℕ) → Blocks × List (ℕ × ℕ)
after_give ba none i s os = (s, os)
after_give ba (some (x, level)) i s os = (buddy_free_block ba x level s, remove_at os i)

unfoldable pub run : Buddy → List Op → Blocks → List (ℕ × ℕ) → Blocks × List (ℕ × ℕ)
run ba [] s os = (s, os)
run ba (take_block level ∷ ops) s os =
    let (s', os') = after_take level (buddy_alloc_block ba level s) os in run ba ops s' os'
run ba (give_back i ∷ ops) s os =
    let (s', os') = after_give ba (get_elem? os i) i s os in run ba ops s' os'

unfoldable pub Levels : ℕ → List Op → Type 0
Levels c [] = Unit
Levels c (take_block level ∷ ops) = (level ≤ c) × Levels c ops
Levels c (give_back i ∷ ops) = Levels c ops

-- The object and all of a list are apart, in a buffer of 2^c bytes.
unfoldable pub IsApart : ℕ → ℕ × ℕ → List (ℕ × ℕ) → Type 0
IsApart c o [] = Unit
IsApart c o (u ∷ us) = Apart o.0 (2 ^ (c - o.1)) u.0 (2 ^ (c - u.1)) × IsApart c o us

unfoldable pub NoOverlap : ℕ → List (ℕ × ℕ) → Type 0
NoOverlap c [] = Unit
NoOverlap c (o ∷ os) = IsApart c o os × NoOverlap c os

-- The object is a used block of the tree.
abbrev pub IsHeld : ℕ → (ℕ → Status) → ℕ × ℕ → Type 0
IsHeld c st (x, level) =
    (q : ℕ) × (level ≤ c)
    × (q < 2 ^ level)
    × (x ≡ q * 2 ^ (c - level))
    × (st (2 ^ level + q) ≡ used)

abbrev pub AreHeld : ℕ → (ℕ → Status) → List (ℕ × ℕ) → Type 0
AreHeld c st [] = Unit
AreHeld c st (o ∷ os) = IsHeld c st o × AreHeld c st os

is_used-used : (x : Status) → is_used x ≡ true → x ≡ used
is_used-used Status.absent e = cc (e)
is_used-used Status.free e = cc (e)
is_used-used Status.split e = cc (e)
is_used-used used e = refl

-- The other blocks stay used.
stays_held :
    (c n : ℕ) (st after : ℕ → Status) (x level q : ℕ)
    → ((m : ℕ) → m ≢ n → is_used (after m) ≡ is_used (st m))
    → 2 ^ level + q ≢ n
    → st (2 ^ level + q) ≡ used
    → after (2 ^ level + q) ≡ used
stays_held c n st after x level q same other is =
    is_used-used (after (2 ^ level + q)) (same (2 ^ level + q) other ∙ ap is_used is)

-- A block that becomes used is apart from those that are.
pub new_block :
    (c level q : ℕ) (st after : ℕ → Status) (os : List (ℕ × ℕ))
    → level ≤ c
    → AreParts after
    → after (2 ^ level + q) ≡ used
    → is_used (st (2 ^ level + q)) ≡ false
    → ((m : ℕ) → m ≢ 2 ^ level + q → is_used (after m) ≡ is_used (st m))
    → AreHeld c st os
    → IsApart c (q * 2 ^ (c - level), level) os × AreHeld c after os
unfolding IsApart
new_block c level q st after [] below parts is was same held = (tt, tt)
new_block c level q st after ((x, m) ∷ os) below parts is was same
      ((r, mc, inside, at, is_r), held) =
    let other : 2 ^ m + r ≢ 2 ^ level + q = λ t. cc (is_r, was, t) in
    let now : after (2 ^ m + r) ≡ used =
      stays_held c (2 ^ level + q) st after x m r same other is_r in
    let (rest, held') = new_block c level q st after os below parts is was same held in
    (
      (
        subst (λ y. Apart (q * 2 ^ (c - level)) (2 ^ (c - level)) y (2 ^ (c - m))) (sym at)
            (Apart-used c after level m q r parts below mc is now (λ t. other (sym t))),
        rest,
      ),
      ((r, mc, inside, at, now), held'),
    )

upper_level : (l m q r : ℕ) → l < m → q < 2 ^ l → 2 ^ l + q ≢ 2 ^ m + r
upper_level l m q r lower h e =
    omega (arith, e, pow-suc 2 l, pow-le-pow_right {n = 2} (omega arith) {i = suc l} {j = m} lower)

one_level : (l m q r : ℕ) → q < 2 ^ l → r < 2 ^ m → 2 ^ l + q ≡ 2 ^ m + r → l ≡ m
one_level l m q r h k e = elim (dec_lt l m) [
  | yes lower ↦ absurd (upper_level l m q r lower h e)
  | no a ↦ elim (dec_lt m l) [
    | yes higher ↦ absurd (upper_level m l r q higher k (sym e))
    | no b ↦ omega (arith, a, b)
  ]
]

-- Blocks that are apart have different numbers.
Apart-numbers :
    (c l m q r : ℕ)
    → q < 2 ^ l
    → r < 2 ^ m
    → Apart (q * 2 ^ (c - l)) (2 ^ (c - l)) (r * 2 ^ (c - m)) (2 ^ (c - m))
    → 2 ^ m + r ≢ 2 ^ l + q
unfolding Apart
Apart-numbers c l m q r h k apart e =
    let level : m ≡ l = one_level m l r q k h e in
    let block : r ≡ q = omega (arith, e, ap (λ (t : ℕ). 2 ^ t) level) in
    let start : r * 2 ^ (c - m) ≡ q * 2 ^ (c - l) =
      ap (λ (t : ℕ). t * 2 ^ (c - m)) block ∙ ap (λ (t : ℕ). q * 2 ^ (c - t)) level in
    elim apart [
      | inl a ↦ omega (arith, a, start, one-le-pow (c - l) 2)
      | inr a ↦ omega (arith, a, start, one-le-pow (c - m) 2)
    ]

-- The blocks that are apart from one that is given back stay used.
pub stay_held :
    (c level q : ℕ) (st after : ℕ → Status) (os : List (ℕ × ℕ))
    → q < 2 ^ level
    → ((m : ℕ) → m ≢ 2 ^ level + q → is_used (after m) ≡ is_used (st m))
    → IsApart c (q * 2 ^ (c - level), level) os
    → AreHeld c st os
    → AreHeld c after os
unfolding IsApart
stay_held c level q st after [] inside same apart held = tt
stay_held c level q st after ((x, m) ∷ os) inside same (first, apart)
      ((r, mc, within, at, is_r), held) =
    let other : 2 ^ m + r ≢ 2 ^ level + q =
      Apart-numbers c level m q r inside within
        (subst (λ y. Apart (q * 2 ^ (c - level)) (2 ^ (c - level)) y (2 ^ (c - m))) at first) in
    (
      (r, mc, within, at, stays_held c (2 ^ level + q) st after x m r same other is_r),
      stay_held c level q st after os inside same apart held,
    )

-- One of the blocks, and the others.
IsApart-get :
    (c : ℕ) (u o : ℕ × ℕ) (os : List (ℕ × ℕ)) (i : ℕ)
    → get_elem? os i ≡ some o
    → IsApart c u os
    → Apart o.0 (2 ^ (c - o.1)) u.0 (2 ^ (c - u.1)) × IsApart c u (remove_at os i)
unfolding IsApart remove_at
IsApart-get c u o [] i e apart = absurd (ground arith)
IsApart-get c u o (v ∷ os) zero e (first, apart) =
    let same : v ≡ o = ground arith in
    (
      subst (λ w. Apart w.0 (2 ^ (c - w.1)) u.0 (2 ^ (c - u.1))) same
          (Apart-sym u.0 (2 ^ (c - u.1)) v.0 (2 ^ (c - v.1)) first),
      apart,
    )
IsApart-get c u o (v ∷ os) (suc i) e (first, apart) =
    let (here, rest) = IsApart-get c u o os i e apart in (here, (first, rest))

pub NoOverlap-get :
    (c : ℕ) (o : ℕ × ℕ) (os : List (ℕ × ℕ)) (i : ℕ)
    → get_elem? os i ≡ some o
    → NoOverlap c os
    → IsApart c o (remove_at os i) × NoOverlap c (remove_at os i)
unfolding NoOverlap IsApart remove_at
NoOverlap-get c o [] i e n = absurd (ground arith)
NoOverlap-get c o (v ∷ os) zero e (first, n) =
    let same : v ≡ o = ground arith in (subst (λ w. IsApart c w os) same first, n)
NoOverlap-get c o (v ∷ os) (suc i) e (first, n) =
    let (apart, rest) = NoOverlap-get c o os i e n in
    let (here, left) = IsApart-get c v o os i e first in ((here, apart), (left, rest))

pub AreHeld-get :
    (c : ℕ) (st : ℕ → Status) (o : ℕ × ℕ) (os : List (ℕ × ℕ)) (i : ℕ)
    → get_elem? os i ≡ some o
    → AreHeld c st os
    → IsHeld c st o × AreHeld c st (remove_at os i)
unfolding remove_at
AreHeld-get c st o [] i e held = absurd (ground arith)
AreHeld-get c st o (v ∷ os) zero e (first, held) =
    let same : v ≡ o = ground arith in (subst (IsHeld c st) same first, held)
AreHeld-get c st o (v ∷ os) (suc i) e (first, held) =
    let (here, rest) = AreHeld-get c st o os i e held in (here, (first, rest))
