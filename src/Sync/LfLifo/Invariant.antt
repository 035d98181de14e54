-- ===== src/Sync/LfLifo/Invariant.antt =====
-- What holds between any two accesses, as long as the count of the changes fits its 16 bits.
use mathlib.Core.Path.{subst}
use tcengine.Base.{ℕ, ◌+◌, ◌≤◌, ◌≡◌, ◌≢◌, sym, ◌∙◌, arith, ℕ_discrete}
use tcengine.Base.{false, List, [], ◌∷◌, has, update, if-true, if-false, ==_false, ==_iff}
use tcengine.Sync.LfLifo.{
  Lifo, aba_value, lf_lifo, PushPc, load, store, swap, load_head, test, swap_head,
}
use tcengine.Sync.LfLifo.System.{Thread, idle, push, pop, System, start}

-- The links from an address on spell a list.
unfoldable pub Spells : (ℕ → ℕ) → ℕ → List ℕ → Type 0
Spells next a [] = a ≡ 0
Spells next a (x ∷ rest) = (a ≡ x) × (x ≢ 0) × (lf_lifo x ≡ x) × Spells next (next x) rest

-- What a thread knows.
unfoldable pub Knows : Lifo → List ℕ → (changes : ℕ) → Thread → Type 0
Knows q stack changes idle = Unit
Knows q stack changes (push elem load) = Unit
Knows q stack changes (push elem (store next)) = Unit
Knows q stack changes (push elem (swap next)) = q.next elem ≡ lf_lifo next
Knows q stack changes (pop load_head) = Unit
Knows q stack changes (pop (test next)) = aba_value next ≤ changes
Knows q stack changes (pop (swap_head next newhead)) =
    (aba_value next ≤ changes)
    × (lf_lifo next ≢ 0)
    × (next ≡ q.head → newhead ≡ lf_lifo (q.next (lf_lifo next)) + aba_value (next + 1))

-- An element that is pushed belongs to one thread.
unfoldable pub Owns : List ℕ → Thread → Type 0
Owns stack idle = Unit
Owns stack (push elem pc) = (elem ≢ 0) × (lf_lifo elem ≡ elem) × (has elem stack ≡ false)
Owns stack (pop pc) = Unit

pub record Inv (s : System) : Type 0 where
  pub counted : aba_value s.lifo.head ≡ s.changes
  pub spells : Spells s.lifo.next (lf_lifo s.lifo.head) s.stack
  pub knows : (i : ℕ) → Knows s.lifo s.stack s.changes (s.threads i)
  pub owns : (i : ℕ) → Owns s.stack (s.threads i)
  pub alone : (i j e : ℕ) (p r : PushPc) → i ≢ j → s.threads i ≡ push e p → s.threads j ≢ push e r

pub has-head : (e x : ℕ) (l : List ℕ) → has e (x ∷ l) ≡ false → x ≢ e
has-head e x l h same = ground arith

pub has-tail : (e x : ℕ) (l : List ℕ) → has e (x ∷ l) ≡ false → has e l ≡ false
has-tail e x l h = ground arith

pub Spells-write :
    (next : ℕ → ℕ) (e v a : ℕ) (l : List ℕ)
    → has e l ≡ false
    → Spells next a l
    → Spells (update next e v) a l
unfolding Spells
Spells-write next e v a [] h p = p
Spells-write next e v a (x ∷ l) h (at_x, nonzero, aligned, rest) =
    let differ : e ≢ x = λ same. has-head e x l h (sym same) in
    (
      at_x,
      nonzero,
      aligned,
      rw (if-false v (next x) (==_false e x differ))
          (Spells-write next e v (next x) l (has-tail e x l h) rest),
    )

pub Spells-aligned : (next : ℕ → ℕ) (a : ℕ) (l : List ℕ) → Spells next a l → lf_lifo a ≡ a
unfolding Spells
Spells-aligned next a [] p = omega arith
Spells-aligned next a (x ∷ l) (at_x, nonzero, aligned, rest) = omega arith

pub word : (x y : ℕ) → lf_lifo (lf_lifo x + aba_value y) ≡ lf_lifo x
word x y = omega arith

pub word_tag : (x y : ℕ) → aba_value (lf_lifo x + aba_value y) ≡ aba_value y
word_tag x y = omega arith

idle-push : (e : ℕ) (p : PushPc) → idle ≢ push e p
idle-push e p h = absurd (cc)

pub start-Inv : (memory : ℕ → ℕ) → Inv (start memory)
unfolding Knows Owns Spells
start-Inv memory = record {
  counted = omega arith;
  spells = omega arith;
  knows = λ i. tt;
  owns = λ i. tt;
  alone = λ i j e p r differ h k. idle-push e p h;
}

-- What holds of a new thread and of all others holds of all threads.
pub everywhere :
    (P : Thread → Type 0) (f : ℕ → Thread) (i : ℕ) (t : Thread)
    → P t
    → ((j : ℕ) → i ≢ j → P (f j))
    → (j : ℕ) → P (update f i t j)
everywhere P f i t here others j = elim (ℕ_discrete i j) [
  | yes e ↦ subst P (sym (if-true t (f j) ((==_iff i j).1 e))) here
  | no d ↦ subst P (sym (if-false t (f j) (==_false i j d))) (others j d)
]

-- An element that thread `i` may hold is held by no other one.
unfoldable pub NotElsewhere : (ℕ → Thread) → ℕ → Thread → Type 0
NotElsewhere f i t = (j e : ℕ) (p r : PushPc) → i ≢ j → t ≡ push e p → f j ≢ push e r

pub alone-update :
    (f : ℕ → Thread) (i : ℕ) (t : Thread)
    → ((i j e : ℕ) (p r : PushPc) → i ≢ j → f i ≡ push e p → f j ≢ push e r)
    → NotElsewhere f i t
    → (k j e : ℕ) (p r : PushPc) → k ≢ j
    → update f i t k ≡ push e p
    → update f i t j ≢ push e r
unfolding NotElsewhere
alone-update f i t alone new k j e p r d = elim (ℕ_discrete i k) [
  | yes a ↦ elim (ℕ_discrete i j) [
    | yes b ↦ absurd (d (sym a ∙ b))
    | no b ↦ λ h g.
        new j e p r b (sym (if-true t (f k) ((==_iff i k).1 a)) ∙ h)
          (sym (if-false t (f j) (==_false i j b)) ∙ g)
  ]
  | no a ↦ elim (ℕ_discrete i j) [
    | yes b ↦ λ h g.
        new k e r p a (sym (if-true t (f j) ((==_iff i j).1 b)) ∙ g)
          (sym (if-false t (f k) (==_false i k a)) ∙ h)
    | no b ↦ λ h g.
        alone k j e p r d (sym (if-false t (f k) (==_false i k a)) ∙ h)
          (sym (if-false t (f j) (==_false i j b)) ∙ g)
  ]
]

-- A thread goes on and changes nothing that is shared.
pub move-Inv :
    (s : System) (i : ℕ) (t : Thread)
    → Inv s
    → Knows s.lifo s.stack s.changes t
    → Owns s.stack t
    → NotElsewhere s.threads i t
    → Inv (record s { threads = update s.threads i t })
move-Inv s i t inv k o new = record {
  counted = inv.counted;
  spells = inv.spells;
  knows = everywhere (Knows s.lifo s.stack s.changes) s.threads i t k (λ j d. inv.knows j);
  owns = everywhere (Owns s.stack) s.threads i t o (λ j d. inv.owns j);
  alone = alone-update s.threads i t inv.alone new;
}
