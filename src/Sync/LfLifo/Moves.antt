-- ===== src/Sync/LfLifo/Moves.antt =====
-- What the accesses of a push and of a pop do to the invariant.
use mathlib.Core.Path.{subst}
use tcengine.Base.{ℕ, ◌+◌, ◌<◌, ◌≡◌, ◌≢◌, refl, sym, ap, ◌∙◌, arith}
use tcengine.Base.{
  false, none, some, List, [], ◌∷◌, has, update, if-true, if-false, ==_false, ==_self,
}
use tcengine.Sync.LfLifo.{
  Lifo, aba_value, lf_lifo, PushPc, load, store, swap, PopPc, load_head, test, swap_head, returns,
}
use tcengine.Sync.LfLifo.System.{Thread, idle, push, pop, System, tail, after_push, after_pop}
use tcengine.Sync.LfLifo.Invariant.{
  Spells, Knows, Owns, Inv, Spells-write, Spells-aligned, has-head, has-tail, word, word_tag,
  everywhere, NotElsewhere, alone-update,
}

pub holder :
    (s : System) (i elem : ℕ) (pc later : PushPc)
    → Inv s
    → s.threads i ≡ push elem pc
    → NotElsewhere s.threads i (push elem later)
unfolding NotElsewhere
holder s i elem pc later inv at_i j e p r d h g =
    let same : elem ≡ e = cc in inv.alone i j elem pc r d at_i (g ∙ ap (λ x. push x r) (sym same))

pub no_push : (s : System) (i : ℕ) (pc : PopPc) → NotElsewhere s.threads i (pop pc)
unfolding NotElsewhere
no_push s i pc j e p r d h g = absurd (cc)

pub no_idle : (s : System) (i : ℕ) → NotElsewhere s.threads i idle
unfolding NotElsewhere
no_idle s i j e p r d h g = absurd (cc)

pub owned :
    (s : System) (i elem : ℕ) (pc : PushPc)
    → Inv s
    → s.threads i ≡ push elem pc
    → (elem ≢ 0) × (lf_lifo elem ≡ elem) × (has elem s.stack ≡ false)
unfolding Owns
owned s i elem pc inv at_i = subst (Owns s.stack) at_i (inv.owns i)

pub known :
    (s : System) (i : ℕ) (t : Thread) → Inv s → s.threads i ≡ t → Knows s.lifo s.stack s.changes t
known s i t inv at_i = subst (Knows s.lifo s.stack s.changes) at_i (inv.knows i)

-- A thread other than `i`, or its element, when `i` holds `elem`.
other_elem :
    (s : System) (i j elem e : ℕ) (pc p : PushPc)
    → Inv s
    → s.threads i ≡ push elem pc
    → i ≢ j
    → s.threads j ≡ push e p
    → elem ≢ e
other_elem s i j elem e pc p inv at_i d at_j same =
    inv.alone i j elem pc p d at_i (at_j ∙ ap (λ x. push x p) (sym same))

-- The element at the head is in the stack.
head_in :
    (nexts : ℕ → ℕ) (a e : ℕ) (l : List ℕ) → Spells nexts a l → a ≢ 0 → has e l ≡ false → a ≢ e
unfolding Spells
head_in nexts a e [] p nonzero h same = absurd (nonzero p)
head_in nexts a e (x ∷ l) (at_x, _, _, _) nonzero h same = has-head e x l h (sym at_x ∙ same)

-- A store into an element that is not in the stack.
Knows-write :
    (q : Lifo) (stack : List ℕ) (changes elem v : ℕ) (t : Thread)
    → Spells q.next (lf_lifo q.head) stack
    → has elem stack ≡ false
    → ((e : ℕ) (p : PushPc) → t ≡ push e p → elem ≢ e)
    → Knows q stack changes t
    → Knows (record q { next = update q.next elem v }) stack changes t
unfolding Knows
Knows-write q stack changes elem v idle sp h d k = tt
Knows-write q stack changes elem v (push e load) sp h d k = tt
Knows-write q stack changes elem v (push e (store n)) sp h d k = tt
Knows-write q stack changes elem v (push e (swap n)) sp h d k =
    if-false v (q.next e) (==_false elem e (d e (swap n) refl)) ∙ k
Knows-write q stack changes elem v (pop load_head) sp h d k = tt
Knows-write q stack changes elem v (pop (test n)) sp h d k = k
Knows-write q stack changes elem v (pop (swap_head n w)) sp h d (old, nonzero, fresh) = (
  old,
  nonzero,
  λ e.
      fresh e
      ∙ ap (λ x. lf_lifo x + aba_value (n + 1))
          (sym (
            if-false v (q.next (lf_lifo n)) (
              ==_false elem (lf_lifo n) (λ same.
                head_in q.next (lf_lifo q.head) elem stack sp (λ z. nonzero (ap lf_lifo e ∙ z)) h
                  (sym (ap lf_lifo e) ∙ sym same))))),
)

pub store-Inv :
    (s : System) (i elem n : ℕ)
    → Inv s
    → s.threads i ≡ push elem (store n)
    → Inv (record s {
      lifo = record s.lifo { next = update s.lifo.next elem (lf_lifo n) };
      threads = update s.threads i (push elem (swap n));
    })
unfolding Knows Owns
store-Inv s i elem n inv at_i =
    let (nonzero, aligned, out) = owned s i elem (store n) inv at_i in
    let q = record s.lifo { next = update s.lifo.next elem (lf_lifo n) } in
    record {
      counted = inv.counted;
      spells =
          Spells-write s.lifo.next elem (lf_lifo n) (lf_lifo s.lifo.head) s.stack out inv.spells;
      knows =
          everywhere (Knows q s.stack s.changes) s.threads i (push elem (swap n))
            (if-true (lf_lifo n) (s.lifo.next elem) (==_self elem))
            (λ j d.
              Knows-write s.lifo s.stack s.changes elem (lf_lifo n) (s.threads j) inv.spells out
                (λ e p at_j. other_elem s i j elem e (store n) p inv at_i d at_j) (inv.knows j));
      owns =
          everywhere (Owns s.stack) s.threads i (push elem (swap n)) (nonzero, aligned, out)
            (λ j d. inv.owns j);
      alone =
          alone-update s.threads i (push elem (swap n)) inv.alone
            (holder s i elem (store n) (swap n) inv at_i);
    }

-- The head changes, and its tag with it.
Knows-change :
    (q r : Lifo) (stack rest : List ℕ) (changes : ℕ) (t : Thread)
    → r.next ≡ q.next
    → aba_value r.head ≡ changes + 1
    → Knows q stack changes t
    → Knows r rest (changes + 1) t
unfolding Knows
Knows-change q r stack rest changes idle same tag k = tt
Knows-change q r stack rest changes (push e load) same tag k = tt
Knows-change q r stack rest changes (push e (store n)) same tag k = tt
Knows-change q r stack rest changes (push e (swap n)) same tag k = ap (λ f. f e) same ∙ k
Knows-change q r stack rest changes (pop load_head) same tag k = tt
Knows-change q r stack rest changes (pop (test n)) same tag k = omega arith
Knows-change q r stack rest changes (pop (swap_head n w)) same tag (old, nonzero, fresh) =
    (omega arith, nonzero, λ e. absurd (omega (arith, ap aba_value e)))

has-cons : (e x : ℕ) (l : List ℕ) → x ≢ e → has e l ≡ false → has e (x ∷ l) ≡ false
has-cons e x l d h = ground arith

Owns-push :
    (elem : ℕ) (stack : List ℕ) (t : Thread)
    → ((e : ℕ) (p : PushPc) → t ≡ push e p → elem ≢ e)
    → Owns stack t
    → Owns (elem ∷ stack) t
unfolding Owns
Owns-push elem stack idle d o = tt
Owns-push elem stack (push e p) d (nonzero, aligned, out) =
    (nonzero, aligned, has-cons e elem stack (d e p refl) out)
Owns-push elem stack (pop pc) d o = tt

Owns-tail : (stack : List ℕ) (t : Thread) → Owns stack t → Owns (tail stack) t
unfolding Owns
Owns-tail stack idle o = tt
Owns-tail [] (push e p) o = o
Owns-tail (x ∷ l) (push e p) (nonzero, aligned, out) = (nonzero, aligned, has-tail e x l out)
Owns-tail stack (pop pc) o = tt

next_tag :
    (n changes : ℕ) → aba_value n ≡ changes → changes + 1 < 65536 → aba_value (n + 1) ≡ changes + 1
next_tag n changes h small = omega arith

pub push-Inv :
    (s : System) (i elem n : ℕ)
    → Inv s
    → s.changes + 1 < 65536
    → s.threads i ≡ push elem (swap n)
    → s.lifo.head ≡ n
    → Inv (after_push s i elem (record s.lifo { head = lf_lifo elem + aba_value (n + 1) }, none))
unfolding Knows Owns Spells
push-Inv s i elem n inv small at_i same =
    let (nonzero, aligned, out) = owned s i elem (swap n) inv at_i in
    let linked : s.lifo.next elem ≡ lf_lifo n = known s i (push elem (swap n)) inv at_i in
    let q : Lifo = record s.lifo { head = lf_lifo elem + aba_value (n + 1) } in
    let tag : aba_value q.head ≡ s.changes + 1 =
      word_tag elem (n + 1) ∙ next_tag n s.changes (sym (ap aba_value same) ∙ inv.counted) small in
    record {
      counted = tag;
      spells = (
        word elem (n + 1) ∙ aligned,
        nonzero,
        aligned,
        subst (λ a. Spells s.lifo.next a s.stack) (ap lf_lifo same ∙ sym linked) inv.spells,
      );
      knows = everywhere (Knows q (elem ∷ s.stack) (s.changes + 1)) s.threads i idle tt (λ j d.
          Knows-change s.lifo q s.stack (elem ∷ s.stack) s.changes (s.threads j) refl tag
            (inv.knows j));
      owns = everywhere (Owns (elem ∷ s.stack)) s.threads i idle tt (λ j d.
          Owns-push elem s.stack (s.threads j)
            (λ e p at_j. other_elem s i j elem e (swap n) p inv at_i d at_j) (inv.owns j));
      alone = alone-update s.threads i idle inv.alone (no_idle s i);
    }

-- The top of a stack that its links spell.
spelled_top :
    (nexts : ℕ → ℕ) (a : ℕ) (l : List ℕ)
    → Spells nexts a l
    → a ≢ 0
    → (l ≡ a ∷ tail l) × Spells nexts (nexts a) (tail l)
unfolding Spells
spelled_top nexts a [] p nonzero = absurd (nonzero p)
spelled_top nexts a (x ∷ l) (at_x, _, _, rest) nonzero =
    (ap (λ y. y ∷ l) (sym at_x), subst (λ y. Spells nexts (nexts y) l) (sym at_x) rest)

-- What a pop that succeeds finds and leaves.
pub pop_top :
    (s : System) (i n w : ℕ)
    → Inv s
    → s.threads i ≡ pop (swap_head n w)
    → s.lifo.head ≡ n
    → (s.stack ≡ lf_lifo n ∷ tail s.stack)
      × Spells s.lifo.next (lf_lifo w) (tail s.stack)
      × (aba_value w ≡ aba_value (n + 1))
unfolding Knows
pop_top s i n w inv at_i same =
    let (_, nonzero, fresh) = known s i (pop (swap_head n w)) inv at_i in
    let value = fresh (sym same) in
    let (top, rest) =
      spelled_top s.lifo.next (lf_lifo n) s.stack
        (subst (λ a. Spells s.lifo.next (lf_lifo a) s.stack) same inv.spells) nonzero in
    let below : lf_lifo w ≡ s.lifo.next (lf_lifo n) =
      ap lf_lifo value
      ∙ word (s.lifo.next (lf_lifo n)) (n + 1)
      ∙ Spells-aligned s.lifo.next (s.lifo.next (lf_lifo n)) (tail s.stack) rest in
    (
      top,
      subst (λ a. Spells s.lifo.next a (tail s.stack)) (sym below) rest,
      ap aba_value value ∙ word_tag (s.lifo.next (lf_lifo n)) (n + 1),
    )

pub pop-Inv :
    (s : System) (i n w : ℕ)
    → Inv s
    → s.changes + 1 < 65536
    → s.threads i ≡ pop (swap_head n w)
    → s.lifo.head ≡ n
    → Inv (after_pop s i (record s.lifo { head = w }, returns (some (lf_lifo n))))
unfolding Knows Owns
pop-Inv s i n w inv small at_i same =
    let (top, spelled, next_word) = pop_top s i n w inv at_i same in
    let q : Lifo = record s.lifo { head = w } in
    let tag : aba_value w ≡ s.changes + 1 =
      next_word ∙ next_tag n s.changes (sym (ap aba_value same) ∙ inv.counted) small in
    record {
      counted = tag;
      spells = spelled;
      knows = everywhere (Knows q (tail s.stack) (s.changes + 1)) s.threads i idle tt (λ j d.
          Knows-change s.lifo q s.stack (tail s.stack) s.changes (s.threads j) refl tag
            (inv.knows j));
      owns =
          everywhere (Owns (tail s.stack)) s.threads i idle tt
            (λ j d. Owns-tail s.stack (s.threads j) (inv.owns j));
      alone = alone-update s.threads i idle inv.alone (no_idle s i);
    }
