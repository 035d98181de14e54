-- ===== src/Sync/LfLifo/Stack.antt =====
-- Every access keeps the invariant, and the shared words make a stack.
use mathlib.Core.Path.{subst}
use tcengine.Base.{ℕ, suc, ◌+◌, ◌≤◌, ◌<◌, ◌≡◌, inl, inr, refl, sym, ap, ◌∙◌, arith, ℕ_discrete}
use tcengine.Base.{
  Bool, true, false, Bool-cases, Option, none, some, ◌∷◌, update, ◌==◌, if◌then◌else◌, if-true,
  if-false, ==_false, ==_iff,
}
use tcengine.Sync.LfLifo.{
  Lifo, aba_value, lf_lifo, PushPc, push_step, load, store, swap, PopPc, pop_step, load_head, test,
  swap_head, Popping, at, returns,
}
use tcengine.Sync.LfLifo.System.{
  idle, push, pop, System, tail, after_push, after_pop, Step, begin_push, begin_pop, run_push,
  run_pop, start, Reach, here, next,
}
use tcengine.Sync.LfLifo.Moves.{
  holder, no_push, no_idle, owned, known, store-Inv, push-Inv, pop-Inv, pop_top,
}
use tcengine.Sync.LfLifo.Invariant.{Spells, Knows, Owns, Inv, start-Inv, NotElsewhere, move-Inv}

exchanged : (spurious : Bool) (a b : ℕ) → (if spurious then false else a == b) ≡ true → a ≡ b
exchanged true a b h = absurd (ground arith)
exchanged false a b h = ground (arith, ==_iff a b)

run_push-Inv :
    (s : System) (i elem : ℕ) (pc : PushPc) (spurious : Bool)
    → Inv s
    → s.threads i ≡ push elem pc
    → (after_push s i elem (push_step spurious elem s.lifo pc)).changes < 65536
    → Inv (after_push s i elem (push_step spurious elem s.lifo pc))
unfolding push_step Knows Owns
run_push-Inv s i elem load spurious inv at_i small =
    move-Inv s i (push elem (store s.lifo.head)) inv tt (owned s i elem load inv at_i)
      (holder s i elem load (store s.lifo.head) inv at_i)
run_push-Inv s i elem (store n) spurious inv at_i small =
    let (_, aligned, _) = owned s i elem (store n) inv at_i in
    subst
      (λ e. Inv (record s {
        lifo = record s.lifo { next = update s.lifo.next e (lf_lifo n) };
        threads = update s.threads i (push elem (swap n));
      }))
      (sym aligned) (store-Inv s i elem n inv at_i)
run_push-Inv s i elem (swap n) spurious inv at_i small =
    let done : Lifo × Option PushPc =
      (record s.lifo { head = lf_lifo elem + aba_value (n + 1) }, none) in
    let again : Lifo × Option PushPc = (s.lifo, some (store s.lifo.head)) in
    elim (Bool-cases (if spurious then false else s.lifo.head == n)) [
      | inl e ↦
          let r = if-true done again e in
          subst (λ x. Inv (after_push s i elem x)) (sym r)
            (push-Inv s i elem n inv (subst (λ x. (after_push s i elem x).changes < 65536) r small)
              at_i (exchanged spurious s.lifo.head n e))
      | inr e ↦
          subst (λ x. Inv (after_push s i elem x)) (sym (if-false done again e))
            (move-Inv s i (push elem (store s.lifo.head)) inv tt (owned s i elem (swap n) inv at_i)
              (holder s i elem (swap n) (store s.lifo.head) inv at_i))
    ]

run_pop-Inv :
    (s : System) (i : ℕ) (pc : PopPc) (spurious : Bool)
    → Inv s
    → s.threads i ≡ pop pc
    → (after_pop s i (pop_step spurious s.lifo pc)).changes < 65536
    → Inv (after_pop s i (pop_step spurious s.lifo pc))
unfolding pop_step Knows Owns
run_pop-Inv s i load_head spurious inv at_i small =
    move-Inv s i (pop (test s.lifo.head)) inv (omega (arith, inv.counted)) tt
      (no_push s i (test s.lifo.head))
run_pop-Inv s i (test n) spurious inv at_i small =
    let w : ℕ = lf_lifo (s.lifo.next (lf_lifo n)) + aba_value (n + 1) in
    let nothing : Lifo × Popping = (s.lifo, returns none) in
    let on : Lifo × Popping = (s.lifo, at (swap_head n w)) in
    elim (ℕ_discrete (lf_lifo n) 0) [
      | yes z ↦
          subst (λ x. Inv (after_pop s i x)) (sym (if-true nothing on ((==_iff (lf_lifo n) 0).1 z)))
            (move-Inv s i idle inv tt tt (no_idle s i))
      | no d ↦
          subst (λ x. Inv (after_pop s i x)) (sym (if-false nothing on (==_false (lf_lifo n) 0 d)))
            (move-Inv s i (pop (swap_head n w)) inv
              (known s i (pop (test n)) inv at_i, d, λ e. refl) tt (no_push s i (swap_head n w)))
    ]
run_pop-Inv s i (swap_head n w) spurious inv at_i small =
    let done : Lifo × Popping = (record s.lifo { head = w }, returns (some (lf_lifo n))) in
    let again : Lifo × Popping = (s.lifo, at (test s.lifo.head)) in
    elim (Bool-cases (if spurious then false else s.lifo.head == n)) [
      | inl e ↦
          let r = if-true done again e in
          subst (λ x. Inv (after_pop s i x)) (sym r)
            (pop-Inv s i n w inv (subst (λ x. (after_pop s i x).changes < 65536) r small) at_i
              (exchanged spurious s.lifo.head n e))
      | inr e ↦
          subst (λ x. Inv (after_pop s i x)) (sym (if-false done again e))
            (move-Inv s i (pop (test s.lifo.head)) inv (omega (arith, inv.counted)) tt
              (no_push s i (test s.lifo.head)))
    ]

Step-Inv : (s t : System) → Inv s → Step s t → t.changes < 65536 → Inv t
unfolding Knows Owns NotElsewhere
Step-Inv s _ inv (begin_push i elem at_i nonzero aligned out alone) small =
    move-Inv s i (push elem load) inv tt (nonzero, aligned, out)
      (λ j e p r d h g. alone j r (g ∙ ap (λ x. push x r) (sym (cc))))
Step-Inv s _ inv (begin_pop i at_i) small =
    move-Inv s i (pop load_head) inv tt tt (no_push s i load_head)
Step-Inv s _ inv (run_push i elem pc spurious at_i) small =
    run_push-Inv s i elem pc spurious inv at_i small
Step-Inv s _ inv (run_pop i pc spurious at_i) small = run_pop-Inv s i pc spurious inv at_i small

after_push-changes :
    (s : System) (i elem : ℕ) (r : Lifo × Option PushPc)
    → s.changes ≤ (after_push s i elem r).changes
after_push-changes s i elem (q, none) = omega arith
after_push-changes s i elem (q, some pc) = omega arith

after_pop-changes :
    (s : System) (i : ℕ) (r : Lifo × Popping) → s.changes ≤ (after_pop s i r).changes
after_pop-changes s i (q, at pc) = omega arith
after_pop-changes s i (q, returns none) = omega arith
after_pop-changes s i (q, returns (some e)) = omega arith

Step-changes : (s t : System) → Step s t → s.changes ≤ t.changes
Step-changes s _ (begin_push i elem a b c d e) = omega arith
Step-changes s _ (begin_pop i a) = omega arith
Step-changes s _ (run_push i elem pc spurious a) =
    after_push-changes s i elem (push_step spurious elem s.lifo pc)
Step-changes s _ (run_pop i pc spurious a) = after_pop-changes s i (pop_step spurious s.lifo pc)

Reach-Inv : (memory : ℕ → ℕ) (t : System) → Reach (start memory) t → t.changes < 65536 → Inv t
Reach-Inv memory _ here small = start-Inv memory
Reach-Inv memory _ (next {t} {u} r step) small =
    Step-Inv t u (Reach-Inv memory t r (omega (arith, Step-changes t u step))) step small

got : Popping → ℕ
got (at pc) = 0
got (returns none) = 0
got (returns (some elem)) = suc elem

pop_step-returns :
    (spurious : Bool) (q r : Lifo) (n w elem : ℕ)
    → pop_step spurious q (swap_head n w) ≡ (r, returns (some elem))
    → (q.head ≡ n) × (record q { head = w } ≡ r) × (lf_lifo n ≡ elem)
unfolding pop_step got
pop_step-returns spurious q r n w elem h =
    let done : Lifo × Popping = (record q { head = w }, returns (some (lf_lifo n))) in
    let again : Lifo × Popping = (q, at (test q.head)) in
    elim (Bool-cases (if spurious then false else q.head == n)) [
      | inl e ↦
          let same : done ≡ (r, returns (some elem)) = sym (if-true done again e) ∙ h in
          let value : suc (lf_lifo n) ≡ suc elem = ap (λ x. got x.1) same in
          (exchanged spurious q.head n e, ap (λ x. x.0) same, omega (arith, value))
      | inr e ↦
          let same : again ≡ (r, returns (some elem)) = sym (if-false done again e) ∙ h in
          let value : 0 ≡ suc elem = ap (λ x. got x.1) same in absurd (omega arith)
    ]

top_returned :
    (s : System) (i n w : ℕ) (spurious : Bool) (q : Lifo) (elem : ℕ)
    → Inv s
    → s.threads i ≡ pop (swap_head n w)
    → pop_step spurious s.lifo (swap_head n w) ≡ (q, returns (some elem))
    → (s.stack ≡ elem ∷ tail s.stack) × Spells q.next (lf_lifo q.head) (tail s.stack)
top_returned s i n w spurious q elem inv at_i h =
    let (same, changed, value) = pop_step-returns spurious s.lifo q n w elem h in
    let (top, spelled, _) = pop_top s i n w inv at_i same in
    (
      subst (λ e. s.stack ≡ e ∷ tail s.stack) value top,
      subst (λ (r : Lifo). Spells r.next (lf_lifo r.head) (tail s.stack)) changed spelled,
    )

-- In every state that any interleaving of threads that push and pop reaches from lf_lifo_init,
-- with fewer than 2^16 changes, the links from the head spell what was pushed and not popped yet,
-- the last one first, and a pop that now returns an element returns the first of them and leaves
-- a head that spells the others.
pub lf_lifo_is_stack :
    (memory : ℕ → ℕ) (s : System)
    → Reach (start memory) s
    → s.changes < 65536
    → Spells s.lifo.next (lf_lifo s.lifo.head) s.stack
      × ((i n w : ℕ) (spurious : Bool) (q : Lifo) (elem : ℕ)
          → s.threads i ≡ pop (swap_head n w)
          → pop_step spurious s.lifo (swap_head n w) ≡ (q, returns (some elem))
          → (s.stack ≡ elem ∷ tail s.stack) × Spells q.next (lf_lifo q.head) (tail s.stack))
lf_lifo_is_stack memory s r small =
    let inv : Inv s = Reach-Inv memory s r small in
    (inv.spells, λ i n w spurious q elem at_i h. top_returned s i n w spurious q elem inv at_i h)
