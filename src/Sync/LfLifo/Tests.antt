-- ===== src/Sync/LfLifo/Tests.antt =====
-- Two threads at one stack: one pushes while the other one pops.
use tcengine.Base.{ℕ, ◌<◌, ◌≡◌, Bool, false, refl, arith, ◌∷◌, update, some}
use tcengine.Sync.LfLifo.{
  Lifo, lf_lifo, PushPc, push_step, load, store, swap, PopPc, pop_step, load_head, test, swap_head,
  returns,
}
use tcengine.Sync.LfLifo.System.{
  push, pop, System, tail, after_push, after_pop, begin_push, begin_pop, run_push, run_pop, start,
  Reach, here, next,
}
use tcengine.Sync.LfLifo.Invariant.{Spells}
use tcengine.Sync.LfLifo.Stack.{lf_lifo_is_stack}

abbrev memory : ℕ → ℕ
memory _ = 0

abbrev block : ℕ
block = 65536

abbrev s1 : System
s1 = record (start memory) { threads = update (start memory).threads 0 (push block load) }

abbrev pushing : (pc : PushPc) → System → System
pushing pc s = after_push s 0 block (push_step false block s.lifo pc)

abbrev s2 : System
s2 = pushing load s1

abbrev s3 : System
s3 = pushing (store 0) s2

abbrev s4 : System
s4 = pushing (swap 0) s3

abbrev s5 : System
s5 = record s4 { threads = update s4.threads 1 (pop load_head) }

abbrev popping : (pc : PopPc) → System → System
popping pc s = after_pop s 1 (pop_step false s.lifo pc)

-- The head has the block and the tag 1.
abbrev s6 : System
s6 = popping load_head s5

abbrev s7 : System
s7 = popping (test 65537) s6

pushed-Reach : Reach (start memory) s7
unfolding push_step pop_step
pushed-Reach =
    next
      (next
        (next
          (next
            (next
              (next
                (next here (
                  begin_push 0 block refl (λ e. absurd (omega arith)) refl refl
                    (λ j pc e. absurd (cc))))
                (run_push 0 block load false refl))
              (run_push 0 block (store 0) false refl))
            (run_push 0 block (swap 0) false refl))
          (begin_pop 1 refl))
        (run_pop 1 load_head false refl))
      (run_pop 1 (test 65537) false refl)

few : s7.changes < 65536
unfolding push_step pop_step
few = omega arith

lf_lifo_is_stack_example :
    Spells s7.lifo.next (lf_lifo s7.lifo.head) s7.stack
    × ((i n w : ℕ) (spurious : Bool) (q : Lifo) (elem : ℕ)
        → s7.threads i ≡ pop (swap_head n w)
        → pop_step spurious s7.lifo (swap_head n w) ≡ (q, returns (some elem))
        → (s7.stack ≡ elem ∷ tail s7.stack) × Spells q.next (lf_lifo q.head) (tail s7.stack))
lf_lifo_is_stack_example = lf_lifo_is_stack memory s7 pushed-Reach few

-- The pop that stands there returns the block.
pop_run :
    pop_step false s7.lifo (swap_head 65537 2) ≡ (record s7.lifo { head = 2 }, returns (some block))
unfolding push_step pop_step
pop_run = refl
