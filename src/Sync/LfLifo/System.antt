-- ===== src/Sync/LfLifo/System.antt =====
-- Threads that push and pop in any order, beside the stack that their compare-exchanges make.
use tcengine.Base.{ℕ, ◌+◌, ◌≡◌, ◌≢◌, Bool, false, Option, none, some, List, [], ◌∷◌, has, update}
use tcengine.Sync.LfLifo.{
  Lifo, lf_lifo, lf_lifo_init, PushPc, push_step, load, PopPc, pop_step, load_head, Popping, at,
  returns,
}

pub data Thread : Type 0 where
  idle : Thread
  push : (elem : ℕ) → PushPc → Thread
  pop : PopPc → Thread

-- `stack` has what was pushed and not popped yet, the last one first; `changes` counts the pushes and
-- pops that have returned an element.
pub record System : Type 0 where
  pub lifo : Lifo
  pub stack : List ℕ
  pub changes : ℕ
  pub threads : ℕ → Thread

abbrev pub tail : List ℕ → List ℕ
tail [] = []
tail (_ ∷ rest) = rest

abbrev pub after_push : System → (i elem : ℕ) → Lifo × Option PushPc → System
after_push s i elem (q, some pc) = record s {
  lifo = q;
  threads = update s.threads i (push elem pc);
}
after_push s i elem (q, none) = record s {
  lifo = q;
  stack = elem ∷ s.stack;
  changes = s.changes + 1;
  threads = update s.threads i idle;
}

abbrev pub after_pop : System → (i : ℕ) → Lifo × Popping → System
after_pop s i (q, at pc) = record s { lifo = q; threads = update s.threads i (pop pc) }
after_pop s i (q, returns none) = record s { lifo = q; threads = update s.threads i idle }
after_pop s i (q, returns (some elem)) = record s {
  lifo = q;
  stack = tail s.stack;
  changes = s.changes + 1;
  threads = update s.threads i idle;
}

-- An element is pushed that is an aligned address, not in the stack, and pushed by no other thread.
pub data Step (s : System) : System → Type 0 where
  begin_push :
      (i elem : ℕ)
      → s.threads i ≡ idle
      → elem ≢ 0
      → lf_lifo elem ≡ elem
      → has elem s.stack ≡ false
      → ((j : ℕ) (pc : PushPc) → s.threads j ≢ push elem pc)
      → Step s (record s { threads = update s.threads i (push elem load) })
  begin_pop :
      (i : ℕ)
      → s.threads i ≡ idle
      → Step s (record s { threads = update s.threads i (pop load_head) })
  run_push :
      (i elem : ℕ) (pc : PushPc) (spurious : Bool)
      → s.threads i ≡ push elem pc
      → Step s (after_push s i elem (push_step spurious elem s.lifo pc))
  run_pop :
      (i : ℕ) (pc : PopPc) (spurious : Bool)
      → s.threads i ≡ pop pc
      → Step s (after_pop s i (pop_step spurious s.lifo pc))

abbrev pub start : (memory : ℕ → ℕ) → System
start memory = record { lifo = lf_lifo_init memory; stack = []; changes = 0; threads = λ _. idle }

pub data Reach (s : System) : System → Type 0 where
  here : Reach s s
  next : {t u : System} → Reach s t → Step t u → Reach s u
