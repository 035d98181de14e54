-- ===== src/Sync/LfQueue/System.antt =====
-- Any number of threads over one queue, interleaved in any order.
use tcengine.Base.{ℕ, zero, suc, ◌≡◌, Bool, true, false, update}
use tcengine.Sync.LfQueue.{Queue, Cell, PutPc, GetPc, init, put_step, get_step}

pub data Pc : Type 0 where
  idle : Pc
  put : (datum : ℕ) → PutPc → Pc
  get : GetPc → Pc

-- `log p` is the datum of the put whose compare-exchange took position `p` (a ghost).
pub record System : Type 0 where
  pub queue : Queue
  pub pc : ℕ → Pc
  pub log : ℕ → ℕ

-- A compare-exchange that succeeds is seen from the local state behind it.
abbrev pub logged : (ℕ → ℕ) → ℕ → PutPc → PutPc → ℕ → ℕ
logged log datum (PutPc.claiming _) (PutPc.claimed pos) = update log pos datum
logged log datum _ _ = log

abbrev pub at_rest : Pc → Bool
at_rest idle = true
at_rest (put _ (PutPc.returned _)) = true
at_rest (get (GetPc.returned _)) = true
at_rest _ = false

-- What the system is after thread `i` has run one access of a put, or of a get.
abbrev pub after_put : System → ℕ → ℕ → PutPc → Queue × PutPc → System
after_put s i datum p (q, p') = record {
  queue = q;
  pc = update s.pc i (put datum p');
  log = logged s.log datum p p';
}

abbrev pub after_get : System → ℕ → Queue × GetPc → System
after_get s i (q, p') = record s { queue = q; pc = update s.pc i (get p') }

pub data Step (s : System) : System → Type 0 where
  -- a call loads the position
  call_put :
      (i datum : ℕ)
      → at_rest (s.pc i) ≡ true
      → Step s (record s { pc = update s.pc i (put datum (PutPc.looking s.queue.write)) })
  call_get :
      (i : ℕ)
      → at_rest (s.pc i) ≡ true
      → Step s (record s { pc = update s.pc i (get (GetPc.looking s.queue.read)) })
  run_put :
      (i datum : ℕ) (spurious : Bool) (p : PutPc)
      → s.pc i ≡ put datum p
      → Step s (after_put s i datum p (put_step spurious datum s.queue p))
  run_get :
      (i : ℕ) (spurious : Bool) (p : GetPc)
      → s.pc i ≡ get p
      → Step s (after_get s i (get_step spurious s.queue p))

abbrev pub start : ℕ → (ℕ → Cell) → System
start elements memory = record { queue = init elements memory; pc = λ _. idle; log = λ _. 0 }

-- Reached in `steps` steps.
pub data Reach (elements : ℕ) (memory : ℕ → Cell) : (steps : ℕ) → System → Type 0 where
  here : Reach elements memory zero (start elements memory)
  next :
      {steps : ℕ} {s t : System}
      → Reach elements memory steps s
      → Step s t
      → Reach elements memory (suc steps) t
