-- ===== src/Sync/Future/Invariant.antt =====
-- The states of a future at which one fiber waits.
use tcengine.Base.{ℕ, ◌^◌, ◌≤◌, ◌<◌, ◌≡◌, ◌≢◌}
use tcengine.Base.{Bool, true, false, ◌⊎◌, ◌==◌, if◌then◌else◌}
use tcengine.Sync.Future.{
  Slot, scan, loaded, unused, matched, claimed, cleared, done, WaitPc, idle, trying, got, valued,
  opened, probed, free, claiming, won, returned,
}
use tcengine.Sync.Future.System.{System, Job, rest, waking}

-- How far the wait has come: the fiber stands in no slot, stands in slot 0 before that is open,
-- waits there, was claimed or cleared by a thread, was made ready, or has taken itself out.
pub data Phase : Type 0 where
  before : Phase
  placed : Phase
  waiting : Phase
  taken : (t : ℕ) → Phase
  emptied : (t : ℕ) → Phase
  woken : Phase
  own : Phase
  gone : Phase

-- The fiber has opened its slot, and is not done with `counter_add_to_waiting` by itself.
abbrev pub IsOpen : ℕ → WaitPc → Type 0
IsOpen v (opened i) = i ≡ 0
IsOpen v (probed i p) = (i ≡ 0) × (p ≡ 0 → v ≡ 0)
IsOpen v (free i p) = (i ≡ 0) × (p ≡ 0 → v ≡ 0)
IsOpen v (claiming i) = (i ≡ 0) × (v ≡ 0)
IsOpen v (returned b) = b ≡ false
IsOpen v _ = ⊥

-- The fiber has read the counter, and not found it at 0.
abbrev pub has_missed : WaitPc → Bool
has_missed (probed i p) = if p == 0 then false else true
has_missed (free i p) = if p == 0 then false else true
has_missed (returned b) = true
has_missed _ = false

-- A thread that is going to find the fiber in slot 0.
abbrev pub Comes : ℕ → Job → Type 0
Comes w rest = ⊥
Comes w (waking v (scan i)) = (v ≡ 0) × (i ≡ 0)
Comes w (waking v (loaded i f)) = (v ≡ 0) × (i ≡ 0) × (f ≡ w)
Comes w (waking v (unused i f)) = (v ≡ 0) × (i ≡ 0) × (f ≡ w)
Comes w (waking v (matched i f)) = (v ≡ 0) × (i ≡ 0) × (f ≡ w)
Comes w (waking v _) = ⊥

abbrev pub is_before : Phase → Bool
is_before before = true
is_before _ = false

abbrev pub is_closed : Phase → Bool
is_closed before = true
is_closed placed = true
is_closed _ = false

-- What a thread's place says of the phase, where the counter is at `v`.
abbrev pub Fits : ℕ → ℕ → Phase → ℕ → Job → Type 0
Fits w v p t rest = Unit {0}
Fits w v p t (waking value (scan i)) = value ≡ 0 → v ≡ 0
Fits w v p t (waking value (loaded i f)) =
    (value ≡ 0 → v ≡ 0) × (i ≡ 0) × (f ≡ w) × (is_before p ≡ false)
Fits w v p t (waking value (unused i f)) =
    (value ≡ 0 → v ≡ 0) × (i ≡ 0) × (f ≡ w) × (is_closed p ≡ false)
Fits w v p t (waking value (matched i f)) =
    (value ≡ 0) × (v ≡ 0) × (i ≡ 0) × (f ≡ w) × (is_closed p ≡ false)
Fits w v p t (waking value (claimed i f)) =
    (value ≡ 0) × (v ≡ 0) × (i ≡ 0) × (f ≡ w) × (p ≡ taken t)
Fits w v p t (waking value (cleared i f)) =
    (value ≡ 0) × (v ≡ 0) × (i ≡ 0) × (f ≡ w) × (p ≡ emptied t)
Fits w v p t (waking value done) = value ≡ 0 → v ≡ 0

abbrev pub IsSlot : Slot → ℕ → Bool → Type 0
IsSlot s f b = (s.fiber ≡ f) × (s.inuse ≡ b) × (s.value ≡ 0)

-- What the phase says of slot 0, of the fiber, and of the calls of `tc_fiber_ready`.
abbrev pub Shows : ℕ → Phase → ℕ → Slot → WaitPc → ℕ → (ℕ → Job) → Type 0
Shows w before v s pc r jobs = IsSlot s 0 true × (pc ≡ trying 0) × (r ≡ 0)
Shows w placed v s pc r jobs = IsSlot s w true × ((pc ≡ got 0) ⊎ (pc ≡ valued 0)) × (r ≡ 0)
Shows w waiting v s pc r jobs =
    IsSlot s w false
    × IsOpen v pc
    × (r ≡ 0)
    × (has_missed pc ≡ true → v ≡ 0 → (t : ℕ) × Comes w (jobs t))
Shows w (taken t) v s pc r jobs =
    IsSlot s w true × IsOpen v pc × (r ≡ 0) × (v ≡ 0) × (jobs t ≡ waking 0 (claimed 0 w))
Shows w (emptied t) v s pc r jobs =
    IsSlot s 0 true × IsOpen v pc × (r ≡ 0) × (v ≡ 0) × (jobs t ≡ waking 0 (cleared 0 w))
Shows w woken v s pc r jobs = IsSlot s 0 true × IsOpen v pc × (r ≡ 1) × (v ≡ 0)
Shows w own v s pc r jobs = IsSlot s w true × (pc ≡ won 0) × (r ≡ 0) × (v ≡ 0)
Shows w gone v s pc r jobs = IsSlot s 0 true × (pc ≡ returned true) × (r ≡ 0) × (v ≡ 0)

pub record Inv (w n : ℕ) (p : Phase) (s : System) : Type 0 where
  pub fiber : w ≢ 0
  pub some_slot : 1 ≤ n
  pub slots : s.future.num_slots ≡ n
  pub small : s.future.value < 2 ^ 64
  pub others : (f : ℕ) → f ≢ w → s.waits f ≡ idle
  pub rest_free : (i : ℕ) → i ≢ 0 → (s.future.slots i).fiber ≡ 0
  pub fits : (t : ℕ) → Fits w s.future.value p t (s.jobs t)
  pub shows : Shows w p s.future.value (s.future.slots 0) (s.waits w) (s.ready w) s.jobs
