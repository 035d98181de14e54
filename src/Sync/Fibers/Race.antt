-- ===== src/Sync/Fibers/Race.antt =====
-- What happens to a fiber that is made ready before the worker that it left has looked at its job.
use tcengine.Base.{ℕ, true, false, List, [], ◌∷◌}
use tcengine.Sync.Fibers.{Event, works, wakes}

-- Fiber n is made ready; worker v pops it, resumes it, runs it to the end of its job, saves its
-- context and looks at its job; and then worker w looks at the job.
abbrev pub race : (v w n : ℕ) → List Event
race v w n =
    wakes n
    ∷ works v false false
    ∷ works v false false
    ∷ works v false true
    ∷ works v false false
    ∷ works v false false
    ∷ works w false false
    ∷ []
