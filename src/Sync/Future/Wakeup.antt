-- ===== src/Sync/Future/Wakeup.antt =====
-- One fiber at a future is woken, once, when the counter is 0 and not before.
use tcengine.Base.{ℕ, ◌^◌, ◌≤◌, ◌<◌, ◌≡◌, ◌≢◌, refl, arith, ==_self, ==_false}
use tcengine.Base.{true, false, ◌==◌}
use tcengine.Sync.Future.{fut_new, returned}
use tcengine.Sync.Future.System.{
  System, Job, at_rest, start, Step, Reach, here, next, decr, wake, wait,
}
use tcengine.Sync.Future.Invariant.{Phase, before, waiting, taken, emptied, Comes, Inv}
use tcengine.Sync.Future.Wakes.{wake-Inv}
use tcengine.Sync.Future.Reads.{Holds}
use tcengine.Sync.Future.Waits.{fiber-Inv}
use tcengine.Sync.Future.Counts.{decr-Inv}

Step-Inv : {w n : ℕ} {s t : System} → Step s t → (p : Phase) → Inv w n p s → Holds w n t
Step-Inv (decr t idle_now pos) p inv = (p, decr-Inv p inv t pos)
Step-Inv (wake t value pc e) p inv = wake-Inv p inv t value pc e
Step-Inv (wait f) p inv = fiber-Inv p inv f

module _ {w n v : ℕ} (fiber : w ≢ 0) (some_slot : 1 ≤ n) (small : v < 2 ^ 64) where
  start-Inv : Inv w n before (start v n (λ f. f == w))
  unfolding fut_new
  start-Inv = record {
    fiber = fiber;
    some_slot = some_slot;
    slots = refl;
    small = small;
    others = λ f h. rw (==_false f w h) refl;
    rest_free = λ i h. refl;
    fits = λ t. tt;
    shows = rw (==_self w) ((refl, refl, refl), refl, refl);
  }

  Reach-Inv : {s : System} → Reach (start v n (λ f. f == w)) s → Holds w n s
  Reach-Inv here = (before, start-Inv)
  Reach-Inv (next r step) = let (p, inv) = Reach-Inv r in Step-Inv step p inv

not-Comes : (w : ℕ) (j : Job) → at_rest j ≡ true → Comes w j → ⊥
not-Comes w j h c = ground arith

called_once :
    {w n : ℕ} (p : Phase) {s : System}
    → Inv w n p s
    → (s.ready w ≤ 1)
      × (s.ready w ≡ 1 → s.future.value ≡ 0)
      × (s.waits w ≡ returned true → (s.future.value ≡ 0) × (s.ready w ≡ 0))
called_once p inv = ground (arith, inv.shows)

not_stranded :
    {w n : ℕ} (p : Phase) {s : System}
    → Inv w n p s
    → s.waits w ≡ returned false
    → s.future.value ≡ 0
    → ((t : ℕ) → at_rest (s.jobs t) ≡ true)
    → s.ready w ≡ 1
not_stranded {w} waiting {s} inv e z quiet =
    let (t, comes) = inv.shows.3 (rw e refl) z in absurd (not-Comes w (s.jobs t) (quiet t) comes)
not_stranded (taken t) inv e z quiet = absurd (ground (arith, inv.shows, quiet t))
not_stranded (emptied t) inv e z quiet = absurd (ground (arith, inv.shows, quiet t))
not_stranded p inv e z quiet = ground (arith, inv.shows)

-- One fiber that is not NULL waits for 0 at a future of a slot or more, set to a value below
-- 2^64, while any number of threads count it down, each tc_fut_decr before the counter is 0, in
-- any interleaving: the fiber is made ready at most once, only when the counter is 0; where
-- counter_add_to_waiting returned true the counter is 0 and the fiber was not made ready; and
-- where it returned false, the counter is 0 and no thread is within counter_wakeup, the fiber was
-- made ready.
pub wakes_once :
    {w n v : ℕ} {s : System}
    → w ≢ 0
    → 1 ≤ n
    → v < 2 ^ 64
    → Reach (start v n (λ f. f == w)) s
    → (s.ready w ≤ 1)
      × (s.ready w ≡ 1 → s.future.value ≡ 0)
      × (s.waits w ≡ returned true → (s.future.value ≡ 0) × (s.ready w ≡ 0))
      × (s.waits w ≡ returned false
          → s.future.value ≡ 0
          → ((t : ℕ) → at_rest (s.jobs t) ≡ true)
          → s.ready w ≡ 1)
wakes_once fiber some_slot small r =
    let (p, inv) = Reach-Inv fiber some_slot small r in
    let (a, b, c) = called_once p inv in (a, b, c, not_stranded p inv)
