-- ===== src/Sync/Future/Waits.antt =====
-- One access of the fiber that waits keeps the invariant.
use mathlib.Core.Path.{subst, sym, ap, ◌∙◌}
use tcengine.Base.{
  ℕ, ◌≡◌, ◌≢◌, refl, arith, inl, inr, Bool-cases, ==_self, ==_false, if-true, if-false,
}
use tcengine.Base.{true, false, ◌==◌}
use tcengine.Sync.Future.{
  Future, WaitPc, opened, probed, free, claiming, won, returned, wait_step, set_slot,
}
use tcengine.Sync.Future.System.{System, after_wait}
use tcengine.Sync.Future.Invariant.{
  Phase, before, placed, waiting, taken, emptied, woken, own, gone, IsOpen, has_missed, Comes, Inv,
}
use tcengine.Sync.Future.Moves.{open_waits, slot_value}
use tcengine.Sync.Future.Reads.{Holds, read_on, before-Inv, got_zero, valued_zero, claims, leaves}

open_in_waiting :
    {w n : ℕ} (p : Phase) {s : System}
    → Inv w n p s
    → p ≡ waiting
    → ((s.future.slots 0).inuse ≡ false)
      × (has_missed (s.waits w) ≡ true → s.future.value ≡ 0 → (t : ℕ) × Comes w (s.jobs t))
open_in_waiting waiting inv h = (inv.shows.0.1, inv.shows.3)
open_in_waiting p inv h = cc

-- The fiber, in a phase in which it has opened its slot.
module _ {w n : ℕ} (p : Phase) {s : System} (inv : Inv w n p s) where
  by_equal :
      {x y : Future × WaitPc} → x ≡ y → Holds w n (after_wait s w y) → Holds w n (after_wait s w x)
  by_equal e h = subst (λ x. Holds w n (after_wait s w x)) (sym e) h

  open-Inv :
      (pc : WaitPc)
      → s.waits w ≡ pc
      → IsOpen s.future.value pc
      → Holds w n (after_wait s w (wait_step w 0 s.future pc))
  unfolding wait_step
  open-Inv (opened i) e o =
      read_on p (probed i s.future.value) inv (rw e o) (o, λ z. z) (λ h m z. absurd (ground arith))
  open-Inv (probed i x) e o = elim (Bool-cases (s.future.slots i).inuse) [
    | inl used ↦ by_equal (if-true _ _ used) (
        read_on p (returned false) inv (rw e o) refl (λ h m z.
          absurd (ground (arith, open_in_waiting p inv h, ap (λ i. (s.future.slots i).inuse) o.0))))
    | inr no_use ↦
        by_equal (if-false _ _ no_use)
          (read_on p (free i x) inv (rw e o) o (λ h m z. (open_in_waiting p inv h).1 (rw e m) z))
  ]
  open-Inv (free i x) e o = elim (Bool-cases ((s.future.slots i).value == x)) [
    | inl same ↦ by_equal (if-true _ _ same) (
        read_on p (claiming i) inv (rw e o)
          (o.0, o.1 (ground (arith, slot_value p inv, ap (λ i. (s.future.slots i).value) o.0)))
          (λ h m z. absurd (cc)))
    | inr other ↦ by_equal (if-false _ _ other) (
        read_on p (returned false) inv (rw e o) refl (λ h m z.
          (open_in_waiting p inv h).1
            (rw e (ground (arith, slot_value p inv, ap (λ i. (s.future.slots i).value) o.0))) z))
  ]
  open-Inv (claiming i) e o = elim (Bool-cases (s.future.slots i).inuse) [
    | inl used ↦ by_equal (if-true _ _ used) (
        read_on p (returned false) inv (rw e o) refl (λ h m z.
          absurd (ground (arith, open_in_waiting p inv h, ap (λ i. (s.future.slots i).inuse) o.0))))
    | inr no_use ↦ by_equal (if-false _ _ no_use) (
      own,
      subst
          (λ i. Inv w n own (
            after_wait s w
              (set_slot i (record (s.future.slots i) { inuse = true }) s.future, won i)))
          (sym o.0)
          (claims
            (subst (λ p. Inv w n p s)
              (open_waits p inv (ap (λ i. (s.future.slots i).inuse) (sym o.0) ∙ no_use)) inv)
            o.1),
    )
  ]
  open-Inv (returned b) e o =
      read_on p (returned b) inv (rw e o) o (λ h m z. (open_in_waiting p inv h).1 (rw e refl) z)
  open-Inv pc e o = absurd o

wait-Inv :
    {w n : ℕ} (p : Phase) {s : System}
    → Inv w n p s
    → Holds w n (after_wait s w (wait_step w 0 s.future (s.waits w)))
unfolding wait_step
wait-Inv {w} {n} before {s} inv =
    subst (λ x. Holds w n (after_wait s w (wait_step w 0 s.future x))) (sym inv.shows.1)
      (before-Inv inv)
wait-Inv {w} {n} placed {s} inv = elim inv.shows.1 [
  | inl e ↦
      subst (λ x. Holds w n (after_wait s w (wait_step w 0 s.future x))) (sym e) (got_zero inv e)
  | inr e ↦
      subst (λ x. Holds w n (after_wait s w (wait_step w 0 s.future x))) (sym e) (valued_zero inv e)
]
wait-Inv {w} waiting {s} inv = open-Inv waiting inv (s.waits w) refl inv.shows.1
wait-Inv {w} (taken t) {s} inv = open-Inv (taken t) inv (s.waits w) refl inv.shows.1
wait-Inv {w} (emptied t) {s} inv = open-Inv (emptied t) inv (s.waits w) refl inv.shows.1
wait-Inv {w} woken {s} inv = open-Inv woken inv (s.waits w) refl inv.shows.1
wait-Inv {w} {n} own {s} inv =
    subst (λ x. Holds w n (after_wait s w (wait_step w 0 s.future x))) (sym inv.shows.1)
      (leaves inv)
wait-Inv {w} {n} gone {s} inv =
    subst (λ x. Holds w n (after_wait s w (wait_step w 0 s.future x))) (sym inv.shows.1)
      (
        gone,
        record {
          fiber = inv.fiber;
          some_slot = inv.some_slot;
          slots = inv.slots;
          small = inv.small;
          others = λ f h. ground (arith, inv.others f h);
          rest_free = inv.rest_free;
          fits = inv.fits;
          shows = rw (==_self w) (ground (arith, inv.shows));
        },
      )

-- A fiber that does not wait.
idle-Inv :
    {w n : ℕ} (p : Phase) {s : System}
    → Inv w n p s
    → (f : ℕ) → f ≢ w
    → Inv w n p (after_wait s f (wait_step f 0 s.future (s.waits f)))
unfolding wait_step
idle-Inv {w} {n} p {s} inv f ne =
    subst (λ x. Inv w n p (after_wait s f (wait_step f 0 s.future x))) (sym (inv.others f ne))
      (record {
        fiber = inv.fiber;
        some_slot = inv.some_slot;
        slots = inv.slots;
        small = inv.small;
        others = λ g h. ground (arith, inv.others g h);
        rest_free = inv.rest_free;
        fits = inv.fits;
        shows = rw (==_false f w ne) inv.shows;
      })

pub fiber-Inv :
    {w n : ℕ} (p : Phase) {s : System}
    → Inv w n p s
    → (f : ℕ) → Holds w n (after_wait s f (wait_step f 0 s.future (s.waits f)))
fiber-Inv {w} {n} p {s} inv f = elim (Bool-cases (f == w)) [
  | inl e ↦
      let same : w ≡ f = ground arith in
      subst (λ f. Holds w n (after_wait s f (wait_step f 0 s.future (s.waits f)))) same
        (wait-Inv p inv)
  | inr e ↦ (p, idle-Inv p inv f (ground arith))
]
