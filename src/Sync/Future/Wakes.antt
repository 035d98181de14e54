-- ===== src/Sync/Future/Wakes.antt =====
-- One access of a thread that wakes fibers keeps the invariant.
use tcengine.Base.{ℕ, ◌+◌, ◌≡◌, ◌≢◌, refl, arith, inl, inr, Bool-cases, if-true, if-false}
use mathlib.Core.Path.{subst, sym, ap, ◌∙◌}
use tcengine.Base.{true, Option, none, some, ◌==◌, ltb}
use tcengine.Sync.Future.{
  Future, WakePc, scan, loaded, unused, matched, claimed, cleared, done, wake_step, set_slot,
}
use tcengine.Sync.Future.System.{System, Job, waking, after_wake}
use tcengine.Sync.Future.Invariant.{Phase, waiting, taken, emptied, woken, Comes, Fits, Inv}
use tcengine.Sync.Future.Moves.{
  move-Inv, fiber_in_waiting, found, slot_value, open_waits, not-taken, not-emptied, matched_claims,
  claimed_clears, cleared_readies,
}

subst₃ :
    (P : ℕ → ℕ → ℕ → Type 0) {a a' b b' c c' : ℕ} → a ≡ a' → b ≡ b' → c ≡ c' → P a b c → P a' b' c'
subst₃ P {a'} {b} {b'} {c} x y z h =
    subst (λ c. P a' b' c) z (subst (λ b. P a' b c) y (subst (λ a. P a b c) x h))

module _ {w n : ℕ} (p : Phase) {s : System} (inv : Inv w n p s) (t value : ℕ) where
  -- What is so behind a step, in some phase.
  abbrev Holds : System → Type 0
  Holds s' = (q : Phase) × Inv w n q s'

  stay :
      (pc pc' : WakePc)
      → s.jobs t ≡ waking value pc
      → Fits w s.future.value p t (waking value pc')
      → (p ≡ waiting → Comes w (waking value pc) → Comes w (waking value pc'))
      → (p ≢ taken t)
      → (p ≢ emptied t)
      → Holds (after_wake s t value (s.future, pc', none))
  stay pc pc' e fit keep x y = (
    p,
    move-Inv w t (waking value pc') p inv fit (λ z c. keep z (subst (Comes w) e c))
        (λ h. absurd (x h)) (λ h. absurd (y h)),
  )

  by_equal :
      {x y : Future × WakePc × Option ℕ}
      → x ≡ y
      → Holds (after_wake s t value y)
      → Holds (after_wake s t value x)
  by_equal e h = subst (λ x. Holds (after_wake s t value x)) (sym e) h

  Fits-here : (j : Job) → s.jobs t ≡ j → Fits w s.future.value p t j
  Fits-here j e = subst (Fits w s.future.value p t) e (inv.fits t)

  scan-Inv :
      (i : ℕ)
      → s.jobs t ≡ waking value (scan i)
      → Holds (after_wake s t value (wake_step value s.future (scan i)))
  unfolding wake_step
  scan-Inv i e =
      let fit : (value ≡ 0 → s.future.value ≡ 0) = Fits-here (waking value (scan i)) e in
      elim (Bool-cases (ltb i s.future.num_slots)) [
        | inr past ↦ by_equal (if-false _ _ past) (
            stay (scan i) done e fit (λ z c. absurd (ground (arith, inv.slots, inv.some_slot)))
              (not-taken p inv t value (scan i) e refl) (not-emptied p inv t value (scan i) e refl))
        | inl within ↦ elim (Bool-cases ((s.future.slots i).fiber == 0)) [
          | inl empty ↦ by_equal (if-true _ _ within ∙ if-true _ _ empty) (
              stay (scan i) (scan (i + 1)) e fit
                (λ z c. absurd (
                  ground (
                    arith,
                    fiber_in_waiting p inv z,
                    inv.fiber,
                    ap (λ x. (s.future.slots x).fiber) c.1,
                  )))
                (not-taken p inv t value (scan i) e refl)
                (not-emptied p inv t value (scan i) e refl))
          | inr some_fiber ↦
              let there = found p inv i (ground arith) in
              by_equal (if-true _ _ within ∙ if-false _ _ some_fiber) (
                stay (scan i) (loaded i (s.future.slots i).fiber) e (fit, there.0, there.1, there.2)
                  (λ z c. (c.0, c.1, there.1)) (not-taken p inv t value (scan i) e refl)
                  (not-emptied p inv t value (scan i) e refl))
        ]
      ]

  loaded-Inv :
      (i f : ℕ)
      → s.jobs t ≡ waking value (loaded i f)
      → Holds (after_wake s t value (wake_step value s.future (loaded i f)))
  unfolding wake_step
  loaded-Inv i f e =
      let fit : Fits w s.future.value p t (waking value (loaded i f)) =
        Fits-here (waking value (loaded i f)) e in
      elim (Bool-cases (s.future.slots i).inuse) [
        | inl used ↦ by_equal (if-true _ _ used) (
            stay (loaded i f) (scan (i + 1)) e fit.0
              (λ z c.
                absurd (
                  ground (arith, fiber_in_waiting p inv z, ap (λ x. (s.future.slots x).inuse) c.1)))
              (not-taken p inv t value (loaded i f) e refl)
              (not-emptied p inv t value (loaded i f) e refl))
        | inr open_slot ↦ by_equal (if-false _ _ open_slot) (
            stay (loaded i f) (unused i f) e
              (
                fit.0,
                fit.1,
                fit.2,
                ground (arith, open_waits p inv, ap (λ x. (s.future.slots x).inuse) fit.1),
              )
              (λ z c. c) (not-taken p inv t value (loaded i f) e refl)
              (not-emptied p inv t value (loaded i f) e refl))
      ]

  unused-Inv :
      (i f : ℕ)
      → s.jobs t ≡ waking value (unused i f)
      → Holds (after_wake s t value (wake_step value s.future (unused i f)))
  unfolding wake_step
  unused-Inv i f e =
      let fit : Fits w s.future.value p t (waking value (unused i f)) =
        Fits-here (waking value (unused i f)) e in
      elim (Bool-cases ((s.future.slots i).value == value)) [
        | inl same ↦ by_equal (if-true _ _ same) (
            stay (unused i f) (matched i f) e ground
              (arith, fit, slot_value p inv, ap (λ x. (s.future.slots x).value) fit.1) (λ z c. c)
              (not-taken p inv t value (unused i f) e refl)
              (not-emptied p inv t value (unused i f) e refl))
        | inr other ↦ by_equal (if-false _ _ other) (
            stay (unused i f) (scan (i + 1)) e fit.0
              (λ z c.
                absurd (ground (arith, slot_value p inv, ap (λ x. (s.future.slots x).value) fit.1)))
              (not-taken p inv t value (unused i f) e refl)
              (not-emptied p inv t value (unused i f) e refl))
      ]

  matched-Inv :
      (i f : ℕ)
      → s.jobs t ≡ waking value (matched i f)
      → Holds (after_wake s t value (wake_step value s.future (matched i f)))
  unfolding wake_step
  matched-Inv i f e =
      let fit : Fits w s.future.value p t (waking value (matched i f)) =
        Fits-here (waking value (matched i f)) e in
      elim (Bool-cases (s.future.slots i).inuse) [
        | inl used ↦ by_equal (if-true _ _ used) (
            stay (matched i f) (scan (i + 1)) e (λ _. fit.1)
              (λ z c. absurd (
                ground (arith, fiber_in_waiting p inv z, ap (λ x. (s.future.slots x).inuse) fit.2)))
              (not-taken p inv t value (matched i f) e refl)
              (not-emptied p inv t value (matched i f) e refl))
        | inr open_slot ↦ by_equal (if-false _ _ open_slot) (
          taken t,
          subst₃
              (λ v i f. Inv w n (taken t) (
                after_wake s t v (
                  set_slot i (record (s.future.slots i) { inuse = true }) s.future,
                  claimed i f,
                  none,
                )))
              (sym fit.0) (sym fit.2) (sym fit.3)
              (matched_claims t
                (subst (λ p. Inv w n p s)
                  (open_waits p inv (ap (λ x. (s.future.slots x).inuse) (sym fit.2) ∙ open_slot))
                  inv)
                fit.1 (subst₃ (λ v i f. s.jobs t ≡ waking v (matched i f)) fit.0 fit.2 fit.3 e)),
        )
      ]

  claimed-Inv :
      (i f : ℕ)
      → s.jobs t ≡ waking value (claimed i f)
      → Holds (after_wake s t value (wake_step value s.future (claimed i f)))
  unfolding wake_step
  claimed-Inv i f e =
      let fit : Fits w s.future.value p t (waking value (claimed i f)) =
        Fits-here (waking value (claimed i f)) e in
      (
        emptied t,
        subst₃
            (λ v i f. Inv w n (emptied t) (
              after_wake s t v
                (set_slot i (record (s.future.slots i) { fiber = 0 }) s.future, cleared i f, none)))
            (sym fit.0) (sym fit.2) (sym fit.3)
            (claimed_clears t (subst (λ p. Inv w n p s) fit.4 inv)),
      )

  cleared-Inv :
      (i f : ℕ)
      → s.jobs t ≡ waking value (cleared i f)
      → Holds (after_wake s t value (wake_step value s.future (cleared i f)))
  unfolding wake_step
  cleared-Inv i f e =
      let fit : Fits w s.future.value p t (waking value (cleared i f)) =
        Fits-here (waking value (cleared i f)) e in
      (
        woken,
        subst₃ (λ v i f. Inv w n woken (after_wake s t v (s.future, scan (i + 1), some f)))
            (sym fit.0) (sym fit.2) (sym fit.3)
            (cleared_readies t (subst (λ p. Inv w n p s) fit.4 inv)),
      )

  pub wake-Inv :
      (pc : WakePc)
      → s.jobs t ≡ waking value pc
      → Holds (after_wake s t value (wake_step value s.future pc))
  unfolding wake_step
  wake-Inv (scan i) e = scan-Inv i e
  wake-Inv (loaded i f) e = loaded-Inv i f e
  wake-Inv (unused i f) e = unused-Inv i f e
  wake-Inv (matched i f) e = matched-Inv i f e
  wake-Inv (claimed i f) e = claimed-Inv i f e
  wake-Inv (cleared i f) e = cleared-Inv i f e
  wake-Inv done e =
      stay done done e (Fits-here (waking value done) e) (λ z c. c)
        (not-taken p inv t value done e refl) (not-emptied p inv t value done e refl)
