-- ===== src/Vfs/Path/Loop.antt =====
-- The rounds of the loop of `fs_path_join`, and what is behind it.
use mathlib.Core.List.{
  reverse, reverse_aux, reverse_aux-eq, reverse-cons, reverse-reverse, reverse-append, append_assoc,
}
use mathlib.Core.Path.{ap₂}
use tcengine.Base.{has, ℕ, zero, suc, ◌≤◌, ◌<◌, ◌+◌, ◌≡◌, ◌≢◌, refl, ◌∙◌, ap, arith}
use tcengine.Base.{false, some, List, [], ◌∷◌, ◌++◌}
use tcengine.Base.{length, ==_self}
use tcengine.Vfs.Path.{
  slash, fs_max_path, path_join, join_loop, join_start, turn, one_dot, two_dots, finish, to_parent,
  pop_component, ends_in_sep, Output, add,
}

-- Bytes that are no separators.
abbrev pub IsPlain : ℕ → List ℕ → Type 0
IsPlain sep s = (has sep s ≡ false) × (has slash s ≡ false)

module _ (sep : ℕ) where
  -- A byte before one that is no separator is copied.
  pub turn-plain :
      (c : ℕ) (s : List ℕ) (o : Output sep)
      → IsPlain sep (c ∷ s)
      → turn sep c s o ≡ (s, add sep c o)
  unfolding turn one_dot two_dots
  turn-plain c [] o h = ground arith
  turn-plain c (d ∷ []) o h = ground arith
  turn-plain c (d ∷ e ∷ es) o h = ground arith

  pub loop_step :
      (fuel c : ℕ) (cs : List ℕ) (o : Output sep)
      → length o.0 < fs_max_path
      → join_loop sep (suc fuel) (c ∷ cs) o
        ≡ join_loop sep fuel (turn sep c cs o).0 (turn sep c cs o).1
  unfolding join_loop
  loop_step fuel c cs o h = ground arith

  pub loop_done : (fuel : ℕ) (o : Output sep) → join_loop sep fuel [] o ≡ some o
  unfolding join_loop
  loop_done zero o = refl
  loop_done (suc fuel) o = refl

  -- A round whose outcome is known.
  pub loop_turn :
      (fuel c : ℕ) (cs : List ℕ) (o : Output sep) {t : List ℕ × Output sep}
      → length o.0 < fs_max_path
      → turn sep c cs o ≡ t
      → join_loop sep (suc fuel) (c ∷ cs) o ≡ join_loop sep fuel t.0 t.1
  loop_turn fuel c cs o h e = loop_step fuel c cs o h ∙ ap (λ t. join_loop sep fuel t.0 t.1) e

  -- A component without separators is copied, dots and all.
  pub join_loop-plain :
      (fuel : ℕ) (s out : List ℕ)
      → length s ≤ fuel
      → length s + length out ≤ fs_max_path
      → IsPlain sep s
      → join_loop sep fuel s (out, []) ≡ some (reverse_aux s out, [])
  join_loop-plain fuel [] out lt room h = loop_done fuel (out, [])
  join_loop-plain zero (c ∷ s) out lt room h = absurd (omega arith)
  join_loop-plain (suc fuel) (c ∷ s) out lt room h =
      loop_turn fuel c s (out, []) (omega arith) (turn-plain c s (out, []) h)
      ∙ join_loop-plain fuel s (c ∷ out) (omega arith) (omega arith) (ground arith)

  length-reverse_aux : (s out : List ℕ) → length (reverse_aux s out) ≡ length s + length out
  length-reverse_aux [] out = omega arith
  length-reverse_aux (c ∷ s) out = omega (arith, length-reverse_aux s (c ∷ out))

  pub length-reverse : (s : List ℕ) → length (reverse s) ≡ length s
  length-reverse s = length-reverse_aux s [] ∙ omega arith

  -- A base that has bytes and does not end in a separator.
  pub record IsBase (base : List ℕ) : Type 0 where
    pub some_bytes : base ≢ []
    pub open_end : ends_in_sep sep (reverse base) ≡ false

  pub start-eq : {base : List ℕ} → IsBase base → join_start sep base ≡ (sep ∷ reverse base, [])
  unfolding join_start
  start-eq {base = []} b = absurd (b.some_bytes refl)
  start-eq {base = x ∷ xs} b = rw (b.open_end) (ground arith)

  pub open_end-reverse_aux :
      (s out : List ℕ) → s ≢ [] → IsPlain sep s → ends_in_sep sep (reverse_aux s out) ≡ false
  open_end-reverse_aux [] out ne h = absurd (ne refl)
  open_end-reverse_aux (c ∷ []) out ne h = ground arith
  open_end-reverse_aux (c ∷ d ∷ s) out ne h =
      open_end-reverse_aux (d ∷ s) (c ∷ out) (cc) (ground arith)

  pub reverse_aux-ne-nil : (s out : List ℕ) → out ≢ [] → reverse_aux s out ≢ []
  reverse_aux-ne-nil [] out ne = ne
  reverse_aux-ne-nil (c ∷ s) out ne = reverse_aux-ne-nil s (c ∷ out) cc

  pub finish-open :
      (out : List ℕ)
      → out ≢ []
      → ends_in_sep sep out ≡ false
      → finish sep (out, []) ≡ some (reverse out)
  unfolding finish
  finish-open [] ne h = absurd (ne refl)
  finish-open (l ∷ out) ne h = rw h

  pub reverse-joined :
      (s base : List ℕ) → reverse (reverse_aux s (sep ∷ reverse base)) ≡ base ++ (sep ∷ s)
  reverse-joined s base =
      ap reverse (reverse_aux-eq s (sep ∷ reverse base))
      ∙ reverse-append (reverse s) (sep ∷ reverse base)
      ∙ ap₂ ◌++◌
          (reverse-cons sep (reverse base) ∙ ap (λ t. t ++ (sep ∷ [])) (reverse-reverse base))
          (reverse-reverse s)
      ∙ append_assoc base (sep ∷ []) s

  -- What the loop leaves is turned round, unless it ends in a separator.
  pub finish-plain :
      (s base : List ℕ)
      → s ≢ []
      → IsPlain sep s
      → finish sep (reverse_aux s (sep ∷ reverse base), []) ≡ some (base ++ (sep ∷ s))
  finish-plain s base ne h =
      finish-open (reverse_aux s (sep ∷ reverse base)) (reverse_aux-ne-nil s _ cc)
        (open_end-reverse_aux s _ ne h)
      ∙ ap some (reverse-joined s base)

  -- A join whose loop ends with `o`.
  pub join_of_loop :
      (base : List ℕ) (c : ℕ) (cs : List ℕ) {o : Output sep}
      → join_loop sep (suc (length cs)) (c ∷ cs) (join_start sep base) ≡ some o
      → path_join sep base (c ∷ cs) ≡ finish sep o
  unfolding path_join
  join_of_loop base c cs e = rw (e, path_join)

  -- The same when the loop has come to the component's bytes `s` with `out`, whatever stands behind.
  pub join_loop_rest :
      (fuel : ℕ) (s out stale : List ℕ)
      → length s ≤ fuel
      → length s + length out ≤ fs_max_path
      → s ≢ []
      → IsPlain sep s
      → join_loop sep fuel s (out, stale) ≡ some (reverse_aux s out, [])
  join_loop_rest fuel [] out stale lt room ne h = absurd (ne refl)
  join_loop_rest zero (c ∷ s) out stale lt room ne h = absurd (omega arith)
  join_loop_rest (suc fuel) (c ∷ s) out stale lt room ne h =
      loop_turn fuel c s (out, stale) (omega arith) (turn-plain c s (out, stale) h)
      ∙ join_loop-plain fuel s (c ∷ out) (omega arith) (omega arith) (ground arith)

  pub to_parent-append :
      (s out stale : List ℕ)
      → IsPlain sep s
      → to_parent sep (s ++ (sep ∷ out)) stale ≡ (sep ∷ out, reverse_aux s stale)
  unfolding to_parent
  to_parent-append [] out stale h = rw (==_self sep)
  to_parent-append (c ∷ s) out stale h = ground (arith, to_parent-append s out (c ∷ stale))

  pub IsPlain-reverse_aux :
      (s t : List ℕ) → IsPlain sep s → IsPlain sep t → IsPlain sep (reverse_aux s t)
  IsPlain-reverse_aux [] t h k = k
  IsPlain-reverse_aux (c ∷ s) t h k = IsPlain-reverse_aux s (c ∷ t) (ground arith) (ground arith)

  pub pop_sep :
      (out stale : List ℕ)
      → out ≢ []
      → pop_component sep (sep ∷ out, stale) ≡ to_parent sep out (sep ∷ stale)
  unfolding pop_component
  pop_sep [] stale ne = absurd (ne refl)
  pop_sep (d ∷ out) stale ne = rw (==_self sep)

  pub reverse-behind :
      (dir last : List ℕ)
      → reverse (dir ++ (sep ∷ last)) ≡ reverse_aux last [] ++ (sep ∷ reverse dir)
  reverse-behind dir last =
      reverse-append dir (sep ∷ last)
      ∙ ap (λ t. t ++ reverse dir) (reverse-cons sep last)
      ∙ append_assoc (reverse last) (sep ∷ []) (reverse dir)

  pub ends_in_sep-append :
      (s out : List ℕ) → s ≢ [] → ends_in_sep sep s ≡ false → ends_in_sep sep (s ++ out) ≡ false
  ends_in_sep-append [] out ne h = absurd (ne refl)
  ends_in_sep-append (c ∷ s) out ne h = h

  pub nil-append : (dir : List ℕ) (c : ℕ) (s : List ℕ) → dir ++ (c ∷ s) ≢ []
  nil-append [] c s = cc
  nil-append (x ∷ dir) c s = cc

  pub reverse_aux-some : (s out : List ℕ) → s ≢ [] → reverse_aux s out ≢ []
  reverse_aux-some [] out ne = absurd (ne refl)
  reverse_aux-some (c ∷ s) out ne = reverse_aux-ne-nil s (c ∷ out) cc

  pub IsBase-append :
      (dir last : List ℕ) → last ≢ [] → IsPlain sep last → IsBase (dir ++ (sep ∷ last))
  IsBase-append dir last ne h = record {
    some_bytes = nil-append dir sep last;
    open_end =
        ap (ends_in_sep sep) (reverse-behind dir last)
        ∙ ends_in_sep-append (reverse_aux last []) (sep ∷ reverse dir) (reverse_aux-some last [] ne)
            (open_end-reverse_aux last [] ne h);
  }

  -- `..` takes the last part of the output away, down to the separator before it.
  pub pop_last :
      (dir last : List ℕ)
      → last ≢ []
      → IsPlain sep last
      → pop_component sep (sep ∷ reverse (dir ++ (sep ∷ last)), [])
        ≡ (sep ∷ reverse dir, reverse_aux (reverse_aux last []) (sep ∷ []))
  pop_last dir last ne h =
      ap (λ t. pop_component sep (sep ∷ t, [])) (reverse-behind dir last)
      ∙ pop_sep (reverse_aux last [] ++ (sep ∷ reverse dir)) []
          (nil-append (reverse_aux last []) sep _)
      ∙ to_parent-append (reverse_aux last []) (reverse dir) (sep ∷ [])
          (IsPlain-reverse_aux last [] h (refl, refl))
