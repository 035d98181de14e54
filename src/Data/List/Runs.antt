-- ===== src/Data/List/Runs.antt =====
-- Any sequence of operations on a list against the same operations on the sequence of its nodes.
use mathlib.Core.Path.{subst, ap₂}
use tcengine.Base.{ℕ, ◌≡◌, refl, sym, ◌∙◌, ap, arith, List, [], ◌∷◌, ◌++◌, has, drop}
use tcengine.Base.{true, false, ◌==◌, if◌then◌else◌, Bool-cases, inl, inr, if-true, if-false}
use tcengine.Data.List.{Heap, list_init, list_add, list_add_tail, list_remove, list_pop}
use tcengine.Data.List.Chain.{first_of}
use tcengine.Data.List.Operations.{
  IsList, list_init-IsList, list_add-IsList, list_add_tail-IsList, list_remove-IsList,
  list_pop-IsList,
}

pub data Call : Type 0 where
  add : (node : ℕ) → Call
  add_tail : (node : ℕ) → Call
  remove : (node : ℕ) → Call
  pop : Call

-- The heap behind a call, and the node it returns, 0 for none.
pub call : (list : ℕ) → Call → Heap → Heap × ℕ
call list (add n) h = (list_add list n h, 0)
call list (add_tail n) h = (list_add_tail list n h, 0)
call list (remove n) h = (list_remove n h, 0)
call list pop h = list_pop list h

pub calls : (list : ℕ) → List Call → Heap → Heap × List ℕ
calls list [] h = (h, [])
calls list (k ∷ ks) h =
    let (h', r) = call list k h in let (h'', rs) = calls list ks h' in (h'', r ∷ rs)

-- What the calls are meant to do.
unfoldable pub without : ℕ → List ℕ → List ℕ
without n [] = []
without n (x ∷ xs) = if x == n then xs else x ∷ without n xs

abbrev pub meant : Call → List ℕ → List ℕ × ℕ
meant (add n) xs = (n ∷ xs, 0)
meant (add_tail n) xs = (xs ++ (n ∷ []), 0)
meant (remove n) xs = (without n xs, 0)
meant pop xs = (drop 1 xs, first_of xs 0)

unfoldable pub all_meant : List Call → List ℕ → List ℕ × List ℕ
all_meant [] xs = (xs, [])
all_meant (k ∷ ks) xs =
    let (xs', r) = meant k xs in let (xs'', rs) = all_meant ks xs' in (xs'', r ∷ rs)

-- A node is put into the list only while it is in none, and taken out only while it is in.
abbrev pub Allowed : (list : ℕ) → Call → List ℕ → Type 0
Allowed list (add n) xs = has n (list ∷ xs) ≡ false
Allowed list (add_tail n) xs = has n (list ∷ xs) ≡ false
Allowed list (remove n) xs = has n xs ≡ true
Allowed list pop xs = Unit {0}

abbrev pub AllAllowed : (list : ℕ) → List Call → List ℕ → Type 0
AllAllowed list [] xs = Unit {0}
AllAllowed list (k ∷ ks) xs = Allowed list k xs × AllAllowed list ks (meant k xs).0

-- Where a node stands.
split_at :
    (n : ℕ) (xs : List ℕ)
    → has n xs ≡ true
    → (before : List ℕ) × (after : List ℕ) × (xs ≡ before ++ (n ∷ after))
      × (without n xs ≡ before ++ after)
unfolding without
split_at n [] h = absurd (cc)
split_at n (x ∷ xs) h = elim (Bool-cases (x == n)) [
  | inl e ↦ let same : x ≡ n = ground arith in ([], xs, ap (λ t. t ∷ xs) same, if-true _ _ e)
  | inr e ↦
      let (before, after, whole, rest) = split_at n xs (ground arith) in
      (x ∷ before, after, ap (λ t. x ∷ t) whole, if-false _ _ e ∙ ap (λ t. x ∷ t) rest)
]

call-IsList :
    (list : ℕ) (k : Call) (h : Heap) (xs : List ℕ)
    → IsList h list xs
    → Allowed list k xs
    → IsList (call list k h).0 list (meant k xs).0 × ((call list k h).1 ≡ (meant k xs).1)
unfolding call
call-IsList list (add n) h xs l ok = (list_add-IsList h list n xs l ok, refl)
call-IsList list (add_tail n) h xs l ok = (list_add_tail-IsList h list n xs l ok, refl)
call-IsList list (remove n) h xs l ok =
    let (before, after, whole, rest) = split_at n xs ok in
    (
      subst (λ t. IsList (list_remove n h) list t) (sym rest)
          (list_remove-IsList h list before n after (subst (λ t. IsList h list t) whole l)),
      refl,
    )
call-IsList list pop h xs l ok = list_pop-IsList h list xs l

calls-IsList :
    (list : ℕ) (ks : List Call) (h : Heap) (xs : List ℕ)
    → IsList h list xs
    → AllAllowed list ks xs
    → IsList (calls list ks h).0 list (all_meant ks xs).0
      × ((calls list ks h).1 ≡ (all_meant ks xs).1)
unfolding calls all_meant
calls-IsList list [] h xs l ok = (l, refl)
calls-IsList list (k ∷ ks) h xs l ok =
    let (l', e) = call-IsList list k h xs l ok.0 in
    let (l'', es) = calls-IsList list ks (call list k h).0 (meant k xs).0 l' ok.1 in
    (l'', ap₂ ◌∷◌ e es)

-- Whatever calls are made of a new list, list_add, list_add_tail, list_remove and list_pop in any
-- order, the list holds the nodes that a sequence would hold, linked in both directions, and
-- list_pop returns what the sequence would give, NULL for an empty one: for nodes that stand in
-- no list when they are added, and that stand in the list when they are removed.
pub calls-list_init :
    (h : Heap) (list : ℕ) (ks : List Call)
    → AllAllowed list ks []
    → IsList (calls list ks (list_init list h)).0 list (all_meant ks []).0
      × ((calls list ks (list_init list h)).1 ≡ (all_meant ks []).1)
calls-list_init h list ks ok =
    calls-IsList list ks (list_init list h) [] (list_init-IsList h list) ok
