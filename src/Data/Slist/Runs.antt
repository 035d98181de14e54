-- ===== src/Data/Slist/Runs.antt =====
-- Any sequence of operations on a queue against the same operations on the sequence of its nodes.
-- A node's link is cleared before it is put at the end, as `lf_lifo_init` does for a fiber that is
-- made ready.
use mathlib.Core.Path.{ap₂}
use tcengine.Base.{ℕ, ◌≡◌, ◌≢◌, refl, arith, List, [], ◌∷◌, ◌++◌, has, drop}
use tcengine.Base.{false}
use tcengine.Data.List.Chain.{first_of}
use tcengine.Data.Slist.{
  Heap, slist_init, slist_add_tail, slist_push_front, slist_pop_front, lifo_init,
}
use tcengine.Data.Slist.Fifo.{
  IsQueue, slist_init-IsQueue, slist_add_tail-IsQueue, slist_push_front-IsQueue,
  slist_pop_front-IsQueue, lifo_init-IsQueue,
}

pub data Call : Type 0 where
  push_front : (node : ℕ) → Call
  add_tail : (node : ℕ) → Call
  pop_front : Call

-- The heap behind a call, and the node it returns, 0 for none.
pub call : (list : ℕ) → Call → Heap → Heap × ℕ
call list (push_front n) h = (slist_push_front list n h, 0)
call list (add_tail n) h = (slist_add_tail list n (lifo_init n h), 0)
call list pop_front h = slist_pop_front list h

pub calls : (list : ℕ) → List Call → Heap → Heap × List ℕ
calls list [] h = (h, [])
calls list (k ∷ ks) h =
    let (h', r) = call list k h in let (h'', rs) = calls list ks h' in (h'', r ∷ rs)

-- What the calls are meant to do.
abbrev pub meant : Call → List ℕ → List ℕ × ℕ
meant (push_front n) xs = (n ∷ xs, 0)
meant (add_tail n) xs = (xs ++ (n ∷ []), 0)
meant pop_front xs = (drop 1 xs, first_of xs 0)

unfoldable pub all_meant : List Call → List ℕ → List ℕ × List ℕ
all_meant [] xs = (xs, [])
all_meant (k ∷ ks) xs =
    let (xs', r) = meant k xs in let (xs'', rs) = all_meant ks xs' in (xs'', r ∷ rs)

-- A node is not NULL and stands in no queue when it is put into one.
abbrev pub Allowed : (list : ℕ) → Call → List ℕ → Type 0
Allowed list (push_front n) xs = has n (0 ∷ list ∷ xs) ≡ false
Allowed list (add_tail n) xs = has n (0 ∷ list ∷ xs) ≡ false
Allowed list pop_front xs = Unit {0}

abbrev pub AllAllowed : (list : ℕ) → List Call → List ℕ → Type 0
AllAllowed list [] xs = Unit {0}
AllAllowed list (k ∷ ks) xs = Allowed list k xs × AllAllowed list ks (meant k xs).0

call-IsQueue :
    (list : ℕ) (k : Call) (h : Heap) (xs : List ℕ)
    → IsQueue h list xs
    → Allowed list k xs
    → IsQueue (call list k h).0 list (meant k xs).0 × ((call list k h).1 ≡ (meant k xs).1)
unfolding call
call-IsQueue list (push_front n) h xs q ok = (slist_push_front-IsQueue h list n xs q ok, refl)
call-IsQueue list (add_tail n) h xs q ok =
    let (q', free) = lifo_init-IsQueue h list n xs q (ground arith) in
    (slist_add_tail-IsQueue (lifo_init n h) list n xs q' ok free, refl)
call-IsQueue list pop_front h xs q ok = slist_pop_front-IsQueue h list xs q

calls-IsQueue :
    (list : ℕ) (ks : List Call) (h : Heap) (xs : List ℕ)
    → IsQueue h list xs
    → AllAllowed list ks xs
    → IsQueue (calls list ks h).0 list (all_meant ks xs).0
      × ((calls list ks h).1 ≡ (all_meant ks xs).1)
unfolding calls all_meant
calls-IsQueue list [] h xs q ok = (q, refl)
calls-IsQueue list (k ∷ ks) h xs q ok =
    let (q', e) = call-IsQueue list k h xs q ok.0 in
    let (q'', es) = calls-IsQueue list ks (call list k h).0 (meant k xs).0 q' ok.1 in
    (q'', ap₂ ◌∷◌ e es)

-- Whatever calls are made of a new queue, lifo_init and slist_add_tail, slist_push_front and
-- slist_pop_front in any order, the queue holds the nodes that a sequence would hold, with its
-- tail at the last one, and slist_pop_front returns what the sequence would give, NULL for an
-- empty one: for nodes that are not NULL and stand in no queue when they are added.
pub calls-slist_init :
    (h : Heap) (list : ℕ) (ks : List Call)
    → list ≢ 0
    → AllAllowed list ks []
    → IsQueue (calls list ks (slist_init list h)).0 list (all_meant ks []).0
      × ((calls list ks (slist_init list h)).1 ≡ (all_meant ks []).1)
calls-slist_init h list ks ne ok =
    calls-IsQueue list ks (slist_init list h) [] (slist_init-IsQueue h list ne) ok
