-- ===== src/Data/Slist/Fifo.antt =====
-- A singly linked list with its tail is a queue.
use mathlib.Core.Path.{subst}
use tcengine.Base.{
  ℕ, ◌≡◌, ◌≢◌, refl, sym, ◌∙◌, ap, arith, List, [], ◌∷◌, ◌++◌, has, has-append, drop,
}
use tcengine.Base.{true, false, ◌==◌, if◌then◌else◌, update, if-true, if-false}
use tcengine.Data.List.Chain.{distinct, last_of, first_of, has-last_of}
use tcengine.Data.List.Operations.{distinct-append}
use tcengine.Data.Slist.{
  Heap, set_next, set_tail, lifo_init, lifo_empty, lifo_push, lifo_pop, slist_init,
  slist_push_front, slist_pop_front, slist_add_tail,
}

-- From `a` through `xs` to NULL.
abbrev pub Linked : (ℕ → ℕ) → ℕ → List ℕ → Type 0
Linked next a [] = next a ≡ 0
Linked next a (x ∷ xs) = (next a ≡ x) × Linked next x xs

-- `list` is linked through `nodes`, in this order, and its tail is the last one, or the list itself.
pub record IsQueue (h : Heap) (list : ℕ) (nodes : List ℕ) : Type 0 where
  pub linked : Linked h.next list nodes
  pub at_end : h.tail list ≡ last_of list nodes
  pub apart : distinct (list ∷ nodes) ≡ true
  pub no_null : has 0 (list ∷ nodes) ≡ false

Linked-update :
    (next : ℕ → ℕ) (a : ℕ) (xs : List ℕ) (p q : ℕ)
    → Linked next a xs
    → has p (a ∷ xs) ≡ false
    → Linked (update next p q) a xs
Linked-update next a [] p q l h = ground arith
Linked-update next a (x ∷ xs) p q l h =
    (ground arith, Linked-update next x xs p q l.1 (ground arith))

Linked-append :
    (next : ℕ → ℕ) (a : ℕ) (xs : List ℕ) (n : ℕ)
    → Linked next a xs
    → distinct (a ∷ xs) ≡ true
    → has n (a ∷ xs) ≡ false
    → next n ≡ 0
    → Linked (update next (last_of a xs) n) a (xs ++ (n ∷ []))
Linked-append next a [] n l d h z = (ground arith, ground arith)
Linked-append next a (x ∷ xs) n l d h z = (
  ground (arith, has-last_of x xs a (ground arith)),
  Linked-append next x xs n l.1 (ground arith) (ground arith) z,
)

last_of-append : (a : ℕ) (xs : List ℕ) (n : ℕ) → last_of a (xs ++ (n ∷ [])) ≡ n
last_of-append a [] n = refl
last_of-append a (x ∷ xs) n = last_of-append x xs n

-- A new queue is empty.
pub slist_init-IsQueue : (h : Heap) (list : ℕ) → list ≢ 0 → IsQueue (slist_init list h) list []
unfolding slist_init
slist_init-IsQueue h list ne = record {
  linked = ground arith;
  at_end = ground arith;
  apart = refl;
  no_null = ground arith;
}

-- slist_add_tail puts a node that is not NULL, stands in no queue and is linked to nothing behind
-- all nodes of a queue, and the tail is that node.
pub slist_add_tail-IsQueue :
    (h : Heap) (list node : ℕ) (nodes : List ℕ)
    → IsQueue h list nodes
    → has node (0 ∷ list ∷ nodes) ≡ false
    → h.next node ≡ 0
    → IsQueue (slist_add_tail list node h) list (nodes ++ (node ∷ []))
unfolding slist_add_tail
slist_add_tail-IsQueue h list node nodes q new free = record {
  linked =
      subst (λ t. Linked (update h.next t node) list (nodes ++ (node ∷ []))) (sym q.at_end)
        (Linked-append h.next list nodes node q.linked q.apart (ground arith) free);
  at_end = ground (arith, last_of-append list nodes node);
  apart = distinct-append (list ∷ nodes) node q.apart (ground arith);
  no_null = ground (arith, has-append 0 nodes (node ∷ []), q.no_null);
}

lifo_push-IsQueue :
    (h : Heap) (list node : ℕ) (nodes : List ℕ)
    → Linked h.next list nodes
    → h.tail list ≡ last_of list (node ∷ nodes)
    → distinct (list ∷ nodes) ≡ true
    → has 0 (list ∷ nodes) ≡ false
    → has node (0 ∷ list ∷ nodes) ≡ false
    → IsQueue (lifo_push list node h) list (node ∷ nodes)
unfolding lifo_push
lifo_push-IsQueue h list node [] l e d z new = record {
  linked = ground arith;
  at_end = e;
  apart = ground arith;
  no_null = ground arith;
}
lifo_push-IsQueue h list node (x ∷ nodes) l e d z new = record {
  linked = (
    ground arith,
    (
      ground arith,
      Linked-update (update h.next node (h.next list)) x nodes list node
          (Linked-update h.next x nodes node (h.next list) l.1 (ground arith)) (ground arith),
    ),
  );
  at_end = e;
  apart = ground arith;
  no_null = ground arith;
}

-- slist_push_front puts a node that is not NULL and stands in no queue before all nodes of a
-- queue, and the tail stays the last node.
pub slist_push_front-IsQueue :
    (h : Heap) (list node : ℕ) (nodes : List ℕ)
    → IsQueue h list nodes
    → has node (0 ∷ list ∷ nodes) ≡ false
    → IsQueue (slist_push_front list node h) list (node ∷ nodes)
unfolding slist_push_front lifo_empty
slist_push_front-IsQueue h list node [] q new =
    let empty : (h.next list == 0) ≡ true = ground (arith, q.linked) in
    subst (λ t. IsQueue (lifo_push list node t) list (node ∷ []))
      (sym (if-true (set_tail list node h) h empty))
      (lifo_push-IsQueue (set_tail list node h) list node [] q.linked (ground arith) q.apart
        q.no_null new)
slist_push_front-IsQueue h list node (x ∷ nodes) q new =
    let some_left : (h.next list == 0) ≡ false = ground (arith, q.linked, q.no_null) in
    subst (λ t. IsQueue (lifo_push list node t) list (node ∷ x ∷ nodes))
      (sym (if-false (set_tail list node h) h some_left))
      (lifo_push-IsQueue h list node (x ∷ nodes) q.linked q.at_end q.apart q.no_null new)

abbrev reset_tail : ℕ → Heap → Heap
reset_tail list h = if h.next list == 0 then set_tail list list h else h

-- The heap that `slist_pop_front` leaves.
popped :
    (h : Heap) (list : ℕ) {t u : Heap}
    → (if h.next list == 0 then h else set_next list (h.next (h.next list)) h) ≡ t
    → reset_tail list t ≡ u
    → (slist_pop_front list h).0 ≡ u
unfolding slist_pop_front lifo_pop lifo_empty
popped h list e f = ap (reset_tail list) e ∙ f

rest-IsQueue :
    (h : Heap) (list x : ℕ) (nodes : List ℕ)
    → IsQueue h list (x ∷ nodes)
    → IsQueue (reset_tail list (set_next list (h.next (h.next list)) h)) list nodes
rest-IsQueue h list x [] q =
    let last : (update h.next list (h.next (h.next list)) list == 0) ≡ true =
      ground (arith, q.linked, ap h.next q.linked.0) in
    subst (λ t. IsQueue t list []) (sym (if-true _ _ last))
      (record {
        linked = ground (arith, last);
        at_end = ground arith;
        apart = refl;
        no_null = ground (arith, q.no_null);
      })
rest-IsQueue h list x (y ∷ nodes) q =
    let follows : h.next (h.next list) ≡ y = ap h.next q.linked.0 ∙ q.linked.1.0 in
    let more : (update h.next list (h.next (h.next list)) list == 0) ≡ false =
      ground (arith, q.no_null, follows) in
    subst (λ t. IsQueue t list (y ∷ nodes)) (sym (if-false _ _ more))
      (record {
        linked = (
          ground (arith, follows),
          Linked-update h.next y nodes list _ q.linked.1.1 (ground (arith, q.apart)),
        );
        at_end = q.at_end;
        apart = ground (arith, q.apart);
        no_null = ground (arith, q.no_null);
      })

-- slist_pop_front returns the first node of a queue, NULL where it is empty, and leaves the queue
-- of the others with its tail.
pub slist_pop_front-IsQueue :
    (h : Heap) (list : ℕ) (nodes : List ℕ)
    → IsQueue h list nodes
    → IsQueue (slist_pop_front list h).0 list (drop 1 nodes)
      × ((slist_pop_front list h).1 ≡ first_of nodes 0)
unfolding slist_pop_front lifo_pop
slist_pop_front-IsQueue h list [] q =
    let empty : (h.next list == 0) ≡ true = ground (arith, q.linked) in
    (
      subst (λ t. IsQueue t list []) (sym (popped h list (if-true _ _ empty) (if-true _ _ empty)))
          (record { linked = q.linked; at_end = ground arith; apart = refl; no_null = q.no_null }),
      q.linked,
    )
slist_pop_front-IsQueue h list (x ∷ nodes) q =
    let some_left : (h.next list == 0) ≡ false = ground (arith, q.linked, q.no_null) in
    (
      subst (λ t. IsQueue t list nodes) (sym (popped h list (if-false _ _ some_left) refl))
          (rest-IsQueue h list x nodes q),
      q.linked.0,
    )

-- A node outside the queue is cleared.
pub lifo_init-IsQueue :
    (h : Heap) (list node : ℕ) (nodes : List ℕ)
    → IsQueue h list nodes
    → has node (list ∷ nodes) ≡ false
    → IsQueue (lifo_init node h) list nodes × ((lifo_init node h).next node ≡ 0)
unfolding lifo_init
lifo_init-IsQueue h list node nodes q new = (
  record {
    linked = Linked-update h.next list nodes node 0 q.linked new;
    at_end = q.at_end;
    apart = q.apart;
    no_null = q.no_null;
  },
  ground arith,
)
