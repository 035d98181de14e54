-- ===== src/Data/List/Operations.antt =====
-- The operations of a doubly linked list as operations on the sequence of its nodes.
use mathlib.Core.Path.{subst, ap₂}
use tcengine.Base.{
  ℕ, ◌≡◌, ◌≢◌, refl, sym, ◌∙◌, ap, arith, List, [], ◌∷◌, ◌++◌, has, has-append, drop,
}
use tcengine.Base.{true, false, ◌&&◌, ◌==◌, update, if-true, if-false}
use tcengine.Data.List.{Heap, list_init, list_empty, list_add, list_add_tail, list_remove, list_pop}
use tcengine.Data.List.Chain.{
  Chain, distinct, first_of, link, unlink, Chain-first, Chain-last, Chain-append, Chain-prepend,
  Chain-remove, Chain-at,
}

-- The list `list` is linked through `nodes`, in this order.
pub record IsList (h : Heap) (list : ℕ) (nodes : List ℕ) : Type 0 where
  pub chain : Chain h list nodes list
  pub apart : distinct (list ∷ nodes) ≡ true

-- A new list is empty.
pub list_init-IsList : (h : Heap) (list : ℕ) → IsList (list_init list h) list []
unfolding list_init
list_init-IsList h list = record { chain = ground arith; apart = refl }

list_add-eq :
    (h : Heap) (list node : ℕ) → node ≢ list → list_add list node h ≡ link list node (h.next list) h
unfolding list_add
list_add-eq h list node ne =
    let read : update h.next node (h.next list) list ≡ h.next list = ground arith in
    ap
      (λ q. record {
        next = update (update h.next node (h.next list)) list node;
        prev = update (update h.prev node list) q node;
      })
      read

list_add_tail-eq :
    (h : Heap) (list node : ℕ)
    → node ≢ list
    → list_add_tail list node h ≡ link (h.prev list) node list h
unfolding list_add_tail
list_add_tail-eq h list node ne =
    let read : update h.prev node (h.prev list) list ≡ h.prev list = ground arith in
    ap
      (λ p. record {
        next = update (update h.next node list) p node;
        prev = update (update h.prev node (h.prev list)) list node;
      })
      read

list_remove-eq : (h : Heap) (node : ℕ) → list_remove node h ≡ unlink (h.prev node) (h.next node) h
unfolding list_remove
list_remove-eq h node =
    let read : update h.prev (h.next node) (h.prev node) node ≡ h.prev node = ground arith in
    ap
      (λ p. record {
        next = update h.next p (h.next node);
        prev = update h.prev (h.next node) (h.prev node);
      })
      read

-- list_add puts a node that stands in no list before all nodes of a list.
pub list_add-IsList :
    (h : Heap) (list node : ℕ) (nodes : List ℕ)
    → IsList h list nodes
    → has node (list ∷ nodes) ≡ false
    → IsList (list_add list node h) list (node ∷ nodes)
list_add-IsList h list node nodes l new = record {
  chain =
      subst (λ t. Chain t list (node ∷ nodes) list)
        (sym (
          list_add-eq h list node (ground arith)
          ∙ ap (λ q. link list node q h) (Chain-first h list nodes list l.chain)))
        (Chain-prepend h list nodes list node l.chain l.apart (ground (arith, l.apart))
          (ground arith));
  apart = ground (arith, l.apart);
}

pub distinct-append :
    (xs : List ℕ) (n : ℕ) → distinct xs ≡ true → has n xs ≡ false → distinct (xs ++ (n ∷ [])) ≡ true
distinct-append [] n d h = refl
distinct-append (x ∷ xs) n d h = ground (arith, distinct-append xs n, has-append x xs (n ∷ []))

-- list_add_tail puts a node that stands in no list behind all nodes of a list.
pub list_add_tail-IsList :
    (h : Heap) (list node : ℕ) (nodes : List ℕ)
    → IsList h list nodes
    → has node (list ∷ nodes) ≡ false
    → IsList (list_add_tail list node h) list (nodes ++ (node ∷ []))
list_add_tail-IsList h list node nodes l new = record {
  chain =
      subst (λ t. Chain t list (nodes ++ (node ∷ [])) list)
        (sym (
          list_add_tail-eq h list node (ground arith)
          ∙ ap (λ p. link p node list h) (Chain-last h list nodes list l.chain)))
        (Chain-append h list nodes list node l.chain l.apart (ground (arith, l.apart))
          (ground arith));
  apart = distinct-append (list ∷ nodes) node l.apart new;
}

distinct-without :
    (xs : List ℕ) (n : ℕ) (ys : List ℕ)
    → distinct (xs ++ (n ∷ ys)) ≡ true
    → distinct (xs ++ ys) ≡ true
distinct-without [] n ys d = ground arith
distinct-without (x ∷ xs) n ys d =
    ground (arith, distinct-without xs n ys, has-append x xs (n ∷ ys), has-append x xs ys)

-- list_remove takes a node out of the list it stands in, wherever it stands, and the others keep
-- their order.
pub list_remove-IsList :
    (h : Heap) (list : ℕ) (before : List ℕ) (node : ℕ) (after : List ℕ)
    → IsList h list (before ++ (node ∷ after))
    → IsList (list_remove node h) list (before ++ after)
list_remove-IsList h list before node after l =
    let (left, right) = Chain-at h list before node after list l.chain in
    record {
      chain =
          subst (λ t. Chain t list (before ++ after) list)
            (sym (list_remove-eq h node ∙ ap₂ (λ p q. unlink p q h) left right))
            (Chain-remove h list before node after list l.chain l.apart (ground (arith, l.apart)));
      apart = distinct-without (list ∷ before) node after l.apart;
    }

-- list_pop returns the first node of a list and leaves the list of the others, and returns NULL
-- and changes nothing where the list is empty.
pub list_pop-IsList :
    (h : Heap) (list : ℕ) (nodes : List ℕ)
    → IsList h list nodes
    → IsList (list_pop list h).0 list (drop 1 nodes) × ((list_pop list h).1 ≡ first_of nodes 0)
unfolding list_pop list_empty
list_pop-IsList h list [] l =
    let empty : (h.next list == list && h.prev list == list) ≡ true = ground (arith, l.chain) in
    subst (λ (t : Heap × ℕ). IsList t.0 list [] × (t.1 ≡ 0)) (sym (if-true _ _ empty)) (l, refl)
list_pop-IsList h list (x ∷ nodes) l =
    let some_left : (h.next list == list && h.prev list == list) ≡ false =
      ground (arith, l.chain, l.apart) in
    subst (λ (t : Heap × ℕ). IsList t.0 list nodes × (t.1 ≡ x)) (sym (if-false _ _ some_left))
      (
        subst (λ t. IsList (list_remove t h) list nodes) (sym l.chain.0)
            (list_remove-IsList h list [] x nodes l),
        l.chain.0,
      )
