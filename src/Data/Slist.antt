-- ===== src/Data/Slist.antt =====
-- Singly linked lists of src/datastructures/list.h, with and without the node at the end kept. They
-- are linked through nodes inside other objects, on a heap that maps addresses to their links.
pub mod Fifo
pub mod Runs
mod Tests
use tcengine.Base.{ℕ, Bool, ◌==◌, if◌then◌else◌, update}

-- `lifo_t` of every node, and the `tail` of every `slist_t`: NULL is 0.
pub record Heap : Type 0 where
  pub next : ℕ → ℕ
  pub tail : ℕ → ℕ

abbrev pub set_next : ℕ → ℕ → Heap → Heap
set_next node p h = record h { next = update h.next node p }

abbrev pub set_tail : ℕ → ℕ → Heap → Heap
set_tail list p h = record h { tail = update h.tail list p }

pub lifo_init : ℕ → Heap → Heap
lifo_init list h = set_next list 0 h

pub lifo_empty : ℕ → Heap → Bool
lifo_empty list h = h.next list == 0

pub lifo_push : (list node : ℕ) → Heap → Heap
lifo_push list node h = let h = set_next node (h.next list) h in set_next list node h

pub lifo_pop : ℕ → Heap → Heap × ℕ
lifo_pop list h =
    let first = h.next list in (if first == 0 then h else set_next list (h.next first) h, first)

pub slist_init : ℕ → Heap → Heap
slist_init list h = set_tail list list (set_next list 0 h)

pub slist_empty : ℕ → Heap → Bool
slist_empty list h = h.next list == 0

pub slist_push_front : (list node : ℕ) → Heap → Heap
slist_push_front list node h =
    let h = if lifo_empty list h then set_tail list node h else h in lifo_push list node h

pub slist_pop_front : ℕ → Heap → Heap × ℕ
slist_pop_front list h =
    let (h, node) = lifo_pop list h in (if lifo_empty list h then set_tail list list h else h, node)

-- The assertion `node->next == NULL` is a hypothesis of the theorems.
pub slist_add_tail : (list node : ℕ) → Heap → Heap
slist_add_tail list node h = let h = set_next (h.tail list) node h in set_tail list node h
