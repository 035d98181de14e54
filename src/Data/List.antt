-- ===== src/Data/List.antt =====
-- Doubly linked lists of src/datastructures/list.h: nodes inside other objects, on a heap that maps
-- addresses to their links. A list is a node itself, and an empty one is linked to itself.
pub mod Chain
pub mod Operations
pub mod Runs
mod Tests
use tcengine.Base.{ℕ, Bool, ◌&&◌, ◌==◌, if◌then◌else◌, update}

-- `list_t` of every node: NULL is 0.
pub record Heap : Type 0 where
  pub next : ℕ → ℕ
  pub prev : ℕ → ℕ

abbrev pub set_next : ℕ → ℕ → Heap → Heap
set_next node p h = record h { next = update h.next node p }

abbrev pub set_prev : ℕ → ℕ → Heap → Heap
set_prev node p h = record h { prev = update h.prev node p }

pub list_init : ℕ → Heap → Heap
list_init list h = set_next list list (set_prev list list h)

pub list_empty : ℕ → Heap → Bool
list_empty list h = h.next list == list && h.prev list == list

pub list_add : (list node : ℕ) → Heap → Heap
list_add list node h =
    let h = set_prev node list h in
    let h = set_next node (h.next list) h in
    let h = set_prev (h.next list) node h in set_next list node h

pub list_add_tail : (list node : ℕ) → Heap → Heap
list_add_tail list node h =
    let h = set_next node list h in
    let h = set_prev node (h.prev list) h in
    let h = set_next (h.prev list) node h in set_prev list node h

pub list_remove : (node : ℕ) → Heap → Heap
list_remove node h =
    let h = set_prev (h.next node) (h.prev node) h in set_next (h.prev node) (h.next node) h

pub list_first : ℕ → Heap → ℕ
list_first list h = h.next list

pub list_last : ℕ → Heap → ℕ
list_last list h = h.prev list

-- NULL where the list is empty.
pub list_pop : ℕ → Heap → Heap × ℕ
list_pop list h = if list_empty list h then (h, 0) else (list_remove (h.next list) h, h.next list)
