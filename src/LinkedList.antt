-- ===== src/LinkedList.antt =====
-- include/lib/list.h: the intrusive, circular, doubly linked list. A list is its head node; every
-- function reads and writes `next` and `prev` fields of nodes at addresses.
pub mod Chain
pub mod Insert
pub mod Remove
pub mod Rings
use betriebssysteme.Common.{
  ℕ, zero, suc, Bool, true, false, Option, none, some, ◌==◌, if◌then◌else◌, update,
}

-- The address of a `list_node`. The null pointer is the `none` of what a function returns.
abbrev pub Ptr : Type 0
Ptr = ℕ

-- The memory of all nodes, field by field: `next n` is the field of the node at `n`.
pub record Links : Type 0 where
  pub next : Ptr → Ptr
  pub prev : Ptr → Ptr

abbrev pub set_next : Ptr → Ptr → Links → Links
set_next n v l = record l { next = update l.next n v }

abbrev pub set_prev : Ptr → Ptr → Links → Links
set_prev n v l = record l { prev = update l.prev n v }

-- What `list_create` puts at the head's own address.
unfoldable pub list_create : Ptr → Links → Links
list_create head l = set_prev head head (set_next head head l)

unfoldable pub list_is_empty : Ptr → Links → Bool
list_is_empty head l = head == l.next head

unfoldable pub list_get_first : Ptr → Links → Option Ptr
unfolding list_is_empty
list_get_first head l = if list_is_empty head l then none else some (l.next head)

unfoldable pub list_get_last : Ptr → Links → Option Ptr
unfolding list_is_empty
list_get_last head l = if list_is_empty head l then none else some (l.prev head)

-- The four assignments of `list_add_`, in order.
unfoldable pub list_add_ : Ptr → Ptr → Links → Links
list_add_ node prev l =
    let l1 : Links = set_prev node prev l in
    let l2 : Links = set_next node (l1.next prev) l1 in
    let l3 : Links = set_prev (l2.next prev) node l2 in set_next prev node l3

unfoldable pub list_add_first : Ptr → Ptr → Links → Links
unfolding list_add_
list_add_first head new l = list_add_ new head l

unfoldable pub list_add_last : Ptr → Ptr → Links → Links
unfolding list_add_
list_add_last head new l = list_add_ new (l.prev head) l

-- The two assignments of `list_remove_`, in order. The removed node keeps its own fields.
unfoldable pub list_remove_ : Ptr → Links → Links
list_remove_ node l =
    let l1 : Links = set_next (l.prev node) (l.next node) l in
    set_prev (l1.next node) (l1.prev node) l1

unfoldable pub list_remove_first : Ptr → Links → Option Ptr × Links
unfolding list_is_empty list_remove_
list_remove_first head l =
    if list_is_empty head l then (none, l) else (some (l.next head), list_remove_ (l.next head) l)

unfoldable pub list_remove_last : Ptr → Links → Option Ptr × Links
unfolding list_is_empty list_remove_
list_remove_last head l =
    if list_is_empty head l then (none, l) else (some (l.prev head), list_remove_ (l.prev head) l)

-- The outcome of the search loop of `list_remove`: it may run out of fuel.
pub data Search : Type 0 where
  found : Ptr → Links → Search
  missing : Links → Search
  out_of_fuel : Search

-- `for (curr = head->next; curr != head; curr = curr->next)`
unfoldable pub list_remove_loop : ℕ → Ptr → Ptr → Ptr → Links → Search
unfolding list_remove_
list_remove_loop zero head rem curr l = out_of_fuel
list_remove_loop (suc fuel) head rem curr l =
    let rest = list_remove_loop fuel head rem (l.next curr) l in
    if curr == head
    then missing l
    else (if curr == rem then found curr (list_remove_ curr l) else rest)

unfoldable pub list_remove : ℕ → Ptr → Ptr → Links → Search
unfolding list_remove_loop
list_remove fuel head rem l = list_remove_loop fuel head rem (l.next head) l
