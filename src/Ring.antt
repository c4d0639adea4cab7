-- ===== src/Ring.antt =====
-- kernel/lib/list.h: circular doubly linked lists through nodes in memory. A node is its address, and
-- nodes do not overlap: `next` and `prev` are the two words of each.
pub mod Linked
pub mod Insert
pub mod Delete
mod Examples
use tomat_os.Base.{ℕ, Bool, Option, none, some, ◌==◌, if◌then◌else◌, update}

pub record Links : Type 0 where
  pub next : ℕ → ℕ
  pub prev : ℕ → ℕ

unfoldable pub list_init : (head : ℕ) → Links → Links
list_init head l = record { next = update l.next head head; prev = update l.prev head head }

-- `__list_add`
unfoldable pub add_between : (node prev next : ℕ) → Links → Links
add_between node prev next l = record {
  next = update (update l.next node next) prev node;
  prev = update (update l.prev next node) node prev;
}

unfoldable pub list_add : (head node : ℕ) → Links → Links
unfolding add_between
list_add head node l = add_between node head (l.next head) l

unfoldable pub list_add_tail : (head node : ℕ) → Links → Links
unfolding add_between
list_add_tail head node l = add_between node (l.prev head) head l

-- `__list_del`
unfoldable pub del_between : (prev next : ℕ) → Links → Links
del_between prev next l = record { next = update l.next prev next; prev = update l.prev next prev }

-- The links of the node that goes are poisoned.
unfoldable pub list_del : (entry : ℕ) → Links → Links
unfolding del_between
list_del entry l =
    let l = del_between (l.prev entry) (l.next entry) l in
    record {
      next = update l.next entry 16045481047390945280;
      prev = update l.prev entry 16045481047659380736;
    }

unfoldable pub list_is_empty : (head : ℕ) → Links → Bool
list_is_empty head l = l.next head == head

unfoldable pub list_pop : (head : ℕ) → Links → Option ℕ × Links
unfolding list_is_empty list_del
list_pop head l =
    if list_is_empty head l then (none, l) else (some (l.next head), list_del (l.next head) l)
