-- ===== src/LinkList.antt =====
-- libs/list.h: the circular doubly linked list. A `list_entry_t *` is the number of the entry, and
-- the store gives each entry its two pointers; an entry may stand inside a larger structure, which
-- then has the same number.
pub mod Gap
pub mod Laws
pub mod Links
pub mod Ring
mod Tests
use lab.Base.{ℕ, ◌==◌, Bool, if◌then◌else◌}

-- `struct list_entry`.
pub record Entry : Type 0 where
  pub prev : ℕ
  pub next : ℕ

abbrev pub Store : Type 0
Store = ℕ → Entry

-- `a->next = v` and `a->prev = v`.
unfoldable pub set_next : ℕ → ℕ → Store → Store
set_next a v l = λ x. if x == a then record (l x) { next = v } else l x

unfoldable pub set_prev : ℕ → ℕ → Store → Store
set_prev a v l = λ x. if x == a then record (l x) { prev = v } else l x

-- `elm->prev = elm->next = elm`
unfoldable pub list_init : ℕ → Store → Store
list_init elm l = set_prev elm elm (set_next elm elm l)

-- `prev->next = next->prev = elm; elm->next = next; elm->prev = prev`
unfoldable pub link_between : ℕ → ℕ → ℕ → Store → Store
link_between elm prev next l =
    set_prev elm prev (set_next elm next (set_next prev elm (set_prev next elm l)))

-- `prev->next = next; next->prev = prev`
unfoldable pub unlink_between : ℕ → ℕ → Store → Store
unlink_between prev next l = set_prev next prev (set_next prev next l)

unfoldable pub list_add_after : ℕ → ℕ → Store → Store
list_add_after listelm elm l = link_between elm listelm (l listelm).next l

unfoldable pub list_add : ℕ → ℕ → Store → Store
unfolding list_add_after
list_add listelm elm l = list_add_after listelm elm l

unfoldable pub list_add_before : ℕ → ℕ → Store → Store
list_add_before listelm elm l = link_between elm (l listelm).prev listelm l

unfoldable pub list_del : ℕ → Store → Store
list_del listelm l = unlink_between (l listelm).prev (l listelm).next l

unfoldable pub list_del_init : ℕ → Store → Store
list_del_init listelm l = list_init listelm (list_del listelm l)

unfoldable pub list_empty : ℕ → Store → Bool
list_empty list l = (l list).next == list

abbrev pub list_next : ℕ → Store → ℕ
list_next listelm l = (l listelm).next

abbrev pub list_prev : ℕ → Store → ℕ
list_prev listelm l = (l listelm).prev
