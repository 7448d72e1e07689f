-- ===== src/Cdlist.antt =====
-- runtime/utils/cdlist.h: the circular doubly linked lists that thread flows, timers, buffered
-- packets and runtime records. A head and an item are both addresses; memory is the two link
-- fields of each address, and an operation returns the memory that its writes leave.
pub mod Ring
pub mod Insert
pub mod Delete
pub mod Rotate
pub mod Rehook
pub mod Middle
use nfvactor.Prelude.{
  ℕ, zero, suc, ◌+◌, Bool, true, false, ◌&&◌, not, Option, none, some, ◌==◌, if◌then◌else◌, update,
}

-- `struct cdlist_head` and `struct cdlist_item`
pub record Links : Type 0 where
  pub next : ℕ → ℕ
  pub prev : ℕ → ℕ

abbrev pub set_next : ℕ → ℕ → Links → Links
set_next p v m = record m { next = update m.next p v }

abbrev pub set_prev : ℕ → ℕ → Links → Links
set_prev p v m = record m { prev = update m.prev p v }

unfoldable pub cdlist_head_init : ℕ → Links → Links
cdlist_head_init head m = set_prev head head (set_next head head m)

unfoldable pub cdlist_item_init : ℕ → Links → Links
cdlist_item_init item m = set_prev item item (set_next item item m)

-- The four writes in the order of the source.
unfoldable pub cdlist_add_between : ℕ → ℕ → ℕ → Links → Links
cdlist_add_between prev next item m =
    set_prev next item (set_prev item prev (set_next item next (set_next prev item m)))

unfoldable pub cdlist_add_after : ℕ → ℕ → Links → Links
unfolding cdlist_add_between
cdlist_add_after prev item m = cdlist_add_between prev (m.next prev) item m

unfoldable pub cdlist_add_before : ℕ → ℕ → Links → Links
unfolding cdlist_add_between
cdlist_add_before next item m = cdlist_add_between (m.prev next) next item m

unfoldable pub cdlist_add_head : ℕ → ℕ → Links → Links
unfolding cdlist_add_between
cdlist_add_head head item m = cdlist_add_between head (m.next head) item m

unfoldable pub cdlist_add_tail : ℕ → ℕ → Links → Links
unfolding cdlist_add_between
cdlist_add_tail head item m = cdlist_add_between (m.prev head) head item m

unfoldable pub cdlist_is_hooked : ℕ → Links → Bool
cdlist_is_hooked item m = not (m.next item == item)

-- `_cdlist_del`: both links are read before either is written.
unfoldable pub cdlist_unlink : ℕ → Links → Links
cdlist_unlink item m =
    let next = m.next item in let prev = m.prev item in set_prev next prev (set_next prev next m)

unfoldable pub cdlist_del : ℕ → Links → Links
unfolding cdlist_unlink cdlist_item_init
cdlist_del item m = cdlist_item_init item (cdlist_unlink item m)

unfoldable pub cdlist_is_empty : ℕ → Links → Bool
cdlist_is_empty head m = m.next head == head

unfoldable pub cdlist_is_single : ℕ → Links → Bool
unfolding cdlist_is_empty
cdlist_is_single head m = not (cdlist_is_empty head m) && (m.next head == m.prev head)

-- `none` is the null pointer.
unfoldable pub cdlist_peek_first_item : ℕ → Links → Option ℕ
unfolding cdlist_is_empty
cdlist_peek_first_item head m = if cdlist_is_empty head m then none else some (m.next head)

unfoldable pub cdlist_peek_last_item : ℕ → Links → Option ℕ
unfolding cdlist_is_empty
cdlist_peek_last_item head m = if cdlist_is_empty head m then none else some (m.prev head)

unfoldable pub cdlist_pop_head : ℕ → Links → Option ℕ × Links
unfolding cdlist_is_empty cdlist_del
cdlist_pop_head head m =
    if cdlist_is_empty head m then (none, m) else (some (m.next head), cdlist_del (m.next head) m)

-- The six writes of `cdlist_rotate_left` behind its two tests.
rotate_links : ℕ → Links → Links
rotate_links head m =
    let first = m.next head in
    let second = m.next first in
    let last = m.prev head in
    set_prev first last (
      set_next last first
        (set_prev head first (set_next first head (set_prev second head (set_next head second m)))))

unfoldable pub cdlist_rotate_left : ℕ → Links → Option ℕ × Links
unfolding cdlist_is_empty cdlist_is_single rotate_links
cdlist_rotate_left head m =
    if cdlist_is_empty head m
    then (none, m)
    else if cdlist_is_single head m
    then (some (m.next head), m)
    else (some (m.next head), rotate_links head m)

-- The loop of `cdlist_count`, on fuel; `none` means that the fuel ran out.
count_from : ℕ → ℕ → ℕ → Links → Option ℕ
count_from zero item head m = none
count_from (suc fuel) item head m =
    let rest = count_from fuel (m.next item) head m in
    if item == head then some 0 else elim rest [ none ↦ none | some n ↦ some (n + 1) ]

unfoldable pub cdlist_count : ℕ → ℕ → Links → Option ℕ
unfolding count_from
cdlist_count fuel head m = count_from fuel (m.next head) head m
