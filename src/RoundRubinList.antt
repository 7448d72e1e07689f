-- ===== src/RoundRubinList.antt =====
-- runtime/utils/round_rubin_list.h: the list of flow actors, and of others that take turns, on top of
-- runtime/utils/cdlist.h. An object is the address of its links.
pub mod Queue
pub mod Refines
use nfvactor.Prelude.{ℕ, Option}
use nfvactor.Cdlist.{
  Links, cdlist_head_init, cdlist_add_tail, cdlist_add_head, cdlist_peek_first_item,
  cdlist_peek_last_item, cdlist_pop_head, cdlist_rotate_left,
}

module _ (rr_list_head : ℕ) where
  unfoldable pub init : Links → Links
  unfolding cdlist_head_init
  init m = cdlist_head_init rr_list_head m

  unfoldable pub add_to_tail : ℕ → Links → Links
  add_to_tail obj m = cdlist_add_tail rr_list_head obj m

  unfoldable pub add_to_head : ℕ → Links → Links
  add_to_head obj m = cdlist_add_head rr_list_head obj m

  unfoldable pub peek_head : Links → Option ℕ
  unfolding cdlist_peek_first_item
  peek_head m = cdlist_peek_first_item rr_list_head m

  unfoldable pub peek_tail : Links → Option ℕ
  unfolding cdlist_peek_last_item
  peek_tail m = cdlist_peek_last_item rr_list_head m

  unfoldable pub pop_head : Links → Option ℕ × Links
  pop_head m = cdlist_pop_head rr_list_head m

  unfoldable pub rotate : Links → Option ℕ × Links
  rotate m = cdlist_rotate_left rr_list_head m
