-- ===== src/FastHashMap.antt =====
-- runtime/utils/fast_hash_map.h: a hash table of items that also stand in a circular list, which
-- `next` goes around. The hash table is a function from keys to the addresses of items.
pub mod Holds
pub mod Kept
pub mod Round
use nfvactor.Prelude.{ℕ, ◌+◌, ◌-◌, Option, none, some, ◌>>=◌, update}
use nfvactor.Cdlist.{Links, cdlist_head_init, cdlist_add_tail, cdlist_del, cdlist_rotate_left}

-- `val` is what the item at an address points to; `none` is memory that is free.
pub record FastHashMap (V : Type 0) : Type 0 where
  pub htable : ℕ → Option ℕ
  pub count : ℕ
  pub links : Links
  pub val : ℕ → Option V

-- The list's head stands at `head`.
module _ {V : Type 0} (head : ℕ) where
  unfoldable pub init : Links → FastHashMap V
  init links = record {
    htable = λ k. none;
    count = 0;
    links = cdlist_head_init head links;
    val = λ i. none;
  }

  -- The address of the new item comes from `new`.
  unfoldable pub emplace : ℕ → ℕ → V → FastHashMap V → Option V × FastHashMap V
  emplace key item v m = elim (m.htable key) [
    | some i ↦ (none, m)
    | none ↦ (
      some v,
      record {
        htable = update m.htable key (some item);
        count = m.count + 1;
        links = cdlist_add_tail head item m.links;
        val = update m.val item (some v);
      },
    )
  ]

  unfoldable pub next : FastHashMap V → Option V × FastHashMap V
  next m =
      let (item, links) = cdlist_rotate_left head m.links in
      (item >>= m.val, record m { links = links })

module _ {V : Type 0} where
  unfoldable pub erase : ℕ → FastHashMap V → FastHashMap V
  erase key m = elim (m.htable key) [
    | none ↦ m
    | some item ↦ record {
      htable = update m.htable key none;
      count = m.count - 1;
      links = cdlist_del item m.links;
      val = update m.val item none;
    }
  ]

  unfoldable pub find : ℕ → FastHashMap V → Option V
  find key m = m.htable key >>= m.val

  unfoldable pub cnt : FastHashMap V → ℕ
  cnt m = m.count
