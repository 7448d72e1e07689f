-- ===== src/Cdlist/Rehook.antt =====
-- What adding a node that already stands in the list does to it: nothing in cdlist.h checks for it.
use nfvactor.Prelude.{
  ℕ, ◌+◌, ◌<◌, ◌≡◌, ◌≢◌, ◌∙◌, ap, sym, some, List, [], ◌∷◌, ◌++◌, arith, length, length-append,
}
use nfvactor.Cdlist.{
  Links, cdlist_add_tail, cdlist_add_between, cdlist_count, cdlist_pop_head, cdlist_is_empty,
  cdlist_del, cdlist_unlink, cdlist_item_init,
}
use nfvactor.Cdlist.Ring.{
  NotIn, IsDistinct, Seg, Walk, IsRing, Seg-prev_ne, NotIn-append, NotIn-append_left,
  NotIn-append_right, count-Walk,
}

rehook-Walk :
    (m : Links) (a head x : ℕ) (xs ys : List ℕ)
    → Seg m a (xs ++ x ∷ ys) head
    → IsDistinct (a ∷ (xs ++ x ∷ ys))
    → Walk (cdlist_add_tail head x m) a (xs ++ x ∷ []) head
unfolding cdlist_add_tail cdlist_add_between
rehook-Walk m a head x [] ys s d = (ground (arith, Seg-prev_ne m x head a ys d.0 s.2), ground arith)
rehook-Walk m a head x (z ∷ zs) ys s d = (
  ground (
    arith,
    Seg-prev_ne m z head a (zs ++ x ∷ ys) d.0 s.2,
    NotIn-append_right a zs (x ∷ ys) d.0.1,
  ),
  rehook-Walk m z head x zs ys s.2 d.1,
)

abbrev pub All : (ℕ → Type 0) → List ℕ → Type 0
All P [] = Unit
All P (x ∷ xs) = P x × All P xs

not_before : (y : ℕ) (l : List ℕ) → NotIn y l → (x : ℕ) → x ≢ y → NotIn y (x ∷ l)
not_before y l f x n = ((λ e. n (sym e)), f)

All-cons :
    (z : ℕ) (l ys : List ℕ) → NotIn z ys → All (λ y. NotIn y l) ys → All (λ y. NotIn y (z ∷ l)) ys
All-cons z l [] f a = tt
All-cons z l (y ∷ ys) f a = (not_before y l a.0 z f.0, All-cons z l ys f.1 a.1)

All-nil : (ys : List ℕ) → All (λ y. NotIn y []) ys
All-nil [] = tt
All-nil (y ∷ ys) = (tt, All-nil ys)

-- The nodes behind `x` are none of those up to it.
behind : (xs ys : List ℕ) (x : ℕ) → IsDistinct (xs ++ x ∷ ys) → All (λ y. NotIn y (xs ++ x ∷ [])) ys
behind [] ys x d = All-cons x [] ys d.0 (All-nil ys)
behind (z ∷ xs) ys x d =
    All-cons z (xs ++ x ∷ []) ys (NotIn-append_right z xs (x ∷ ys) d.0).1 (behind xs ys x d.1)

-- A node that stands in the list is added to it again. A walk along the list from its head then
-- goes through the nodes that stood before the node, and the node, and is back at the head: it
-- finds none of the nodes that stood behind it, and the list's count is that of the walk.
pub add_tail_again-Walk :
    (m : Links) (head x fuel : ℕ) (xs ys : List ℕ)
    → IsRing m head (xs ++ x ∷ ys)
    → length xs + 1 < fuel
    → Walk (cdlist_add_tail head x m) head (xs ++ x ∷ []) head
      × All (λ y. NotIn y (xs ++ x ∷ [])) ys
      × (cdlist_count fuel head (cdlist_add_tail head x m) ≡ some (length xs + 1))
add_tail_again-Walk m head x fuel xs ys r l =
    let walk = rehook-Walk m head head x xs ys r.linked r.distinct in
    (
      walk,
      behind xs ys x r.distinct.1,
      count-Walk (cdlist_add_tail head x m) head fuel (xs ++ x ∷ []) walk fresh
            (omega (arith, length-append xs (x ∷ [])))
          ∙ ap some (omega (arith, length-append xs (x ∷ []))),
    )
  where
    fresh : NotIn head (xs ++ x ∷ [])
    fresh =
        NotIn-append head xs (x ∷ []) (NotIn-append_left head xs (x ∷ ys) r.distinct.0)
          ((NotIn-append_right head xs (x ∷ ys) r.distinct.0).0, tt)

-- If it was the only node, it can be popped and stands in the list still.
pub add_tail_again-pop :
    (m : Links) (head x : ℕ)
    → IsRing m head (x ∷ [])
    → let m' = (cdlist_pop_head head (cdlist_add_tail head x m)).1 in
      (cdlist_pop_head head m').0 ≡ some x
unfolding cdlist_add_tail cdlist_add_between cdlist_pop_head cdlist_is_empty cdlist_del
    cdlist_unlink cdlist_item_init
add_tail_again-pop m head x r = ground (arith, r.linked, r.distinct)
