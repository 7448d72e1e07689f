-- ===== src/Cdlist/Delete.antt =====
-- Removal of a node, and of the first node.
use nfvactor.Prelude.{ℕ, ◌≡◌, ◌≢◌, sym, false, none, some, List, [], ◌∷◌, ◌++◌, arith, refl}
use mathlib.Core.Path.{fun_ext, subst}
use nfvactor.Cdlist.{
  Links, cdlist_unlink, cdlist_item_init, cdlist_del, cdlist_pop_head, cdlist_is_hooked,
  cdlist_is_empty,
}
use nfvactor.Cdlist.Ring.{
  NotIn, IsDistinct, Seg, IsRing, Seg-set_next, Seg-set_prev, Seg-prev_ne, Seg-next_ne, NotIn-eq,
  NotIn-append, NotIn-append_left, NotIn-append_right,
}

-- The two halves of a list round one of its nodes.
pub Seg-split :
    (m : Links) (a i b : ℕ) (xs ys : List ℕ)
    → Seg m a (xs ++ i ∷ ys) b
    → Seg m a xs i × Seg m i ys b
Seg-split m a i b [] ys s = ((s.0, s.1), s.2)
Seg-split m a i b (x ∷ xs) ys s = let r = Seg-split m x i b xs ys s.2 in ((s.0, s.1, r.0), r.1)

unlink-Seg :
    (m : Links) (a i b : ℕ) (xs ys : List ℕ)
    → Seg m a (xs ++ i ∷ ys) b
    → IsDistinct (a ∷ (xs ++ i ∷ ys))
    → NotIn b (xs ++ i ∷ ys)
    → Seg (cdlist_unlink i m) a (xs ++ ys) b
unfolding cdlist_unlink
unlink-Seg m a i b [] [] s d n = ground arith
unlink-Seg m a i b [] (y ∷ ys) s d n = (
  ground arith,
  ground arith,
  Seg-set_prev _ (m.next i) (m.prev i) y b ys (NotIn-eq ys s.2.0 d.1.1.0)
      (rw s.2.0 (λ e. n.1.0 (sym e)))
      (Seg-set_next m (m.prev i) (m.next i) y b ys (NotIn-eq (y ∷ ys) s.1 d.0.1) s.2.2),
)
unlink-Seg m a i b (x ∷ xs) ys s d n =
    let (before, after) = Seg-split m x i b xs ys s.2 in
    let fresh = NotIn-append_right x xs (i ∷ ys) d.1.0 in
    (
      ground (arith, Seg-prev_ne m x i a xs (d.0.0, NotIn-append_left a xs (i ∷ ys) d.0.1) before),
      ground (arith, Seg-next_ne m i b x ys fresh.1 (λ e. n.0 (sym e)) after),
      unlink-Seg m x i b xs ys s.2 d.1 n.1,
    )

item_init-Seg :
    (m : Links) (i a b : ℕ) (xs : List ℕ)
    → NotIn i (a ∷ xs)
    → i ≢ b
    → Seg m a xs b
    → Seg (cdlist_item_init i m) a xs b
unfolding cdlist_item_init
item_init-Seg m i a b xs f g s = Seg-set_prev _ i i a b xs f.1 g (Seg-set_next m i i a b xs f s)

pub IsDistinct-remove :
    (i : ℕ) (xs ys : List ℕ)
    → IsDistinct (xs ++ i ∷ ys)
    → IsDistinct (xs ++ ys) × NotIn i (xs ++ ys)
IsDistinct-remove i [] ys d = (d.1, d.0)
IsDistinct-remove i (x ∷ xs) ys d =
    let (rest, fresh) = IsDistinct-remove i xs ys d.1 in
    let apart = NotIn-append_right x xs (i ∷ ys) d.0 in
    (
      (NotIn-append x xs ys (NotIn-append_left x xs (i ∷ ys) d.0) apart.1, rest),
      (λ e. apart.0 (sym e), fresh),
    )

-- Removing any node leaves the others in order, and the node unhooked.
pub del-IsRing :
    (m : Links) (head i : ℕ) (xs ys : List ℕ)
    → IsRing m head (xs ++ i ∷ ys)
    → IsRing (cdlist_del i m) head (xs ++ ys) × (cdlist_is_hooked i (cdlist_del i m) ≡ false)
unfolding cdlist_del cdlist_is_hooked
del-IsRing m head i xs ys r =
    let (distinct, fresh) = IsDistinct-remove i (head ∷ xs) ys r.distinct in
    (
      record {
        linked =
            item_init-Seg (cdlist_unlink i m) i head head (xs ++ ys) fresh fresh.0
              (unlink-Seg m head i head xs ys r.linked r.distinct r.distinct.0);
        distinct = distinct;
      },
      unhooked,
    )
  where
    unhooked : cdlist_is_hooked i (cdlist_item_init i (cdlist_unlink i m)) ≡ false
    unhooked = unfold cdlist_item_init in ground arith

Links-path : (m m' : Links) → m.next ≡ m'.next → m.prev ≡ m'.prev → m ≡ m'
Links-path m m' p q = λ i. record { next = p i; prev = q i }

-- Deleting an unhooked node writes back the links that it has.
pub del-unhooked : (m : Links) (i : ℕ) → m.next i ≡ i → m.prev i ≡ i → cdlist_del i m ≡ m
unfolding cdlist_del cdlist_unlink cdlist_item_init
del-unhooked m i n p = Links-path _ m (fun_ext λ j. ground arith) (fun_ext λ j. ground arith)

-- `cdlist_pop_head` takes the first node off, unhooked; on the empty list it returns null.
pub pop_head-cons :
    (m : Links) (head x : ℕ) (xs : List ℕ)
    → IsRing m head (x ∷ xs)
    → ((cdlist_pop_head head m).0 ≡ some x) × IsRing (cdlist_pop_head head m).1 head xs
unfolding cdlist_pop_head cdlist_is_empty
pop_head-cons m head x xs r =
    subst (λ s. (s.0 ≡ some x) × IsRing s.1 head xs) (sym taken)
      (refl, (del-IsRing m head x [] xs r).0)
  where
    taken : cdlist_pop_head head m ≡ (some x, cdlist_del x m)
    taken = rw (← r.linked.0) (ground (arith, r.distinct.0.0))

pub pop_head-nil : (m : Links) (head : ℕ) → IsRing m head [] → cdlist_pop_head head m ≡ (none, m)
unfolding cdlist_pop_head cdlist_is_empty
pop_head-nil m head r = ground (arith, r.linked)
