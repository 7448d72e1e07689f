-- ===== src/Cdlist/Insert.antt =====
-- Insertion at either end of a well-linked list.
use nfvactor.Prelude.{ℕ, ◌≢◌, sym, List, [], ◌∷◌, ◌++◌, arith}
use nfvactor.Cdlist.{Links, cdlist_add_between, cdlist_add_head, cdlist_add_tail}
use nfvactor.Cdlist.Ring.{
  NotIn, IsDistinct, Seg, IsRing, Seg-set_next, Seg-set_prev, Seg-prev_ne, IsDistinct-snoc,
}

add_between-Seg_end :
    (m : Links) (a b i : ℕ) (xs : List ℕ)
    → Seg m a xs b
    → NotIn i (a ∷ xs)
    → i ≢ b
    → NotIn b xs
    → IsDistinct (a ∷ xs)
    → Seg (cdlist_add_between (m.prev b) b i m) a (xs ++ i ∷ []) b
unfolding cdlist_add_between
add_between-Seg_end m a b i [] s f g n d = ground arith
add_between-Seg_end m a b i (x ∷ xs) s f g n d = (
  ground (arith, Seg-prev_ne m x b a xs d.0 s.2),
  ground arith,
  add_between-Seg_end m x b i xs s.2 f.1 g n.1 d.1,
)

-- Adding a node that the list does not hold puts it last.
pub add_tail-IsRing :
    (m : Links) (head i : ℕ) (xs : List ℕ)
    → IsRing m head xs
    → NotIn i (head ∷ xs)
    → IsRing (cdlist_add_tail head i m) head (xs ++ i ∷ [])
unfolding cdlist_add_tail
add_tail-IsRing m head i xs r f = record {
  linked = add_between-Seg_end m head head i xs r.linked f f.0 r.distinct.0 r.distinct;
  distinct = IsDistinct-snoc i (head ∷ xs) r.distinct f;
}

add_between-Seg_front :
    (m : Links) (a b i : ℕ) (xs : List ℕ)
    → Seg m a xs b
    → NotIn i (a ∷ xs)
    → i ≢ b
    → NotIn b xs
    → IsDistinct (a ∷ xs)
    → Seg (cdlist_add_between a (m.next a) i m) a (i ∷ xs) b
unfolding cdlist_add_between
add_between-Seg_front m a b i [] s f g n d = ground arith
add_between-Seg_front m a b i (x ∷ xs) s f g n d =
    (ground arith, ground arith, (ground arith, ground arith, rest))
  where
    rest : Seg (cdlist_add_between a (m.next a) i m) x xs b
    rest = Seg-set_prev _ (m.next a) i x b xs (rw s.0 d.1.0) (rw s.0 (λ e. n.0 (sym e))) (
        Seg-set_prev _ i a x b xs f.1.1 g
          (Seg-set_next _ i (m.next a) x b xs f.1 (Seg-set_next m a i x b xs d.0 s.2)))

-- Adding a node that the list does not hold at the head puts it first.
pub add_head-IsRing :
    (m : Links) (head i : ℕ) (xs : List ℕ)
    → IsRing m head xs
    → NotIn i (head ∷ xs)
    → IsRing (cdlist_add_head head i m) head (i ∷ xs)
unfolding cdlist_add_head
add_head-IsRing m head i xs r f = record {
  linked = add_between-Seg_front m head head i xs r.linked f f.0 r.distinct.0 r.distinct;
  distinct = ((λ e. f.0 (sym e), r.distinct.0), (f.1, r.distinct.1));
}
