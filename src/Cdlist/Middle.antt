-- ===== src/Cdlist/Middle.antt =====
-- Insertion next to a node, wherever it stands (runtime/utils/cdlist.h).
use nfvactor.Prelude.{ℕ, sym, List, [], ◌∷◌, ◌++◌}
use nfvactor.Cdlist.{Links, cdlist_add_after, cdlist_add_before, cdlist_add_head, cdlist_add_tail}
use nfvactor.Cdlist.Ring.{
  NotIn, IsDistinct, Seg, IsRing, NotIn-append, NotIn-append_left, NotIn-append_right,
  IsDistinct-snoc,
}
use nfvactor.Cdlist.Insert.{add_head-IsRing, add_tail-IsRing}
use nfvactor.Cdlist.Delete.{Seg-split}
use mathlib.Core.List.{append_assoc, append-nil}
use mathlib.Core.Path.{subst}

Seg-join :
    (m : Links) (a i b : ℕ) (xs ys : List ℕ)
    → Seg m a xs i
    → Seg m i ys b
    → Seg m a (xs ++ i ∷ ys) b
Seg-join m a i b [] ys s t = (s.0, s.1, t)
Seg-join m a i b (x ∷ xs) ys s t = (s.0, s.1, Seg-join m x i b xs ys s.2 t)

-- A node of the front part moves behind the list.
IsDistinct-turn : (xs ys : List ℕ) → IsDistinct (xs ++ ys) → IsDistinct (ys ++ xs)
IsDistinct-turn [] ys d = subst IsDistinct (sym (append-nil ys)) d
IsDistinct-turn (x ∷ xs) ys d = subst IsDistinct (append_assoc ys (x ∷ []) xs) (
    IsDistinct-turn xs (ys ++ x ∷ [])
      (subst IsDistinct (append_assoc xs ys (x ∷ [])) (IsDistinct-snoc x (xs ++ ys) d.1 d.0)))

-- Any node of a circular list may pass for its head.
other_head-IsRing :
    (m : Links) (head x : ℕ) (xs ys : List ℕ)
    → IsRing m head (xs ++ x ∷ ys)
    → IsRing m x (ys ++ head ∷ xs)
other_head-IsRing m head x xs ys r =
    let (front, back) = Seg-split m head x head xs ys r.linked in
    record {
      linked = Seg-join m x head x ys xs back front;
      distinct = IsDistinct-turn (head ∷ xs) (x ∷ ys) r.distinct;
    }

NotIn-turn : (i : ℕ) (xs ys : List ℕ) → NotIn i (xs ++ ys) → NotIn i (ys ++ xs)
NotIn-turn i xs ys f =
    NotIn-append i ys xs (NotIn-append_right i xs ys f) (NotIn-append_left i xs ys f)

module _ (m : Links) (head x i : ℕ) (xs ys : List ℕ) where
  -- A node that the list does not hold goes right behind `x`.
  add_after-IsRing :
      IsRing m head (xs ++ x ∷ ys)
      → NotIn i (head ∷ (xs ++ x ∷ ys))
      → IsRing (cdlist_add_after x i m) head (xs ++ x ∷ i ∷ ys)
  unfolding cdlist_add_after cdlist_add_head
  add_after-IsRing r f = other_head-IsRing (cdlist_add_head x i m) x head (i ∷ ys) xs (
      add_head-IsRing m x i (ys ++ head ∷ xs) (other_head-IsRing m head x xs ys r)
        (NotIn-turn i (head ∷ xs) (x ∷ ys) f))

  -- A node that the list does not hold goes right in front of `x`.
  add_before-IsRing :
      IsRing m head (xs ++ x ∷ ys)
      → NotIn i (head ∷ (xs ++ x ∷ ys))
      → IsRing (cdlist_add_before x i m) head (xs ++ i ∷ x ∷ ys)
  unfolding cdlist_add_before cdlist_add_tail
  add_before-IsRing r f =
      let added =
        add_tail-IsRing m x i (ys ++ head ∷ xs) (other_head-IsRing m head x xs ys r)
          (NotIn-turn i (head ∷ xs) (x ∷ ys) f) in
      subst (IsRing (cdlist_add_tail x i m) head) (append_assoc xs (i ∷ []) (x ∷ ys)) (
        other_head-IsRing (cdlist_add_tail x i m) x head ys (xs ++ i ∷ [])
          (subst (IsRing (cdlist_add_tail x i m) x) (append_assoc ys (head ∷ xs) (i ∷ [])) added))
