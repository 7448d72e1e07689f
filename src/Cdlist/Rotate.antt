-- ===== src/Cdlist/Rotate.antt =====
-- `cdlist_rotate_left`, the round robin step.
use nfvactor.Prelude.{ℕ, ◌≡◌, ◌≢◌, sym, refl, none, some, List, [], ◌∷◌, ◌++◌, arith}
use mathlib.Core.Path.{subst}
use nfvactor.Cdlist.{
  Links, set_next, set_prev, cdlist_rotate_left, cdlist_is_empty, cdlist_is_single, rotate_links,
}
use nfvactor.Cdlist.Ring.{
  NotIn, IsDistinct, Seg, IsRing, Seg-prev_ne, IsDistinct-snoc, NotIn-append,
}

-- The six writes, at the first two nodes.
abbrev rotated : ℕ → ℕ → ℕ → Links → Links
rotated first second head m = set_prev first (m.prev head) (
    set_next (m.prev head) first
      (set_prev head first (set_next first head (set_prev second head (set_next head second m)))))

rotate_links_lem :
    (m : Links) (head x y : ℕ)
    → m.next head ≡ x
    → m.next x ≡ y
    → rotate_links head m ≡ rotated x y head m
unfolding rotate_links
rotate_links_lem m head x y p q = rw (← q, ← p)

-- What the writes leave of the part behind the second node.
rotated-Seg :
    (m : Links) (a head first second : ℕ) (xs : List ℕ)
    → Seg m a xs head
    → NotIn first (a ∷ xs)
    → head ≢ first
    → NotIn head (a ∷ xs)
    → NotIn second xs
    → IsDistinct (a ∷ xs)
    → Seg (rotated first second head m) a (xs ++ first ∷ []) head
rotated-Seg m a head first second [] s f g n t d =
    (ground arith, ground arith, (ground arith, ground arith))
rotated-Seg m a head first second (x ∷ xs) s f g n t d = (
  ground (arith, Seg-prev_ne m x head a xs d.0 s.2),
  ground arith,
  rotated-Seg m x head first second xs s.2 f.1 g n.1 t.1 d.1,
)

NotIn-snoc : (a b : ℕ) (xs : List ℕ) → NotIn a xs → a ≢ b → NotIn a (xs ++ b ∷ [])
NotIn-snoc a b xs f g = NotIn-append a xs (b ∷ []) f (g, tt)

-- Rotation moves the first of two or more nodes to the end and returns it.
pub rotate_left-IsRing :
    (m : Links) (head x y : ℕ) (xs : List ℕ)
    → IsRing m head (x ∷ y ∷ xs)
    → ((cdlist_rotate_left head m).0 ≡ some x)
      × IsRing (cdlist_rotate_left head m).1 head (y ∷ xs ++ x ∷ [])
unfolding cdlist_rotate_left cdlist_is_empty cdlist_is_single
rotate_left-IsRing m head x y xs r =
    subst (λ s. (s.0 ≡ some x) × IsRing s.1 head (y ∷ xs ++ x ∷ [])) (sym taken)
      (
        refl,
        record {
          linked = (ground (arith, apart), ground arith, tail);
          distinct = (
            (d.0.1.0, NotIn-snoc head x xs d.0.1.1 d.0.0),
            IsDistinct-snoc x (y ∷ xs) d.1.1 d.1.0,
          );
        },
      )
  where
    d : IsDistinct (head ∷ x ∷ y ∷ xs)
    d = r.distinct

    s : Seg m head (x ∷ y ∷ xs) head
    s = r.linked

    apart : (x ≢ m.prev head) × (head ≢ m.prev head)
    apart = (Seg-prev_ne m y head x xs d.1.0 s.2.2, Seg-prev_ne m y head head xs d.0.1 s.2.2)

    taken : cdlist_rotate_left head m ≡ (some x, rotated x y head m)
    taken = rw (← rotate_links_lem m head x y s.0 s.2.0, ← s.0) (ground (arith, apart, d.0.0))

    tail : Seg (rotated x y head m) y (xs ++ x ∷ []) head
    tail = rotated-Seg m y head x y xs s.2.2 d.1.0 d.0.0 d.0.1 d.1.1.0 d.1.1

-- With no node it returns null, with one node that node; either way no link changes.
pub rotate_left_short :
    (m : Links) (head : ℕ)
    → (IsRing m head [] → cdlist_rotate_left head m ≡ (none, m))
      × ((x : ℕ) → IsRing m head (x ∷ []) → cdlist_rotate_left head m ≡ (some x, m))
unfolding cdlist_rotate_left cdlist_is_empty cdlist_is_single
rotate_left_short m head = (
  λ r. ground (arith, r.linked),
  λ x r. rw (← r.linked.0) (ground (arith, r.linked, r.distinct.0.0)),
)
