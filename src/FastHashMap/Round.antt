-- ===== src/FastHashMap/Round.antt =====
-- `next` of a fast hash map goes around all entries (runtime/utils/fast_hash_map.h).
use mathlib.Core.List.{map-append, append_assoc, append-nil}
use nfvactor.Prelude.{
  ℕ, zero, suc, ◌≡◌, refl, sym, ap, ◌∙◌, Option, none, some, List, [], ◌∷◌, ◌++◌, ◌>>=◌, map,
  length, length-append, arith,
}
use mathlib.Core.Path.{subst}
use nfvactor.Cdlist.{cdlist_rotate_left}
use nfvactor.Cdlist.Ring.{IsDistinct, IsRing, IsDistinct-snoc}
use nfvactor.Cdlist.Rotate.{rotate_left-IsRing, rotate_left_short}
use nfvactor.FastHashMap.{FastHashMap, next}
use nfvactor.FastHashMap.Holds.{
  Entry, look, items, keys, Holds, look-snoc, NotIn-look, Stored-append,
}

module _ {V : Type 0} where
  -- The values of `n` calls of `next`.
  unfoldable pub nexts : ℕ → ℕ → FastHashMap V → List (Option V) × FastHashMap V
  nexts head zero m = ([], m)
  nexts head (suc n) m = let (v, m') = next head m in let (vs, m2) = nexts head n m' in (v ∷ vs, m2)

  -- The circular list, with its first item at the end.
  turned :
      (head : ℕ) (m : FastHashMap V) (e : Entry V) (l : List (Entry V))
      → IsRing m.links head (items (e ∷ l))
      → ((cdlist_rotate_left head m.links).0 ≡ some e.item)
        × IsRing (cdlist_rotate_left head m.links).1 head (items (l ++ e ∷ []))
  turned head m e [] r =
      let short = (rotate_left_short m.links head).1 e.item r in rw short (refl, r)
  turned head m e (f ∷ l) r =
      let (first, ring) = rotate_left-IsRing m.links head e.item f.item (items l) r in
      (
        first,
        subst (λ q. IsRing (cdlist_rotate_left head m.links).1 head (f.item ∷ q))
            (sym (map-append (λ g. g.item) l (e ∷ []))) ring,
      )

  look-turn :
      (k : ℕ) (e : Entry V) (l : List (Entry V))
      → look e.key l ≡ none
      → look k (l ++ e ∷ []) ≡ look k (e ∷ l)
  unfolding look
  look-turn k e l new = ground (arith, look-snoc k l e)

  -- `next` answers the first entry's value, and this entry goes behind all others.
  pub next-Holds :
      (head : ℕ) (m : FastHashMap V) (e : Entry V) (l : List (Entry V))
      → Holds head m (e ∷ l)
      → ((next head m).0 ≡ some e.value) × Holds head (next head m).1 (l ++ e ∷ [])
  unfolding next
  next-Holds head m e l h =
      let (first, ring) = turned head m e l h.ring in
      let new : look e.key l ≡ none = NotIn-look e.key l h.distinct.0 in
      (
        rw first h.stored.0,
        record {
          ring = ring;
          table = λ k. h.table k ∙ ap (λ o. o >>= (λ g. some g.item)) (sym (look-turn k e l new));
          stored = Stored-append m.val l e h.stored.1 h.stored.0;
          distinct =
              subst IsDistinct (sym (map-append (λ g. g.key) l (e ∷ [])))
                (IsDistinct-snoc e.key (keys l) h.distinct.1 h.distinct.0);
          counted = omega (arith, h.counted, length-append l (e ∷ []));
        },
      )

  rounds :
      (head : ℕ) (l1 l2 : List (Entry V)) (m : FastHashMap V)
      → Holds head m (l1 ++ l2)
      → ((nexts head (length l1) m).0 ≡ map (λ e. some e.value) l1)
        × Holds head (nexts head (length l1) m).1 (l2 ++ l1)
  unfolding nexts
  rounds head [] l2 m h = (refl, subst (Holds head m) (sym (append-nil l2)) h)
  rounds head (e ∷ l1) l2 m h =
      let (first, h') = next-Holds head m e (l1 ++ l2) h in
      let (rest, h2) =
        rounds head l1 (l2 ++ e ∷ []) (next head m).1
          (subst (Holds head (next head m).1) (append_assoc l1 l2 (e ∷ [])) h') in
      (
        λ i. first i ∷ rest i,
        subst (Holds head (nexts head (length l1) (next head m).1).1) (append_assoc l2 (e ∷ []) l1)
            h2,
      )

  -- As many calls of `next` as there are entries answer the values of all of them, each once and in
  -- the order of the list, and leave the entries as they were.
  pub nexts-round :
      (head : ℕ) (l : List (Entry V)) (m : FastHashMap V)
      → Holds head m l
      → ((nexts head (length l) m).0 ≡ map (λ e. some e.value) l)
        × Holds head (nexts head (length l) m).1 l
  nexts-round head l m h = rounds head l [] m (subst (Holds head m) (sym (append-nil l)) h)
