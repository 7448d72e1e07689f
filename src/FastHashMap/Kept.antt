-- ===== src/FastHashMap/Kept.antt =====
-- Insertion, deletion and the round of a fast hash map (runtime/utils/fast_hash_map.h).
use mathlib.Core.List.{map-append}
use nfvactor.Prelude.{
  ℕ, ◌+◌, ◌-◌, ◌≡◌, refl, sym, ap, ◌∙◌, Option, none, some, List, [], ◌∷◌, ◌++◌, ◌>>=◌,
  length-append, update, update_self, arith, inl, inr, Option-cases,
}
use mathlib.Core.Path.{subst}
use nfvactor.Cdlist.{Links, cdlist_add_tail, cdlist_del}
use nfvactor.Cdlist.Ring.{NotIn, IsDistinct, IsRing, IsDistinct-snoc, head_init-IsRing}
use nfvactor.Cdlist.Insert.{add_tail-IsRing}
use nfvactor.Cdlist.Delete.{del-IsRing, IsDistinct-remove}
use nfvactor.FastHashMap.{FastHashMap, init, emplace, erase, find}
use nfvactor.FastHashMap.Holds.{
  Entry, look, without, items, keys, Stored, Holds, look-snoc, look-NotIn, look-without,
  without-NotIn, Stored-append, Stored-update, split,
}

module _ {V : Type 0} where
  pub init-Holds : (head : ℕ) (links : Links) → Holds {V = V} head (init head links) []
  unfolding init look
  init-Holds head links = record {
    ring = head_init-IsRing links head;
    table = λ k. refl;
    stored = tt;
    distinct = tt;
    counted = refl;
  }

  table-snoc :
      (t : ℕ → Option ℕ) (l : List (Entry V)) (e : Entry V)
      → ((k : ℕ) → t k ≡ (look k l >>= (λ g. some g.item)))
      → look e.key l ≡ none
      → (k : ℕ) → update t e.key (some e.item) k ≡ (look k (l ++ e ∷ []) >>= (λ g. some g.item))
  table-snoc t l e h new k = ground (arith, h k, look-snoc k l e)

  emplaced :
      (head : ℕ) (e : Entry V) (m : FastHashMap V) (l : List (Entry V))
      → Holds head m l
      → NotIn e.item (head ∷ items l)
      → look e.key l ≡ none
      → Holds head
          (record {
            htable = update m.htable e.key (some e.item);
            count = m.count + 1;
            links = cdlist_add_tail head e.item m.links;
            val = update m.val e.item (some e.value);
          })
          (l ++ e ∷ [])
  emplaced head e m l h f new = record {
    ring =
        subst (λ q. IsRing (cdlist_add_tail head e.item m.links) head q)
          (sym (map-append (λ g. g.item) l (e ∷ [])))
          (add_tail-IsRing m.links head e.item (items l) h.ring f);
    table = table-snoc m.htable l e h.table new;
    stored =
        Stored-append (update m.val e.item (some e.value)) l e
          (Stored-update m.val e.item (some e.value) l f.1 h.stored)
          (update_self m.val e.item (some e.value));
    distinct =
        subst IsDistinct (sym (map-append (λ g. g.key) l (e ∷ [])))
          (IsDistinct-snoc e.key (keys l) h.distinct (look-NotIn e.key l new));
    counted = omega (arith, h.counted, length-append l (e ∷ []));
  }

  -- A key that the map has is refused, and the map stays as it is. A new one, with an item that is
  -- not in use, joins the entries behind all others.
  pub emplace-Holds :
      (head key item : ℕ) (v : V) (m : FastHashMap V) (l : List (Entry V))
      → Holds head m l
      → ((e : Entry V) → look key l ≡ some e → emplace head key item v m ≡ (none, m))
        × (look key l ≡ none
            → NotIn item (head ∷ items l)
            → (m' : FastHashMap V) × (emplace head key item v m ≡ (some v, m'))
              × Holds head m' (l ++ record { key = key; item = item; value = v } ∷ []))
  unfolding emplace
  emplace-Holds head key item v m l h = (
    λ e found.
        let there : m.htable key ≡ some e.item = h.table key ∙ rw found refl in
        rw (emplace, there) refl,
    λ new f.
        let e : Entry V = record { key = key; item = item; value = v } in
        let free : m.htable key ≡ none = h.table key ∙ rw new refl in
        (_, rw (emplace, free) refl, emplaced head e m l h f new),
  )

  Stored-remove :
      (val : ℕ → Option V) (xs ys : List (Entry V)) (e : Entry V)
      → Stored val (xs ++ e ∷ ys)
      → Stored val (xs ++ ys)
  Stored-remove val [] ys e s = s.1
  Stored-remove val (f ∷ xs) ys e s = (s.0, Stored-remove val xs ys e s.1)

  table-without :
      (t : ℕ → Option ℕ) (k : ℕ) (l : List (Entry V))
      → ((j : ℕ) → t j ≡ (look j l >>= (λ g. some g.item)))
      → (j : ℕ) → update t k none j ≡ (look j (without k l) >>= (λ g. some g.item))
  table-without t k l h j = ground (arith, h j, look-without k j l)

  -- The item of the entry that goes, among all items.
  apart :
      (head : ℕ) (m : FastHashMap V) (xs ys : List (Entry V)) (e : Entry V)
      → IsRing m.links head (items (xs ++ e ∷ ys))
      → IsRing (cdlist_del e.item m.links) head (items (xs ++ ys)) × NotIn e.item (items (xs ++ ys))
  apart head m xs ys e r =
      let r' = subst (λ q. IsRing m.links head q) (map-append (λ g. g.item) xs (e ∷ ys)) r in
      let joined = sym (map-append (λ g. g.item) xs ys) in
      (
        subst (λ q. IsRing (cdlist_del e.item m.links) head q) joined
            (del-IsRing m.links head e.item (items xs) (items ys) r').0,
        subst (NotIn e.item) joined
            (IsDistinct-remove e.item (items xs) (items ys) r'.distinct.1).1,
      )

  erased :
      (head : ℕ) (m : FastHashMap V) (key : ℕ) (xs ys : List (Entry V)) (e : Entry V)
      → Holds head m (xs ++ e ∷ ys)
      → without key (xs ++ e ∷ ys) ≡ xs ++ ys
      → Holds head
          (record {
            htable = update m.htable key none;
            count = m.count - 1;
            links = cdlist_del e.item m.links;
            val = update m.val e.item none;
          })
          (xs ++ ys)
  erased head m key xs ys e h same =
      let (ring, free) = apart head m xs ys e h.ring in
      let ks = subst IsDistinct (map-append (λ g. g.key) xs (e ∷ ys)) h.distinct in
      record {
        ring = ring;
        table = λ j.
            table-without m.htable key (xs ++ e ∷ ys) h.table j
            ∙ ap (λ q. look j q >>= (λ g. some g.item)) same;
        stored =
            Stored-update m.val e.item none (xs ++ ys) free (Stored-remove m.val xs ys e h.stored);
        distinct =
            subst IsDistinct (sym (map-append (λ g. g.key) xs ys))
              (IsDistinct-remove e.key (keys xs) (keys ys) ks).0;
        counted = omega (arith, h.counted, length-append xs (e ∷ ys), length-append xs ys);
      }

  -- The entry of the key goes, if there is one, and the others stay in their order.
  pub erase-Holds :
      (head key : ℕ) (m : FastHashMap V) (l : List (Entry V))
      → Holds head m l
      → Holds head (erase key m) (without key l)
  unfolding erase
  erase-Holds head key m l h = elim (Option-cases (look key l)) [
    | inl new ↦
        let free : m.htable key ≡ none = h.table key ∙ rw new refl in
        rw (erase, free) (subst (Holds head m) (sym (without-NotIn key l (look-NotIn key l new))) h)
    | inr (e, found) ↦
        let there : m.htable key ≡ some e.item = h.table key ∙ rw found refl in
        let (xs, ys, at, left) = split key l e h.distinct found in
        rw (erase, there)
          (subst (Holds head _) (sym left) (
            erased head m key xs ys e (subst (Holds head m) at h)
              (ap (without key) (sym at) ∙ left)))
  ]

  Stored-at :
      (val : ℕ → Option V) (k : ℕ) (l : List (Entry V))
      → Stored val l
      → (look k l >>= (λ e. val e.item)) ≡ (look k l >>= (λ e. some e.value))
  unfolding look
  Stored-at val k [] s = refl
  Stored-at val k (e ∷ l) s = ground (arith, Stored-at val k l s.1)

  -- A key leads to its value.
  pub find-Holds :
      (head key : ℕ) (m : FastHashMap V) (l : List (Entry V))
      → Holds head m l
      → find key m ≡ (look key l >>= (λ e. some e.value))
  unfolding find
  find-Holds head key m l h = ground (arith, h.table key, Stored-at m.val key l h.stored)
