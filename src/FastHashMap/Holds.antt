-- ===== src/FastHashMap/Holds.antt =====
-- A fast hash map (runtime/utils/fast_hash_map.h) holds a list of keys and values.
use nfvactor.Prelude.{
  ℕ, ◌≡◌, refl, sym, ap, Option, none, some, List, [], ◌∷◌, ◌++◌, ◌==◌, ◌>>=◌, if◌then◌else◌, map,
  length, update, arith, some_injective,
}
use mathlib.Core.Path.{subst}
use native.Mathlib.Decide.{ℕ_discrete}
use nfvactor.Cdlist.Ring.{NotIn, IsDistinct, IsRing}
use nfvactor.FastHashMap.{FastHashMap}

-- A key, the address of its item, and its value.
pub record Entry (V : Type 0) : Type 0 where
  pub key : ℕ
  pub item : ℕ
  pub value : V

module _ {V : Type 0} where
  unfoldable pub look : ℕ → List (Entry V) → Option (Entry V)
  look k [] = none
  look k (e ∷ l) = if e.key == k then some e else look k l

  unfoldable pub without : ℕ → List (Entry V) → List (Entry V)
  without k [] = []
  without k (e ∷ l) = let rest = without k l in if e.key == k then rest else e ∷ rest

  abbrev pub items : List (Entry V) → List ℕ
  items l = map (λ e. e.item) l

  abbrev pub keys : List (Entry V) → List ℕ
  keys l = map (λ e. e.key) l

  -- Every item stands in memory with its value.
  abbrev pub Stored : (ℕ → Option V) → List (Entry V) → Type 0
  Stored val [] = Unit
  Stored val (e ∷ l) = (val e.item ≡ some e.value) × Stored val l

  -- The map has the entries of `l`, and the circular list has their items in this order.
  pub record Holds (head : ℕ) (m : FastHashMap V) (l : List (Entry V)) : Type 0 where
    pub ring : IsRing m.links head (items l)
    pub table : (k : ℕ) → m.htable k ≡ (look k l >>= (λ e. some e.item))
    pub stored : Stored m.val l
    pub distinct : IsDistinct (keys l)
    pub counted : m.count ≡ length l

  pub look-snoc :
      (k : ℕ) (l : List (Entry V)) (e : Entry V)
      → look k (l ++ e ∷ [])
        ≡ (elim (look k l) [ none ↦ if e.key == k then some e else none | some f ↦ some f ])
  unfolding look
  look-snoc k [] e = refl
  look-snoc k (f ∷ l) e = ground (arith, look-snoc k l e)

  pub look-NotIn : (k : ℕ) (l : List (Entry V)) → look k l ≡ none → NotIn k (keys l)
  unfolding look
  look-NotIn k [] h = tt
  look-NotIn k (e ∷ l) h = (ground arith, look-NotIn k l (ground arith))

  pub NotIn-look : (k : ℕ) (l : List (Entry V)) → NotIn k (keys l) → look k l ≡ none
  unfolding look
  NotIn-look k [] h = refl
  NotIn-look k (e ∷ l) h = ground (arith, NotIn-look k l h.1)

  pub look-without :
      (k j : ℕ) (l : List (Entry V)) → look j (without k l) ≡ (if k == j then none else look j l)
  unfolding look without
  look-without k j [] = ground arith
  look-without k j (e ∷ l) = ground (arith, look-without k j l)

  pub without-NotIn : (k : ℕ) (l : List (Entry V)) → NotIn k (keys l) → without k l ≡ l
  unfolding without
  without-NotIn k [] h = refl
  without-NotIn k (e ∷ l) h = ground (arith, without-NotIn k l h.1)

  pub Stored-append :
      (val : ℕ → Option V) (l : List (Entry V)) (e : Entry V)
      → Stored val l
      → val e.item ≡ some e.value
      → Stored val (l ++ e ∷ [])
  Stored-append val [] e s h = (h, tt)
  Stored-append val (f ∷ l) e s h = (s.0, Stored-append val l e s.1 h)

  -- A write elsewhere.
  pub Stored-update :
      (val : ℕ → Option V) (i : ℕ) (o : Option V) (l : List (Entry V))
      → NotIn i (items l)
      → Stored val l
      → Stored (update val i o) l
  Stored-update val i o [] n s = tt
  Stored-update val i o (e ∷ l) n s = (ground arith, Stored-update val i o l n.1 s.1)

  -- A key that is found stands at one place.
  pub split :
      (k : ℕ) (l : List (Entry V)) (e : Entry V)
      → IsDistinct (keys l)
      → look k l ≡ some e
      → (xs ys : List (Entry V)) × (l ≡ xs ++ e ∷ ys) × (without k l ≡ xs ++ ys)
  unfolding look without
  split k [] e d h = absurd (cc)
  split k (f ∷ l) e d h = elim (ℕ_discrete f.key k) [
    | yes p ↦
        let same : e ≡ f = some_injective (ground arith) in
        let rest = without-NotIn k l (subst (λ j. NotIn j (keys l)) p d.0) in
        ([], l, ap (λ g. g ∷ l) (sym same), ground arith)
    | no p ↦
        let (xs, ys, a, b) = split k l e d.1 (ground arith) in
        (f ∷ xs, ys, ap (◌∷◌ f) a, ground arith)
  ]
