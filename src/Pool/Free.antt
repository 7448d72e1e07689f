-- ===== src/Pool/Free.antt =====
-- Which objects of a pool are free: the ring holds exactly those that are not in use.
use mathlib.Core.List.{Perm, perm_middle, append-nil, append_assoc}
use mathlib.Core.List.Perm
use mathlib.Core.Path.{subst}
use nfvactor.Prelude.{
  ℕ, zero, suc, ◌+◌, ◌≤◌, ◌<◌, ◌^◌, ◌≡◌, refl, sym, ◌∙◌, ap, true, none, some, List, [], ◌∷◌, ◌++◌,
  arith, length, length-append,
}
use nfvactor.RingBuffer
use nfvactor.RingBuffer.{SimpleRingBuffer}
use nfvactor.RingBuffer.Refine.{
  IsHolding, init-IsHolding, push_ok, pop_cons, popped-IsHolding, pop_empty, max_size-push,
}
use nfvactor.Pool.{fill, init, allocate, deallocate}

abbrev pub range : ℕ → ℕ → List ℕ
range i zero = []
range i (suc n) = i ∷ range (i + 1) n

length-range : (i n : ℕ) → length (range i n) ≡ n
length-range i zero = refl
length-range i (suc n) = ap suc (length-range (i + 1) n)

-- A pool between two calls: the free objects `q` in their order, the objects `out` in use, and
-- together they are the objects of the array, each once.
pub record IsPool (n : ℕ) (r : SimpleRingBuffer ℕ) (q out : List ℕ) : Type 0 where
  pub held : IsHolding r q
  pub size : r.max_size ≡ n
  pub counted : length q + length out ≡ n
  pub whole : Perm (q ++ out) (range 0 n)

fill-IsHolding :
    (n i : ℕ) (r : SimpleRingBuffer ℕ) (q : List ℕ)
    → IsHolding r q
    → length q + n ≤ r.max_size
    → IsHolding (fill n i r) (q ++ range i n) × ((fill n i r).max_size ≡ r.max_size)
unfolding fill
fill-IsHolding zero i r q v l = (rw append-nil v, refl)
fill-IsHolding (suc n) i r q v l =
    let (_, held) = push_ok r q i v (omega arith) in
    let (rest, size) =
      fill-IsHolding n (i + 1) _ (q ++ i ∷ []) held
        (omega (arith, length-append q (i ∷ []), max_size-push r i)) in
    (subst (IsHolding _) (append_assoc q (i ∷ []) (range (i + 1) n)) rest, size ∙ max_size-push r i)

max_size-init : (n : ℕ) (storage : List ℕ) → (RingBuffer.init n storage).max_size ≡ n
unfolding RingBuffer.init
max_size-init n storage = refl

capacity : (n : ℕ) (storage : List ℕ) → length {A = ℕ} [] + n ≤ (RingBuffer.init n storage).max_size
capacity n storage = omega (arith, max_size-init n storage)

-- After `init` every object is free, in the order of the array.
pub init-IsPool :
    (n : ℕ) (storage : List ℕ)
    → length storage ≡ n
    → n < 2 ^ 63
    → IsPool n (init n storage) (range 0 n) []
unfolding init
init-IsPool n storage e l =
    let both =
      fill-IsHolding n 0 (RingBuffer.init n storage) [] (init-IsHolding n storage e l)
        (capacity n storage) in
    record {
      held = both.0;
      size = both.1 ∙ max_size-init n storage;
      counted = omega (arith, length-range 0 n);
      whole =
          subst (λ q. Perm q (range 0 n)) (sym (append-nil (range 0 n))) (Perm.refl (range 0 n));
    }

-- `allocate` hands out a free object, the one freed longest ago, and null only if all are in use.
pub allocate-IsPool :
    (n : ℕ) (r : SimpleRingBuffer ℕ) (out : List ℕ)
    → (IsPool n r [] out → (allocate r ≡ (none, r)) × (length out ≡ n))
      × ((a : ℕ) (q : List ℕ)
          → IsPool n r (a ∷ q) out
          → ((allocate r).0 ≡ some a) × IsPool n (allocate r).1 q (a ∷ out))
unfolding allocate
allocate-IsPool n r out = (
  λ v. (pop_empty r v.held.size, omega (arith, v.counted)),
  λ a q v. rw (pop_cons r a q v.held) (
    refl,
    record {
      held = popped-IsHolding r a q v.held;
      size = v.size;
      counted = omega (arith, v.counted);
      whole = Perm.trans (perm_middle q out) v.whole;
    },
  ),
)

-- In a pool between two calls, giving back an object in use always succeeds, and makes it the last of the free ones.
pub deallocate-IsPool :
    (n a : ℕ) (r : SimpleRingBuffer ℕ) (q xs ys : List ℕ)
    → IsPool n r q (xs ++ a ∷ ys)
    → ((deallocate a r).0 ≡ true) × IsPool n (deallocate a r).1 (q ++ a ∷ []) (xs ++ ys)
unfolding deallocate
deallocate-IsPool n a r q xs ys v =
    let (done, held) =
      push_ok r q a v.held (omega (arith, v.counted, v.size, length-append xs (a ∷ ys))) in
    (
      done,
      record {
        held = held;
        size = max_size-push r a ∙ v.size;
        counted = omega (
          arith,
          v.counted,
          length-append q (a ∷ []),
          length-append xs (a ∷ ys),
          length-append xs ys,
        );
        whole = Perm.trans moved v.whole;
      },
    )
  where
    moved : Perm ((q ++ a ∷ []) ++ (xs ++ ys)) (q ++ (xs ++ a ∷ ys))
    moved =
        rw (append_assoc q (a ∷ []) (xs ++ ys)) (Perm.append_left q (Perm.symm (perm_middle xs ys)))
