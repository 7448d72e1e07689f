-- ===== src/RingBuffer/Refine.antt =====
-- A ring of pointers behaves as the bounded queue of what it holds.
use nfvactor.Prelude.{
  ℕ, suc, ◌+◌, ◌-◌, ◌%◌, ◌^◌, ◌≤◌, ◌<◌, ◌≡◌, ◌≢◌, refl, sym, ◌∙◌, ap, true, false, List, [], ◌∷◌,
  ◌++◌, none, some, arith, length, get_elem?, set, length-append, length-set, get_elem?-append_left,
  get_elem?-append_self, get_elem?-set_self, get_elem?-set_ne,
}
use nfvactor.Prelude.Modular.{mod_bound, slot-ne, slot-shift}
use native.Mathlib.Nat.{mod-eq_of_lt, add-zero}
use native.Mathlib.Decide.{ℕ_discrete}
use nfvactor.RingBuffer.{SimpleRingBuffer, add_size, init, push, pop}
use nfvactor.RingBuffer.Queue.{enqueue, dequeue}

-- The ring holds `q`, oldest first.
pub record IsHolding {ℓ} {T : Type ℓ} (r : SimpleRingBuffer T) (q : List T) : Type ℓ where
  pub fits : length q ≤ r.max_size
  pub storage : length r.ring_buf ≡ r.max_size
  pub small : r.max_size < 2 ^ 63
  pub head_in : 0 < r.max_size → r.head_pos < r.max_size
  pub size : r.cur_size ≡ length q
  pub tail : 0 < r.max_size → r.tail_pos ≡ (r.head_pos + r.cur_size) % r.max_size
  pub slots :
      (i : ℕ) → i < length q → get_elem? r.ring_buf ((r.head_pos + i) % r.max_size) ≡ get_elem? q i

module _ {ℓ} {T : Type ℓ} where
  -- A ring that was just initialised is empty.
  pub init-IsHolding :
      (n : ℕ) (storage : List T) → length storage ≡ n → n < 2 ^ 63 → IsHolding (init n storage) []
  unfolding init
  init-IsHolding n storage e l = record {
    fits = omega arith;
    storage = e;
    small = l;
    head_in = λ p. p;
    size = refl;
    tail = λ p. sym (mod-eq_of_lt p);
    slots = λ i h. absurd (omega arith);
  }

  -- The slot behind the last one is where `push` writes, and no held slot.
  tail_slot :
      (r : SimpleRingBuffer T) (q : List T)
      → IsHolding r q
      → length q < r.max_size
      → (r.tail_pos ≡ (r.head_pos + length q) % r.max_size) × (r.tail_pos < length r.ring_buf)
  tail_slot r q v l =
      let e : r.tail_pos ≡ (r.head_pos + length q) % r.max_size =
        omega (arith, v.tail, v.size, ap (λ n. (r.head_pos + n) % r.max_size) v.size) in
      (e, omega (arith, e, v.storage, v.head_in, mod_bound r.max_size (r.head_pos + length q)))

  push-slots :
      (r : SimpleRingBuffer T) (q : List T) (x : T)
      → IsHolding r q
      → length q < r.max_size
      → (i : ℕ) → i < length (q ++ x ∷ [])
      → get_elem? (set r.ring_buf r.tail_pos x) ((r.head_pos + i) % r.max_size)
        ≡ get_elem? (q ++ x ∷ []) i
  push-slots r q x v l i h = elim (ℕ_discrete i (length q)) [
    | yes e ↦
        rw
          (
            e,
            ← (tail_slot r q v l).0,
            get_elem?-set_self r.ring_buf r.tail_pos x (tail_slot r q v l).1,
          )
          (sym (get_elem?-append_self q x))
    | no n ↦
        let lt : i < length q = omega (arith, length-append q (x ∷ [])) in
        let ne : r.tail_pos ≢ (r.head_pos + i) % r.max_size = omega (
          arith,
          (tail_slot r q v l).0,
          v.head_in,
          slot-ne r.max_size r.head_pos i (length q) (v.head_in (omega arith)) (omega arith) l n,
        ) in
        get_elem?-set_ne r.ring_buf r.tail_pos _ x ne
        ∙ v.slots i lt
        ∙ sym (get_elem?-append_left q (x ∷ []) i lt)
  ]

  -- The ring that a successful `push` leaves.
  abbrev pushed : T → SimpleRingBuffer T → SimpleRingBuffer T
  pushed x r = record r {
    ring_buf = set r.ring_buf r.tail_pos x;
    tail_pos = add_size r.tail_pos 1 % r.max_size;
    cur_size = add_size r.cur_size 1;
  }

  pushed-IsHolding :
      (r : SimpleRingBuffer T) (q : List T) (x : T)
      → IsHolding r q
      → length q < r.max_size
      → IsHolding (pushed x r) (q ++ x ∷ [])
  pushed-IsHolding r q x v l = record {
    fits = omega (arith, length-append q (x ∷ []));
    storage = length-set r.ring_buf r.tail_pos x ∙ v.storage;
    small = v.small;
    head_in = v.head_in;
    size = omega (arith, v.size, v.small, length-append q (x ∷ []));
    tail = λ p. next p;
    slots = push-slots r q x v l;
  }
    where
      next :
          0 < r.max_size
          → add_size r.tail_pos 1 % r.max_size ≡ (r.head_pos + add_size r.cur_size 1) % r.max_size
      next p =
          let size : add_size r.cur_size 1 ≡ length q + 1 = omega (arith, v.size, v.small) in
          let here : add_size r.tail_pos 1 ≡ r.tail_pos + 1 =
            omega (arith, v.small, (tail_slot r q v l).1, v.storage) in
          rw (size, here, (tail_slot r q v l).0) (slot-shift r.max_size r.head_pos (length q) 1)

  push_full : (r : SimpleRingBuffer T) (x : T) → r.cur_size ≡ r.max_size → push x r ≡ (false, r)
  unfolding push
  push_full r x e = ground arith

  push_room :
      (r : SimpleRingBuffer T) (x : T) → r.cur_size ≢ r.max_size → push x r ≡ (true, pushed x r)
  unfolding push
  push_room r x n = ground arith

  -- With room left a push succeeds.
  pub push_ok :
      (r : SimpleRingBuffer T) (q : List T) (x : T)
      → IsHolding r q
      → length q < r.max_size
      → ((push x r).0 ≡ true) × IsHolding (push x r).1 (q ++ x ∷ [])
  push_ok r q x v l = rw (push_room r x (omega (arith, v.size))) (refl, pushed-IsHolding r q x v l)

  -- `push` answers as the bounded queue does, and leaves the ring holding its queue.
  pub push_refines :
      (r : SimpleRingBuffer T) (q : List T) (x : T)
      → IsHolding r q
      → ((push x r).0 ≡ (enqueue r.max_size x q).0)
        × IsHolding (push x r).1 (enqueue r.max_size x q).1
  push_refines r q x v = elim (ℕ_discrete r.cur_size r.max_size) [
    | yes e ↦ rw (push_full r x e, full (sym v.size ∙ e)) (refl, v)
    | no n ↦
        rw (push_room r x n, room n)
          (refl, pushed-IsHolding r q x v (omega (arith, v.fits, v.size)))
  ]
    where
      full : length q ≡ r.max_size → enqueue r.max_size x q ≡ (false, q)
      full e = unfold enqueue in ground arith

      room : r.cur_size ≢ r.max_size → enqueue r.max_size x q ≡ (true, q ++ x ∷ [])
      room n = unfold enqueue in ground (arith, v.size)

  abbrev pub popped : SimpleRingBuffer T → SimpleRingBuffer T
  popped r = record r { head_pos = add_size r.head_pos 1 % r.max_size; cur_size = r.cur_size - 1 }

  next_head :
      (r : SimpleRingBuffer T) (x : T) (xs : List T) (i : ℕ)
      → IsHolding r (x ∷ xs)
      → ((popped r).head_pos + i) % r.max_size ≡ (r.head_pos + suc i) % r.max_size
  next_head r x xs i v =
      let here : add_size r.head_pos 1 ≡ r.head_pos + 1 =
        omega (arith, v.small, v.head_in, v.fits) in
      let shift : 1 + i ≡ suc i = omega arith in
      rw here (slot-shift r.max_size r.head_pos 1 i ∙ ap (λ n. (r.head_pos + n) % r.max_size) shift)

  pub popped-IsHolding :
      (r : SimpleRingBuffer T) (x : T) (xs : List T)
      → IsHolding r (x ∷ xs)
      → IsHolding (popped r) xs
  popped-IsHolding r x xs v = record {
    fits = omega (arith, v.fits);
    storage = v.storage;
    small = v.small;
    head_in = λ p.
        omega
          (arith, mod_bound r.max_size (add_size r.head_pos 1) (omega (arith, v.head_in, v.small)));
    size = omega (arith, v.size);
    tail = λ p.
        v.tail p
        ∙ ap (λ n. (r.head_pos + n) % r.max_size) (omega (arith, v.size))
        ∙ sym (next_head r x xs (r.cur_size - 1) v);
    slots = λ i h. rw (next_head r x xs i v) (v.slots (suc i) (omega arith));
  }

  pub pop_cons :
      (r : SimpleRingBuffer T) (x : T) (xs : List T)
      → IsHolding r (x ∷ xs)
      → pop r ≡ (some x, popped r)
  unfolding pop
  pop_cons r x xs v =
      let at : (r.head_pos + 0) % r.max_size ≡ r.head_pos =
        ap (λ n. n % r.max_size) (add-zero r.head_pos)
        ∙ mod-eq_of_lt (v.head_in (omega (arith, v.fits))) in
      let first : get_elem? r.ring_buf r.head_pos ≡ some x =
        ap (get_elem? r.ring_buf) (sym at) ∙ v.slots 0 (omega arith) in
      ground (arith, v.size)

  pub pop_empty : (r : SimpleRingBuffer T) → r.cur_size ≡ 0 → pop r ≡ (none, r)
  unfolding pop
  pop_empty r e = ground arith

  -- `pop` answers as the bounded queue does, and leaves the ring holding the rest.
  pub pop_refines :
      (r : SimpleRingBuffer T) (q : List T)
      → IsHolding r q
      → ((pop r).0 ≡ (dequeue q).0) × IsHolding (pop r).1 (dequeue q).1
  pop_refines r [] v = rw (pop_empty r v.size) (unfold dequeue in (refl, v))
  pop_refines r (x ∷ xs) v =
      rw (pop_cons r x xs v) (unfold dequeue in (refl, popped-IsHolding r x xs v))

  pub max_size-push : (r : SimpleRingBuffer T) (x : T) → (push x r).1.max_size ≡ r.max_size
  unfolding push
  max_size-push r x = ground arith

  pub max_size-pop : (r : SimpleRingBuffer T) → (pop r).1.max_size ≡ r.max_size
  unfolding pop
  max_size-pop r = ground arith
