-- ===== src/RingBuffer/Run.antt =====
-- Any sequence of calls on a ring of pointers.
use nfvactor.Prelude.{ℕ, ◌≡◌, refl, List, [], ◌∷◌}
use nfvactor.RingBuffer.{SimpleRingBuffer, push, pop}
use nfvactor.RingBuffer.Queue.{Call, put, get, Reply, stored, taken, enqueue, dequeue}
use nfvactor.RingBuffer.Refine.{IsHolding, push_refines, pop_refines, max_size-push, max_size-pop}

module _ {ℓ} {T : Type ℓ} where
  -- What the calls return, on the ring and on the bounded queue.
  pub run : SimpleRingBuffer T → List (Call T) → List (Reply T)
  run r [] = []
  run r (put x ∷ cs) = let (b, r') = push x r in stored b ∷ run r' cs
  run r (get ∷ cs) = let (o, r') = pop r in taken o ∷ run r' cs

  pub run_queue : ℕ → List T → List (Call T) → List (Reply T)
  run_queue cap q [] = []
  run_queue cap q (put x ∷ cs) = let (b, q') = enqueue cap x q in stored b ∷ run_queue cap q' cs
  run_queue cap q (get ∷ cs) = let (o, q') = dequeue q in taken o ∷ run_queue cap q' cs

  -- No sequence of calls tells a ring from the bounded queue of what it holds.
  pub run_refines :
      (cs : List (Call T)) (r : SimpleRingBuffer T) (q : List T)
      → IsHolding r q
      → run r cs ≡ run_queue r.max_size q cs
  unfolding run run_queue
  run_refines [] r q v = refl
  run_refines (put x ∷ cs) r q v =
      let (answer, held) = push_refines r q x v in
      rw (run_refines cs (push x r).1 (enqueue r.max_size x q).1 held, answer, max_size-push r x)
  run_refines (get ∷ cs) r q v =
      let (answer, held) = pop_refines r q v in
      rw (run_refines cs (pop r).1 (dequeue q).1 held, answer, max_size-pop r)
