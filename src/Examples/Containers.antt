-- ===== src/Examples/Containers.antt =====
-- The lists, rings and pools of runtime/utils and runtime/bessport/utils at concrete states.
use nfvactor.Prelude.{ℕ, ◌+◌, ◌≡◌, refl, true, some, List, [], ◌∷◌, arith}
use nfvactor.Cdlist.{Links, cdlist_head_init, cdlist_add_tail, cdlist_count}
use nfvactor.Cdlist.Ring.{NotIn, Walk, IsRing, head_init-IsRing}
use nfvactor.Cdlist.Insert.{add_tail-IsRing}
use nfvactor.Cdlist.Rehook.{All, add_tail_again-Walk}
use nfvactor.RingBuffer
use nfvactor.RingBuffer.{SimpleRingBuffer}
use nfvactor.RingBuffer.Queue.{Call, put, get}
use nfvactor.RingBuffer.Refine.{init-IsHolding}
use nfvactor.RingBuffer.Run.{run, run_queue, run_refines}
use nfvactor.Pool
use nfvactor.Pool.Free.{IsPool, init-IsPool, allocate-IsPool, deallocate-IsPool}

abbrev zeros : Links
zeros = record { next = λ i. 0; prev = λ i. 0 }

-- Lists at the head 9 that hold 1, and 1 and 2.
abbrev one_node : Links
one_node = cdlist_add_tail 9 1 (cdlist_head_init 9 zeros)

one_node-IsRing : IsRing one_node 9 (1 ∷ [])
one_node-IsRing =
    add_tail-IsRing (cdlist_head_init 9 zeros) 9 1 [] (head_init-IsRing zeros 9) (omega arith, tt)

two_nodes-IsRing : IsRing (cdlist_add_tail 9 2 one_node) 9 (1 ∷ 2 ∷ [])
two_nodes-IsRing =
    add_tail-IsRing one_node 9 2 (1 ∷ []) one_node-IsRing (omega arith, (omega arith, tt))

add_tail_again-Walk_example :
    Walk (cdlist_add_tail 9 1 (cdlist_add_tail 9 2 one_node)) 9 (1 ∷ []) 9
    × All (λ y. NotIn y (1 ∷ [])) (2 ∷ [])
    × (cdlist_count 5 9 (cdlist_add_tail 9 1 (cdlist_add_tail 9 2 one_node)) ≡ some (0 + 1))
add_tail_again-Walk_example =
    add_tail_again-Walk (cdlist_add_tail 9 2 one_node) 9 1 5 [] (2 ∷ []) two_nodes-IsRing
      (omega arith)

abbrev small_ring : SimpleRingBuffer ℕ
small_ring = RingBuffer.init 2 (0 ∷ 0 ∷ [])

abbrev calls : List (Call ℕ)
calls = put 5 ∷ get ∷ get ∷ []

run_refines_example : run small_ring calls ≡ run_queue small_ring.max_size [] calls
run_refines_example =
    run_refines calls small_ring [] (init-IsHolding 2 (0 ∷ 0 ∷ []) refl (omega arith))

taken-IsPool : IsPool 1 (Pool.allocate (Pool.init 1 (0 ∷ []))).1 [] (0 ∷ [])
taken-IsPool =
    ((allocate-IsPool 1 (Pool.init 1 (0 ∷ [])) []).1 0 []
      (init-IsPool 1 (0 ∷ []) refl (omega arith))).1

deallocate-IsPool_example :
    ((Pool.deallocate 0 (Pool.allocate (Pool.init 1 (0 ∷ []))).1).0 ≡ true)
    × IsPool 1 (Pool.deallocate 0 (Pool.allocate (Pool.init 1 (0 ∷ []))).1).1 (0 ∷ []) []
deallocate-IsPool_example =
    deallocate-IsPool 1 0 (Pool.allocate (Pool.init 1 (0 ∷ []))).1 [] [] [] taken-IsPool
