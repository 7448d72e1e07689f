-- ===== src/Pool.antt =====
-- runtime/utils/generic_ring_allocator.h and runtime/actor/flow_actor_allocator.h: object pools
-- over a ring of free objects. An object is its index in `obj_array_` or `flow_actor_array_`.
pub mod Free
use nfvactor.Prelude.{ℕ, zero, suc, ◌+◌, ◌%◌, ◌^◌, Bool, Option, none, some, List, update}
use nfvactor.RingBuffer
use nfvactor.RingBuffer.{SimpleRingBuffer}

-- The loop of `init`: `n` objects, from index `i` on, are pushed.
unfoldable pub fill : ℕ → ℕ → SimpleRingBuffer ℕ → SimpleRingBuffer ℕ
fill zero i r = r
fill (suc n) i r = fill n (i + 1) (RingBuffer.push i r).1

-- `storage` is what `mem_alloc` gives the ring.
unfoldable pub init : ℕ → List ℕ → SimpleRingBuffer ℕ
unfolding fill RingBuffer.init
init size storage = fill size 0 (RingBuffer.init size storage)

unfoldable pub allocate : SimpleRingBuffer ℕ → Option ℕ × SimpleRingBuffer ℕ
allocate r = RingBuffer.pop r

unfoldable pub deallocate : ℕ → SimpleRingBuffer ℕ → Bool × SimpleRingBuffer ℕ
deallocate obj_ptr r = RingBuffer.push obj_ptr r

abbrev pub invalid_flow_actor_id : ℕ
invalid_flow_actor_id = 0

abbrev pub coordinator_actor_id : ℕ
coordinator_actor_id = 1

abbrev pub flow_actor_id_start : ℕ
flow_actor_id_start = 2

-- `flow_actor_allocator`; `actor_id` holds the `actor_id_` field of each flow actor.
pub record FlowActorAllocator : Type 0 where
  pub max_actors : ℕ
  pub next_flow_actor_id : ℕ
  pub ring_buf : SimpleRingBuffer ℕ
  pub actor_id : ℕ → ℕ

-- The timers and links that `init` also sets belong to the actors and are in `FlowActor`.
unfoldable pub init_actors : ℕ → List ℕ → FlowActorAllocator
unfolding init
init_actors max_actors storage = record {
  max_actors = max_actors;
  next_flow_actor_id = flow_actor_id_start;
  ring_buf = init max_actors storage;
  actor_id = λ _. invalid_flow_actor_id;
}

named_actor : FlowActorAllocator → Option ℕ × SimpleRingBuffer ℕ → Option ℕ × FlowActorAllocator
named_actor s (none, r) = (none, record s { ring_buf = r })
named_actor s (some a, r) = (
  some a,
  record s {
    ring_buf = r;
    actor_id = update s.actor_id a s.next_flow_actor_id;
    next_flow_actor_id = (s.next_flow_actor_id + 1) % 2 ^ 32;
  },
)

unfoldable pub allocate_actor : FlowActorAllocator → Option ℕ × FlowActorAllocator
unfolding named_actor
allocate_actor s = named_actor s (RingBuffer.pop s.ring_buf)

unfoldable pub deallocate_actor : ℕ → FlowActorAllocator → Bool × FlowActorAllocator
deallocate_actor a s =
    let (done, r) = RingBuffer.push a s.ring_buf in
    (done, record s { ring_buf = r; actor_id = update s.actor_id a invalid_flow_actor_id })
