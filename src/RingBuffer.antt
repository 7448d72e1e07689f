-- ===== src/RingBuffer.antt =====
-- runtime/bessport/utils/simple_ring_buffer.h: the single-threaded ring of pointers under the flow
-- actor pool, the network functions' state pools and the generic allocators.
pub mod Queue
pub mod Refine
pub mod Run
use nfvactor.Prelude.{
  ℕ, ◌+◌, ◌-◌, ◌%◌, ◌^◌, Bool, true, false, Option, none, some, List, ◌==◌, if◌then◌else◌,
  get_elem?, set,
}

-- A slot holds whatever pointer type `T*` is; `mem_alloc` gives the storage.
pub record SimpleRingBuffer {ℓ} (T : Type ℓ) : Type ℓ where
  pub head_pos : ℕ
  pub tail_pos : ℕ
  pub cur_size : ℕ
  pub max_size : ℕ
  pub ring_buf : List T

-- `size_t` addition
abbrev pub add_size : ℕ → ℕ → ℕ
add_size a b = (a + b) % 2 ^ 64

module _ {ℓ} {T : Type ℓ} where
  unfoldable pub init : ℕ → List T → SimpleRingBuffer T
  init max_size storage = record {
    head_pos = 0;
    tail_pos = 0;
    cur_size = 0;
    max_size = max_size;
    ring_buf = storage;
  }

  unfoldable pub get_cur_size : SimpleRingBuffer T → ℕ
  get_cur_size r = r.cur_size

  -- `none` is the null pointer (and a read out of the storage, which `IsHolding` rules out).
  unfoldable pub pop : SimpleRingBuffer T → Option T × SimpleRingBuffer T
  pop r = if r.cur_size == 0 then (none, r) else (
    get_elem? r.ring_buf r.head_pos,
    record r { head_pos = add_size r.head_pos 1 % r.max_size; cur_size = r.cur_size - 1 },
  )

  unfoldable pub push : T → SimpleRingBuffer T → Bool × SimpleRingBuffer T
  push obj_ptr r = if r.cur_size == r.max_size then (false, r) else (
    true,
    record r {
      ring_buf = set r.ring_buf r.tail_pos obj_ptr;
      tail_pos = add_size r.tail_pos 1 % r.max_size;
      cur_size = add_size r.cur_size 1;
    },
  )
