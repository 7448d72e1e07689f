-- ===== src/RingBuffer/Queue.antt =====
-- What a ring of pointers promises: a first-in first-out queue of at most `cap` entries.
use nfvactor.Prelude.{
  ℕ, Bool, true, false, Option, none, some, List, [], ◌∷◌, ◌++◌, ◌==◌, if◌then◌else◌, length,
}

module _ {ℓ} {T : Type ℓ} where
  unfoldable pub enqueue : ℕ → T → List T → Bool × List T
  enqueue cap x q = if length q == cap then (false, q) else (true, q ++ x ∷ [])

  unfoldable pub dequeue : List T → Option T × List T
  dequeue [] = (none, [])
  dequeue (x ∷ q) = (some x, q)

-- A client's calls.
pub data Call {ℓ} (T : Type ℓ) : Type ℓ where
  put : T → Call T
  get : Call T

pub data Reply {ℓ} (T : Type ℓ) : Type ℓ where
  stored : Bool → Reply T
  taken : Option T → Reply T
