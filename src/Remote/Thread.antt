-- ===== src/Remote/Thread.antt =====
-- The exchange between the thread of runtime/rpc/call_data_impl.h and the worker: an item on the one
-- ring, `poll_worker2rpc_ring` on the other, and `RunTask` of runtime/module/handle_command.cc at
-- the worker. The rings are `llring`'s, a parameter.
pub mod Answered
use nfvactor.Prelude.{ℕ, zero, suc, ◌+◌, ◌≡◌, Bool, Option, none, some, ◌>>=◌, if◌then◌else◌}
use nfvactor.Command.{Control, Env}
use nfvactor.Command.Run.{LlringItem, run_task}

-- What the code relies on of a ring: an item that is put on an empty one is the next to come.
pub record Llring (A : Type 0) : Type 1 where
  pub Ring : Type 0
  pub empty : Ring
  pub enqueue : A → Ring → Ring
  pub dequeue : Ring → Option (A × Ring)
  pub dequeue-empty : dequeue empty ≡ none
  pub dequeue-enqueue : (x : A) → dequeue (enqueue x empty) ≡ some (x, empty)

-- The two rings and the worker's state.
pub record Rings (ring : Llring LlringItem) : Type 0 where
  pub rpc2worker : ring.Ring
  pub worker2rpc : ring.Ring
  pub control : Control

-- What the worker does by the time of each attempt to take the answer: its other tasks, then, if
-- it is the command task's turn, that one, which finds an environment.
pub record Schedule : Type 0 where
  pub other : ℕ → Control → Control
  pub turns : ℕ → Bool
  pub env : ℕ → Env

module _ (ring : Llring LlringItem) where
  open ring use {Ring, empty, enqueue, dequeue}

  -- `handle_command::RunTask`
  unfoldable pub command_turn : Env → Rings ring → Option (Rings ring)
  command_turn env s = elim (dequeue s.rpc2worker) [
    | none ↦ some s
    | some (item, q) ↦ run_task env item s.control >>= (λ c.
        some (record { rpc2worker = q; worker2rpc = enqueue item s.worker2rpc; control = c }))
  ]

  unfoldable pub work : Schedule → ℕ → Rings ring → Option (Rings ring)
  work sched t s =
      let s' = record s { control = sched.other t s.control } in
      if sched.turns t then command_turn (sched.env t) s' else some s'

  -- One `llring_sc_dequeue` by the thread.
  unfoldable pub attempt : Schedule → ℕ → Rings ring → Option (Option LlringItem × Rings ring)
  attempt sched t s = do
    s' ← work sched t s
    elim (dequeue s'.worker2rpc) [
      | none ↦ some (none, s')
      | some (item, q) ↦ some (some item, record s' { worker2rpc = q })
    ]

  -- The endless loop, which sleeps for a millisecond after an attempt that fails; `n` counts the
  -- sleeps.
  unfoldable pub poll_slowly :
      ℕ → Schedule → ℕ → ℕ → Rings ring → Option (LlringItem × ℕ × Rings ring)
  poll_slowly zero sched t n s = none
  poll_slowly (suc fuel) sched t n s = attempt sched t s >>= (λ p. elim p.0 [
    | some item ↦ some (item, n, p.1)
    | none ↦ poll_slowly fuel sched (t + 1) (n + 1) p.1
  ])

  -- The loop of `k` attempts without a sleep, with the endless one behind it.
  unfoldable pub poll_fast :
      ℕ → ℕ → Schedule → ℕ → Rings ring → Option (LlringItem × ℕ × Rings ring)
  poll_fast fuel zero sched t s = poll_slowly fuel sched t 0 s
  poll_fast fuel (suc k) sched t s = attempt sched t s >>= (λ p. elim p.0 [
    | some item ↦ some (item, 0, p.1)
    | none ↦ poll_fast fuel k sched (t + 1) p.1
  ])

  unfoldable pub poll_worker2rpc_ring :
      ℕ → Schedule → Rings ring → Option (LlringItem × ℕ × Rings ring)
  poll_worker2rpc_ring fuel sched s = poll_fast fuel 50 sched 0 s

  -- `llring_sp_enqueue` and the poll behind it, from rings that are empty.
  unfoldable pub exchange :
      ℕ → Schedule → LlringItem → Control → Option (LlringItem × ℕ × Rings ring)
  exchange fuel sched item c =
      poll_worker2rpc_ring fuel sched
        (record { rpc2worker = enqueue item empty; worker2rpc = empty; control = c })
