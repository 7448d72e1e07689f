-- ===== src/Remote/Thread/Answered.antt =====
-- The thread gets its item back, and the worker has run the command (runtime/rpc/call_data_impl.h).
use nfvactor.Prelude.{
  ℕ, zero, suc, ◌+◌, ◌-◌, ◌<◌, ◌≡◌, refl, sym, ap, ◌∙◌, true, false, none, some, arith,
}
use mathlib.Core.Path.{subst}
use nfvactor.Command.{Control}
use nfvactor.Command.Run.{LlringItem, run_task}
use nfvactor.Remote.Thread.{
  Llring, Rings, Schedule, command_turn, work, attempt, poll_slowly, poll_fast,
  poll_worker2rpc_ring, exchange,
}

-- The worker's state after its other tasks of `n` attempts from the `t`th on.
unfoldable pub after : Schedule → ℕ → ℕ → Control → Control
after sched t zero c = c
after sched t (suc n) c = after sched (t + 1) n (sched.other t c)

module _ (ring : Llring LlringItem) where
  open ring use {empty, enqueue, dequeue-empty, dequeue-enqueue}

  -- The item waits for the worker, or the worker is through with it.
  abbrev waiting : LlringItem → Control → Rings ring
  waiting item c = record { rpc2worker = enqueue item empty; worker2rpc = empty; control = c }

  abbrev pub idle : Control → Rings ring
  idle c = record { rpc2worker = empty; worker2rpc = empty; control = c }

  attempt-early :
      (sched : Schedule) (t : ℕ) (item : LlringItem) (c : Control)
      → sched.turns t ≡ false
      → attempt ring sched t (waiting item c) ≡ some (none, waiting item (sched.other t c))
  unfolding attempt work
  attempt-early sched t item c h = rw (h, dequeue-empty) refl

  attempt-answered :
      (sched : Schedule) (t : ℕ) (item : LlringItem) (c k : Control)
      → sched.turns t ≡ true
      → run_task (sched.env t) item (sched.other t c) ≡ some k
      → attempt ring sched t (waiting item c) ≡ some (some item, idle k)
  unfolding attempt work command_turn
  attempt-answered sched t item c k h e =
      rw (h, command_turn, dequeue-enqueue item, e, dequeue-enqueue item) refl

  -- From attempt `t` on, the command task has its first turn `n` attempts later, and the command
  -- leaves `k`.
  record Turn (sched : Schedule) (t n : ℕ) (item : LlringItem) (c k : Control) : Type 0 where
    early : (m : ℕ) → m < n → sched.turns (t + m) ≡ false
    due : sched.turns (t + n) ≡ true
    runs : run_task (sched.env (t + n)) item (after sched t (suc n) c) ≡ some k

  Turn-next :
      (sched : Schedule) (t n : ℕ) (item : LlringItem) (c k : Control)
      → Turn sched t (suc n) item c k
      → Turn sched (t + 1) n item (sched.other t c) k
  unfolding after
  Turn-next sched t n item c k d =
      let shift = λ (m : ℕ). let e : t + 1 + m ≡ t + suc m = omega arith in e in
      record {
        early = λ m h. ap sched.turns (shift m) ∙ d.early (suc m) (omega arith);
        due = ap sched.turns (shift n) ∙ d.due;
        runs = rw (shift n) d.runs;
      }

  Turn-first :
      (sched : Schedule) (t n : ℕ) (item : LlringItem) (c k : Control)
      → Turn sched t (suc n) item c k
      → attempt ring sched t (waiting item c) ≡ some (none, waiting item (sched.other t c))
  Turn-first sched t n item c k d =
      attempt-early sched t item c (ap sched.turns (omega arith) ∙ d.early 0 (omega arith))

  Turn-last :
      (sched : Schedule) (t : ℕ) (item : LlringItem) (c k : Control)
      → Turn sched t 0 item c k
      → attempt ring sched t (waiting item c) ≡ some (some item, idle k)
  unfolding after
  Turn-last sched t item c k d =
      let zeroth : t ≡ t + 0 = omega arith in
      attempt-answered sched t item c k (ap sched.turns zeroth ∙ d.due)
        (subst (λ i. run_task (sched.env i) item (sched.other t c) ≡ some k) (sym zeroth) d.runs)

  slowly :
      (n fuel t slept : ℕ) (sched : Schedule) (item : LlringItem) (c k : Control)
      → n < fuel
      → Turn sched t n item c k
      → poll_slowly ring fuel sched t slept (waiting item c) ≡ some (item, slept + n, idle k)
  unfolding poll_slowly
  slowly n zero t slept sched item c k h d = absurd (omega arith)
  slowly zero (suc fuel) t slept sched item c k h d =
      let e : slept ≡ slept + 0 = omega arith in
      rw (Turn-last sched t item c k d) (ap (λ s. some (item, s, idle k)) e)
  slowly (suc n) (suc fuel) t slept sched item c k h d =
      let e : slept + 1 + n ≡ slept + suc n = omega arith in
      rw (Turn-first sched t n item c k d) (
        slowly n fuel (t + 1) (slept + 1) sched item (sched.other t c) k (omega arith)
          (Turn-next sched t n item c k d)
        ∙ ap (λ s. some (item, s, idle k)) e)

  fast :
      (n fast fuel t : ℕ) (sched : Schedule) (item : LlringItem) (c k : Control)
      → n < fast + fuel
      → Turn sched t n item c k
      → poll_fast ring fuel fast sched t (waiting item c) ≡ some (item, n - fast, idle k)
  unfolding poll_fast
  fast n zero fuel t sched item c k h d =
      slowly n fuel t 0 sched item c k (omega arith) d
      ∙ ap (λ s. some (item, s, idle k)) (omega arith)
  fast zero (suc q) fuel t sched item c k h d =
      rw (Turn-last sched t item c k d) (ap (λ s. some (item, s, idle k)) (omega arith))
  fast (suc n) (suc q) fuel t sched item c k h d = rw (Turn-first sched t n item c k d) (
      fast n q fuel (t + 1) sched item (sched.other t c) k (omega arith)
        (Turn-next sched t n item c k d)
      ∙ ap (λ s. some (item, s, idle k)) (omega arith))

  -- A command that is put on empty rings is answered, if the worker's command task has a turn and
  -- the command does not fail then: the thread gets its own item back, after as many sleeps as it
  -- made attempts beyond the first fifty, the rings are empty again, and the worker has run the
  -- command once on the state that its other tasks had left.
  pub exchange-answered :
      (n fuel : ℕ) (sched : Schedule) (item : LlringItem) (c k : Control)
      → n < 50 + fuel
      → ((m : ℕ) → m < n → sched.turns m ≡ false)
      → sched.turns n ≡ true
      → run_task (sched.env n) item (after sched 0 (suc n) c) ≡ some k
      → exchange ring fuel sched item c ≡ some (item, n - 50, idle k)
  unfolding exchange poll_worker2rpc_ring
  exchange-answered n fuel sched item c k h early due runs =
      let zero_add = λ (m : ℕ). let e : 0 + m ≡ m = omega arith in e in
      fast n 50 fuel 0 sched item c k h (record {
        early = λ m p. ap sched.turns (zero_add m) ∙ early m p;
        due = ap sched.turns (zero_add n) ∙ due;
        runs = rw (zero_add n) runs;
      })
