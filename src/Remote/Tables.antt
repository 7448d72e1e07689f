-- ===== src/Remote/Tables.antt =====
-- The tables of runtimes, keyed by the texts of their addresses (`unordered_map` in
-- runtime/rpc/server_impl.h).
use nfvactor.Prelude.{
  ℕ, ◌+◌, >>=-eq-some, some_injective, ◌≡◌, refl, true, false, none, some, [], ◌∷◌, arith,
  if◌then◌else◌, Bool-cases, inl, inr,
}
use nfvactor.Conn.{RuntimeConfig}
use nfvactor.Command.{Control}
use nfvactor.Command.Run.{RpcOperation, run_operation, run_task}
use nfvactor.Remote.{Table, Remote, World, find, has, insert, remove, call_worker}
use nfvactor.Remote.Codes.{Text, same_text, same_text→eq, same_text_refl}

pub find-insert :
    (k j : Text) (c : RuntimeConfig) (m : Table)
    → has k m ≡ false
    → find j (insert k c m) ≡ (if same_text k j then some c else find j m)
unfolding insert find
find-insert k j c m h = rw h refl

pub has-find : (k : Text) (c : RuntimeConfig) (m : Table) → find k m ≡ some c → has k m ≡ true
unfolding has
has-find k c m h = rw (has, h) refl

pub not_has-find : (k : Text) (m : Table) → has k m ≡ false → find k m ≡ none
unfolding has
not_has-find k m h = ground arith

-- What is found after an insertion was there, or is the new key.
pub has-insert :
    (k j : Text) (c : RuntimeConfig) (m : Table)
    → has j (insert k c m) ≡ true
    → (has j m ≡ false)
    → k ≡ j
unfolding insert has find
has-insert k j c m h n = ground (arith, same_text→eq k j)

pub not_has-insert :
    (k j : Text) (c : RuntimeConfig) (m : Table)
    → has j m ≡ false
    → ¬ (k ≡ j)
    → has j (insert k c m) ≡ false
not_has-insert k j c m h n = elim (Bool-cases (has j (insert k c m))) [
  | inl new ↦ absurd (n (has-insert k j c m new h))
  | inr e ↦ e
]

pub has-remove : (k j : Text) (m : Table) → has j m ≡ false → has j (remove k m) ≡ false
unfolding has find remove
has-remove k j [] h = refl
has-remove k j ((i, c) ∷ m) h = ground (arith, has-remove k j m)

-- A key that was not there is gone when it is removed after its insertion.
pub remove-insert :
    (k : Text) (c : RuntimeConfig) (m : Table) → has k m ≡ false → remove k (insert k c m) ≡ m
unfolding insert remove
remove-insert k c m h = rw (h, same_text_refl k) refl

-- What a command that succeeds leaves: the worker's new state, and all else as it was.
pub call_worker-eq :
    (w : World) (op : RpcOperation) (c : RuntimeConfig) (q : ℕ) (r r' : Remote)
    → call_worker w op c q r ≡ some r'
    → (k : Control) × (run_operation op (w.env r.turn) c q (w.other_tasks r.turn r.worker) ≡ some k)
      × (r' ≡ record r { worker = k; turn = r.turn + 1 })
unfolding call_worker run_task
call_worker-eq w op c q r r' h =
    let (k, e, f) =
      >>=-eq-some (run_operation op (w.env r.turn) c q (w.other_tasks r.turn r.worker))
        (λ k. some (record r { worker = k; turn = r.turn + 1 })) h in
    (k, e, some_injective f)

pub call_worker-succeeds :
    (w : World) (op : RpcOperation) (c : RuntimeConfig) (q : ℕ) (r : Remote) (k : Control)
    → run_operation op (w.env r.turn) c q (w.other_tasks r.turn r.worker) ≡ some k
    → call_worker w op c q r ≡ some (record r { worker = k; turn = r.turn + 1 })
unfolding call_worker run_task
call_worker-succeeds w op c q r k h = rw h refl

pub call_worker-fails :
    (w : World) (op : RpcOperation) (c : RuntimeConfig) (q : ℕ) (r : Remote)
    → run_operation op (w.env r.turn) c q (w.other_tasks r.turn r.worker) ≡ none
    → call_worker w op c q r ≡ none
unfolding call_worker run_task
call_worker-fails w op c q r h = rw h refl
