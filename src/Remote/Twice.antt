-- ===== src/Remote/Twice.antt =====
-- The deletion of a migration's source that is asked for twice (runtime/rpc/call_data_impl.h).
use nfvactor.Prelude.{ℕ, ◌+◌, ◌≡◌, ap, ◌∙◌, none, some}
use nfvactor.Prelude.Int.{pos}
use nfvactor.Conn.{RuntimeConfig, ReliableP2p}
use nfvactor.Command.{Control}
use nfvactor.Command.LastUser.{delete_migration_source-last, delete_migration_source-missing}
use nfvactor.Command.Run.{RpcOperation, run_operation}
use nfvactor.Remote.{Address, Remote, World, find, key_of}
use nfvactor.Remote.Handle
use nfvactor.Remote.Handle.{if_found}
use nfvactor.Remote.Tables.{call_worker-succeeds, call_worker-fails}

-- The table of sources keeps a source that is deleted. The connection goes away with it, if it had
-- no other user and the worker's other tasks leave the connections alone, so a second deletion of
-- the source makes the worker follow a null pointer.
pub delete_migration_source-twice :
    (w : World) (r : Remote) (addr : Address) (config : RuntimeConfig) (p : ReliableP2p)
    → find (key_of addr) r.migration_sources ≡ some config
    → ((n : ℕ) (c : Control) → (w.other_tasks n c).reliables ≡ c.reliables)
    → r.worker.reliables config.runtime_id ≡ some p
    → p.ref_cnt ≡ pos 1
    → (r1 : Remote) × (Handle.delete_migration_source w addr r ≡ some r1)
      × (find (key_of addr) r1.migration_sources ≡ some config)
      × (r1.worker.reliables config.runtime_id ≡ none)
      × (Handle.delete_migration_source w addr r1 ≡ none)
unfolding Handle.delete_migration_source if_found run_operation
delete_migration_source-twice w r addr config p found still there single =
    let id = config.runtime_id in
    let seen = w.other_tasks r.turn r.worker in
    let (k, e, gone) =
      delete_migration_source-last config seen p (ap (λ f. f id) (still r.turn r.worker) ∙ there)
        single in
    let r1 = record r { worker = k; turn = r.turn + 1 } in
    let missing =
      delete_migration_source-missing config (w.other_tasks (r.turn + 1) k)
        (ap (λ f. f id) (still (r.turn + 1) k) ∙ gone) in
    (
      r1,
      rw (Handle.delete_migration_source, if_found, found)
          (call_worker-succeeds w RpcOperation.delete_migration_source config 0 r k e),
      found,
      gone,
      rw (Handle.delete_migration_source, if_found, found)
          (call_worker-fails w RpcOperation.delete_migration_source config 0 r1 missing),
    )
