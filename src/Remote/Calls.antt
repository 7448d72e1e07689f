-- ===== src/Remote/Calls.antt =====
-- The calls of the service `Runtime_RPC` (bessport/nfa_msg.proto), each with its handler in
-- runtime/rpc/call_data_impl.h.
use nfvactor.Prelude.{ℕ, Option, some, List, [], ◌∷◌, ◌>>=◌}
use nfvactor.Conn.{RuntimeConfig}
use nfvactor.Command.{Control}
use nfvactor.Remote.{Address, Remote, World, NegotiateReq}
use nfvactor.Remote.Config.{ConfigMsg}
use nfvactor.Remote.Handle
use nfvactor.Remote.State
use nfvactor.Remote.State.{RuntimeState}

-- The requests of the service `Runtime_RPC`.
pub data Request : Type 0 where
  liveness_check : Request
  add_output_rts : List Address → Request
  add_input_rt : ConfigMsg → Request
  delete_output_rt : Address → Request
  delete_input_rt : Address → Request
  add_output_mac : Address → Request
  add_input_mac : Address → Request
  delete_input_mac : Address → Request
  delete_output_mac : Address → Request
  migrate_to : Address → ℕ → Request
  set_migration_target : List Address → Request
  migration_negotiate : NegotiateReq → Request
  delete_migration_target : Address → Request
  delete_migration_source : Address → Request
  add_replicas : List Address → Request
  replica_negotiate : NegotiateReq → Request
  delete_replica : Address → Request
  delete_storage : Address → Request
  recover : Address → Request
  get_runtime_state : Request

pub data Reply : Type 0 where
  empty : Reply
  config : Option ConfigMsg → Reply
  state : RuntimeState → Reply

abbrev pub done : Option Remote → Option (Remote × Reply)
done o = o >>= (λ r. some (r, Reply.empty))

abbrev pub told : Option (Remote × Option ConfigMsg) → Option (Remote × Reply)
told o = o >>= (λ p. some (p.0, Reply.config p.1))

-- A call object with its request: what `Proceed` does with it.
unfoldable pub handle : World → Request → Remote → Option (Remote × Reply)
handle w Request.liveness_check r = some (r, Reply.empty)
handle w (Request.add_output_rts l) r = done (Handle.add_output_rts w l r)
handle w (Request.add_input_rt c) r = told (Handle.add_input_rt w c r)
handle w (Request.delete_output_rt a) r = done (Handle.delete_output_rt w a r)
handle w (Request.delete_input_rt a) r = done (Handle.delete_input_rt w a r)
handle w (Request.add_output_mac a) r = done (Handle.add_output_mac w a r)
handle w (Request.add_input_mac a) r = done (Handle.add_input_mac w a r)
handle w (Request.delete_input_mac a) r = done (Handle.delete_input_mac w a r)
handle w (Request.delete_output_mac a) r = done (Handle.delete_output_mac w a r)
handle w (Request.migrate_to a q) r = done (Handle.migrate_to w a q r)
handle w (Request.set_migration_target l) r = done (Handle.set_migration_target w l r)
handle w (Request.migration_negotiate q) r = told (Handle.migration_negotiate w q r)
handle w (Request.delete_migration_target a) r = done (Handle.delete_migration_target w a r)
handle w (Request.delete_migration_source a) r = done (Handle.delete_migration_source w a r)
handle w (Request.add_replicas l) r = done (Handle.add_replicas w l r)
handle w (Request.replica_negotiate q) r = told (Handle.replica_negotiate w q r)
handle w (Request.delete_replica a) r = done (Handle.delete_replica w a r)
handle w (Request.delete_storage a) r = done (Handle.delete_storage w a r)
handle w (Request.recover a) r = done (Handle.recover w a r)
handle w Request.get_runtime_state r =
    State.get_runtime_state w r >>= (λ p. some (p.0, Reply.state p.1))

-- The calls one after the other; the thread takes up the next when it is through with the last.
unfoldable pub serve : World → List Request → Remote → Option Remote
serve w [] r = some r
serve w (q ∷ l) r = handle w q r >>= (λ p. serve w l p.0)

-- `ServerImpl`, with the configuration of the flags.
unfoldable pub started : RuntimeConfig → Control → Remote
started local_runtime worker = record {
  input_runtimes = [];
  output_runtimes = [];
  replicas = [];
  storages = [];
  migration_targets = [];
  migration_sources = [];
  local_runtime = local_runtime;
  turn = 0;
  worker = worker;
}
