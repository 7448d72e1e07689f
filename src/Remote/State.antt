-- ===== src/Remote/State.antt =====
-- GetRuntimeState of runtime/rpc/call_data_impl.h, the statistics of runtime/rpc/ring_msg.h that it
-- asks the worker for.
use nfvactor.Prelude.{ℕ, Option, some, List, [], ◌∷◌, ◌>>=◌, replicate, length}
use nfvactor.Command.Run.{RpcOperation}
use nfvactor.Remote.{Table, Remote, World, call_worker}
use nfvactor.Remote.Config.{ConfigMsg, local2protobuf}

pub record StorageStat : Type 0 where
  pub replication_source_runtime_id : ℕ
  pub num_of_flow_replicas : ℕ
  pub total_replay_time : ℕ

pub record RuntimeStat : Type 0 where
  pub input_port_incoming_pkts : ℕ
  pub input_port_outgoing_pkts : ℕ
  pub input_port_dropped_pkts : ℕ
  pub output_port_incoming_pkts : ℕ
  pub output_port_outgoing_pkts : ℕ
  pub output_port_dropped_pkts : ℕ
  pub control_port_incoming_pkts : ℕ
  pub control_port_outgoing_pkts : ℕ
  pub control_port_dropped_pkts : ℕ
  pub active_flows : ℕ
  pub inactive_flows : ℕ
  pub migration_index : ℕ
  pub migration_target_runtime_id : ℕ
  pub migration_qouta : ℕ
  pub average_flow_migration_completion_time : ℕ
  pub toal_flow_migration_completion_time : ℕ
  pub successful_migration : ℕ
  pub array : List StorageStat

abbrev no_storage_stat : StorageStat
no_storage_stat = record {
  replication_source_runtime_id = 0;
  num_of_flow_replicas = 0;
  total_replay_time = 0;
}

-- The constructor of `runtime_stat`; `mem_alloc` gives zeros.
unfoldable pub runtime_stat : ℕ → RuntimeStat
runtime_stat size = record {
  input_port_incoming_pkts = 0;
  input_port_outgoing_pkts = 0;
  input_port_dropped_pkts = 0;
  output_port_incoming_pkts = 0;
  output_port_outgoing_pkts = 0;
  output_port_dropped_pkts = 0;
  control_port_incoming_pkts = 0;
  control_port_outgoing_pkts = 0;
  control_port_dropped_pkts = 0;
  active_flows = 0;
  inactive_flows = 0;
  migration_index = 0;
  migration_target_runtime_id = 0;
  migration_qouta = 0;
  average_flow_migration_completion_time = 0;
  toal_flow_migration_completion_time = 0;
  successful_migration = 0;
  array = replicate size no_storage_stat;
}

-- `message GetRuntimeStateRep`
pub record RuntimeState : Type 0 where
  pub stat : RuntimeStat
  pub input_runtimes : List ConfigMsg
  pub output_runtimes : List ConfigMsg
  pub replicas : List ConfigMsg
  pub storages : List ConfigMsg
  pub local_runtime : ConfigMsg

unfoldable pub configs_of : Table → Option (List ConfigMsg)
configs_of [] = some []
configs_of ((k, c) ∷ m) = do msg ← local2protobuf c; rest ← configs_of m; some (msg ∷ rest)

-- The reply, from the item's statistics and the tables.
unfoldable pub state_reply : RuntimeStat → Remote → Option RuntimeState
state_reply stat r = do
  input_runtimes ← configs_of r.input_runtimes
  output_runtimes ← configs_of r.output_runtimes
  replicas ← configs_of r.replicas
  storages ← configs_of r.storages
  local_runtime ← local2protobuf r.local_runtime
  some (record {
    stat = stat;
    input_runtimes = input_runtimes;
    output_runtimes = output_runtimes;
    replicas = replicas;
    storages = storages;
    local_runtime = local_runtime;
  })

-- The worker's command for the statistics does nothing, so the item comes back with them as its
-- constructor has set them.
unfoldable pub get_runtime_state : World → Remote → Option (Remote × RuntimeState)
get_runtime_state w r = do
  let stat = runtime_stat (length r.storages)
  r' ← call_worker w RpcOperation.get_stats r.local_runtime 0 r
  s ← state_reply stat r'
  some (r', s)
