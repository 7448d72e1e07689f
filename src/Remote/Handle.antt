-- ===== src/Remote/Handle.antt =====
-- The handlers of runtime/rpc/call_data_impl.h: `Proceed` of each kind of call, in status PROCESS.
use nfvactor.Prelude.{
  ℕ, Bool, true, ◌&&◌, ◌||◌, not, ◌==◌, Option, none, some, List, [], ◌∷◌, ◌>>=◌, if◌then◌else◌,
  map, length,
}
use nfvactor.Conn.{RuntimeConfig}
use nfvactor.Command.Run.{RpcOperation}
use nfvactor.Remote.{
  Address, Table, Remote, World, NegotiateReq, concat_with_colon, key_of, find, has, insert, remove,
  call_worker, asked, local_addr, answered,
}
use nfvactor.Remote.Codes.{Text, same_text}
use nfvactor.Remote.Config.{
  ConfigMsg, convert_uint32t_ip, protobuf2local, local2protobuf, same_config,
}

-- The tests of AddOutputRts.
unfoldable pub skips_output : Text → Remote → Bool
skips_output dest r =
    has dest r.output_runtimes
    || has dest r.input_runtimes
    || same_text dest (local_addr r)
    || has dest r.replicas
    || has dest r.storages
    || has dest r.migration_targets
    || has dest r.migration_sources

unfoldable pub connect_output : World → Text → Option ConfigMsg → Remote → Option Remote
connect_output w dest none r = some r
connect_output w dest (some rep) r = do
  output_runtime ← protobuf2local rep
  call_worker w RpcOperation.add_output_runtime output_runtime 0
      (record r { output_runtimes = insert dest output_runtime r.output_runtimes })

unfoldable pub add_output_rt : World → ConfigMsg → Address → Remote → Option Remote
add_output_rt w me addr r =
    let dest = key_of addr in
    if skips_output dest r
    then some r
    else connect_output w dest (answered (w.add_input_rt r.turn dest me)) (asked r)

-- The loop over the addresses of a request.
unfoldable pub each : (Address → Remote → Option Remote) → List Address → Remote → Option Remote
each step [] r = some r
each step (a ∷ l) r = step a r >>= each step l

unfoldable pub add_output_rts : World → List Address → Remote → Option Remote
add_output_rts w addrs r = do me ← local2protobuf r.local_runtime; each (add_output_rt w me) addrs r

-- A command for a runtime that the tables have now, and the own configuration as the reply.
unfoldable pub command_and_reply :
    World → RpcOperation → RuntimeConfig → Remote → Option (Remote × Option ConfigMsg)
command_and_reply w op config r = do
  r' ← call_worker w op config 0 r
  me ← local2protobuf r'.local_runtime
  some (r', some me)

-- The test of AddInputRt.
unfoldable pub takes_input : Text → RuntimeConfig → Remote → Bool
takes_input addr input_runtime r =
    not (same_config input_runtime r.local_runtime)
    && not (has addr r.input_runtimes)
    && not (has addr r.output_runtimes)

unfoldable pub add_input_rt : World → ConfigMsg → Remote → Option (Remote × Option ConfigMsg)
add_input_rt w req r = do
  input_runtime ← protobuf2local req
  let addr = concat_with_colon req.rpc_ip req.rpc_port
  let r' = record r { input_runtimes = insert addr input_runtime r.input_runtimes }
  if takes_input addr input_runtime r
      then command_and_reply w RpcOperation.add_input_runtime input_runtime r'
      else some (r, none)

unfoldable pub delete_output_rt : World → Address → Remote → Option Remote
delete_output_rt w addr r = elim (find (key_of addr) r.output_runtimes) [
  | none ↦ some r
  | some config ↦
      call_worker w RpcOperation.delete_output_runtime config 0
        (record r { output_runtimes = remove (key_of addr) r.output_runtimes })
]

unfoldable pub delete_input_rt : World → Address → Remote → Option Remote
delete_input_rt w addr r = elim (find (key_of addr) r.input_runtimes) [
  | none ↦ some r
  | some config ↦
      call_worker w RpcOperation.delete_input_runtime config 0
        (record r { input_runtimes = remove (key_of addr) r.input_runtimes })
]

-- A command for a runtime that is in the table, and else nothing.
unfoldable pub if_found : World → RpcOperation → ℕ → Text → Table → Remote → Option Remote
if_found w op qouta k m r = elim (find k m) [
  | none ↦ some r
  | some config ↦ call_worker w op config qouta r
]

unfoldable pub add_input_mac : World → Address → Remote → Option Remote
add_input_mac w addr r = if_found w RpcOperation.add_input_mac 0 (key_of addr) r.input_runtimes r

unfoldable pub add_output_mac : World → Address → Remote → Option Remote
add_output_mac w addr r = if_found w RpcOperation.add_output_mac 0 (key_of addr) r.output_runtimes r

unfoldable pub delete_input_mac : World → Address → Remote → Option Remote
delete_input_mac w addr r =
    if_found w RpcOperation.delete_input_mac 0 (key_of addr) r.input_runtimes r

unfoldable pub delete_output_mac : World → Address → Remote → Option Remote
delete_output_mac w addr r =
    if_found w RpcOperation.delete_output_mac 0 (key_of addr) r.output_runtimes r

unfoldable pub migrate_to : World → Address → ℕ → Remote → Option Remote
migrate_to w addr quota r =
    if_found w RpcOperation.migrate_to quota (key_of addr) r.migration_targets r

-- The addresses of the runtimes in a table.
unfoldable pub addrs_of : Table → List Address
addrs_of m =
    map (λ e. record { rpc_ip = convert_uint32t_ip (e.1).rpc_ip; rpc_port = (e.1).rpc_port }) m

-- The tests of SetMigrationTarget.
unfoldable pub skips_target : Text → Remote → Bool
skips_target dest r =
    same_text dest (local_addr r)
    || has dest r.migration_targets
    || has dest r.replicas
    || has dest r.storages
    || has dest r.input_runtimes
    || has dest r.output_runtimes

abbrev pub negotiate_req : ConfigMsg → Remote → NegotiateReq
negotiate_req me r = record {
  source = me;
  input_runtime_addrs = addrs_of r.input_runtimes;
  output_runtime_addrs = addrs_of r.output_runtimes;
}

unfoldable pub connect_target : World → Text → Option ConfigMsg → Remote → Option Remote
connect_target w dest none r = some r
connect_target w dest (some rep) r = do
  target ← protobuf2local rep
  call_worker w RpcOperation.set_migration_target target 0
      (record r { migration_targets = insert dest target r.migration_targets })

-- An address that is skipped ends the call.
unfoldable pub set_migration_target : World → List Address → Remote → Option Remote
set_migration_target w [] r = some r
set_migration_target w (addr ∷ l) r =
    let dest = key_of addr in
    let rest = (do
      me ← local2protobuf r.local_runtime
      r' ←
          connect_target w dest (answered (w.migration_negotiate r.turn dest (negotiate_req me r)))
            (asked r)
      set_migration_target w l r') in
    if skips_target dest r then some r else rest

-- The loops that look for each address of the request in a table.
unfoldable pub all_found : List Address → Table → Bool
all_found [] m = true
all_found (a ∷ l) m = has (key_of a) m && all_found l m

-- The other side has the same input and output runtimes.
unfoldable pub same_neighbours : NegotiateReq → Remote → Bool
unfolding all_found
same_neighbours req r =
    length r.input_runtimes == length req.input_runtime_addrs
    && length r.output_runtimes == length req.output_runtime_addrs
    && all_found req.input_runtime_addrs r.input_runtimes
    && all_found req.output_runtime_addrs r.output_runtimes

unfoldable pub accept_source : World → ConfigMsg → Remote → Option (Remote × Option ConfigMsg)
accept_source w source r = do
  config ← protobuf2local source
  let addr = concat_with_colon source.rpc_ip source.rpc_port
  let r' = record r { migration_sources = insert addr config r.migration_sources }
  if has addr r.migration_sources
      then some (r, none)
      else command_and_reply w RpcOperation.migration_negotiate config r'

unfoldable pub migration_negotiate :
    World → NegotiateReq → Remote → Option (Remote × Option ConfigMsg)
migration_negotiate w req r =
    if same_neighbours req r then accept_source w req.source r else some (r, none)

-- The tables of targets and of sources keep the runtime.
unfoldable pub delete_migration_target : World → Address → Remote → Option Remote
delete_migration_target w addr r =
    if_found w RpcOperation.delete_migration_target 0 (key_of addr) r.migration_targets r

unfoldable pub delete_migration_source : World → Address → Remote → Option Remote
delete_migration_source w addr r =
    if_found w RpcOperation.delete_migration_source 0 (key_of addr) r.migration_sources r

-- The tests of AddReplicas.
unfoldable pub skips_replica : Text → Remote → Bool
skips_replica dest r =
    has dest r.replicas
    || same_text dest (local_addr r)
    || has dest r.migration_targets
    || has dest r.migration_sources
    || has dest r.input_runtimes
    || has dest r.output_runtimes

-- The key is made of the answer, not of the address that was called.
unfoldable pub connect_replica : World → Option ConfigMsg → Remote → Option Remote
connect_replica w none r = some r
connect_replica w (some rep) r = do
  target ← protobuf2local rep
  let target_addr = concat_with_colon (convert_uint32t_ip target.rpc_ip) target.rpc_port
  call_worker w RpcOperation.add_replica target 0
      (record r { replicas = insert target_addr target r.replicas })

unfoldable pub add_replica : World → ConfigMsg → Address → Remote → Option Remote
add_replica w me addr r =
    let dest = key_of addr in
    if skips_replica dest r
    then some r
    else connect_replica w (answered (w.replica_negotiate r.turn dest (negotiate_req me r)))
        (asked r)

unfoldable pub add_replicas : World → List Address → Remote → Option Remote
add_replicas w addrs r = do me ← local2protobuf r.local_runtime; each (add_replica w me) addrs r

unfoldable pub accept_storage : World → ConfigMsg → Remote → Option (Remote × Option ConfigMsg)
accept_storage w source r = do
  config ← protobuf2local source
  let addr = concat_with_colon (convert_uint32t_ip config.rpc_ip) config.rpc_port
  let r' = record r { storages = insert addr config r.storages }
  if has addr r.storages
      then some (r, none)
      else command_and_reply w RpcOperation.add_storage config r'

unfoldable pub replica_negotiate :
    World → NegotiateReq → Remote → Option (Remote × Option ConfigMsg)
replica_negotiate w req r =
    if same_neighbours req r then accept_storage w req.source r else some (r, none)

unfoldable pub delete_replica : World → Address → Remote → Option Remote
delete_replica w addr r = elim (find (key_of addr) r.replicas) [
  | none ↦ some r
  | some config ↦
      call_worker w RpcOperation.remove_replica config 0
        (record r { replicas = remove (key_of addr) r.replicas })
]

unfoldable pub delete_storage : World → Address → Remote → Option Remote
delete_storage w addr r = elim (find (key_of addr) r.storages) [
  | none ↦ some r
  | some config ↦
      call_worker w RpcOperation.remove_storage config 0
        (record r { storages = remove (key_of addr) r.storages })
]

unfoldable pub recover : World → Address → Remote → Option Remote
recover w addr r = if_found w RpcOperation.recover 0 (key_of addr) r.storages r
