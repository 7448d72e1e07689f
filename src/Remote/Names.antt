-- ===== src/Remote/Names.antt =====
-- The names of the worker's commands (runtime/rpc/ring_msg.h).
use nfvactor.Command.Run.{RpcOperation}
use nfvactor.Remote.Codes.{Text, codes}

-- No other code is left for the default case.
unfoldable pub opcode2string : RpcOperation → Text
opcode2string RpcOperation.add_input_runtime = codes "add_input_runtime"
opcode2string RpcOperation.add_output_runtime = codes "add_output_runtime"
opcode2string RpcOperation.delete_input_runtime = codes "delete_input_runtime"
opcode2string RpcOperation.delete_output_runtime = codes "delete_output_runtime"
opcode2string RpcOperation.add_input_mac = codes "add_input_mac"
opcode2string RpcOperation.add_output_mac = codes "add_output_mac"
opcode2string RpcOperation.delete_input_mac = codes "delete_input_mac"
opcode2string RpcOperation.delete_output_mac = codes "delete_output_mac"
opcode2string RpcOperation.migrate_to = codes "migrate_to"
opcode2string RpcOperation.set_migration_target = codes "set_migration_target"
opcode2string RpcOperation.migration_negotiate = codes "migration_negotiate"
opcode2string RpcOperation.delete_migration_source = codes "delete_migration_source"
opcode2string RpcOperation.delete_migration_target = codes "delete_migration_target"
opcode2string RpcOperation.add_replica = codes "add_replica"
opcode2string RpcOperation.add_storage = codes "add_storage"
opcode2string RpcOperation.remove_replica = codes "remove_replica"
opcode2string RpcOperation.remove_storage = codes "remove_storage"
opcode2string RpcOperation.recover = codes "recover"
opcode2string RpcOperation.get_stats = codes "get_stats"
