-- ===== src/Command/Run.antt =====
-- The dispatch of runtime/module/handle_command.cc: `RunTask` on a command that it took off the
-- ring. Taking it off and putting it back are `llring`'s.
use nfvactor.Prelude.{ℕ, Option, some}
use nfvactor.Conn.{RuntimeConfig}
use nfvactor.Command.{Control, Env, set_migration}
use nfvactor.Command.Handle

-- `enum class rpc_operation` of runtime/rpc/ring_msg.h
pub data RpcOperation : Type 0 where
  add_input_runtime : RpcOperation
  add_output_runtime : RpcOperation
  delete_input_runtime : RpcOperation
  delete_output_runtime : RpcOperation
  add_input_mac : RpcOperation
  add_output_mac : RpcOperation
  delete_input_mac : RpcOperation
  delete_output_mac : RpcOperation
  migrate_to : RpcOperation
  set_migration_target : RpcOperation
  migration_negotiate : RpcOperation
  delete_migration_target : RpcOperation
  delete_migration_source : RpcOperation
  add_replica : RpcOperation
  add_storage : RpcOperation
  remove_replica : RpcOperation
  remove_storage : RpcOperation
  recover : RpcOperation
  get_stats : RpcOperation

-- `struct llring_item`, without the statistics that the reply carries.
pub record LlringItem : Type 0 where
  pub op_code : RpcOperation
  pub rt_config : RuntimeConfig
  pub migration_qouta : ℕ

unfoldable pub run_operation : RpcOperation → Env → RuntimeConfig → ℕ → Control → Option Control
run_operation add_input_runtime env config n c = some (Handle.add_input_runtime env config c)
run_operation add_output_runtime env config n c = Handle.add_output_runtime env config c
run_operation delete_input_runtime env config n c = some (Handle.delete_input_runtime config c)
run_operation delete_output_runtime env config n c = some (Handle.delete_output_runtime config c)
run_operation add_input_mac env config n c = Handle.add_input_mac config c
run_operation add_output_mac env config n c = Handle.add_output_mac config c
run_operation delete_input_mac env config n c = some (Handle.delete_input_mac config c)
run_operation delete_output_mac env config n c = some (Handle.delete_output_mac config c)
run_operation migrate_to env config n c =
    some (set_migration (Handle.migrate_to env.now n config c.migration) c)
run_operation set_migration_target env config n c = Handle.set_migration_target env config c
run_operation migration_negotiate env config n c = Handle.migration_negotiate env config c
run_operation delete_migration_target env config n c = Handle.delete_migration_target config c
run_operation delete_migration_source env config n c = Handle.delete_migration_source config c
run_operation add_replica env config n c = Handle.add_replica env config c
run_operation add_storage env config n c = Handle.add_storage env config c
run_operation remove_replica env config n c = Handle.remove_replica config c
run_operation remove_storage env config n c = Handle.remove_storage config c
run_operation recover env config n c =
    some (record c { recovery = Handle.recover env.now config c.recovery })
run_operation get_stats env config n c = some c

unfoldable pub run_task : Env → LlringItem → Control → Option Control
unfolding run_operation
run_task env item c = run_operation item.op_code env item.rt_config item.migration_qouta c
