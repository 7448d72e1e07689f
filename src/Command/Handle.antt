-- ===== src/Command/Handle.antt =====
-- The commands of runtime/module/handle_command.cc.
use nfvactor.Prelude.{
  ℕ, ◌+◌, ◌-◌, Bool, Option, none, some, List, [], ◌∷◌, ◌++◌, ◌==◌, ◌>>=◌, if◌then◌else◌, update,
}
use nfvactor.Conn.{RuntimeConfig, add64}
use nfvactor.Command.{
  Control, Env, MacItem, Migration, Recovery, emplace, erase, set_mac, del_mac, send_ping, inc_ref,
  dec_ref,
}

unfoldable pub add_input_runtime : Env → RuntimeConfig → Control → Control
unfolding emplace
add_input_runtime env config c =
    let (r, c') = emplace env c.local_runtime.input_port_mac config.output_port_mac 0 config c in
    set_mac config.output_port_mac r c'

-- `r->reliable_send` on a null pointer if the connection was there.
unfoldable pub add_output_runtime : Env → RuntimeConfig → Control → Option Control
unfolding emplace send_ping
add_output_runtime env config c = do
  let (r, c') = emplace env c.local_runtime.output_port_mac config.input_port_mac 1 config c
  id ← r
  send_ping env id (set_mac config.input_port_mac r c')

-- `allocate()` of a list item, which is written to at once.
unfoldable pub take_item : Control → Option Control
take_item c =
    if c.shared.free_items == 0
    then none
    else some (record c { shared = record c.shared { free_items = c.shared.free_items - 1 } })

abbrev give_item : Control → Control
give_item c = record c { shared = record c.shared { free_items = c.shared.free_items + 1 } }

-- The loop that deletes the first item with the address; the flag tells if there was one.
unfoldable pub delete_mac : ℕ → List MacItem → Bool × List MacItem
delete_mac mac [] = (Bool.false, [])
delete_mac mac (i ∷ l) =
    let (found, rest) = delete_mac mac l in
    if i.dst_mac_addr == mac then (Bool.true, l) else (found, i ∷ rest)

given_back : Bool → Control → Control
given_back found c = if found then give_item c else c

unfoldable pub add_input_mac : RuntimeConfig → Control → Option Control
unfolding take_item
add_input_mac config c = do
  c' ← take_item c
  let item : MacItem = record {
    dst_mac_addr = config.output_port_mac;
    dst_rtid = config.runtime_id;
  }
  some (record c' { input_runtime_macs = c'.input_runtime_macs ++ item ∷ [] })

unfoldable pub add_output_mac : RuntimeConfig → Control → Option Control
unfolding take_item
add_output_mac config c = do
  c' ← take_item c
  let item : MacItem = record { dst_mac_addr = config.input_port_mac; dst_rtid = config.runtime_id }
  some (record c' { output_runtime_macs = c'.output_runtime_macs ++ item ∷ [] })

unfoldable pub delete_input_mac : RuntimeConfig → Control → Control
unfolding delete_mac given_back
delete_input_mac config c =
    let (found, l) = delete_mac config.output_port_mac c.input_runtime_macs in
    given_back found (record c { input_runtime_macs = l })

unfoldable pub delete_output_mac : RuntimeConfig → Control → Control
unfolding delete_mac given_back
delete_output_mac config c =
    let (found, l) = delete_mac config.input_port_mac c.output_runtime_macs in
    given_back found (record c { output_runtime_macs = l })

unfoldable pub delete_input_runtime : RuntimeConfig → Control → Control
unfolding erase delete_input_mac
delete_input_runtime config c =
    delete_input_mac config (del_mac config.output_port_mac (erase config.runtime_id c))

unfoldable pub delete_output_runtime : RuntimeConfig → Control → Control
unfolding erase delete_output_mac
delete_output_runtime config c =
    delete_output_mac config (del_mac config.input_port_mac (erase config.runtime_id c))

-- A new round of migrations starts only when the last one's quota is used up.
unfoldable pub migrate_to : ℕ → ℕ → RuntimeConfig → Migration → Migration
migrate_to now qouta config m =
    if m.migration_qouta == 0
    then record {
      migration_qouta = qouta;
      migration_target_rt_id = config.runtime_id;
      outgoing_migrations = 0;
      passive_migration_iteration = add64 m.passive_migration_iteration 1;
      total_passive_migration = qouta;
      successful_passive_migration = 0;
      failed_passive_migration = 0;
      null_passive_migration = 0;
      migration_source_loss_counter = 0;
      current_iteration_start_time = now;
    }
    else m

-- The new control connection, which gates 2 sends on.
abbrev connect : Env → RuntimeConfig → Control → Control
connect env config c =
    let (r, c') = emplace env c.local_runtime.control_port_mac config.control_port_mac 2 config c in
    set_mac config.control_port_mac r c'

-- The part that `set_migration_target` and `add_replica` share.
unfoldable pub use_connection : Env → RuntimeConfig → Control → Option Control
unfolding emplace inc_ref send_ping
use_connection env config c = elim (c.reliables config.runtime_id) [
  | some r ↦ inc_ref config.runtime_id c
  | none ↦ inc_ref config.runtime_id (connect env config c) >>= send_ping env config.runtime_id
]

unfoldable pub set_migration_target : Env → RuntimeConfig → Control → Option Control
unfolding use_connection
set_migration_target env config c = do
  c' ← use_connection env config c
  some (record c' { migration_targets = c'.migration_targets ++ config.runtime_id ∷ [] })

unfoldable pub migration_negotiate : Env → RuntimeConfig → Control → Option Control
unfolding emplace inc_ref
migration_negotiate env config c = elim (c.reliables config.runtime_id) [
  | some r ↦ inc_ref config.runtime_id c
  | none ↦ inc_ref config.runtime_id (connect env config c)
]

-- The loop that deletes the first target, or replica, with the id.
unfoldable pub delete_id : ℕ → List ℕ → Bool × List ℕ
delete_id id [] = (Bool.false, [])
delete_id id (i ∷ l) =
    let (found, rest) = delete_id id l in if i == id then (Bool.true, l) else (found, i ∷ rest)

unfoldable pub delete_migration_target : RuntimeConfig → Control → Option Control
unfolding dec_ref delete_id
delete_migration_target config c = do
  (gone, c') ← dec_ref config.runtime_id c
  some (record c' { migration_targets = (delete_id config.runtime_id c'.migration_targets).1 })

unfoldable pub delete_migration_source : RuntimeConfig → Control → Option Control
unfolding dec_ref
delete_migration_source config c = do (gone, c') ← dec_ref config.runtime_id c; some c'

unfoldable pub add_replica : Env → RuntimeConfig → Control → Option Control
unfolding take_item use_connection
add_replica env config c = do
  c' ← take_item c
  use_connection env config (record c' { replicas = c'.replicas ++ config.runtime_id ∷ [] })

unfoldable pub remove_replica : RuntimeConfig → Control → Option Control
unfolding delete_id given_back dec_ref
remove_replica config c = do
  let (found, l) = delete_id config.runtime_id c.replicas
  (gone, c') ← dec_ref config.runtime_id (given_back found (record c { replicas = l }))
  some c'

-- `replica_flow_lists_.emplace` and `cdlist_head_init`, which empties a list that is there too.
unfoldable pub add_storage : Env → RuntimeConfig → Control → Option Control
unfolding emplace inc_ref
add_storage env config c = elim (c.reliables config.runtime_id) [
  | some r ↦ inc_ref config.runtime_id c
  | none ↦
      let c' = connect env config c in
      inc_ref config.runtime_id (record c' {
        replica_flow_lists = update c'.replica_flow_lists config.runtime_id (some []);
      })
]

unfoldable pub remove_storage : RuntimeConfig → Control → Option Control
unfolding dec_ref
remove_storage config c = do
  (gone, c') ← dec_ref config.runtime_id c
  some (
      if gone
      then record c' { replica_flow_lists = update c'.replica_flow_lists config.runtime_id none }
      else c')

unfoldable pub recover : ℕ → RuntimeConfig → Recovery → Recovery
recover now config r =
    if r.storage_rtid == 0
    then record {
      storage_rtid = config.runtime_id;
      recovery_iteration = add64 r.recovery_iteration 1;
      successful_recovery = 0;
      unsuccessful_recovery = 0;
      current_recovery_iteration_start_time = now;
    }
    else r
