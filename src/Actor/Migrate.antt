-- ===== src/Actor/Migrate.antt =====
-- The source's side of a migration (runtime/actor/flow_actor.cc): the target's actor is created,
-- the route is changed, the flow states are sent; failures on the way, and timeouts.
use nfvactor.Prelude.{
  ℕ, ◌+◌, ◌-◌, ◌%◌, ◌^◌, false, ◌||◌, Option, none, some, ◌==◌, ◌>>=◌, if◌then◌else◌,
}
use nfvactor.Conn.{add64}
use nfvactor.Pool.{coordinator_actor_id}
use nfvactor.Nf.{FlowLeaveStatus}
use nfvactor.Command.{Migration, set_migration}
use nfvactor.Actor.{
  Setting, Worker, modify, set_control, set_state, collect_pkt, add_active, allocate_msg_id,
  send_cstruct, send_state, header, add_migration_timer, stop_migration_timer, stop_idle_timer,
  req_head, idle_head, normal_processing, migration_source, migration_source_after_route_change,
  migration_failure_processing, have_replica,
}
use nfvactor.Actor.Chain.{pack, total_fs_size, fill_up, leave_all}
use nfvactor.Actor.Header.{TwoWords, NewRoute, create_target_bytes, new_route_bytes}
use nfvactor.Actor.Idle.{remove_flow}

-- `uint64_t` subtraction of one
abbrev pub dec64 : ℕ → ℕ
dec64 a = (a + (2 ^ 64 - 1)) % 2 ^ 64

-- What the counters of migrations are when one has failed, or succeeded.
unfoldable pub count_failed : Migration → Migration
count_failed m = record m {
  outgoing_migrations = dec64 m.outgoing_migrations;
  failed_passive_migration = add64 m.failed_passive_migration 1;
}

unfoldable pub count_successful : Migration → Migration
count_successful m = record m {
  outgoing_migrations = dec64 m.outgoing_migrations;
  successful_passive_migration = add64 m.successful_passive_migration 1;
}

module _ {W : Type 0} where
  abbrev pub count : (Migration → Migration) → Worker W → Worker W
  count f w = set_control (set_migration (f w.control.migration) w.control) w

  -- The four statements that end a migration that failed.
  unfoldable pub migration_failed : ℕ → Worker W → Worker W
  unfolding add_active count_failed
  migration_failed a w = count count_failed (add_active a (set_state normal_processing a w))

  unfoldable pub start_migration : Setting W → ℕ → ℕ → Worker W → Option (Worker W)
  unfolding migration_failed allocate_msg_id send_cstruct create_target_bytes add_migration_timer
  start_migration st target_rtid a w = do
    let x = w.actor a
    let bytes = create_target_bytes st.padding x.input_header x.output_header x.flow_key
    let (msg_id, w1) = allocate_msg_id (set_state migration_source a w)
    let h = header msg_id (w.allocator.actor_id a) coordinator_actor_id 3
    if x.replication_state == have_replica
        then some (migration_failed a w)
        else send_cstruct st target_rtid h bytes w1
          >>= (λ (flag, w2). add_migration_timer st req_head st.req_to_ns msg_id 7 a w2)

  unfoldable pub start_migration_timeout : ℕ → Worker W → Worker W
  unfolding stop_migration_timer migration_failed
  start_migration_timeout a w = migration_failed a (stop_migration_timer a w)

  -- The input runtime is asked to send the flow to another runtime.
  unfoldable pub ask_route : Setting W → ℕ → ℕ → Worker W → Option (ℕ × Worker W)
  unfolding allocate_msg_id send_cstruct new_route_bytes
  ask_route st rtid a w = do
    let x = w.actor a
    let n : NewRoute = record { flow_key = x.flow_key; new_output_rt_id = rtid }
    let (msg_id, w1) = allocate_msg_id w
    let h = header msg_id (w.allocator.actor_id a) coordinator_actor_id 4
    (flag, w2) ← send_cstruct st x.input_header.dest_rtid h (new_route_bytes st.padding n) w1
    some (msg_id, w2)

  unfoldable pub start_migration_response : Setting W → TwoWords → ℕ → Worker W → Option (Worker W)
  unfolding stop_migration_timer ask_route add_migration_timer
  start_migration_response st c a w =
      let w' =
        modify a (λ x. record x { migration_target_actor_id = c.answer })
          (stop_migration_timer a w) in
      if c.request_msg_id == (w.actor a).migration_timer.request_msg_id
      then if (w.actor a).attached
        then ask_route st w.control.migration.migration_target_rt_id a w'
          >>= (λ (msg_id, w2). add_migration_timer st req_head st.req_to_ns msg_id 9 a w2)
        else none
      else some w

  -- The timer is one of the list of idle flows.
  unfoldable pub failure_handling : Setting W → ℕ → Worker W → Option (Worker W)
  unfolding ask_route add_migration_timer
  failure_handling st a w = do
    let rtid = w.control.local_runtime.runtime_id
    (msg_id, w1) ← ask_route st rtid a (set_state migration_failure_processing a w)
    add_migration_timer st idle_head st.idle_to_ns msg_id 9 a w1

  unfoldable pub change_vswitch_route_timeout : Setting W → ℕ → Worker W → Option (Worker W)
  unfolding stop_migration_timer migration_failed failure_handling
  change_vswitch_route_timeout st a w = do
    let w' = stop_migration_timer a w
    r ← w.control.reliables (w.actor a).input_header.dest_rtid
    if r.is_connection_up then failure_handling st a w' else some (migration_failed a w')

  -- The flow states go to the target.
  unfoldable pub send_flow_state : Setting W → ℕ → Worker W → Option (Worker W)
  unfolding pack total_fs_size fill_up allocate_msg_id send_state collect_pkt failure_handling
      add_migration_timer
  send_flow_state st a w = do
    let x = w.actor a
    let bytes = fill_up (total_fs_size st.service_chain) st.fresh (pack st.service_chain x.fs)
    let (msg_id, w1) = allocate_msg_id (set_state migration_source_after_route_change a w)
    let h = header msg_id (w.allocator.actor_id a) x.migration_target_actor_id 11
    (flag, w2) ← send_state st w.control.migration.migration_target_rt_id h bytes w1
    if flag
        then add_migration_timer st req_head st.req_to_ns msg_id 12 a w2
        else failure_handling st a (collect_pkt bytes w2)

  unfoldable pub change_vswitch_route_response :
      Setting W → TwoWords → ℕ → Worker W → Option (Worker W)
  unfolding stop_migration_timer migration_failed send_flow_state
  change_vswitch_route_response st c a w =
      let x = w.actor a in
      let w' = stop_migration_timer a w in
      if c.request_msg_id == x.migration_timer.request_msg_id
      then if x.attached
        then if (x.current_state == migration_failure_processing) || (c.answer == 1)
          then some (migration_failed a w')
          else if st.spare
          then send_flow_state st a w'
          else none
        else none
      else some w

  unfoldable pub migrate_flow_state_timeout : Setting W → ℕ → Worker W → Option (Worker W)
  unfolding stop_migration_timer failure_handling
  migrate_flow_state_timeout st a w = failure_handling st a (stop_migration_timer a w)

  -- The flow is gone: each function is told, and no state goes back to its pool.
  unfoldable pub hand_over : Setting W → ℕ → Worker W → Worker W
  unfolding stop_migration_timer stop_idle_timer count_successful leave_all
  hand_over st a w =
      let w1 = set_state normal_processing a (stop_migration_timer a w) in
      let fs = (w.actor a).fs in
      let m = leave_all FlowLeaveStatus.migrate_out false st.service_chain fs w.nf_memory in
      stop_idle_timer a (record (count count_successful w1) { nf_memory = m })

  unfoldable pub migrate_flow_state_response : Setting W → ℕ → ℕ → Worker W → Option (Worker W)
  unfolding hand_over remove_flow
  migrate_flow_state_response st request_msg_id a w =
      let x = w.actor a in
      if request_msg_id == x.migration_timer.request_msg_id
      then if x.attached then some (remove_flow a x.flow_key (hand_over st a w)) else none
      else some w
