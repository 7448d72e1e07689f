-- ===== src/Actor/Recover.antt =====
-- A replica takes over a flow whose runtime is gone (runtime/actor/flow_actor.cc): it asks the
-- flow's input runtime to send it here, until that runtime answers or is gone too.
use nfvactor.Prelude.{ℕ, Option, none, some, ◌==◌, ◌>>=◌, if◌then◌else◌}
use nfvactor.Conn.{add64}
use nfvactor.Pool.{coordinator_actor_id}
use nfvactor.Command.{Recovery}
use nfvactor.Actor.{
  Setting, Worker, modify, set_control, add_active, allocate_msg_id, send_cstruct, header,
  add_replication_timer, stop_replication_timer, no_replica,
}
use nfvactor.Actor.Chain.{arrive_all}
use nfvactor.Actor.Header.{NewRoute, new_route_bytes}
use nfvactor.Actor.Migrate.{dec64}

module _ {W : Type 0} where
  unfoldable pub start_recover : Setting W → ℕ → Worker W → Option (Worker W)
  unfolding allocate_msg_id send_cstruct new_route_bytes add_replication_timer
  start_recover st a w = do
    let x = w.actor a
    let rtid = w.control.local_runtime.runtime_id
    let n : NewRoute = record { flow_key = x.flow_key; new_output_rt_id = rtid }
    let (msg_id, w1) = allocate_msg_id w
    let h = header msg_id (w.allocator.actor_id a) coordinator_actor_id 6
    (flag, w2) ← send_cstruct st x.input_header.dest_rtid h (new_route_bytes st.padding n) w1
    add_replication_timer st msg_id a w2

  abbrev count_recovery : (Recovery → Recovery) → Worker W → Worker W
  count_recovery f w =
      let c = record w.control { recovery = f w.control.recovery } in
      record (set_control c w) { out_going_recovery = dec64 w.out_going_recovery }

  abbrev no_longer_replica : ℕ → Worker W → Worker W
  no_longer_replica a w =
      add_active a (modify a (λ x. record x { replication_state = no_replica }) w)

  unfoldable pub replica_recover_timeout : Setting W → ℕ → Worker W → Option (Worker W)
  unfolding stop_replication_timer start_recover add_active
  replica_recover_timeout st a w = do
    let w' = stop_replication_timer a w
    r ← w.control.reliables (w.actor a).input_header.dest_rtid
    if r.is_connection_up
        then start_recover st a w'
        else some (count_recovery failed (no_longer_replica a w'))
    where
      failed : Recovery → Recovery
      failed c = record c { unsuccessful_recovery = add64 c.unsuccessful_recovery 1 }

  unfoldable pub replica_recover_response : Setting W → ℕ → ℕ → Worker W → Option (Worker W)
  unfolding stop_replication_timer add_active arrive_all
  replica_recover_response st request_msg_id a w =
      let x = w.actor a in
      let w1 = count_recovery successful (no_longer_replica a (stop_replication_timer a w)) in
      let (fs, m) = arrive_all st.service_chain x.fs w.nf_memory in
      if request_msg_id == x.replication_timer.request_msg_id
      then if x.attached
        then some (modify a (λ y. record y { fs = fs }) (record w1 { nf_memory = m }))
        else none
      else some w
    where
      successful : Recovery → Recovery
      successful c = record c { successful_recovery = add64 c.successful_recovery 1 }
