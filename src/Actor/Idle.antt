-- ===== src/Actor/Idle.antt =====
-- `handle_message(check_idle_t)` of runtime/actor/flow_actor.cc, and `remove_flow` of
-- runtime/actor/coordinator.cc, which it ends with for a flow that has had no packet.
use nfvactor.Prelude.{
  ℕ, ◌+◌, ◌%◌, true, Option, none, some, List, [], ◌∷◌, ◌==◌, ◌>>=◌, if◌then◌else◌, update,
}
use nfvactor.Cdlist.{cdlist_del}
use nfvactor.Pool.{deallocate_actor}
use nfvactor.Nf.{FlowLeaveStatus}
use nfvactor.Actor.{
  Setting, Worker, modify, collect_pkt, add_idle_timer, stop_idle_timer, stop_migration_timer,
  stop_replication_timer, list_item, migration_target, have_replica,
}
use nfvactor.Actor.Chain.{leave_all}
use nfvactor.Actor.Forward.{release_replica}

module _ {W : Type 0} where
  -- The timers stop and the actor leaves its list and goes back to the pool.
  unfoldable pub free_actor : ℕ → Worker W → Worker W
  unfolding stop_idle_timer stop_migration_timer stop_replication_timer cdlist_del deallocate_actor
  free_actor a w =
      let w' = stop_replication_timer a (stop_migration_timer a (stop_idle_timer a w)) in
      record w' {
        links = cdlist_del (list_item a) w'.links;
        allocator = (deallocate_actor a w'.allocator).1;
      }

  unfoldable pub remove_flow : ℕ → ℕ → Worker W → Worker W
  unfolding free_actor
  remove_flow a key w =
      let w' = record w {
        htable = update w.htable key none;
        actorid_htable = update w.actorid_htable (w.allocator.actor_id a) none;
      } in
      if a == w.deadend_flow_actor then w' else free_actor a w'

  -- The loop that drops the packets that wait.
  unfoldable pub drop_buffer : List (List ℕ) → Worker W → Worker W
  unfolding collect_pkt
  drop_buffer [] w = w
  drop_buffer (pkt ∷ l) w =
      drop_buffer l (record (collect_pkt pkt w) { free_buffers = w.free_buffers + 1 })

  unfoldable pub empty_buffer : ℕ → Worker W → Worker W
  unfolding drop_buffer
  empty_buffer a w = modify a (λ x. record x { buffer = [] }) (drop_buffer (w.actor a).buffer w)

  -- What an idle flow holds is given back.
  unfoldable pub leave_flow : Setting W → ℕ → Worker W → Option (Worker W)
  unfolding empty_buffer release_replica leave_all
  leave_flow st a w = do
    let x = w.actor a
    let w1 = if x.current_state == migration_target then empty_buffer a w else w
    w2 ← if x.replication_state == have_replica then release_replica x.r w1 else some w1
    let m = leave_all FlowLeaveStatus.idle true st.service_chain x.fs w2.nf_memory
    some (record w2 { nf_memory = m })

  -- No packet has come since the last check.
  unfoldable pub flow_is_idle : Setting W → ℕ → Worker W → Option (Worker W)
  unfolding leave_flow remove_flow
  flow_is_idle st a w = do w' ← leave_flow st a w; some (remove_flow a (w.actor a).flow_key w')

  -- The actor lives until the next check.
  abbrev sample : Setting W → ℕ → Worker W → Option (Worker W)
  sample st a w =
      add_idle_timer st a (modify a (λ x. record x { sample_counter = x.pkt_counter }) w)

  unfoldable pub check_idle : Setting W → ℕ → Worker W → Option (Worker W)
  unfolding stop_idle_timer flow_is_idle add_idle_timer
  check_idle st a w =
      let x = w.actor a in
      let w' = stop_idle_timer a w in
      if x.current_state % 2 == 0
      then sample st a w'
      else if x.sample_counter == x.pkt_counter
      then flow_is_idle st a w'
      else sample st a w'
