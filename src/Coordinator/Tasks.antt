-- ===== src/Coordinator/Tasks.antt =====
-- The coordinator's tasks: runtime/module/coordinator_mp.cc starts migrations and recoveries, and
-- runtime/module/timers.cc with runtime/actor/actor_timer.h handles the timers that ran out. A task
-- makes at most 32 rounds; the setting of each round is its own.
use nfvactor.Prelude.{
  ℕ, zero, suc, ◌%◌, Bool, true, false, ◌&&◌, ◌||◌, Option, none, some, ◌==◌, ◌>>=◌, if◌then◌else◌,
  ltb,
}
use nfvactor.Cdlist.{Links, cdlist_pop_head}
use nfvactor.Timer
use nfvactor.Timer.{ActorTimer}
use nfvactor.Conn.{add64}
use nfvactor.Command.{Migration}
use nfvactor.Actor.{
  Setting, Worker, set_control, active_head, idle_head, req_head, replica_head, owner,
}
use nfvactor.Actor.Idle.{check_idle}
use nfvactor.Actor.Migrate.{
  dec64, count, start_migration, start_migration_timeout, change_vswitch_route_timeout,
  migrate_flow_state_timeout,
}
use nfvactor.Coordinator.Match.{is_some}
use nfvactor.Actor.Recover.{start_recover, replica_recover_timeout}

-- What a round adds to and takes off the counters of migrations.
unfoldable pub count_null : Migration → Migration
count_null m = record m {
  migration_qouta = dec64 m.migration_qouta;
  null_passive_migration = add64 m.null_passive_migration 1;
}

unfoldable pub count_started : Migration → Migration
count_started m = record m {
  migration_qouta = dec64 m.migration_qouta;
  outgoing_migrations = add64 m.outgoing_migrations 1;
}

-- The fields of the `coordinator_mp` module.
pub record CoordinatorMp : Type 0 where
  pub current_iteration : ℕ
  pub send_end_flag : Bool
  pub local_replication_iteration : ℕ

-- The end of `RunTask`, which reports what is over once.
unfoldable pub report : {W : Type 0} → CoordinatorMp → Worker W → CoordinatorMp
report mp w =
    let m = w.control.migration in
    let c = w.control.recovery in
    let done =
      add64 (add64 m.successful_passive_migration m.failed_passive_migration)
        m.null_passive_migration in
    let migrated =
      ltb mp.current_iteration m.passive_migration_iteration
      && (done == m.total_passive_migration) in
    let recovered =
      ltb mp.local_replication_iteration c.recovery_iteration && (c.storage_rtid == 0) in
    record {
      current_iteration = if migrated then add64 mp.current_iteration 1 else mp.current_iteration;
      send_end_flag = mp.send_end_flag || (w.migrated_in_flow_num == 50000);
      local_replication_iteration =
          if recovered
          then add64 mp.local_replication_iteration 1
          else mp.local_replication_iteration;
    }

module _ {W : Type 0} where
  -- The first active flow, if there is one, is migrated; the flag tells to go on.
  unfoldable pub start_first : Setting W → Option ℕ → Links → Worker W → Option (Bool × Worker W)
  unfolding count_null count_started start_migration
  start_first st none links w = some (true, count count_null w)
  start_first st (some item) links w =
      start_migration st w.control.migration.migration_target_rt_id (owner item)
        (count count_started (record w { links = links }))
      >>= (λ w'. some (true, w'))

  -- A round of the loop that starts migrations.
  unfoldable pub migrate_round : Setting W → Worker W → Option (Bool × Worker W)
  unfolding cdlist_pop_head start_first
  migrate_round st w =
      let m = w.control.migration in
      if (m.migration_qouta == 0) || ltb 256 m.outgoing_migrations
      then some (false, w)
      else let (first, links) = cdlist_pop_head active_head w.links in start_first st first links w

  unfoldable pub migrate_rounds : ℕ → (ℕ → Setting W) → Worker W → Option (Worker W)
  unfolding migrate_round
  migrate_rounds zero st w = some w
  migrate_rounds (suc n) st w =
      migrate_round (st n) w >>= (λ (go, w'). if go then migrate_rounds n st w' else some w')

  abbrev stop_recovery : ℕ → Worker W → Worker W
  stop_recovery now w =
      let c = w.control in
      record (set_control (record c { recovery = record c.recovery { storage_rtid = 0 } }) w) {
        current_recovery_iteration_end_time = now;
      }

  -- The first flow of the list takes over here. Without one, the recovery is over when no answer is
  -- waited for; the flag tells to go on.
  unfoldable pub recovering : Setting W → Option ℕ → Links → Worker W → Option (Bool × Worker W)
  unfolding start_recover
  recovering st none links w =
      some (false, if w.out_going_recovery == 0 then stop_recovery st.env.now w else w)
  recovering st (some item) links w =
      start_recover st (owner item) (record w { links = links })
      >>= (λ w'. some (true, record w' { out_going_recovery = add64 w'.out_going_recovery 1 }))

  -- A round of the loop that starts recoveries. `rtid` is the runtime whose flows' list the task
  -- found before the loop.
  unfoldable pub recover_round : Setting W → ℕ → Worker W → Option (Bool × Worker W)
  unfolding cdlist_pop_head recovering
  recover_round st rtid w =
      let (first, links) = cdlist_pop_head (replica_head rtid) w.links in
      if (w.control.recovery.storage_rtid == 0) || ltb 128 w.out_going_recovery
      then some (false, w)
      else if is_some (w.control.replica_flow_lists rtid)
      then recovering st first links w
      else none

  unfoldable pub recover_rounds : ℕ → (ℕ → Setting W) → ℕ → Worker W → Option (Worker W)
  unfolding recover_round
  recover_rounds zero st rtid w = some w
  recover_rounds (suc n) st rtid w =
      recover_round (st n) rtid w
      >>= (λ (go, w'). if go then recover_rounds n st rtid w' else some w')

  -- `coordinator_mp::RunTask`
  unfoldable pub run_coordinator_mp :
      (ℕ → Setting W)
      → (ℕ → Setting W)
      → CoordinatorMp
      → Worker W
      → Option (CoordinatorMp × Worker W)
  unfolding migrate_rounds recover_rounds report
  run_coordinator_mp st st' mp w = do
    w1 ← migrate_rounds 32 st w
    w2 ← recover_rounds 32 st' w1.control.recovery.storage_rtid w1
    some (report mp w2, w2)

  -- The timer whose links are at an address.
  unfoldable pub timer_at : Worker W → ℕ → ActorTimer
  timer_at w item =
      let x = w.actor (owner item) in
      if item % 8 == 1
      then x.idle_timer
      else if item % 8 == 2
      then x.migration_timer
      else x.replication_timer

  -- `actor_timer::trigger`, on a flow actor's timer.
  unfoldable pub trigger : Setting W → ℕ → Worker W → Option (Worker W)
  unfolding timer_at check_idle start_migration_timeout change_vswitch_route_timeout
      migrate_flow_state_timeout replica_recover_timeout
  trigger st item w =
      let t = timer_at w item in
      let a = owner item in
      if t.request_msg_id == 0
      then none
      else if t.msg_type == 3
      then check_idle st a w
      else if t.msg_type == 7
      then some (start_migration_timeout a w)
      else if t.msg_type == 9
      then change_vswitch_route_timeout st a w
      else if t.msg_type == 12
      then migrate_flow_state_timeout st a w
      else if t.msg_type == 14
      then replica_recover_timeout st a w
      else none

  unfoldable pub timer_rounds : ℕ → (ℕ → Setting W) → ℕ → Worker W → Option (Worker W)
  unfolding timer_at trigger Timer.timeout_occur
  timer_rounds zero st head w = some w
  timer_rounds (suc n) st head w =
      elim (Timer.timeout_occur head (st n).env.now (timer_at w) w.links) [
        | none ↦ some w
        | some item ↦ trigger (st n) item w >>= timer_rounds n st head
      ]

  -- `timers::RunTask`
  unfoldable pub run_timers : (ℕ → Setting W) → (ℕ → Setting W) → Worker W → Option (Worker W)
  unfolding timer_rounds
  run_timers st st' w = timer_rounds 32 st idle_head w >>= timer_rounds 32 st' req_head
