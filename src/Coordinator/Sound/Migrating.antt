-- ===== src/Coordinator/Sound/Migrating.antt =====
-- The source's handlers of a migration.
use nfvactor.Prelude.{ℕ, ◌+◌, ◌^◌, ◌<◌, ◌≡◌, some, ◌⊎◌, inl, inr, arith}
use nfvactor.Timer
use nfvactor.Actor
use nfvactor.Actor.{
  packet, FlowActor, Setting, Worker, send_cstruct, send_state, put_reliable, add_migration_timer,
  add_idle_timer, add_replication_timer, stop_idle_timer, stop_migration_timer,
  stop_replication_timer, idle_item, idle_head, migration_item, replication_item, req_head, modify,
}
use nfvactor.Actor.Header.{TwoWords}
use nfvactor.Actor.Migrate.{
  start_migration, migration_failed, start_migration_timeout, ask_route, start_migration_response,
  failure_handling, change_vswitch_route_timeout, send_flow_state, change_vswitch_route_response,
  migrate_flow_state_timeout,
}
use nfvactor.Coordinator.Counters.{accounted-count_failed}
use nfvactor.Coordinator.Sound.{waits, Keeps, Settles, Keeps-same}

module _ {W : Type 0} (st : Setting W) where
  pub migration_failed-Settles : (a : ℕ) (w : Worker W) → Settles a w (migration_failed a w)
  unfolding migration_failed Actor.add_active waits
  migration_failed-Settles a w = record {
    others = λ b n h. ground arith;
    own = λ l. ground arith;
    next_low = ground arith;
    next_high = ground arith;
    same = ground (arith, accounted-count_failed w.control.migration);
  }

  -- Behind `invalidate`.
  stop-Keeps :
      (a : ℕ) (w : Worker W) {w' : Worker W}
      → Settles a (stop_migration_timer a w) w'
      → Keeps a w w'
  unfolding stop_migration_timer Timer.invalidate
  stop-Keeps a w s = record {
    others = λ b n h. s.others b n (ground arith);
    own = λ p h. s.own p;
    next_low = s.next_low;
    next_high = s.next_high;
    same = s.same;
  }

  pub start_migration-Settles :
      (rtid a : ℕ) (w : Worker W) {w' : Worker W}
      → w.control.next_msg_id + 2 < 2 ^ 32
      → start_migration st rtid a w ≡ some w'
      → Settles a w w'
  unfolding start_migration migration_failed Actor.add_active waits Actor.allocate_msg_id
      add_migration_timer Timer.add_timer
  start_migration-Settles rtid a w l e = record {
    others = λ b n h. ground arith;
    own = λ p. ground arith;
    next_low = ground arith;
    next_high = ground arith;
    same = ground (arith, accounted-count_failed w.control.migration);
  }

  pub start_migration_response-Keeps :
      (c : TwoWords) (a : ℕ) (w : Worker W) {w' : Worker W}
      → w.control.next_msg_id + 2 < 2 ^ 32
      → start_migration_response st c a w ≡ some w'
      → Keeps a w w'
  unfolding start_migration_response ask_route waits stop_migration_timer Timer.invalidate
      Actor.allocate_msg_id add_migration_timer Timer.add_timer
  start_migration_response-Keeps c a w l e = record {
    others = λ b n h. ground arith;
    own = λ p h. ground arith;
    next_low = ground arith;
    next_high = ground arith;
    same = ground (arith);
  }

  pub failure_handling-Settles :
      (a : ℕ) (w : Worker W) {w' : Worker W}
      → w.control.next_msg_id + 2 < 2 ^ 32
      → failure_handling st a w ≡ some w'
      → Settles a w w'
  unfolding failure_handling ask_route waits Actor.allocate_msg_id add_migration_timer
      Timer.add_timer
  failure_handling-Settles a w l e = record {
    others = λ b n h. ground arith;
    own = λ p. ground arith;
    next_low = ground arith;
    next_high = ground arith;
    same = ground (arith);
  }

  pub send_flow_state-Settles :
      (a : ℕ) (w : Worker W) {w' : Worker W}
      → w.control.next_msg_id + 2 < 2 ^ 32
      → send_flow_state st a w ≡ some w'
      → Settles a w w'
  unfolding send_flow_state Actor.collect_pkt waits failure_handling ask_route Actor.allocate_msg_id
      add_migration_timer Timer.add_timer
  send_flow_state-Settles a w l e = record {
    others = λ b n h. ground arith;
    own = λ p. ground arith;
    next_low = ground arith;
    next_high = ground arith;
    same = ground (arith);
  }

  pub start_migration_timeout-Keeps :
      (a : ℕ) (w : Worker W) → Keeps a w (start_migration_timeout a w)
  unfolding start_migration_timeout
  start_migration_timeout-Keeps a w = stop-Keeps a w (migration_failed-Settles a _)

  pub migrate_flow_state_timeout-Keeps :
      (a : ℕ) (w : Worker W) {w' : Worker W}
      → w.control.next_msg_id + 2 < 2 ^ 32
      → migrate_flow_state_timeout st a w ≡ some w'
      → Keeps a w w'
  unfolding migrate_flow_state_timeout stop_migration_timer Timer.invalidate
  migrate_flow_state_timeout-Keeps a w l e = stop-Keeps a w (failure_handling-Settles a _ l e)

  route_timeout_cases :
      (a : ℕ) (w : Worker W) {w' : Worker W}
      → change_vswitch_route_timeout st a w ≡ some w'
      → (w' ≡ migration_failed a (stop_migration_timer a w))
        ⊎ (failure_handling st a (stop_migration_timer a w) ≡ some w')
  unfolding change_vswitch_route_timeout
  route_timeout_cases a w e = ground arith

  pub change_vswitch_route_timeout-Keeps :
      (a : ℕ) (w : Worker W) {w' : Worker W}
      → w.control.next_msg_id + 2 < 2 ^ 32
      → change_vswitch_route_timeout st a w ≡ some w'
      → Keeps a w w'
  unfolding stop_migration_timer Timer.invalidate
  change_vswitch_route_timeout-Keeps a w l e = elim (route_timeout_cases a w e) [
    | inl f ↦ rw f (stop-Keeps a w (migration_failed-Settles a _))
    | inr f ↦ stop-Keeps a w (failure_handling-Settles a _ l f)
  ]

  route_response_cases :
      (c : TwoWords) (a : ℕ) (w : Worker W) {w' : Worker W}
      → change_vswitch_route_response st c a w ≡ some w'
      → (w' ≡ w)
        ⊎ (w' ≡ migration_failed a (stop_migration_timer a w))
        ⊎ (send_flow_state st a (stop_migration_timer a w) ≡ some w')
  unfolding change_vswitch_route_response
  route_response_cases c a w e = ground arith

  pub change_vswitch_route_response-Keeps :
      (c : TwoWords) (a : ℕ) (w : Worker W) {w' : Worker W}
      → w.control.next_msg_id + 2 < 2 ^ 32
      → change_vswitch_route_response st c a w ≡ some w'
      → Keeps a w w'
  unfolding stop_migration_timer Timer.invalidate
  change_vswitch_route_response-Keeps c a w l e = elim (route_response_cases c a w e) [
    | inl f ↦ rw f (Keeps-same a w)
    | inr (inl f) ↦ rw f (stop-Keeps a w (migration_failed-Settles a _))
    | inr (inr f) ↦ stop-Keeps a w (send_flow_state-Settles a _ l f)
  ]
