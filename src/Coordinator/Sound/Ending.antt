-- ===== src/Coordinator/Sound/Ending.antt =====
-- The handlers of a flow actor that end a flow here, take one over, or recover one.
use nfvactor.Prelude.{
  ℕ, ◌+◌, ◌%◌, ◌^◌, ◌<◌, ◌≡◌, ◌≢◌, refl, ap, ◌∙◌, Bool, true, false, some, List, ◌==◌, ◌>>=◌,
  >>=-eq-some, some_injective, ◌⊎◌, inl, inr, arith, if◌then◌else◌,
}
use nfvactor.Timer
use nfvactor.Actor
use nfvactor.Actor.{
  FlowActor, Setting, Worker, modify, stop_idle_timer, stop_migration_timer, stop_replication_timer,
  add_idle_timer,
}
use nfvactor.Actor.Forward.{release_replica}
use nfvactor.Actor.Idle.{
  check_idle, leave_flow, empty_buffer, flow_is_idle, remove_flow, free_actor,
}
use nfvactor.Actor.Migrate.{migrate_flow_state_response, hand_over}
use nfvactor.Actor.Arrive.{migrate_flow_state, acknowledge, begin_flow, load_states, take_over}
use nfvactor.Actor.Recover.{start_recover, replica_recover_timeout, replica_recover_response}
use nfvactor.Coordinator.Counters.{accounted, accounted-count_successful}
use nfvactor.Coordinator.Sound.{waits, Keeps, Keeps-same}
use nfvactor.Coordinator.Sound.Handling.{
  IsNear, IsSame, near_Keeps, drop_buffer-IsSame, release_buffer-IsNear,
}

module _ {W : Type 0} where
  -- An actor that is not a migration's source is removed.
  remove_flow-Keeps :
      (a key : ℕ) (w : Worker W)
      → (w.actor a).current_state % 2 ≢ 0
      → Keeps a w (remove_flow a key w)
  unfolding remove_flow free_actor stop_idle_timer stop_migration_timer stop_replication_timer
      Timer.invalidate waits
  remove_flow-Keeps a key w odd = record {
    others = λ b n h. ground arith;
    own = λ p h. ground arith;
    next_low = ground arith;
    next_high = ground arith;
    same = ground arith;
  }

  -- The actor's state is as it was.
  empty_buffer-IsNear :
      (a : ℕ) (w : Worker W)
      → IsNear a w (empty_buffer a w)
        × (((empty_buffer a w).actor a).current_state ≡ (w.actor a).current_state)
  unfolding empty_buffer waits
  empty_buffer-IsNear a w =
      let g = drop_buffer-IsSame (w.actor a).buffer w in
      (
        record {
          others = λ b n. ground (arith, g.same_actors, ap (λ f. f b) g.same_actors);
          own = ground (arith, ap (λ f. f a) g.same_actors);
          same_next = g.same_next;
          same_migration = g.same_migration;
        },
        ground (arith, ap (λ f. f a) g.same_actors),
      )

  release_replica-IsSame :
      (rtid : ℕ) (w : Worker W) {w' : Worker W} → release_replica rtid w ≡ some w' → IsSame w w'
  unfolding release_replica
  release_replica-IsSame rtid w e = record {
    same_actors = ground arith;
    same_next = ground arith;
    same_migration = ground arith;
  }

  emptied :
      (a : ℕ) (w : Worker W) (b : Bool)
      → IsNear a w (if b then empty_buffer a w else w)
        × (((if b then empty_buffer a w else w).actor a).current_state ≡ (w.actor a).current_state)
  emptied a w true = empty_buffer-IsNear a w
  emptied a w false =
      (record { others = λ b n. refl; own = refl; same_next = refl; same_migration = refl }, refl)

  maybe_released :
      (b : Bool) (rtid : ℕ) (w : Worker W) {w' : Worker W}
      → (if b then release_replica rtid w else some w) ≡ some w'
      → IsSame w w'
  maybe_released true rtid w e = release_replica-IsSame rtid w e
  maybe_released false rtid w e = record {
    same_actors = ground arith;
    same_next = ground arith;
    same_migration = ground arith;
  }

  -- A change that leaves the actors alone comes behind one that nearly does.
  same-IsNear :
      (a : ℕ) {u v w w' : Worker W}
      → IsSame v w
      → IsNear a u v × ((v.actor a).current_state ≡ (u.actor a).current_state)
      → (w'.actor ≡ w.actor) × (w'.control ≡ w.control)
      → IsNear a u w' × ((w'.actor a).current_state ≡ (u.actor a).current_state)
  same-IsNear a {w = w} {w' = w'} s (g, h) (f, c) =
      let actors = f ∙ s.same_actors in
      (
        record {
          others = λ b n. ap (λ k. k b) actors ∙ g.others b n;
          own = ap (λ k. waits (k a)) actors ∙ g.own;
          same_next = ap (λ k. k.next_msg_id) c ∙ s.same_next ∙ g.same_next;
          same_migration = ap (λ k. k.migration) c ∙ s.same_migration ∙ g.same_migration;
        },
        ap (λ k. (k a).current_state) actors ∙ h,
      )

module _ {W : Type 0} (st : Setting W) where
  leave_flow-IsNear :
      (a : ℕ) (w : Worker W) {w' : Worker W}
      → leave_flow st a w ≡ some w'
      → IsNear a w w' × ((w'.actor a).current_state ≡ (w.actor a).current_state)
  unfolding leave_flow
  leave_flow-IsNear a w e =
      let x = w.actor a in
      let g = emptied a w (x.current_state == 3) in
      let (w2, released, f) = >>=-eq-some _ _ e in
      same-IsNear a (maybe_released (x.replication_state == 1) x.r _ released) g
        (ground arith, ground arith)

  sample-Keeps :
      (a : ℕ) (w : Worker W) {w' : Worker W}
      → add_idle_timer st a
          (modify a (λ x. record x { sample_counter = x.pkt_counter }) (stop_idle_timer a w))
        ≡ some w'
      → Keeps a w w'
  unfolding add_idle_timer stop_idle_timer Timer.add_timer Timer.invalidate waits
  sample-Keeps a w e = record {
    others = λ b n h. ground arith;
    own = λ p h. ground arith;
    next_low = ground arith;
    next_high = ground arith;
    same = ground arith;
  }

  stop_idle-IsNear : (a : ℕ) (w : Worker W) → IsNear a w (stop_idle_timer a w)
  unfolding stop_idle_timer Timer.invalidate waits
  stop_idle-IsNear a w = record {
    others = λ b n. ground arith;
    own = ground arith;
    same_next = refl;
    same_migration = refl;
  }

  hand_over-Keeps : (a : ℕ) (w : Worker W) → Keeps a w (hand_over st a w)
  unfolding hand_over stop_migration_timer stop_idle_timer Timer.invalidate waits
  hand_over-Keeps a w = record {
    others = λ b n h. ground arith;
    own = λ p h. ground arith;
    next_low = ground arith;
    next_high = ground arith;
    same = accounted-count_successful w.control.migration;
  }

  hand_over-odd : (a : ℕ) (w : Worker W) → ((hand_over st a w).actor a).current_state ≡ 1
  unfolding hand_over stop_migration_timer stop_idle_timer Timer.invalidate
  hand_over-odd a w = ground arith

  hand_over-next :
      (a : ℕ) (w : Worker W) → (hand_over st a w).control.next_msg_id ≡ w.control.next_msg_id
  unfolding hand_over stop_migration_timer stop_idle_timer Timer.invalidate
  hand_over-next a w = refl

  response_cases :
      (id a : ℕ) (w : Worker W) {w' : Worker W}
      → migrate_flow_state_response st id a w ≡ some w'
      → (w' ≡ w) ⊎ (w' ≡ remove_flow a (w.actor a).flow_key (hand_over st a w))
  unfolding migrate_flow_state_response
  response_cases id a w e = ground arith

  -- A removal comes behind a change that leaves the ids alone.
  pub Keeps-then :
      (a : ℕ) {u v w : Worker W}
      → Keeps a u v
      → v.control.next_msg_id ≡ u.control.next_msg_id
      → Keeps a v w
      → Keeps a u w
  Keeps-then a g n k = record {
    others = λ b m h. k.others b m (g.others b m h);
    own = λ p h. k.own (omega arith) (g.own p h);
    next_low = omega (arith, k.next_low);
    next_high = omega (arith, k.next_high);
    same = k.same ∙ g.same;
  }

  pub migrate_flow_state_response-Keeps :
      (id a : ℕ) (w : Worker W) {w' : Worker W}
      → migrate_flow_state_response st id a w ≡ some w'
      → Keeps a w w'
  migrate_flow_state_response-Keeps id a w e = elim (response_cases id a w e) [
    | inl f ↦ rw f (Keeps-same a w)
    | inr f ↦ rw f (
        Keeps-then a (hand_over-Keeps a w) (hand_over-next a w)
          (remove_flow-Keeps a _ _ (λ h. omega (arith, hand_over-odd a w))))
  ]

  idle_cases :
      (a : ℕ) (w : Worker W) {w' : Worker W}
      → check_idle st a w ≡ some w'
      → (add_idle_timer st a
            (modify a (λ x. record x { sample_counter = x.pkt_counter }) (stop_idle_timer a w))
          ≡ some w')
        ⊎ (((w.actor a).current_state % 2 ≢ 0)
            × (flow_is_idle st a (stop_idle_timer a w) ≡ some w'))
  unfolding check_idle
  idle_cases a w e = ground arith

  stop_idle-state :
      (a : ℕ) (w : Worker W)
      → ((stop_idle_timer a w).actor a).current_state ≡ (w.actor a).current_state
  unfolding stop_idle_timer Timer.invalidate
  stop_idle-state a w = ground arith

  flow_is_idle-Keeps :
      (a : ℕ) (w : Worker W) {w' : Worker W}
      → (w.actor a).current_state % 2 ≢ 0
      → flow_is_idle st a w ≡ some w'
      → Keeps a w w'
  unfolding flow_is_idle
  flow_is_idle-Keeps a w odd e =
      let (v, left, f) =
        >>=-eq-some (leave_flow st a w) (λ v. some (remove_flow a (w.actor a).flow_key v)) e in
      let (g, s) = leave_flow-IsNear a w left in
      near_Keeps a (rw (some_injective f) (remove_flow-Keeps a _ v (λ h. odd (omega arith)))) g

  pub check_idle-Keeps :
      (a : ℕ) (w : Worker W) {w' : Worker W} → check_idle st a w ≡ some w' → Keeps a w w'
  check_idle-Keeps a w e = elim (idle_cases a w e) [
    | inl f ↦ sample-Keeps a w f
    | inr (odd, f) ↦
        near_Keeps a
          (flow_is_idle-Keeps a (stop_idle_timer a w)
            (λ h. odd (omega (arith, stop_idle-state a w))) f)
          (stop_idle-IsNear a w)
  ]

  acknowledge-Keeps :
      (rtid id msg_id a : ℕ) (bytes : List ℕ) (w : Worker W) {w' : Worker W}
      → w.control.next_msg_id + 2 < 2 ^ 32
      → acknowledge st rtid id msg_id bytes a w ≡ some w'
      → Keeps a w w'
  unfolding acknowledge load_states Actor.allocate_msg_id waits
  acknowledge-Keeps rtid id msg_id a bytes w l e = record {
    others = λ b n h. ground arith;
    own = λ p h. ground arith;
    next_low = ground arith;
    next_high = ground arith;
    same = ground arith;
  }

  begin_flow-waits : (a : ℕ) (w : Worker W) → waits ((begin_flow a w).actor a) ≡ true
  unfolding begin_flow Actor.add_active waits
  begin_flow-waits a w = ground arith

  begin_flow-others : (a b : ℕ) (w : Worker W) → a ≢ b → (begin_flow a w).actor b ≡ w.actor b
  unfolding begin_flow Actor.add_active
  begin_flow-others a b w n = ground arith

  take_over-Keeps : (a : ℕ) (w : Worker W) → Keeps a w (take_over st a w)
  unfolding take_over begin_flow Actor.add_active
  take_over-Keeps a w =
      let g = release_buffer-IsNear st a (w.actor a).buffer (begin_flow a w) in
      record {
        others = λ b n h. ap waits (g.others b n ∙ begin_flow-others a b w n) ∙ h;
        own = λ p h. g.own ∙ begin_flow-waits a w;
        next_low = omega (arith, g.same_next);
        next_high = omega (arith, g.same_next);
        same = ap accounted g.same_migration;
      }

  take_over-next :
      (a : ℕ) (w : Worker W) → (take_over st a w).control.next_msg_id ≡ w.control.next_msg_id
  unfolding take_over begin_flow Actor.add_active
  take_over-next a w = (release_buffer-IsNear st a (w.actor a).buffer (begin_flow a w)).same_next

  arrival_cases :
      (rtid id msg_id a : ℕ) (bytes : List ℕ) (w : Worker W) {w' : Worker W}
      → migrate_flow_state st rtid id msg_id bytes a w ≡ some w'
      → (acknowledge st rtid id msg_id bytes a w >>= (λ v. some (take_over st a v))) ≡ some w'
  unfolding migrate_flow_state
  arrival_cases rtid id msg_id a bytes w e = ground arith

  pub migrate_flow_state-Keeps :
      (rtid id msg_id a : ℕ) (bytes : List ℕ) (w : Worker W) {w' : Worker W}
      → w.control.next_msg_id + 2 < 2 ^ 32
      → migrate_flow_state st rtid id msg_id bytes a w ≡ some w'
      → Keeps a w w'
  migrate_flow_state-Keeps rtid id msg_id a bytes w l e =
      let (v, told, f) =
        >>=-eq-some (acknowledge st rtid id msg_id bytes a w) (λ v. some (take_over st a v))
          (arrival_cases rtid id msg_id a bytes w e) in
      let g = acknowledge-Keeps rtid id msg_id a bytes w l told in
      let k = take_over-Keeps a v in
      let last = some_injective f in
      record {
        others = λ b n h. rw last (k.others b n (g.others b n h));
        own = λ p h. rw last (k.own (omega (arith, g.next_low)) (g.own p h));
        next_low = rw last (omega (arith, take_over-next a v, g.next_low));
        next_high = rw last (omega (arith, take_over-next a v, g.next_high));
        same = rw last (k.same ∙ g.same);
      }

  pub start_recover-Keeps :
      (a : ℕ) (w : Worker W) {w' : Worker W}
      → w.control.next_msg_id + 2 < 2 ^ 32
      → start_recover st a w ≡ some w'
      → Keeps a w w'
  unfolding start_recover Actor.allocate_msg_id Actor.add_replication_timer Timer.add_timer waits
  start_recover-Keeps a w l e = record {
    others = λ b n h. ground arith;
    own = λ p h. ground arith;
    next_low = ground arith;
    next_high = ground arith;
    same = ground arith;
  }

  pub replica_recover_timeout-Keeps :
      (a : ℕ) (w : Worker W) {w' : Worker W}
      → w.control.next_msg_id + 2 < 2 ^ 32
      → replica_recover_timeout st a w ≡ some w'
      → Keeps a w w'
  unfolding replica_recover_timeout start_recover stop_replication_timer Timer.invalidate
      Actor.allocate_msg_id Actor.add_replication_timer Actor.add_active Timer.add_timer waits
  replica_recover_timeout-Keeps a w l e = record {
    others = λ b n h. ground arith;
    own = λ p h. ground arith;
    next_low = ground arith;
    next_high = ground arith;
    same = ground arith;
  }

  pub replica_recover_response-Keeps :
      (id a : ℕ) (w : Worker W) {w' : Worker W}
      → replica_recover_response st id a w ≡ some w'
      → Keeps a w w'
  unfolding replica_recover_response stop_replication_timer Timer.invalidate Actor.add_active waits
  replica_recover_response-Keeps id a w e = record {
    others = λ b n h. ground arith;
    own = λ p h. ground arith;
    next_low = ground arith;
    next_high = ground arith;
    same = ground arith;
  }
