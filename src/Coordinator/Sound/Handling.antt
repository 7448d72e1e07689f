-- ===== src/Coordinator/Sound/Handling.antt =====
-- The other handlers of a flow actor: packets, the check for idle flows, the flow states that
-- arrive, and recoveries.
use nfvactor.Prelude.{
  ℕ, ◌+◌, ◌^◌, ◌<◌, ◌≡◌, ◌≢◌, refl, ap, ◌∙◌, Bool, some, List, [], ◌∷◌, ◌⊎◌, inl, inr, arith,
}
use nfvactor.Actor
use nfvactor.Actor.{
  FlowActor, Setting, Worker, stop_idle_timer, stop_migration_timer, stop_replication_timer,
  add_idle_timer,
}
use nfvactor.Actor.Forward.{
  pkt_msg, by_state, run_chain, count_pkt, rep_fs_pkt_msg, release_replica, replication_output,
  output, pkt_normal_nf_processing, pkt_migration_target_processing, pkt_process_after_route_change,
}
use nfvactor.Actor.Idle.{drop_buffer}
use nfvactor.Actor.Arrive.{release_pkt, release_buffer}
use nfvactor.Coordinator.Counters.{accounted}
use nfvactor.Coordinator.Sound.{waits, Keeps}

-- What a loop in a handler changes: the actor, but not whether it waits.
pub record IsNear {W : Type 0} (a : ℕ) (w w' : Worker W) : Type 0 where
  pub others : (b : ℕ) → a ≢ b → w'.actor b ≡ w.actor b
  pub own : waits (w'.actor a) ≡ waits (w.actor a)
  pub same_next : w'.control.next_msg_id ≡ w.control.next_msg_id
  pub same_migration : w'.control.migration ≡ w.control.migration

-- What a loop that leaves the actors alone changes.
pub record IsSame {W : Type 0} (w w' : Worker W) : Type 0 where
  pub same_actors : w'.actor ≡ w.actor
  pub same_next : w'.control.next_msg_id ≡ w.control.next_msg_id
  pub same_migration : w'.control.migration ≡ w.control.migration

module _ {W : Type 0} where
  pub IsNear-trans : (a : ℕ) {u v w : Worker W} → IsNear a u v → IsNear a v w → IsNear a u w
  IsNear-trans a g h = record {
    others = λ b n. h.others b n ∙ g.others b n;
    own = h.own ∙ g.own;
    same_next = h.same_next ∙ g.same_next;
    same_migration = h.same_migration ∙ g.same_migration;
  }

  pub near_Keeps : (a : ℕ) {u v w : Worker W} → Keeps a v w → IsNear a u v → Keeps a u w
  near_Keeps a k g = record {
    others = λ b n h. k.others b n (rw (g.others b n) h);
    own = λ p h. k.own (omega (arith, g.same_next)) (g.own ∙ h);
    next_low = omega (arith, g.same_next, k.next_low);
    next_high = omega (arith, g.same_next, k.next_high);
    same = k.same ∙ ap accounted g.same_migration;
  }

  pub drop_buffer-IsSame : (l : List (List ℕ)) (w : Worker W) → IsSame w (drop_buffer l w)
  unfolding drop_buffer Actor.collect_pkt
  drop_buffer-IsSame [] w = record { same_actors = refl; same_next = refl; same_migration = refl }
  drop_buffer-IsSame (pkt ∷ l) w =
      let g =
        drop_buffer-IsSame l
          (record (Actor.collect_pkt pkt w) { free_buffers = w.free_buffers + 1 }) in
      record {
        same_actors = g.same_actors;
        same_next = g.same_next;
        same_migration = g.same_migration;
      }

module _ {W : Type 0} (st : Setting W) where
  release_pkt-IsNear : (a : ℕ) (pkt : List ℕ) (w : Worker W) → IsNear a w (release_pkt st a pkt w)
  unfolding release_pkt run_chain Actor.collect_pkt waits
  release_pkt-IsNear a pkt w = record {
    others = λ b n. ground arith;
    own = ground arith;
    same_next = ground arith;
    same_migration = ground arith;
  }

  pub release_buffer-IsNear :
      (a : ℕ) (l : List (List ℕ)) (w : Worker W) → IsNear a w (release_buffer st a l w)
  unfolding release_buffer
  release_buffer-IsNear a [] w = record {
    others = λ b n. refl;
    own = refl;
    same_next = refl;
    same_migration = refl;
  }
  release_buffer-IsNear a (pkt ∷ l) w =
      IsNear-trans a (release_pkt-IsNear a pkt w) (release_buffer-IsNear a l _)

  output-Keeps :
      (a : ℕ) (pkt : List ℕ) (result : Bool) (w : Worker W) {w' : Worker W}
      → w.control.next_msg_id + 2 < 2 ^ 32
      → output st a pkt result w ≡ some w'
      → Keeps a w w'
  unfolding output replication_output release_replica Actor.collect_pkt Actor.allocate_msg_id waits
  output-Keeps a pkt result w l e = record {
    others = λ b n h. ground arith;
    own = λ p h. ground arith;
    next_low = ground arith;
    next_high = ground arith;
    same = ground arith;
  }

  run_chain-IsNear : (a : ℕ) (pkt : List ℕ) (w : Worker W) → IsNear a w (run_chain st a pkt w).2
  unfolding run_chain waits
  run_chain-IsNear a pkt w = record {
    others = λ b n. ground arith;
    own = ground arith;
    same_next = refl;
    same_migration = refl;
  }

  count_pkt-IsNear : (a : ℕ) (w : Worker W) → IsNear a w (count_pkt a w)
  unfolding waits
  count_pkt-IsNear a w = record {
    others = λ b n. ground arith;
    own = ground arith;
    same_next = refl;
    same_migration = refl;
  }

  pkt_normal-Keeps :
      (a : ℕ) (pkt : List ℕ) (w : Worker W) {w' : Worker W}
      → w.control.next_msg_id + 2 < 2 ^ 32
      → pkt_normal_nf_processing st a pkt w ≡ some w'
      → Keeps a w w'
  unfolding pkt_normal_nf_processing
  pkt_normal-Keeps a pkt w l e =
      let g = IsNear-trans a (count_pkt-IsNear a w) (run_chain-IsNear a pkt (count_pkt a w)) in
      near_Keeps a
        (output-Keeps a _ (run_chain st a pkt (count_pkt a w)).0
          (run_chain st a pkt (count_pkt a w)).2 (omega (arith, g.same_next)) e)
        g

  target-Keeps :
      (a : ℕ) (pkt : List ℕ) (w : Worker W) → Keeps a w (pkt_migration_target_processing a pkt w)
  unfolding pkt_migration_target_processing Actor.collect_pkt waits
  target-Keeps a pkt w = record {
    others = λ b n h. ground arith;
    own = λ p h. ground arith;
    next_low = ground arith;
    next_high = ground arith;
    same = ground arith;
  }

  lost-Keeps :
      (a : ℕ) (pkt : List ℕ) (w : Worker W) → Keeps a w (pkt_process_after_route_change pkt w)
  unfolding pkt_process_after_route_change Actor.collect_pkt accounted
  lost-Keeps a pkt w = record {
    others = λ b n h. ground arith;
    own = λ p h. ground arith;
    next_low = ground arith;
    next_high = ground arith;
    same = ground arith;
  }

  pkt_msg_cases :
      (a : ℕ) (pkt : List ℕ) (w : Worker W) {w' : Worker W}
      → pkt_msg st a pkt w ≡ some w'
      → (w' ≡ pkt_migration_target_processing a pkt w)
        ⊎ (w' ≡ pkt_process_after_route_change pkt w)
        ⊎ (pkt_normal_nf_processing st a pkt w ≡ some w')
  unfolding pkt_msg by_state
  pkt_msg_cases a pkt w e = ground arith

  pub pkt_msg-Keeps :
      (a : ℕ) (pkt : List ℕ) (w : Worker W) {w' : Worker W}
      → w.control.next_msg_id + 2 < 2 ^ 32
      → pkt_msg st a pkt w ≡ some w'
      → Keeps a w w'
  pkt_msg-Keeps a pkt w l e = elim (pkt_msg_cases a pkt w e) [
    | inl f ↦ rw f (target-Keeps a pkt w)
    | inr (inl f) ↦ rw f (lost-Keeps a pkt w)
    | inr (inr f) ↦ pkt_normal-Keeps a pkt w l f
  ]

  pub rep_fs_pkt_msg-Keeps :
      (a : ℕ) (bytes : List ℕ) (w : Worker W) {w' : Worker W}
      → rep_fs_pkt_msg st a bytes w ≡ some w'
      → Keeps a w w'
  unfolding rep_fs_pkt_msg waits
  rep_fs_pkt_msg-Keeps a bytes w e = record {
    others = λ b n h. ground arith;
    own = λ p h. ground arith;
    next_low = ground arith;
    next_high = ground arith;
    same = ground arith;
  }
