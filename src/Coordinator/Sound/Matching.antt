-- ===== src/Coordinator/Sound/Matching.antt =====
-- A message, wherever it goes, is handled at one actor.
use nfvactor.Prelude.{
  ℕ, ◌+◌, ◌^◌, ◌<◌, ◌≡◌, refl, Option, none, some, List, ◌==◌, ◌>>=◌, >>=-eq-some, some_injective,
  if_cases, else_of, inl, inr, ltb, length,
}
use nfvactor.Prelude.Bytes.{field}
use nfvactor.Cdlist.{cdlist_add_tail}
use nfvactor.Message.{SingleMsg}
use nfvactor.Pool.{coordinator_actor_id}
use nfvactor.Actor.{Setting, Worker, list_item, replica_head}
use nfvactor.Actor.Header.{read_create_target, read_new_route, read_two_words, read_word}
use nfvactor.Actor.Start.{init_with_first_rep_pkt}
use nfvactor.Actor.Forward.{rep_fs_pkt_msg}
use nfvactor.Actor.Migrate.{
  start_migration_response, change_vswitch_route_response, migrate_flow_state_response,
}
use nfvactor.Actor.Arrive.{migrate_flow_state}
use nfvactor.Actor.Recover.{replica_recover_response}
use nfvactor.Coordinator.{
  taken, take_actor, register, create_migration_target_actor, change_vswitch_route, replica_recover,
}
use nfvactor.Coordinator.Match.{
  is_some, start_replica, replica_actor, replication_msg, to_coordinator, to_flow_actor, match_msg,
  cstruct_bytes, fs_bytes,
}
use nfvactor.Coordinator.Sound.{Keeps, Keeps-same}
use nfvactor.Coordinator.Sound.Migrating.{
  start_migration_response-Keeps, change_vswitch_route_response-Keeps,
}
use nfvactor.Coordinator.Sound.Handling.{rep_fs_pkt_msg-Keeps}
use nfvactor.Coordinator.Sound.Ending.{
  Keeps-then, migrate_flow_state-Keeps, migrate_flow_state_response-Keeps,
  replica_recover_response-Keeps,
}
use nfvactor.Coordinator.Sound.Starting.{
  init_with_first_rep_pkt-Keeps, answer_route-Keeps, ping-Keeps, created-Keeps,
}

-- One actor changes, as the handlers change it.
abbrev pub Moves : {W : Type 0} → Worker W → Worker W → Type 0
Moves w w' = (a : ℕ) × Keeps a w w'

module _ {W : Type 0} (st : Setting W) where
  start_replica-Keeps :
      (rtid key : ℕ) (bytes : List ℕ) (o : Option ℕ) (w : Worker W) {p : ℕ × Worker W}
      → start_replica st rtid key bytes o w ≡ some p
      → Keeps p.0 w p.1 × (p.1.control.next_msg_id ≡ w.control.next_msg_id)
  unfolding start_replica
  start_replica-Keeps rtid key bytes none w e = rw (some_injective e) (Keeps-same _ w, refl)
  start_replica-Keeps rtid key bytes (some a) w e =
      elim (if_cases (is_some (w.control.replica_flow_lists rtid)) e) [
        | inr f ↦ absurd (cc)
        | inl f ↦
            let hooked : Worker W = record w {
              links = cdlist_add_tail (replica_head rtid) (list_item a) w.links;
            } in
            let (v, made, g) =
              >>=-eq-some (init_with_first_rep_pkt st key bytes a hooked) (λ v. some (a, v)) f in
            let (k, n) = init_with_first_rep_pkt-Keeps st key bytes a hooked made in
            rw (some_injective g) (
              record {
                others = k.others;
                own = k.own;
                next_low = k.next_low;
                next_high = k.next_high;
                same = k.same;
              },
              n,
            )
      ]

  replica_actor-Keeps :
      (rtid key : ℕ) (bytes : List ℕ) (o : Option ℕ) (w : Worker W) {p : ℕ × Worker W}
      → replica_actor st rtid key bytes o w ≡ some p
      → Keeps p.0 w p.1 × (p.1.control.next_msg_id ≡ w.control.next_msg_id)
  unfolding replica_actor
  replica_actor-Keeps rtid key bytes (some a) w e = rw (some_injective e) (Keeps-same a w, refl)
  replica_actor-Keeps rtid key bytes none w e =
      let done : ℕ × Worker W → Option (ℕ × Worker W) = λ (a, v). some (a, register key a v) in
      let ((a, v), made, f) =
        >>=-eq-some (start_replica st rtid key bytes (taken w) (take_actor w)) done e in
      let (k, n) = start_replica-Keeps rtid key bytes (taken w) (take_actor w) made in
      rw (some_injective f) (
        record {
          others = k.others;
          own = k.own;
          next_low = k.next_low;
          next_high = k.next_high;
          same = k.same;
        },
        n,
      )

  replication_msg-Moves :
      (rtid : ℕ) (bytes : List ℕ) (w : Worker W) {w' : Worker W}
      → replication_msg st rtid bytes w ≡ some w'
      → Moves w w'
  unfolding replication_msg
  replication_msg-Moves rtid bytes w e =
      let key = field bytes 20 16 in
      let handle : ℕ × Worker W → Option (Worker W) = λ (a, v). rep_fs_pkt_msg st a bytes v in
      let ((a, v), made, f) =
        >>=-eq-some (replica_actor st rtid key bytes (w.htable key) w) handle
          (else_of (ltb (length bytes) 36) e) in
      let (k, n) = replica_actor-Keeps rtid key bytes (w.htable key) w made in
      (a, Keeps-then st a k n (rep_fs_pkt_msg-Keeps st a bytes v f))

  to_flow_actor-Keeps :
      (m : SingleMsg) (a : ℕ) (w : Worker W) {w' : Worker W}
      → w.control.next_msg_id + 2 < 2 ^ 32
      → to_flow_actor st m a w ≡ some w'
      → Keeps a w w'
  unfolding to_flow_actor
  to_flow_actor-Keeps m a w l e = elim (if_cases (m.rmh.msg_type == 8) e) [
    | inl f ↦
        let (c, d, g) =
          >>=-eq-some (cstruct_bytes m >>= read_two_words) (λ c. start_migration_response st c a w)
            f in
        start_migration_response-Keeps st c a w l g
    | inr e1 ↦ elim (if_cases (m.rmh.msg_type == 10) e1) [
      | inl f ↦
          let (c, d, g) =
            >>=-eq-some (cstruct_bytes m >>= read_two_words)
              (λ c. change_vswitch_route_response st c a w) f in
          change_vswitch_route_response-Keeps st c a w l g
      | inr e2 ↦ elim (if_cases (m.rmh.msg_type == 11) e2) [
        | inl f ↦
            let (bytes, d, g) =
              >>=-eq-some (fs_bytes m)
                (λ bytes.
                  migrate_flow_state st m.send_runtime_id m.rmh.send_actor_id m.rmh.msg_id bytes a
                    w)
                f in
            migrate_flow_state-Keeps st _ _ _ a bytes w l g
        | inr e3 ↦ elim (if_cases (m.rmh.msg_type == 13) e3) [
          | inl f ↦
              let (id, d, g) =
                >>=-eq-some (cstruct_bytes m >>= read_word)
                  (λ id. migrate_flow_state_response st id a w) f in
              migrate_flow_state_response-Keeps st id a w g
          | inr e4 ↦ elim (if_cases (m.rmh.msg_type == 15) e4) [
            | inl f ↦
                let (id, d, g) =
                  >>=-eq-some (cstruct_bytes m >>= read_word)
                    (λ id. replica_recover_response st id a w) f in
                replica_recover_response-Keeps st id a w g
            | inr e5 ↦ absurd (cc)
          ]
        ]
      ]
    ]
  ]

  -- Taking an actor from the pool changes no actor.
  of_taken : {w w' : Worker W} → Moves (take_actor w) w' → Moves w w'
  of_taken (a, k) = (
    a,
    record {
      others = k.others;
      own = k.own;
      next_low = k.next_low;
      next_high = k.next_high;
      same = k.same;
    },
  )

  to_coordinator-Moves :
      (m : SingleMsg) (w : Worker W) {w' : Worker W}
      → w.control.next_msg_id + 2 < 2 ^ 32
      → to_coordinator st m w ≡ some w'
      → Moves w w'
  unfolding to_coordinator create_migration_target_actor change_vswitch_route replica_recover
  to_coordinator-Moves m w l e = elim (if_cases (m.rmh.msg_type == 1) e) [
    | inl f ↦ (0, ping-Keeps st m.send_runtime_id w f)
    | inr e1 ↦ elim (if_cases (m.rmh.msg_type == 2) e1) [
      | inl f ↦ (0, rw (some_injective f) (Keeps-same 0 w))
      | inr e2 ↦ elim (if_cases (m.rmh.msg_type == 3) e2) [
        | inl f ↦
            let (c, d, g) =
              >>=-eq-some (cstruct_bytes m >>= read_create_target)
                (λ c.
                  create_migration_target_actor st m.send_runtime_id m.rmh.send_actor_id
                    m.rmh.msg_id c w)
                f in
            of_taken (created-Keeps st _ _ _ c (taken w) (take_actor w) l g)
        | inr e3 ↦ elim (if_cases (m.rmh.msg_type == 4) e3) [
          | inl f ↦
              let (n, d, g) =
                >>=-eq-some (cstruct_bytes m >>= read_new_route)
                  (λ n.
                    change_vswitch_route st m.send_runtime_id m.rmh.send_actor_id m.rmh.msg_id n w)
                  f in
              (0, answer_route-Keeps st 10 _ _ _ n w l g)
          | inr e4 ↦ elim (if_cases (m.rmh.msg_type == 5) e4) [
            | inl f ↦
                let (bytes, d, g) =
                  >>=-eq-some (fs_bytes m) (λ bytes. replication_msg st m.send_runtime_id bytes w)
                    f in
                replication_msg-Moves m.send_runtime_id bytes w g
            | inr e5 ↦ elim (if_cases (m.rmh.msg_type == 6) e5) [
              | inl f ↦
                  let (n, d, g) =
                    >>=-eq-some (cstruct_bytes m >>= read_new_route)
                      (λ n.
                        replica_recover st m.send_runtime_id m.rmh.send_actor_id m.rmh.msg_id n w)
                      f in
                  (0, answer_route-Keeps st 15 _ _ _ n w l g)
              | inr e6 ↦ absurd (cc)
            ]
          ]
        ]
      ]
    ]
  ]

  actor_of :
      (m : SingleMsg) (o : Option ℕ) (w : Worker W) {w' : Worker W}
      → w.control.next_msg_id + 2 < 2 ^ 32
      → elim o [ none ↦ some w | some a ↦ to_flow_actor st m a w ] ≡ some w'
      → Moves w w'
  actor_of m none w l e = (0, rw (some_injective e) (Keeps-same 0 w))
  actor_of m (some a) w l e = (a, to_flow_actor-Keeps m a w l e)

  pub match_msg-Moves :
      (m : SingleMsg) (w : Worker W) {w' : Worker W}
      → w.control.next_msg_id + 2 < 2 ^ 32
      → match_msg st m w ≡ some w'
      → Moves w w'
  unfolding match_msg
  match_msg-Moves m w l e = elim (if_cases (m.rmh.recv_actor_id == coordinator_actor_id) e) [
    | inl f ↦ to_coordinator-Moves m w l f
    | inr f ↦ actor_of m (w.actorid_htable m.rmh.recv_actor_id) w l f
  ]
