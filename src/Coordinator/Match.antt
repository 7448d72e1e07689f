-- ===== src/Coordinator/Match.antt =====
-- runtime/reliable/process_reliable_msg.h: a message that has arrived goes to the coordinator or to
-- the flow actor that it names.
use nfvactor.Prelude.{
  ℕ, Bool, true, false, Option, none, some, List, [], ◌∷◌, ◌==◌, ◌>>=◌, if◌then◌else◌, ltb, length,
}
use nfvactor.Prelude.Bytes.{field}
use nfvactor.Cdlist.{cdlist_add_tail}
use nfvactor.Packet.{Packet, raw}
use nfvactor.Message.{SingleMsg}
use nfvactor.Pool.{allocate_actor, coordinator_actor_id}
use nfvactor.Actor.{Setting, Worker, list_item, replica_head}
use nfvactor.Actor.Header.{read_create_target, read_new_route, read_two_words, read_word}
use nfvactor.Actor.Start.{init_with_first_rep_pkt}
use nfvactor.Actor.Forward.{rep_fs_pkt_msg}
use nfvactor.Actor.Migrate.{
  start_migration_response, change_vswitch_route_response, migrate_flow_state_response,
}
use nfvactor.Actor.Arrive.{migrate_flow_state}
use nfvactor.Actor.Recover.{replica_recover_response}
use nfvactor.Coordinator.{
  ping, taken, take_actor, register, create_migration_target_actor, change_vswitch_route,
  replica_recover,
}

-- The bytes behind `head_data` of a packet without headers.
unfoldable pub packet_bytes : Packet → Option (List ℕ)
packet_bytes (raw bytes ∷ []) = some bytes
packet_bytes pkt = none

unfoldable pub cstruct_bytes : SingleMsg → Option (List ℕ)
unfolding packet_bytes
cstruct_bytes m = m.cstruct_pkt >>= packet_bytes

unfoldable pub fs_bytes : SingleMsg → Option (List ℕ)
unfolding packet_bytes
fs_bytes m = elim m.fs_msg_batch [ [] ↦ none | pkt ∷ pkts ↦ packet_bytes pkt ]

abbrev pub is_some {ℓ} : {A : Type ℓ} → Option A → Bool
is_some none = false
is_some (some a) = true

module _ {W : Type 0} where
  -- A flow that is not here yet gets an actor, on the list of its runtime's flows, or the actor for
  -- dead ends.
  unfoldable pub start_replica :
      Setting W → ℕ → ℕ → List ℕ → Option ℕ → Worker W → Option (ℕ × Worker W)
  unfolding cdlist_add_tail init_with_first_rep_pkt
  start_replica st rtid key bytes none w = some (w.deadend_flow_actor, w)
  start_replica st rtid key bytes (some a) w =
      let m = cdlist_add_tail (replica_head rtid) (list_item a) w.links in
      if is_some (w.control.replica_flow_lists rtid)
      then init_with_first_rep_pkt st key bytes a (record w { links = m }) >>= (λ w'. some (a, w'))
      else none

  -- The flow's actor, which is new if the table has none.
  unfoldable pub replica_actor :
      Setting W → ℕ → ℕ → List ℕ → Option ℕ → Worker W → Option (ℕ × Worker W)
  unfolding start_replica allocate_actor
  replica_actor st rtid key bytes (some a) w = some (a, w)
  replica_actor st rtid key bytes none w =
      start_replica st rtid key bytes (taken w) (take_actor w)
      >>= (λ (a, w'). some (a, register key a w'))

  unfoldable pub replication_msg : Setting W → ℕ → List ℕ → Worker W → Option (Worker W)
  unfolding replica_actor rep_fs_pkt_msg field
  replication_msg st rtid bytes w =
      let key = field bytes 20 16 in
      if ltb (length bytes) 36
      then none
      else replica_actor st rtid key bytes (w.htable key) w
        >>= (λ (a, w'). rep_fs_pkt_msg st a bytes w')

  unfoldable pub to_coordinator : Setting W → SingleMsg → Worker W → Option (Worker W)
  unfolding ping create_migration_target_actor change_vswitch_route replica_recover replication_msg
      cstruct_bytes fs_bytes read_create_target read_new_route
  to_coordinator st m w =
      let rtid = m.send_runtime_id in
      let from = m.rmh.send_actor_id in
      let id = m.rmh.msg_id in
      let t = m.rmh.msg_type in
      if t == 1
      then ping st rtid w
      else if t == 2
      then some w
      else if t == 3
      then cstruct_bytes m
        >>= read_create_target
        >>= (λ c. create_migration_target_actor st rtid from id c w)
      else if t == 4
      then cstruct_bytes m >>= read_new_route >>= (λ n. change_vswitch_route st rtid from id n w)
      else if t == 5
      then fs_bytes m >>= (λ bytes. replication_msg st rtid bytes w)
      else if t == 6
      then cstruct_bytes m >>= read_new_route >>= (λ n. replica_recover st rtid from id n w)
      else none

  unfoldable pub to_flow_actor : Setting W → SingleMsg → ℕ → Worker W → Option (Worker W)
  unfolding start_migration_response change_vswitch_route_response migrate_flow_state
      migrate_flow_state_response replica_recover_response cstruct_bytes fs_bytes read_two_words
      read_word
  to_flow_actor st m a w =
      let t = m.rmh.msg_type in
      let words = cstruct_bytes m >>= read_two_words in
      let word = cstruct_bytes m >>= read_word in
      if t == 8
      then words >>= (λ c. start_migration_response st c a w)
      else if t == 10
      then words >>= (λ c. change_vswitch_route_response st c a w)
      else if t == 11
      then fs_bytes m >>= (λ bytes.
        migrate_flow_state st m.send_runtime_id m.rmh.send_actor_id m.rmh.msg_id bytes a w)
      else if t == 13
      then word >>= (λ id. migrate_flow_state_response st id a w)
      else if t == 15
      then word >>= (λ id. replica_recover_response st id a w)
      else none

  -- `match` of the source.
  unfoldable pub match_msg : Setting W → SingleMsg → Worker W → Option (Worker W)
  unfolding to_coordinator to_flow_actor
  match_msg st m w =
      if m.rmh.recv_actor_id == coordinator_actor_id
      then to_coordinator st m w
      else elim (w.actorid_htable m.rmh.recv_actor_id) [
        | none ↦ some w
        | some a ↦ to_flow_actor st m a w
      ]
