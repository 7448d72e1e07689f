-- ===== src/Actor/Forward.antt =====
-- How a flow actor handles the packets of its flow (runtime/actor/flow_actor.cc): by its state, and
-- then by its state as a replica.
use nfvactor.Prelude.{
  ℕ, ◌+◌, ◌-◌, Bool, Option, none, some, List, [], ◌∷◌, ◌++◌, ◌==◌, ◌>>=◌, if◌then◌else◌, update,
  ltb, length, drop,
}
use nfvactor.Prelude.Bytes.{le_bytes}
use nfvactor.Conn.{add64}
use nfvactor.Pool.{coordinator_actor_id}
use nfvactor.P2p.{dec_ref_cnt}
use nfvactor.Actor.{
  Setting, Worker, FlowActor, modify, set_control, collect_pkt, allocate_msg_id, send_state, header,
  no_replica, is_replica,
}
use nfvactor.Actor.Chain.{run_nfs, total_fs_size, pack, unpack, fill_up}
use nfvactor.Actor.Header.{ether_bytes, short_header}

-- The bytes in front of the flow states of a replication message.
abbrev pub rep_offset : ℕ
rep_offset = 36

-- The flow's new header in front of what is behind the old one.
unfoldable pub readdress : FlowActor → List ℕ → List ℕ
unfolding ether_bytes
readdress x pkt = ether_bytes x.output_header ++ drop 14 pkt

module _ {W : Type 0} where
  abbrev pub count_pkt : ℕ → Worker W → Worker W
  count_pkt a w = modify a (λ x. record x { pkt_counter = add64 x.pkt_counter 1 }) w

  -- `r_->dec_ref_cnt()`
  unfoldable pub release_replica : ℕ → Worker W → Option (Worker W)
  unfolding dec_ref_cnt
  release_replica rtid w = do
    r ← w.control.reliables rtid
    let c = w.control
    some (set_control (record c { reliables = update c.reliables rtid (some (dec_ref_cnt r)) }) w)

  -- The result of the chain has no part in it.
  unfoldable pub no_replication_output : List ℕ → Bool → Worker W → Worker W
  no_replication_output pkt result w = record w {
    ec_scheduler_batch = w.ec_scheduler_batch ++ pkt ∷ [];
  }

  -- The packet with the flow's headers, key and states in front.
  unfoldable pub replica_pkt : Setting W → FlowActor → List ℕ → List ℕ
  unfolding short_header le_bytes pack total_fs_size fill_up
  replica_pkt st x pkt =
      let states =
        short_header x.input_header
        ++ (short_header x.output_header
            ++ (le_bytes 16 x.flow_key ++ pack st.service_chain x.fs)) in
      fill_up (rep_offset + total_fs_size st.service_chain) st.fresh states ++ pkt

  unfoldable pub replication_output : Setting W → ℕ → List ℕ → Bool → Worker W → Option (Worker W)
  unfolding release_replica replica_pkt collect_pkt allocate_msg_id send_state
  replication_output st a pkt result w = do
    let x = w.actor a
    r ← w.control.reliables x.r
    let w0 = modify a (λ y. record y { replication_state = no_replica }) w
    let bytes = replica_pkt st x pkt
    let (msg_id, w2) = allocate_msg_id (collect_pkt pkt w)
    let h = header msg_id (w.allocator.actor_id a) coordinator_actor_id 5
    let sent = send_state st x.r h bytes w2
    if r.is_connection_up
        then if st.spare
          then sent >>= (λ (flag, w3). some (if flag then w3 else collect_pkt bytes w3))
          else none
        else release_replica x.r w0
          >>= (λ w1. some (record w1 { ec_scheduler_batch = w1.ec_scheduler_batch ++ pkt ∷ [] }))

  -- `replication_funcs_`
  unfoldable pub output : Setting W → ℕ → List ℕ → Bool → Worker W → Option (Worker W)
  unfolding no_replication_output replication_output
  output st a pkt result w =
      let s = (w.actor a).replication_state in
      if s == 0
      then some (no_replication_output pkt result w)
      else if s == 1
      then replication_output st a pkt result w
      else if s == 2
      then some (no_replication_output pkt result w)
      else none

  -- The packet and the flow's states after the chain, and its result.
  unfoldable pub run_chain : Setting W → ℕ → List ℕ → Worker W → Bool × List ℕ × Worker W
  unfolding run_nfs
  run_chain st a pkt w =
      let (result, pkt', fs, m) = run_nfs st.service_chain (w.actor a).fs pkt w.nf_memory in
      (result, pkt', modify a (λ x. record x { fs = fs }) (record w { nf_memory = m }))

  unfoldable pub pkt_normal_nf_processing : Setting W → ℕ → List ℕ → Worker W → Option (Worker W)
  unfolding run_chain output readdress
  pkt_normal_nf_processing st a pkt w =
      let (result, pkt', w') = run_chain st a pkt (count_pkt a w) in
      output st a (readdress (w'.actor a) pkt') result w'

  -- The packet waits for the flow states.
  unfoldable pub pkt_migration_target_processing : ℕ → List ℕ → Worker W → Worker W
  unfolding collect_pkt
  pkt_migration_target_processing a pkt w =
      let w' = count_pkt a w in
      if w.free_buffers == 0
      then record (collect_pkt pkt w') {
        migration_target_loss_counter = add64 w.migration_target_loss_counter 1;
      }
      else modify a (λ x. record x { buffer = x.buffer ++ pkt ∷ [] })
          (record w' { free_buffers = w.free_buffers - 1 })

  unfoldable pub pkt_process_after_route_change : List ℕ → Worker W → Worker W
  unfolding collect_pkt
  pkt_process_after_route_change pkt w =
      let c = (collect_pkt pkt w).control in
      let m = c.migration in
      let n = add64 m.migration_source_loss_counter 1 in
      set_control (record c { migration = record m { migration_source_loss_counter = n } }) w

  -- `funcs_`
  unfoldable pub by_state : Setting W → ℕ → List ℕ → Worker W → Option (Worker W)
  unfolding pkt_normal_nf_processing pkt_migration_target_processing pkt_process_after_route_change
  by_state st a pkt w =
      let s = (w.actor a).current_state in
      if s == 3
      then some (pkt_migration_target_processing a pkt w)
      else if s == 6
      then some (pkt_process_after_route_change pkt w)
      else if ltb s 6
      then pkt_normal_nf_processing st a pkt w
      else none

  -- `handle_message(pkt_msg_t, …)`. The actor for dead ends has no coordinator.
  unfoldable pub pkt_msg : Setting W → ℕ → List ℕ → Worker W → Option (Worker W)
  unfolding by_state
  pkt_msg st a pkt w = if (w.actor a).attached then by_state st a pkt w else none

  -- `handle_message(rep_fs_pkt_msg_t, …)`; `bytes` is the first packet of the batch.
  unfoldable pub rep_fs_pkt_msg : Setting W → ℕ → List ℕ → Worker W → Option (Worker W)
  unfolding total_fs_size unpack
  rep_fs_pkt_msg st a bytes w =
      let size = rep_offset + total_fs_size st.service_chain in
      let fs = unpack st.service_chain (w.actor a).fs (drop rep_offset bytes) in
      if (w.actor a).replication_state == is_replica
      then if st.spare
        then if ltb (length bytes) size
          then none
          else some (
              modify a (λ x. record x { fs = fs })
                (record (count_pkt a w) { gb = w.gb ++ (drop size bytes, 1) ∷ [] }))
        else none
      else some w
