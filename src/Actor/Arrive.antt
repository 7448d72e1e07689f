-- ===== src/Actor/Arrive.antt =====
-- `handle_message(migrate_flow_state_t, …)` of runtime/actor/flow_actor.cc: the flow states arrive
-- at the target, which then lets the packets that waited go through the chain.
use nfvactor.Prelude.{
  ℕ, ◌+◌, Option, none, some, List, [], ◌∷◌, ◌++◌, ◌>>=◌, if◌then◌else◌, ltb, length,
}
use nfvactor.Prelude.Bytes.{le_bytes}
use nfvactor.Conn.{add64}
use nfvactor.Actor.{
  Setting, Worker, modify, set_state, collect_pkt, add_active, allocate_msg_id, send_cstruct,
  header, normal_processing,
}
use nfvactor.Actor.Chain.{unpack, arrive_all, states_size}
use nfvactor.Actor.Forward.{count_pkt, run_chain, readdress}

module _ {W : Type 0} where
  -- A packet that waited; here the chain's result is obeyed.
  unfoldable pub release_pkt : Setting W → ℕ → List ℕ → Worker W → Worker W
  unfolding run_chain readdress collect_pkt
  release_pkt st a pkt w =
      let (result, pkt', w1) = run_chain st a pkt w in
      let out = readdress (w1.actor a) pkt' in
      let w2 = if result then record w1 { gb = w1.gb ++ (out, 1) ∷ [] } else collect_pkt pkt' w1 in
      record (count_pkt a w2) {
        migration_target_buffer_size_counter = add64 w.migration_target_buffer_size_counter 1;
        free_buffers = w.free_buffers + 1;
      }

  -- The loop over the packets that waited.
  unfoldable pub release_buffer : Setting W → ℕ → List (List ℕ) → Worker W → Worker W
  unfolding release_pkt
  release_buffer st a [] w = w
  release_buffer st a (pkt ∷ l) w = release_buffer st a l (release_pkt st a pkt w)

  -- The states are read from the packet, and each function is told.
  unfoldable pub load_states : Setting W → ℕ → List ℕ → Worker W → Worker W
  unfolding unpack arrive_all
  load_states st a bytes w =
      let chain = st.service_chain in
      let (fs, m) = arrive_all chain (unpack chain (w.actor a).fs bytes) w.nf_memory in
      modify a (λ x. record x { fs = fs }) (record w { nf_memory = m })

  -- The actor is the flow's now: it is added to the active flows, although it is there already.
  unfoldable pub begin_flow : ℕ → Worker W → Worker W
  unfolding add_active
  begin_flow a w =
      let w1 = add_active a (set_state normal_processing a w) in
      modify a (λ x. record x { buffer = [] })
        (record w1 { migrated_in_flow_num = add64 w1.migrated_in_flow_num 1 })

  unfoldable pub take_over : Setting W → ℕ → Worker W → Worker W
  unfolding begin_flow release_buffer
  take_over st a w = release_buffer st a (w.actor a).buffer (begin_flow a w)

  -- The states are loaded and the source is told.
  unfoldable pub acknowledge : Setting W → ℕ → ℕ → ℕ → List ℕ → ℕ → Worker W → Option (Worker W)
  unfolding load_states allocate_msg_id send_cstruct le_bytes
  acknowledge st sender_rtid sender_actor_id request_msg_id bytes a w = do
    let (msg_id, w1) = allocate_msg_id (load_states st a bytes w)
    let h = header msg_id (w.allocator.actor_id a) sender_actor_id 13
    (flag, w2) ← send_cstruct st sender_rtid h (le_bytes 4 request_msg_id) w1
    some w2

  unfoldable pub migrate_flow_state :
      Setting W → ℕ → ℕ → ℕ → List ℕ → ℕ → Worker W → Option (Worker W)
  unfolding acknowledge take_over states_size
  migrate_flow_state st sender_rtid sender_actor_id request_msg_id bytes a w =
      if (w.actor a).attached
      then if ltb (length bytes) (states_size st.service_chain (w.actor a).fs)
        then none
        else acknowledge st sender_rtid sender_actor_id request_msg_id bytes a w
          >>= (λ w'. some (take_over st a w'))
      else none
