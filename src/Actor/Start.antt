-- ===== src/Actor/Start.antt =====
-- The init handlers of runtime/actor/flow_actor.cc: for a flow's first packet, for a flow that is
-- migrated in, and for the first packet of a flow that is replicated here.
use nfvactor.Prelude.{
  ℕ, Bool, true, false, Option, none, some, List, [], ◌∷◌, ◌++◌, ◌>>=◌, if◌then◌else◌, ltb, length,
}
use nfvactor.Prelude.Bytes.{field}
use nfvactor.Command.{Control, inc_ref}
use nfvactor.Actor.{
  FlowEtherHeader, Setting, Worker, modify, set_control, header_init, add_idle_timer,
  normal_processing, migration_target, no_replica, have_replica, is_replica,
}
use nfvactor.Actor.Chain.{allocate_states}
use nfvactor.Actor.Header.{CreateTarget}

-- `round_rubin_list::rotate`: the first item, which goes to the end.
unfoldable pub rotate {ℓ} : {A : Type ℓ} → List A → Option A × List A
rotate [] = (none, [])
rotate (x ∷ l) = (some x, l ++ x ∷ [])

-- The runtime id behind an entry of `mac_to_reliables_`, 0 if there is none.
unfoldable pub rtid_of_mac : ℕ → Control → Option ℕ
rtid_of_mac mac c = elim (c.mac_to_reliables mac) [
  | none ↦ some 0
  | some p ↦ do id ← p; r ← c.reliables id; some r.remote_rt_config.runtime_id
]

module _ {W : Type 0} where
  -- The part that the three handlers end with.
  unfoldable pub start_states : Setting W → Bool → ℕ → Worker W → Option (Worker W)
  unfolding allocate_states add_idle_timer
  start_states st init a w = do
    let (fs, m) = allocate_states init st.service_chain [] [] w.nf_memory
    w' ← add_idle_timer st a (modify a (λ x. record x { fs = fs }) (record w { nf_memory = m }))
    some (modify a (λ x. record x { buffer = [] }) w')

  -- The fields that they set at first.
  abbrev pub begin : ℕ → ℕ → ℕ → Worker W → Worker W
  begin state key = λ a. modify a (λ x. record x {
    attached = true;
    pkt_counter = 0;
    sample_counter = 0;
    flow_key = key;
    current_state = state;
  })

  unfoldable pub set_replication : ℕ → ℕ → Worker W → Worker W
  set_replication state a w = modify a (λ x. record x { replication_state = state }) w

  unfoldable pub set_input : FlowEtherHeader → ℕ → Worker W → Worker W
  set_input h a w = modify a (λ x. record x { input_header = h }) w

  -- `replica_item`, if there is one, is the runtime to replicate to.
  unfoldable pub choose_replica : Option ℕ → ℕ → Worker W → Option (Worker W)
  unfolding inc_ref set_replication
  choose_replica none a w = some (set_replication no_replica a w)
  choose_replica (some rtid) a w = do
    c ← inc_ref rtid w.control
    some (modify a (λ x. record x { replication_state = have_replica; r = rtid }) (set_control c w))

  -- Where the flow's packets go: the next of the output runtimes.
  unfoldable pub choose_output : ℕ → Worker W → Worker W
  unfolding rotate header_init
  choose_output a w =
      let (first, l) = rotate w.control.output_runtime_macs in
      let src = w.control.local_runtime.output_port_mac in
      let h : FlowEtherHeader = elim first [
        | none ↦ header_init 0 w.default_output_mac src
        | some i ↦ header_init i.dst_rtid i.dst_mac_addr src
      ] in
      modify a (λ x. record x { output_header = h })
        (set_control (record w.control { output_runtime_macs = l }) w)

  -- The part behind the choice of a replica.
  unfoldable pub open_flow : Setting W → List ℕ → ℕ → Worker W → Option (Worker W)
  unfolding start_states choose_output set_input rtid_of_mac header_init field
  open_flow st first_packet a w = do
    let mac = field first_packet 6 6
    rtid ← rtid_of_mac mac w.control
    let h = header_init rtid mac w.control.local_runtime.input_port_mac
    start_states st true a (choose_output a (set_input h a w))

  unfoldable pub init_with_pkt :
      Setting W → ℕ → List ℕ → Option ℕ → ℕ → Worker W → Option (Worker W)
  unfolding choose_replica open_flow
  init_with_pkt st key first_packet replica a w =
      choose_replica replica a (begin normal_processing key a w) >>= open_flow st first_packet a

  -- The headers, with the addresses of the runtime's own ports as sources.
  unfoldable pub set_headers : ℕ → ℕ → ℕ → ℕ → ℕ → Worker W → Worker W
  unfolding header_init
  set_headers input_id input_mac output_id output_mac a w =
      let c = w.control.local_runtime in
      modify a
        (λ x. record x {
          input_header = header_init input_id input_mac c.input_port_mac;
          output_header = header_init output_id output_mac c.output_port_mac;
        })
        w

  unfoldable pub init_with_cstruct : Setting W → CreateTarget → ℕ → Worker W → Option (Worker W)
  unfolding start_states set_replication set_headers
  init_with_cstruct st c a w =
      let w' = set_replication no_replica a (begin migration_target c.flow_key a w) in
      start_states st true a
        (set_headers c.input_rtid c.input_d_addr c.output_rtid c.output_d_addr a w')

  -- The states are left as the pools hand them out: the packet brings them.
  unfoldable pub init_with_first_rep_pkt : Setting W → ℕ → List ℕ → ℕ → Worker W → Option (Worker W)
  unfolding start_states set_replication set_headers field
  init_with_first_rep_pkt st key bytes a w =
      if ltb (length bytes) 20
      then none
      else let w' = set_replication is_replica a (begin normal_processing key a w) in
        start_states st false a (
          set_headers (field bytes 0 4) (field bytes 4 6) (field bytes 10 4) (field bytes 14 6) a
            w')
