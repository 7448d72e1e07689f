-- ===== src/Actor.antt =====
-- runtime/actor/flow_actor.h and flow_actor.cc: a flow actor carries one flow through the chain of
-- network functions, migrates it to another runtime and takes over flows that come in. What an
-- actor reaches of the coordinator (runtime/actor/coordinator_public_field.h) is a `Worker`.
-- `none` stands for a null pointer that is followed, an assertion that fails, or a read of bytes
-- that are not there.
pub mod Chain
pub mod Header
pub mod Start
pub mod Forward
pub mod Idle
pub mod Migrate
pub mod Arrive
pub mod Recover
pub mod States
use nfvactor.Prelude.{
  ℕ, zero, suc, ◌+◌, ◌-◌, ◌*◌, ◌/◌, ◌%◌, ◌^◌, Bool, true, false, Option, none, some, List, [], ◌∷◌,
  ◌++◌, ◌==◌, ◌>>=◌, if◌then◌else◌, update,
}
use nfvactor.Cdlist.{Links, cdlist_add_tail}
use nfvactor.Timer
use nfvactor.Timer.{ActorTimer}
use nfvactor.Nf.{FlowLeaveStatus}
use nfvactor.Pool.{FlowActorAllocator}
use nfvactor.Packet.{Packet, raw, MessageHeader}
use nfvactor.Packet.Garbage.{collect}
use nfvactor.Conn.{ReliableP2p, Shared, add64}
use nfvactor.P2p.{reliable_send, reliable_send_batch}
use nfvactor.Command.{Control, Env, Migration, set_migration}

-- `struct flow_ether_header`
pub record FlowEtherHeader : Type 0 where
  pub dest_rtid : ℕ
  pub d_addr : ℕ
  pub s_addr : ℕ
  pub ether_type : ℕ

-- `init`: the parameters are cut to the widths of the fields.
unfoldable pub header_init : ℕ → ℕ → ℕ → FlowEtherHeader
header_init rtid dest_mac src_mac = record {
  dest_rtid = rtid % 2 ^ 32;
  d_addr = dest_mac % 2 ^ 48;
  s_addr = src_mac % 2 ^ 48;
  ether_type = 0x0008;
}

-- The flow actor's states, and its states as a replica.
abbrev pub normal_processing : ℕ
normal_processing = 1

abbrev pub migration_source : ℕ
migration_source = 2

abbrev pub migration_target : ℕ
migration_target = 3

abbrev pub migration_failure_processing : ℕ
migration_failure_processing = 4

abbrev pub migration_source_after_route_change : ℕ
migration_source_after_route_change = 6

abbrev pub no_replica : ℕ
no_replica = 0

abbrev pub have_replica : ℕ
have_replica = 1

abbrev pub is_replica : ℕ
is_replica = 2

-- `class flow_actor`. A flow key is its sixteen bytes as a number. `fs` holds the bytes of each
-- flow state, one for each of the first `service_chain_length_` functions of the chain; `buffer`
-- the packets of `buffer_head_`; `r` the runtime id of the connection. `attached` tells that
-- `coordinator_actor_` has been set.
pub record FlowActor : Type 0 where
  pub attached : Bool
  pub pkt_counter : ℕ
  pub sample_counter : ℕ
  pub flow_key : ℕ
  pub input_header : FlowEtherHeader
  pub output_header : FlowEtherHeader
  pub fs : List (List ℕ)
  pub idle_timer : ActorTimer
  pub migration_timer : ActorTimer
  pub replication_timer : ActorTimer
  pub migration_target_actor_id : ℕ
  pub current_state : ℕ
  pub buffer : List (List ℕ)
  pub replication_state : ℕ
  pub r : ℕ

-- What the coordinator's network functions have in common (runtime/nf/base/network_function_base.h
-- and its virtual functions); `W` is what they keep beside the flow states. A flow state is the
-- bytes behind its pointer: a pool hands out memory with what stands in it, and takes it back.
pub record NetworkFunction (W : Type 0) : Type 0 where
  pub nf_state_size : ℕ
  pub allocate : W → Option (List ℕ × W)
  pub deallocate : List ℕ → W → W
  pub nf_init_fs : List ℕ → W → List ℕ × W
  pub nf_logic : List ℕ → List ℕ → W → Bool × List ℕ × List ℕ × W
  pub nf_flow_arrive : List ℕ → W → List ℕ × W
  pub nf_flow_leave : FlowLeaveStatus → List ℕ → W → List ℕ × W

-- What a step finds outside the worker's memory: what a command finds too, whether
-- `bess::Packet::Alloc` finds a packet, the bytes that stand in it, padding, and the settings.
pub record Setting (W : Type 0) : Type 0 where
  pub env : Env
  pub spare : Bool
  pub fresh : List ℕ
  pub padding : ℕ
  pub service_chain : List (NetworkFunction W)
  pub idle_to_ns : ℕ
  pub req_to_ns : ℕ

-- The coordinator's memory that handlers work on. Flow actors are numbered as in the pool. `links`
-- threads them and their timers: see the addresses below. `control` is what commands work on too;
-- of a list of replicated flows, it tells that there is one, and the list is in `links`.
pub record Worker (W : Type 0) : Type 0 where
  pub links : Links
  pub actor : ℕ → FlowActor
  pub allocator : FlowActorAllocator
  pub htable : ℕ → Option ℕ
  pub actorid_htable : ℕ → Option ℕ
  pub deadend_flow_actor : ℕ
  pub nf_memory : W
  pub control : Control
  pub default_output_mac : ℕ
  pub ec_scheduler_batch : List (List ℕ)
  pub gb : List (List ℕ × ℕ)
  pub free_buffers : ℕ
  pub migration_target_loss_counter : ℕ
  pub migration_target_buffer_size_counter : ℕ
  pub migrated_in_flow_num : ℕ
  pub out_going_recovery : ℕ
  pub current_recovery_iteration_end_time : ℕ

-- Addresses: the three heads, and of each actor its item and its timers' items.
abbrev pub active_head : ℕ
active_head = 0

abbrev pub idle_head : ℕ
idle_head = 1

abbrev pub req_head : ℕ
req_head = 2

abbrev pub list_item : ℕ → ℕ
list_item a = 8 * a + 8

abbrev pub idle_item : ℕ → ℕ
idle_item a = 8 * a + 9

abbrev pub migration_item : ℕ → ℕ
migration_item a = 8 * a + 10

abbrev pub replication_item : ℕ → ℕ
replication_item a = 8 * a + 11

-- The head of the list of the flows that a runtime replicates here.
abbrev pub replica_head : ℕ → ℕ
replica_head rtid = 8 * rtid + 12

-- The actor that an item belongs to.
abbrev pub owner : ℕ → ℕ
owner item = (item - 8) / 8

-- A packet as the garbage collector holds it.
abbrev pub packet : List ℕ → Packet
packet bytes = raw bytes ∷ []

module _ {W : Type 0} where
  abbrev pub modify : ℕ → (FlowActor → FlowActor) → Worker W → Worker W
  modify a f w = record w { actor = update w.actor a (f (w.actor a)) }

  abbrev pub set_control : Control → Worker W → Worker W
  set_control c w = record w { control = c }

  abbrev pub set_state : ℕ → ℕ → Worker W → Worker W
  set_state s = λ a. modify a (λ x. record x { current_state = s })

  -- `active_flows_rrlist_.add_to_tail`
  unfoldable pub add_active : ℕ → Worker W → Worker W
  unfolding cdlist_add_tail
  add_active a w = record w { links = cdlist_add_tail active_head (list_item a) w.links }

  unfoldable pub collect_pkt : List ℕ → Worker W → Worker W
  collect_pkt bytes w =
      let s = w.control.shared in
      let s' = record s { gp_collector = collect (packet bytes) s.gp_collector } in
      set_control (record w.control { shared = s' }) w

  -- A timer runs, or stops.
  unfoldable pub add_idle_timer : Setting W → ℕ → Worker W → Option (Worker W)
  unfolding Timer.add_timer
  add_idle_timer st a w = do
    let x = w.actor a
    (t, m) ←
        Timer.add_timer idle_head st.idle_to_ns (idle_item a) st.env.now Timer.idle_message_id 3
          (x.idle_timer, w.links)
    some (modify a (λ y. record y { idle_timer = t }) (record w { links = m }))

  -- On the list `head`, which times out after `to_ns`.
  unfoldable pub add_migration_timer : Setting W → ℕ → ℕ → ℕ → ℕ → ℕ → Worker W → Option (Worker W)
  unfolding Timer.add_timer
  add_migration_timer st head to_ns msg_id msg_type a w = do
    let x = w.actor a
    (t, m) ←
        Timer.add_timer head to_ns (migration_item a) st.env.now msg_id msg_type
          (x.migration_timer, w.links)
    some (modify a (λ y. record y { migration_timer = t }) (record w { links = m }))

  unfoldable pub add_replication_timer : Setting W → ℕ → ℕ → Worker W → Option (Worker W)
  unfolding Timer.add_timer
  add_replication_timer st msg_id a w = do
    let x = w.actor a
    (t, m) ←
        Timer.add_timer req_head st.req_to_ns (replication_item a) st.env.now msg_id 14
          (x.replication_timer, w.links)
    some (modify a (λ y. record y { replication_timer = t }) (record w { links = m }))

  unfoldable pub stop_idle_timer : ℕ → Worker W → Worker W
  unfolding Timer.invalidate
  stop_idle_timer a w =
      let (t, m) = Timer.invalidate (idle_item a) ((w.actor a).idle_timer, w.links) in
      modify a (λ y. record y { idle_timer = t }) (record w { links = m })

  unfoldable pub stop_migration_timer : ℕ → Worker W → Worker W
  unfolding Timer.invalidate
  stop_migration_timer a w =
      let (t, m) = Timer.invalidate (migration_item a) ((w.actor a).migration_timer, w.links) in
      modify a (λ y. record y { migration_timer = t }) (record w { links = m })

  unfoldable pub stop_replication_timer : ℕ → Worker W → Worker W
  unfolding Timer.invalidate
  stop_replication_timer a w =
      let (t, m) = Timer.invalidate (replication_item a) ((w.actor a).replication_timer, w.links) in
      modify a (λ y. record y { replication_timer = t }) (record w { links = m })

  -- `coordinator::allocate_msg_id`
  unfoldable pub allocate_msg_id : Worker W → ℕ × Worker W
  allocate_msg_id w =
      let c = w.control in
      (c.next_msg_id, set_control (record c { next_msg_id = (c.next_msg_id + 1) % 2 ^ 32 }) w)

  unfoldable pub put_reliable : ℕ → Worker W → Bool × ReliableP2p × Shared → Bool × Worker W
  put_reliable rtid w (flag, r, s) =
      let c = w.control in
      (flag, set_control (record c { reliables = update c.reliables rtid (some r); shared = s }) w)

  -- `reliables_.find(rtid)->reliable_send(…)` of a structure's bytes.
  unfoldable pub send_cstruct :
      Setting W → ℕ → MessageHeader → List ℕ → Worker W → Option (Bool × Worker W)
  unfolding reliable_send put_reliable
  send_cstruct st rtid h bytes w = do
    r ← w.control.reliables rtid
    out ← reliable_send st.env.net h bytes st.env.alloc r w.control.shared
    some (put_reliable rtid w out)

  -- The same of a batch of one packet.
  unfoldable pub send_state :
      Setting W → ℕ → MessageHeader → List ℕ → Worker W → Option (Bool × Worker W)
  unfolding reliable_send_batch put_reliable
  send_state st rtid h bytes w = do
    r ← w.control.reliables rtid
    out ← reliable_send_batch st.env.net h (packet bytes ∷ []) r w.control.shared
    some (put_reliable rtid w out)

-- A message's header; `reliable_send` sets the number of packets.
abbrev pub header : ℕ → ℕ → ℕ → ℕ → MessageHeader
header msg_id send_actor_id recv_actor_id msg_type = record {
  send_actor_id = send_actor_id;
  recv_actor_id = recv_actor_id;
  msg_id = msg_id;
  msg_type = msg_type;
  msg_pkt_num = 1;
}
