-- ===== src/Examples/Runtime.antt =====
-- Flow actors, the coordinator and the packets' modules (runtime/actor, runtime/module) at a
-- concrete worker.
use nfvactor.Prelude.{
  ℕ, get_elem?, ◌/◌, ◌%◌, ◌≡◌, ◌≤◌, refl, true, false, Option, some, none, List, [], ◌∷◌, replicate,
  length, ◌++◌, arith, update, ◌==◌, if◌then◌else◌,
}
use nfvactor.Packet.{Packet, raw, rel, msg}
use nfvactor.Cdlist.{
  Links, cdlist_peek_first_item, cdlist_is_empty, cdlist_del, cdlist_unlink, cdlist_item_init,
  cdlist_add_tail, cdlist_add_between, cdlist_pop_head, cdlist_head_init,
}
use nfvactor.Timer.{ActorTimer, timeout_occur, invalidate, add_timer}
use nfvactor.Timer.Order.{Timers}
use nfvactor.Command.{Control}
use nfvactor.Actor.{
  FlowActor, FlowEtherHeader, NetworkFunction, Setting, Worker, collect_pkt, stop_migration_timer,
  add_active, allocate_msg_id, send_cstruct, put_reliable, add_migration_timer,
}
use nfvactor.Actor.Chain.{pack, unpack, fill_up}
use nfvactor.Actor.States.{unpack-sent}
use nfvactor.Coordinator.Counters.{accounted}
use nfvactor.Coordinator.Sound.{IsSound, waits}
use nfvactor.Coordinator.Sound.Running.{run_timers-IsSound, run_coordinator_mp-IsSound}
use nfvactor.Coordinator.Tasks.{
  CoordinatorMp, run_timers, timer_rounds, timer_at, trigger, run_coordinator_mp, migrate_rounds,
  migrate_round, start_first, count_started, recover_rounds, recover_round, report,
}
use nfvactor.Prelude.Bytes.{field, le_value, le_bytes}
use nfvactor.Packet.Garbage.{collect, collect_batch}
use nfvactor.Actor.Forward.{pkt_msg, by_state, pkt_process_after_route_change}
use nfvactor.Module.{
  schedule, split_batch, classify, by_protocol, data_rounds, control_rounds, data_round,
  flow_actor_of, control_round, take_control, received, handled, cleaned,
}
use nfvactor.Module.Key.{key_of_pkt, key_row, write_fields, write_field, overwrite}
use nfvactor.Module.KeyLaws.{key_of_pkt_injective, protocol, addresses, ports}
use nfvactor.Module.Send.{Sending, run_send_reliable_msg}
use nfvactor.Module.Send.Ends.{run_send_reliable_msg-ends}
use nfvactor.Module.Sound.{schedule-IsSound}
use nfvactor.Module.Batch.{GiantBatch, clear, add_all, get_pkt, get_gate}
use nfvactor.Module.Batch.Holds.{add_all-get}
use nfvactor.Examples.Control.{env, config, idle_control}
use nfvactor.SendQueue
use nfvactor.Conn
use nfvactor.Conn.{ReliableP2p}
use nfvactor.Message.{
  create_cstruct_sub_msg, format, format_from, format_round, tagged_round, clean,
}
use nfvactor.P2p.{
  recv, accept, join_message, deliver, formatted, reliable_send, add_to_reliable_send_list,
}
use nfvactor.Coordinator.Match.{match_msg, to_flow_actor, cstruct_bytes, packet_bytes}
use nfvactor.Actor.Header.{read_two_words}
use nfvactor.Actor.Migrate.{
  change_vswitch_route_response, migration_failed, count_failed, start_migration_timeout,
  start_migration,
}

-- A function that counts in its two bytes of state.
abbrev counter : NetworkFunction ℕ
counter = record {
  nf_state_size = 2;
  allocate = λ m. some (0 ∷ 0 ∷ [], m);
  deallocate = λ s m. m;
  nf_init_fs = λ s m. (0 ∷ 0 ∷ [], m);
  nf_logic = λ pkt s m. (true, pkt, 1 ∷ 0 ∷ [], m);
  nf_flow_arrive = λ s m. (s, m);
  nf_flow_leave = λ status s m. (s, m);
}

abbrev setting : ℕ → Setting ℕ
setting i = record {
  env = record env { now = 5 };
  spare = true;
  fresh = replicate 64 7;
  padding = 0;
  service_chain = counter ∷ [];
  idle_to_ns = 1000;
  req_to_ns = 1000;
}

abbrev still : ActorTimer
still = record { to_time = 0; request_msg_id = 0; msg_type = 0 }

abbrev ether : FlowEtherHeader
ether = record { dest_rtid = 1; d_addr = 2; s_addr = 3; ether_type = 8 }

-- A flow that is migrated in, and one that is migrated away and whose idle timer has run out.
abbrev arriving : FlowActor
arriving = record {
  attached = true;
  pkt_counter = 0;
  sample_counter = 0;
  flow_key = 9;
  input_header = ether;
  output_header = ether;
  fs = (0 ∷ 0 ∷ []) ∷ [];
  idle_timer = still;
  migration_timer = still;
  replication_timer = still;
  migration_target_actor_id = 0;
  current_state = 3;
  buffer = [];
  replication_state = 0;
  r = 0;
}

abbrev leaving : FlowActor
leaving = record arriving {
  current_state = 2;
  idle_timer = record { to_time = 3; request_msg_id = 1; msg_type = 3 };
  migration_timer = record { to_time = 900; request_msg_id = 2; msg_type = 7 };
}

abbrev worker : FlowActor → Links → Control → Worker ℕ
worker x links control = record {
  links = links;
  actor = λ a. x;
  allocator = record {
    max_actors = 1;
    next_flow_actor_id = 3;
    ring_buf = record { head_pos = 0; tail_pos = 0; cur_size = 0; max_size = 1; ring_buf = 0 ∷ [] };
    actor_id = λ a. 2;
  };
  htable = λ k. some 0;
  actorid_htable = λ k. none;
  deadend_flow_actor = 9;
  nf_memory = 0;
  control = control;
  default_output_mac = 0;
  ec_scheduler_batch = [];
  gb = [];
  free_buffers = 1;
  migration_target_loss_counter = 0;
  migration_target_buffer_size_counter = 0;
  migrated_in_flow_num = 0;
  out_going_recovery = 0;
  current_recovery_iteration_end_time = 0;
}

-- Every list is empty.
abbrev unlinked : Links
unlinked = record { next = λ p. p; prev = λ p. p }

abbrev result : Worker ℕ → Option (Worker ℕ) → Worker ℕ
result w none = w
result w (some v) = v

-- Forty-two bytes: an IPv4 packet of TCP.
abbrev frame : ℕ → List ℕ
frame last = replicate 14 0 ++ (0x45 ∷ replicate 8 0) ++ (6 ∷ replicate 17 0) ++ (last ∷ [])

-- One migration is out, and each flow waits for an answer to message 2.
abbrev migrating : Control
migrating = record idle_control {
  next_msg_id = 5;
  migration = record idle_control.migration {
    outgoing_migrations = 1;
    total_passive_migration = 1;
  };
}

-- The connection to runtime 2.
abbrev peer : ReliableP2p
peer =
    Conn.init env.net 1 2 1 2 2 config (SendQueue.init env.net 1 2 env.ring env.times) env.blank 0

-- The answer to message 2: the route cannot be changed.
abbrev no_route : Packet
no_route =
    rel (record peer.ack_header { seq_num = 1; magic_num = 0 })
    ∷ msg (record {
      send_actor_id = 1;
      recv_actor_id = 2;
      msg_id = 0;
      msg_type = 10;
      msg_pkt_num = 1;
    })
    ∷ create_cstruct_sub_msg (2 ∷ 0 ∷ 0 ∷ 0 ∷ 1 ∷ 0 ∷ 0 ∷ 0 ∷ [])

-- A packet of the flow comes, and the answer.
abbrev batch : List Packet
batch = (raw (frame 1) ∷ []) ∷ no_route ∷ []

abbrev asked : Worker ℕ
asked =
    record (worker (record leaving { current_state = 6 }) unlinked
      (record migrating { reliables = λ i. some peer; mac_to_reliables = λ i. some (some 2) })) {
        actorid_htable = λ k. some 0;
      }

asked-IsSound : IsSound 4 1 asked
unfolding waits accounted
asked-IsSound = record {
  all_wait = λ b. refl;
  started = omega arith;
  ids_left = omega arith;
  sum = refl;
}

schedule-IsSound_example : IsSound 0 1 (result asked (schedule setting setting batch asked))
unfolding schedule split_batch classify by_protocol field le_value data_rounds control_rounds
    data_round flow_actor_of pkt_msg by_state pkt_process_after_route_change collect_pkt collect
    control_round take_control recv accept join_message deliver formatted format format_from
    format_round tagged_round received handled cleaned clean match_msg to_flow_actor cstruct_bytes
    packet_bytes read_two_words change_vswitch_route_response stop_migration_timer invalidate
    migration_failed add_active count_failed collect_batch Conn.init
schedule-IsSound_example = schedule-IsSound 0 1 setting setting batch asked asked-IsSound refl

-- The list of requests holds the migration timer of actor 0.
abbrev one_request : Links
one_request = record {
  next = λ p. if p == 2 then 10 else if p == 10 then 2 else p;
  prev = λ p. if p == 2 then 10 else if p == 10 then 2 else p;
}

-- No answer to message 2 came in time.
abbrev overdue : Worker ℕ
overdue =
    worker
      (record leaving {
        migration_timer = record { to_time = 3; request_msg_id = 2; msg_type = 7 };
      })
      one_request migrating

overdue-IsSound : IsSound 128 1 overdue
unfolding waits accounted
overdue-IsSound = record {
  all_wait = λ b. refl;
  started = omega arith;
  ids_left = omega arith;
  sum = refl;
}

run_timers-IsSound_example : IsSound 0 1 (result overdue (run_timers setting setting overdue))
unfolding run_timers timer_rounds timer_at timeout_occur cdlist_peek_first_item cdlist_is_empty
    trigger start_migration_timeout stop_migration_timer invalidate cdlist_del cdlist_unlink
    cdlist_item_init migration_failed add_active count_failed cdlist_add_tail cdlist_add_between
run_timers-IsSound_example = run_timers-IsSound 0 1 setting setting overdue overdue-IsSound refl

abbrev set_timer : ℕ → ActorTimer
set_timer time = record { to_time = time; request_msg_id = 1; msg_type = 3 }

-- A list of timers: two are added, one after the other, and the first is invalidated.
abbrev two_held : Timers
two_held = record {
  now = 20;
  held = 9 ∷ 17 ∷ [];
  timer_at = update (update (λ i. still) 9 (set_timer 105)) 17 (set_timer 120);
  links = cdlist_add_tail 1 17 (cdlist_add_tail 1 9 (cdlist_head_init 1 unlinked));
}

abbrev one_left : Timers
one_left = record two_held {
  held = 17 ∷ [];
  timer_at = update two_held.timer_at 9 (record (set_timer 105) { request_msg_id = 0 });
  links = cdlist_del 9 two_held.links;
}

-- The list of active flows holds actor 0.
abbrev one_active : Links
one_active = record {
  next = λ p. if p == 0 then 8 else if p == 8 then 0 else p;
  prev = λ p. if p == 0 then 8 else if p == 8 then 0 else p;
}

-- A quota of one migration, and one active flow.
abbrev ordered : Worker ℕ
ordered =
    worker (record arriving { current_state = 0 }) one_active
      (record idle_control {
        reliables = λ i. some peer;
        migration = record idle_control.migration {
          migration_qouta = 1;
          total_passive_migration = 1;
        };
      })

ordered-IsSound : IsSound 128 1 ordered
unfolding waits accounted
ordered-IsSound = record {
  all_wait = λ b. refl;
  started = omega arith;
  ids_left = omega arith;
  sum = refl;
}

abbrev task : CoordinatorMp
task = record { current_iteration = 0; send_end_flag = false; local_replication_iteration = 0 }

abbrev worker_of : Option (CoordinatorMp × Worker ℕ) → Worker ℕ
worker_of none = ordered
worker_of (some (mp, w)) = w

run_coordinator_mp-IsSound_example :
    IsSound 0 1 (worker_of (run_coordinator_mp setting setting task ordered))
unfolding run_coordinator_mp migrate_rounds migrate_round start_first count_started cdlist_pop_head
    cdlist_is_empty cdlist_del cdlist_unlink cdlist_item_init start_migration allocate_msg_id
    send_cstruct reliable_send put_reliable add_migration_timer add_timer cdlist_add_tail
    cdlist_add_between add_to_reliable_send_list recover_rounds recover_round report Conn.init
    SendQueue.peek_remaining_size SendQueue.init
run_coordinator_mp-IsSound_example =
    run_coordinator_mp-IsSound 0 1 setting setting task ordered ordered-IsSound refl

abbrev chain : List (NetworkFunction ℕ)
chain = counter ∷ []

abbrev states : List (List ℕ)
states = (3 ∷ 1 ∷ []) ∷ []

abbrev fresh_states : List (List ℕ)
fresh_states = (0 ∷ 0 ∷ []) ∷ []

unpack-sent_example :
    unpack chain fresh_states (fill_up 2 (replicate 64 7) (pack chain states)) ≡ states
unpack-sent_example = unpack-sent chain states fresh_states 2 (replicate 64 7) (refl, tt) (refl, tt)

-- The bytes that differ are behind the ports.
key_of_pkt_injective_example :
    (protocol (frame 1) ≡ protocol (frame 2))
    × (addresses (frame 1) ≡ addresses (frame 2))
    × (ports (frame 1) ≡ ports (frame 2))
unfolding key_of_pkt key_row write_fields write_field overwrite le_bytes field le_value
key_of_pkt_injective_example = key_of_pkt_injective (frame 1) (frame 2) refl

abbrev all_copies : ℕ → ℕ
all_copies n = 32

-- A connection that is gone has two packets in the list.
abbrev busy : Control
busy = record idle_control {
  shared = record idle_control.shared {
    reliable_send_list = record { pkt_num = 2; reliable_rtid = 3; output_gate = 1 } ∷ [];
  };
}

run_send_reliable_msg-ends_example :
    (out : Sending) × (run_send_reliable_msg 0 all_copies busy ≡ some out) × (length out.batch ≤ 32)
run_send_reliable_msg-ends_example = run_send_reliable_msg-ends 0 all_copies busy

abbrev three_pkts : List (ℕ × ℕ)
three_pkts = (10, 1) ∷ (11, 2) ∷ (12, 1) ∷ []

abbrev used_batch : GiantBatch ℕ
used_batch = record {
  batches = λ p. record { cnt = 7; pkts = λ i. some p };
  gates = λ i. 4;
  batch_pos = 2;
  gate_pos = 71;
}

add_all-get_example :
    (g' : GiantBatch ℕ) × (add_all three_pkts (clear used_batch) ≡ some g')
    × ((i : ℕ) (x : ℕ) (gate : ℕ)
        → get_elem? three_pkts i ≡ some (x, gate)
        → (get_pkt (i / 32) (i % 32) g' ≡ some x) × (get_gate (i / 32) (i % 32) g' ≡ gate))
add_all-get_example = add_all-get three_pkts used_batch (omega arith)
