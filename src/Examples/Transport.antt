-- ===== src/Examples/Transport.antt =====
-- The transport (runtime/reliable) at concrete queues, packets and runs.
use nfvactor.Prelude.{
  ℕ, ◌+◌, ◌-◌, ◌<◌, ◌≤◌, ◌≡◌, refl, Bool, true, false, Option, some, none, List, [], ◌∷◌, ◌++◌,
  length, take, arith, drop,
}
use Prim.Native.Nat.{min}
use nfvactor.Packet.{Dpdk, Packet, msg, raw, tag, num, binary_flow_state_tag}
use nfvactor.Packet.Garbage.{Garbage, collected}
use nfvactor.SendQueue
use nfvactor.SendQueue.{
  SendQueue, push, push_batch, pop, reset, get_window_batch, reset_window_pos, capacity,
}
use nfvactor.SendQueue.Inv.{IsHolding, init-IsHolding}
use nfvactor.SendQueue.Push.{push-IsHolding}
use nfvactor.SendQueue.Pop.{queued, pop-IsHolding}
use nfvactor.SendQueue.Window.{Sends, get_window_batch-Sends}
use nfvactor.SendQueue.Reset.{reset-IsHolding}
use nfvactor.Message.{
  SingleMsg, format, encode_binary_fs_sub_msg, create_packet_sub_msg, cutting_thresh,
}
use nfvactor.Message.RoundTrip.{with_flow_state, data_bytes, format-flow_state_packet}
use nfvactor.Conn
use nfvactor.Conn.{ReliableP2p, Shared, RuntimeConfig}
use mathlib.Core.List.{Memᴰ}
use nfvactor.P2p.{recv}
use nfvactor.P2p.Assembly.{IsAssembled}
use nfvactor.Protocol.{Net, queue_of, started, Reach, here, next, push_one, send_window, receive}
use nfvactor.Protocol.Inv.{IsUp}
use nfvactor.Protocol.Reachable.{accepted_in_order, freed_after_accepted, pop_never_fails}

abbrev dpdk : Dpdk
dpdk = record { rte_ipv4_cksum = λ h. 0; rte_cpu_to_be_16 = λ n. n }

abbrev fresh : SendQueue
fresh = SendQueue.init dpdk 1 2 (λ i. []) (λ i. 0)

abbrev body : Packet
body = raw (7 ∷ []) ∷ []

abbrev one : SendQueue
one = (push dpdk body fresh).1

fresh-IsHolding : IsHolding fresh []
fresh-IsHolding = init-IsHolding dpdk 1 2 (λ i. []) (λ i. 0)

fresh_sizes : (fresh.cur_size ≡ 0) × (fresh.next_seq_num ≡ 1)
unfolding SendQueue.init
fresh_sizes = (refl, refl)

one_sizes : (one.head_seq_num ≡ 1) × (one.next_seq_num ≡ 2) × (one.cur_size ≡ 1)
unfolding SendQueue.init push
one_sizes = (refl, refl, refl)

push-IsHolding_example :
    ((push dpdk body fresh).0 ≡ true) × IsHolding (push dpdk body fresh).1 (body ∷ [])
push-IsHolding_example =
    push-IsHolding dpdk body fresh [] fresh-IsHolding (omega (arith, fresh_sizes))
      (omega (arith, fresh_sizes))

one-IsHolding : IsHolding one (body ∷ [])
one-IsHolding =
    (push-IsHolding dpdk body fresh [] fresh-IsHolding (omega (arith, fresh_sizes))
      (omega (arith, fresh_sizes))).1

abbrev no_garbage : Garbage
no_garbage = record { garbage_pkt_batch = []; freed = [] }

pop-IsHolding_example :
    (r : SendQueue × Garbage) × (pop 2 50 one no_garbage ≡ some r)
    × IsHolding r.0 (body ∷ [])
    × (r.0.head_seq_num ≡ 2)
    × (r.0.cur_size ≡ one.next_seq_num - 2)
    × (collected r.1 ≡ collected no_garbage ++ queued one 0 (2 - one.head_seq_num))
pop-IsHolding_example =
    pop-IsHolding one (body ∷ []) no_garbage 2 50 one-IsHolding (omega arith)
      (omega (arith, one_sizes), omega (arith, one_sizes))

get_window_batch-Sends_example :
    let (batch, q') = get_window_batch 32 50 32 one in
    Sends (body ∷ []) one.window_pos_seq_num batch
    × (length batch ≡ min (min 32 one.pending_send_num) 32)
    × (q'.window_pos_seq_num ≡ one.window_pos_seq_num + length batch)
    × IsHolding q' (body ∷ [])
get_window_batch-Sends_example = get_window_batch-Sends one (body ∷ []) 32 50 32 one-IsHolding

reset-IsHolding_example :
    let (q', g') = reset one no_garbage in
    IsHolding q' [] × (collected g' ≡ collected no_garbage ++ queued one 0 one.cur_size)
reset-IsHolding_example = reset-IsHolding one (body ∷ []) no_garbage one-IsHolding (omega arith)

abbrev blank : SingleMsg
blank = record {
  send_runtime_id = 0;
  rmh = record { send_actor_id = 0; recv_actor_id = 0; msg_id = 0; msg_type = 0; msg_pkt_num = 0 };
  cstruct_pkt = none;
  fs_msg_batch = [];
  raw_pkt = none;
  garbage = [];
}

abbrev config : RuntimeConfig
config = record {
  runtime_id = 2;
  input_port_mac = 10;
  output_port_mac = 11;
  control_port_mac = 12;
  rpc_ip = 0;
  rpc_port = 0;
}

abbrev receiver : ReliableP2p
receiver = Conn.init dpdk 1 2 1 2 0 config fresh blank 0

abbrev shared : Shared
shared = record { gp_collector = no_garbage; reliable_send_list = []; free_items = 4 }

receiver_starts : (receiver.next_seq_num_to_recv ≡ 1) × (receiver.batch ≡ [])
unfolding Conn.init
receiver_starts = (refl, refl)

-- The first packet of a message of two.
abbrev first : Packet
first =
    msg (record { send_actor_id = 0; recv_actor_id = 0; msg_id = 5; msg_type = 1; msg_pkt_num = 2 })
    ∷ body

abbrev start : Net
start = started dpdk 1 2 (λ i. []) (λ i. 0) receiver shared receiver shared

abbrev pushed_net : Net
pushed_net = record start {
  sender = record start.sender { send_queue = (push dpdk first fresh).1 };
  pushed = first ∷ [];
}

abbrev sent_net : Net
sent_net = record pushed_net {
  sender = record pushed_net.sender {
    send_queue = (get_window_batch 32 50 32 pushed_net.sender.send_queue).1;
  };
  in_flight = (get_window_batch 32 50 32 pushed_net.sender.send_queue).0 ++ [];
}

abbrev sent_pkt : Packet
sent_pkt = pushed_net.sender.send_queue.ring_buf 0

abbrev result : Option (Bool × ReliableP2p × Shared) → Bool × ReliableP2p × Shared
result none = (false, receiver, shared)
result (some out) = out

abbrev first_result : Bool × ReliableP2p × Shared
first_result = result (recv 60 sent_pkt receiver shared)

abbrev received_net : Net
received_net = record sent_net { receiver = first_result.1; shared = first_result.2 }

in_flight : Memᴰ sent_pkt sent_net.in_flight
unfolding get_window_batch SendQueue.init push
in_flight = Memᴰ.head refl

first_taken : recv 60 sent_pkt receiver shared ≡ some first_result
unfolding recv SendQueue.init push Conn.init
first_taken = refl

path : Reach dpdk start received_net
path =
    next
      (next
        (next here (push_one first (omega (arith, fresh_sizes)) (omega (arith, fresh_sizes)) refl))
        (send_window 32 50 32 refl))
      (receive 60 sent_pkt first_result in_flight first_taken refl)

both-IsUp : IsUp received_net
unfolding recv SendQueue.init push Conn.init
both-IsUp = (refl, refl)

-- The batch holds the packet, which the assembly has to account for.
waiting_for_more : received_net.receiver.batch ≡ body ∷ []
unfolding recv SendQueue.init push Conn.init
waiting_for_more = refl

accepted_in_order_example :
    (received_net.receiver.next_seq_num_to_recv ≤ length received_net.pushed + 1)
    × IsAssembled
        (take (received_net.receiver.next_seq_num_to_recv - 1) received_net.pushed)
        received_net.receiver
accepted_in_order_example =
    accepted_in_order dpdk 1 2 (λ i. []) (λ i. 0) receiver shared receiver shared receiver_starts.0
      receiver_starts.1 path both-IsUp

freed_after_accepted_example :
    (queue_of received_net).head_seq_num ≤ received_net.receiver.next_seq_num_to_recv
freed_after_accepted_example =
    freed_after_accepted dpdk 1 2 (λ i. []) (λ i. 0) receiver shared receiver shared
      receiver_starts.0 receiver_starts.1 path both-IsUp

pop_never_fails_example :
    (out : SendQueue × Garbage) × (pop 2 60
        (queue_of received_net)
        received_net.sender_shared.gp_collector
      ≡ some out)
pop_never_fails_example =
    pop_never_fails dpdk 1 2 (λ i. []) (λ i. 0) receiver shared receiver shared 2 60 path

abbrev state_batch : List Packet
state_batch = (tag binary_flow_state_tag ∷ num 1 ∷ body) ∷ []

state_batch-encoded : encode_binary_fs_sub_msg (body ∷ []) ≡ some state_batch
unfolding encode_binary_fs_sub_msg
state_batch-encoded = refl

abbrev seven_eight : List ℕ
seven_eight = 7 ∷ 8 ∷ []

format-flow_state_packet_example :
    (length seven_eight ≤ cutting_thresh
      → format (state_batch ++ create_packet_sub_msg true seven_eight) blank
        ≡ some (
          true,
          record (with_flow_state (body ∷ []) blank) { raw_pkt = some (raw seven_eight ∷ []) },
        ))
    × (cutting_thresh < length seven_eight
        → (m' : SingleMsg) × (pkt : Packet) × (format
              (state_batch ++ create_packet_sub_msg true seven_eight)
              blank
            ≡ some (true, m'))
          × (m'.fs_msg_batch ≡ blank.fs_msg_batch ++ body ∷ [])
          × (m'.raw_pkt ≡ some pkt)
          × (data_bytes pkt ≡ seven_eight ++ drop cutting_thresh seven_eight))
format-flow_state_packet_example =
    format-flow_state_packet (body ∷ []) state_batch seven_eight true blank state_batch-encoded
