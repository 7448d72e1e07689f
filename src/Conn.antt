-- ===== src/Conn.antt =====
-- The state of runtime/reliable/reliable_p2p.h, its constructor in reliable_p2p.cc, and what it
-- reaches of the coordinator.
use nfvactor.Prelude.{ℕ, ◌+◌, ◌*◌, ◌%◌, ◌^◌, Bool, true, List, []}
use nfvactor.Prelude.Int.{ℤ, pos}
use nfvactor.Packet.{Packet, ReliableHeader, Dpdk, ack_magic_num}
use nfvactor.Packet.Garbage.{Garbage}
use nfvactor.SendQueue.{SendQueue}
use nfvactor.Message
use nfvactor.Message.{SingleMsg}

-- `struct runtime_config` of runtime/rpc/ring_msg.h
pub record RuntimeConfig : Type 0 where
  pub runtime_id : ℕ
  pub input_port_mac : ℕ
  pub output_port_mac : ℕ
  pub control_port_mac : ℕ
  pub rpc_ip : ℕ
  pub rpc_port : ℕ

-- A `generic_list_item` of the coordinator's `reliable_send_list_`.
pub record SendItem : Type 0 where
  pub pkt_num : ℕ
  pub reliable_rtid : ℕ
  pub output_gate : ℕ

-- What a connection reaches through `coordinator_actor_`: the garbage collector, the list of
-- connections with packets to send, and how many list items the allocator has left.
pub record Shared : Type 0 where
  pub gp_collector : Garbage
  pub reliable_send_list : List SendItem
  pub free_items : ℕ

pub record ReliableP2p : Type 0 where
  pub send_queue : SendQueue
  pub next_seq_num_to_recv : ℕ
  pub ref_cnt : ℤ
  pub local_rtid : ℕ
  pub dest_rtid : ℕ
  pub batch : List Packet
  pub cur_msg : SingleMsg
  pub ack_header : ReliableHeader
  pub output_gate : ℕ
  pub next_seq_num_to_recv_snapshot : ℕ
  pub next_check_time : ℕ
  pub last_check_head_seq_num : ℕ
  pub consecutive_counter : ℕ
  pub remote_rt_config : RuntimeConfig
  pub is_connection_up : Bool
  pub error_counter : ℕ

abbrev pub initial_check_times : ℕ
initial_check_times = 5

abbrev pub next_check_times : ℕ
next_check_times = 5

abbrev pub add64 : ℕ → ℕ → ℕ
add64 a b = (a + b) % 2 ^ 64

-- The acknowledgement header of the constructor, with its checksum taken when all but the checksum
-- and the sequence number is set.
ack_header_init : Dpdk → ℕ → ℕ → ReliableHeader
ack_header_init net local_rt_mac dest_rt_mac =
    let h : ReliableHeader = record {
      d_addr = dest_rt_mac % 2 ^ 48;
      s_addr = local_rt_mac % 2 ^ 48;
      ether_type = 0x0008;
      version_ihl = 0x45;
      total_length = net.rte_cpu_to_be_16 (20 + 1 + 4);
      fragment_offset = net.rte_cpu_to_be_16 0x4000;
      time_to_live = 64;
      next_proto_id = 0xFF;
      hdr_checksum = 0;
      src_addr = 0x0A0A0102;
      dst_addr = 0x0A0A0101;
      magic_num = ack_magic_num;
      seq_num = 0;
    } in
    record h { hdr_checksum = net.rte_ipv4_cksum h }

-- The constructor. `blank` is the single message as its memory is; `now` is `ctx.current_ns()`.
unfoldable pub init :
    Dpdk → ℕ → ℕ → ℕ → ℕ → ℕ → RuntimeConfig → SendQueue → SingleMsg → ℕ → ReliableP2p
unfolding ack_header_init Message.init
init net local_rt_mac dest_rt_mac local_rtid dest_rtid output_gate config queue blank now = record {
  send_queue = queue;
  next_seq_num_to_recv = 1;
  ref_cnt = pos 0;
  local_rtid = local_rtid;
  dest_rtid = dest_rtid;
  batch = [];
  cur_msg = Message.init (record blank { send_runtime_id = dest_rtid });
  ack_header = ack_header_init net local_rt_mac dest_rt_mac;
  output_gate = output_gate;
  next_seq_num_to_recv_snapshot = 1;
  next_check_time = add64 now (initial_check_times * queue.rtt);
  last_check_head_seq_num = queue.head_seq_num;
  consecutive_counter = 0;
  remote_rt_config = config;
  is_connection_up = true;
  error_counter = 0;
}
