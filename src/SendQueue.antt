-- ===== src/SendQueue.antt =====
-- runtime/reliable/base/reliable_send_queue.h: the go-back-N send window of a connection, a ring of
-- 4096 packets with 32-bit sequence numbers. `& mask` is `% capacity`, the capacity being a power
-- of two; the clock reading `rdtsc() * ns_per_cycle_` is an argument of the calls that take it.
pub mod Inv
pub mod Push
pub mod Pop
pub mod Window
pub mod Reset
use nfvactor.Prelude.{
  ℕ, zero, suc, ◌+◌, ◌-◌, ◌%◌, ◌^◌, Bool, true, false, ◌||◌, Option, none, some, List, [], ◌∷◌,
  ◌++◌, ◌==◌, ltb, leb, if◌then◌else◌, length, update,
}
use nfvactor.Packet.{Packet, ReliableHeader, Dpdk, rel, msg_magic_num, total_len}
use nfvactor.Packet.Garbage.{Garbage, collect}

abbrev pub default_rtt : ℕ
default_rtt = 20000

-- `reliable_send_queue_size`
abbrev pub capacity : ℕ
capacity = 4096

abbrev pub add32 : ℕ → ℕ → ℕ
add32 a b = (a + b) % 2 ^ 32

abbrev pub sub64 : ℕ → ℕ → ℕ
sub64 a b = (a + 2 ^ 64 - b) % 2 ^ 64

-- `none`: the assertion of `pop` fails.
pub record SendQueue : Type 0 where
  pub head_pos : ℕ
  pub head_seq_num : ℕ
  pub tail_pos : ℕ
  pub next_seq_num : ℕ
  pub cur_size : ℕ
  pub window_pos : ℕ
  pub window_pos_seq_num : ℕ
  pub pending_send_num : ℕ
  pub ring_buf : ℕ → Packet
  pub send_time : ℕ → ℕ
  pub rtt : ℕ
  pub rh : ReliableHeader

-- The constructor; `ring_buf` and `send_time` start as the memory is.
unfoldable pub init : Dpdk → ℕ → ℕ → (ℕ → Packet) → (ℕ → ℕ) → SendQueue
init net local_rt_mac dest_rt_mac ring times = record {
  head_pos = 0;
  head_seq_num = 1;
  tail_pos = 0;
  next_seq_num = 1;
  cur_size = 0;
  window_pos = 0;
  window_pos_seq_num = 1;
  pending_send_num = 0;
  ring_buf = ring;
  send_time = times;
  rtt = default_rtt;
  rh = record {
    d_addr = dest_rt_mac % 2 ^ 48;
    s_addr = local_rt_mac % 2 ^ 48;
    ether_type = 0x0008;
    version_ihl = 0x45;
    total_length = 0;
    fragment_offset = net.rte_cpu_to_be_16 0x4000;
    time_to_live = 64;
    next_proto_id = 0xFF;
    hdr_checksum = 0;
    src_addr = 0x0A0A0101;
    dst_addr = 0x0A0A0102;
    magic_num = msg_magic_num;
    seq_num = 0;
  };
}

-- The loops over `ring_buf_[(head_pos_+i)&mask]` that give packets to the collector: `n` rounds
-- from `i` on.
unfoldable pub collect_from : SendQueue → ℕ → ℕ → Garbage → Garbage
collect_from q zero i g = g
collect_from q (suc n) i g =
    collect_from q n (i + 1) (collect (q.ring_buf ((q.head_pos + i) % capacity)) g)

unfoldable pub reset : SendQueue → Garbage → SendQueue × Garbage
unfolding collect_from
reset q g = (
  record q {
    head_pos = 0;
    head_seq_num = 1;
    tail_pos = 0;
    next_seq_num = 1;
    cur_size = 0;
    window_pos = 0;
    window_pos_seq_num = 1;
    pending_send_num = 0;
  },
  collect_from q q.cur_size 0 g,
)

-- `format_send_packet`: the queue's own header is updated, then copied in front of the packet. The
-- checksum is taken over the header with the length set.
unfoldable pub stamp : Dpdk → ReliableHeader → Packet → ℕ → ReliableHeader
stamp net rh pkt seq =
    let sized = record rh { total_length = net.rte_cpu_to_be_16 (total_len pkt + 20 + 4 + 1) } in
    record rh {
      total_length = net.rte_cpu_to_be_16 (total_len pkt + 20 + 4 + 1);
      hdr_checksum = net.rte_ipv4_cksum sized;
      seq_num = seq;
    }

unfoldable pub push : Dpdk → Packet → SendQueue → Bool × SendQueue
unfolding stamp
push net pkt q = if q.cur_size == capacity then (false, q) else (
  true,
  record q {
    rh = stamp net q.rh pkt q.next_seq_num;
    ring_buf = update q.ring_buf q.tail_pos (rel (stamp net q.rh pkt q.next_seq_num) ∷ pkt);
    tail_pos = (q.tail_pos + 1) % capacity;
    next_seq_num = add32 q.next_seq_num 1;
    cur_size = q.cur_size + 1;
    pending_send_num = q.pending_send_num + 1;
  },
)

-- The loop of `push(bess::PacketBatch*)`.
unfoldable pub push_all : Dpdk → List Packet → SendQueue → SendQueue
push_all net [] q = q
push_all net (p ∷ ps) q = push_all net ps (push net p q).1

unfoldable pub push_batch : Dpdk → List Packet → SendQueue → Bool × SendQueue
unfolding push_all
push_batch net batch q =
    if ltb capacity (length batch + q.cur_size) then (false, q) else (true, push_all net batch q)

-- The state that `pop` leaves when it takes `n` packets off; `now` is `current_ns`.
unfoldable pub popped : ℕ → ℕ → ℕ → SendQueue → SendQueue
popped ack n now q =
    let head = (q.head_pos + n) % capacity in
    let rest = q.cur_size - n in
    let sent = q.send_time ((q.head_pos + n - 1) % capacity) in
    let q' = record q {
      rtt = sub64 now sent;
      head_pos = head;
      cur_size = rest;
      head_seq_num = ack;
    } in
    if ltb q.window_pos_seq_num ack
    then record q' { window_pos = head; pending_send_num = rest; window_pos_seq_num = ack }
    else q'

-- `none`: the assertion fails.
unfoldable pub pop : ℕ → ℕ → SendQueue → Garbage → Option (SendQueue × Garbage)
unfolding popped collect_from
pop ack_seq_num now q g =
    if (q.cur_size == 0) || leb ack_seq_num q.head_seq_num || ltb q.next_seq_num ack_seq_num
    then some (q, g)
    else let n = ack_seq_num - q.head_seq_num in
      if leb n q.cur_size then some (popped ack_seq_num n now q, collect_from q n 0 g) else none

-- The loop of `get_window_batch`: `n` rounds from `pos` on, `copies` of which get a packet from
-- `bess::Packet::copy`. The results are the batch, the send times, and the position it stops at.
unfoldable pub copy_window :
    SendQueue → ℕ → ℕ → ℕ → ℕ → (ℕ → ℕ) → List Packet → List Packet × (ℕ → ℕ) × ℕ
copy_window q now copies zero pos times batch = (batch, times, pos)
copy_window q now zero (suc n) pos times batch = (batch, times, pos)
copy_window q now (suc copies) (suc n) pos times batch =
    let at = (q.window_pos + pos) % capacity in
    copy_window q now copies n (pos + 1) (update times at now) (batch ++ q.ring_buf at ∷ [])

unfoldable pub get_window_batch : ℕ → ℕ → ℕ → SendQueue → List Packet × SendQueue
unfolding copy_window
get_window_batch window_size now copies q =
    let size = if ltb q.pending_send_num window_size then q.pending_send_num else window_size in
    let (batch, times, sent) = copy_window q now copies size 0 q.send_time [] in
    (
      batch,
      record q {
        send_time = times;
        window_pos = (q.window_pos + sent) % capacity;
        pending_send_num = q.pending_send_num - sent;
        window_pos_seq_num = add32 q.window_pos_seq_num sent;
      },
    )

unfoldable pub reset_window_pos : SendQueue → ℕ × SendQueue
reset_window_pos q = (
  q.cur_size - q.pending_send_num,
  record q {
    window_pos = q.head_pos;
    pending_send_num = q.cur_size;
    window_pos_seq_num = q.head_seq_num;
  },
)

unfoldable pub peek_remaining_size : SendQueue → ℕ
peek_remaining_size q = capacity - q.cur_size
