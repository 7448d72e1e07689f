-- ===== src/P2p.antt =====
-- runtime/reliable/reliable_p2p.h and reliable_p2p.cc: one end of a connection between two
-- runtimes. It sends numbered packets through its send queue, accepts the peer's packets in order
-- only, acknowledges what it accepted, and goes back when no acknowledgement comes.
-- `none` stands for a failed assertion, a null pointer that is followed, bytes read that no sender
-- wrote, or a write past the end of `batch_`.
pub mod Recv
pub mod Check
pub mod Assembly
use mathlib.Core.Option
use nfvactor.Prelude.{
  ◌>>=◌, ℕ, ◌+◌, ◌-◌, ◌*◌, ◌%◌, ◌^◌, Bool, true, false, ◌&&◌, ◌||◌, not, Option, none, some, List,
  [], ◌∷◌, ◌++◌, ◌==◌, ltb, if◌then◌else◌, length,
}
use nfvactor.Prelude.Int.{increment, decrement, is_zero}
use nfvactor.Packet.{Packet, rel, msg, ReliableHeader, MessageHeader, Dpdk, ack_magic_num}
use nfvactor.Packet.Garbage.{Garbage, collect, collect_batch}
use nfvactor.SendQueue
use nfvactor.SendQueue.{SendQueue, add32, peek_remaining_size}
use nfvactor.Message
use nfvactor.Message.{
  SingleMsg, format, clean, create_cstruct_sub_msg, encode_binary_fs_sub_msg, create_packet_sub_msg,
}
use nfvactor.Conn.{ReliableP2p, Shared, SendItem, RuntimeConfig, add64, next_check_times}

-- A list item for `n` packets of this connection; the allocator may have none left.
unfoldable pub new_item : ℕ → ReliableP2p → Shared → Option (SendItem × Shared)
new_item n r s =
    if s.free_items == 0
    then none
    else some (
      record { pkt_num = n; reliable_rtid = r.dest_rtid; output_gate = r.output_gate },
      record s { free_items = s.free_items - 1 },
    )

-- The list's last item, with what stands before it, grows if it is of this connection.
grow_last : ℕ → ReliableP2p → List SendItem → Option (List SendItem)
grow_last n r [] = none
grow_last n r (i ∷ []) =
    if i.reliable_rtid == r.dest_rtid
    then some (record i { pkt_num = i.pkt_num + n } ∷ [])
    else none
grow_last n r (i ∷ j ∷ l) = Option.map (◌∷◌ i) (grow_last n r (j ∷ l))

unfoldable pub add_to_reliable_send_list : ℕ → ReliableP2p → Shared → Option Shared
unfolding grow_last new_item
add_to_reliable_send_list n r s = elim (grow_last n r s.reliable_send_list) [
  | some l ↦ some (record s { reliable_send_list = l })
  | none ↦ do
    (i, s') ← new_item n r s
    some (record s' { reliable_send_list = s.reliable_send_list ++ i ∷ [] })
]

unfoldable pub grow_first : ℕ → ReliableP2p → List SendItem → Option (List SendItem)
grow_first n r [] = none
grow_first n r (i ∷ l) =
    if i.reliable_rtid == r.dest_rtid then some (record i { pkt_num = i.pkt_num + n } ∷ l) else none

unfoldable pub prepend_to_reliable_send_list : ℕ → ReliableP2p → Shared → Option Shared
unfolding grow_first new_item
prepend_to_reliable_send_list n r s = elim (grow_first n r s.reliable_send_list) [
  | some l ↦ some (record s { reliable_send_list = l })
  | none ↦ do
    (i, s') ← new_item n r s
    some (record s' { reliable_send_list = i ∷ s.reliable_send_list })
]

-- `reliable_send` of a structure, given by its bytes; `alloc` tells if `bess::Packet::Alloc` finds
-- a packet. The result is the flag that the code returns.
unfoldable pub reliable_send :
    Dpdk
    → MessageHeader
    → List ℕ
    → Bool
    → ReliableP2p
    → Shared
    → Option (Bool × ReliableP2p × Shared)
unfolding add_to_reliable_send_list create_cstruct_sub_msg
reliable_send net h bytes alloc r s =
    if not r.is_connection_up || (peek_remaining_size r.send_queue == 0) || not alloc
    then some (false, r, s)
    else do
      let pkt = msg (record h { msg_pkt_num = 1 }) ∷ create_cstruct_sub_msg bytes
      let r' = record r { send_queue = (SendQueue.push net pkt r.send_queue).1 }
      s' ← add_to_reliable_send_list 1 r' s
      some (true, r', s')

-- The message header goes in front of the first packet.
unfoldable pub head_with : MessageHeader → List Packet → List Packet
head_with h [] = []
head_with h (p ∷ ps) = (msg h ∷ p) ∷ ps

-- `reliable_send` of a batch of flow state.
unfoldable pub reliable_send_batch :
    Dpdk → MessageHeader → List Packet → ReliableP2p → Shared → Option (Bool × ReliableP2p × Shared)
unfolding add_to_reliable_send_list encode_binary_fs_sub_msg head_with
reliable_send_batch net h batch r s =
    if not r.is_connection_up || ltb (peek_remaining_size r.send_queue) (length batch)
    then some (false, r, s)
    else do
      encoded ← encode_binary_fs_sub_msg batch
      let pkts = head_with (record h { msg_pkt_num = length batch }) encoded
      let r' = record r { send_queue = (SendQueue.push_batch net pkts r.send_queue).1 }
      s' ← add_to_reliable_send_list (length batch) r' s
      some (true, r', s')

-- `reliable_send` of flow state with a data packet. It does not ask whether the connection is up.
unfoldable pub reliable_send_with_packet :
    Dpdk
    → MessageHeader
    → List Packet
    → List ℕ
    → Bool
    → ReliableP2p
    → Shared
    → Option (Bool × ReliableP2p × Shared)
unfolding add_to_reliable_send_list encode_binary_fs_sub_msg head_with create_packet_sub_msg
reliable_send_with_packet net h batch bytes spare r s =
    let total = length batch + 1 + (if ltb Message.cutting_thresh (length bytes) then 1 else 0) in
    let dp = create_packet_sub_msg spare bytes in
    if ltb (peek_remaining_size r.send_queue) total || (length dp == 0)
    then some (false, r, s)
    else do
      encoded ← encode_binary_fs_sub_msg batch
      let n = length batch + length dp
      let pkts = head_with (record h { msg_pkt_num = n }) encoded
      let q = (SendQueue.push_batch net pkts r.send_queue).1
      let r' = record r { send_queue = (SendQueue.push_batch net dp q).1 }
      s' ← add_to_reliable_send_list n r' s
      some (true, r', s')

-- `get_ack_pkt`, where a packet could be allocated: none if nothing new was accepted.
unfoldable pub get_ack_pkt : ReliableP2p → Option Packet × ReliableP2p
get_ack_pkt r =
    if r.next_seq_num_to_recv_snapshot == r.next_seq_num_to_recv
    then (none, r)
    else let h = record r.ack_header { seq_num = r.next_seq_num_to_recv } in
      (
        some (rel h ∷ []),
        record r { ack_header = h; next_seq_num_to_recv_snapshot = r.next_seq_num_to_recv },
      )

-- A packet that is not the next one is dropped; the seventeenth in a row asks for the
-- acknowledgement to be sent again, by setting the snapshot back.
out_of_order : Packet → ReliableP2p → Shared → ReliableP2p × Shared
out_of_order pkt r s =
    let errors = add64 r.error_counter 1 in
    let s' = record s { gp_collector = collect pkt s.gp_collector } in
    if ltb 16 errors
    then (
      record r {
        error_counter = 0;
        next_seq_num_to_recv_snapshot = (r.next_seq_num_to_recv + 2 ^ 32 - 1) % 2 ^ 32;
      },
      s',
    )
    else (record r { error_counter = errors }, s')

abbrev dropped : ReliableP2p × Shared → Bool × ReliableP2p × Shared
dropped (r, s) = (false, r, s)

-- The packet joins the message that is being received; the first one brings its header. `batch_` has
-- room for 32 packets, and `add` does not look.
unfoldable pub join_message : Packet → ReliableP2p → Option ReliableP2p
join_message rest r = elim r.batch [
  | [] ↦ first rest
  | p ∷ ps ↦
      if ltb (length r.batch) 32 then some (record r { batch = r.batch ++ rest ∷ [] }) else none
]
  where
    first : Packet → Option ReliableP2p
    first (msg h ∷ body) =
        some (record r { cur_msg = record r.cur_msg { rmh = h }; batch = body ∷ [] })
    first pkt = none

unfoldable pub formatted : Bool → SingleMsg → ReliableP2p → Shared → Bool × ReliableP2p × Shared
formatted true m r s = (true, record r { batch = []; cur_msg = m }, s)
formatted false m r s =
    let (m', g) = clean m (collect_batch r.batch s.gp_collector) in
    (false, record r { batch = []; cur_msg = m' }, record s { gp_collector = g })

-- The flag tells that `&cur_msg_` is returned.
unfoldable pub deliver : ReliableP2p → Shared → Option (Bool × ReliableP2p × Shared)
unfolding formatted
deliver r s =
    if length r.batch == r.cur_msg.rmh.msg_pkt_num
    then format r.batch r.cur_msg >>= (λ (flag, m). some (formatted flag m r s))
    else some (false, r, s)

abbrev counted : ReliableP2p → ReliableP2p
counted r = record r { error_counter = 0; next_seq_num_to_recv = add32 r.next_seq_num_to_recv 1 }

-- The packet is the next one.
unfoldable pub accept : Packet → ReliableP2p → Shared → Option (Bool × ReliableP2p × Shared)
unfolding join_message deliver
accept rest r s = do r' ← join_message rest (counted r); deliver r' s

-- An acknowledgement.
recv_ack : ℕ → ReliableHeader → Packet → ReliableP2p → Shared → Option (Bool × ReliableP2p × Shared)
recv_ack now rh pkt r s = do
  (q, g) ← SendQueue.pop rh.seq_num now r.send_queue s.gp_collector
  some (false, record r { send_queue = q }, record s { gp_collector = collect pkt g })

unfoldable pub recv : ℕ → Packet → ReliableP2p → Shared → Option (Bool × ReliableP2p × Shared)
unfolding out_of_order accept recv_ack
recv now (rel rh ∷ rest) r s =
    if rh.magic_num == ack_magic_num
    then recv_ack now rh (rel rh ∷ rest) r s
    else if rh.seq_num == r.next_seq_num_to_recv
    then accept rest r s
    else some (dropped (out_of_order (rel rh ∷ rest) r s))
recv now pkt r s = none

-- The packets of a message half received are dropped from `batch_` uncollected.
unfoldable pub reset : ReliableP2p → Shared → ReliableP2p × Shared
reset r s =
    let (q, g) = SendQueue.reset r.send_queue s.gp_collector in
    let (m, g') = clean r.cur_msg g in
    (
      record r { send_queue = q; next_seq_num_to_recv = 1; cur_msg = m; batch = [] },
      record s { gp_collector = g' },
    )

-- The connection is given up.
shut_down : ReliableP2p → Shared → ReliableP2p × Shared
unfolding reset
shut_down r s =
    let (r', s') = reset (record r { is_connection_up = false }) s in
    (record r' { next_seq_num_to_recv = 0; next_seq_num_to_recv_snapshot = 0 }, s')

-- The part of `check` that follows a round with no progress.
unfoldable pub no_progress : ReliableP2p → Shared → Option (ReliableP2p × Shared)
unfolding shut_down prepend_to_reliable_send_list
no_progress r s = do
  let (n, q) = SendQueue.reset_window_pos r.send_queue
  let r1 = record r { send_queue = q; consecutive_counter = add64 r.consecutive_counter 1 }
  s' ← prepend_to_reliable_send_list n r1 s
  some (if r1.consecutive_counter == 5000 then shut_down r1 s' else (r1, s'))

-- What `check` sets at the end of a round.
unfoldable pub next_round : ℕ → ReliableP2p → ReliableP2p
next_round now r = record r {
  next_check_time = add64 now (next_check_times * r.send_queue.rtt);
  last_check_head_seq_num = r.send_queue.head_seq_num;
}

unfoldable pub check : ℕ → ReliableP2p → Shared → Option (ReliableP2p × Shared)
unfolding no_progress next_round
check now r s =
    if ltb r.next_check_time now
    then if (r.last_check_head_seq_num == r.send_queue.head_seq_num) && ltb 0 r.send_queue.cur_size
      then no_progress r s >>= (λ (r', s'). some (next_round now r', s'))
      else some (next_round now (record r { consecutive_counter = 0 }), s)
    else some (r, s)

unfoldable pub inc_ref_cnt : ReliableP2p → ReliableP2p
inc_ref_cnt r = record r { ref_cnt = increment r.ref_cnt }

unfoldable pub dec_ref_cnt : ReliableP2p → ReliableP2p
dec_ref_cnt r = record r { ref_cnt = decrement r.ref_cnt }

unfoldable pub is_ref_cnt_zero : ReliableP2p → Bool
is_ref_cnt_zero r = is_zero r.ref_cnt
