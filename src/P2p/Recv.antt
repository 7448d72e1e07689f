-- ===== src/P2p/Recv.antt =====
-- `recv`: which packets are accepted, and what a whole message gives.
use nfvactor.Prelude.{
  >>=-eq-some, ℕ, ◌≡◌, ◌≢◌, refl, Bool, false, some, List, [], ◌∷◌, ◌++◌, length, arith, ◌∙◌, ◌==◌,
  if◌then◌else◌, Bool-cases, if_split, inl, inr,
}
use nfvactor.Packet.{ack_magic_num, Packet, ReliableHeader, MessageHeader, rel, msg, msg_magic_num}
use nfvactor.Packet.Garbage.{collect}
use nfvactor.SendQueue.{add32}
use nfvactor.Conn.{ReliableP2p, Shared}
use nfvactor.P2p.{recv, recv_ack, get_ack_pkt, out_of_order, accept, counted, join_message, deliver}

-- A data packet that is not the next one changes nothing but the error count, the snapshot and the
-- garbage, whatever it holds; none is taken for a message.
recv-out_of_order :
    (now : ℕ) (rh : ReliableHeader) (rest : Packet) (r : ReliableP2p) (s : Shared)
    → rh.magic_num ≡ msg_magic_num
    → rh.seq_num ≢ r.next_seq_num_to_recv
    → (out : Bool × ReliableP2p × Shared) × (recv now (rel rh ∷ rest) r s ≡ some out)
      × (out.0 ≡ false)
      × (out.1.next_seq_num_to_recv ≡ r.next_seq_num_to_recv)
      × (out.1.batch ≡ r.batch)
      × (out.1.cur_msg ≡ r.cur_msg)
      × (out.1.send_queue ≡ r.send_queue)
      × (out.2.gp_collector ≡ collect (rel rh ∷ rest) s.gp_collector)
unfolding recv
recv-out_of_order now rh rest r s m n =
    let (r', s') = out_of_order (rel rh ∷ rest) r s in
    (
      (false, r', s'),
      ground arith,
      refl,
      ground arith,
      ground arith,
      ground arith,
      ground arith,
      ground arith,
    )

join_message-next :
    (rest : Packet) (r : ReliableP2p) {r' : ReliableP2p}
    → join_message rest r ≡ some r'
    → r'.next_seq_num_to_recv ≡ r.next_seq_num_to_recv
unfolding join_message
join_message-next [] r h = ground arith
join_message-next (msg m ∷ ps) r h = ground arith
join_message-next (p ∷ ps) r h = ground arith

deliver-next :
    (r : ReliableP2p) (s : Shared) {out : Bool × ReliableP2p × Shared}
    → deliver r s ≡ some out
    → out.1.next_seq_num_to_recv ≡ r.next_seq_num_to_recv
unfolding deliver
deliver-next r s h = ground arith

accept-next :
    (rest : Packet) (r : ReliableP2p) (s : Shared) {out : Bool × ReliableP2p × Shared}
    → accept rest r s ≡ some out
    → out.1.next_seq_num_to_recv ≡ add32 r.next_seq_num_to_recv 1
unfolding accept
accept-next rest r s h =
    let (r', joined, done) = >>=-eq-some (join_message rest (counted r)) (λ r'. deliver r' s) h in
    deliver-next r' s done ∙ join_message-next rest (counted r) joined

-- The number that is expected next moves on by one exactly when it was received.
pub recv-next :
    (now : ℕ) (rh : ReliableHeader) (rest : Packet) (r : ReliableP2p) (s : Shared)
    {out : Bool × ReliableP2p × Shared}
    → rh.magic_num ≡ msg_magic_num
    → recv now (rel rh ∷ rest) r s ≡ some out
    → out.1.next_seq_num_to_recv ≡ (
        if rh.seq_num == r.next_seq_num_to_recv
        then add32 r.next_seq_num_to_recv 1
        else r.next_seq_num_to_recv)
unfolding recv
recv-next now rh rest r s {out} m h = elim (Bool-cases (rh.seq_num == r.next_seq_num_to_recv)) [
  | inl e ↦ rw e (accept-next rest r s {out = out} (ground (arith, h)))
  | inr e ↦ rw e (ground (arith, h))
]

-- An acknowledgement carries the number that is expected next, and sending it expects no other.
pub get_ack_pkt-IsAck :
    (r : ReliableP2p) {pkt : Packet}
    → (get_ack_pkt r).0 ≡ some pkt
    → (h : ReliableHeader) × (pkt ≡ rel h ∷ [])
      × (h.seq_num ≡ r.next_seq_num_to_recv)
      × ((get_ack_pkt r).1.next_seq_num_to_recv ≡ r.next_seq_num_to_recv)
unfolding get_ack_pkt
get_ack_pkt-IsAck r e =
    (record r.ack_header { seq_num = r.next_seq_num_to_recv }, ground arith, refl, ground arith)

pub deliver-whole :
    (r : ReliableP2p) (s : Shared) {out : Bool × ReliableP2p × Shared}
    → deliver r s ≡ some out
    → length r.batch ≡ r.cur_msg.rmh.msg_pkt_num
    → out.1.batch ≡ []
unfolding deliver
deliver-whole r s h e = ground arith

pub deliver-part :
    (r : ReliableP2p) (s : Shared) {out : Bool × ReliableP2p × Shared}
    → deliver r s ≡ some out
    → length r.batch ≢ r.cur_msg.rmh.msg_pkt_num
    → out.1 ≡ r
unfolding deliver
deliver-part r s h e = ground arith

deliver-up :
    (r : ReliableP2p) (s : Shared) {out : Bool × ReliableP2p × Shared}
    → deliver r s ≡ some out
    → out.1.is_connection_up ≡ r.is_connection_up
unfolding deliver
deliver-up r s h = ground arith

join_message-up :
    (rest : Packet) (r : ReliableP2p) {r' : ReliableP2p}
    → join_message rest r ≡ some r'
    → r'.is_connection_up ≡ r.is_connection_up
unfolding join_message
join_message-up [] r h = ground arith
join_message-up (msg m ∷ ps) r h = ground arith
join_message-up (p ∷ ps) r h = ground arith

-- The first packet of a message brings its header.
pub join_message-first :
    (rest : Packet) (r : ReliableP2p) {r' : ReliableP2p}
    → r.batch ≡ []
    → join_message rest r ≡ some r'
    → (h : MessageHeader) × (body : Packet) × (rest ≡ msg h ∷ body)
      × (r'.batch ≡ body ∷ [])
      × (r'.cur_msg.rmh ≡ h)
unfolding join_message
join_message-first [] r e h = absurd (ground arith)
join_message-first (msg m ∷ ps) r e h = (m, ps, refl, ground arith, ground arith)
join_message-first (p ∷ ps) r e h = absurd (ground arith)

pub join_message-more :
    (rest : Packet) (r : ReliableP2p) {r' : ReliableP2p} (p : Packet) (ps : List Packet)
    → r.batch ≡ p ∷ ps
    → join_message rest r ≡ some r'
    → (r'.batch ≡ p ∷ (ps ++ rest ∷ [])) × (r'.cur_msg ≡ r.cur_msg)
unfolding join_message
join_message-more rest r p ps e h = (ground arith, ground arith)

accept-up :
    (rest : Packet) (r : ReliableP2p) (s : Shared) {out : Bool × ReliableP2p × Shared}
    → accept rest r s ≡ some out
    → out.1.is_connection_up ≡ r.is_connection_up
unfolding accept
accept-up rest r s {out} h =
    let (r', joined, done) = >>=-eq-some (join_message rest (counted r)) (λ r'. deliver r' s) h in
    deliver-up r' s {out = out} done ∙ join_message-up rest (counted r) joined

recv_ack-up :
    (now : ℕ) (rh : ReliableHeader) (pkt : Packet) (r : ReliableP2p) (s : Shared)
    {out : Bool × ReliableP2p × Shared}
    → recv_ack now rh pkt r s ≡ some out
    → out.1.is_connection_up ≡ r.is_connection_up
unfolding recv_ack
recv_ack-up now rh pkt r s h = ground arith

-- A packet neither opens nor closes the connection.
pub recv-up :
    (now : ℕ) (pkt : Packet) (r : ReliableP2p) (s : Shared) {out : Bool × ReliableP2p × Shared}
    → recv now pkt r s ≡ some out
    → out.1.is_connection_up ≡ r.is_connection_up
unfolding recv
recv-up now (rel rh ∷ rest) r s {out} h = elim (if_split (rh.magic_num == ack_magic_num) h) [
  | inl (e, f) ↦ recv_ack-up now rh (rel rh ∷ rest) r s {out = out} f
  | inr (e, f) ↦ elim (if_split (rh.seq_num == r.next_seq_num_to_recv) f) [
    | inl (e', g) ↦ accept-up rest r s {out = out} g
    | inr (e', g) ↦ ground (arith, g)
  ]
]
recv-up now pkt r s h = absurd (ground arith)

-- A data packet that is not the next one is in no message.
pub recv-refused :
    (now : ℕ) (rh : ReliableHeader) (rest : Packet) (r : ReliableP2p) (s : Shared)
    {out : Bool × ReliableP2p × Shared}
    → rh.magic_num ≡ msg_magic_num
    → rh.seq_num ≢ r.next_seq_num_to_recv
    → recv now (rel rh ∷ rest) r s ≡ some out
    → (out.1.batch ≡ r.batch) × (out.1.cur_msg ≡ r.cur_msg)
unfolding recv
recv-refused now rh rest r s m n h = (ground (arith, h), ground (arith, h))

pub get_ack_pkt-same :
    (r : ReliableP2p)
    → ((get_ack_pkt r).1.batch ≡ r.batch)
      × ((get_ack_pkt r).1.cur_msg ≡ r.cur_msg)
      × ((get_ack_pkt r).1.is_connection_up ≡ r.is_connection_up)
unfolding get_ack_pkt
get_ack_pkt-same r = (ground arith, ground arith, ground arith)
