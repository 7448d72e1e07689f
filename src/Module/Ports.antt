-- ===== src/Module/Ports.antt =====
-- runtime/module/port_inc.cc, runtime/module/port_out.cc and the two calls of runtime/port/sn_port.h
-- that they make. The rings of a port are `llring`'s, a parameter, and so is a packet's length.
pub mod Counted
use nfvactor.Prelude.{
  ℕ, ◌+◌, ◌-◌, ◌*◌, ◌^◌, ◌%◌, ◌≤◌, ◌≡◌, ◌==◌, if◌then◌else◌, List, [], ◌∷◌, ◌++◌, length, take,
  drop,
}
use nfvactor.Conn.{add64}

-- A burst takes at most as many packets as are asked for, or puts the first ones of those there are
-- behind what is queued. What putting them answers is how many it has put, with bit 31,
-- `RING_QUOT_EXCEED`, set beside the number when the ring is filled above its mark.
pub record Bursts (P : Type 0) : Type 1 where
  pub Ring : Type 0
  pub queued : Ring → List P
  pub dequeue_burst : ℕ → Ring → List P × Ring
  pub enqueue_burst : List P → Ring → ℕ × Ring
  pub enqueue_burst-le : (l : List P) (q : Ring) → (enqueue_burst l q).0 % 2 ^ 31 ≤ length l
  pub queued-enqueue_burst :
      (l : List P) (q : Ring)
      → queued (enqueue_burst l q).1 ≡ queued q ++ take ((enqueue_burst l q).0 % 2 ^ 31) l

pub record PacketStats : Type 0 where
  pub packets : ℕ
  pub dropped : ℕ
  pub bytes : ℕ

-- Queue 0 of a port, with its counters in each direction and that of its register.
pub record SnPort {P : Type 0} (b : Bursts P) : Type 0 where
  pub inc : PacketStats
  pub out : PacketStats
  pub tx_dropped : ℕ
  pub rx : b.Ring
  pub tx : b.Ring

module _ {P : Type 0} (b : Bursts P) (total_len : P → ℕ) where
  open b use {dequeue_burst, enqueue_burst}

  unfoldable pub bytes_of : List P → ℕ
  bytes_of [] = 0
  bytes_of (p ∷ l) = total_len p + bytes_of l

  unfoldable pub recv_packets : ℕ → SnPort b → List P × SnPort b
  recv_packets cnt port = let (l, q) = dequeue_burst cnt port.rx in (l, record port { rx = q })

  -- The mask takes bit 31 off what the ring answers.
  unfoldable pub send_packets : List P → SnPort b → ℕ × SnPort b
  send_packets pkts port =
      let (answer, q) = enqueue_burst pkts port.tx in
      let sent = answer % 2 ^ 31 in
      (sent, record port { tx = q; tx_dropped = add64 port.tx_dropped (length pkts - sent) })

  -- The result tells packets and bits; the batch goes to the next module, which an empty batch
  -- does not.
  unfoldable pub port_inc : ℕ → SnPort b → ℕ × ℕ × List P × SnPort b
  unfolding recv_packets bytes_of
  port_inc burst port =
      let (l, port') = recv_packets burst port in
      let received_bytes = bytes_of l in
      let stats = record port'.inc {
        packets = add64 port'.inc.packets (length l);
        bytes = add64 port'.inc.bytes received_bytes;
      } in
      if length l == 0
      then (0, 0, [], port')
      else (length l, (received_bytes + length l * 24) * 8, l, record port' { inc = stats })

  -- The packets that are freed stand beside the port.
  unfoldable pub port_out : List P → SnPort b → List P × SnPort b
  unfolding send_packets bytes_of
  port_out batch port =
      let (sent_pkts, port') = send_packets batch port in
      let stats : PacketStats = record {
        packets = add64 port'.out.packets sent_pkts;
        dropped = add64 port'.out.dropped (length batch - sent_pkts);
        bytes = add64 port'.out.bytes (bytes_of (take sent_pkts batch));
      } in
      (drop sent_pkts batch, record port' { out = stats })
