-- ===== src/Protocol.antt =====
-- The two ends of a connection over a network that loses, repeats and reorders packets: the
-- sender's queue (runtime/reliable/base/reliable_send_queue.h), the receiver's `recv` and
-- `get_ack_pkt`, and `check` at both ends, which goes back and, when no acknowledgement comes for
-- long, gives the connection up (runtime/reliable/reliable_p2p.cc and .h), in any order of steps.
pub mod Inv
pub mod Safety
pub mod Reachable
use mathlib.Core.List.{Memᴰ}
use nfvactor.Prelude.{ℕ, ◌+◌, ◌^◌, ◌<◌, ◌≡◌, Bool, Option, some, List, [], ◌∷◌, ◌++◌}
use nfvactor.Packet.{Packet, rel, ReliableHeader, Dpdk}
use nfvactor.Packet.Garbage.{Garbage}
use nfvactor.SendQueue
use nfvactor.SendQueue.{SendQueue, capacity, push, pop, get_window_batch}
use nfvactor.Conn.{ReliableP2p, Shared}
use nfvactor.P2p.{recv, get_ack_pkt, check}

-- The connection at the sending runtime and at the receiving one, each with its coordinator.
-- `in_flight` and `acks` hold every packet that was ever sent: the network may deliver any of them,
-- at any time and as often as it likes, or never. `pushed`, what the sender was given, is kept for
-- the statements.
pub record Net : Type 0 where
  pub sender : ReliableP2p
  pub sender_shared : Shared
  pub pushed : List Packet
  pub in_flight : List Packet
  pub receiver : ReliableP2p
  pub shared : Shared
  pub acks : List Packet

abbrev pub queue_of : Net → SendQueue
queue_of n = n.sender.send_queue

abbrev pub with_queue : SendQueue → Net → ReliableP2p
with_queue q n = record n.sender { send_queue = q }

-- A connection before its first step; the sender's queue is new.
abbrev pub started :
    Dpdk → ℕ → ℕ → (ℕ → Packet) → (ℕ → ℕ) → ReliableP2p → Shared → ReliableP2p → Shared → Net
started net local dest ring times q t r s = record {
  sender = record q { send_queue = SendQueue.init net local dest ring times };
  sender_shared = t;
  pushed = [];
  in_flight = [];
  receiver = r;
  shared = s;
  acks = [];
}

-- The sender's numbers do not wrap: the sender pushes fewer than 2 ^ 32 - 2 packets.
pub data Step (net : Dpdk) (n m : Net) : Type 0 where
  push_one :
      (pkt : Packet)
      → (queue_of n).cur_size < capacity
      → (queue_of n).next_seq_num + 1 < 2 ^ 32
      → m ≡ record n {
        sender = with_queue (push net pkt (queue_of n)).1 n;
        pushed = n.pushed ++ pkt ∷ [];
      }
      → Step net n m
  send_window :
      (size now copies : ℕ)
      → m ≡ record n {
        sender = with_queue (get_window_batch size now copies (queue_of n)).1 n;
        in_flight = (get_window_batch size now copies (queue_of n)).0 ++ n.in_flight;
      }
      → Step net n m
  check_sender :
      (now : ℕ) (out : ReliableP2p × Shared)
      → check now n.sender n.sender_shared ≡ some out
      → m ≡ record n { sender = out.0; sender_shared = out.1 }
      → Step net n m
  check_receiver :
      (now : ℕ) (out : ReliableP2p × Shared)
      → check now n.receiver n.shared ≡ some out
      → m ≡ record n { receiver = out.0; shared = out.1 }
      → Step net n m
  receive :
      (now : ℕ) (pkt : Packet) (out : Bool × ReliableP2p × Shared)
      → Memᴰ pkt n.in_flight
      → recv now pkt n.receiver n.shared ≡ some out
      → m ≡ record n { receiver = out.1; shared = out.2 }
      → Step net n m
  acknowledge :
      (pkt : Packet)
      → (get_ack_pkt n.receiver).0 ≡ some pkt
      → m ≡ record n { receiver = (get_ack_pkt n.receiver).1; acks = pkt ∷ n.acks }
      → Step net n m
  ack_arrives :
      (now : ℕ) (h : ReliableHeader) (out : SendQueue × Garbage)
      → Memᴰ (rel h ∷ []) n.acks
      → pop h.seq_num now (queue_of n) n.sender_shared.gp_collector ≡ some out
      → m ≡ record n {
        sender = with_queue out.0 n;
        sender_shared = record n.sender_shared { gp_collector = out.1 };
      }
      → Step net n m

pub data Reach (net : Dpdk) (n : Net) : Net → Type 0 where
  here : Reach net n n
  next : {m o : Net} → Reach net n m → Step net m o → Reach net n o
