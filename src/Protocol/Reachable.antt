-- ===== src/Protocol/Reachable.antt =====
-- What holds in every state that the two ends reach over the network.
use mathlib.Core.Path.{subst}
use nfvactor.Prelude.{ℕ, ◌+◌, ◌-◌, ◌≡◌, sym, ◌≤◌, some, [], length, take, arith}
use nfvactor.Packet.{Packet, Dpdk}
use nfvactor.Packet.Garbage.{Garbage}
use nfvactor.SendQueue
use nfvactor.SendQueue.{SendQueue, pop}
use nfvactor.SendQueue.Inv.{init-IsHolding}
use nfvactor.SendQueue.Pop.{pop_total}
use nfvactor.Conn.{ReliableP2p, Shared}
use nfvactor.P2p.Assembly.{IsAssembled, IsAssembled-nil}
use nfvactor.Protocol.{
  Net, queue_of, started, Step, push_one, send_window, check_sender, check_receiver, receive,
  acknowledge, ack_arrives, Reach, here, next,
}
use nfvactor.Protocol.Inv.{IsSafe, IsUp}
use nfvactor.Protocol.Safety

Step-IsSafe :
    {Start : Type 0} (net : Dpdk) {n m : Net} → IsSafe Start n → Step net n m → IsSafe Start m
Step-IsSafe net {n} c (push_one pkt room small e) =
    subst (IsSafe _) (sym e) (Safety.push_one-IsSafe net n pkt c room small)
Step-IsSafe net {n} c (send_window size now copies e) =
    subst (IsSafe _) (sym e) (Safety.send_window-IsSafe n size now copies c)
Step-IsSafe net {n} c (check_sender now out got e) =
    subst (IsSafe _) (sym e) (Safety.check_sender-IsSafe n now out c got)
Step-IsSafe net {n} c (check_receiver now out got e) =
    subst (IsSafe _) (sym e) (Safety.check_receiver-IsSafe n now out c got)
Step-IsSafe net {n} c (receive now pkt out mem got e) =
    subst (IsSafe _) (sym e) (Safety.receive-IsSafe n now pkt out c mem got)
Step-IsSafe net {n} c (acknowledge pkt got e) =
    subst (IsSafe _) (sym e) (Safety.acknowledge-IsSafe n pkt c got)
Step-IsSafe net {n} c (ack_arrives now h out mem got e) =
    subst (IsSafe _) (sym e) (Safety.ack_arrives-IsSafe n now h out c mem got)

Reach-IsSafe :
    {Start : Type 0} (net : Dpdk) {n m : Net} → IsSafe Start n → Reach net n m → IsSafe Start m
Reach-IsSafe net c here = c
Reach-IsSafe net c (next path step) = Step-IsSafe net (Reach-IsSafe net c path) step

module _ (net : Dpdk) (local dest : ℕ) (ring : ℕ → Packet) (times : ℕ → ℕ) (q : ReliableP2p)
    (t : Shared) (r : ReliableP2p) (s : Shared) where
  started-IsSafe :
      IsSafe
        ((r.next_seq_num_to_recv ≡ 1) × (r.batch ≡ []))
        (started net local dest ring times q t r s)
  unfolding SendQueue.init
  started-IsSafe = record {
    hist = [];
    held = init-IsHolding net local dest ring times;
    consistent = λ (e, b) u. record {
      holding = init-IsHolding net local dest ring times;
      sent = tt;
      numbered = omega (arith, e);
      bounded = omega (arith, e);
      assembled = subst (λ k. IsAssembled (take (k - 1) []) r) (sym e) (IsAssembled-nil r b);
      acked = tt;
      freed = omega (arith, e);
    };
  }

  -- A connection starts with a receiver that expects number 1 and has an empty batch. Over a network
  -- that loses, repeats and reorders packets, with checks of both ends at any time, and as long as the
  -- sender's numbers do not wrap: in every state in which neither end has given the connection up,
  -- the packets that the receiver has counted are the first ones that the sender was given, in
  -- order. They are whole messages, each as long as its header says, and behind these the packets of
  -- one message that is not whole yet: precisely these are in the receiver's batch, and the header
  -- that it has read is theirs.
  pub accepted_in_order :
      {m : Net}
      → r.next_seq_num_to_recv ≡ 1
      → r.batch ≡ []
      → Reach net (started net local dest ring times q t r s) m
      → IsUp m
      → (m.receiver.next_seq_num_to_recv ≤ length m.pushed + 1)
        × IsAssembled (take (m.receiver.next_seq_num_to_recv - 1) m.pushed) m.receiver
  accepted_in_order e b path u =
      let c = (Reach-IsSafe net started-IsSafe path).consistent (e, b) u in (c.bounded, c.assembled)

  -- From the same start, as long as the sender's numbers do not wrap: in every state in which neither
  -- end has given the connection up, the sender has freed no packet that the receiver has not taken
  -- in. The head of its queue is at most the number that the receiver expects next.
  pub freed_after_accepted :
      {m : Net}
      → r.next_seq_num_to_recv ≡ 1
      → r.batch ≡ []
      → Reach net (started net local dest ring times q t r s) m
      → IsUp m
      → (queue_of m).head_seq_num ≤ m.receiver.next_seq_num_to_recv
  freed_after_accepted e b path u =
      ((Reach-IsSafe net started-IsSafe path).consistent (e, b) u).freed

  -- From the start of a connection, as long as the sender's numbers do not wrap, whatever the receiver
  -- was before and whether or not an end has given the connection up: the sender never pops with a
  -- failing assertion, every acknowledgement that arrives is taken or ignored.
  pub pop_never_fails :
      {m : Net} (ack now : ℕ)
      → Reach net (started net local dest ring times q t r s) m
      → (out : SendQueue × Garbage) × (pop ack now (queue_of m) m.sender_shared.gp_collector
          ≡ some out)
  pop_never_fails {m} ack now path =
      let c = Reach-IsSafe net started-IsSafe path in
      let (out, popped, held) =
        pop_total (queue_of m) c.hist m.sender_shared.gp_collector ack now c.held in
      (out, popped)
