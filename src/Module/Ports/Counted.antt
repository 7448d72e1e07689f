-- ===== src/Module/Ports/Counted.antt =====
-- No packet is lost on its way out of a port (runtime/module/port_out.cc).
use nfvactor.Prelude.{
  ℕ, ◌+◌, ◌<◌, ◌^◌, ◌%◌, ◌≡◌, refl, sym, take-drop, length-take, length-drop, List, ◌++◌, length,
  take, arith,
}
use nfvactor.Module.Ports.{Bursts, SnPort, bytes_of, send_packets, port_out}

-- Each packet of a batch that goes out of a port is sent or freed: the batch is the packets that the
-- ring queues, in their order and behind those it held, and after them those that are freed. As long
-- as the port's counters do not wrap they grow by the number of the ones and of the others; the
-- bytes grow by the lengths of the packets sent, modulo 2 ^ 64.
pub port_out-counts :
    {P : Type 0} (b : Bursts P) (total_len : P → ℕ) (batch : List P) (port : SnPort b)
    → port.out.packets + length batch < 2 ^ 64
    → port.out.dropped + length batch < 2 ^ 64
    → port.tx_dropped + length batch < 2 ^ 64
    → (sent : List P) × (batch ≡ sent ++ (port_out b total_len batch port).0)
      × (b.queued (port_out b total_len batch port).1.tx ≡ b.queued port.tx ++ sent)
      × ((port_out b total_len batch port).1.out.packets ≡ port.out.packets + length sent)
      × ((port_out b total_len batch port).1.out.dropped
          ≡ port.out.dropped + length (port_out b total_len batch port).0)
      × ((port_out b total_len batch port).1.tx_dropped
          ≡ port.tx_dropped + length (port_out b total_len batch port).0)
      × ((port_out b total_len batch port).1.out.bytes
          ≡ (port.out.bytes + bytes_of b total_len sent) % 2 ^ 64)
unfolding port_out send_packets
port_out-counts b total_len batch port h k j =
    let n = (b.enqueue_burst batch port.tx).0 % 2 ^ 31 in
    let le = b.enqueue_burst-le batch port.tx in
    (
      take n batch,
      sym (take-drop n batch),
      b.queued-enqueue_burst batch port.tx,
      omega (arith, length-take n batch le, le),
      omega (arith, length-drop n batch),
      omega (arith, length-drop n batch),
      refl,
    )
