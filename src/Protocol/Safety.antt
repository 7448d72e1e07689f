-- ===== src/Protocol/Safety.antt =====
-- Whatever the network does, the receiver takes the sender's packets in order, each once, and puts
-- its messages together from them, until one of the ends gives up.
use mathlib.Core.Path.{subst}
use mathlib.Core.Option.{some-injective}
use nfvactor.Prelude.{
  ℕ, ◌+◌, ◌-◌, ◌^◌, ◌≤◌, ◌<◌, ◌≡◌, sym, ◌∙◌, ap, Bool, true, false, some, List, [], ◌∷◌, ◌++◌,
  arith, get_elem?, take, length-append, get_elem?-lt, take-append_le, take-suc_get, inl, inr, suc,
}
use native.Mathlib.Decide.{ℕ_discrete}
use nfvactor.Packet.{Packet, rel, ReliableHeader, Dpdk, msg_magic_num}
use nfvactor.Packet.Garbage.{Garbage}
use nfvactor.SendQueue.{SendQueue, push, pop, get_window_batch, capacity}
use nfvactor.SendQueue.Inv.{IsHolding}
use nfvactor.SendQueue.Push.{push-IsHolding, push-head}
use nfvactor.SendQueue.Pop.{pop_total, pop_head}
use nfvactor.SendQueue.Window.{get_window_batch-Sends, get_window_batch-head}
use nfvactor.Conn.{ReliableP2p, Shared}
use nfvactor.P2p.{recv, get_ack_pkt, check}
use nfvactor.P2p.Assembly.{IsAssembled, IsAssembled-same, recv-IsAssembled}
use nfvactor.P2p.Check.{check-cases}
use nfvactor.P2p.Recv.{recv-next, recv-refused, recv-up, get_ack_pkt-IsAck, get_ack_pkt-same}
use nfvactor.Protocol.{Net, queue_of, with_queue}
use nfvactor.Protocol.Inv.{
  IsSent, IsAck, All, All-at, All-map, All-append, IsConsistent, IsSafe, taken_in, Sends-IsSent,
  IsSent-append,
}
use mathlib.Core.List.{Memᴰ}

not_up : {b : Bool} → b ≡ false → b ≡ true → ⊥
not_up e h = cc

pub push_one-IsSafe :
    {Start : Type 0} (net : Dpdk) (n : Net) (pkt : Packet)
    → IsSafe Start n
    → (queue_of n).cur_size < capacity
    → (queue_of n).next_seq_num + 1 < 2 ^ 32
    → IsSafe Start (record n {
      sender = with_queue (push net pkt (queue_of n)).1 n;
      pushed = n.pushed ++ pkt ∷ [];
    })
push_one-IsSafe net n pkt v room small = record {
  hist = v.hist ++ pkt ∷ [];
  held = (push-IsHolding net pkt (queue_of n) v.hist v.held room small).1;
  consistent = λ b u.
      let c = v.consistent b u in
      record {
        holding = (push-IsHolding net pkt (queue_of n) n.pushed c.holding room small).1;
        sent =
            All-map (IsSent n.pushed) (IsSent (n.pushed ++ pkt ∷ [])) n.in_flight
              (IsSent-append n.pushed (pkt ∷ [])) c.sent;
        numbered = c.numbered;
        bounded = omega (arith, c.bounded, length-append n.pushed (pkt ∷ []));
        assembled =
            subst (λ l. IsAssembled l n.receiver)
              (sym (
                take-append_le (n.receiver.next_seq_num_to_recv - 1) n.pushed (pkt ∷ [])
                  (omega (arith, c.bounded))))
              c.assembled;
        acked = c.acked;
        freed = omega (arith, c.freed, push-head net pkt (queue_of n));
      };
}

pub send_window-IsSafe :
    {Start : Type 0} (n : Net) (size now copies : ℕ)
    → IsSafe Start n
    → IsSafe Start (record n {
      sender = with_queue (get_window_batch size now copies (queue_of n)).1 n;
      in_flight = (get_window_batch size now copies (queue_of n)).0 ++ n.in_flight;
    })
send_window-IsSafe n size now copies v = record {
  hist = v.hist;
  held = (get_window_batch-Sends (queue_of n) v.hist size now copies v.held).3;
  consistent = λ b u.
      let c = v.consistent b u in
      let (batch, counted, window, held) =
        get_window_batch-Sends (queue_of n) n.pushed size now copies c.holding in
      record {
        holding = held;
        sent =
            All-append (IsSent n.pushed) _ n.in_flight
              (Sends-IsSent n.pushed (queue_of n).window_pos_seq_num _
                (omega (arith, c.holding.valid)) batch)
              c.sent;
        numbered = c.numbered;
        bounded = c.bounded;
        assembled = c.assembled;
        acked = c.acked;
        freed = omega (arith, c.freed, get_window_batch-head (queue_of n) size now copies);
      };
}

pub check_sender-IsSafe :
    {Start : Type 0} (n : Net) (now : ℕ) (out : ReliableP2p × Shared)
    → IsSafe Start n
    → check now n.sender n.sender_shared ≡ some out
    → IsSafe Start (record n { sender = out.0; sender_shared = out.1 })
check_sender-IsSafe n now out v e = elim (check-cases now n.sender n.sender_shared {out = out} e) [
  | inl d ↦ record {
    hist = [];
    held = d.emptied v.hist v.held;
    consistent = λ b u. absurd (not_up d.down u.0);
  }
  | inr d ↦ record {
    hist = v.hist;
    held = d.holding v.hist v.held;
    consistent = λ b u.
        let c = v.consistent b (sym d.same_up ∙ u.0, u.1) in
        record {
          holding = d.holding n.pushed c.holding;
          sent = c.sent;
          numbered = c.numbered;
          bounded = c.bounded;
          assembled = c.assembled;
          acked = c.acked;
          freed = omega (arith, c.freed, d.same_head);
        };
  }
]

-- The receiver changes, its number and what it has put together stay.
receiver-IsConsistent :
    (n : Net) (r : ReliableP2p) (s : Shared) (more : List Packet)
    → IsConsistent n
    → r.next_seq_num_to_recv ≡ n.receiver.next_seq_num_to_recv
    → r.batch ≡ n.receiver.batch
    → r.cur_msg ≡ n.receiver.cur_msg
    → All (IsAck n.receiver.next_seq_num_to_recv) more
    → IsConsistent (record n { receiver = r; shared = s; acks = more })
receiver-IsConsistent n r s more c k b m a = record {
  holding = c.holding;
  sent = c.sent;
  numbered = omega (arith, k, c.numbered);
  bounded = omega (arith, k, c.bounded);
  assembled =
      subst (λ i. IsAssembled (take (i - 1) n.pushed) r) (sym k)
        (IsAssembled-same (taken_in n) n.receiver r b m c.assembled);
  acked = subst (λ i. All (IsAck i) more) (sym k) a;
  freed = omega (arith, k, c.freed);
}

pub check_receiver-IsSafe :
    {Start : Type 0} (n : Net) (now : ℕ) (out : ReliableP2p × Shared)
    → IsSafe Start n
    → check now n.receiver n.shared ≡ some out
    → IsSafe Start (record n { receiver = out.0; shared = out.1 })
check_receiver-IsSafe n now out v e = record {
  hist = v.hist;
  held = v.held;
  consistent = λ b u. elim (check-cases now n.receiver n.shared {out = out} e) [
    | inl d ↦ absurd (not_up d.down u.1)
    | inr d ↦
        let c = v.consistent b (u.0, sym d.same_up ∙ u.1) in
        receiver-IsConsistent n out.0 out.1 n.acks c d.same_next d.same_batch d.same_msg c.acked
  ];
}

-- The next packet was taken in.
took-IsConsistent :
    (n : Net) (r : ReliableP2p) (s : Shared) (body : Packet)
    → IsConsistent n
    → r.next_seq_num_to_recv ≡ n.receiver.next_seq_num_to_recv + 1
    → get_elem? n.pushed (n.receiver.next_seq_num_to_recv - 1) ≡ some body
    → IsAssembled (taken_in n ++ body ∷ []) r
    → IsConsistent (record n { receiver = r; shared = s })
took-IsConsistent n r s body c moved at a =
    let k = n.receiver.next_seq_num_to_recv - 1 in
    let here : r.next_seq_num_to_recv - 1 ≡ suc k = omega (arith, moved, c.numbered) in
    record {
      holding = c.holding;
      sent = c.sent;
      numbered = omega (arith, moved);
      bounded = omega (arith, moved, get_elem?-lt n.pushed k at);
      assembled =
          subst (λ l. IsAssembled l r)
            (sym (take-suc_get n.pushed k at) ∙ ap (λ i. take i n.pushed) (sym here)) a;
      acked =
          All-map (IsAck n.receiver.next_seq_num_to_recv) (IsAck r.next_seq_num_to_recv) n.acks
            (λ pkt (h, e, le). (h, e, omega (arith, moved))) c.acked;
      freed = omega (arith, moved, c.freed);
    }

receive_body-IsConsistent :
    (n : Net) (now : ℕ) (h : ReliableHeader) (body : Packet) (out : Bool × ReliableP2p × Shared)
    → IsConsistent n
    → h.magic_num ≡ msg_magic_num
    → get_elem? n.pushed (h.seq_num - 1) ≡ some body
    → recv now (rel h ∷ body) n.receiver n.shared ≡ some out
    → IsConsistent (record n { receiver = out.1; shared = out.2 })
receive_body-IsConsistent n now h body out c m e got =
    let moved = recv-next now h body n.receiver n.shared {out = out} m got in
    elim (ℕ_discrete h.seq_num n.receiver.next_seq_num_to_recv) [
      | yes same ↦
          let at : get_elem? n.pushed (n.receiver.next_seq_num_to_recv - 1) ≡ some body =
            ap (λ i. get_elem? n.pushed (i - 1)) (sym same) ∙ e in
          took-IsConsistent n out.1 out.2 body c
            (ground (
              arith,
              c.numbered,
              c.holding.counted,
              c.holding.valid.unwrapped,
              get_elem?-lt n.pushed (n.receiver.next_seq_num_to_recv - 1) at,
            ))
            at
            (recv-IsAssembled now h body (taken_in n) n.receiver n.shared {out = out} m same
              c.assembled got)
      | no other ↦
          let (b, k) = recv-refused now h body n.receiver n.shared {out = out} m other got in
          receiver-IsConsistent n out.1 out.2 n.acks c (ground arith) b k c.acked
    ]

receive-IsConsistent :
    (n : Net) (now : ℕ) (pkt : Packet) (out : Bool × ReliableP2p × Shared)
    → IsConsistent n
    → IsSent n.pushed pkt
    → recv now pkt n.receiver n.shared ≡ some out
    → IsConsistent (record n { receiver = out.1; shared = out.2 })
receive-IsConsistent n now pkt out c (s, body, p, e, carries) got =
    receive_body-IsConsistent n now carries.header body out c carries.marked
      (ap (λ k. get_elem? n.pushed (k - 1)) carries.numbered ∙ e)
      (ap (λ pkt. recv now pkt n.receiver n.shared) (sym carries.shape) ∙ got)

pub receive-IsSafe :
    {Start : Type 0} (n : Net) (now : ℕ) (pkt : Packet) (out : Bool × ReliableP2p × Shared)
    → IsSafe Start n
    → Memᴰ pkt n.in_flight
    → recv now pkt n.receiver n.shared ≡ some out
    → IsSafe Start (record n { receiver = out.1; shared = out.2 })
receive-IsSafe n now pkt out v mem got = record {
  hist = v.hist;
  held = v.held;
  consistent = λ b u.
      let c =
        v.consistent b (u.0, sym (recv-up now pkt n.receiver n.shared {out = out} got) ∙ u.1) in
      receive-IsConsistent n now pkt out c (All-at (IsSent n.pushed) n.in_flight c.sent mem) got;
}

pub acknowledge-IsSafe :
    {Start : Type 0} (n : Net) (pkt : Packet)
    → IsSafe Start n
    → (get_ack_pkt n.receiver).0 ≡ some pkt
    → IsSafe Start (record n { receiver = (get_ack_pkt n.receiver).1; acks = pkt ∷ n.acks })
acknowledge-IsSafe n pkt v e =
    let (h, shape, number, kept) = get_ack_pkt-IsAck n.receiver e in
    let (batch, message, up) = get_ack_pkt-same n.receiver in
    record {
      hist = v.hist;
      held = v.held;
      consistent = λ b u.
          let c = v.consistent b (u.0, sym up ∙ u.1) in
          receiver-IsConsistent n (get_ack_pkt n.receiver).1 n.shared (pkt ∷ n.acks) c kept batch
            message ((h, shape, omega (arith, number)), c.acked);
    }

pub ack_arrives-IsSafe :
    {Start : Type 0} (n : Net) (now : ℕ) (h : ReliableHeader) (out : SendQueue × Garbage)
    → IsSafe Start n
    → Memᴰ (rel h ∷ []) n.acks
    → pop h.seq_num now (queue_of n) n.sender_shared.gp_collector ≡ some out
    → IsSafe Start (record n {
      sender = with_queue out.0 n;
      sender_shared = record n.sender_shared { gp_collector = out.1 };
    })
ack_arrives-IsSafe n now h out v mem e = record {
  hist = v.hist;
  held = popped v.hist v.held;
  consistent = λ b u.
      let c = v.consistent b u in
      let (h', shape, le) = All-at (IsAck n.receiver.next_seq_num_to_recv) n.acks c.acked mem in
      let low : h.seq_num ≤ n.receiver.next_seq_num_to_recv = ground (arith, shape, le) in
      record {
        holding = popped n.pushed c.holding;
        sent = c.sent;
        numbered = c.numbered;
        bounded = c.bounded;
        assembled = c.assembled;
        acked = c.acked;
        freed = omega (
          arith,
          c.freed,
          low,
          pop_head (queue_of n) n.sender_shared.gp_collector h.seq_num now {out = out} e,
        );
      };
}
  where
    popped : (hist : List Packet) → IsHolding (queue_of n) hist → IsHolding out.0 hist
    popped hist w =
        let (r, got, held) =
          pop_total (queue_of n) hist n.sender_shared.gp_collector h.seq_num now w in
        subst (λ r. IsHolding r.0 hist) (some-injective r out (sym got ∙ e)) held
