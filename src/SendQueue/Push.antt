-- ===== src/SendQueue/Push.antt =====
-- `push`: a packet gets the next sequence number and the slot behind the others.
use mathlib.Core.Path.{subst}
use mathlib.Core.List.{append_assoc, append-nil}
use native.Mathlib.Decide.{ℕ_discrete}
use nfvactor.Prelude.{
  ℕ, ◌+◌, ◌-◌, ◌%◌, ◌^◌, ◌≤◌, ◌<◌, ◌≡◌, ◌≢◌, refl, sym, ◌∙◌, ap, true, false, some, List, [], ◌∷◌,
  ◌++◌, arith, length, get_elem?, length-append, get_elem?-append_left, get_elem?-append_self,
  update,
}
use nfvactor.Packet.{Packet, Dpdk, rel}
use nfvactor.SendQueue.{SendQueue, capacity, add32, stamp, push, push_all, push_batch}
use nfvactor.SendQueue.Inv.{Carries, IsValid, IsHolding}

-- What a successful `push` leaves.
abbrev pushed : Dpdk → Packet → SendQueue → SendQueue
pushed net pkt q = record q {
  rh = stamp net q.rh pkt q.next_seq_num;
  ring_buf = update q.ring_buf q.tail_pos (rel (stamp net q.rh pkt q.next_seq_num) ∷ pkt);
  tail_pos = (q.tail_pos + 1) % capacity;
  next_seq_num = add32 q.next_seq_num 1;
  cur_size = q.cur_size + 1;
  pending_send_num = q.pending_send_num + 1;
}

pushed-IsValid :
    (net : Dpdk) (pkt : Packet) (q : SendQueue)
    → IsValid q
    → q.cur_size < capacity
    → q.next_seq_num + 1 < 2 ^ 32
    → IsValid (pushed net pkt q)
unfolding stamp
pushed-IsValid net pkt q v room small = record {
  head_in = v.head_in;
  fits = omega arith;
  pending = omega (arith, v.pending);
  first = v.first;
  numbers = omega (arith, v.numbers);
  unwrapped = omega arith;
  tail = omega (arith, v.tail);
  window = omega (arith, v.window, v.pending);
  window_number = omega (arith, v.window_number);
  magic = v.magic;
}

new_slot :
    (net : Dpdk) (pkt body : Packet) (q : SendQueue) (hist : List Packet) (i : ℕ)
    → IsHolding q hist
    → i ≡ q.cur_size
    → get_elem? (hist ++ pkt ∷ []) (q.head_seq_num + i - 1) ≡ some body
    → Carries ((pushed net pkt q).ring_buf ((q.head_pos + i) % capacity)) (q.head_seq_num + i) body
unfolding stamp
new_slot net pkt body q hist i v e h =
    let here : q.head_seq_num + i - 1 ≡ length hist =
      omega (arith, v.counted, v.valid.numbers, v.valid.first) in
    let same : some pkt ≡ some body =
      sym (get_elem?-append_self hist pkt) ∙ ap (get_elem? (hist ++ pkt ∷ [])) (sym here) ∙ h in
    record {
      header = stamp net q.rh pkt q.next_seq_num;
      shape = ground (arith, v.valid.tail);
      numbered = omega (arith, v.valid.numbers);
      marked = v.valid.magic;
    }

pushed-IsHolding :
    (net : Dpdk) (pkt : Packet) (q : SendQueue) (hist : List Packet)
    → IsHolding q hist
    → q.cur_size < capacity
    → q.next_seq_num + 1 < 2 ^ 32
    → IsHolding (pushed net pkt q) (hist ++ pkt ∷ [])
pushed-IsHolding net pkt q hist v room small = record {
  valid = pushed-IsValid net pkt q v.valid room small;
  counted = omega (arith, v.counted, length-append hist (pkt ∷ []));
  slots = λ i body h e. elim (ℕ_discrete i q.cur_size) [
    | yes last ↦ new_slot net pkt body q hist i v last e
    | no n ↦ old i body (omega arith) e
  ];
}
  where
    old :
        (i : ℕ) (body : Packet)
        → i < q.cur_size
        → get_elem? (hist ++ pkt ∷ []) (q.head_seq_num + i - 1) ≡ some body
        → Carries
            ((pushed net pkt q).ring_buf ((q.head_pos + i) % capacity))
            (q.head_seq_num + i)
            body
    old i body h e =
        let apart : q.tail_pos ≢ (q.head_pos + i) % capacity =
          omega (arith, v.valid.tail, v.valid.head_in) in
        let kept : q.ring_buf ((q.head_pos + i) % capacity)
            ≡ (pushed net pkt q).ring_buf ((q.head_pos + i) % capacity) =
          ground arith in
        subst (λ p. Carries p (q.head_seq_num + i) body) kept
          (v.slots i body h (
            sym (
              get_elem?-append_left hist (pkt ∷ []) (q.head_seq_num + i - 1)
                (omega (arith, v.counted, v.valid.numbers, v.valid.first)))
            ∙ e))

-- A full queue refuses a packet and stays as it was.
pub push_full :
    (net : Dpdk) (pkt : Packet) (q : SendQueue)
    → q.cur_size ≡ capacity
    → push net pkt q ≡ (false, q)
unfolding push
push_full net pkt q e = ground arith

push_room :
    (net : Dpdk) (pkt : Packet) (q : SendQueue)
    → q.cur_size < capacity
    → push net pkt q ≡ (true, pushed net pkt q)
unfolding push
push_room net pkt q h = ground arith

-- On a queue in its invariant with room left, and if the next number does not wrap, `push` succeeds
-- and the packet is the next of the history.
pub push-IsHolding :
    (net : Dpdk) (pkt : Packet) (q : SendQueue) (hist : List Packet)
    → IsHolding q hist
    → q.cur_size < capacity
    → q.next_seq_num + 1 < 2 ^ 32
    → ((push net pkt q).0 ≡ true) × IsHolding (push net pkt q).1 (hist ++ pkt ∷ [])
push-IsHolding net pkt q hist v room small =
    rw (push_room net pkt q room) (refl, pushed-IsHolding net pkt q hist v room small)

push_sizes :
    (net : Dpdk) (pkt : Packet) (q : SendQueue)
    → q.cur_size < capacity
    → ((push net pkt q).1.cur_size ≡ q.cur_size + 1)
      × ((push net pkt q).1.next_seq_num ≡ add32 q.next_seq_num 1)
push_sizes net pkt q room = rw (push_room net pkt q room) (refl, refl)

push_all-IsHolding :
    (net : Dpdk) (pkts : List Packet) (q : SendQueue) (hist : List Packet)
    → IsHolding q hist
    → q.cur_size + length pkts ≤ capacity
    → q.next_seq_num + length pkts < 2 ^ 32
    → IsHolding (push_all net pkts q) (hist ++ pkts)
unfolding push_all
push_all-IsHolding net [] q hist v room small = rw append-nil v
push_all-IsHolding net (p ∷ ps) q hist v room small =
    let held = (push-IsHolding net p q hist v (omega arith) (omega arith)).1 in
    let sizes = push_sizes net p q (omega arith) in
    subst (IsHolding _) (append_assoc hist (p ∷ []) ps) (
      push_all-IsHolding net ps _ (hist ++ p ∷ []) held (omega (arith, sizes))
        (omega (arith, sizes)))

-- A batch is pushed whole, in order, if it fits, and not at all if it does not.
pub push_batch-IsHolding :
    (net : Dpdk) (pkts : List Packet) (q : SendQueue) (hist : List Packet)
    → IsHolding q hist
    → q.next_seq_num + length pkts < 2 ^ 32
    → (q.cur_size + length pkts ≤ capacity
        → ((push_batch net pkts q).0 ≡ true) × IsHolding (push_batch net pkts q).1 (hist ++ pkts))
      × (capacity < q.cur_size + length pkts → push_batch net pkts q ≡ (false, q))
unfolding push_batch
push_batch-IsHolding net pkts q hist v small =
    (λ room. ground (arith, push_all-IsHolding net pkts q hist v room small), λ full. ground arith)

pub push-head :
    (net : Dpdk) (pkt : Packet) (q : SendQueue) → (push net pkt q).1.head_seq_num ≡ q.head_seq_num
unfolding push
push-head net pkt q = ground arith
