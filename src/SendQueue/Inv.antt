-- ===== src/SendQueue/Inv.antt =====
-- What a send queue holds: the packets pushed since the connection began, numbered from 1, of
-- which those below `head_seq_num` are acknowledged and those below `window_pos_seq_num` sent.
use mathlib.Core.Path.{subst₂}
use nfvactor.Prelude.{
  ℕ, ◌+◌, ◌-◌, ◌%◌, ◌^◌, ◌≤◌, ◌<◌, ◌≡◌, some, List, [], ◌∷◌, arith, length, get_elem?,
}
use nfvactor.Packet.{Packet, ReliableHeader, Dpdk, rel, msg_magic_num}
use nfvactor.SendQueue.{SendQueue, capacity, init}

-- `pkt` is `body` behind a data header with sequence number `s`.
pub record Carries (pkt : Packet) (s : ℕ) (body : Packet) : Type 0 where
  pub header : ReliableHeader
  pub shape : pkt ≡ rel header ∷ body
  pub numbered : header.seq_num ≡ s
  pub marked : header.magic_num ≡ msg_magic_num

pub Carries-at :
    (body : Packet) {pkt pkt' : Packet} {s s' : ℕ}
    → pkt ≡ pkt'
    → s ≡ s'
    → Carries pkt s body
    → Carries pkt' s' body
Carries-at body p e c = subst₂ (λ x y. Carries x y body) p e c

-- The counters and positions agree, and no sequence number has wrapped.
pub record IsValid (q : SendQueue) : Type 0 where
  pub head_in : q.head_pos < capacity
  pub fits : q.cur_size ≤ capacity
  pub pending : q.pending_send_num ≤ q.cur_size
  pub first : 0 < q.head_seq_num
  pub numbers : q.next_seq_num ≡ q.head_seq_num + q.cur_size
  pub unwrapped : q.next_seq_num < 2 ^ 32
  pub tail : q.tail_pos ≡ (q.head_pos + q.cur_size) % capacity
  pub window : q.window_pos ≡ (q.head_pos + (q.cur_size - q.pending_send_num)) % capacity
  pub window_number : q.window_pos_seq_num + q.pending_send_num ≡ q.next_seq_num
  pub magic : q.rh.magic_num ≡ msg_magic_num

-- Slot `i` behind the head carries packet number `head_seq_num + i` of the history.
pub record IsHolding (q : SendQueue) (pushed : List Packet) : Type 0 where
  pub valid : IsValid q
  pub counted : q.next_seq_num ≡ length pushed + 1
  pub slots :
      (i : ℕ) (body : Packet)
      → i < q.cur_size
      → get_elem? pushed (q.head_seq_num + i - 1) ≡ some body
      → Carries (q.ring_buf ((q.head_pos + i) % capacity)) (q.head_seq_num + i) body

pub init-IsHolding :
    (net : Dpdk) (local dest : ℕ) (ring : ℕ → Packet) (times : ℕ → ℕ)
    → IsHolding (init net local dest ring times) []
unfolding init
init-IsHolding net local dest ring times = record {
  valid = ground arith;
  counted = omega arith;
  slots = λ i body h e. absurd (omega arith);
}
