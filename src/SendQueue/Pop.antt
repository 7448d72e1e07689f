-- ===== src/SendQueue/Pop.antt =====
-- `pop`: an acknowledgement takes the packets before its number off the queue.
use mathlib.Core.List.{append_assoc, append-nil}
use nfvactor.Prelude.{
  ℕ, zero, suc, ◌+◌, ◌-◌, ◌%◌, ◌≤◌, ◌<◌, ◌≡◌, sym, ◌∙◌, ap, some, List, [], ◌∷◌, ◌++◌, ◌⊎◌, inl,
  inr, arith, length, ltb, Bool-cases, get_elem?,
}
use native.Mathlib.Decide.{dec_lt}
use nfvactor.Packet.{Packet}
use nfvactor.Packet.Garbage.{Garbage, collect, collected, collect_lem, max_burst}
use nfvactor.SendQueue.{SendQueue, capacity, collect_from, popped, pop}
use nfvactor.SendQueue.Inv.{IsValid, IsHolding}

-- The packets in the `n` slots from the `i`th behind the head on.
abbrev pub queued : SendQueue → ℕ → ℕ → List Packet
queued q i zero = []
queued q i (suc n) = q.ring_buf ((q.head_pos + i) % capacity) ∷ queued q (i + 1) n

pub collect_from-collected :
    (q : SendQueue) (n i : ℕ) (g : Garbage)
    → length g.garbage_pkt_batch ≤ max_burst
    → collected (collect_from q n i g) ≡ collected g ++ queued q i n
unfolding collect_from
collect_from-collected q zero i g h = sym (append-nil (collected g))
collect_from-collected q (suc n) i g h =
    let p = q.ring_buf ((q.head_pos + i) % capacity) in
    let (more, small) = collect_lem p g h in
    collect_from-collected q n (i + 1) (collect p g) small
    ∙ ap (λ c. c ++ queued q (i + 1) n) more
    ∙ append_assoc (collected g) (p ∷ []) (queued q (i + 1) n)

-- A fresh acknowledgement is above the head and no further than what was pushed.
abbrev pub IsFresh : SendQueue → ℕ → Type 0
IsFresh q ack = (q.head_seq_num < ack) × (ack ≤ q.next_seq_num)

popped-IsValid :
    (q : SendQueue) (ack now : ℕ)
    → IsValid q
    → IsFresh q ack
    → IsValid (popped ack (ack - q.head_seq_num) now q)
unfolding popped
popped-IsValid q ack now v f = elim (Bool-cases (ltb q.window_pos_seq_num ack)) [
  | inl e ↦ rw (e, popped) (omega arith)
  | inr e ↦ rw (e, popped) (let h : ack ≤ q.window_pos_seq_num = ground arith in omega arith)
]

popped_head :
    (q : SendQueue) (ack n now : ℕ)
    → ((popped ack n now q).head_pos ≡ (q.head_pos + n) % capacity)
      × ((popped ack n now q).cur_size ≡ q.cur_size - n)
      × ((popped ack n now q).head_seq_num ≡ ack)
      × ((popped ack n now q).next_seq_num ≡ q.next_seq_num)
      × ((popped ack n now q).ring_buf ≡ q.ring_buf)
unfolding popped
popped_head q ack n now = ground arith

popped-IsHolding :
    (q : SendQueue) (hist : List Packet) (ack now : ℕ)
    → IsHolding q hist
    → IsFresh q ack
    → IsHolding (popped ack (ack - q.head_seq_num) now q) hist
popped-IsHolding q hist ack now v f = record {
  valid = popped-IsValid q ack now v.valid f;
  counted = omega (arith, v.counted, same);
  slots = λ i body h e.
      let j = ack - q.head_seq_num + i in
      let at : (popped ack n now q).head_pos + i ≡ (q.head_pos + n) % capacity + i =
        omega (arith, same) in
      let slot : ((popped ack n now q).head_pos + i) % capacity ≡ (q.head_pos + j) % capacity =
        omega (arith, same) in
      let number : (popped ack n now q).head_seq_num + i ≡ q.head_seq_num + j =
        omega (arith, same) in
      let index : q.head_seq_num + j - 1 ≡ (popped ack n now q).head_seq_num + i - 1 =
        omega (arith, number) in
      let held = v.slots j body (omega (arith, same)) (ap (get_elem? hist) index ∙ e) in
      rw (same.4, slot, number) held;
}
  where
    n : ℕ
    n = ack - q.head_seq_num

    same :
        ((popped ack n now q).head_pos ≡ (q.head_pos + n) % capacity)
        × ((popped ack n now q).cur_size ≡ q.cur_size - n)
        × ((popped ack n now q).head_seq_num ≡ ack)
        × ((popped ack n now q).next_seq_num ≡ q.next_seq_num)
        × ((popped ack n now q).ring_buf ≡ q.ring_buf)
    same = popped_head q ack n now

-- An old or impossible acknowledgement changes nothing.
pub pop_stale :
    (q : SendQueue) (g : Garbage) (ack now : ℕ)
    → (ack ≤ q.head_seq_num) ⊎ (q.next_seq_num < ack)
    → pop ack now q g ≡ some (q, g)
unfolding pop
pop_stale q g ack now (inl h) = ground arith
pop_stale q g ack now (inr h) = ground arith

pop_fresh :
    (q : SendQueue) (g : Garbage) (ack now : ℕ)
    → IsValid q
    → IsFresh q ack
    → pop ack now q g
      ≡ some (popped ack (ack - q.head_seq_num) now q, collect_from q (ack - q.head_seq_num) 0 g)
unfolding pop
pop_fresh q g ack now v f = ground (arith, v.numbers)

-- On a queue in its invariant, with a garbage batch that is not overfull, a fresh acknowledgement
-- frees exactly the packets before it, in order, and makes its number the head; the assertion in
-- `pop` holds.
pub pop-IsHolding :
    (q : SendQueue) (hist : List Packet) (g : Garbage) (ack now : ℕ)
    → IsHolding q hist
    → length g.garbage_pkt_batch ≤ max_burst
    → IsFresh q ack
    → (r : SendQueue × Garbage) × (pop ack now q g ≡ some r)
      × IsHolding r.0 hist
      × (r.0.head_seq_num ≡ ack)
      × (r.0.cur_size ≡ q.next_seq_num - ack)
      × (collected r.1 ≡ collected g ++ queued q 0 (ack - q.head_seq_num))
pop-IsHolding q hist g ack now v small f =
    let n = ack - q.head_seq_num in
    let same = popped_head q ack n now in
    (
      (popped ack n now q, collect_from q n 0 g),
      pop_fresh q g ack now v.valid f,
      popped-IsHolding q hist ack now v f,
      same.2,
      omega (arith, same, v.valid.numbers),
      collect_from-collected q n 0 g small,
    )

-- On a queue in its invariant, `pop` never fails its assertion, whatever number it is given, and
-- keeps the history.
pub pop_total :
    (q : SendQueue) (hist : List Packet) (g : Garbage) (ack now : ℕ)
    → IsHolding q hist
    → (r : SendQueue × Garbage) × (pop ack now q g ≡ some r) × IsHolding r.0 hist
pop_total q hist g ack now v = elim (dec_lt q.head_seq_num ack) [
  | no h ↦ ((q, g), pop_stale q g ack now (inl (omega arith)), v)
  | yes h ↦ elim (dec_lt q.next_seq_num ack) [
    | yes k ↦ ((q, g), pop_stale q g ack now (inr k), v)
    | no k ↦ (
      (popped ack (ack - q.head_seq_num) now q, collect_from q (ack - q.head_seq_num) 0 g),
      pop_fresh q g ack now v.valid (h, omega arith),
      popped-IsHolding q hist ack now v (h, omega arith),
    )
  ]
]

-- The head moves to the acknowledged number, or stays.
pub pop_head :
    (q : SendQueue) (g : Garbage) (ack now : ℕ) {out : SendQueue × Garbage}
    → pop ack now q g ≡ some out
    → (out.0.head_seq_num ≡ q.head_seq_num) ⊎ (out.0.head_seq_num ≡ ack)
unfolding pop
pop_head q g ack now {out} h = ground (arith, popped_head q ack (ack - q.head_seq_num) now)
