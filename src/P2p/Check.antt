-- ===== src/P2p/Check.antt =====
-- `check`: going back when no acknowledgement comes.
use nfvactor.Prelude.{
  ℕ, ◌+◌, ◌-◌, ◌<◌, ◌≤◌, ◌≡◌, ◌⊎◌, refl, sym, false, some, List, [], ◌∷◌, ◌==◌, ltb, ◌&&◌,
  if◌then◌else◌, arith, Option-cases, Bool-cases, if_split, >>=-eq-some, some_injective, inl, inr,
}
use mathlib.Core.Path.{subst}
use nfvactor.Packet.{Packet}
use nfvactor.SendQueue.{reset_window_pos}
use nfvactor.SendQueue.Inv.{IsHolding}
use nfvactor.SendQueue.Reset.{reset_empty}
use nfvactor.SendQueue.Window.{reset_window_pos-IsHolding}
use nfvactor.Conn.{ReliableP2p, Shared, SendItem, add64}
use nfvactor.P2p.{
  check, no_progress, next_round, shut_down, reset, prepend_to_reliable_send_list, grow_first,
  new_item,
}

new_item_free :
    (n : ℕ) (r : ReliableP2p) (s : Shared)
    → 0 < s.free_items
    → new_item n r s
      ≡ some (
        record { pkt_num = n; reliable_rtid = r.dest_rtid; output_gate = r.output_gate },
        record s { free_items = s.free_items - 1 },
      )
unfolding new_item
new_item_free n r s h = ground arith

-- A free list item is enough for packets to be put back on the send list.
prepend_total :
    (n : ℕ) (r : ReliableP2p) (s : Shared)
    → 0 < s.free_items
    → (s' : Shared) × (prepend_to_reliable_send_list n r s ≡ some s')
unfolding prepend_to_reliable_send_list
prepend_total n r s h = elim (Option-cases (grow_first n r s.reliable_send_list)) [
  | inl e ↦
      let item : SendItem = record {
        pkt_num = n;
        reliable_rtid = r.dest_rtid;
        output_gate = r.output_gate;
      } in
      let made : new_item n r s ≡ some (item, record s { free_items = s.free_items - 1 }) =
        new_item_free n r s h in
      (
        record s {
          free_items = s.free_items - 1;
          reliable_send_list = item ∷ s.reliable_send_list;
        },
        rw (prepend_to_reliable_send_list, e, made) refl,
      )
  | inr (l, e) ↦ (record s { reliable_send_list = l }, rw (prepend_to_reliable_send_list, e) refl)
]

-- Before its time, `check` does nothing.
pub check_early :
    (now : ℕ) (r : ReliableP2p) (s : Shared) → now ≤ r.next_check_time → check now r s ≡ some (r, s)
unfolding check
check_early now r s h = ground arith

-- On a connection whose queue is in its invariant: a round that is due, with packets in the queue and the head where it was, before the 5000th such
-- round in a row and with a list item free: the queue keeps its packets, all of them are to be sent
-- again from the head on, and the round is counted.
check_goes_back :
    (now : ℕ) (r : ReliableP2p) (s : Shared) (hist : List Packet)
    → IsHolding r.send_queue hist
    → r.next_check_time < now
    → r.last_check_head_seq_num ≡ r.send_queue.head_seq_num
    → 0 < r.send_queue.cur_size
    → r.consecutive_counter + 1 < 5000
    → 0 < s.free_items
    → (r' : ReliableP2p) × (s' : Shared) × (check now r s ≡ some (r', s'))
      × IsHolding r'.send_queue hist
      × (r'.send_queue.pending_send_num ≡ r.send_queue.cur_size)
      × (r'.send_queue.window_pos_seq_num ≡ r.send_queue.head_seq_num)
      × (r'.consecutive_counter ≡ r.consecutive_counter + 1)
unfolding check no_progress next_round
check_goes_back now r s hist v due same some_left few free =
    let (n, q) = reset_window_pos r.send_queue in
    let back = reset_window_pos-IsHolding r.send_queue hist v in
    let r1 = record r { send_queue = q; consecutive_counter = add64 r.consecutive_counter 1 } in
    let (s', put) = prepend_total n r1 s free in
    (next_round now r1, s', ground (arith, put), back.0, back.2, back.1, omega (arith, few))

-- The connection is given up, with an empty queue.
pub record IsGivenUp (r r' : ReliableP2p) : Type 0 where
  pub down : r'.is_connection_up ≡ false
  pub emptied : (hist : List Packet) → IsHolding r.send_queue hist → IsHolding r'.send_queue []

-- The connection goes on: the queue keeps its packets and its head, and what was received stays.
pub record GoesOn (r r' : ReliableP2p) : Type 0 where
  pub same_up : r'.is_connection_up ≡ r.is_connection_up
  pub same_next : r'.next_seq_num_to_recv ≡ r.next_seq_num_to_recv
  pub same_batch : r'.batch ≡ r.batch
  pub same_msg : r'.cur_msg ≡ r.cur_msg
  pub same_head : r'.send_queue.head_seq_num ≡ r.send_queue.head_seq_num
  pub holding : (hist : List Packet) → IsHolding r.send_queue hist → IsHolding r'.send_queue hist

back-GoesOn :
    (r : ReliableP2p) (n : ℕ)
    → GoesOn r
        (record r { send_queue = (reset_window_pos r.send_queue).1; consecutive_counter = n })
unfolding reset_window_pos
back-GoesOn r n = record {
  same_up = refl;
  same_next = refl;
  same_batch = refl;
  same_msg = refl;
  same_head = refl;
  holding = λ hist v. (reset_window_pos-IsHolding r.send_queue hist v).0;
}

shut_down-IsGivenUp :
    (r r1 : ReliableP2p) (s : Shared) → GoesOn r r1 → IsGivenUp r (shut_down r1 s).0
unfolding shut_down reset
shut_down-IsGivenUp r r1 s d = record {
  down = refl;
  emptied = λ hist v. reset_empty r1.send_queue hist s.gp_collector (d.holding hist v);
}

no_progress-cases :
    (r : ReliableP2p) (s : Shared) {out : ReliableP2p × Shared}
    → no_progress r s ≡ some out
    → IsGivenUp r out.0 ⊎ GoesOn r out.0
unfolding no_progress
no_progress-cases r s {out} h =
    let q = (reset_window_pos r.send_queue).1 in
    let r1 = record r { send_queue = q; consecutive_counter = add64 r.consecutive_counter 1 } in
    let back = back-GoesOn r (add64 r.consecutive_counter 1) in
    let (s', put, e) =
      >>=-eq-some (prepend_to_reliable_send_list (reset_window_pos r.send_queue).0 r1 s)
        (λ s'. some (if r1.consecutive_counter == 5000 then shut_down r1 s' else (r1, s'))) h in
    elim (Bool-cases (r1.consecutive_counter == 5000)) [
      | inl t ↦ inl (
          subst (λ p. IsGivenUp r p.0) (sym (some_injective (rw t at e)))
            (shut_down-IsGivenUp r r1 s' back))
      | inr t ↦ inr (subst (λ p. GoesOn r p.0) (sym (some_injective (rw t at e))) back)
    ]

GoesOn-same : (r : ReliableP2p) (n : ℕ) → GoesOn r (record r { consecutive_counter = n })
GoesOn-same r n = record {
  same_up = refl;
  same_next = refl;
  same_batch = refl;
  same_msg = refl;
  same_head = refl;
  holding = λ hist v. v;
}

next_round-GoesOn : (now : ℕ) (r r' : ReliableP2p) → GoesOn r r' → GoesOn r (next_round now r')
unfolding next_round
next_round-GoesOn now r r' d = record {
  same_up = d.same_up;
  same_next = d.same_next;
  same_batch = d.same_batch;
  same_msg = d.same_msg;
  same_head = d.same_head;
  holding = d.holding;
}

next_round-IsGivenUp :
    (now : ℕ) (r r' : ReliableP2p) → IsGivenUp r r' → IsGivenUp r (next_round now r')
unfolding next_round
next_round-IsGivenUp now r r' d = record { down = d.down; emptied = d.emptied }

-- Whatever `check` finds, the connection is given up, or it goes on.
pub check-cases :
    (now : ℕ) (r : ReliableP2p) (s : Shared) {out : ReliableP2p × Shared}
    → check now r s ≡ some out
    → IsGivenUp r out.0 ⊎ GoesOn r out.0
unfolding check
check-cases now r s {out} h = elim (if_split (ltb r.next_check_time now) h) [
  | inr (t, f) ↦
      inr (subst (λ p. GoesOn r p.0) (sym (some_injective f)) (GoesOn-same r r.consecutive_counter))
  | inl (t, f) ↦
      elim (if_split
        ((r.last_check_head_seq_num == r.send_queue.head_seq_num) && ltb 0 r.send_queue.cur_size)
        f) [
          | inr (u, g) ↦ inr (
              subst (λ p. GoesOn r p.0) (sym (some_injective g))
                (next_round-GoesOn now r _ (GoesOn-same r 0)))
          | inl (u, g) ↦
              let (p, e, k) =
                >>=-eq-some (no_progress r s) (λ p. some (next_round now p.0, p.1)) g in
              elim (no_progress-cases r s e) [
                | inl d ↦ inl (
                    subst (λ p. IsGivenUp r p.0) (sym (some_injective k))
                      (next_round-IsGivenUp now r p.0 d))
                | inr d ↦ inr (
                    subst (λ p. GoesOn r p.0) (sym (some_injective k))
                      (next_round-GoesOn now r p.0 d))
              ]
        ]
]
