-- ===== src/Module/Send/Ends.antt =====
-- The loop of runtime/module/send_reliable_msg.cc ends, with a batch of at most 32 packets.
use nfvactor.Prelude.{
  ℕ, zero, suc, ◌+◌, ◌-◌, ◌%◌, ◌<◌, ◌≤◌, ◌≡◌, refl, ap, Option, none, some, List, [], ◌∷◌, ◌++◌,
  ◌==◌, arith, if◌then◌else◌, ltb, leb, length, length-append, map, update, Option-cases,
  Bool-cases, ltb→lt, leb→le, some_injective, inl, inr,
}
use nfvactor.Packet.{Packet}
use nfvactor.Packet.Garbage.{max_burst}
use nfvactor.SendQueue.{SendQueue, capacity, get_window_batch, copy_window}
use nfvactor.Conn.{ReliableP2p, SendItem}
use nfvactor.Command.{Control}
use nfvactor.Module.Send.{
  First, at_head, freed, current, rest_of, with_head, pop_item, set_head, Sending, send_round,
  send_loop, fuel, run_send_reliable_msg,
}

copy_window-length :
    (q : SendQueue) (now copies n pos : ℕ) (times : ℕ → ℕ) (batch : List Packet)
    → length (copy_window q now copies n pos times batch).0 ≤ length batch + n
unfolding copy_window
copy_window-length q now copies zero pos times batch = omega arith
copy_window-length q now zero (suc n) pos times batch = omega arith
copy_window-length q now (suc copies) (suc n) pos times batch =
    let at = (q.window_pos + pos) % capacity in
    let grown = batch ++ q.ring_buf at ∷ [] in
    omega (
      arith,
      copy_window-length q now copies n (pos + 1) (update times at now) grown,
      length-append batch (q.ring_buf at ∷ []),
    )

get_window_batch-length :
    (size now copies : ℕ) (q : SendQueue) → length (get_window_batch size now copies q).0 ≤ size
unfolding get_window_batch
get_window_batch-length size now copies q = elim (Bool-cases (ltb q.pending_send_num size)) [
  | inl e ↦ rw e (
      omega
        (arith, ltb→lt _ _ e, copy_window-length q now copies q.pending_send_num 0 q.send_time []))
  | inr e ↦ rw e (omega (arith, copy_window-length q now copies size 0 q.send_time []))
]

length-map : {A B : Type 0} (f : A → B) (l : List A) → length (map f l) ≡ length l
length-map f [] = refl
length-map f (x ∷ l) = ap suc (length-map f l)

fuel-freed : (i : SendItem) (l : List SendItem) → fuel (freed i) l ≡ fuel at_head l + 1
unfolding fuel
fuel-freed i [] = omega arith
fuel-freed i (j ∷ l) = omega (arith, fuel-freed i l)

-- An item that was given back has no packets.
abbrev IsEmptied : First → Type 0
IsEmptied at_head = Unit
IsEmptied (freed i) = i.pkt_num ≡ 0

-- What a round makes of a state with an item to serve.
record Advances (s s' : Sending) : Type 0 where
  less :
      fuel s'.first s'.control.shared.reliable_send_list
      < fuel s.first s.control.shared.reliable_send_list
  room : length s'.batch ≤ max_burst
  emptied : IsEmptied s'.first

-- How many packets a round adds.
room_lem :
    (now copies : ℕ) (gate : ℕ) (r : ReliableP2p) (batch : List (Packet × ℕ)) (size : ℕ)
    → size + length batch ≤ max_burst
    → length (batch ++ map (λ p. (p, gate)) (get_window_batch size now copies r.send_queue).0)
      ≤ max_burst
room_lem now copies gate r batch size h =
    let pkts = (get_window_batch size now copies r.send_queue).0 in
    let tag : Packet → Packet × ℕ = λ p. (p, gate) in
    let tagged = map tag pkts in
    omega (
      arith,
      length-append batch tagged,
      length-map tag pkts,
      get_window_batch-length size now copies r.send_queue,
    )

fuel_pos : (first : First) (l : List SendItem) → 0 < fuel first l
unfolding fuel
fuel_pos at_head [] = omega arith
fuel_pos (freed i) [] = omega arith
fuel_pos at_head (j ∷ l) = omega arith
fuel_pos (freed i) (j ∷ l) = omega arith

-- Taking the first item off the list, if it is the one that is served.
popped :
    (first : First) (l : List SendItem) (i : SendItem)
    → current first l ≡ some i
    → fuel at_head (rest_of l) < fuel first l
unfolding current fuel rest_of
popped at_head [] i c = absurd (cc)
popped at_head (j ∷ l) i c = omega arith
popped (freed j) [] i c = omega arith
popped (freed j) (k ∷ l) i c = omega (arith, fuel-freed j l)

-- An item that is used up is one of the list, and has had packets.
used_up :
    (first : First) (l : List SendItem) (i left : SendItem) (residual : ℕ)
    → current first l ≡ some i
    → IsEmptied first
    → 0 < residual
    → residual ≤ i.pkt_num
    → fuel (freed left) (rest_of l) < fuel first l
unfolding current fuel rest_of
used_up at_head [] i left residual c z p h = absurd (cc)
used_up at_head (j ∷ l) i left residual c z p h =
    omega (arith, fuel-freed left l, ap (λ k. k.pkt_num) (some_injective c))
used_up (freed j) l i left residual c z p h =
    absurd (omega (arith, z, ap (λ k. k.pkt_num) (some_injective c)))

-- The list's first item with fewer packets.
taken_off :
    (first : First) (l : List SendItem) (i : SendItem) (residual : ℕ)
    → current first l ≡ some i
    → IsEmptied first
    → 0 < residual
    → residual ≤ i.pkt_num
    → fuel first (with_head (record i { pkt_num = i.pkt_num - residual }) l) < fuel first l
unfolding current fuel with_head
taken_off at_head [] i residual c z p h = absurd (cc)
taken_off at_head (j ∷ l) i residual c z p h = omega (arith, ap (λ k. k.pkt_num) (some_injective c))
taken_off (freed j) l i residual c z p h =
    absurd (omega (arith, z, ap (λ k. k.pkt_num) (some_injective c)))

-- A round makes progress.
round-Advances :
    (now copies : ℕ) (i : SendItem) (s : Sending)
    → current s.first s.control.shared.reliable_send_list ≡ some i
    → IsEmptied s.first
    → length s.batch < max_burst
    → Advances s (send_round now copies i s)
unfolding send_round pop_item set_head
round-Advances now copies i s c z h =
    let l = s.control.shared.reliable_send_list in
    let residual = max_burst - length s.batch in
    elim (Option-cases (s.control.reliables i.reliable_rtid)) [
      | inl e ↦
          rw (send_round, e)
            (record { less = popped s.first l i c; room = omega arith; emptied = tt })
      | inr (r, e) ↦ elim (Bool-cases (leb residual i.pkt_num)) [
        | inr f ↦
            rw (send_round, e, f)
              (record {
                less = popped s.first l i c;
                room = room_lem now copies i.output_gate r s.batch i.pkt_num (ground arith);
                emptied = tt;
              })
        | inl f ↦
            let full = room_lem now copies i.output_gate r s.batch residual (omega arith) in
            elim (Bool-cases (i.pkt_num - residual == 0)) [
              | inl g ↦
                  rw (send_round, e, f, g)
                    (record {
                      less = used_up s.first l i _ residual c z (omega arith) (leb→le _ _ f);
                      room = full;
                      emptied = ground (arith, g);
                    })
              | inr g ↦
                  rw (send_round, e, f, g)
                    (record {
                      less = taken_off s.first l i residual c z (omega arith) (leb→le _ _ f);
                      room = full;
                      emptied = z;
                    })
            ]
      ]
    ]

-- A loop step, whatever is served.
loop_step :
    (n now : ℕ) (copies : ℕ → ℕ) (s : Sending) (o : Option SendItem)
    → current s.first s.control.shared.reliable_send_list ≡ o
    → fuel s.first s.control.shared.reliable_send_list ≤ suc n
    → IsEmptied s.first
    → length s.batch ≤ max_burst
    → ((s' : Sending)
        → fuel s'.first s'.control.shared.reliable_send_list ≤ n
        → IsEmptied s'.first
        → length s'.batch ≤ max_burst
        → (out : Sending) × (send_loop n now copies s' ≡ some out) × (length out.batch ≤ max_burst))
    → (out : Sending) × (elim o [
      | none ↦ some s
      | some i ↦
          let rest = send_loop n now copies (send_round now (copies n) i s) in
          if length s.batch == max_burst then some s else rest
    ]
        ≡ some out)
      × (length out.batch ≤ max_burst)
loop_step n now copies s none c f z h next = (s, refl, h)
loop_step n now copies s (some i) c f z h next = elim (Bool-cases (length s.batch == max_burst)) [
  | inl e ↦ (s, rw e refl, h)
  | inr e ↦
      let a = round-Advances now (copies n) i s c z (ground (arith, e)) in
      let (out, g, k) =
        next (send_round now (copies n) i s) (omega (arith, a.less)) a.emptied a.room in
      (out, rw e g, k)
]

send_loop-ends :
    (n now : ℕ) (copies : ℕ → ℕ) (s : Sending)
    → fuel s.first s.control.shared.reliable_send_list ≤ n
    → IsEmptied s.first
    → length s.batch ≤ max_burst
    → (out : Sending) × (send_loop n now copies s ≡ some out) × (length out.batch ≤ max_burst)
unfolding send_loop
send_loop-ends zero now copies s f z h =
    absurd (omega (arith, fuel_pos s.first s.control.shared.reliable_send_list))
send_loop-ends (suc n) now copies s f z h =
    loop_step n now copies s (current s.first s.control.shared.reliable_send_list) refl f z h
      (λ s' f' z' h'. send_loop-ends n now copies s' f' z' h')

-- The loop that sends messages always ends, however many packets can be copied, whichever
-- connections are gone and whatever the items say; its batch has at most 32 packets.
pub run_send_reliable_msg-ends :
    (now : ℕ) (copies : ℕ → ℕ) (c : Control)
    → (out : Sending) × (run_send_reliable_msg now copies c ≡ some out)
      × (length out.batch ≤ max_burst)
unfolding run_send_reliable_msg
run_send_reliable_msg-ends now copies c =
    send_loop-ends (fuel at_head c.shared.reliable_send_list) now copies
      (record { first = at_head; batch = []; control = c }) (omega arith) tt (omega arith)
