-- ===== src/Coordinator/Sound/Starting.antt =====
-- The init handlers of a flow actor, and the coordinator's own handlers.
use nfvactor.Prelude.{
  ℕ, ◌+◌, ◌%◌, ◌^◌, ◌<◌, ◌≡◌, ◌≢◌, ap, ◌∙◌, Bool, true, false, Option, none, some, List,
  >>=-eq-some, some_injective, else_of, ltb, length, arith,
}
use nfvactor.Prelude.Bytes.{field}
use nfvactor.Timer
use nfvactor.Command.{inc_ref}
use nfvactor.Actor
use nfvactor.Actor.{FlowEtherHeader, header_init, FlowActor, Setting, Worker, modify, add_active}
use nfvactor.Actor.Header.{CreateTarget, NewRoute, TwoWords}
use nfvactor.Actor.Start.{
  begin, rtid_of_mac, start_states, choose_replica, choose_output, set_input, set_replication,
  set_headers, open_flow, init_with_pkt, init_with_cstruct, init_with_first_rep_pkt,
}
use nfvactor.Coordinator
use nfvactor.Coordinator.{respond, created, reroute, answer_route, take_actor, register}
use nfvactor.Coordinator.Counters.{accounted}
use nfvactor.Coordinator.Sound.{waits, Keeps, Keeps-same}

-- A step of an init handler changes its actor, but not the state it was given.
record Begins {W : Type 0} (a : ℕ) (w w' : Worker W) : Type 0 where
  others : (b : ℕ) → a ≢ b → w'.actor b ≡ w.actor b
  state : (w'.actor a).current_state ≡ (w.actor a).current_state
  same_next : w'.control.next_msg_id ≡ w.control.next_msg_id
  same_migration : w'.control.migration ≡ w.control.migration

waits_odd : (x : FlowActor) → x.current_state % 2 ≢ 0 → waits x ≡ true
unfolding waits
waits_odd x h = ground arith

module _ {W : Type 0} where
  Begins-trans : (a : ℕ) {u v w : Worker W} → Begins a v w → Begins a u v → Begins a u w
  Begins-trans a h g = record {
    others = λ b n. h.others b n ∙ g.others b n;
    state = h.state ∙ g.state;
    same_next = h.same_next ∙ g.same_next;
    same_migration = h.same_migration ∙ g.same_migration;
  }

  -- The handler gives the actor an odd state first.
  Begins-Keeps :
      (a state key : ℕ) {u w : Worker W}
      → Begins a (begin state key a u) w
      → state % 2 ≢ 0
      → Keeps a u w × (w.control.next_msg_id ≡ u.control.next_msg_id)
  Begins-Keeps a state key {u} {w} g odd = (
    record {
      others = λ b n h. ap waits (g.others b n) ∙ (ground (arith, h));
      own = λ p h. waits_odd (w.actor a) (λ k. odd (ground (arith, g.state, k)));
      next_low = omega (arith, g.same_next);
      next_high = omega (arith, g.same_next);
      same = ap accounted g.same_migration;
    },
    g.same_next,
  )

  choose_replica-Begins :
      (replica : Option ℕ) (a : ℕ) (w : Worker W) {w' : Worker W}
      → choose_replica replica a w ≡ some w'
      → Begins a w w'
  unfolding choose_replica inc_ref
  choose_replica-Begins none a w e = record {
    others = λ b n. ground arith;
    state = ground arith;
    same_next = ground arith;
    same_migration = ground arith;
  }
  choose_replica-Begins (some rtid) a w e = record {
    others = λ b n. ground arith;
    state = ground arith;
    same_next = ground arith;
    same_migration = ground arith;
  }

  choose_output-Begins : (a : ℕ) (w : Worker W) → Begins a w (choose_output a w)
  unfolding choose_output
  choose_output-Begins a w = record {
    others = λ b n. ground arith;
    state = ground arith;
    same_next = ground arith;
    same_migration = ground arith;
  }

  set_input-Begins : (h : FlowEtherHeader) (a : ℕ) (w : Worker W) → Begins a w (set_input h a w)
  unfolding set_input
  set_input-Begins h a w = record {
    others = λ b n. ground arith;
    state = ground arith;
    same_next = ground arith;
    same_migration = ground arith;
  }

  set_replication-Begins : (s a : ℕ) (w : Worker W) → Begins a w (set_replication s a w)
  unfolding set_replication
  set_replication-Begins s a w = record {
    others = λ b n. ground arith;
    state = ground arith;
    same_next = ground arith;
    same_migration = ground arith;
  }

  set_headers-Begins : (i m o n a : ℕ) (w : Worker W) → Begins a w (set_headers i m o n a w)
  unfolding set_headers
  set_headers-Begins i m o n a w = record {
    others = λ b k. ground arith;
    state = ground arith;
    same_next = ground arith;
    same_migration = ground arith;
  }

module _ {W : Type 0} (st : Setting W) where
  start_states-Begins :
      (init : Bool) (a : ℕ) (w : Worker W) {w' : Worker W}
      → start_states st init a w ≡ some w'
      → Begins a w w'
  unfolding start_states Actor.add_idle_timer Timer.add_timer
  start_states-Begins init a w e = record {
    others = λ b n. ground arith;
    state = ground arith;
    same_next = ground arith;
    same_migration = ground arith;
  }

  pub init_with_cstruct-Keeps :
      (c : CreateTarget) (a : ℕ) (w : Worker W) {w' : Worker W}
      → init_with_cstruct st c a w ≡ some w'
      → Keeps a w w' × (w'.control.next_msg_id ≡ w.control.next_msg_id)
  unfolding init_with_cstruct
  init_with_cstruct-Keeps c a w e =
      Begins-Keeps a 3 c.flow_key
        (Begins-trans a (start_states-Begins true a _ e)
          (Begins-trans a (set_headers-Begins _ _ _ _ a _) (set_replication-Begins _ a _)))
        (omega arith)

  pub init_with_first_rep_pkt-Keeps :
      (key : ℕ) (bytes : List ℕ) (a : ℕ) (w : Worker W) {w' : Worker W}
      → init_with_first_rep_pkt st key bytes a w ≡ some w'
      → Keeps a w w' × (w'.control.next_msg_id ≡ w.control.next_msg_id)
  unfolding init_with_first_rep_pkt
  init_with_first_rep_pkt-Keeps key bytes a w e =
      Begins-Keeps a 1 key
        (Begins-trans a (start_states-Begins false a _ (else_of (ltb (length bytes) 20) e))
          (Begins-trans a (set_headers-Begins _ _ _ _ a _) (set_replication-Begins _ a _)))
        (omega arith)

  open_flow-Begins :
      (pkt : List ℕ) (a : ℕ) (w : Worker W) {w' : Worker W}
      → open_flow st pkt a w ≡ some w'
      → Begins a w w'
  unfolding open_flow
  open_flow-Begins pkt a w e =
      let mac = field pkt 6 6 in
      let opened : ℕ → Worker W =
        λ rtid. set_input (header_init rtid mac w.control.local_runtime.input_port_mac) a w in
      let (rtid, c, f) =
        >>=-eq-some (rtid_of_mac mac w.control)
          (λ rtid. start_states st true a (choose_output a (opened rtid))) e in
      Begins-trans a (start_states-Begins true a _ f)
        (Begins-trans a (choose_output-Begins a (opened rtid)) (set_input-Begins _ a w))

  pub init_with_pkt-Keeps :
      (key : ℕ) (pkt : List ℕ) (replica : Option ℕ) (a : ℕ) (w : Worker W) {w' : Worker W}
      → init_with_pkt st key pkt replica a w ≡ some w'
      → Keeps a w w' × (w'.control.next_msg_id ≡ w.control.next_msg_id)
  unfolding init_with_pkt
  init_with_pkt-Keeps key pkt replica a w e =
      let (w1, c1, e1) = >>=-eq-some _ (open_flow st pkt a) e in
      Begins-Keeps a 1 key
        (Begins-trans a (open_flow-Begins pkt a w1 e1) (choose_replica-Begins replica a _ c1))
        (omega arith)

  -- The coordinator's handlers work on no actor that is a migration's source.
  pub answer_route-Keeps :
      (msg_type rtid id msg_id : ℕ) (n : NewRoute) (w : Worker W) {w' : Worker W}
      → w.control.next_msg_id + 2 < 2 ^ 32
      → answer_route msg_type st rtid id msg_id n w ≡ some w'
      → Keeps 0 w w'
  unfolding answer_route reroute respond Actor.allocate_msg_id waits
  answer_route-Keeps msg_type rtid id msg_id n w l e = record {
    others = λ b n h. ground arith;
    own = λ p h. ground arith;
    next_low = ground arith;
    next_high = ground arith;
    same = ground arith;
  }

  pub ping-Keeps :
      (rtid : ℕ) (w : Worker W) {w' : Worker W}
      → Coordinator.ping st rtid w ≡ some w'
      → Keeps 0 w w'
  unfolding Coordinator.ping
  ping-Keeps rtid w e = record {
    others = λ b n h. ground arith;
    own = λ p h. ground arith;
    next_low = ground arith;
    next_high = ground arith;
    same = ground arith;
  }

  respond-Keeps :
      (a rtid id t : ℕ) (c : TwoWords) (w : Worker W) {w' : Worker W}
      → w.control.next_msg_id + 2 < 2 ^ 32
      → respond st rtid id t c w ≡ some w'
      → Keeps a w w'
  unfolding respond Actor.allocate_msg_id
  respond-Keeps a rtid id t c w l e = record {
    others = λ b n h. ground arith;
    own = λ p h. ground arith;
    next_low = ground arith;
    next_high = ground arith;
    same = ground arith;
  }

  pub created-Keeps :
      (rtid id msg_id : ℕ) (c : CreateTarget) (o : Option ℕ) (w : Worker W) {w' : Worker W}
      → w.control.next_msg_id + 2 < 2 ^ 32
      → created st rtid id msg_id c o w ≡ some w'
      → (a : ℕ) × Keeps a w w'
  unfolding created add_active
  created-Keeps rtid id msg_id c none w l e = (0, rw (some_injective e) (Keeps-same 0 w))
  created-Keeps rtid id msg_id c (some a) w l e =
      let answer : Worker W → TwoWords =
        λ v. record { request_msg_id = msg_id; answer = v.allocator.actor_id a } in
      let (v, made, f) =
        >>=-eq-some (init_with_cstruct st c a (add_active a w))
          (λ v. respond st rtid id 8 (answer v) (register c.flow_key a v)) e in
      let (k, n) = init_with_cstruct-Keeps c a (add_active a w) made in
      let g = respond-Keeps a rtid id 8 (answer v) (register c.flow_key a v) (omega (arith, n)) f in
      (
        a,
        record {
          others = λ b m h. g.others b m (k.others b m h);
          own = λ p h. g.own (omega (arith, n)) (k.own p h);
          next_low = omega (arith, n, g.next_low);
          next_high = omega (arith, n, g.next_high);
          same = g.same ∙ k.same;
        },
      )
