-- ===== src/Module/Rounds.antt =====
-- What a module does with one packet (runtime/module/forward_ec_scheduler.cc,
-- recv_reliable_msgack.cc) changes one actor, as the handlers change it.
use nfvactor.Prelude.{
  ℕ, ◌+◌, ◌^◌, ◌<◌, ◌≡◌, refl, ap, ◌∙◌, Bool, Option, none, some, List, ◌>>=◌, >>=-eq-some,
  some_injective, if_cases, inl, inr, arith, update,
}
use nfvactor.Packet.{Packet}
use nfvactor.Message.{SingleMsg}
use nfvactor.Conn.{ReliableP2p, Shared}
use nfvactor.P2p.{recv}
use nfvactor.Actor.{Setting, Worker, set_control, add_active}
use nfvactor.Actor.Start.{rotate, init_with_pkt}
use nfvactor.Actor.Forward.{pkt_msg}
use nfvactor.Coordinator.{taken, take_actor, register}
use nfvactor.Coordinator.Match.{match_msg}
use nfvactor.Coordinator.Counters.{accounted}
use nfvactor.Coordinator.Sound.{waits, Keeps, Keeps-same}
use nfvactor.Coordinator.Sound.Handling.{pkt_msg-Keeps}
use nfvactor.Coordinator.Sound.Ending.{Keeps-then}
use nfvactor.Coordinator.Sound.Starting.{init_with_pkt-Keeps}
use nfvactor.Coordinator.Sound.Matching.{Moves, match_msg-Moves}
use nfvactor.Module.{
  flow_actor_of, start_flow, data_round, handled, cleaned, take_control, control_round,
  collect_packet, received,
}
use nfvactor.Module.Key.{key_of_pkt}

module _ {W : Type 0} (st : Setting W) where
  start_flow-Keeps :
      (key : ℕ) (pkt : List ℕ) (o : Option ℕ) (w : Worker W) {p : ℕ × Worker W}
      → start_flow st key pkt o w ≡ some p
      → Keeps p.0 w p.1 × (p.1.control.next_msg_id ≡ w.control.next_msg_id)
  unfolding start_flow add_active
  start_flow-Keeps key pkt none w e = rw (some_injective e) (Keeps-same _ w, refl)
  start_flow-Keeps key pkt (some a) w e =
      let (replica, l) = rotate w.control.replicas in
      let u : Worker W = add_active a (set_control (record w.control { replicas = l }) w) in
      let (v, made, g) = >>=-eq-some (init_with_pkt st key pkt replica a u) (λ v. some (a, v)) e in
      let (k, n) = init_with_pkt-Keeps st key pkt replica a u made in
      rw (some_injective g) (
        record {
          others = k.others;
          own = k.own;
          next_low = k.next_low;
          next_high = k.next_high;
          same = k.same;
        },
        n,
      )

  flow_actor_of-Keeps :
      (key : ℕ) (pkt : List ℕ) (o : Option ℕ) (w : Worker W) {p : ℕ × Worker W}
      → flow_actor_of st key pkt o w ≡ some p
      → Keeps p.0 w p.1 × (p.1.control.next_msg_id ≡ w.control.next_msg_id)
  unfolding flow_actor_of
  flow_actor_of-Keeps key pkt (some a) w e = rw (some_injective e) (Keeps-same a w, refl)
  flow_actor_of-Keeps key pkt none w e =
      let done : ℕ × Worker W → Option (ℕ × Worker W) = λ (a, v). some (a, register key a v) in
      let ((a, v), made, f) = >>=-eq-some (start_flow st key pkt (taken w) (take_actor w)) done e in
      let (k, n) = start_flow-Keeps key pkt (taken w) (take_actor w) made in
      rw (some_injective f) (
        record {
          others = k.others;
          own = k.own;
          next_low = k.next_low;
          next_high = k.next_high;
          same = k.same;
        },
        n,
      )

  pub data_round-Moves :
      (pkt : List ℕ) (w : Worker W) {w' : Worker W}
      → w.control.next_msg_id + 2 < 2 ^ 32
      → data_round st pkt w ≡ some w'
      → Moves w w'
  unfolding data_round
  data_round-Moves pkt w l e =
      let key = key_of_pkt pkt in
      let handle : ℕ × Worker W → Option (Worker W) = λ (a, v). pkt_msg st a pkt v in
      let ((a, v), made, f) = >>=-eq-some (flow_actor_of st key pkt (w.htable key) w) handle e in
      let (k, n) = flow_actor_of-Keeps key pkt (w.htable key) w made in
      (a, Keeps-then st a k n (pkt_msg-Keeps st a pkt v (omega (arith, n)) f))

  cleaned-Keeps :
      (a id : ℕ) (w v : Worker W) {w' : Worker W}
      → Keeps a w v
      → cleaned id v ≡ some w'
      → Keeps a w w'
  unfolding cleaned
  cleaned-Keeps a id w v {w' = w'} k e =
      let f : w'.actor ≡ v.actor = ground arith in
      let g : w'.control.next_msg_id ≡ v.control.next_msg_id = ground arith in
      let m : w'.control.migration ≡ v.control.migration = ground arith in
      record {
        others = λ b n h. ap (λ x. waits (x b)) f ∙ k.others b n h;
        own = λ p h. ap (λ x. waits (x a)) f ∙ k.own p h;
        next_low = omega (arith, g, k.next_low);
        next_high = omega (arith, g, k.next_high);
        same = ap accounted m ∙ k.same;
      }

  handled-Moves :
      (id : ℕ) (m : SingleMsg) (w : Worker W) {w' : Worker W}
      → w.control.next_msg_id + 2 < 2 ^ 32
      → handled st id m w ≡ some w'
      → Moves w w'
  unfolding handled
  handled-Moves id m w l e =
      let (v, done, f) = >>=-eq-some (match_msg st m w) (cleaned id) e in
      let (a, k) = match_msg-Moves st m w l done in (a, cleaned-Keeps a id w v k f)

  -- Another memory with the same actors and counters.
  Moves-from :
      (u w : Worker W) {w' : Worker W}
      → u.actor ≡ w.actor
      → u.control.next_msg_id ≡ w.control.next_msg_id
      → u.control.migration ≡ w.control.migration
      → Moves u w'
      → Moves w w'
  Moves-from u w f g h (a, k) = (
    a,
    record {
      others = λ b n p. k.others b n (ap (λ x. waits (x b)) f ∙ p);
      own = λ q p. k.own (omega (arith, g)) (ap (λ x. waits (x a)) f ∙ p);
      next_low = omega (arith, g, k.next_low);
      next_high = omega (arith, g, k.next_high);
      same = k.same ∙ ap accounted h;
    },
  )

  received-Moves :
      (id : ℕ) (w : Worker W) (out : Bool × ReliableP2p × Shared) {w' : Worker W}
      → w.control.next_msg_id + 2 < 2 ^ 32
      → received st id w out ≡ some w'
      → Moves w w'
  unfolding received
  received-Moves id w (flag, r, s) l e =
      let c = w.control in
      let u : Worker W =
        set_control (record c { reliables = update c.reliables id (some r); shared = s }) w in
      elim (if_cases flag e) [
        | inl f ↦ Moves-from u w refl refl refl (handled-Moves id r.cur_msg u l f)
        | inr f ↦ Moves-from u w refl refl refl (rw (some_injective f) (0, Keeps-same 0 u))
      ]

  found-Moves :
      (pkt : Packet) (id : ℕ) (o : Option ReliableP2p) (w : Worker W) {w' : Worker W}
      → w.control.next_msg_id + 2 < 2 ^ 32
      → elim o [
        | none ↦ none
        | some r ↦ recv st.env.now pkt r w.control.shared >>= received st id w
      ]
        ≡ some w'
      → Moves w w'
  found-Moves pkt id none w l e = absurd (cc)
  found-Moves pkt id (some r) w l e =
      let (out, got, f) =
        >>=-eq-some (recv st.env.now pkt r w.control.shared) (received st id w) e in
      received-Moves id w out l f

  from-Moves :
      (pkt : Packet) (o : Option (Option ℕ)) (w : Worker W) {w' : Worker W}
      → w.control.next_msg_id + 2 < 2 ^ 32
      → elim o [ none ↦ some (collect_packet pkt w) | some p ↦ take_control st pkt p w ] ≡ some w'
      → Moves w w'
  unfolding take_control
  from-Moves pkt none w l e =
      Moves-from (collect_packet pkt w) w refl refl refl
        (rw (some_injective e) (0, Keeps-same 0 (collect_packet pkt w)))
  from-Moves pkt (some none) w l e = absurd (cc)
  from-Moves pkt (some (some id)) w l e = found-Moves pkt id (w.control.reliables id) w l e

  pub control_round-Moves :
      (mac : ℕ) (pkt : Packet) (w : Worker W) {w' : Worker W}
      → w.control.next_msg_id + 2 < 2 ^ 32
      → control_round st mac pkt w ≡ some w'
      → Moves w w'
  unfolding control_round
  control_round-Moves mac pkt w l e = from-Moves pkt (w.control.mac_to_reliables mac) w l e
