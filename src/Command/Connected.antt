-- ===== src/Command/Connected.antt =====
-- The commands that add runtimes (runtime/module/handle_command.cc) leave a connection to them.
use nfvactor.Prelude.{
  ℕ, ◌≡◌, sym, ◌∙◌, ap, Bool, true, false, some, update_self, >>=-eq-some, some_injective,
  Option-cases, inl, inr,
}
use mathlib.Core.Path.{subst}
use nfvactor.Conn.{RuntimeConfig, ReliableP2p, Shared}
use nfvactor.Packet.{MessageHeader}
use nfvactor.P2p.{reliable_send}
use nfvactor.Pool.{coordinator_actor_id}
use nfvactor.Command.{
  Control, Env, emplace, sent, send_ping, new_reliable, set_mac, allocate_msg_id, ping,
}
use nfvactor.Command.Handle.{add_input_runtime, add_output_runtime}

abbrev pub HasConnection : ℕ → Control → Type 0
HasConnection id c = (r : ReliableP2p) × (c.reliables id ≡ some r)

pub emplace-HasConnection :
    (env : Env) (a b gate : ℕ) (config : RuntimeConfig) (c : Control)
    → HasConnection config.runtime_id (emplace env a b gate config c).1
unfolding emplace
emplace-HasConnection env a b gate config c = elim (Option-cases (c.reliables config.runtime_id)) [
  | inl e ↦
      let r = new_reliable env a b gate config c in
      (r, rw (emplace, e) (update_self c.reliables config.runtime_id (some r)))
  | inr (r, e) ↦ (r, rw (emplace, e) e)
]

pub add_input_runtime-HasConnection :
    (env : Env) (config : RuntimeConfig) (c : Control)
    → HasConnection config.runtime_id (add_input_runtime env config c)
unfolding add_input_runtime
add_input_runtime-HasConnection env config c =
    emplace-HasConnection env c.local_runtime.input_port_mac config.output_port_mac 0 config c

sent-HasConnection :
    (id : ℕ) (c k : Control) (out : Bool × ReliableP2p × Shared)
    → sent id c out ≡ some k
    → HasConnection id k
unfolding sent
sent-HasConnection id c k (true, r, s) h =
    (r, ap (λ x. x.reliables id) (some_injective h) ∙ update_self c.reliables id (some r))
sent-HasConnection id c k (false, r, s) h = absurd (cc)

send_ping-HasConnection :
    (env : Env) (id : ℕ) (c k : Control) → send_ping env id c ≡ some k → HasConnection id k
unfolding send_ping
send_ping-HasConnection env id c k h =
    let (msg_id, c') = allocate_msg_id c in
    let (r, e, f) = >>=-eq-some (c'.reliables id) _ h in
    let m : MessageHeader = record {
      send_actor_id = coordinator_actor_id;
      recv_actor_id = coordinator_actor_id;
      msg_id = msg_id;
      msg_type = ping;
      msg_pkt_num = 1;
    } in
    let (out, e', f') =
      >>=-eq-some (reliable_send env.net m env.ping_bytes env.alloc r c'.shared) (sent id c') f in
    sent-HasConnection id c' k out f'

emplace_id :
    (env : Env) (a b gate : ℕ) (config : RuntimeConfig) (c : Control) (id : ℕ)
    → (emplace env a b gate config c).0 ≡ some id
    → config.runtime_id ≡ id
unfolding emplace
emplace_id env a b gate config c id h = elim (Option-cases (c.reliables config.runtime_id)) [
  | inl e ↦ sym (some_injective (rw (emplace, e) at h))
  | inr (r, e) ↦ absurd (cc (rw (emplace, e) at h))
]

pub add_output_runtime-HasConnection :
    (env : Env) (config : RuntimeConfig) (c k : Control)
    → add_output_runtime env config c ≡ some k
    → HasConnection config.runtime_id k
unfolding add_output_runtime
add_output_runtime-HasConnection env config c k h =
    let mac = c.local_runtime.output_port_mac in
    let p = emplace env mac config.input_port_mac 1 config c in
    let (id, e, f) =
      >>=-eq-some p.0 (λ id. send_ping env id (set_mac config.input_port_mac p.0 p.1)) h in
    subst (λ i. HasConnection i k) (sym (emplace_id env mac config.input_port_mac 1 config c id e))
      (send_ping-HasConnection env id (set_mac config.input_port_mac p.0 p.1) k f)
