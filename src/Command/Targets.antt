-- ===== src/Command/Targets.antt =====
-- Control connections are counted: they live as long as a command still uses them.
use nfvactor.Prelude.{
  ℕ, suc, ◌≡◌, refl, sym, ◌∙◌, ap, none, some, ◌>>=◌, update, update_self, update_ne, true, false,
}
use mathlib.Core.Path.{subst}
use native.Mathlib.Decide.{ℕ_discrete}
use nfvactor.Prelude.Int.{pos, increment, decrement}
use nfvactor.Conn
use nfvactor.Conn.{RuntimeConfig, ReliableP2p}
use nfvactor.P2p.{inc_ref_cnt, dec_ref_cnt, is_ref_cnt_zero}
use nfvactor.Command.{Control, Env, emplace, new_reliable, inc_ref, dec_ref, erase, del_mac}
use nfvactor.Command.Handle.{migration_negotiate, delete_migration_source}

pub inc_ref_found :
    (id : ℕ) (c : Control) (r : ReliableP2p)
    → c.reliables id ≡ some r
    → inc_ref id c ≡ some (record c { reliables = update c.reliables id (some (inc_ref_cnt r)) })
unfolding inc_ref
inc_ref_found id c r e = rw e refl

-- What `dec_ref` leaves of a connection with other users, and of one with none.
pub dec_ref_found :
    (id : ℕ) (c : Control) (r : ReliableP2p)
    → c.reliables id ≡ some r
    → let c' = record c { reliables = update c.reliables id (some (dec_ref_cnt r)) } in
      (is_ref_cnt_zero (dec_ref_cnt r) ≡ false → dec_ref id c ≡ some (false, c'))
      × (is_ref_cnt_zero (dec_ref_cnt r) ≡ true
          → dec_ref id c
            ≡ some (true, erase id (del_mac (dec_ref_cnt r).remote_rt_config.control_port_mac c')))
unfolding dec_ref
dec_ref_found id c r e = (λ z. rw (e, z) refl, λ z. rw (e, z) refl)

-- The coordinator with a new connection of one user.
abbrev pub opened : Env → RuntimeConfig → Control → Control
opened env config c =
    let r = new_reliable env c.local_runtime.control_port_mac config.control_port_mac 2 config c in
    record c {
      reliables =
          update (update c.reliables config.runtime_id (some r)) config.runtime_id
            (some (inc_ref_cnt r));
      mac_to_reliables =
          update c.mac_to_reliables config.control_port_mac (some (some config.runtime_id));
    }

negotiate_new :
    (env : Env) (config : RuntimeConfig) (c : Control)
    → c.reliables config.runtime_id ≡ none
    → migration_negotiate env config c ≡ some (opened env config c)
unfolding migration_negotiate emplace
negotiate_new env config c e =
    let r = new_reliable env c.local_runtime.control_port_mac config.control_port_mac 2 config c in
    rw (migration_negotiate, e, emplace, e)
      (inc_ref_found config.runtime_id _ r (update_self c.reliables config.runtime_id (some r)))

-- The user that a connection has after its first negotiation, and what remains without it.
new_user :
    (env : Env) (a b : ℕ) (config : RuntimeConfig) (c : Control)
    → let r = inc_ref_cnt (new_reliable env a b 2 config c) in
      (r.ref_cnt ≡ pos 1)
      × (is_ref_cnt_zero (dec_ref_cnt r) ≡ true)
      × ((dec_ref_cnt r).remote_rt_config ≡ config)
unfolding new_reliable Conn.init inc_ref_cnt dec_ref_cnt is_ref_cnt_zero
new_user env a b config c = (refl, refl, refl)

-- The first negotiation of a migration makes the connection, with one user, and the entry of its
-- address; the deletion of that source takes both away again.
pub negotiate_delete-new :
    (env : Env) (config : RuntimeConfig) (c : Control)
    → c.reliables config.runtime_id ≡ none
    → (c1 c2 : Control) × (migration_negotiate env config c ≡ some c1)
      × ((r : ReliableP2p) × (c1.reliables config.runtime_id ≡ some r) × (r.ref_cnt ≡ pos 1))
      × (c1.mac_to_reliables config.control_port_mac ≡ some (some config.runtime_id))
      × (delete_migration_source config c1 ≡ some c2)
      × (c2.reliables config.runtime_id ≡ none)
      × (c2.mac_to_reliables config.control_port_mac ≡ none)
unfolding delete_migration_source erase
negotiate_delete-new env config c e =
    let c1 = opened env config c in
    let id = config.runtime_id in
    let fresh =
      new_reliable env c.local_runtime.control_port_mac config.control_port_mac 2 config c in
    let r = inc_ref_cnt fresh in
    let there : c1.reliables id ≡ some r =
      update_self (update c.reliables id (some fresh)) id (some r) in
    let (one, last, kept) =
      new_user env c.local_runtime.control_port_mac config.control_port_mac config c in
    let gone = (dec_ref_found id c1 r there).1 last in
    let left = record c1 { reliables = update c1.reliables id (some (dec_ref_cnt r)) } in
    (
      c1,
      erase id (del_mac (dec_ref_cnt r).remote_rt_config.control_port_mac left),
      negotiate_new env config c e,
      (r, there, one),
      update_self c.mac_to_reliables config.control_port_mac (some (some id)),
      rw gone refl,
      update_self left.reliables id none,
      rw kept (update_self c1.mac_to_reliables config.control_port_mac none),
    )

restored :
    (r : ReliableP2p) (n : ℕ)
    → r.ref_cnt ≡ pos (suc n)
    → (dec_ref_cnt (inc_ref_cnt r) ≡ r) × (is_ref_cnt_zero r ≡ false)
unfolding inc_ref_cnt dec_ref_cnt is_ref_cnt_zero
restored r n u =
    let back : decrement (increment r.ref_cnt) ≡ r.ref_cnt = rw u refl in
    (ap (λ z. record r { ref_cnt = z }) back, rw u refl)

-- For a connection that is there, with at least one user, a negotiation and a deletion of the
-- source succeed and leave every connection as it was, and every address entry.
negotiate_delete-old :
    (env : Env) (config : RuntimeConfig) (c : Control) (r : ReliableP2p) (n id : ℕ)
    → c.reliables config.runtime_id ≡ some r
    → r.ref_cnt ≡ pos (suc n)
    → (c2 : Control) × ((migration_negotiate env config c >>= delete_migration_source config)
        ≡ some c2)
      × (c2.reliables id ≡ c.reliables id)
      × (c2.mac_to_reliables ≡ c.mac_to_reliables)
unfolding migration_negotiate delete_migration_source
negotiate_delete-old env config c r n id e u =
    let me = config.runtime_id in
    let more = inc_ref_cnt r in
    let c1 = record c { reliables = update c.reliables me (some more) } in
    let (same, used) = restored r n u in
    let still =
      (dec_ref_found me c1 more (update_self c.reliables me (some more))).0
        (ap is_ref_cnt_zero same ∙ used) in
    (
      record c1 { reliables = update c1.reliables me (some (dec_ref_cnt more)) },
      rw (migration_negotiate, e, inc_ref_found me c r e) (rw still refl),
      elim (ℕ_discrete me id) [
        | yes at ↦
            subst (λ k. update c1.reliables me (some (dec_ref_cnt more)) k ≡ c.reliables k) at
              (update_self c1.reliables me (some (dec_ref_cnt more)) ∙ ap some same ∙ sym e)
        | no at ↦
            update_ne c1.reliables me id (some (dec_ref_cnt more)) at
            ∙ update_ne c.reliables me id (some more) at
      ],
      refl,
    )
