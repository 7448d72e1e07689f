-- ===== src/Command/LastUser.antt =====
-- A connection of one user goes away with that user (runtime/module/handle_command.cc).
use nfvactor.Prelude.{◌≡◌, refl, true, none, some, update, update_self}
use nfvactor.Prelude.Int.{pos}
use nfvactor.Conn.{RuntimeConfig, ReliableP2p}
use nfvactor.P2p.{dec_ref_cnt, is_ref_cnt_zero}
use nfvactor.Command.{Control, erase, dec_ref, del_mac}
use nfvactor.Command.Handle.{delete_migration_source}
use nfvactor.Command.Targets.{dec_ref_found}

single : (r : ReliableP2p) → r.ref_cnt ≡ pos 1 → is_ref_cnt_zero (dec_ref_cnt r) ≡ true
unfolding dec_ref_cnt is_ref_cnt_zero
single r u = rw u refl

-- The source of a migration is deleted, and the connection that only it used is gone.
pub delete_migration_source-last :
    (config : RuntimeConfig) (c : Control) (r : ReliableP2p)
    → c.reliables config.runtime_id ≡ some r
    → r.ref_cnt ≡ pos 1
    → (k : Control) × (delete_migration_source config c ≡ some k)
      × (k.reliables config.runtime_id ≡ none)
unfolding delete_migration_source erase
delete_migration_source-last config c r e u =
    let id = config.runtime_id in
    let left = record c { reliables = update c.reliables id (some (dec_ref_cnt r)) } in
    (
      erase id (del_mac (dec_ref_cnt r).remote_rt_config.control_port_mac left),
      rw ((dec_ref_found id c r e).1 (single r u)) refl,
      update_self left.reliables id none,
    )

-- Without a connection the command follows a null pointer.
pub delete_migration_source-missing :
    (config : RuntimeConfig) (c : Control)
    → c.reliables config.runtime_id ≡ none
    → delete_migration_source config c ≡ none
unfolding delete_migration_source dec_ref
delete_migration_source-missing config c e = rw e refl
