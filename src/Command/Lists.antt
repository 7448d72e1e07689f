-- ===== src/Command/Lists.antt =====
-- The lists of runtimes' addresses and of replicas' flows.
use nfvactor.Prelude.{
  ◌-◌, ◌≡◌, ◌<◌, refl, none, some, List, [], ◌∷◌, ◌++◌, arith, true, false, update, update_self,
}
use nfvactor.Conn.{RuntimeConfig, ReliableP2p}
use nfvactor.Command.{Control, Env, MacItem, new_reliable, emplace}
use nfvactor.Command.Targets.{inc_ref_found, opened}
use nfvactor.P2p.{inc_ref_cnt}
use nfvactor.Command.Handle.{delete_mac, take_item, add_input_mac, delete_input_mac, add_storage}

-- An address that stands nowhere before is found behind the others, and only its item goes.
delete_mac-last :
    (i : MacItem) (l : List MacItem)
    → (delete_mac i.dst_mac_addr l).0 ≡ false
    → delete_mac i.dst_mac_addr (l ++ i ∷ []) ≡ (true, l)
unfolding delete_mac
delete_mac-last i [] h = ground arith
delete_mac-last i (j ∷ l) h = ground (arith, delete_mac-last i l)

-- Adding an input runtime's address that the list does not have, while a list item is free, and
-- deleting it leaves the list and the free items as they were.
add_delete_input_mac :
    (config : RuntimeConfig) (c : Control)
    → 0 < c.shared.free_items
    → (delete_mac config.output_port_mac c.input_runtime_macs).0 ≡ false
    → (c1 : Control) × (add_input_mac config c ≡ some c1)
      × ((delete_input_mac config c1).input_runtime_macs ≡ c.input_runtime_macs)
      × ((delete_input_mac config c1).shared.free_items ≡ c.shared.free_items)
unfolding add_input_mac delete_input_mac take_item
add_delete_input_mac config c free h =
    let item : MacItem = record {
      dst_mac_addr = config.output_port_mac;
      dst_rtid = config.runtime_id;
    } in
    let found = delete_mac-last item c.input_runtime_macs h in
    (
      record c {
        shared = record c.shared { free_items = c.shared.free_items - 1 };
        input_runtime_macs = c.input_runtime_macs ++ item ∷ [];
      },
      ground arith,
      rw found refl,
      rw found (omega (arith, free)),
    )

-- A storage runtime that is new gets an empty list of replicated flows. One that a connection was
-- there for already gets none: the table of lists stays as it was.
add_storage-lists :
    (env : Env) (config : RuntimeConfig) (c : Control)
    → (c.reliables config.runtime_id ≡ none
        → (c1 : Control) × (add_storage env config c ≡ some c1)
          × (c1.replica_flow_lists config.runtime_id ≡ some []))
      × ((r : ReliableP2p)
          → c.reliables config.runtime_id ≡ some r
          → (c1 : Control) × (add_storage env config c ≡ some c1)
            × (c1.replica_flow_lists ≡ c.replica_flow_lists))
unfolding add_storage emplace
add_storage-lists env config c = (
  λ e.
      let r =
        new_reliable env c.local_runtime.control_port_mac config.control_port_mac 2 config c in
      let id = config.runtime_id in
      (
        record (opened env config c) {
          replica_flow_lists = update c.replica_flow_lists id (some []);
        },
        rw (add_storage, e, emplace, e)
            (inc_ref_found id _ r (update_self c.reliables id (some r))),
        update_self c.replica_flow_lists id (some []),
      ),
  λ r e. (
    record c { reliables = update c.reliables config.runtime_id (some (inc_ref_cnt r)) },
    rw (add_storage, e) (inc_ref_found config.runtime_id c r e),
    refl,
  ),
)
