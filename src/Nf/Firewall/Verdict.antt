-- ===== src/Nf/Firewall/Verdict.antt =====
-- The firewall's verdicts over the packets of a flow.
use nfvactor.Prelude.{
  suc, ◌≡◌, ◌≤◌, refl, ap, Bool, true, false, if◌then◌else◌, List, [], ◌∷◌, arith, length,
  replicate,
}
use nfvactor.Nf.{Frame}
use nfvactor.Nf.Firewall.{
  FirewallFs, FirewallRule, connection_up, connection_down, bad_connection, inc32, protocol_tcp,
  has_fin, nf_logic_impl,
}

-- The verdicts on a sequence of packets of one flow.
abbrev pub verdicts : List FirewallRule → FirewallFs → List Frame → List Bool
verdicts ss fs [] = []
verdicts ss fs (p ∷ ps) = (nf_logic_impl p fs ss).0 ∷ verdicts ss (nf_logic_impl p fs ss).1 ps

refused_state :
    (p : Frame) (fs : FirewallFs) (ss : List FirewallRule)
    → fs.connection_status ≤ bad_connection
    → (nf_logic_impl p fs ss).0 ≡ false
    → (nf_logic_impl p fs ss).1.connection_status ≡ bad_connection
unfolding nf_logic_impl
refused_state p fs ss h e = ground arith

bad_state :
    (p : Frame) (fs : FirewallFs) (ss : List FirewallRule)
    → fs.connection_status ≡ bad_connection
    → ((nf_logic_impl p fs ss).0 ≡ false)
      × ((nf_logic_impl p fs ss).1.connection_status ≡ bad_connection)
unfolding nf_logic_impl
bad_state p fs ss e = (ground arith, ground arith)

bad_for_ever :
    (ss : List FirewallRule) (fs : FirewallFs) (ps : List Frame)
    → fs.connection_status ≡ bad_connection
    → verdicts ss fs ps ≡ replicate (length ps) false
bad_for_ever ss fs [] e = refl
bad_for_ever ss fs (p ∷ ps) e =
    let (refused, still) = bad_state p fs ss e in
    rw refused (ap (◌∷◌ false) (bad_for_ever ss (nf_logic_impl p fs ss).1 ps still))

-- From one of the four statuses, once the firewall drops a packet of a flow, it drops every later one, whatever they hold.
pub dropped_for_ever :
    (ss : List FirewallRule) (fs : FirewallFs) (p : Frame) (ps : List Frame)
    → fs.connection_status ≤ bad_connection
    → (nf_logic_impl p fs ss).0 ≡ false
    → verdicts ss fs (p ∷ ps) ≡ replicate (suc (length ps)) false
dropped_for_ever ss fs p ps h e =
    rw e (ap (◌∷◌ false) (bad_for_ever ss _ ps (refused_state p fs ss h e)))

-- A packet is counted once, as passed or as dropped by its verdict, while the status is one of the
-- four; and the status stays one of the four.
counted_once :
    (p : Frame) (fs : FirewallFs) (ss : List FirewallRule)
    → fs.connection_status ≤ bad_connection
    → let (verdict, fs') = nf_logic_impl p fs ss in
      (fs'.passed_pkts ≡ (if verdict then inc32 fs.passed_pkts else fs.passed_pkts))
      × (fs'.dropped_packets ≡ (if verdict then fs.dropped_packets else inc32 fs.dropped_packets))
      × (fs'.connection_status ≤ bad_connection)
unfolding nf_logic_impl
counted_once p fs ss h = (ground arith, ground arith, ground arith)

fin_state :
    (p : Frame) (fs : FirewallFs) (ss : List FirewallRule)
    → fs.connection_status ≡ connection_up
    → fs.protocol ≡ protocol_tcp
    → has_fin p ≡ true
    → ((nf_logic_impl p fs ss).0 ≡ true)
      × ((nf_logic_impl p fs ss).1.connection_status ≡ connection_down)
unfolding nf_logic_impl
fin_state p fs ss up tcp f = (ground arith, ground (arith, f))

closed_state :
    (p : Frame) (fs : FirewallFs) (ss : List FirewallRule)
    → fs.connection_status ≡ connection_down
    → ((nf_logic_impl p fs ss).0 ≡ false)
      × ((nf_logic_impl p fs ss).1.connection_status ≡ bad_connection)
unfolding nf_logic_impl
closed_state p fs ss e = (ground arith, ground arith)

-- After a TCP flow's FIN, which passes, every packet is dropped.
fin_closes :
    (ss : List FirewallRule) (fs : FirewallFs) (fin p : Frame) (ps : List Frame)
    → fs.connection_status ≡ connection_up
    → fs.protocol ≡ protocol_tcp
    → has_fin fin ≡ true
    → verdicts ss fs (fin ∷ p ∷ ps) ≡ true ∷ replicate (suc (length ps)) false
fin_closes ss fs fin p ps up tcp f =
    let (passed, down) = fin_state fin fs ss up tcp f in
    let (refused, bad) = closed_state p (nf_logic_impl fin fs ss).1 ss down in
    rw (passed, refused) (ap (λ l. true ∷ false ∷ l) (bad_for_ever ss _ ps bad))
