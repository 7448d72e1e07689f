-- ===== src/Module/KeyLaws.antt =====
-- What the key of a flow holds (runtime/module/forward_ec_scheduler.cc).
use nfvactor.Prelude.{
  ℕ, ◌+◌, ◌*◌, ◌%◌, ◌^◌, ◌<◌, ◌≡◌, refl, ap, sym, ◌∙◌, arith, List, [], ◌∷◌, ◌++◌,
}
use nfvactor.Prelude.Bytes.{le_bytes, le_value, le_value-le_bytes, field}
use nfvactor.Module.Key.{key_of_pkt, key_row, write_fields, write_field, overwrite}

-- The protocol, the two addresses and the two ports of a packet, as numbers.
abbrev pub protocol : List ℕ → ℕ
protocol pkt = field pkt 23 8 % 2 ^ 8

abbrev pub addresses : List ℕ → ℕ
addresses pkt = field pkt 26 8 % 2 ^ 64

abbrev pub ports : List ℕ → ℕ
ports pkt = field pkt 34 8 % 2 ^ 32

-- Whatever stood in the key's memory.
key_row_lem :
    (a b c d e f g h i j k l m n o p : ℕ) (pkt : List ℕ)
    → key_row (a ∷ b ∷ c ∷ d ∷ e ∷ f ∷ g ∷ h ∷ i ∷ j ∷ k ∷ l ∷ m ∷ n ∷ o ∷ p ∷ []) pkt
      ≡ protocol pkt % 256 ∷ (le_bytes 8 (addresses pkt) ++ le_bytes 7 (ports pkt))
unfolding key_row write_fields write_field overwrite le_bytes
key_row_lem a b c d e f g h i j k l m n o p pkt = refl

value_lem :
    (p a q : ℕ)
    → a < 256 ^ 8
    → q < 256 ^ 7
    → le_value (p % 256 ∷ (le_bytes 8 a ++ le_bytes 7 q)) ≡ p % 256 + 256 * (a + 256 ^ 8 * q)
unfolding le_value le_bytes
value_lem p a q h k = omega (arith, le_value-le_bytes 8 a h, le_value-le_bytes 7 q k)

-- The key of a packet's flow is its protocol, its addresses and its ports, one behind the other.
pub key_of_pkt_lem :
    (pkt : List ℕ) → key_of_pkt pkt ≡ protocol pkt + 256 * (addresses pkt + 256 ^ 8 * ports pkt)
unfolding key_of_pkt
key_of_pkt_lem pkt =
    ap le_value (key_row_lem 0 0 0 0 0 0 0 0 0 0 0 0 0 0 0 0 pkt)
    ∙ value_lem (protocol pkt) (addresses pkt) (ports pkt) (omega arith) (omega arith)
    ∙ omega arith

-- Packets with the same key are of one flow: they agree in the protocol, in the addresses and in
-- the ports.
pub key_of_pkt_injective :
    (pkt pkt' : List ℕ)
    → key_of_pkt pkt ≡ key_of_pkt pkt'
    → (protocol pkt ≡ protocol pkt') × (addresses pkt ≡ addresses pkt') × (ports pkt ≡ ports pkt')
key_of_pkt_injective pkt pkt' h =
    let e = sym (key_of_pkt_lem pkt) ∙ h ∙ key_of_pkt_lem pkt' in
    (omega (arith, e), omega (arith, e), omega (arith, e))
