-- ===== src/Module/Key.antt =====
-- The key of a flow, which `ProcessBatch` of runtime/module/forward_ec_scheduler.cc writes from the
-- fields of runtime/actor/base/nfa_ipv4_field.h: three writes of eight bytes each, of which the
-- last one goes a byte past the key's sixteen. That byte is the next key's first one, which is
-- written later; behind the last key it is outside of the array.
use nfvactor.Prelude.{ℕ, ◌+◌, ◌%◌, ◌*◌, ◌^◌, List, [], ◌∷◌, ◌++◌, length, take, drop, replicate}
use nfvactor.Prelude.Bytes.{le_bytes, le_value, field}

-- `struct nfa_ipv4_field`
pub record NfaIpv4Field : Type 0 where
  pub pos : ℕ
  pub offset : ℕ
  pub size : ℕ

-- `nfa_init_ipv4_field`: the protocol, the addresses, the ports. The mask of a field is as many
-- ones as its size has bits.
abbrev pub fields : List NfaIpv4Field
fields =
    record { pos = 0; offset = 23; size = 1 }
    ∷ record { pos = 1; offset = 26; size = 8 }
    ∷ record { pos = 9; offset = 34; size = 4 }
    ∷ []

-- Bytes written into a row of memory; what would stand behind the row is left out.
unfoldable pub overwrite : ℕ → List ℕ → List ℕ → List ℕ
overwrite pos bytes row =
    take (length row) (take pos row ++ (bytes ++ drop (pos + length bytes) row))

-- Eight bytes of the packet, masked, are written at a field's position.
unfoldable pub write_field : List ℕ → NfaIpv4Field → List ℕ → List ℕ
unfolding overwrite le_bytes field
write_field pkt f row = overwrite f.pos (le_bytes 8 (field pkt f.offset 8 % 2 ^ (8 * f.size))) row

unfoldable pub write_fields : List ℕ → List NfaIpv4Field → List ℕ → List ℕ
unfolding write_field
write_fields pkt [] row = row
write_fields pkt (f ∷ l) row = write_fields pkt l (write_field pkt f row)

-- `row` is what stands in the key's memory; its last eight bytes are cleared first.
unfoldable pub key_row : List ℕ → List ℕ → List ℕ
unfolding write_fields overwrite
key_row row pkt = write_fields pkt fields (overwrite 8 (replicate 8 0) row)

unfoldable pub key_of_pkt : List ℕ → ℕ
unfolding key_row le_value
key_of_pkt pkt = le_value (key_row (replicate 16 0) pkt)
