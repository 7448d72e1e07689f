-- ===== src/Actor/Header.antt =====
-- The structures of runtime/actor/coordinator_messages.h and flow_actor_messages.h as the bytes
-- that are sent, with the padding that their fields' alignment asks for.
use nfvactor.Prelude.{ℕ, Option, none, some, List, ◌++◌, ltb, if◌then◌else◌, length}
use nfvactor.Prelude.Bytes.{le_bytes, field}
use nfvactor.Actor.{FlowEtherHeader}

-- `sizeof(struct ether_hdr)` bytes, and the four of `dest_rtid` in front, and two of padding.
unfoldable pub ether_bytes : FlowEtherHeader → List ℕ
unfolding le_bytes
ether_bytes h = le_bytes 6 h.d_addr ++ (le_bytes 6 h.s_addr ++ le_bytes 2 h.ether_type)

unfoldable pub header_bytes : ℕ → FlowEtherHeader → List ℕ
unfolding ether_bytes le_bytes
header_bytes padding h = le_bytes 4 h.dest_rtid ++ (ether_bytes h ++ le_bytes 2 padding)

-- The ten bytes of a header that a replica is sent.
unfoldable pub short_header : FlowEtherHeader → List ℕ
unfolding le_bytes
short_header h = le_bytes 4 h.dest_rtid ++ le_bytes 6 h.d_addr

-- `struct create_migration_target_actor_cstruct`
pub record CreateTarget : Type 0 where
  pub input_rtid : ℕ
  pub input_d_addr : ℕ
  pub output_rtid : ℕ
  pub output_d_addr : ℕ
  pub flow_key : ℕ

unfoldable pub create_target_bytes : ℕ → FlowEtherHeader → FlowEtherHeader → ℕ → List ℕ
unfolding header_bytes le_bytes
create_target_bytes padding input output key =
    header_bytes padding input ++ (header_bytes padding output ++ le_bytes 16 key)

-- The fields that the receiver reads.
unfoldable pub read_create_target : List ℕ → Option CreateTarget
unfolding field
read_create_target bytes =
    if ltb (length bytes) 56
    then none
    else some (record {
      input_rtid = field bytes 0 4;
      input_d_addr = field bytes 4 6;
      output_rtid = field bytes 20 4;
      output_d_addr = field bytes 24 6;
      flow_key = field bytes 40 16;
    })

-- `struct change_vswitch_route_request_cstruct` and `struct replica_recover_cstruct`
pub record NewRoute : Type 0 where
  pub flow_key : ℕ
  pub new_output_rt_id : ℕ

unfoldable pub new_route_bytes : ℕ → NewRoute → List ℕ
unfolding le_bytes
new_route_bytes padding n =
    le_bytes 16 n.flow_key ++ (le_bytes 4 n.new_output_rt_id ++ le_bytes 4 padding)

unfoldable pub read_new_route : List ℕ → Option NewRoute
unfolding field
read_new_route bytes =
    if ltb (length bytes) 24
    then none
    else some (record { flow_key = field bytes 0 16; new_output_rt_id = field bytes 16 4 })

-- The responses' structures: two words, or one.
pub record TwoWords : Type 0 where
  pub request_msg_id : ℕ
  pub answer : ℕ

unfoldable pub two_words_bytes : TwoWords → List ℕ
unfolding le_bytes
two_words_bytes t = le_bytes 4 t.request_msg_id ++ le_bytes 4 t.answer

unfoldable pub read_two_words : List ℕ → Option TwoWords
unfolding field
read_two_words bytes =
    if ltb (length bytes) 8
    then none
    else some (record { request_msg_id = field bytes 0 4; answer = field bytes 4 4 })

unfoldable pub read_word : List ℕ → Option ℕ
unfolding field
read_word bytes = if ltb (length bytes) 4 then none else some (field bytes 0 4)
