-- ===== src/Remote/Objects.antt =====
-- The call objects of runtime/rpc/call_data_base.h: an object waits for a call of its kind, answers
-- it and goes away, and before it answers it creates the one that waits for the next
-- (`create_itself` and `Proceed` of call_data_impl.h, `create_call_data` and `HandleRpcs` of
-- server_impl.cc).
use nfvactor.Prelude.{
  ℕ, zero, suc, ◌+◌, Option, none, some, List, [], ◌∷◌, ◌++◌, ◌==◌, ◌>>=◌, if◌then◌else◌, get_elem?,
  set,
}
use nfvactor.Remote.{Remote, World}
use nfvactor.Remote.Calls.{Request, handle}

pub data CallStatus : Type 0 where
  create : CallStatus
  process : CallStatus
  finish : CallStatus

-- The kinds of calls are numbered in the order of `create_call_data`.
pub record CallData : Type 0 where
  pub kind : ℕ
  pub status : CallStatus

unfoldable pub kind_of : Request → ℕ
kind_of Request.liveness_check = 0
kind_of (Request.add_output_rts l) = 1
kind_of (Request.add_input_rt c) = 2
kind_of (Request.delete_output_rt a) = 3
kind_of (Request.delete_input_rt a) = 4
kind_of (Request.add_input_mac a) = 5
kind_of (Request.add_output_mac a) = 6
kind_of (Request.delete_input_mac a) = 7
kind_of (Request.delete_output_mac a) = 8
kind_of (Request.migrate_to a q) = 9
kind_of (Request.set_migration_target l) = 10
kind_of (Request.migration_negotiate q) = 11
kind_of (Request.delete_migration_target a) = 12
kind_of (Request.delete_migration_source a) = 13
kind_of (Request.add_replicas l) = 14
kind_of (Request.replica_negotiate q) = 15
kind_of (Request.delete_replica a) = 16
kind_of (Request.delete_storage a) = 17
kind_of (Request.recover a) = 18
kind_of Request.get_runtime_state = 19

-- The constructor calls `Proceed`, which asks the service for a call.
abbrev pub new_call_data : ℕ → CallData
new_call_data k = record { kind = k; status = CallStatus.process }

-- `n` objects, of the kinds from `k` on.
unfoldable pub create_from : ℕ → ℕ → List CallData
create_from zero k = []
create_from (suc n) k = new_call_data k ∷ create_from n (k + 1)

unfoldable pub create_call_data : List CallData
unfolding create_from
create_call_data = create_from 20 0

unfoldable pub delete_at : ℕ → List CallData → List CallData
delete_at i [] = []
delete_at zero (o ∷ l) = l
delete_at (suc i) (o ∷ l) = o ∷ delete_at i l

-- `Proceed` of the object at `i`: with a call in status PROCESS, without one in the others.
-- `none` is an object that is not there, a call of another kind, or a handler that fails.
unfoldable pub proceed_at :
    World → ℕ → ℕ → CallStatus → Request → List CallData × Remote → Option (List CallData × Remote)
proceed_at w i k CallStatus.create q (objs, r) = some (set objs i (new_call_data k), r)
proceed_at w i k CallStatus.process q (objs, r) =
    if k == kind_of q
    then handle w q r >>= (λ p.
      some (
        set (objs ++ new_call_data k ∷ []) i (record { kind = k; status = CallStatus.finish }),
        p.0,
      ))
    else none
proceed_at w i k CallStatus.finish q (objs, r) = some (delete_at i objs, r)

-- A round of `HandleRpcs`: the queue names an object, and has filled in its call.
unfoldable pub proceed :
    World → ℕ × Request → List CallData × Remote → Option (List CallData × Remote)
unfolding proceed_at
proceed w (i, q) s = get_elem? s.0 i >>= (λ o. proceed_at w i o.kind o.status q s)

unfoldable pub handle_rpcs :
    World → List (ℕ × Request) → List CallData × Remote → Option (List CallData × Remote)
unfolding proceed
handle_rpcs w [] s = some s
handle_rpcs w (e ∷ l) s = proceed w e s >>= handle_rpcs w l
