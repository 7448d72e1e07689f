-- ===== src/Remote/Client.antt =====
-- `LivenessCheckClient` of runtime/rpc/livesness_check_client.h, which asks a runtime for the calls.
-- The stub is a parameter: its answer is `none` where the status is not ok.
use nfvactor.Prelude.{ℕ, ◌+◌, ◌-◌, ◌^◌, Option, none, some, [], ◌∷◌, ◌++◌, ltb, if◌then◌else◌}
use nfvactor.Remote.{Address}
use nfvactor.Remote.Codes.{Text, codes}
use nfvactor.Remote.Calls.{Request, Reply}

unfoldable pub report : Option Reply → Text → Text → Text
report none ok failed = failed
report (some reply) ok failed = ok

-- What the calls return, by the call's name.
unfoldable pub outcome : Option Reply → Text → Text
unfolding report
outcome reply name = report reply (name ++ codes " finishes.") (name ++ codes " fails.")

abbrev at : Text → ℕ → Address
at ip port_num = record { rpc_ip = ip; rpc_port = port_num }

-- An `int32_t`, given by its bits, as a `uint64_t`.
unfoldable pub widen : ℕ → ℕ
widen n = if ltb n (2 ^ 31) then n else n + (2 ^ 64 - 2 ^ 32)

module _ (stub : Request → Option Reply) where
  unfoldable pub check : Text
  unfolding report
  check =
      report (stub Request.liveness_check) (codes "LivenessCheck succeed")
        (codes "LivenessCheck fail")

  -- Two addresses for a test.
  unfoldable pub add_output_rt : Text
  unfolding outcome
  add_output_rt =
      outcome
        (stub (
          Request.add_output_rts
            (at (codes "202.45.128.155") 10241 ∷ at (codes "202.45.128.156") 10242 ∷ [])))
        (codes "AddOutputRt")

  unfoldable pub single_add_output_rt : Text → ℕ → Text
  unfolding outcome
  single_add_output_rt ip port_num =
      outcome (stub (Request.add_output_rts (at ip port_num ∷ []))) (codes "AddOutputRt")

  unfoldable pub delete_output_rt : Text → ℕ → Text
  unfolding outcome
  delete_output_rt ip port_num =
      outcome (stub (Request.delete_output_rt (at ip port_num))) (codes "DeleteOutputRt")

  unfoldable pub delete_input_rt : Text → ℕ → Text
  unfolding outcome
  delete_input_rt ip port_num =
      outcome (stub (Request.delete_input_rt (at ip port_num))) (codes "DeleteInputRt")

  unfoldable pub add_output_mac : Text → ℕ → Text
  unfolding outcome
  add_output_mac ip port_num =
      outcome (stub (Request.add_output_mac (at ip port_num))) (codes "AddOutputMac")

  unfoldable pub add_input_mac : Text → ℕ → Text
  unfolding outcome
  add_input_mac ip port_num =
      outcome (stub (Request.add_input_mac (at ip port_num))) (codes "AddInputMac")

  unfoldable pub delete_output_mac : Text → ℕ → Text
  unfolding outcome
  delete_output_mac ip port_num =
      outcome (stub (Request.delete_output_mac (at ip port_num))) (codes "DeleteOutputMac")

  unfoldable pub delete_input_mac : Text → ℕ → Text
  unfolding outcome
  delete_input_mac ip port_num =
      outcome (stub (Request.delete_input_mac (at ip port_num))) (codes "DeleteInputMac")

  unfoldable pub add_replicas : Text → ℕ → Text
  unfolding outcome
  add_replicas ip port_num =
      outcome (stub (Request.add_replicas (at ip port_num ∷ []))) (codes "AddReplicas")

  unfoldable pub delete_replica : Text → ℕ → Text
  unfolding outcome
  delete_replica ip port_num =
      outcome (stub (Request.delete_replica (at ip port_num))) (codes "DeleteReplica")

  unfoldable pub delete_storage : Text → ℕ → Text
  unfolding outcome
  delete_storage ip port_num =
      outcome (stub (Request.delete_storage (at ip port_num))) (codes "DeleteStorage")

  unfoldable pub recover : Text → ℕ → Text
  unfolding outcome
  recover ip port_num = outcome (stub (Request.recover (at ip port_num))) (codes "Recover")

  unfoldable pub migrate_to : Text → ℕ → ℕ → Text
  unfolding outcome widen
  migrate_to ip port_num quota =
      outcome (stub (Request.migrate_to (at ip port_num) (widen quota))) (codes "MigrateTo")

  -- The quota has no part in the request.
  unfoldable pub set_migration_target : Text → ℕ → ℕ → Text
  unfolding outcome
  set_migration_target ip port_num qouta =
      outcome (stub (Request.set_migration_target (at ip port_num ∷ [])))
        (codes "SetMigrationTarget")

  unfoldable pub get_runtime_state : Text
  unfolding outcome
  get_runtime_state = outcome (stub Request.get_runtime_state) (codes "GetRuntimeStateReq")
