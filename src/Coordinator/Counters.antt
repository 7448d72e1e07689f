-- ===== src/Coordinator/Counters.antt =====
-- runtime/actor/coordinator_public_field.h, `migration_stats`: the counters of migrations have
-- the same sum, whatever the handlers of runtime/actor/flow_actor.cc and the task
-- of runtime/module/coordinator_mp.cc do to them.
use nfvactor.Prelude.{ℕ, ◌+◌, ◌%◌, ◌^◌, ◌≡◌, arith}
use nfvactor.Command.{Migration}
use nfvactor.Actor.Migrate.{count_failed, count_successful}
use nfvactor.Coordinator.Tasks.{count_null, count_started}

-- What of the quota is left, out, or over.
unfoldable pub accounted : Migration → ℕ
accounted m =
    (m.migration_qouta + m.outgoing_migrations + m.successful_passive_migration
      + m.failed_passive_migration + m.null_passive_migration)
    % 2 ^ 64

pub accounted-count_failed : (m : Migration) → accounted (count_failed m) ≡ accounted m
unfolding accounted count_failed
accounted-count_failed m = omega arith

pub accounted-count_successful : (m : Migration) → accounted (count_successful m) ≡ accounted m
unfolding accounted count_successful
accounted-count_successful m = omega arith

pub accounted-count_null : (m : Migration) → accounted (count_null m) ≡ accounted m
unfolding accounted count_null
accounted-count_null m = omega arith

pub accounted-count_started : (m : Migration) → accounted (count_started m) ≡ accounted m
unfolding accounted count_started
accounted-count_started m = omega arith
