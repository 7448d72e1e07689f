-- ===== src/Coordinator/Sound/Running.antt =====
-- The coordinator's tasks and the packets' modules keep the memory sound, round by round.
use nfvactor.Prelude.{
  ℕ, zero, suc, ◌+◌, ◌*◌, ◌^◌, ◌<◌, ◌≡◌, ◌∙◌, Bool, true, ◌||◌, Option, none, some, ◌==◌, ◌>>=◌,
  >>=-eq-some, some_injective, if_cases, inl, inr, arith, if◌then◌else◌, ltb,
}
use nfvactor.Cdlist.{Links}
use nfvactor.Timer
use nfvactor.Actor.{Setting, Worker, owner, idle_head, req_head}
use nfvactor.Actor.Migrate.{count, start_migration}
use nfvactor.Conn.{add64}
use nfvactor.Coordinator.Match.{is_some}
use nfvactor.Actor.Recover.{start_recover}
use nfvactor.Coordinator.Tasks.{
  count_started, migrate_round, migrate_rounds, start_first, trigger, timer_at, timer_rounds,
  run_timers, recovering, recover_round, recover_rounds, CoordinatorMp, report, run_coordinator_mp,
}
use nfvactor.Coordinator.Counters.{accounted-count_null, accounted-count_started}
use nfvactor.Coordinator.Sound.{IsSound, Keeps, Keeps-same, IsSound-after, fewer}
use nfvactor.Coordinator.Sound.Migrating.{
  start_migration-Settles, start_migration_timeout-Keeps, change_vswitch_route_timeout-Keeps,
  migrate_flow_state_timeout-Keeps,
}
use nfvactor.Coordinator.Sound.Ending.{
  check_idle-Keeps, start_recover-Keeps, replica_recover_timeout-Keeps,
}
use nfvactor.Coordinator.Sound.Matching.{Moves}

module _ {W : Type 0} where
  trigger-Keeps :
      (st : Setting W) (item : ℕ) (w : Worker W) {w' : Worker W}
      → w.control.next_msg_id + 2 < 2 ^ 32
      → trigger st item w ≡ some w'
      → Keeps (owner item) w w'
  unfolding trigger
  trigger-Keeps st item w l e =
      let t = timer_at w item in
      let a = owner item in
      elim (if_cases (t.request_msg_id == 0) e) [
        | inl f ↦ absurd (cc)
        | inr e0 ↦ elim (if_cases (t.msg_type == 3) e0) [
          | inl f ↦ check_idle-Keeps st a w f
          | inr e1 ↦ elim (if_cases (t.msg_type == 7) e1) [
            | inl f ↦ rw (some_injective f) (start_migration_timeout-Keeps st a w)
            | inr e2 ↦ elim (if_cases (t.msg_type == 9) e2) [
              | inl f ↦ change_vswitch_route_timeout-Keeps st a w l f
              | inr e3 ↦ elim (if_cases (t.msg_type == 12) e3) [
                | inl f ↦ migrate_flow_state_timeout-Keeps st a w l f
                | inr e4 ↦ elim (if_cases (t.msg_type == 14) e4) [
                  | inl f ↦ replica_recover_timeout-Keeps st a w l f
                  | inr e5 ↦ absurd (cc)
                ]
              ]
            ]
          ]
        ]
      ]

  timer_round :
      (n t : ℕ) (st : ℕ → Setting W) (head k : ℕ) (o : Option ℕ) (w : Worker W) {w' : Worker W}
      → IsSound (k + 2 * suc n) t w
      → elim o [ none ↦ some w | some item ↦ trigger (st n) item w >>= timer_rounds n st head ]
        ≡ some w'
      → ((v : Worker W)
          → IsSound (k + 2 * n) t v
          → timer_rounds n st head v ≡ some w'
          → IsSound k t w')
      → IsSound k t w'
  timer_round n t st head k none w s e next =
      rw (some_injective e) (fewer (k + 2 * suc n) k t (omega arith) s)
  timer_round n t st head k (some item) w s e next =
      let (v, done, f) = >>=-eq-some (trigger (st n) item w) (timer_rounds n st head) e in
      let s' = fewer (k + 2 * suc n) (k + 2 * n + 2) t (omega arith) s in
      next v
        (IsSound-after (k + 2 * n) t (owner item)
          (trigger-Keeps (st n) item w (omega (arith, s.ids_left)) done) s')
        f

  pub timer_rounds-IsSound :
      (n k t : ℕ) (st : ℕ → Setting W) (head : ℕ) (w : Worker W) {w' : Worker W}
      → IsSound (k + 2 * n) t w
      → timer_rounds n st head w ≡ some w'
      → IsSound k t w'
  unfolding timer_rounds
  timer_rounds-IsSound zero k t st head w s e =
      rw (some_injective e) (fewer (k + 2 * zero) k t (omega arith) s)
  timer_rounds-IsSound (suc n) k t st head w s e =
      timer_round n t st head k (Timer.timeout_occur head (st n).env.now (timer_at w) w.links) w s e
        (λ v s' f. timer_rounds-IsSound n k t st head v s' f)

  -- If the task gets through the timers that have run out, each flow that is the source of a
  -- migration then has a nonzero message id in its migration timer, and the sum, modulo 2 ^ 64, of the
  -- quota that is left and the migrations that are out, successful, failed or without a flow is what
  -- it was. Every source has such an id before, the next message id is not 0, and 128 ids are left
  -- below 2 ^ 32.
  pub run_timers-IsSound :
      (n t : ℕ) (st st' : ℕ → Setting W) (w : Worker W) {w' : Worker W}
      → IsSound (n + 128) t w
      → run_timers st st' w ≡ some w'
      → IsSound n t w'
  unfolding run_timers
  run_timers-IsSound n t st st' w s e =
      let (v, first, f) =
        >>=-eq-some (timer_rounds 32 st idle_head w) (timer_rounds 32 st' req_head) e in
      timer_rounds-IsSound 32 n t st' req_head v
        (fewer _ _ t (omega arith)
          (timer_rounds-IsSound 32 (n + 64) t st idle_head w (fewer _ _ t (omega arith) s) first))
        f

  migrate_started :
      (st : Setting W) (rtid a : ℕ) (links : Links) (w : Worker W) {w' : Worker W}
      → w.control.next_msg_id + 2 < 2 ^ 32
      → start_migration st rtid a (count count_started (record w { links = links })) ≡ some w'
      → Keeps a w w'
  migrate_started st rtid a links w l e =
      let k = start_migration-Settles st rtid a _ l e in
      record {
        others = k.others;
        own = λ p h. k.own p;
        next_low = k.next_low;
        next_high = k.next_high;
        same = k.same ∙ accounted-count_started w.control.migration;
      }

  -- The loop that starts migrations.
  migrate_first :
      (st : Setting W) (o : Option ℕ) (links : Links) (w : Worker W) {p : Bool × Worker W}
      → w.control.next_msg_id + 2 < 2 ^ 32
      → start_first st o links w ≡ some p
      → Moves w p.1
  unfolding start_first
  migrate_first st none links w l e = rw (some_injective e) (
    0,
    record {
      others = λ b n h. h;
      own = λ q h. h;
      next_low = omega arith;
      next_high = omega arith;
      same = accounted-count_null w.control.migration;
    },
  )
  migrate_first st (some item) links w l e =
      let v : Worker W = count count_started (record w { links = links }) in
      let rtid = w.control.migration.migration_target_rt_id in
      let go : Worker W → Option (Bool × Worker W) = λ w'. some (true, w') in
      let (w', done, f) = >>=-eq-some (start_migration st rtid (owner item) v) go e in
      rw (some_injective f) (owner item, migrate_started st rtid (owner item) links w l done)

  migrate_round-Moves :
      (st : Setting W) (w : Worker W) {p : Bool × Worker W}
      → w.control.next_msg_id + 2 < 2 ^ 32
      → migrate_round st w ≡ some p
      → Moves w p.1
  unfolding migrate_round
  migrate_round-Moves st w l e =
      let m = w.control.migration in
      elim (if_cases ((m.migration_qouta == 0) || ltb 256 m.outgoing_migrations) e) [
        | inl f ↦ rw (some_injective f) (0, Keeps-same 0 w)
        | inr f ↦ migrate_first st _ _ w l f
      ]

  pub migrate_rounds-IsSound :
      (n k t : ℕ) (st : ℕ → Setting W) (w : Worker W) {w' : Worker W}
      → IsSound (k + 2 * n) t w
      → migrate_rounds n st w ≡ some w'
      → IsSound k t w'
  unfolding migrate_rounds
  migrate_rounds-IsSound zero k t st w s e =
      rw (some_injective e) (fewer (k + 2 * zero) k t (omega arith) s)
  migrate_rounds-IsSound (suc n) k t st w s e =
      let go : Bool × Worker W → Option (Worker W) =
        λ (b, v). if b then migrate_rounds n st v else some v in
      let ((b, v), done, f) = >>=-eq-some (migrate_round (st n) w) go e in
      let (a, moved) = migrate_round-Moves (st n) w (omega (arith, s.ids_left)) done in
      let s' =
        IsSound-after (k + 2 * n) t a moved
          (fewer (k + 2 * suc n) (k + 2 * n + 2) t (omega arith) s) in
      elim (if_cases b f) [
        | inl g ↦ migrate_rounds-IsSound n k t st v s' g
        | inr g ↦ rw (some_injective g) (fewer (k + 2 * n) k t (omega arith) s')
      ]

  recover_first :
      (st : Setting W) (o : Option ℕ) (links : Links) (w : Worker W) {p : Bool × Worker W}
      → w.control.next_msg_id + 2 < 2 ^ 32
      → recovering st o links w ≡ some p
      → Moves w p.1
  unfolding recovering
  recover_first st none links w l e = (
    0,
    record {
      others = λ b n h. ground arith;
      own = λ q h. ground arith;
      next_low = ground arith;
      next_high = ground arith;
      same = ground arith;
    },
  )
  recover_first st (some item) links w l e =
      let v : Worker W = record w { links = links } in
      let go : Worker W → Option (Bool × Worker W) =
        λ u. some (true, record u { out_going_recovery = add64 u.out_going_recovery 1 }) in
      let (w', done, f) = >>=-eq-some (start_recover st (owner item) v) go e in
      let k = start_recover-Keeps st (owner item) v l done in
      rw (some_injective f) (
        owner item,
        record {
          others = k.others;
          own = k.own;
          next_low = k.next_low;
          next_high = k.next_high;
          same = k.same;
        },
      )

  recover_round-Moves :
      (st : Setting W) (rtid : ℕ) (w : Worker W) {p : Bool × Worker W}
      → w.control.next_msg_id + 2 < 2 ^ 32
      → recover_round st rtid w ≡ some p
      → Moves w p.1
  unfolding recover_round
  recover_round-Moves st rtid w l e =
      elim (if_cases ((w.control.recovery.storage_rtid == 0) || ltb 128 w.out_going_recovery) e) [
        | inl f ↦ rw (some_injective f) (0, Keeps-same 0 w)
        | inr f ↦ elim (if_cases (is_some (w.control.replica_flow_lists rtid)) f) [
          | inl g ↦ recover_first st _ _ w l g
          | inr g ↦ absurd (cc)
        ]
      ]

  recover_rounds-IsSound :
      (n k t : ℕ) (st : ℕ → Setting W) (rtid : ℕ) (w : Worker W) {w' : Worker W}
      → IsSound (k + 2 * n) t w
      → recover_rounds n st rtid w ≡ some w'
      → IsSound k t w'
  unfolding recover_rounds
  recover_rounds-IsSound zero k t st rtid w s e =
      rw (some_injective e) (fewer (k + 2 * zero) k t (omega arith) s)
  recover_rounds-IsSound (suc n) k t st rtid w s e =
      let go : Bool × Worker W → Option (Worker W) =
        λ (b, v). if b then recover_rounds n st rtid v else some v in
      let ((b, v), done, f) = >>=-eq-some (recover_round (st n) rtid w) go e in
      let (a, moved) = recover_round-Moves (st n) rtid w (omega (arith, s.ids_left)) done in
      let s' =
        IsSound-after (k + 2 * n) t a moved
          (fewer (k + 2 * suc n) (k + 2 * n + 2) t (omega arith) s) in
      elim (if_cases b f) [
        | inl g ↦ recover_rounds-IsSound n k t st rtid v s' g
        | inr g ↦ rw (some_injective g) (fewer (k + 2 * n) k t (omega arith) s')
      ]

  -- If the task that starts migrations and recoveries comes to its end, each flow that is the source
  -- of a migration then, by this task or before, has a nonzero message id in its migration timer, and
  -- the sum, modulo 2 ^ 64, of the quota that is left and the migrations that are out, successful,
  -- failed or without a flow is what it was. Every source has such an id before, the next message id
  -- is not 0, and 128 ids are left below 2 ^ 32.
  pub run_coordinator_mp-IsSound :
      (n t : ℕ) (st st' : ℕ → Setting W) (mp : CoordinatorMp) (w : Worker W)
      {out : CoordinatorMp × Worker W}
      → IsSound (n + 128) t w
      → run_coordinator_mp st st' mp w ≡ some out
      → IsSound n t out.1
  unfolding run_coordinator_mp
  run_coordinator_mp-IsSound n t st st' mp w s e =
      let rest : Worker W → Option (CoordinatorMp × Worker W) = λ w1.
        recover_rounds 32 st' w1.control.recovery.storage_rtid w1
        >>= (λ w2. some (report mp w2, w2)) in
      let (w1, first, f) = >>=-eq-some (migrate_rounds 32 st w) rest e in
      let last : Worker W → Option (CoordinatorMp × Worker W) = λ w2. some (report mp w2, w2) in
      let (w2, second, g) =
        >>=-eq-some (recover_rounds 32 st' w1.control.recovery.storage_rtid w1) last f in
      let s1 = migrate_rounds-IsSound 32 (n + 64) t st w (fewer _ _ t (omega arith) s) first in
      rw (some_injective g) (
        recover_rounds-IsSound 32 n t st' w1.control.recovery.storage_rtid w1
          (fewer _ _ t (omega arith) s1) second)
