-- ===== src/Remote/Reachable.antt =====
-- What holds of a runtime's server whatever calls it gets (runtime/rpc/call_data_impl.h).
use nfvactor.Prelude.{
  length, ◌≡◌, refl, sym, ap, Option, none, some, List, [], ◌∷◌, ◌>>=◌, arith, >>=-eq-some,
  some_injective, ◌∙◌,
}
use mathlib.Core.Path.{subst}
use nfvactor.Conn.{RuntimeConfig}
use nfvactor.Command.{Control}
use nfvactor.Command.Run.{RpcOperation}
use nfvactor.Remote.{Remote, World, has, find, call_worker, key_of}
use nfvactor.Remote.Config.{ConfigMsg}
use nfvactor.Remote.Handle
use nfvactor.Remote.Handle.{
  if_found, skips_replica, connect_replica, command_and_reply, each, accept_source, accept_storage,
  negotiate_req, same_neighbours,
}
use nfvactor.Remote.State.{get_runtime_state, RuntimeState, RuntimeStat, runtime_stat, state_reply}
use nfvactor.Remote.Calls.{Request, Reply, handle, done, told, serve, started}
use nfvactor.Remote.Apart.{IsApart, call_worker-IsApart, if_found-IsApart}
use nfvactor.Remote.Serve.{
  add_input_rt-IsApart, add_output_rts-IsApart, delete_output_rt-IsApart, delete_input_rt-IsApart,
  set_migration_target-IsApart,
}
use nfvactor.Remote.Kept.{
  migration_negotiate-IsApart, replica_negotiate-IsApart, add_replicas-IsApart,
  delete_replica-IsApart, delete_storage-IsApart,
}

state_reply-stat :
    (stat : RuntimeStat) (r : Remote) (s : RuntimeState)
    → state_reply stat r ≡ some s
    → s.stat ≡ stat
unfolding state_reply
state_reply-stat stat r s h = ground arith

-- The statistics that GetRuntimeState answers are those of an item that no worker has filled in:
-- all zero, however many packets and flows there have been, with one entry for each storage.
pub get_runtime_state-stat :
    (w : World) (r r' : Remote) (s : RuntimeState)
    → get_runtime_state w r ≡ some (r', s)
    → (call_worker w RpcOperation.get_stats r.local_runtime 0 r ≡ some r')
      × (s.stat ≡ runtime_stat (length r.storages))
unfolding get_runtime_state
get_runtime_state-stat w r r' s h =
    let stat = runtime_stat (length r.storages) in
    let (k, e, f) =
      >>=-eq-some (call_worker w RpcOperation.get_stats r.local_runtime 0 r)
        (λ k. state_reply stat k >>= (λ s. some (k, s))) h in
    let (t, e1, f1) = >>=-eq-some (state_reply stat k) (λ s. some (k, s)) f in
    let same = some_injective f1 in
    (
      e ∙ ap some (sym (ap (λ p. p.0) same)),
      ap (λ p. (p.1).stat) same ∙ state_reply-stat stat k t e1,
    )

done_cases :
    (o : Option Remote) (r' : Remote) (reply : Reply) → done o ≡ some (r', reply) → o ≡ some r'
done_cases none r' reply h = cc
done_cases (some r) r' reply h = ap some (sym (ap (λ p. p.0) (some_injective h)))

told_cases :
    (o : Option (Remote × Option ConfigMsg)) (r' : Remote) (reply : Reply)
    → told o ≡ some (r', reply)
    → (m : Option ConfigMsg) × (o ≡ some (r', m))
told_cases none r' reply h = cc
told_cases (some (r, m)) r' reply h =
    (m, ap (λ s. some (s, m)) (sym (ap (λ p. p.0) (some_injective h))))

-- Whatever call comes in, the table of output runtimes stays apart from those of input runtimes and
-- of migration targets, and the own address stays out of the tables of outputs and targets.
pub handle-IsApart :
    (w : World) (q : Request) (r r' : Remote) (reply : Reply)
    → IsApart r
    → handle w q r ≡ some (r', reply)
    → IsApart r'
unfolding handle Handle.add_output_mac Handle.add_input_mac Handle.delete_input_mac
    Handle.delete_output_mac Handle.migrate_to Handle.delete_migration_target
    Handle.delete_migration_source Handle.recover
handle-IsApart w Request.liveness_check r r' reply a h =
    subst IsApart (sym (ap (λ p. p.0) (some_injective h))) a
handle-IsApart w (Request.add_output_rts l) r r' reply a h =
    add_output_rts-IsApart w l r r' a (done_cases _ r' reply h)
handle-IsApart w (Request.add_input_rt c) r r' reply a h =
    let (m, e) = told_cases _ r' reply h in add_input_rt-IsApart w c r r' m a e
handle-IsApart w (Request.delete_output_rt d) r r' reply a h =
    delete_output_rt-IsApart w d r r' a (done_cases _ r' reply h)
handle-IsApart w (Request.delete_input_rt d) r r' reply a h =
    delete_input_rt-IsApart w d r r' a (done_cases _ r' reply h)
handle-IsApart w (Request.add_output_mac d) r r' reply a h =
    if_found-IsApart w _ 0 (key_of d) _ r r' a (done_cases _ r' reply h)
handle-IsApart w (Request.add_input_mac d) r r' reply a h =
    if_found-IsApart w _ 0 (key_of d) _ r r' a (done_cases _ r' reply h)
handle-IsApart w (Request.delete_input_mac d) r r' reply a h =
    if_found-IsApart w _ 0 (key_of d) _ r r' a (done_cases _ r' reply h)
handle-IsApart w (Request.delete_output_mac d) r r' reply a h =
    if_found-IsApart w _ 0 (key_of d) _ r r' a (done_cases _ r' reply h)
handle-IsApart w (Request.migrate_to d n) r r' reply a h =
    if_found-IsApart w _ n (key_of d) _ r r' a (done_cases _ r' reply h)
handle-IsApart w (Request.set_migration_target l) r r' reply a h =
    set_migration_target-IsApart w l r r' a (done_cases _ r' reply h)
handle-IsApart w (Request.migration_negotiate n) r r' reply a h =
    let (m, e) = told_cases _ r' reply h in migration_negotiate-IsApart w n r r' m a e
handle-IsApart w (Request.delete_migration_target d) r r' reply a h =
    if_found-IsApart w _ 0 (key_of d) _ r r' a (done_cases _ r' reply h)
handle-IsApart w (Request.delete_migration_source d) r r' reply a h =
    if_found-IsApart w _ 0 (key_of d) _ r r' a (done_cases _ r' reply h)
handle-IsApart w (Request.add_replicas l) r r' reply a h =
    add_replicas-IsApart w l r r' a (done_cases _ r' reply h)
handle-IsApart w (Request.replica_negotiate n) r r' reply a h =
    let (m, e) = told_cases _ r' reply h in replica_negotiate-IsApart w n r r' m a e
handle-IsApart w (Request.delete_replica d) r r' reply a h =
    delete_replica-IsApart w d r r' a (done_cases _ r' reply h)
handle-IsApart w (Request.delete_storage d) r r' reply a h =
    delete_storage-IsApart w d r r' a (done_cases _ r' reply h)
handle-IsApart w (Request.recover d) r r' reply a h =
    if_found-IsApart w _ 0 (key_of d) _ r r' a (done_cases _ r' reply h)
handle-IsApart w Request.get_runtime_state r r' reply a h =
    let (p, e, f) = >>=-eq-some (get_runtime_state w r) (λ p. some (p.0, Reply.state p.1)) h in
    let (called, stat) = get_runtime_state-stat w r p.0 p.1 e in
    subst IsApart (sym (ap (λ s. s.0) (some_injective f)))
      (call_worker-IsApart w RpcOperation.get_stats r.local_runtime 0 r p.0 a called)

started-IsApart : (me : RuntimeConfig) (c : Control) → IsApart (started me c)
unfolding started has find
started-IsApart me c = record {
  input_output = λ k h. refl;
  output_target = λ k h. refl;
  local_output = refl;
  local_target = refl;
}

served :
    (w : World) (l : List Request) (r r' : Remote) → IsApart r → serve w l r ≡ some r' → IsApart r'
unfolding serve
served w [] r r' a h = subst IsApart (sym (some_injective h)) a
served w (q ∷ l) r r' a h =
    let (p, e, f) = >>=-eq-some (handle w q r) (λ p. serve w l p.0) h in
    served w l p.0 r' (handle-IsApart w q r p.0 p.1 a e) f

-- From the start of a runtime on, whatever calls it gets, whatever other runtimes answer and
-- whatever its worker does in between: no runtime is an input and an output, or an output and a
-- migration target, and the own address is neither an output nor a target.
pub serve-IsApart :
    (w : World) (l : List Request) (me : RuntimeConfig) (c : Control) (r' : Remote)
    → serve w l (started me c) ≡ some r'
    → IsApart r'
serve-IsApart w l me c r' h = served w l (started me c) r' (started-IsApart me c) h
