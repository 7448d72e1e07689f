-- ===== src/Remote/Serve.antt =====
-- Every call of runtime/rpc/call_data_impl.h keeps apart what has to be apart.
use nfvactor.Prelude.{
  ◌+◌, ◌≡◌, refl, sym, ap, true, false, Option, none, some, List, [], ◌∷◌, ◌>>=◌, arith,
  if◌then◌else◌, Option-cases, inl, inr, >>=-eq-some, some_injective, if_split, ◌∙◌,
}
use mathlib.Core.Path.{subst}
use nfvactor.Conn.{RuntimeConfig}
use nfvactor.Command.Run.{RpcOperation}
use nfvactor.Remote.{
  Address, Remote, World, has, find, insert, call_worker, asked, answered, key_of,
  concat_with_colon,
}
use nfvactor.Remote.Codes.{Text}
use nfvactor.Remote.Config.{ConfigMsg, protobuf2local, local2protobuf}
use nfvactor.Remote.Handle
use nfvactor.Remote.Handle.{
  skips_output, skips_target, skips_replica, takes_input, connect_output, connect_target,
  connect_replica, command_and_reply, each, accept_source, accept_storage, negotiate_req,
  same_neighbours,
}
use nfvactor.Remote.Apart.{
  IsApart, call_worker-IsApart, same_tables, input-IsApart, output-IsApart, target-IsApart,
  remove_input-IsApart, remove_output-IsApart,
}

pub asked-IsApart : (r : Remote) → IsApart r → IsApart (asked r)
asked-IsApart r = same_tables r r.replicas r.storages r.migration_sources (r.turn + 1) r.worker

pub same-IsApart : (r r' : Remote) → IsApart r → some r ≡ some r' → IsApart r'
same-IsApart r r' a h = subst IsApart (sym (some_injective h)) a

asked-skips_output : (k : Text) (r : Remote) → skips_output k r ≡ skips_output k (asked r)
unfolding skips_output
asked-skips_output k r = refl

asked-skips_target : (k : Text) (r : Remote) → skips_target k r ≡ skips_target k (asked r)
unfolding skips_target
asked-skips_target k r = refl

takes_input_lem :
    (k : Text) (c : RuntimeConfig) (r : Remote)
    → takes_input k c r ≡ true
    → has k r.output_runtimes ≡ false
unfolding takes_input
takes_input_lem k c r h = ground arith

module _ (w : World) where
  connect_output-IsApart :
      (dest : Text) (o : Option ConfigMsg) (r r' : Remote)
      → IsApart r
      → skips_output dest r ≡ false
      → connect_output w dest o r ≡ some r'
      → IsApart r'
  unfolding connect_output
  connect_output-IsApart dest none r r' a s h = same-IsApart r r' a h
  connect_output-IsApart dest (some rep) r r' a s h =
      let (c, e, f) =
        >>=-eq-some (protobuf2local rep)
          (λ c.
            call_worker w RpcOperation.add_output_runtime c 0
              (record r { output_runtimes = insert dest c r.output_runtimes }))
          h in
      call_worker-IsApart w _ c 0 _ r' (output-IsApart dest c r a s) f

  add_output_rt-IsApart :
      (me : ConfigMsg) (addr : Address) (r r' : Remote)
      → IsApart r
      → Handle.add_output_rt w me addr r ≡ some r'
      → IsApart r'
  unfolding Handle.add_output_rt
  add_output_rt-IsApart me addr r r' a h = elim (if_split (skips_output (key_of addr) r) h) [
    | inl (e, same) ↦ same-IsApart r r' a same
    | inr (e, f) ↦
        connect_output-IsApart (key_of addr) (answered (w.add_input_rt r.turn (key_of addr) me))
          (asked r) r' (asked-IsApart r a) (sym (asked-skips_output (key_of addr) r) ∙ e) f
  ]

  pub each-IsApart :
      (step : Address → Remote → Option Remote)
      → ((addr : Address) (r r' : Remote) → IsApart r → step addr r ≡ some r' → IsApart r')
      → (l : List Address) (r r' : Remote) → IsApart r
      → each step l r ≡ some r'
      → IsApart r'
  unfolding each
  each-IsApart step keep [] r r' a h = same-IsApart r r' a h
  each-IsApart step keep (addr ∷ l) r r' a h =
      let (m, e, f) = >>=-eq-some (step addr r) (each step l) h in
      each-IsApart step keep l m r' (keep addr r m a e) f

  pub add_output_rts-IsApart :
      (l : List Address) (r r' : Remote)
      → IsApart r
      → Handle.add_output_rts w l r ≡ some r'
      → IsApart r'
  unfolding Handle.add_output_rts
  add_output_rts-IsApart l r r' a h =
      let (me, e, f) =
        >>=-eq-some (local2protobuf r.local_runtime) (λ me. each (Handle.add_output_rt w me) l r)
          h in
      each-IsApart (Handle.add_output_rt w me) (add_output_rt-IsApart me) l r r' a f

  -- A command with a reply, behind which the tables are apart.
  pub command_and_reply-IsApart :
      (op : RpcOperation) (c : RuntimeConfig) (r r' : Remote) (reply : Option ConfigMsg)
      → IsApart r
      → command_and_reply w op c r ≡ some (r', reply)
      → IsApart r'
  unfolding command_and_reply
  command_and_reply-IsApart op c r r' reply a h =
      let (k, e, f) =
        >>=-eq-some (call_worker w op c 0 r)
          (λ k. local2protobuf k.local_runtime >>= (λ me. some (k, some me))) h in
      let (me, e', f') = >>=-eq-some (local2protobuf k.local_runtime) (λ me. some (k, some me)) f in
      subst IsApart (sym (ap (λ p. p.0) (some_injective f'))) (call_worker-IsApart w op c 0 r k a e)

  pub refused-IsApart :
      (r r' : Remote) (reply : Option ConfigMsg)
      → IsApart r
      → ◌≡◌ {A = Option (Remote × Option ConfigMsg)} (some (r, none)) (some (r', reply))
      → IsApart r'
  refused-IsApart r r' reply a h = subst IsApart (sym (ap (λ p. p.0) (some_injective h))) a

  pub add_input_rt-IsApart :
      (req : ConfigMsg) (r r' : Remote) (reply : Option ConfigMsg)
      → IsApart r
      → Handle.add_input_rt w req r ≡ some (r', reply)
      → IsApart r'
  unfolding Handle.add_input_rt
  add_input_rt-IsApart req r r' reply a h =
      let addr = concat_with_colon req.rpc_ip req.rpc_port in
      let new =
        λ (c : RuntimeConfig). record r { input_runtimes = insert addr c r.input_runtimes } in
      let (c, e, f) =
        >>=-eq-some (protobuf2local req)
          (λ c.
            if takes_input addr c r
            then command_and_reply w RpcOperation.add_input_runtime c (new c)
            else some (r, none))
          h in
      elim (if_split (takes_input addr c r) f) [
        | inl (t, g) ↦
            command_and_reply-IsApart _ c (new c) r' reply
              (input-IsApart addr c r a (takes_input_lem addr c r t)) g
        | inr (t, g) ↦ refused-IsApart r r' reply a g
      ]

  pub delete_output_rt-IsApart :
      (addr : Address) (r r' : Remote)
      → IsApart r
      → Handle.delete_output_rt w addr r ≡ some r'
      → IsApart r'
  unfolding Handle.delete_output_rt
  delete_output_rt-IsApart addr r r' a h =
      elim (Option-cases (find (key_of addr) r.output_runtimes)) [
        | inl e ↦ same-IsApart r r' a (rw (e, Handle.delete_output_rt) at h)
        | inr (c, e) ↦
            call_worker-IsApart w _ c 0 _ r' (remove_output-IsApart (key_of addr) c r a)
              (rw (e, Handle.delete_output_rt) at h)
      ]

  pub delete_input_rt-IsApart :
      (addr : Address) (r r' : Remote)
      → IsApart r
      → Handle.delete_input_rt w addr r ≡ some r'
      → IsApart r'
  unfolding Handle.delete_input_rt
  delete_input_rt-IsApart addr r r' a h =
      elim (Option-cases (find (key_of addr) r.input_runtimes)) [
        | inl e ↦ same-IsApart r r' a (rw (e, Handle.delete_input_rt) at h)
        | inr (c, e) ↦
            call_worker-IsApart w _ c 0 _ r' (remove_input-IsApart (key_of addr) c r a)
              (rw (e, Handle.delete_input_rt) at h)
      ]

  connect_target-IsApart :
      (dest : Text) (o : Option ConfigMsg) (r r' : Remote)
      → IsApart r
      → skips_target dest r ≡ false
      → connect_target w dest o r ≡ some r'
      → IsApart r'
  unfolding connect_target
  connect_target-IsApart dest none r r' a s h = same-IsApart r r' a h
  connect_target-IsApart dest (some rep) r r' a s h =
      let (c, e, f) =
        >>=-eq-some (protobuf2local rep)
          (λ c.
            call_worker w RpcOperation.set_migration_target c 0
              (record r { migration_targets = insert dest c r.migration_targets }))
          h in
      call_worker-IsApart w _ c 0 _ r' (target-IsApart dest c r a s) f

  pub set_migration_target-IsApart :
      (l : List Address) (r r' : Remote)
      → IsApart r
      → Handle.set_migration_target w l r ≡ some r'
      → IsApart r'
  unfolding Handle.set_migration_target
  set_migration_target-IsApart [] r r' a h = same-IsApart r r' a h
  set_migration_target-IsApart (addr ∷ l) r r' a h =
      let dest = key_of addr in
      let ask = λ (me : ConfigMsg).
        connect_target w dest (answered (w.migration_negotiate r.turn dest (negotiate_req me r)))
          (asked r) in
      elim (if_split (skips_target dest r) h) [
        | inl (e, same) ↦ same-IsApart r r' a same
        | inr (e, f) ↦
            let (me, e1, f1) =
              >>=-eq-some (local2protobuf r.local_runtime)
                (λ me. ask me >>= Handle.set_migration_target w l) f in
            let (m, e2, f2) = >>=-eq-some (ask me) (Handle.set_migration_target w l) f1 in
            set_migration_target-IsApart l m r'
              (connect_target-IsApart dest _ (asked r) m (asked-IsApart r a)
                (sym (asked-skips_target dest r) ∙ e) e2)
              f2
      ]
