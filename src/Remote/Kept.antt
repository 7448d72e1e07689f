-- ===== src/Remote/Kept.antt =====
-- Negotiations, replicas and storages (runtime/rpc/call_data_impl.h) keep apart what has to be.
use nfvactor.Prelude.{
  ◌≡◌, Option, none, some, List, if◌then◌else◌, Option-cases, inl, inr, >>=-eq-some, if_split,
}
use nfvactor.Conn.{RuntimeConfig}
use nfvactor.Command.Run.{RpcOperation}
use nfvactor.Remote.{
  Address, Remote, World, Table, NegotiateReq, has, find, insert, call_worker, asked, key_of,
  concat_with_colon,
}
use nfvactor.Remote.Config.{ConfigMsg, protobuf2local, local2protobuf, convert_uint32t_ip}
use nfvactor.Remote.Handle
use nfvactor.Remote.Handle.{
  if_found, skips_replica, connect_replica, command_and_reply, each, accept_source, accept_storage,
  negotiate_req, same_neighbours,
}
use nfvactor.Remote.Apart.{IsApart, call_worker-IsApart, same_tables}
use nfvactor.Remote.Serve.{
  command_and_reply-IsApart, refused-IsApart, each-IsApart, asked-IsApart, same-IsApart,
}

-- Other replicas, storages and sources.
others :
    (r : Remote) (replicas storages sources : Table)
    → IsApart r
    → IsApart (record r { replicas = replicas; storages = storages; migration_sources = sources })
others r replicas storages sources = same_tables r replicas storages sources r.turn r.worker

module _ (w : World) where
  accept_source-IsApart :
      (source : ConfigMsg) (r r' : Remote) (reply : Option ConfigMsg)
      → IsApart r
      → accept_source w source r ≡ some (r', reply)
      → IsApart r'
  unfolding accept_source
  accept_source-IsApart source r r' reply a h =
      let addr = concat_with_colon source.rpc_ip source.rpc_port in
      let new =
        λ (c : RuntimeConfig). record r { migration_sources = insert addr c r.migration_sources } in
      let (c, e, f) =
        >>=-eq-some (protobuf2local source)
          (λ c.
            if has addr r.migration_sources
            then some (r, none)
            else command_and_reply w RpcOperation.migration_negotiate c (new c))
          h in
      elim (if_split (has addr r.migration_sources) f) [
        | inl (t, g) ↦ refused-IsApart w r r' reply a g
        | inr (t, g) ↦ command_and_reply-IsApart w _ c (new c) r' reply (others r _ _ _ a) g
      ]

  accept_storage-IsApart :
      (source : ConfigMsg) (r r' : Remote) (reply : Option ConfigMsg)
      → IsApart r
      → accept_storage w source r ≡ some (r', reply)
      → IsApart r'
  unfolding accept_storage
  accept_storage-IsApart source r r' reply a h =
      let addr =
        λ (c : RuntimeConfig). concat_with_colon (convert_uint32t_ip c.rpc_ip) c.rpc_port in
      let new = λ (c : RuntimeConfig). record r { storages = insert (addr c) c r.storages } in
      let (c, e, f) =
        >>=-eq-some (protobuf2local source)
          (λ c.
            if has (addr c) r.storages
            then some (r, none)
            else command_and_reply w RpcOperation.add_storage c (new c))
          h in
      elim (if_split (has (addr c) r.storages) f) [
        | inl (t, g) ↦ refused-IsApart w r r' reply a g
        | inr (t, g) ↦ command_and_reply-IsApart w _ c (new c) r' reply (others r _ _ _ a) g
      ]

  pub migration_negotiate-IsApart :
      (req : NegotiateReq) (r r' : Remote) (reply : Option ConfigMsg)
      → IsApart r
      → Handle.migration_negotiate w req r ≡ some (r', reply)
      → IsApart r'
  unfolding Handle.migration_negotiate
  migration_negotiate-IsApart req r r' reply a h = elim (if_split (same_neighbours req r) h) [
    | inl (t, g) ↦ accept_source-IsApart req.source r r' reply a g
    | inr (t, g) ↦ refused-IsApart w r r' reply a g
  ]

  pub replica_negotiate-IsApart :
      (req : NegotiateReq) (r r' : Remote) (reply : Option ConfigMsg)
      → IsApart r
      → Handle.replica_negotiate w req r ≡ some (r', reply)
      → IsApart r'
  unfolding Handle.replica_negotiate
  replica_negotiate-IsApart req r r' reply a h = elim (if_split (same_neighbours req r) h) [
    | inl (t, g) ↦ accept_storage-IsApart req.source r r' reply a g
    | inr (t, g) ↦ refused-IsApart w r r' reply a g
  ]

  connect_replica-IsApart :
      (o : Option ConfigMsg) (r r' : Remote)
      → IsApart r
      → connect_replica w o r ≡ some r'
      → IsApart r'
  unfolding connect_replica
  connect_replica-IsApart none r r' a h = same-IsApart r r' a h
  connect_replica-IsApart (some rep) r r' a h =
      let addr =
        λ (c : RuntimeConfig). concat_with_colon (convert_uint32t_ip c.rpc_ip) c.rpc_port in
      let (c, e, f) =
        >>=-eq-some (protobuf2local rep)
          (λ c.
            call_worker w RpcOperation.add_replica c 0
              (record r { replicas = insert (addr c) c r.replicas }))
          h in
      call_worker-IsApart w _ c 0 _ r' (others r _ _ _ a) f

  add_replica-IsApart :
      (me : ConfigMsg) (addr : Address) (r r' : Remote)
      → IsApart r
      → Handle.add_replica w me addr r ≡ some r'
      → IsApart r'
  unfolding Handle.add_replica
  add_replica-IsApart me addr r r' a h = elim (if_split (skips_replica (key_of addr) r) h) [
    | inl (e, same) ↦ same-IsApart r r' a same
    | inr (e, f) ↦ connect_replica-IsApart _ (asked r) r' (asked-IsApart r a) f
  ]

  pub add_replicas-IsApart :
      (l : List Address) (r r' : Remote)
      → IsApart r
      → Handle.add_replicas w l r ≡ some r'
      → IsApart r'
  unfolding Handle.add_replicas
  add_replicas-IsApart l r r' a h =
      let (me, e, f) =
        >>=-eq-some (local2protobuf r.local_runtime) (λ me. each (Handle.add_replica w me) l r) h in
      each-IsApart w (Handle.add_replica w me) (add_replica-IsApart me) l r r' a f

  pub delete_replica-IsApart :
      (addr : Address) (r r' : Remote)
      → IsApart r
      → Handle.delete_replica w addr r ≡ some r'
      → IsApart r'
  unfolding Handle.delete_replica
  delete_replica-IsApart addr r r' a h = elim (Option-cases (find (key_of addr) r.replicas)) [
    | inl e ↦ same-IsApart r r' a (rw (e, Handle.delete_replica) at h)
    | inr (c, e) ↦
        call_worker-IsApart w _ c 0 _ r' (others r _ _ _ a) (rw (e, Handle.delete_replica) at h)
  ]

  pub delete_storage-IsApart :
      (addr : Address) (r r' : Remote)
      → IsApart r
      → Handle.delete_storage w addr r ≡ some r'
      → IsApart r'
  unfolding Handle.delete_storage
  delete_storage-IsApart addr r r' a h = elim (Option-cases (find (key_of addr) r.storages)) [
    | inl e ↦ same-IsApart r r' a (rw (e, Handle.delete_storage) at h)
    | inr (c, e) ↦
        call_worker-IsApart w _ c 0 _ r' (others r _ _ _ a) (rw (e, Handle.delete_storage) at h)
  ]
