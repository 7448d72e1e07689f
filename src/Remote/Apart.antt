-- ===== src/Remote/Apart.antt =====
-- Which tables of a runtime's server never share a runtime (runtime/rpc/call_data_impl.h).
use nfvactor.Prelude.{
  ℕ, ◌+◌, Option-cases, ◌≡◌, sym, Bool, true, false, some, arith, Bool-cases, inl, inr,
  some_injective,
}
use mathlib.Core.Path.{subst}
use nfvactor.Conn.{RuntimeConfig}
use nfvactor.Remote.{Remote, World, Table, find, has, insert, remove, call_worker, local_addr}
use nfvactor.Command.Run.{RpcOperation}
use nfvactor.Remote.Codes.{Text, same_text, same_text_refl}
use nfvactor.Command.{Control}
use nfvactor.Remote.Handle.{skips_output, skips_target, if_found}
use nfvactor.Remote.Tables.{call_worker-eq, has-insert, not_has-insert, has-remove}

pub record IsApart (r : Remote) : Type 0 where
  pub input_output : (k : Text) → has k r.input_runtimes ≡ true → has k r.output_runtimes ≡ false
  pub output_target :
      (k : Text) → has k r.output_runtimes ≡ true → has k r.migration_targets ≡ false
  pub local_output : has (local_addr r) r.output_runtimes ≡ false
  pub local_target : has (local_addr r) r.migration_targets ≡ false

-- Only the tables of inputs, outputs and targets count, and the own address.
pub same_tables :
    (r : Remote) (replicas storages sources : Table) (turn : ℕ) (worker : Control)
    → IsApart r
    → IsApart (record r {
      replicas = replicas;
      storages = storages;
      migration_sources = sources;
      turn = turn;
      worker = worker;
    })
same_tables r replicas storages sources turn worker a = record {
  input_output = a.input_output;
  output_target = a.output_target;
  local_output = a.local_output;
  local_target = a.local_target;
}

-- A command leaves the tables as they are.
pub call_worker-IsApart :
    (w : World) (op : RpcOperation) (c : RuntimeConfig) (q : ℕ) (r r' : Remote)
    → IsApart r
    → call_worker w op c q r ≡ some r'
    → IsApart r'
call_worker-IsApart w op c q r r' a h =
    let (k, e, f) = call_worker-eq w op c q r r' h in
    rw f (same_tables r r.replicas r.storages r.migration_sources (r.turn + 1) k a)

pub if_found-IsApart :
    (w : World) (op : RpcOperation) (q : ℕ) (k : Text) (m : Table) (r r' : Remote)
    → IsApart r
    → if_found w op q k m r ≡ some r'
    → IsApart r'
unfolding if_found
if_found-IsApart w op q k m r r' a h = elim (Option-cases (find k m)) [
  | inl e ↦ subst IsApart (sym (some_injective (rw (e, if_found) at h))) a
  | inr (c, e) ↦ call_worker-IsApart w op c q r r' a (rw (e, if_found) at h)
]

differs : {b : Bool} → b ≡ false → ¬ (b ≡ true)
differs e h = cc

other_text : {s t : Text} → same_text s t ≡ false → ¬ (s ≡ t)
other_text {s} {t} h e = differs h (subst (λ u. same_text s u ≡ true) e (same_text_refl s))

skips_output_lem :
    (k : Text) (r : Remote)
    → skips_output k r ≡ false
    → (has k r.input_runtimes ≡ false)
      × (has k r.migration_targets ≡ false)
      × (same_text k (local_addr r) ≡ false)
unfolding skips_output
skips_output_lem k r h = ground arith

skips_target_lem :
    (k : Text) (r : Remote)
    → skips_target k r ≡ false
    → (has k r.output_runtimes ≡ false) × (same_text k (local_addr r) ≡ false)
unfolding skips_target
skips_target_lem k r h = ground arith

module _ (k : Text) (c : RuntimeConfig) (r : Remote) (a : IsApart r) where
  pub input-IsApart :
      has k r.output_runtimes ≡ false
      → IsApart (record r { input_runtimes = insert k c r.input_runtimes })
  input-IsApart h = record {
    input_output = λ j p. elim (Bool-cases (has j r.input_runtimes)) [
      | inl old ↦ a.input_output j old
      | inr new ↦ subst (λ i. has i r.output_runtimes ≡ false) (has-insert k j c _ p new) h
    ];
    output_target = a.output_target;
    local_output = a.local_output;
    local_target = a.local_target;
  }

  pub output-IsApart :
      skips_output k r ≡ false
      → IsApart (record r { output_runtimes = insert k c r.output_runtimes })
  output-IsApart h =
      let (input, target, other) = skips_output_lem k r h in
      let m = r.output_runtimes in
      record {
        input_output = λ j p.
            not_has-insert k j c m (a.input_output j p)
              (λ e. differs (subst (λ i. has i r.input_runtimes ≡ false) e input) p);
        output_target = λ j p. elim (Bool-cases (has j m)) [
          | inl old ↦ a.output_target j old
          | inr new ↦
              subst (λ i. has i r.migration_targets ≡ false) (has-insert k j c m p new) target
        ];
        local_output = not_has-insert k (local_addr r) c m a.local_output (other_text other);
        local_target = a.local_target;
      }

  pub target-IsApart :
      skips_target k r ≡ false
      → IsApart (record r { migration_targets = insert k c r.migration_targets })
  target-IsApart h =
      let (output, other) = skips_target_lem k r h in
      let m = r.migration_targets in
      record {
        input_output = a.input_output;
        output_target = λ j p.
            not_has-insert k j c m (a.output_target j p)
              (λ e. differs (subst (λ i. has i r.output_runtimes ≡ false) e output) p);
        local_output = a.local_output;
        local_target = not_has-insert k (local_addr r) c m a.local_target (other_text other);
      }

  pub remove_input-IsApart : IsApart (record r { input_runtimes = remove k r.input_runtimes })
  remove_input-IsApart = record {
    input_output = λ j p. elim (Bool-cases (has j r.input_runtimes)) [
      | inl old ↦ a.input_output j old
      | inr new ↦ absurd (differs (has-remove k j r.input_runtimes new) p)
    ];
    output_target = a.output_target;
    local_output = a.local_output;
    local_target = a.local_target;
  }

  pub remove_output-IsApart : IsApart (record r { output_runtimes = remove k r.output_runtimes })
  remove_output-IsApart =
      let m = r.output_runtimes in
      record {
        input_output = λ j p. has-remove k j m (a.input_output j p);
        output_target = λ j p. elim (Bool-cases (has j m)) [
          | inl old ↦ a.output_target j old
          | inr new ↦ absurd (differs (has-remove k j m new) p)
        ];
        local_output = has-remove k (local_addr r) m a.local_output;
        local_target = a.local_target;
      }
