-- ===== src/Module/Batch/Holds.antt =====
-- A giant batch (runtime/actor/base/giant_batch.h) holds sixteen hundred packets, each at its place
-- and with its gate.
use nfvactor.Prelude.{
  ℕ, ◌+◌, ◌*◌, ◌/◌, ◌%◌, ◌<◌, ◌≤◌, ◌≡◌, ◌≢◌, refl, sym, ap, ◌∙◌, some, List, [], ◌∷◌, ◌++◌, ◌>>=◌,
  arith, length, length-append, update, get_elem?, get_elem?-append_left, get_elem?-append_self,
  get_elem?-lt, some_injective, lt→ltb,
}
use mathlib.Core.List.{append_assoc, append-nil}
use mathlib.Core.Path.{subst}
use native.Mathlib.Decide.{dec_lt}
use nfvactor.Module.Batch.{
  GiantBatch, batch_clear, batch_add, full, clear, next_batch, add_pkt_set_gate, add_all, get_pkt,
  get_gate,
}

-- The packets of `l`, in this order, fill the batch.
record IsFilled {P : Type 0} (l : List (P × ℕ)) (g : GiantBatch P) : Type 0 where
  gate_count : g.gate_pos ≡ length l
  pos_bound : g.batch_pos ≤ 49
  count : length l ≡ 32 * g.batch_pos + (g.batches g.batch_pos).cnt
  most : (g.batches g.batch_pos).cnt ≤ 32
  room : g.batch_pos ≢ 49 → (g.batches g.batch_pos).cnt < 32
  filled : (p : ℕ) → p < g.batch_pos → (g.batches p).cnt ≡ 32
  held :
      (i : ℕ) (x : P) (gate : ℕ)
      → get_elem? l i ≡ some (x, gate)
      → ((g.batches (i / 32)).pkts (i % 32) ≡ some x) × (g.gates i ≡ gate)

module _ {P : Type 0} where
  next_batch-pkts :
      (g : GiantBatch P) (p : ℕ) → ((next_batch g).batches p).pkts ≡ (g.batches p).pkts
  unfolding next_batch batch_clear full
  next_batch-pkts g p = ground arith

  next_batch-gates :
      (g : GiantBatch P) → ((next_batch g).gates ≡ g.gates) × ((next_batch g).gate_pos ≡ g.gate_pos)
  unfolding next_batch full
  next_batch-gates g = (ground arith, ground arith)

  -- What `add_pkt_set_gate` writes before it goes to the next batch.
  written : P → ℕ → GiantBatch P → GiantBatch P
  written x gate g =
      let b = g.batches g.batch_pos in
      record g {
        gates = update g.gates g.gate_pos gate;
        gate_pos = g.gate_pos + 1;
        batches =
            update g.batches g.batch_pos
              (record { cnt = b.cnt + 1; pkts = update b.pkts b.cnt (some x) });
      }

  add-written :
      (x : P) (gate : ℕ) (g : GiantBatch P)
      → (g.batches g.batch_pos).cnt < 32
      → add_pkt_set_gate x gate g ≡ some (next_batch (written x gate g))
  unfolding add_pkt_set_gate batch_add written
  add-written x gate g h = ground arith

  written-held :
      (l : List (P × ℕ)) (y : P) (gate' : ℕ) (g : GiantBatch P)
      → IsFilled l g
      → (g.batches g.batch_pos).cnt < 32
      → (i : ℕ) (x : P) (gate : ℕ) → get_elem? (l ++ (y, gate') ∷ []) i ≡ some (x, gate)
      → (((written y gate' g).batches (i / 32)).pkts (i % 32) ≡ some x)
        × ((written y gate' g).gates i ≡ gate)
  unfolding written
  written-held l y gate' g f h i x gate e = elim (dec_lt i (length l)) [
    | yes p ↦
        let old = f.held i x gate (sym (get_elem?-append_left l _ i p) ∙ e) in
        (ground (arith, old.0, f.count, f.gate_count), ground (arith, old.1, f.gate_count))
    | no p ↦
        let last : i ≡ length l =
          omega
            (arith, get_elem?-lt (l ++ (y, gate') ∷ []) i e, length-append l ((y, gate') ∷ [])) in
        let found : some (y, gate') ≡ some (x, gate) =
          sym (get_elem?-append_self l (y, gate'))
          ∙ ap (get_elem? (l ++ (y, gate') ∷ [])) (sym last)
          ∙ e in
        (
          ground (arith, f.count, last, ap (λ q. q.0) (some_injective found)),
          ground (arith, f.gate_count, last, ap (λ q. q.1) (some_injective found)),
        )
  ]

  written-gate_pos :
      (x : P) (gate : ℕ) (g : GiantBatch P) → (written x gate g).gate_pos ≡ g.gate_pos + 1
  unfolding written
  written-gate_pos x gate g = refl

  written-counts :
      (l : List (P × ℕ)) (y : P) (gate' : ℕ) (g : GiantBatch P)
      → IsFilled l g
      → (g.batches g.batch_pos).cnt < 32
      → (v : GiantBatch P) → v ≡ next_batch (written y gate' g)
      → (v.batch_pos ≤ 49)
        × (length (l ++ (y, gate') ∷ []) ≡ 32 * v.batch_pos + (v.batches v.batch_pos).cnt)
        × (v.batch_pos ≢ 49 → (v.batches v.batch_pos).cnt < 32)
        × ((p : ℕ) → p < v.batch_pos → (v.batches p).cnt ≡ 32)
        × ((v.batches v.batch_pos).cnt ≤ 32)
  unfolding next_batch written full batch_clear
  written-counts l y gate' g f h v e =
      let n = length-append l ((y, gate') ∷ []) in
      (
        ground (arith, f.pos_bound),
        ground (arith, f.count, n),
        λ q. ground (arith, f.room),
        λ p q. ground (arith, f.filled p),
        ground (arith, h),
      )

  written-IsFilled :
      (l : List (P × ℕ)) (y : P) (gate' : ℕ) (g : GiantBatch P)
      → IsFilled l g
      → (g.batches g.batch_pos).cnt < 32
      → IsFilled (l ++ (y, gate') ∷ []) (next_batch (written y gate' g))
  written-IsFilled l y gate' g f h =
      let v = written y gate' g in
      let n = length-append l ((y, gate') ∷ []) in
      record {
        gate_count =
            omega (arith, (next_batch-gates v).1, written-gate_pos y gate' g, f.gate_count, n);
        pos_bound = (written-counts l y gate' g f h _ refl).0;
        count = (written-counts l y gate' g f h _ refl).1;
        room = (written-counts l y gate' g f h _ refl).2;
        filled = (written-counts l y gate' g f h _ refl).3;
        most = (written-counts l y gate' g f h _ refl).4;
        held = λ i x gate e.
            let (a, b) = written-held l y gate' g f h i x gate e in
            (
              ap (λ k. k (i % 32)) (next_batch-pkts v (i / 32)) ∙ a,
              ap (λ k. k i) (next_batch-gates v).0 ∙ b,
            );
      }

  has_room :
      (l : List (P × ℕ)) (g : GiantBatch P)
      → IsFilled l g
      → length l < 1600
      → (g.batches g.batch_pos).cnt < 32
  has_room l g f h = elim (dec_lt g.batch_pos 49) [
    | yes p ↦ f.room (λ e. omega arith)
    | no p ↦ omega (arith, f.count)
  ]

  add_all-IsFilled :
      (l0 l : List (P × ℕ)) (g : GiantBatch P)
      → IsFilled l0 g
      → length l0 + length l ≤ 1600
      → (g' : GiantBatch P) × (add_all l g ≡ some g') × IsFilled (l0 ++ l) g'
  unfolding add_all
  add_all-IsFilled l0 [] g f h = (g, refl, subst (λ l. IsFilled l g) (sym (append-nil l0)) f)
  add_all-IsFilled l0 ((y, gate) ∷ l) g f h =
      let room = has_room l0 g f (omega arith) in
      let v = next_batch (written y gate g) in
      let (g', e, k) =
        add_all-IsFilled (l0 ++ (y, gate) ∷ []) l v (written-IsFilled l0 y gate g f room)
          (omega (arith, length-append l0 ((y, gate) ∷ []))) in
      (
        g',
        ap (λ o. o >>= add_all l) (add-written y gate g room) ∙ e,
        subst (λ q. IsFilled q g') (append_assoc l0 ((y, gate) ∷ []) l) k,
      )

  clear-IsFilled : (g : GiantBatch P) → IsFilled [] (clear g)
  unfolding clear batch_clear
  clear-IsFilled g = record {
    gate_count = refl;
    pos_bound = omega arith;
    count = ground arith;
    most = ground arith;
    room = λ e. ground arith;
    filled = λ p h. absurd (omega arith);
    held = λ i x gate e. absurd (cc);
  }

  in_batch :
      (l : List (P × ℕ)) (g : GiantBatch P)
      → IsFilled l g
      → (i : ℕ) → i < length l
      → i % 32 < (g.batches (i / 32)).cnt
  in_batch l g f i h = elim (dec_lt (i / 32) g.batch_pos) [
    | yes p ↦ omega (arith, f.filled (i / 32) p)
    | no p ↦
        let here : i / 32 ≡ g.batch_pos = omega (arith, f.count, f.most) in
        omega (arith, f.count, ap (λ q. (g.batches q).cnt) here)
  ]

  -- A giant batch that is cleared takes up to sixteen hundred packets with their gates, and no
  -- packet is written past its batch's end; the packet that was added at position `i` is then the
  -- one at `i % 32` of batch `i / 32`, with its gate.
  pub add_all-get :
      (l : List (P × ℕ)) (g : GiantBatch P)
      → length l ≤ 1600
      → (g' : GiantBatch P) × (add_all l (clear g) ≡ some g')
        × ((i : ℕ) (x : P) (gate : ℕ)
            → get_elem? l i ≡ some (x, gate)
            → (get_pkt (i / 32) (i % 32) g' ≡ some x) × (get_gate (i / 32) (i % 32) g' ≡ gate))
  unfolding get_pkt get_gate
  add_all-get l g h =
      let (g', e, f) = add_all-IsFilled [] l (clear g) (clear-IsFilled g) (omega arith) in
      (
        g',
        e,
        λ i x gate p.
            let (a, b) = f.held i x gate p in
            (
              rw (lt→ltb _ _ (in_batch l g' f i (get_elem?-lt l i p))) a,
              ap g'.gates (omega arith) ∙ b,
            ),
      )
