-- ===== src/SendQueue/Window.antt =====
-- `get_window_batch` and `reset_window_pos`: what is sent, and sent again.
use mathlib.Core.Path.{subst}
use native.Mathlib.Nat.{add_assoc, add-zero}
use mathlib.Core.List.{append_assoc, append-nil}
use nfvactor.Prelude.{
  ℕ, zero, suc, ◌+◌, ◌-◌, ◌%◌, ◌≤◌, ◌<◌, ◌≡◌, refl, sym, ◌∙◌, ap, some, List, [], ◌∷◌, ◌++◌, arith,
  length, get_elem?, get_elem?-some, ltb, if◌then◌else◌, update,
}
use Prim.Native.Nat.{min}
use nfvactor.Packet.{Packet}
use nfvactor.SendQueue.{SendQueue, capacity, add32, copy_window, get_window_batch, reset_window_pos}
use nfvactor.SendQueue.Inv.{Carries, Carries-at, IsHolding}

-- A batch of data packets with consecutive numbers from `s` on, each with its packet of the history.
abbrev pub Sends : List Packet → ℕ → List Packet → Type 0
Sends hist s [] = Unit
Sends hist s (p ∷ ps) =
    ((body : Packet) × (get_elem? hist (s - 1) ≡ some body) × Carries p s body)
    × Sends hist (s + 1) ps

-- What the copying loop adds to its batch, and where it stops.
record Copied (q : SendQueue) (hist : List Packet) (limit pos : ℕ) (batch : List Packet)
    (out : List Packet × (ℕ → ℕ) × ℕ) : Type 0 where
  new : List Packet
  extended : out.0 ≡ batch ++ new
  sent : Sends hist (q.window_pos_seq_num + pos) new
  stopped : out.2 ≡ pos + length new
  counted : length new ≡ limit

window_slot :
    (q : SendQueue) (hist : List Packet) (pos : ℕ)
    → IsHolding q hist
    → pos < q.pending_send_num
    → (body : Packet) × (get_elem? hist (q.window_pos_seq_num + pos - 1) ≡ some body)
      × Carries (q.ring_buf ((q.window_pos + pos) % capacity)) (q.window_pos_seq_num + pos) body
window_slot q hist pos v h =
    let i = q.cur_size - q.pending_send_num + pos in
    let number : q.head_seq_num + i ≡ q.window_pos_seq_num + pos =
      omega (arith, v.valid.numbers, v.valid.window_number, v.valid.pending) in
    let slot : (q.head_pos + i) % capacity ≡ (q.window_pos + pos) % capacity =
      omega (arith, v.valid.window) in
    let (body, e) =
      get_elem?-some hist (q.head_seq_num + i - 1)
        (omega (arith, v.counted, v.valid.numbers, v.valid.first, v.valid.pending)) in
    (
      body,
      ap (λ n. get_elem? hist (n - 1)) (sym number) ∙ e,
      Carries-at body (ap q.ring_buf slot) number
          (v.slots i body (omega (arith, v.valid.pending)) e),
    )

copy_window-Copied :
    (q : SendQueue) (hist : List Packet) (now copies n pos : ℕ) (times : ℕ → ℕ)
    (batch : List Packet)
    → IsHolding q hist
    → pos + n ≤ q.pending_send_num
    → Copied q hist (min n copies) pos batch (copy_window q now copies n pos times batch)
unfolding copy_window
copy_window-Copied q hist now copies zero pos times batch v h = record {
  new = [];
  extended = sym (append-nil batch);
  sent = tt;
  stopped = omega arith;
  counted = omega arith;
}
copy_window-Copied q hist now zero (suc n) pos times batch v h = record {
  new = [];
  extended = sym (append-nil batch);
  sent = tt;
  stopped = omega arith;
  counted = omega arith;
}
copy_window-Copied q hist now (suc copies) (suc n) pos times batch v h =
    let at = (q.window_pos + pos) % capacity in
    let rest =
      copy_window-Copied q hist now copies n (pos + 1) (update times at now)
        (batch ++ q.ring_buf at ∷ []) v (omega arith) in
    record {
      new = q.ring_buf at ∷ rest.new;
      extended = rest.extended ∙ append_assoc batch (q.ring_buf at ∷ []) rest.new;
      sent = (
        window_slot q hist pos v (omega arith),
        subst (λ s. Sends hist s rest.new) (sym (add_assoc q.window_pos_seq_num pos 1)) rest.sent,
      );
      stopped = omega (arith, rest.stopped);
      counted = omega (arith, rest.counted);
    }

-- The queue after `sent` packets of its window went out.
abbrev advanced : SendQueue → ℕ → (ℕ → ℕ) → SendQueue
advanced q sent times = record q {
  send_time = times;
  window_pos = (q.window_pos + sent) % capacity;
  pending_send_num = q.pending_send_num - sent;
  window_pos_seq_num = add32 q.window_pos_seq_num sent;
}

advanced-IsHolding :
    (q : SendQueue) (hist : List Packet) (sent : ℕ) (times : ℕ → ℕ)
    → IsHolding q hist
    → sent ≤ q.pending_send_num
    → IsHolding (advanced q sent times) hist
advanced-IsHolding q hist sent times v h = record {
  valid = omega (arith, v.valid);
  counted = v.counted;
  slots = v.slots;
}

-- On a queue in its invariant, the batch holds the next unsent packets in order: as many as the window, the packets that wait
-- and the free buffers allow. The window moves behind them and the history stays.
pub get_window_batch-Sends :
    (q : SendQueue) (hist : List Packet) (window_size now copies : ℕ)
    → IsHolding q hist
    → let (batch, q') = get_window_batch window_size now copies q in
      Sends hist q.window_pos_seq_num batch
      × (length batch ≡ min (min window_size q.pending_send_num) copies)
      × (q'.window_pos_seq_num ≡ q.window_pos_seq_num + length batch)
      × IsHolding q' hist
unfolding get_window_batch
get_window_batch-Sends q hist window_size now copies v = (
  subst (Sends hist q.window_pos_seq_num) (sym done.extended)
      (subst (λ s. Sends hist s done.new) (add-zero q.window_pos_seq_num) done.sent),
  omega (arith, ap length done.extended, done.counted, size-min),
  omega (arith, ap length done.extended, done.stopped, done.counted, size-min, v.valid),
  advanced-IsHolding q hist out.2 out.1 v (omega (arith, done.stopped, done.counted, size-min)),
)
  where
    size : ℕ
    size = if ltb q.pending_send_num window_size then q.pending_send_num else window_size

    size-min : size ≡ min window_size q.pending_send_num
    size-min = ground arith

    out : List Packet × (ℕ → ℕ) × ℕ
    out = copy_window q now copies size 0 q.send_time []

    done : Copied q hist (min size copies) 0 [] out
    done = copy_window-Copied q hist now copies size 0 q.send_time [] v (omega (arith, size-min))

-- Going back, on a queue in its invariant: the window restarts at the head, so that every unacknowledged packet is sent again;
-- the result is the number of packets that had been sent before.
pub reset_window_pos-IsHolding :
    (q : SendQueue) (hist : List Packet)
    → IsHolding q hist
    → let (more, q') = reset_window_pos q in
      IsHolding q' hist
      × (q'.window_pos_seq_num ≡ q.head_seq_num)
      × (q'.pending_send_num ≡ q.cur_size)
      × (more + q.head_seq_num ≡ q.window_pos_seq_num)
unfolding reset_window_pos
reset_window_pos-IsHolding q hist v = (
  record { valid = omega (arith, v.valid); counted = v.counted; slots = v.slots },
  refl,
  refl,
  omega (arith, v.valid),
)

pub get_window_batch-head :
    (q : SendQueue) (size now copies : ℕ)
    → (get_window_batch size now copies q).1.head_seq_num ≡ q.head_seq_num
unfolding get_window_batch
get_window_batch-head q size now copies = refl
