-- ===== src/Module/Sound.antt =====
-- The modules that packets go through (runtime/module/forward_ec_scheduler.cc)
-- keep the coordinator's memory sound.
use nfvactor.Prelude.{
  ℕ, zero, suc, ◌+◌, ◌*◌, ◌≤◌, ◌≡◌, refl, Option, none, some, List, [], ◌∷◌, ◌>>=◌, >>=-eq-some,
  some_injective, arith, length,
}
use nfvactor.Packet.{Packet}
use nfvactor.Actor.{Setting, Worker}
use nfvactor.Coordinator.Sound.{IsSound, IsSound-after, IsSound-same, fewer}
use nfvactor.Coordinator.Sound.Matching.{Moves}
use nfvactor.Module.{
  data_round, data_rounds, control_round, control_rounds, classify, Kind, data_pkt, control_pkt,
  garbage_pkt, unreadable, collect_packet, schedule, split_batch,
}
use nfvactor.Module.Rounds.{data_round-Moves, control_round-Moves}

abbrev Split : Type 0 → Type 0
Split W = List (List ℕ) × List (ℕ × Packet) × Worker W

-- The two batches hold no more packets than came in.
record IsSplit {W : Type 0} (n : ℕ) (w : Worker W) (out : Split W) : Type 0 where
  room : length out.0 + length out.1 ≤ n
  same_actors : out.2.actor ≡ w.actor
  same_next : out.2.control.next_msg_id ≡ w.control.next_msg_id
  same_migration : out.2.control.migration ≡ w.control.migration

module _ {W : Type 0} where
  -- A round and then the others.
  one_round :
      (n k t : ℕ) (w : Worker W) {v : Worker W}
      → Moves w v
      → IsSound (k + 2 * suc n) t w
      → IsSound (k + 2 * n) t v
  one_round n k t w (a, m) s =
      IsSound-after (k + 2 * n) t a m (fewer (k + 2 * suc n) (k + 2 * n + 2) t (omega arith) s)

  data_rounds-IsSound :
      (k t : ℕ) (st : ℕ → Setting W) (l : List (List ℕ)) (w : Worker W) {w' : Worker W}
      → IsSound (k + 2 * length l) t w
      → data_rounds st l w ≡ some w'
      → IsSound k t w'
  unfolding data_rounds
  data_rounds-IsSound k t st [] w s e =
      rw (some_injective e) (fewer (k + 2 * zero) k t (omega arith) s)
  data_rounds-IsSound k t st (pkt ∷ l) w s e =
      let (v, done, f) = >>=-eq-some (data_round (st (length l)) pkt w) (data_rounds st l) e in
      data_rounds-IsSound k t st l v
        (one_round (length l) k t w
          (data_round-Moves (st (length l)) pkt w (omega (arith, s.ids_left)) done) s)
        f

  control_rounds-IsSound :
      (k t : ℕ) (st : ℕ → Setting W) (l : List (ℕ × Packet)) (w : Worker W) {w' : Worker W}
      → IsSound (k + 2 * length l) t w
      → control_rounds st l w ≡ some w'
      → IsSound k t w'
  unfolding control_rounds
  control_rounds-IsSound k t st [] w s e =
      rw (some_injective e) (fewer (k + 2 * zero) k t (omega arith) s)
  control_rounds-IsSound k t st ((mac, pkt) ∷ l) w s e =
      let (v, done, f) =
        >>=-eq-some (control_round (st (length l)) mac pkt w) (control_rounds st l) e in
      control_rounds-IsSound k t st l v
        (one_round (length l) k t w
          (control_round-Moves (st (length l)) mac pkt w (omega (arith, s.ids_left)) done) s)
        f

  split_kind :
      (pkt : Packet) (k : Kind) (n : ℕ) (w : Worker W) (rest rest' : Option (Split W))
      {out : Split W}
      → ((o : Split W) → rest ≡ some o → IsSplit n w o)
      → ((o : Split W) → rest' ≡ some o → IsSplit n (collect_packet pkt w) o)
      → elim k [
        | data_pkt bytes ↦ rest >>= (λ (dp, cp, w'). some (bytes ∷ dp, cp, w'))
        | control_pkt mac p ↦ rest >>= (λ (dp, cp, w'). some (dp, (mac, p) ∷ cp, w'))
        | garbage_pkt ↦ rest'
        | unreadable ↦ none
      ]
        ≡ some out
      → IsSplit (suc n) w out
  split_kind pkt (data_pkt bytes) n w none rest' ih ih' e = absurd (cc)
  split_kind pkt (data_pkt bytes) n w (some (dp, cp, v)) rest' ih ih' e =
      let s = ih (dp, cp, v) refl in
      rw (some_injective e) (record {
        room = omega (arith, s.room);
        same_actors = s.same_actors;
        same_next = s.same_next;
        same_migration = s.same_migration;
      })
  split_kind pkt (control_pkt mac p) n w none rest' ih ih' e = absurd (cc)
  split_kind pkt (control_pkt mac p) n w (some (dp, cp, v)) rest' ih ih' e =
      let s = ih (dp, cp, v) refl in
      rw (some_injective e) (record {
        room = omega (arith, s.room);
        same_actors = s.same_actors;
        same_next = s.same_next;
        same_migration = s.same_migration;
      })
  split_kind pkt garbage_pkt n w rest rest' {out = out} ih ih' e =
      let s = ih' out e in
      record {
        room = omega (arith, s.room);
        same_actors = s.same_actors;
        same_next = s.same_next;
        same_migration = s.same_migration;
      }
  split_kind pkt unreadable n w rest rest' ih ih' e = absurd (cc)

  split_batch-IsSplit :
      (l : List Packet) (w : Worker W) {out : Split W}
      → split_batch l w ≡ some out
      → IsSplit (length l) w out
  unfolding split_batch
  split_batch-IsSplit [] w e =
      rw (some_injective e)
        (record { room = omega arith; same_actors = refl; same_next = refl; same_migration = refl })
  split_batch-IsSplit (pkt ∷ l) w e =
      split_kind pkt (classify pkt) (length l) w _ _ (λ o f. split_batch-IsSplit l w f)
        (λ o f. split_batch-IsSplit l (collect_packet pkt w) f) e

  -- Whatever data packets and messages a batch from the input or the output port holds, if the
  -- scheduler gets through it, each flow that is the source of a migration then has a nonzero message
  -- id in its migration timer, and the sum, modulo 2 ^ 64, of the quota that is left and the
  -- migrations that are out, successful, failed or without a flow is what it was. Every source has
  -- such an id before, the next message id is not 0, and two ids are left below 2 ^ 32 for each packet.
  pub schedule-IsSound :
      (n t : ℕ) (st st' : ℕ → Setting W) (batch : List Packet) (w : Worker W) {w' : Worker W}
      → IsSound (n + 2 * length batch) t w
      → schedule st st' batch w ≡ some w'
      → IsSound n t w'
  unfolding schedule
  schedule-IsSound n t st st' batch w s e =
      let u : Worker W = record w { ec_scheduler_batch = [] } in
      let go : Split W → Option (Worker W) =
        λ (dp, cp, w1). data_rounds st dp w1 >>= control_rounds st' cp in
      let ((dp, cp, w1), cut, f) = >>=-eq-some (split_batch batch u) go e in
      let (w2, first, g) = >>=-eq-some (data_rounds st dp w1) (control_rounds st' cp) f in
      let i = split_batch-IsSplit batch u cut in
      let s1 = IsSound-same (n + 2 * length batch) t i.same_actors i.same_next i.same_migration s in
      let both = n + 2 * length cp + 2 * length dp in
      control_rounds-IsSound n t st' cp w2
        (data_rounds-IsSound (n + 2 * length cp) t st dp w1
          (fewer (n + 2 * length batch) both t (omega (arith, i.room)) s1) first)
        g
