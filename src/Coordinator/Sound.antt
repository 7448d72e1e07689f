-- ===== src/Coordinator/Sound.antt =====
-- What holds of the coordinator's memory between two handlers: a flow that is being migrated away has
-- the id of the message that it waits for in its migration timer, the sum of the counters of
-- migrations is what it was, and there are message ids left that are not `invalid_message_id`. The
-- timers' links are not looked at here.
pub mod Migrating
pub mod Handling
pub mod Ending
pub mod Starting
pub mod Matching
pub mod Running
use nfvactor.Prelude.{
  ℕ, ◌+◌, ◌*◌, ◌^◌, ◌<◌, ◌≤◌, ◌≡◌, ◌≢◌, refl, ap, ◌∙◌, Bool, true, ◌||◌, not, ◌==◌, arith, inl, inr,
  Bool-cases, ==_iff,
}
use nfvactor.Command.{Control}
use nfvactor.Actor.{FlowActor, Worker}
use nfvactor.Coordinator.Counters.{accounted}

-- An actor that is a migration's source has a message id in its migration timer.
unfoldable pub waits : FlowActor → Bool
waits x =
    not ((x.current_state == 2) || (x.current_state == 4) || (x.current_state == 6))
    || not (x.migration_timer.request_msg_id == 0)

-- This holds of every actor; at least `n` message ids are left; the counters' sum is `t`.
pub record IsSound {W : Type 0} (n t : ℕ) (w : Worker W) : Type 0 where
  pub all_wait : (b : ℕ) → waits (w.actor b) ≡ true
  pub started : 0 < w.control.next_msg_id
  pub ids_left : w.control.next_msg_id + n < 2 ^ 32
  pub sum : accounted w.control.migration ≡ t

-- What a handler at work on the actor `a` may change: that actor, whose timer has a message id in the
-- end if it is a source, and the next message id, by two at most.
pub record Keeps {W : Type 0} (a : ℕ) (w w' : Worker W) : Type 0 where
  pub others : (b : ℕ) → a ≢ b → waits (w.actor b) ≡ true → waits (w'.actor b) ≡ true
  pub own : 0 < w.control.next_msg_id → waits (w.actor a) ≡ true → waits (w'.actor a) ≡ true
  pub next_low : w.control.next_msg_id ≤ w'.control.next_msg_id
  pub next_high : w'.control.next_msg_id ≤ w.control.next_msg_id + 2
  pub same : accounted w'.control.migration ≡ accounted w.control.migration

-- The same, where the actor's timer need not have one before.
pub record Settles {W : Type 0} (a : ℕ) (w w' : Worker W) : Type 0 where
  pub others : (b : ℕ) → a ≢ b → waits (w.actor b) ≡ true → waits (w'.actor b) ≡ true
  pub own : 0 < w.control.next_msg_id → waits (w'.actor a) ≡ true
  pub next_low : w.control.next_msg_id ≤ w'.control.next_msg_id
  pub next_high : w'.control.next_msg_id ≤ w.control.next_msg_id + 2
  pub same : accounted w'.control.migration ≡ accounted w.control.migration

pub Keeps-same : {W : Type 0} (a : ℕ) (w : Worker W) → Keeps a w w
Keeps-same a w = record {
  others = λ b n h. h;
  own = λ p h. h;
  next_low = omega arith;
  next_high = omega arith;
  same = refl;
}

module _ {W : Type 0} (n t : ℕ) where
  Keeps-all :
      (a : ℕ) {w w' : Worker W}
      → Keeps a w w'
      → IsSound (n + 2) t w
      → (b : ℕ) → waits (w'.actor b) ≡ true
  Keeps-all a {w} {w'} k s b =
      ground (arith, k.others b, k.own s.started (s.all_wait a), s.all_wait b)

  pub IsSound-after :
      (a : ℕ) {w w' : Worker W} → Keeps a w w' → IsSound (n + 2) t w → IsSound n t w'
  IsSound-after a k s = record {
    all_wait = Keeps-all a k s;
    started = omega (arith, k.next_low, s.started);
    ids_left = omega (arith, k.next_high, s.ids_left);
    sum = k.same ∙ s.sum;
  }

-- Ids may be left over.
pub fewer : {W : Type 0} (n m t : ℕ) {w : Worker W} → m ≤ n → IsSound n t w → IsSound m t w
fewer n m t h s = record {
  all_wait = s.all_wait;
  started = s.started;
  ids_left = omega (arith, s.ids_left);
  sum = s.sum;
}

-- What is sound only depends on the actors and on the control.
pub IsSound-same :
    {W : Type 0} (n t : ℕ) {u w : Worker W}
    → w.actor ≡ u.actor
    → w.control.next_msg_id ≡ u.control.next_msg_id
    → w.control.migration ≡ u.control.migration
    → IsSound n t u
    → IsSound n t w
IsSound-same n t f g h s = record {
  all_wait = λ b. ap (λ k. waits (k b)) f ∙ s.all_wait b;
  started = omega (arith, s.started);
  ids_left = omega (arith, s.ids_left);
  sum = ap accounted h ∙ s.sum;
}
