-- ===== src/Timer/Order.antt =====
-- The lists of timers of runtime/actor/actor_timer_list.h stand in the order in which the timers run
-- out, since a list adds the same time to the clock for each. `timer_at` reads the timer behind a
-- link.
use nfvactor.Prelude.{
  ℕ, ◌+◌, ◌<◌, ◌≤◌, ◌^◌, ◌≡◌, ◌≢◌, sym, Option, none, some, List, [], ◌∷◌, ◌++◌, arith, update,
}
use mathlib.Core.Path.{subst}
use nfvactor.Cdlist.{Links, cdlist_head_init}
use nfvactor.Cdlist.Ring.{NotIn, IsRing}
use nfvactor.Timer.{ActorTimer, add_timer, invalidate}

abbrev pub Each : (ActorTimer → Type 0) → (ℕ → ActorTimer) → List ℕ → Type 0
Each Q timer_at [] = Unit
Each Q timer_at (x ∷ xs) = Q (timer_at x) × Each Q timer_at xs

-- None of the timers runs out before the time, or after it; all of them run.
abbrev pub NoneBefore : ℕ → (ℕ → ActorTimer) → List ℕ → Type 0
NoneBefore time = Each (λ t. time ≤ t.to_time)

abbrev pub NoneAfter : ℕ → (ℕ → ActorTimer) → List ℕ → Type 0
NoneAfter time = Each (λ t. t.to_time ≤ time)

abbrev pub AllRun : (ℕ → ActorTimer) → List ℕ → Type 0
AllRun = Each (λ t. t.request_msg_id ≢ 0)

abbrev pub IsOrdered : (ℕ → ActorTimer) → List ℕ → Type 0
IsOrdered timer_at [] = Unit
IsOrdered timer_at (x ∷ xs) = NoneBefore (timer_at x).to_time timer_at xs × IsOrdered timer_at xs

-- What is found at a time: no timer of the list is over, or the first is, and none is over sooner.
abbrev pub Finds : (ℕ → ActorTimer) → ℕ → List ℕ → Option ℕ → Type 0
Finds timer_at now xs none = NoneBefore now timer_at xs
Finds timer_at now [] (some i) = i ≢ i
Finds timer_at now (x ∷ xs) (some i) =
    (i ≡ x) × ((timer_at i).to_time < now) × NoneBefore (timer_at i).to_time timer_at xs

pub Each-mono :
    (Q R : ActorTimer → Type 0) (timer_at : ℕ → ActorTimer) (xs : List ℕ)
    → ((t : ActorTimer) → Q t → R t)
    → Each Q timer_at xs
    → Each R timer_at xs
Each-mono Q R timer_at [] f q = tt
Each-mono Q R timer_at (x ∷ xs) f q = (f (timer_at x) q.0, Each-mono Q R timer_at xs f q.1)

-- One timer is set.
module _ (timer_at : ℕ → ActorTimer) (item : ℕ) (t : ActorTimer) where
  at_item : update timer_at item t item ≡ t
  at_item = ground arith

  elsewhere : (x : ℕ) → item ≢ x → update timer_at item t x ≡ timer_at x
  elsewhere x h = ground arith

  pub Each-snoc :
      (Q : ActorTimer → Type 0) (xs : List ℕ)
      → NotIn item xs
      → Q t
      → Each Q timer_at xs
      → Each Q (update timer_at item t) (xs ++ item ∷ [])
  Each-snoc Q [] n h q = (subst Q (sym at_item) h, tt)
  Each-snoc Q (x ∷ xs) n h q = (subst Q (sym (elsewhere x n.0)) q.0, Each-snoc Q xs n.1 h q.1)

  pub IsOrdered-snoc :
      (xs : List ℕ)
      → NotIn item xs
      → NoneAfter t.to_time timer_at xs
      → IsOrdered timer_at xs
      → IsOrdered (update timer_at item t) (xs ++ item ∷ [])
  IsOrdered-snoc [] n h o = (tt, tt)
  IsOrdered-snoc (x ∷ xs) n h o = (
    subst (λ y. NoneBefore y.to_time (update timer_at item t) (xs ++ item ∷ []))
        (sym (elsewhere x n.0)) (Each-snoc (λ u. (timer_at x).to_time ≤ u.to_time) xs n.1 h.0 o.0),
    IsOrdered-snoc xs n.1 h.1 o.1,
  )

  pub Each-update :
      (Q : ActorTimer → Type 0) (xs : List ℕ)
      → NotIn item xs
      → Each Q timer_at xs
      → Each Q (update timer_at item t) xs
  Each-update Q [] n q = tt
  Each-update Q (x ∷ xs) n q = (subst Q (sym (elsewhere x n.0)) q.0, Each-update Q xs n.1 q.1)

  pub IsOrdered-update :
      (xs : List ℕ) → NotIn item xs → IsOrdered timer_at xs → IsOrdered (update timer_at item t) xs
  IsOrdered-update [] n o = tt
  IsOrdered-update (x ∷ xs) n o = (
    subst (λ y. NoneBefore y.to_time (update timer_at item t) xs) (sym (elsewhere x n.0))
        (Each-update (λ u. (timer_at x).to_time ≤ u.to_time) xs n.1 o.0),
    IsOrdered-update xs n.1 o.1,
  )

pub Each-without :
    (Q : ActorTimer → Type 0) (timer_at : ℕ → ActorTimer) (i : ℕ) (xs ys : List ℕ)
    → Each Q timer_at (xs ++ i ∷ ys)
    → Each Q timer_at (xs ++ ys)
Each-without Q timer_at i [] ys q = q.1
Each-without Q timer_at i (x ∷ xs) ys q = (q.0, Each-without Q timer_at i xs ys q.1)

pub IsOrdered-without :
    (timer_at : ℕ → ActorTimer) (i : ℕ) (xs ys : List ℕ)
    → IsOrdered timer_at (xs ++ i ∷ ys)
    → IsOrdered timer_at (xs ++ ys)
IsOrdered-without timer_at i [] ys o = o.1
IsOrdered-without timer_at i (x ∷ xs) ys o = (
  Each-without (λ t. (timer_at x).to_time ≤ t.to_time) timer_at i xs ys o.0,
  IsOrdered-without timer_at i xs ys o.1,
)

-- A list of timers with the clock, and what it holds, first to last.
pub record Timers : Type 0 where
  pub now : ℕ
  pub held : List ℕ
  pub timer_at : ℕ → ActorTimer
  pub links : Links

-- The list at `head` holds running timers, the next to run out first.
pub record IsTimers (head to_ns : ℕ) (s : Timers) : Type 0 where
  pub ring : IsRing s.links head s.held
  pub ordered : IsOrdered s.timer_at s.held
  pub running : AllRun s.timer_at s.held
  pub none_after : NoneAfter (s.now + to_ns) s.timer_at s.held

module _ (head to_ns : ℕ) where
  -- What happens to a list: its head is set up; time passes; a timer that is not on the list is
  -- added, which puts it last, and the assertion holds; a timer of the list is invalidated, which
  -- takes it off.
  pub data Reached : Timers → Type 0 where
    started :
        (now : ℕ) (timer_at : ℕ → ActorTimer) (m : Links)
        → Reached
            (record { now = now; held = []; timer_at = timer_at; links = cdlist_head_init head m })
    later : (s : Timers) (now : ℕ) → s.now ≤ now → Reached s → Reached (record s { now = now })
    added :
        (s : Timers) (item msg_id msg_type : ℕ) (out : ActorTimer × Links)
        → NotIn item (head ∷ s.held)
        → msg_id ≢ 0
        → s.now + to_ns < 2 ^ 64
        → add_timer head to_ns item s.now msg_id msg_type (s.timer_at item, s.links) ≡ some out
        → Reached s
        → Reached (record s {
          held = s.held ++ item ∷ [];
          timer_at = update s.timer_at item out.0;
          links = out.1;
        })
    invalidated :
        (s : Timers) (item : ℕ) (xs ys : List ℕ)
        → s.held ≡ xs ++ item ∷ ys
        → Reached s
        → Reached (record s {
          held = xs ++ ys;
          timer_at = update s.timer_at item (invalidate item (s.timer_at item, s.links)).0;
          links = (invalidate item (s.timer_at item, s.links)).1;
        })
