-- ===== src/RoundRubinList/Refines.antt =====
-- The list of objects that take turns (runtime/utils/round_rubin_list.h) does what its queue does.
use nfvactor.Prelude.{ℕ, ◌≡◌, refl, Option, none, some, List, [], ◌∷◌, arith}
use nfvactor.Cdlist.{Links}
use nfvactor.Cdlist.Ring.{Seg, IsRing, head_init-IsRing}
use nfvactor.Cdlist.Insert.{add_tail-IsRing, add_head-IsRing}
use nfvactor.Cdlist.Delete.{pop_head-cons, pop_head-nil}
use nfvactor.Cdlist.Rotate.{rotate_left-IsRing, rotate_left_short}
use nfvactor.RoundRubinList
use nfvactor.RoundRubinList.{peek_head, peek_tail, pop_head, rotate}
use nfvactor.RoundRubinList.Queue
use nfvactor.RoundRubinList.Queue.{Call, first, last, rest, Fits, AllFit, answers}
use nfvactor.Actor.Start

module _ (head : ℕ) where
  -- A call on the links; an addition answers nothing.
  unfoldable pub call : Call → Links → Option ℕ × Links
  call (Call.add_to_tail x) m = (none, RoundRubinList.add_to_tail head x m)
  call (Call.add_to_head x) m = (none, RoundRubinList.add_to_head head x m)
  call Call.peek_head m = (peek_head head m, m)
  call Call.peek_tail m = (peek_tail head m, m)
  call Call.pop_head m = pop_head head m
  call Call.rotate m = rotate head m

  unfoldable pub run : List Call → Links → List (Option ℕ)
  run [] m = []
  run (c ∷ cs) m = (call c m).0 ∷ run cs (call c m).1

  last-prev :
      (m : Links) (a x : ℕ) (l : List ℕ) → Seg m a (x ∷ l) head → last (x ∷ l) ≡ some (m.prev head)
  unfolding last
  last-prev m a x [] s = ground arith
  last-prev m a x (y ∷ l) s = rw (last-prev m x y l s.2) refl

  peek_head-first : (m : Links) (l : List ℕ) → IsRing m head l → peek_head head m ≡ first l
  unfolding peek_head first
  peek_head-first m [] r = ground (arith, r.linked)
  peek_head-first m (x ∷ l) r = ground (arith, r.linked.0, r.distinct.0.0)

  last-nil : last [] ≡ none
  unfolding last
  last-nil = refl

  peek_tail-last : (m : Links) (l : List ℕ) → IsRing m head l → peek_tail head m ≡ last l
  unfolding peek_tail
  peek_tail-last m [] r = ground (arith, r.linked, last-nil)
  peek_tail-last m (x ∷ l) r =
      ground (arith, r.linked.0, r.distinct.0.0, last-prev m head x l r.linked)

  turned :
      (m : Links) (l : List ℕ)
      → IsRing m head l
      → ((rotate head m).0 ≡ (Start.rotate l).0) × IsRing (rotate head m).1 head (Start.rotate l).1
  unfolding rotate Start.rotate
  turned m [] r = rw ((rotate_left_short m head).0 r) (refl, r)
  turned m (x ∷ []) r = rw ((rotate_left_short m head).1 x r) (refl, r)
  turned m (x ∷ y ∷ l) r = rotate_left-IsRing m head x y l r

  popped :
      (m : Links) (l : List ℕ)
      → IsRing m head l
      → ((pop_head head m).0 ≡ first l) × IsRing (pop_head head m).1 head (rest l)
  unfolding pop_head first rest
  popped m [] r = rw (pop_head-nil m head r) (refl, r)
  popped m (x ∷ l) r = pop_head-cons m head x l r

  called :
      (c : Call) (m : Links) (l : List ℕ)
      → IsRing m head l
      → Fits head c l
      → ((call c m).0 ≡ (Queue.step c l).0) × IsRing (call c m).1 head (Queue.step c l).1
  unfolding call Queue.step RoundRubinList.add_to_tail RoundRubinList.add_to_head
  called (Call.add_to_tail x) m l r f = (refl, add_tail-IsRing m head x l r f)
  called (Call.add_to_head x) m l r f = (refl, add_head-IsRing m head x l r f)
  called Call.peek_head m l r f = (peek_head-first m l r, r)
  called Call.peek_tail m l r f = (peek_tail-last m l r, r)
  called Call.pop_head m l r f = popped m l r
  called Call.rotate m l r f = turned m l r

  ran :
      (cs : List Call) (m : Links) (l : List ℕ)
      → IsRing m head l
      → AllFit head cs l
      → run cs m ≡ answers cs l
  unfolding run answers
  ran [] m l r f = refl
  ran (c ∷ cs) m l r f =
      let (same, held) = called c m l r f.0 in
      let others = ran cs (call c m).1 (Queue.step c l).1 held f.1 in λ i. same i ∷ others i

  -- From a list that has just been made on, no sequence of calls that add only objects which are
  -- not in the list tells the linked objects from the list of them.
  pub run-answers :
      (cs : List Call) (m : Links)
      → AllFit head cs []
      → run cs (RoundRubinList.init head m) ≡ answers cs []
  unfolding RoundRubinList.init
  run-answers cs m f = ran cs (RoundRubinList.init head m) [] (head_init-IsRing m head) f
