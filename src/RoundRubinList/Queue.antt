-- ===== src/RoundRubinList/Queue.antt =====
-- What runtime/utils/round_rubin_list.h promises: a list to whose ends objects are added, from whose
-- front they are taken, and whose first object can be sent to the end.
use nfvactor.Prelude.{ℕ, Option, none, some, List, [], ◌∷◌, ◌++◌}
use nfvactor.Cdlist.Ring.{NotIn}
use nfvactor.Actor.Start

-- A client's calls.
pub data Call : Type 0 where
  add_to_tail : ℕ → Call
  add_to_head : ℕ → Call
  peek_head : Call
  peek_tail : Call
  pop_head : Call
  rotate : Call

unfoldable pub first : List ℕ → Option ℕ
first [] = none
first (x ∷ l) = some x

unfoldable pub last : List ℕ → Option ℕ
last [] = none
last (x ∷ l) = elim (last l) [ none ↦ some x | some y ↦ some y ]

unfoldable pub rest : List ℕ → List ℕ
rest [] = []
rest (x ∷ l) = l

-- What a call answers, and the list behind it; the turn is the one that the flow actors' model takes.
unfoldable pub step : Call → List ℕ → Option ℕ × List ℕ
unfolding first last rest Start.rotate
step (Call.add_to_tail x) l = (none, l ++ x ∷ [])
step (Call.add_to_head x) l = (none, x ∷ l)
step Call.peek_head l = (first l, l)
step Call.peek_tail l = (last l, l)
step Call.pop_head l = (first l, rest l)
step Call.rotate l = Start.rotate l

unfoldable pub answers : List Call → List ℕ → List (Option ℕ)
answers [] l = []
answers (c ∷ cs) l = (step c l).0 ∷ answers cs (step c l).1

-- An object that is added is not in the list, and is not its head.
abbrev pub Fits : ℕ → Call → List ℕ → Type 0
Fits head (Call.add_to_tail x) l = NotIn x (head ∷ l)
Fits head (Call.add_to_head x) l = NotIn x (head ∷ l)
Fits head Call.peek_head l = Unit
Fits head Call.peek_tail l = Unit
Fits head Call.pop_head l = Unit
Fits head Call.rotate l = Unit

abbrev pub AllFit : ℕ → List Call → List ℕ → Type 0
AllFit head [] l = Unit
AllFit head (c ∷ cs) l = Fits head c l × AllFit head cs (step c l).1
