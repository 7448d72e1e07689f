-- ===== src/Remote/Waiting.antt =====
-- For each kind of call, one object waits, whatever calls have come (runtime/rpc/call_data_impl.h).
use nfvactor.Prelude.{
  ℕ, zero, suc, ◌+◌, ◌<◌, ◌≡◌, refl, ap, ◌∙◌, ◌&&◌, Option, some, List, [], ◌∷◌, ◌++◌, ◌==◌,
  if◌then◌else◌, get_elem?, set, arith, ltb, leb, if_split, inl, inr, >>=-eq-some, some_injective,
  get_elem?-lt, get_elem?-append_left,
}
use native.Mathlib.Decide.{dec_lt}
use nfvactor.Remote.{Remote, World}
use nfvactor.Remote.Calls.{Request, handle}
use nfvactor.Remote.Objects.{
  CallStatus, CallData, kind_of, new_call_data, create_from, create_call_data, delete_at,
  proceed_at, proceed, handle_rpcs,
}

unfoldable pub count : (CallData → ℕ) → List CallData → ℕ
count f [] = 0
count f (o ∷ l) = f o + count f l

is_waiting : CallStatus → ℕ
is_waiting CallStatus.create = 0
is_waiting CallStatus.process = 1
is_waiting CallStatus.finish = 0

one : ℕ → CallData → ℕ
unfolding is_waiting
one k o = if o.kind == k then is_waiting o.status else 0

-- How many objects wait for a call of the kind.
unfoldable pub waiting : ℕ → List CallData → ℕ
unfolding count one
waiting k l = count (one k) l

-- An object whose constructor has not asked for a call.
created : CallData → ℕ
created o = elim (o.status) [
  | CallStatus.create ↦ 1
  | CallStatus.process ↦ 0
  | CallStatus.finish ↦ 0
]

module _ (f : CallData → ℕ) where
  count-append : (l : List CallData) (o : CallData) → count f (l ++ o ∷ []) ≡ count f l + f o
  unfolding count
  count-append [] o = omega arith
  count-append (p ∷ l) o = omega (arith, count-append l o)

  count-set :
      (l : List CallData) (i : ℕ) (o p : CallData)
      → get_elem? l i ≡ some o
      → count f (set l i p) + f o ≡ count f l + f p
  unfolding count
  count-set [] i o p h = absurd (cc)
  count-set (q ∷ l) zero o p h = omega (arith, ap f (some_injective h))
  count-set (q ∷ l) (suc i) o p h = omega (arith, count-set l i o p h)

  count-delete_at :
      (l : List CallData) (i : ℕ) (o : CallData)
      → get_elem? l i ≡ some o
      → count f (delete_at i l) + f o ≡ count f l
  unfolding count delete_at
  count-delete_at [] i o h = absurd (cc)
  count-delete_at (q ∷ l) zero o h = omega (arith, ap f (some_injective h))
  count-delete_at (q ∷ l) (suc i) o h = omega (arith, count-delete_at l i o h)

  -- The object at `i` turns into another one, behind a new one.
  count-turn :
      (l : List CallData) (i : ℕ) (o n p : CallData)
      → get_elem? l i ≡ some o
      → count f (set (l ++ n ∷ []) i p) + f o ≡ count f l + f n + f p
  count-turn l i o n p h =
      let there : get_elem? (l ++ n ∷ []) i ≡ some o =
        get_elem?-append_left l (n ∷ []) i (get_elem?-lt l i h) ∙ h in
      omega (arith, count-set (l ++ n ∷ []) i o p there, count-append l n)

record IsReady (objs : List CallData) : Type 0 where
  none_created : count created objs ≡ 0
  one_waits : (k : ℕ) → k < 20 → waiting k objs ≡ 1

pair_left :
    {A B : Type 0} {a b : A} {c d : B}
    → ◌≡◌ {A = Option (A × B)} (some (a, c)) (some (b, d))
    → b ≡ a
pair_left e = ap (λ p. p.0) (some_injective e)

-- An object with an answer no longer counts, whatever its kind.
one-turn : (j k : ℕ) → (one j (record { kind = k; status = CallStatus.finish }) ≡ 0)
unfolding one
one-turn j k = ground arith

proceed_at-IsReady :
    (w : World) (i k : ℕ) (st : CallStatus) (q : Request) (objs objs' : List CallData)
    (r r' : Remote)
    → IsReady objs
    → get_elem? objs i ≡ some (record { kind = k; status = st })
    → proceed_at w i k st q (objs, r) ≡ some (objs', r')
    → IsReady objs'
unfolding proceed_at waiting created
proceed_at-IsReady w i k CallStatus.create q objs objs' r r' a h e =
    absurd (omega (arith, a.none_created, count-delete_at created objs i _ h))
proceed_at-IsReady w i k CallStatus.process q objs objs' r r' a h e =
    let turned : CallData = record { kind = k; status = CallStatus.finish } in
    elim (if_split (k == kind_of q) e) [
      | inl (same, f) ↦
          let (p, e1, f1) =
            >>=-eq-some (handle w q r)
              (λ p. some (set (objs ++ new_call_data k ∷ []) i turned, p.0)) f in
          rw (pair_left f1) (record {
            none_created =
                omega
                  (arith, a.none_created, count-turn created objs i _ (new_call_data k) turned h);
            one_waits = λ j b. omega (
              arith,
              a.one_waits j b,
              count-turn (one j) objs i _ (new_call_data k) turned h,
              one-turn j k,
            );
          })
      | inr (other, f) ↦ absurd (cc)
    ]
proceed_at-IsReady w i k CallStatus.finish q objs objs' r r' a h e = rw (pair_left e) (record {
  none_created = omega (arith, a.none_created, count-delete_at created objs i _ h);
  one_waits =
      λ j b. omega (arith, a.one_waits j b, count-delete_at (one j) objs i _ h, one-turn j k);
})

waiting-create_from :
    (j n k : ℕ) → waiting j (create_from n k) ≡ (if leb k j && ltb j (k + n) then 1 else 0)
unfolding waiting create_from one
waiting-create_from j zero k = ground arith
waiting-create_from j (suc n) k = ground (arith, waiting-create_from j n (k + 1))

none_created-create_from : (n k : ℕ) → count created (create_from n k) ≡ 0
unfolding count create_from created
none_created-create_from zero k = refl
none_created-create_from (suc n) k = omega (arith, none_created-create_from n (k + 1))

create_call_data-IsReady : IsReady create_call_data
unfolding create_call_data
create_call_data-IsReady = record {
  none_created = none_created-create_from 20 0;
  one_waits = λ k h. waiting-create_from k 20 0 ∙ ground arith;
}

one_eq : (k : ℕ) (o : CallData) → 0 < one k o → o ≡ new_call_data k
unfolding one is_waiting
one_eq k o h = ground arith

waiting_at :
    (k : ℕ) (l : List CallData)
    → 0 < waiting k l
    → (i : ℕ) × (get_elem? l i ≡ some (new_call_data k))
unfolding waiting
waiting_at k [] h = absurd (omega arith)
waiting_at k (o ∷ l) h = elim (dec_lt 0 (one k o)) [
  | yes p ↦ (0, ap some (one_eq k o p))
  | no p ↦ let (i, e) = waiting_at k l (omega arith) in (suc i, e)
]

handled :
    (w : World) (events : List (ℕ × Request)) (objs objs' : List CallData) (r r' : Remote)
    → IsReady objs
    → handle_rpcs w events (objs, r) ≡ some (objs', r')
    → IsReady objs'
unfolding handle_rpcs proceed
handled w [] objs objs' r r' a h = rw (pair_left h) a
handled w ((i, q) ∷ l) objs objs' r r' a h =
    let (s, e, f) = >>=-eq-some (proceed w (i, q) (objs, r)) (handle_rpcs w l) h in
    let (o, e1, f1) =
      >>=-eq-some (get_elem? objs i) (λ o. proceed_at w i o.kind o.status q (objs, r)) e in
    handled w l s.0 objs' s.1 r' (proceed_at-IsReady w i o.kind o.status q objs s.0 r s.1 a e1 f1) f

kind_of-lt : (q : Request) → kind_of q < 20
unfolding kind_of
kind_of-lt q = ground arith

-- Whatever calls have come and whichever answers are out, there is one object for each kind of call
-- that waits for the next one: a call of any kind that comes now finds an object that takes it.
pub handle_rpcs-waiting :
    (w : World) (events : List (ℕ × Request)) (objs' : List CallData) (r r' : Remote) (q : Request)
    → handle_rpcs w events (create_call_data, r) ≡ some (objs', r')
    → (waiting (kind_of q) objs' ≡ 1)
      × ((i : ℕ) × (get_elem? objs' i ≡ some (new_call_data (kind_of q))))
handle_rpcs-waiting w events objs' r r' q h =
    let ready = handled w events create_call_data objs' r r' create_call_data-IsReady h in
    let single = ready.one_waits (kind_of q) (kind_of-lt q) in
    (single, waiting_at (kind_of q) objs' (omega arith))
