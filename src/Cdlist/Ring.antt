-- ===== src/Cdlist/Ring.antt =====
-- What a well-linked circular list is, and what a write elsewhere leaves alone.
use nfvactor.Prelude.{ℕ, zero, suc, ◌<◌, ◌≡◌, ◌≢◌, sym, List, [], ◌∷◌, ◌++◌, some, arith, length}
use mathlib.Core.Path.{subst}
use nfvactor.Cdlist.{Links, set_next, set_prev, count_from, cdlist_count, cdlist_head_init}

abbrev pub NotIn : ℕ → List ℕ → Type 0
NotIn a [] = Unit
NotIn a (x ∷ xs) = (a ≢ x) × NotIn a xs

abbrev pub IsDistinct : List ℕ → Type 0
IsDistinct [] = Unit
IsDistinct (x ∷ xs) = NotIn x xs × IsDistinct xs

-- From `a` the links go through `xs` to `b`, and back.
abbrev pub Seg : Links → ℕ → List ℕ → ℕ → Type 0
Seg m a [] b = (m.next a ≡ b) × (m.prev b ≡ a)
Seg m a (x ∷ xs) b = (m.next a ≡ x) × (m.prev x ≡ a) × Seg m x xs b

-- The list at `head` holds `xs`, first to last.
pub record IsRing (m : Links) (head : ℕ) (xs : List ℕ) : Type 0 where
  pub linked : Seg m head xs head
  pub distinct : IsDistinct (head ∷ xs)

pub Seg-set_next :
    (m : Links) (p v a b : ℕ) (xs : List ℕ)
    → NotIn p (a ∷ xs)
    → Seg m a xs b
    → Seg (set_next p v m) a xs b
Seg-set_next m p v a b [] f s = ground arith
Seg-set_next m p v a b (x ∷ xs) f s = (ground arith, s.1, Seg-set_next m p v x b xs f.1 s.2)

pub Seg-set_prev :
    (m : Links) (p v a b : ℕ) (xs : List ℕ)
    → NotIn p xs
    → p ≢ b
    → Seg m a xs b
    → Seg (set_prev p v m) a xs b
Seg-set_prev m p v a b [] f g s = ground arith
Seg-set_prev m p v a b (x ∷ xs) f g s = (s.0, ground arith, Seg-set_prev m p v x b xs f.1 g s.2)

pub NotIn-append : (a : ℕ) (xs ys : List ℕ) → NotIn a xs → NotIn a ys → NotIn a (xs ++ ys)
NotIn-append a [] ys f g = g
NotIn-append a (x ∷ xs) ys f g = (f.0, NotIn-append a xs ys f.1 g)

pub NotIn-append_left : (a : ℕ) (xs ys : List ℕ) → NotIn a (xs ++ ys) → NotIn a xs
NotIn-append_left a [] ys f = tt
NotIn-append_left a (x ∷ xs) ys f = (f.0, NotIn-append_left a xs ys f.1)

pub NotIn-append_right : (a : ℕ) (xs ys : List ℕ) → NotIn a (xs ++ ys) → NotIn a ys
NotIn-append_right a [] ys f = f
NotIn-append_right a (x ∷ xs) ys f = NotIn-append_right a xs ys f.1

pub IsDistinct-snoc : (i : ℕ) (xs : List ℕ) → IsDistinct xs → NotIn i xs → IsDistinct (xs ++ i ∷ [])
IsDistinct-snoc i [] d f = (tt, tt)
IsDistinct-snoc i (x ∷ xs) d f =
    (NotIn-append x xs (i ∷ []) d.0 (λ e. f.0 (sym e), tt), IsDistinct-snoc i xs d.1 f.1)

-- The node before the end is the start or a node of the segment.
pub Seg-prev_ne :
    (m : Links) (a b c : ℕ) (xs : List ℕ) → NotIn c (a ∷ xs) → Seg m a xs b → c ≢ m.prev b
Seg-prev_ne m a b c [] f s = ground arith
Seg-prev_ne m a b c (x ∷ xs) f s = Seg-prev_ne m x b c xs f.1 s.2

-- The node after the start is a node of the segment or its end.
pub Seg-next_ne :
    (m : Links) (a b c : ℕ) (xs : List ℕ) → NotIn c xs → c ≢ b → Seg m a xs b → c ≢ m.next a
Seg-next_ne m a b c [] f g s = ground arith
Seg-next_ne m a b c (x ∷ xs) f g s = ground arith

pub NotIn-eq : {a b : ℕ} (xs : List ℕ) → a ≡ b → NotIn b xs → NotIn a xs
NotIn-eq xs e f = subst (λ c. NotIn c xs) (sym e) f

pub head_init-IsRing : (m : Links) (head : ℕ) → IsRing (cdlist_head_init head m) head []
unfolding cdlist_head_init
head_init-IsRing m head = ground arith

-- The links of a walk over `next` alone.
abbrev pub Walk : Links → ℕ → List ℕ → ℕ → Type 0
Walk m a [] b = m.next a ≡ b
Walk m a (x ∷ xs) b = (m.next a ≡ x) × Walk m x xs b

Seg-Walk : (m : Links) (a b : ℕ) (xs : List ℕ) → Seg m a xs b → Walk m a xs b
Seg-Walk m a b [] s = s.0
Seg-Walk m a b (x ∷ xs) s = (s.0, Seg-Walk m x b xs s.2)

count_from-Walk :
    (m : Links) (a h fuel : ℕ) (xs : List ℕ)
    → Walk m a xs h
    → NotIn h xs
    → length xs < fuel
    → count_from fuel (m.next a) h m ≡ some (length xs)
unfolding count_from
count_from-Walk m a h zero xs s f l = absurd (omega arith)
count_from-Walk m a h (suc fuel) [] s f l = ground arith
count_from-Walk m a h (suc fuel) (x ∷ xs) s f l =
    ground (arith, count_from-Walk m x h fuel xs s.1 f.1 (omega arith))

pub count-Walk :
    (m : Links) (head fuel : ℕ) (xs : List ℕ)
    → Walk m head xs head
    → NotIn head xs
    → length xs < fuel
    → cdlist_count fuel head m ≡ some (length xs)
unfolding cdlist_count
count-Walk m head fuel xs = count_from-Walk m head head fuel xs

-- The count loop ends on a well-linked list, once the fuel exceeds its length, and counts it.
pub count-length :
    (m : Links) (head fuel : ℕ) (xs : List ℕ)
    → IsRing m head xs
    → length xs < fuel
    → cdlist_count fuel head m ≡ some (length xs)
count-length m head fuel xs r l =
    count-Walk m head fuel xs (Seg-Walk m head head xs r.linked) r.distinct.0 l
