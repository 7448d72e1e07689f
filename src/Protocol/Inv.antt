-- ===== src/Protocol/Inv.antt =====
-- What holds between any two steps.
use mathlib.Core.List.{Memᴰ}
use mathlib.Core.Path.{subst}
use nfvactor.Prelude.{
  ℕ, ◌+◌, ◌-◌, ◌≤◌, ◌<◌, ◌≡◌, true, sym, ◌∙◌, some, List, [], ◌∷◌, ◌++◌, arith, length, get_elem?,
  take, get_elem?-append_left, get_elem?-lt,
}
use nfvactor.Packet.{Packet, rel, ReliableHeader}
use nfvactor.SendQueue.Inv.{Carries, IsHolding}
use nfvactor.SendQueue.Window.{Sends}
use nfvactor.P2p.Assembly.{IsAssembled}
use nfvactor.Protocol.{Net, queue_of}

-- A packet that the sender has sent: it carries the packet of its number.
abbrev pub IsSent : List Packet → Packet → Type 0
IsSent pushed pkt =
    (s : ℕ) × (body : Packet) × (0 < s)
    × (get_elem? pushed (s - 1) ≡ some body)
    × Carries pkt s body

-- An acknowledgement that the receiver has sent.
abbrev pub IsAck : ℕ → Packet → Type 0
IsAck next pkt = (h : ReliableHeader) × (pkt ≡ rel h ∷ []) × (h.seq_num ≤ next)

abbrev pub All {ℓ κ} : {A : Type ℓ} → (A → Type κ) → List A → Type κ
All P [] = Unit
All P (x ∷ xs) = P x × All P xs

pub All-map {ℓ κ} :
    {A : Type ℓ} (P Q : A → Type κ) (xs : List A) → ((x : A) → P x → Q x) → All P xs → All Q xs
All-map P Q [] f h = tt
All-map P Q (x ∷ xs) f h = (f x h.0, All-map P Q xs f h.1)

pub All-append {ℓ κ} :
    {A : Type ℓ} (P : A → Type κ) (xs ys : List A) → All P xs → All P ys → All P (xs ++ ys)
All-append P [] ys h k = k
All-append P (x ∷ xs) ys h k = (h.0, All-append P xs ys h.1 k)

pub All-at {ℓ κ} : {A : Type ℓ} (P : A → Type κ) {x : A} (xs : List A) → All P xs → Memᴰ x xs → P x
All-at P [] h m = elim m [ ]
All-at P (y ∷ xs) h (Memᴰ.head e) = subst P (sym e) h.0
All-at P (y ∷ xs) h (Memᴰ.tail m) = All-at P xs h.1 m

-- Neither end has given the connection up.
abbrev pub IsUp : Net → Type 0
IsUp n = (n.sender.is_connection_up ≡ true) × (n.receiver.is_connection_up ≡ true)

-- What the receiver has taken in, by its number: the first of what the sender was given.
abbrev pub taken_in : Net → List Packet
taken_in n = take (n.receiver.next_seq_num_to_recv - 1) n.pushed

pub record IsConsistent (n : Net) : Type 0 where
  pub holding : IsHolding (queue_of n) n.pushed
  pub sent : All (IsSent n.pushed) n.in_flight
  pub numbered : 0 < n.receiver.next_seq_num_to_recv
  pub bounded : n.receiver.next_seq_num_to_recv ≤ length n.pushed + 1
  pub assembled : IsAssembled (taken_in n) n.receiver
  pub acked : All (IsAck n.receiver.next_seq_num_to_recv) n.acks
  pub freed : (queue_of n).head_seq_num ≤ n.receiver.next_seq_num_to_recv

-- The sender's queue is always in its invariant; the rest holds while both ends are up, if the
-- receiver has started as `Start` says.
pub record IsSafe (Start : Type 0) (n : Net) : Type 0 where
  pub hist : List Packet
  pub held : IsHolding (queue_of n) hist
  pub consistent : Start → IsUp n → IsConsistent n

pub Sends-IsSent :
    (pushed : List Packet) (s : ℕ) (batch : List Packet)
    → 0 < s
    → Sends pushed s batch
    → All (IsSent pushed) batch
Sends-IsSent pushed s [] p h = tt
Sends-IsSent pushed s (x ∷ xs) p h =
    ((s, h.0.0, p, h.0.1, h.0.2), Sends-IsSent pushed (s + 1) xs (omega arith) h.1)

pub IsSent-append :
    (pushed more : List Packet) (pkt : Packet) → IsSent pushed pkt → IsSent (pushed ++ more) pkt
IsSent-append pushed more pkt (s, body, p, e, c) =
    (s, body, p, get_elem?-append_left pushed more (s - 1) (get_elem?-lt pushed (s - 1) e) ∙ e, c)
