-- ===== src/P2p/Assembly.antt =====
-- How a receiver puts messages together (runtime/reliable/reliable_p2p.cc, `recv`): what it has taken
-- in are whole messages, and behind them the packets of one that is not whole, which `batch_` holds.
use mathlib.Core.List.{append_assoc, append-nil, flatten}
use mathlib.Core.Path.{subst}
use native.Mathlib.Decide.{ℕ_discrete}
use nfvactor.Prelude.{
  ℕ, ◌+◌, ◌≡◌, ◌≢◌, refl, sym, ap, ◌∙◌, Bool, some, List, [], ◌∷◌, ◌++◌, length, arith, >>=-eq-some,
}
use nfvactor.Packet.{Packet, MessageHeader, ReliableHeader, rel, msg, msg_magic_num}
use nfvactor.Conn.{ReliableP2p, Shared}
use nfvactor.P2p.{recv, accept, counted, join_message, deliver}
use nfvactor.P2p.Recv.{deliver-whole, deliver-part, join_message-first, join_message-more}

flatten-snoc : (w : List (List Packet)) (l : List Packet) → flatten (w ++ l ∷ []) ≡ flatten w ++ l
unfolding flatten
flatten-snoc [] l = append-nil l
flatten-snoc (k ∷ w) l = ap (λ q. k ++ q) (flatten-snoc w l) ∙ sym (append_assoc k (flatten w) l)

-- A message as it was pushed: as many packets as its header says.
abbrev pub IsWhole : List Packet → Type 0
IsWhole ((msg h ∷ body) ∷ l) = length l + 1 ≡ h.msg_pkt_num
IsWhole l = ⊥

abbrev pub AllWhole : List (List Packet) → Type 0
AllWhole [] = Unit
AllWhole (l ∷ ls) = IsWhole l × AllWhole ls

-- The first packets of a message that is not whole: the receiver has the header, and in `batch_` the
-- packets without it.
abbrev pub IsBegun : List Packet → ReliableP2p → Type 0
IsBegun [] r = r.batch ≡ []
IsBegun ((msg h ∷ body) ∷ l) r =
    (r.batch ≡ body ∷ l) × (r.cur_msg.rmh ≡ h) × (length l + 1 ≢ h.msg_pkt_num)
IsBegun (p ∷ l) r = ⊥

pub record IsAssembled (taken : List Packet) (r : ReliableP2p) : Type 0 where
  pub whole : List (List Packet)
  pub begun : List Packet
  pub parts : taken ≡ flatten whole ++ begun
  pub all_whole : AllWhole whole
  pub held : IsBegun begun r

pub IsAssembled-nil : (r : ReliableP2p) → r.batch ≡ [] → IsAssembled [] r
unfolding flatten
IsAssembled-nil r e = record { whole = []; begun = []; parts = refl; all_whole = tt; held = e }

IsBegun-same :
    (l : List Packet) (r r' : ReliableP2p)
    → r'.batch ≡ r.batch
    → r'.cur_msg ≡ r.cur_msg
    → IsBegun l r
    → IsBegun l r'
IsBegun-same [] r r' e f b = e ∙ b
IsBegun-same ([] ∷ l) r r' e f b = b
IsBegun-same ((msg h ∷ body) ∷ l) r r' e f b = (e ∙ b.0, ap (λ m. m.rmh) f ∙ b.1, b.2)
IsBegun-same ((p ∷ body) ∷ l) r r' e f b = elim b [ ]

pub IsAssembled-same :
    (l : List Packet) (r r' : ReliableP2p)
    → r'.batch ≡ r.batch
    → r'.cur_msg ≡ r.cur_msg
    → IsAssembled l r
    → IsAssembled l r'
IsAssembled-same l r r' e f a = record {
  whole = a.whole;
  begun = a.begun;
  parts = a.parts;
  all_whole = a.all_whole;
  held = IsBegun-same a.begun r r' e f a.held;
}

AllWhole-snoc :
    (w : List (List Packet)) (l : List Packet) → AllWhole w → IsWhole l → AllWhole (w ++ l ∷ [])
AllWhole-snoc [] l a h = (h, tt)
AllWhole-snoc (k ∷ w) l a h = (a.0, AllWhole-snoc w l a.1 h)

-- `l` with its header read and its packets in `batch_`, before the code asks if it is whole.
closed :
    (w : List (List Packet)) (h : MessageHeader) (body : Packet) (l : List Packet) (r : ReliableP2p)
    (s : Shared) {out : Bool × ReliableP2p × Shared}
    → AllWhole w
    → r.batch ≡ body ∷ l
    → r.cur_msg.rmh ≡ h
    → deliver r s ≡ some out
    → IsAssembled (flatten w ++ (msg h ∷ body) ∷ l) out.1
closed w h body l r s {out} a e f d =
    let n : length r.batch ≡ length l + 1 = ap length e ∙ omega arith in
    let m : r.cur_msg.rmh.msg_pkt_num ≡ h.msg_pkt_num = ap (λ k. k.msg_pkt_num) f in
    elim (ℕ_discrete (length l + 1) h.msg_pkt_num) [
      | yes same ↦ record {
        whole = w ++ ((msg h ∷ body) ∷ l) ∷ [];
        begun = [];
        parts = sym (
            append-nil (flatten (w ++ ((msg h ∷ body) ∷ l) ∷ []))
            ∙ flatten-snoc w ((msg h ∷ body) ∷ l));
        all_whole = AllWhole-snoc w ((msg h ∷ body) ∷ l) a same;
        held = deliver-whole r s {out = out} d (n ∙ same ∙ sym m);
      }
      | no other ↦
          let kept = deliver-part r s {out = out} d (λ q. other (sym n ∙ q ∙ m)) in
          record {
            whole = w;
            begun = (msg h ∷ body) ∷ l;
            parts = refl;
            all_whole = a;
            held = (ap (λ x. x.batch) kept ∙ e, ap (λ x. x.cur_msg.rmh) kept ∙ f, other);
          }
    ]

accept-begun :
    (w : List (List Packet)) (l : List Packet) (rest : Packet) (r : ReliableP2p) (s : Shared)
    {out : Bool × ReliableP2p × Shared}
    → AllWhole w
    → IsBegun l r
    → accept rest r s ≡ some out
    → IsAssembled (flatten w ++ (l ++ rest ∷ [])) out.1
unfolding accept
accept-begun w [] rest r s {out} a b h =
    let (r', joined, done) = >>=-eq-some (join_message rest (counted r)) (λ r'. deliver r' s) h in
    let (m, body, shape, e, f) = join_message-first rest (counted r) b joined in
    subst (λ p. IsAssembled (flatten w ++ p ∷ []) out.1) (sym shape)
      (closed w m body [] r' s {out = out} a e f done)
accept-begun w ([] ∷ l) rest r s a b h = elim b [ ]
accept-begun w ((msg m ∷ body) ∷ l) rest r s {out} a b h =
    let (r', joined, done) = >>=-eq-some (join_message rest (counted r)) (λ r'. deliver r' s) h in
    let (e, f) = join_message-more rest (counted r) body l b.0 joined in
    closed w m body (l ++ rest ∷ []) r' s {out = out} a e (ap (λ k. k.rmh) f ∙ b.1) done
accept-begun w ((p ∷ body) ∷ l) rest r s a b h = elim b [ ]

-- The next packet joins what was taken in.
pub recv-IsAssembled :
    (now : ℕ) (rh : ReliableHeader) (rest : Packet) (l : List Packet) (r : ReliableP2p) (s : Shared)
    {out : Bool × ReliableP2p × Shared}
    → rh.magic_num ≡ msg_magic_num
    → rh.seq_num ≡ r.next_seq_num_to_recv
    → IsAssembled l r
    → recv now (rel rh ∷ rest) r s ≡ some out
    → IsAssembled (l ++ rest ∷ []) out.1
unfolding recv
recv-IsAssembled now rh rest l r s {out} m n a h =
    let took : accept rest r s ≡ some out = ground (arith, h) in
    subst (λ q. IsAssembled q out.1)
      (sym (ap (λ q. q ++ rest ∷ []) a.parts ∙ append_assoc (flatten a.whole) a.begun (rest ∷ [])))
      (accept-begun a.whole a.begun rest r s {out = out} a.all_whole a.held took)
