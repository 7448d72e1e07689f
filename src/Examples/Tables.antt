-- ===== src/Examples/Tables.antt =====
-- Hash maps and arrays (runtime/utils), keys and ports (runtime/actor/base, runtime/module) at
-- concrete states.
use mathlib.Core.Path.{subst}
use nfvactor.Prelude.{
  ℕ, ◌+◌, ◌-◌, ◌<◌, ◌≤◌, ◌%◌, ◌^◌, ◌≡◌, ◌↔◌, refl, sym, ap, none, some, List, [], ◌∷◌, ◌++◌, length,
  replicate, take, ltb, if◌then◌else◌, arith,
}
use nfvactor.Cdlist.{Links}
use nfvactor.Cdlist.Ring.{NotIn}
use nfvactor.FastHashMap
use nfvactor.FastHashMap.{FastHashMap}
use nfvactor.FastHashMap.Holds.{Entry, Holds, look, without, items}
use nfvactor.FastHashMap.Kept.{init-Holds, emplace-Holds, erase-Holds}
use nfvactor.FastHashMap.Round.{nexts, nexts-round}
use nfvactor.RoundRubinList
use nfvactor.RoundRubinList.Queue.{Call, step, answers}
use nfvactor.RoundRubinList.Refines.{run, run-answers}
use nfvactor.FixedArray
use nfvactor.FixedArray.{FixedArray, add_all}
use nfvactor.FixedArray.Room.{add_all-init}
use nfvactor.Module.FlowHash.{word, AllBytes, flow_keycmp, flow_keycmp_lem}
use nfvactor.Module.Ports.{Bursts, PacketStats, SnPort, bytes_of, port_out}
use nfvactor.Module.Ports.Counted.{port_out-counts}

abbrev zeros : Links
zeros = record { next = λ i. 0; prev = λ i. 0 }

abbrev empty_map : FastHashMap ℕ
empty_map = FastHashMap.init 9 zeros

abbrev first : Entry ℕ
first = record { key = 5; item = 1; value = 50 }

abbrev second : Entry ℕ
second = record { key = 6; item = 2; value = 60 }

abbrev one_entry : FastHashMap ℕ
one_entry = (FastHashMap.emplace 9 5 1 50 empty_map).1

one_entry-Holds : Holds 9 one_entry (first ∷ [])
unfolding look
one_entry-Holds =
    let (m, e, h) =
      (emplace-Holds 9 5 1 50 empty_map [] (init-Holds 9 zeros)).1 refl (omega arith, tt) in
    subst (λ m. Holds 9 m (first ∷ [])) (sym (ap (λ p. p.1) e)) h

emplace-Holds_example :
    ((e : Entry ℕ)
      → look 6 (first ∷ []) ≡ some e
      → FastHashMap.emplace 9 6 2 60 one_entry ≡ (none, one_entry))
    × (look 6 (first ∷ []) ≡ none
        → NotIn 2 (9 ∷ items (first ∷ []))
        → (m : FastHashMap ℕ) × (FastHashMap.emplace 9 6 2 60 one_entry ≡ (some 60, m))
          × Holds 9 m (first ∷ second ∷ []))
emplace-Holds_example = emplace-Holds 9 6 2 60 one_entry (first ∷ []) one_entry-Holds

abbrev two_entries : FastHashMap ℕ
two_entries = (FastHashMap.emplace 9 6 2 60 one_entry).1

two_entries-Holds : Holds 9 two_entries (first ∷ second ∷ [])
unfolding look
two_entries-Holds =
    let (m, e, h) =
      (emplace-Holds 9 6 2 60 one_entry (first ∷ []) one_entry-Holds).1 refl
        (omega arith, (omega arith, tt)) in
    subst (λ m. Holds 9 m (first ∷ second ∷ [])) (sym (ap (λ p. p.1) e)) h

erase-Holds_example : Holds 9 (FastHashMap.erase 5 two_entries) (without 5 (first ∷ second ∷ []))
erase-Holds_example = erase-Holds 9 5 two_entries (first ∷ second ∷ []) two_entries-Holds

nexts-round_example :
    ((nexts 9 2 two_entries).0 ≡ some 50 ∷ some 60 ∷ [])
    × Holds 9 (nexts 9 2 two_entries).1 (first ∷ second ∷ [])
nexts-round_example = nexts-round 9 (first ∷ second ∷ []) two_entries two_entries-Holds

abbrev numbers : List ℕ
numbers = replicate 33 7

add_all-init_example :
    (length numbers ≤ 32
      → (a : FixedArray ℕ) × (add_all 4 numbers (FixedArray.init 4 32) ≡ some a)
        × (a.elems ≡ numbers))
    × (32 < length numbers → add_all 4 numbers (FixedArray.init 4 32) ≡ none)
add_all-init_example = add_all-init numbers

abbrev key : ℕ → List ℕ
key b = b ∷ 0 ∷ 0 ∷ 0 ∷ 0 ∷ 0 ∷ 0 ∷ 0 ∷ b ∷ 0 ∷ 0 ∷ 0 ∷ 0 ∷ 0 ∷ 0 ∷ 0 ∷ []

key-AllBytes : (b : ℕ) → b < 256 → AllBytes (key b)
key-AllBytes b h =
    let z : 0 < 256 = omega arith in
    (h, (z, (z, (z, (z, (z, (z, (z, (h, (z, (z, (z, (z, (z, (z, (z, tt))))))))))))))))

flow_keycmp_lem_example : (flow_keycmp (word (key 1)) (word (key 2)) 16 ≡ some 0) ↔ (key 1 ≡ key 2)
flow_keycmp_lem_example =
    flow_keycmp_lem (key 1) (key 2) (key-AllBytes 1 (omega arith)) (key-AllBytes 2 (omega arith))
      refl refl

-- A ring is its queue and its room; a packet is its length. Bit 31 is set in each answer.
room_for : List ℕ → ℕ → ℕ
room_for l room = if ltb (length l) room then length l else room

put : List ℕ → List ℕ × ℕ → ℕ × (List ℕ × ℕ)
put l (q, room) =
    let answer = 2 ^ 31 + room_for l room in
    (answer, (q ++ take (answer % 2 ^ 31) l, room - room_for l room))

put-le : (l : List ℕ) (r : List ℕ × ℕ) → (put l r).0 % 2 ^ 31 ≤ length l
unfolding put room_for
put-le l (q, room) = ground arith

queued-put : (l : List ℕ) (r : List ℕ × ℕ) → (put l r).1.0 ≡ r.0 ++ take ((put l r).0 % 2 ^ 31) l
unfolding put
queued-put l (q, room) = refl

abbrev rooms : Bursts ℕ
rooms = record {
  Ring = List ℕ × ℕ;
  queued = λ (q, room). q;
  dequeue_burst = λ n r. ([], r);
  enqueue_burst = put;
  enqueue_burst-le = put-le;
  queued-enqueue_burst = queued-put;
}

abbrev no_packets : PacketStats
no_packets = record { packets = 0; dropped = 0; bytes = 0 }

abbrev port : SnPort rooms
port = record {
  inc = no_packets;
  out = no_packets;
  tx_dropped = 0;
  rx = ([], 0);
  tx = (50 ∷ [], 2);
}

abbrev three : List ℕ
three = 60 ∷ 70 ∷ 80 ∷ []

port_out-counts_example :
    let (freed, port') = port_out rooms (λ p. p) three port in
    (sent : List ℕ) × (three ≡ sent ++ freed)
    × (port'.tx.0 ≡ (50 ∷ []) ++ sent)
    × (port'.out.packets ≡ 0 + length sent)
    × (port'.out.dropped ≡ 0 + length freed)
    × (port'.tx_dropped ≡ 0 + length freed)
    × (port'.out.bytes ≡ (0 + bytes_of rooms (λ p. p) sent) % 2 ^ 64)
port_out-counts_example =
    port_out-counts rooms (λ p. p) three port (omega arith) (omega arith) (omega arith)

abbrev turns : List Call
turns = Call.add_to_tail 1 ∷ Call.add_to_head 2 ∷ Call.rotate ∷ Call.peek_tail ∷ Call.pop_head ∷ []

run-answers_example : run 9 turns (RoundRubinList.init 9 zeros) ≡ answers turns []
unfolding step
run-answers_example =
    run-answers 9 turns zeros
      ((omega arith, tt), ((omega arith, (omega arith, tt)), (tt, (tt, (tt, tt)))))
