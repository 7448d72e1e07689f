-- ===== src/Timer.antt =====
-- runtime/actor/actor_timer.h and runtime/actor/actor_timer_list.h: a flow actor's timers, and the
-- lists that keep them in the order in which they run out. A timer's `list_item_` is an address in
-- the memory of links; its other fields are a record.
pub mod Order
pub mod Due
use nfvactor.Prelude.{ℕ, ◌+◌, ◌%◌, ◌^◌, Option, none, some, ◌==◌, ltb, if◌then◌else◌}
use nfvactor.Cdlist.{Links, cdlist_add_tail, cdlist_del, cdlist_peek_first_item}

abbrev pub invalid_message_id : ℕ
invalid_message_id = 0

abbrev pub idle_message_id : ℕ
idle_message_id = 1

-- `struct actor_timer`, without its links and the pointer back to its actor.
pub record ActorTimer : Type 0 where
  pub to_time : ℕ
  pub request_msg_id : ℕ
  pub msg_type : ℕ

-- `invalidate`, of the timer whose links are at `item`.
unfoldable pub invalidate : ℕ → ActorTimer × Links → ActorTimer × Links
unfolding cdlist_del
invalidate item (t, m) = (record t { request_msg_id = invalid_message_id }, cdlist_del item m)

-- `none`: the assertion that the timer is not running fails.
unfoldable pub add_timer : ℕ → ℕ → ℕ → ℕ → ℕ → ℕ → ActorTimer × Links → Option (ActorTimer × Links)
unfolding cdlist_add_tail
add_timer head to_ns item now_ns request_msg_id msg_type (t, m) =
    if t.request_msg_id == invalid_message_id
    then some (
      record {
        to_time = (now_ns + to_ns) % 2 ^ 64;
        request_msg_id = request_msg_id;
        msg_type = msg_type;
      },
      cdlist_add_tail head item m,
    )
    else none

-- The first timer of a list, if its time is over; `timer_at` reads the timer behind a link.
unfoldable pub timeout_occur : ℕ → ℕ → (ℕ → ActorTimer) → Links → Option ℕ
unfolding cdlist_peek_first_item
timeout_occur head now timer_at m = elim (cdlist_peek_first_item head m) [
  | none ↦ none
  | some item ↦ if ltb (timer_at item).to_time now then some item else none
]
