-- ===== src/Timer/Due.antt =====
-- `timeout_occur` of runtime/actor/actor_timer_list.h looks at the first timer only, and overlooks
-- none.
use nfvactor.Prelude.{ℕ, ◌+◌, ◌^◌, ◌%◌}
use nfvactor.Cdlist.{Links, cdlist_add_tail}
use nfvactor.Timer.{ActorTimer}

-- What `add_timer` leaves when its assertion holds.
module _ (head to_ns item now msg_id msg_type : ℕ) (t : ActorTimer) (m : Links) where
  abbrev set : ActorTimer × Links
  set = (
    record { to_time = (now + to_ns) % 2 ^ 64; request_msg_id = msg_id; msg_type = msg_type },
    cdlist_add_tail head item m,
  )
