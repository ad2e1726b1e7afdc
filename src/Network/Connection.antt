-- ===== src/Network/Connection.antt =====
-- network/src/reliable_sender.rs: `Connection`, the task that delivers messages to one peer until each
-- is acknowledged. The socket is an input: what a connection attempt, a write or a read gives is an
-- event, and so are the timer, a message from the channel, and a caller that drops a cancel handler.
-- A handler is a number; `closed` holds those that were dropped, and `notified` those that the task
-- answered, with the reply.
pub mod Events
pub mod Delivery
pub mod Backoff
use tusk_ubuntu.Prelude.{
  ℕ, ◌*◌, Bool, true, false, not, Option, none, some, List, [], ◌∷◌, ◌++◌, filter, min, u16_add,
  if◌then◌else◌,
}
use tusk_ubuntu.Prelude.Set
use mathlib.Core.List.{reverse}

abbrev pub Bytes : Type 0
Bytes = List ℕ

abbrev pub Handler : Type 0
Handler = ℕ

pub record InnerMessage : Type 0 where
  pub data_of : Bytes
  pub cancel_handler : Handler

-- Where the task is: before a connection attempt, in the loop `'waiter`, before a `pop_front` of the
-- loop that sends the buffer, in the write of a message, or in the select of `keep_alive`.
pub data Phase : Type 0 where
  connecting : Phase
  waiting : Phase
  sending : Phase
  writing : InnerMessage → Phase
  selecting : Phase

pub record Connection : Type 0 where
  pub phase : Phase
  pub delay : ℕ
  pub retry : ℕ
  pub buffer : List InnerMessage
  pub pending_replies : List InnerMessage
  pub closed : List Handler
  pub notified : List (InnerMessage × Bytes)

pub data Event : Type 0 where
  connected : Event
  failed_to_connect : Event
  timer : Event
  message : InnerMessage → Event
  pop : Event
  written : Bool → Event
  response : Option Bytes → Event
  close : Handler → Event

abbrev pub retry_delay : ℕ
retry_delay = 200

abbrev pub spawn : Connection
spawn = record {
  phase = connecting;
  delay = retry_delay;
  retry = 0;
  buffer = [];
  pending_replies = [];
  closed = [];
  notified = [];
}

-- `!handler.is_closed()`
unfoldable pub is_open : List Handler → InnerMessage → Bool
unfolding Set.contains
is_open closed m = not (Set.contains m.cancel_handler closed)

-- `push_front` of each in turn.
unfoldable pub push_all : List InnerMessage → List InnerMessage → List InnerMessage
push_all [] buffer = buffer
push_all (m ∷ ms) buffer = push_all ms (m ∷ buffer)

-- The end of `keep_alive`: the messages without a reply go back to the front of the buffer.
unfoldable pub disconnect : Connection → Connection
unfolding push_all
disconnect s = record s {
  phase = connecting;
  buffer = push_all (reverse s.pending_replies) s.buffer;
  pending_replies = [];
}

-- The loop `while let Some((data, handler)) = self.buffer.pop_front()`, up to the write.
unfoldable pub pop_front : List InnerMessage → Connection → Connection
unfolding is_open
pop_front [] s = record s { phase = selecting }
pop_front (m ∷ buffer) s =
    if is_open s.closed m
    then record s { phase = writing m; buffer = buffer }
    else record s { buffer = buffer }

-- The branch of the select that reads from the peer.
unfoldable pub reply : List InnerMessage → Option Bytes → Connection → Connection
unfolding disconnect
reply [] r s = disconnect s
reply (m ∷ pending) (some bytes) s = record s {
  phase = sending;
  pending_replies = pending;
  notified = s.notified ++ (m, bytes) ∷ [];
}
reply (m ∷ pending) none s = disconnect s

-- One event in each phase; `none` if the task does not wait for it there.
unfoldable pub step_in : Phase → Event → Connection → Option Connection
unfolding is_open disconnect pop_front reply Set.insert
step_in p (close h) s = some (record s { closed = Set.insert h s.closed })
step_in connecting connected s =
    some (record s { phase = sending; delay = retry_delay; retry = 0; pending_replies = [] })
step_in connecting failed_to_connect s = some (record s { phase = waiting })
step_in waiting timer s =
    some
      (record s { phase = connecting; delay = min (2 * s.delay) 60_000; retry = u16_add s.retry 1 })
step_in waiting (message m) s =
    some (record s { buffer = filter (is_open s.closed) (s.buffer ++ m ∷ []) })
step_in sending pop s = some (pop_front s.buffer s)
step_in (writing m) (written true) s =
    some (record s { phase = sending; pending_replies = s.pending_replies ++ m ∷ [] })
step_in (writing m) (written false) s = some (disconnect (record s { buffer = m ∷ s.buffer }))
step_in selecting (message m) s = some (record s { phase = sending; buffer = s.buffer ++ m ∷ [] })
step_in selecting (response r) s = some (reply s.pending_replies r s)
step_in p e s = none

unfoldable pub step : Event → Connection → Option Connection
unfolding step_in
step e s = step_in s.phase e s

unfoldable pub run : List Event → Connection → Option Connection
unfolding step
run [] s = some s
run (e ∷ es) s = elim (step e s) [ none ↦ none | some t ↦ run es t ]
