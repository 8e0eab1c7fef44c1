-- ===== src/Tcp.antt =====
-- The class `TcpTransport` of src/impl/tcptransport.cpp, once it has a socket: sending through the
-- queue, and the events of the poll service. The socket is the operating system's: what it answers
-- to each call is a parameter.
pub mod Flow
pub mod Calls
pub mod Amount
pub mod Dial
use websocket_client.Common.{
  ℕ, zero, suc, ◌+◌, ◌-◌, Bool, true, false, not, Option, none, some, List, [], ◌∷◌, ◌++◌,
  if◌then◌else◌, ◌==◌, length, take, drop,
}
use websocket_client.Transport.{State, state_eq}

-- A call of `::send` with some bytes: it takes n + 1 of them, or all if there are fewer; or it would
-- block; or it fails.
pub data SendReply : Type 0 where
  wrote : ℕ → SendReply
  would_block failed : SendReply

pub data Direction : Type 0 where
  both in_only out_only : Direction

pub data Event : Type 0 where
  amount : ℕ → Event
  poll : Direction → Event
  poll_removed socket_closed : Event
  state_changed : State → Event
  received : List ℕ → Event
  received_end : Event

-- `wire` is all that the socket took, and `calls` counts the calls of `::send`. The queue has no
-- limit, so that a push never waits.
pub record Tcp : Type 0 where
  pub state : State
  pub has_socket : Bool
  pub queue : List (List ℕ)
  pub buffered_amount : ℕ
  pub calls : ℕ
  pub wire : List ℕ
  pub events : List Event

-- What a call leaves: it returned a Boolean, or it threw.
pub data Outcome : Type 0 where
  done : Bool → Tcp → Outcome
  threw : Tcp → Outcome

-- `trySendMessage`: all was sent, or the message was replaced by its rest, or it threw.
pub data Sent : Type 0 where
  whole : Tcp → Sent
  rest : List ℕ → Tcp → Sent
  broke : Tcp → Sent

abbrev pub emit : Event → Tcp → Tcp
emit e w = record w { events = w.events ++ (e ∷ []) }

unfoldable pub change_state : State → Tcp → Tcp
change_state s w = if state_eq w.state s then w else emit (state_changed s) (record w { state = s })

abbrev pub set_poll : Direction → Tcp → Tcp
set_poll direction w = emit (poll direction) w

-- The delta is what was added less what was removed; the sum stops at 0.
unfoldable pub update_buffered_amount : ℕ → ℕ → Tcp → Tcp
update_buffered_amount removed added w =
    let sum = w.buffered_amount + added - removed in
    if removed == added then w else emit (amount sum) (record w { buffered_amount = sum })

-- Each call takes a byte at least, so the size is fuel enough.
unfoldable pub try_send_loop : (ℕ → SendReply) → ℕ → List ℕ → Tcp → Sent
try_send_loop socket fuel [] w = whole w
try_send_loop socket zero (b ∷ bytes) w = rest (b ∷ bytes) w
try_send_loop socket (suc fuel) (b ∷ bytes) w =
    let called = record w { calls = w.calls + 1 } in
    elim (socket w.calls) [
      | wrote n ↦
          try_send_loop socket fuel (drop n bytes)
            (record called { wire = w.wire ++ (b ∷ take n bytes) })
      | would_block ↦ rest (b ∷ bytes) called
      | failed ↦ broke called
    ]

unfoldable pub try_send_message : (ℕ → SendReply) → List ℕ → Tcp → Sent
try_send_message socket message w = try_send_loop socket (length message) message w

-- The queue is gone through from its front; `queue` is what is left of it.
unfoldable pub try_send_queue_from : (ℕ → SendReply) → List (List ℕ) → Tcp → Outcome
try_send_queue_from socket [] w = done true w
try_send_queue_from socket (message ∷ queue) w = elim (try_send_message socket message w) [
  | whole w1 ↦
      try_send_queue_from socket queue
        (update_buffered_amount (length message) 0 (record w1 { queue = queue }))
  | rest left w1 ↦
      done false
        (update_buffered_amount (length message) (length left) (record w1 { queue = left ∷ queue }))
  | broke w1 ↦ threw w1
]

unfoldable pub try_send_queue : (ℕ → SendReply) → Tcp → Outcome
try_send_queue socket w = try_send_queue_from socket w.queue w

unfoldable pub enqueue : List ℕ → Tcp → Tcp
enqueue message w =
    set_poll both
      (update_buffered_amount 0 (length message) (record w { queue = w.queue ++ (message ∷ []) }))

unfoldable pub outgoing : (ℕ → SendReply) → List ℕ → Tcp → Outcome
outgoing socket message w = elim (try_send_queue socket w) [
  | threw w1 ↦ threw w1
  | done false w1 ↦ done false (enqueue message w1)
  | done true w1 ↦ elim (try_send_message socket message w1) [
    | whole w2 ↦ done true w2
    | rest left w2 ↦ done false (enqueue left w2)
    | broke w2 ↦ threw w2
  ]
]

-- A null or empty message only flushes the queue.
unfoldable pub send : (ℕ → SendReply) → Option (List ℕ) → Tcp → Outcome
send socket message w = if not (state_eq w.state State.connected) then threw w else elim message [
  | none ↦ try_send_queue socket w
  | some [] ↦ try_send_queue socket w
  | some (b ∷ bytes) ↦ outgoing socket (b ∷ bytes) w
]

-- `close`, which the destructor calls.
unfoldable pub close : Tcp → Tcp
close w =
    let w1 =
      if w.has_socket
      then emit socket_closed (emit poll_removed (record w { has_socket = false }))
      else w in
    change_state State.disconnected w1

-- `incoming`: only a message that is not null is passed on.
abbrev pub incoming : List ℕ → Tcp → Tcp
incoming message w = emit (received message) w

-- How the calls of `::recv` end after the chunks they gave.
pub data Ending : Type 0 where
  clean_close no_more connection_lost : Ending

-- The poll service's events; `in_event` has what `::recv` gives until it gives no more.
pub data PollEvent : Type 0 where
  error timeout out_event other : PollEvent
  in_event : List (List ℕ) → Ending → PollEvent

abbrev pub receive_all : List (List ℕ) → Tcp → Tcp
receive_all [] w = w
receive_all (chunk ∷ chunks) w = receive_all chunks (incoming chunk w)

unfoldable pub disconnect : Tcp → Tcp
disconnect w = emit received_end (change_state State.disconnected (emit poll_removed w))

unfoldable pub process : (ℕ → SendReply) → PollEvent → Tcp → Tcp
process socket error w = disconnect w
process socket timeout w = set_poll in_only (incoming [] w)
process socket out_event w = elim (try_send_queue socket w) [
  | done true w1 ↦ set_poll in_only w1
  | done false w1 ↦ w1
  | threw w1 ↦ disconnect w1
]
process socket other w = w
process socket (in_event chunks ending) w =
    let w1 = receive_all chunks w in elim ending [ no_more ↦ w1 | _ ↦ disconnect w1 ]
