-- ===== src/Tls.antt =====
-- The class `TlsTransport` of src/impl/tlstransport.cpp: what its three versions share, which are for
-- GnuTLS, Mbed TLS and OpenSSL. The libraries are parameters. Messages are byte strings; the queue of
-- the incoming ones has room for each, so that a push never waits.
pub mod Callbacks
pub mod Receive
pub mod Stream
pub mod Empty
pub mod OpenSsl
use websocket_client.Common.{
  ℕ, zero, suc, ◌+◌, ◌-◌, min, Bool, true, false, not, ◌&&◌, ◌||◌, Option, none, some, List, [],
  ◌∷◌, ◌++◌, if◌then◌else◌, ltb, leb, length, take, drop,
}
use websocket_client.Transport.{State, state_eq, LowerReply, accepted, thrown}

pub data Event : Type 0 where
  received : List ℕ → Event
  received_end : Event
  state_changed : State → Event
  sent : List ℕ → Event
  receive_enqueued : Event

-- `incoming_message` with its position, and `pending` counts the tasks of `doRecv` that wait.
pub record Tls : Type 0 where
  pub state : State
  pub registered : Bool
  pub incoming_queue : List (List ℕ)
  pub stopping : Bool
  pub incoming_message : Option (List ℕ)
  pub position : ℕ
  pub outgoing_result : Bool
  pub pending : ℕ
  pub events : List Event

-- A call that returns a Boolean, or throws.
pub data Outcome : Type 0 where
  done : Bool → Tls → Outcome
  threw : Tls → Outcome

abbrev pub emit : Event → Tls → Tls
emit e w = record w { events = w.events ++ (e ∷ []) }

unfoldable pub change_state : State → Tls → Tls
change_state s w = if state_eq w.state s then w else emit (state_changed s) (record w { state = s })

-- `mIncomingQueue.running()`
abbrev pub running : Tls → Bool
running w = elim w.incoming_queue [ [] ↦ not w.stopping | _ ↦ true ]

unfoldable pub enqueue_recv : Tls → Tls
enqueue_recv w =
    if ltb 0 w.pending then w else emit receive_enqueued (record w { pending = w.pending + 1 })

unfoldable pub stop : Tls → Tls
stop w = enqueue_recv (record w { registered = false; stopping = true })

-- `incoming`, with `none` for the null pointer.
unfoldable pub incoming : Option (List ℕ) → Tls → Tls
incoming none w = enqueue_recv (record w { stopping = true })
incoming (some message) w =
    enqueue_recv
      (if w.stopping then w else record w { incoming_queue = w.incoming_queue ++ (message ∷ []) })

-- `Transport::outgoing`, with the answer of the lower transport.
unfoldable pub outgoing : LowerReply → List ℕ → Tls → Outcome
outgoing (accepted all) message w = done all (emit (sent message) w)
outgoing thrown message w = threw w

-- The end of `doRecv`.
unfoldable pub finish : Tls → Tls
finish w =
    if state_eq w.state State.connected
    then emit received_end (change_state State.disconnected w)
    else change_state State.failed w
