-- ===== src/Client.antt =====
-- The class `WebSocket` of src/impl/websocketimpl.cpp, which builds the transports one on another
-- and tears them down, with the `Channel` of src/impl/channel.cpp that it is. A transport is known
-- by a number. What the transports do when they are started or stopped is a parameter.
pub mod Steps
pub mod Life
pub mod Reach
pub mod Proxy
pub mod Flush
pub mod Open
use websocket_client.Common.{
  ℕ, zero, suc, ◌+◌, ◌≤◌, Bool, true, false, not, ◌||◌, ◌&&◌, Option, none, some, List, [], ◌∷◌,
  ◌++◌, if◌then◌else◌, ◌==◌, ltb, leb, length,
}
use websocket_client.Message.{MessageType, Message, Variant, to_variant, message_size_func}
use websocket_client.Transport.{State}

-- `WebSocket::State` of include/websocket.hpp.
pub data ReadyState : Type 0 where
  connecting open_state closing closed : ReadyState

abbrev pub ready_eq : ReadyState → ReadyState → Bool
ready_eq connecting s = elim s [ connecting ↦ true | _ ↦ false ]
ready_eq open_state s = elim s [ open_state ↦ true | _ ↦ false ]
ready_eq closing s = elim s [ closing ↦ true | _ ↦ false ]
ready_eq closed s = elim s [ closed ↦ true | _ ↦ false ]

-- Whether `start` of a transport throws, and whether `stop` of a WebSocket transport reports at once
-- that it is disconnected.
pub record Env : Type 0 where
  pub start_throws : ℕ → Bool
  pub stop_disconnects : ℕ → Bool

-- `opening` stands for a call of `open` past its checks; `torn_down` has the transports that are
-- handed to the tear-down thread.
pub data Event : Type 0 where
  opening opened closed_called error_called available_called : Event
  delivered : Variant → Event
  started stopped : ℕ → Event
  torn_down : List (Option ℕ) → Event

pub record Client : Type 0 where
  pub state : ReadyState
  pub is_secure : Bool
  pub has_proxy : Bool
  pub tcp_transport : Option ℕ
  pub proxy_transport : Option ℕ
  pub tls_transport : Option ℕ
  pub ws_transport : Option ℕ
  pub next_transport : ℕ
  pub recv_queue : List Message
  pub open_triggered : Bool
  pub has_message_callback : Bool
  pub max_message_size : ℕ
  pub events : List Event

pub data Outcome : Type 0 where
  done threw : Client → Outcome

abbrev pub emit : Event → Client → Client
emit e w = record w { events = w.events ++ (e ∷ []) }

-- `flushPendingMessages`: the queue is emptied from its front while there is a callback.
unfoldable pub flush_from : List Message → Client → Client
flush_from [] w = w
flush_from (m ∷ queue) w =
    flush_from queue (emit (delivered (to_variant m)) (record w { recv_queue = queue }))

unfoldable pub flush_pending_messages : Client → Client
flush_pending_messages w =
    if w.open_triggered && w.has_message_callback then flush_from w.recv_queue w else w

unfoldable pub trigger_open : Client → Client
trigger_open w = flush_pending_messages (emit opened (record w { open_triggered = true }))

unfoldable pub trigger_available : ℕ → Client → Client
trigger_available count w =
    flush_pending_messages (if count == 1 then emit available_called w else w)

-- The proxy transport is not among those that are reset.
unfoldable pub close_transports : Client → Client
close_transports w =
    if ready_eq w.state closed
    then w
    else emit closed_called (
        emit (torn_down (w.ws_transport ∷ w.tls_transport ∷ w.tcp_transport ∷ [])) (record w {
          state = closed;
          ws_transport = none;
          tls_transport = none;
          tcp_transport = none;
        }))

-- What `remoteClose` does after its `close`.
unfoldable pub finish_close : Client → Client
finish_close w = if ready_eq w.state closed then w else close_transports w

-- From the state `closing`, `remoteClose` is `finish_close`, since its `close` does nothing then.
unfoldable pub close : Env → Client → Client
close env w =
    let w1 = record w { state = closing } in
    let stopping : Client = elim w.ws_transport [
      | none ↦ finish_close w1
      | some id ↦
          if env.stop_disconnects id
          then finish_close (emit (stopped id) w1)
          else emit (stopped id) w1
    ] in
    if ready_eq w.state connecting || ready_eq w.state open_state then stopping else w

unfoldable pub remote_close : Env → Client → Client
remote_close env w = finish_close (close env w)

-- The four members that hold a transport.
pub data Member : Type 0 where
  tcp proxy tls ws : Member

abbrev pub load : Member → Client → Option ℕ
load tcp w = w.tcp_transport
load proxy w = w.proxy_transport
load tls w = w.tls_transport
load ws w = w.ws_transport

abbrev pub store : Member → Option ℕ → Client → Client
store tcp t w = record w { tcp_transport = t }
store proxy t w = record w { proxy_transport = t }
store tls t w = record w { tls_transport = t }
store ws t w = record w { ws_transport = t }

-- `emplaceTransport` with a new transport.
unfoldable pub emplace_transport : Env → Member → Client → Outcome
emplace_transport env member w =
    let id = w.next_transport in
    let w1 = emit (started id) (store member (some id) (record w { next_transport = id + 1 })) in
    if env.start_throws id
    then threw (emit (stopped id) (store member none w1))
    else if ready_eq w1.state closed
    then done (emit (stopped id) (store member none w1))
    else done w1

-- The `catch` of the four functions that start a transport.
unfoldable pub guarded : Env → Outcome → Outcome
guarded env (done w) = done w
guarded env (threw w) = threw (remote_close env w)

unfoldable pub set_tcp_transport : Env → Client → Outcome
set_tcp_transport env w =
    guarded env (elim w.tcp_transport [ some id ↦ threw w | none ↦ emplace_transport env tcp w ])

-- The `init...Transport` functions: a transport that is there already is kept, and a lower one
-- must be there.
unfoldable pub init_on : Env → Member → Member → Client → Outcome
init_on env member lower w = elim (load member w) [
  | some id ↦ done w
  | none ↦
      guarded env
        (elim (load lower w) [ none ↦ threw w | some id ↦ emplace_transport env member w ])
]

abbrev pub init_proxy_transport : Env → Client → Outcome
init_proxy_transport env w = init_on env proxy tcp w

abbrev pub init_tls_transport : Env → Client → Outcome
init_tls_transport env w = init_on env tls (if w.has_proxy then proxy else tcp) w

abbrev pub init_ws_transport : Env → Client → Outcome
init_ws_transport env w =
    init_on env ws (if w.is_secure then tls else if w.has_proxy then proxy else tcp) w

-- What a callback throws is only logged by the transport that called it.
abbrev pub caught : Outcome → Client
caught (done w) = w
caught (threw w) = w

abbrev pub fail_with_error : Env → Client → Client
fail_with_error env w = remote_close env (emit error_called w)

abbrev pub if_connecting : Env → Client → Client
if_connecting env w = if ready_eq w.state connecting then remote_close env w else w

-- The callbacks for the state of each transport.
unfoldable pub on_tcp_state : Env → State → Client → Client
on_tcp_state env State.connected w = caught (
    if w.has_proxy
    then init_proxy_transport env w
    else if w.is_secure
    then init_tls_transport env w
    else init_ws_transport env w)
on_tcp_state env State.failed w = fail_with_error env w
on_tcp_state env State.disconnected w = if_connecting env w
on_tcp_state env state w = w

unfoldable pub on_proxy_state : Env → State → Client → Client
on_proxy_state env State.connected w =
    caught (if w.is_secure then init_tls_transport env w else init_ws_transport env w)
on_proxy_state env State.failed w = fail_with_error env w
on_proxy_state env State.disconnected w = if_connecting env w
on_proxy_state env state w = w

unfoldable pub on_tls_state : Env → State → Client → Client
on_tls_state env State.connected w = caught (init_ws_transport env w)
on_tls_state env State.failed w = fail_with_error env w
on_tls_state env State.disconnected w = if_connecting env w
on_tls_state env state w = w

unfoldable pub on_ws_state : Env → State → Client → Client
on_ws_state env State.connected w =
    if ready_eq w.state connecting then trigger_open (record w { state = open_state }) else w
on_ws_state env State.failed w = fail_with_error env w
on_ws_state env State.disconnected w = remote_close env w
on_ws_state env state w = w

-- `open`, from where the URL has been read.
unfoldable pub open_url : Env → Bool → Client → Outcome
open_url env secure w =
    let w1 = emit opening (record w { is_secure = secure; state = connecting }) in
    if ready_eq w.state closed then set_tcp_transport env w1 else threw w

-- The timer that `scheduleConnectionTimeout` sets.
unfoldable pub connection_timeout : Env → Client → Client
connection_timeout env w = if ready_eq w.state connecting then fail_with_error env w else w

-- `incoming` with a message for which the queue has room, and with the null pointer.
unfoldable pub incoming : Env → Option Message → Client → Client
incoming env message w = elim message [
  | none ↦ remote_close env w
  | some m ↦
      let queue = w.recv_queue ++ (m ∷ []) in
      let pushed = trigger_available (length queue) (record w { recv_queue = queue }) in
      elim m.type [ MessageType.string ↦ pushed | MessageType.binary ↦ pushed | _ ↦ w ]
]

-- `receive`
unfoldable pub receive : Client → Option Variant × Client
receive w = elim w.recv_queue [
  | [] ↦ (none, w)
  | m ∷ queue ↦ (some (to_variant m), record w { recv_queue = queue })
]

-- `outgoing`: the transport that the message is handed to, or `none` where it throws.
unfoldable pub outgoing : Message → Client → Option ℕ
outgoing m w =
    if not (ready_eq w.state open_state)
    then none
    else if ltb w.max_message_size (length m.content)
    then none
    else w.ws_transport
