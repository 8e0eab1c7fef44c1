-- ===== src/Ws/Incoming.antt =====
-- `WsTransport::incoming` in src/impl/wstransport.cpp.
use websocket_client.Common.{
  ℕ, zero, suc, ◌-◌, Bool, true, false, ◌||◌, Option, none, some, List, [], ◌∷◌, ◌++◌,
  if◌then◌else◌, ltb, ◌==◌, length, drop, min,
}
use websocket_client.Transport.{State, state_eq}
use websocket_client.Handshake.{
  Exception, request_error, Reply, done, parse_http_request, parse_http_response,
}
use websocket_client.Ws.Frame.{incomplete, parsed, parse_frame, ping_frame}
use websocket_client.Ws.Core.{Env, Ws, Result, ok, threw, change_state, recv_end}
use websocket_client.Ws.Send.{
  send_frame, control, add_outstanding_ping, send_http_response, send_http_error,
}
use websocket_client.Ws.Receive.{recv_frame}

-- After a frame was handled: a frame longer than the buffer leaves bytes to ignore, and ends the
-- loop; otherwise its bytes are erased.
unfoldable pub after_frame : ℕ → Ws → Ws
after_frame consumed w =
    if ltb (length w.buffer) consumed
    then record w { ignore_length = consumed - length w.buffer; buffer = [] }
    else record w { buffer = drop consumed w.buffer }

-- `while (size_t len = parseFrame(...))`. Each round erases a byte at least, or it is the last, so
-- that one more than the size of the buffer is fuel enough.
unfoldable pub frame_loop : ℕ → Env → Ws → Result Bool
frame_loop zero env w = ok true w
frame_loop (suc fuel) env w = elim (parse_frame w.max_message_size w.buffer) [
  | incomplete ↦ ok true w
  | parsed f consumed buffer ↦ elim (consumed == 0) [
    | true ↦ ok true (record w { buffer = buffer })
    | false ↦ elim (recv_frame env f (record w { buffer = buffer })) [
      | threw e w1 ↦ threw e w1
      | ok all w1 ↦ elim (ltb (length w1.buffer) consumed) [
        | true ↦ ok true (after_frame consumed w1)
        | false ↦ frame_loop fuel env (after_frame consumed w1)
      ]
    ]
  ]
]

-- The rest of a frame that was too large is dropped first.
unfoldable pub drop_ignored : Ws → Ws
drop_ignored w =
    let len = min w.ignore_length (length w.buffer) in
    if ltb 0 w.ignore_length
    then record w { buffer = drop len w.buffer; ignore_length = w.ignore_length - len }
    else w

unfoldable pub drain : Env → Ws → Result Bool
drain env w =
    let w1 = drop_ignored w in
    if w1.ignore_length == 0 then frame_loop (suc (length w1.buffer)) env w1 else ok true w1

-- TCP is idle: a ping with four zero bytes.
unfoldable pub idle_ping : Env → Ws → Result Bool
idle_ping env w =
    elim (send_frame env (control ping_frame (0 ∷ 0 ∷ 0 ∷ 0 ∷ []) w.is_client none) w) [
      | threw e w1 ↦ threw e w1
      | ok all w1 ↦ ok true (add_outstanding_ping w1)
    ]

-- The connection is open, and the first `len` bytes of the buffer were the handshake.
unfoldable pub open_connection : ℕ → Ws → Ws
open_connection len w =
    let w1 = change_state State.connected w in record w1 { buffer = drop len w1.buffer }

unfoldable pub client_handshake : Env → Ws → Result Bool
client_handshake env w = elim (parse_http_response env.sha1 w.buffer w.handshake) [
  | Reply.threw e ↦ threw e w
  | done len ↦ if len == 0 then ok true w else ok true (open_connection len w)
]

unfoldable pub server_handshake : Env → Ws → Result Bool
server_handshake env w =
    let (handshake, reply) = parse_http_request w.buffer w.handshake in
    let w1 = record w { handshake = handshake } in
    elim reply [
      | Reply.threw e ↦ threw e w1
      | done len ↦ elim (len == 0) [
        | true ↦ ok true w1
        | false ↦ elim (send_http_response env w1) [
          | threw e w2 ↦ threw e w2
          | ok all w2 ↦ ok true (open_connection len w2)
        ]
      ]
    ]

-- The body of the `try` for a message.
unfoldable pub handshake_step : Env → Ws → Result Bool
handshake_step env w =
    if state_eq w.state State.connecting
    then (if w.is_client then client_handshake env w else server_handshake env w)
    else ok true w

unfoldable pub connected_step : Env → List ℕ → Ws → Result Bool
connected_step env message w =
    if state_eq w.state State.connected
    then (if length message == 0 then idle_ping env w else drain env w)
    else ok true w

unfoldable pub process : Env → List ℕ → Ws → Result Bool
process env message w = elim (handshake_step env (record w { buffer = w.buffer ++ message })) [
  | threw e w1 ↦ threw e w1
  | ok all w1 ↦ connected_step env message w1
]

-- A request error is answered; what the answer throws is only logged.
unfoldable pub report : Env → Exception → Ws → Ws
report env e w = elim e [
  | request_error code ↦ elim (send_http_error env code w) [ ok all w1 ↦ w1 | threw e1 w1 ↦ w1 ]
  | _ ↦ w
]

unfoldable pub fail : Ws → Ws
fail w =
    if state_eq w.state State.connected
    then recv_end (change_state State.disconnected w)
    else change_state State.failed w

-- `none` is the null pointer that tells of the end of the lower connection.
unfoldable pub incoming : Env → Option (List ℕ) → Ws → Ws
incoming env message w =
    let handled : Ws = elim message [
      | none ↦ fail w
      | some bytes ↦ elim (process env bytes w) [
        | ok all w1 ↦ w1
        | threw e w1 ↦ fail (report env e w1)
      ]
    ] in
    if state_eq w.state State.connecting || state_eq w.state State.connected then handled else w
