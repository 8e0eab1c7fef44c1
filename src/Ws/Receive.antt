-- ===== src/Ws/Receive.antt =====
-- `WsTransport::recvFrame` in src/impl/wstransport.cpp.
use websocket_client.Common.{
  ℕ, Bool, true, [], ◌∷◌, ◌++◌, if◌then◌else◌, ltb, ◌==◌, ◌||◌, length, take, min,
}
use websocket_client.Message.{MessageType}
use websocket_client.Transport.{State}
use websocket_client.Ws.Frame.{
  Frame, continuation, text_frame, binary_frame, close_frame, ping_frame, pong_frame,
}
use websocket_client.Ws.Core.{Env, Ws, Result, ok, change_state, recv}
use websocket_client.Ws.Send.{send_frame, close, control}

abbrev pub message_type : ℕ → MessageType
message_type opcode = if opcode == text_frame then MessageType.string else MessageType.binary

-- An unfinished message is handed over before a new one begins.
unfoldable pub flush_partial : Ws → Ws
flush_partial w = elim w.partial [
  | [] ↦ w
  | b ∷ bytes ↦ record (recv (message_type w.partial_opcode) (b ∷ bytes) w) { partial = [] }
]

-- A text or binary frame, cut to the size limit.
unfoldable pub recv_data : Frame → Ws → Ws
recv_data f w =
    let payload = take (min (length f.payload) w.max_message_size) f.payload in
    let w1 = record (flush_partial w) { partial_opcode = f.opcode } in
    if f.fin
    then recv (message_type f.opcode) payload w1
    else record w1 { partial = w1.partial ++ payload }

-- A continuation, the message so far cut to the size limit.
unfoldable pub recv_continuation : Frame → Ws → Ws
recv_continuation f w =
    let whole = w.partial ++ f.payload in
    let kept =
      if ltb w.max_message_size (length whole) then take w.max_message_size whole else whole in
    if f.fin
    then record (recv (message_type w.partial_opcode) kept w) { partial = [] }
    else record w { partial = kept }

unfoldable pub recv_frame : Env → Frame → Ws → Result Bool
recv_frame env f w =
    if f.opcode == text_frame || f.opcode == binary_frame
    then ok true (recv_data f w)
    else if f.opcode == continuation
    then ok true (recv_continuation f w)
    else if f.opcode == ping_frame
    then send_frame env (control pong_frame f.payload w.is_client f.at) w
    else if f.opcode == pong_frame
    then ok true (record w { outstanding_pings = 0 })
    else if f.opcode == close_frame
    then ok true (change_state State.disconnected (close env w))
    else ok true (close env w)
