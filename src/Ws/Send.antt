-- ===== src/Ws/Send.antt =====
-- The sending half of `WsTransport` in src/impl/wstransport.cpp.
use websocket_client.Common.{
  ℕ, ◌+◌, Bool, true, false, not, ◌&&◌, Option, none, some, List, [], ◌++◌, if◌then◌else◌, ltb,
  length, take, drop,
}
use websocket_client.Message.{MessageType, Message}
use websocket_client.Transport.{State, state_eq}
use websocket_client.Handshake.{generate_http_request, generate_http_response, generate_http_error}
use websocket_client.Ws.Frame.{Frame, masked, frame_bytes, text_frame, binary_frame, close_frame}
use websocket_client.Ws.Core.{Env, Ws, Result, ok, threw, close_timer, emit, change_state, outgoing}

-- The payload is masked in place: where it points into the buffer, the buffer changes.
unfoldable pub write_back : Option ℕ → List ℕ → List ℕ → List ℕ
write_back none payload buffer = buffer
write_back (some offset) payload buffer =
    take offset buffer ++ (payload ++ drop (offset + length payload) buffer)

unfoldable pub send_frame : Env → Frame → Ws → Result Bool
send_frame env f w =
    let key = env.random_key w.sends in
    outgoing env (frame_bytes key f)
      (if f.mask then record w { buffer = write_back f.at (masked key f) w.buffer } else w)

-- The frame of a message: text for a string, binary for everything else.
abbrev pub data_opcode : MessageType → ℕ
data_opcode MessageType.string = text_frame
data_opcode type = binary_frame

abbrev pub message_frame : Bool → Message → Frame
message_frame mask m = record {
  opcode = data_opcode m.type;
  payload = m.content;
  fin = true;
  mask = mask;
  at = none;
}

-- A message goes out as one final frame; `none` is a null pointer.
unfoldable pub send : Env → Option Message → Ws → Result Bool
send env message w =
    if not (state_eq w.state State.connected)
    then threw websocket_client.Handshake.std_exception w
    else elim message [
      | none ↦ ok false w
      | some m ↦ send_frame env (message_frame w.is_client m) w
    ]

abbrev pub control : ℕ → List ℕ → Bool → Option ℕ → Frame
control opcode payload mask at = record {
  opcode = opcode;
  payload = payload;
  fin = true;
  mask = mask;
  at = at;
}

-- A close frame goes out at most once; the timer then disconnects after ten seconds.
unfoldable pub close : Env → Ws → Ws
close env w =
    let w1 = record w { close_sent = true } in
    let after : Ws = elim (send_frame env (control close_frame [] w.is_client none) w1) [
      | ok all w2 ↦ emit close_timer w2
      | threw e w2 ↦ change_state State.disconnected w2
    ] in
    if not (state_eq w.state State.connected) then w else if w.close_sent then w else after

-- What the closing timer runs.
pub close_timeout : Ws → Ws
close_timeout w = change_state State.disconnected w

pub stop : Env → Ws → Ws
stop env w = close env w

pub send_http_request : Env → Ws → Result Bool
send_http_request env w =
    let (handshake, request) = generate_http_request (env.random_nonce w.sends) w.handshake in
    outgoing env request (record w { handshake = handshake })

unfoldable pub send_http_response : Env → Ws → Result Bool
send_http_response env w = outgoing env (generate_http_response env.sha1 w.handshake) w

unfoldable pub send_http_error : Env → ℕ → Ws → Result Bool
send_http_error env code w = outgoing env (generate_http_error code) w

pub start : Env → Ws → Result Bool
start env w =
    let w1 = change_state State.connecting w in
    if w.is_client then send_http_request env w1 else ok true w1

-- One more ping with no answer: more than the limit, if there is one, fails the transport.
unfoldable pub add_outstanding_ping : Ws → Ws
add_outstanding_ping w =
    let w1 = record w { outstanding_pings = w.outstanding_pings + 1 } in
    if ltb 0 w.max_outstanding_pings && ltb w.max_outstanding_pings w1.outstanding_pings
    then change_state State.failed w1
    else w1
