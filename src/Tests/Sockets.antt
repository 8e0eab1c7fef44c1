-- ===== src/Tests/Sockets.antt =====
-- The theorems on `WsTransport` at concrete inputs.
use websocket_client.Common.{
  ℕ, ◌≡◌, refl, arith, Bool, true, false, some, List, [], ◌∷◌, ◌++◌, length, drop, inl, inr,
}
use websocket_client.Message.{MessageType, Message}
use websocket_client.Transport.{State, LowerReply}
use websocket_client.Handshake.{Handshake}
use websocket_client.Ws.Frame.{
  parse_frame, parse_header, parse_payload, parse_length, parse_key, take_bytes, unmask, parsed,
  frame_bytes,
}
use websocket_client.Ws.Frame.RoundTrip.Whole.{received_frame, parse_frame-frame_bytes}
use websocket_client.Ws.Frame.Stable.{ParsedFacts, parse_frame_facts}
use websocket_client.Ws.Core.{Env, Ws}
use websocket_client.Ws.Send.{close, message_frame}
use websocket_client.Ws.Incoming.{
  incoming, process, handshake_step, connected_step, drain, drop_ignored, frame_loop,
}
use websocket_client.Ws.Chunks.Loop.{Settled}
use websocket_client.Ws.Chunks.Whole.{incoming-append}
use websocket_client.Ws.Limits.{IsWithin}
use websocket_client.Ws.Limits.Whole.{incoming-IsWithin}
use websocket_client.Ws.Wire.{delivered_all, send_all, sent_bytes}
use websocket_client.Ws.Exchange.{incoming-send_all}
use websocket_client.Ws.Closing.{close_twice}

abbrev key : List ℕ
key = 1 ∷ 2 ∷ 3 ∷ 4 ∷ []

abbrev env : Env
env = record {
  sha1 = λ bytes. bytes;
  random_key = λ n. key;
  random_nonce = λ n. 5 ∷ 6 ∷ [];
  lower_send = λ n. LowerReply.accepted true;
}

abbrev no_handshake : Handshake
no_handshake = record { host = []; path = []; protocols = []; key = [] }

abbrev open_socket : Bool → Ws
open_socket is_client = record {
  state = State.connected;
  is_client = is_client;
  max_message_size = 4;
  max_outstanding_pings = 0;
  handshake = no_handshake;
  buffer = [];
  partial = [];
  partial_opcode = 0;
  ignore_length = 0;
  outstanding_pings = 0;
  close_sent = false;
  sends = 0;
  events = [];
}

abbrev hello : Message
hello = record { type = MessageType.string; content = 7 ∷ 8 ∷ 9 ∷ [] }

abbrev bytes_message : Message
bytes_message = record { type = MessageType.binary; content = [] }

parse_frame-frame_bytes_example :
    parse_frame 4 (frame_bytes key (message_frame true hello) ++ (42 ∷ []))
    ≡ received_frame key (42 ∷ []) (message_frame true hello) (omega arith) refl (omega arith)
parse_frame-frame_bytes_example =
    parse_frame-frame_bytes key (42 ∷ []) (message_frame true hello) (omega arith) refl
      (omega arith) 4 (omega arith)

-- An unmasked text frame of two bytes, with a third byte behind it.
abbrev small_frame : List ℕ
small_frame = 0x81 ∷ 2 ∷ 7 ∷ 8 ∷ 9 ∷ []

small_frame_found :
    parse_frame 4 small_frame
    ≡ parsed
        (record { opcode = 1; payload = 7 ∷ 8 ∷ []; fin = true; mask = false; at = some 2 })
        4
        small_frame
unfolding parse_frame parse_header parse_payload parse_length parse_key take_bytes unmask
small_frame_found = refl

parse_frame_facts_example :
    ParsedFacts 4 small_frame
      (record { opcode = 1; payload = 7 ∷ 8 ∷ []; fin = true; mask = false; at = some 2 })
      4
      small_frame
parse_frame_facts_example =
    parse_frame_facts 4 small_frame
      (record { opcode = 1; payload = 7 ∷ 8 ∷ []; fin = true; mask = false; at = some 2 }) 4
      small_frame small_frame_found

still_open : (incoming env (some (0x81 ∷ [])) (open_socket true)).state ≡ State.connected
unfolding incoming process handshake_step connected_step drain drop_ignored frame_loop parse_frame
    parse_header
still_open = refl

settled : Settled (incoming env (some (0x81 ∷ [])) (open_socket true))
unfolding incoming process handshake_step connected_step drain drop_ignored frame_loop parse_frame
    parse_header
settled = refl

incoming-append_example :
    incoming env (some ((0x81 ∷ []) ++ (2 ∷ 7 ∷ 8 ∷ []))) (open_socket true)
    ≡ incoming env (some (2 ∷ 7 ∷ 8 ∷ [])) (incoming env (some (0x81 ∷ [])) (open_socket true))
incoming-append_example =
    incoming-append env (open_socket true) (0x81 ∷ []) (2 ∷ 7 ∷ 8 ∷ []) refl (λ e. cc) (λ e. cc)
      still_open settled

open_socket-IsWithin : IsWithin 4 (open_socket true)
open_socket-IsWithin = record { configured = refl; unfinished = omega arith; delivered = tt }

incoming-IsWithin_example : IsWithin 4 (incoming env (some small_frame) (open_socket true))
incoming-IsWithin_example =
    incoming-IsWithin 4 env (some small_frame) (open_socket true) open_socket-IsWithin

incoming-send_all_example :
    incoming env
      (some (
        drop
          (length (sent_bytes (open_socket true).events))
          (sent_bytes (send_all env (hello ∷ bytes_message ∷ []) (open_socket true)).events)))
      (open_socket false)
    ≡ delivered_all (hello ∷ bytes_message ∷ []) (open_socket false)
incoming-send_all_example =
    incoming-send_all env (λ n. refl) (λ n. refl) env (hello ∷ bytes_message ∷ [])
      (open_socket true) (open_socket false) refl refl refl refl refl
      ((inl refl, omega arith, omega arith), ((inr refl, omega arith, omega arith), tt)) (λ e. cc)

close_twice_example : close env (close env (open_socket true)) ≡ close env (open_socket true)
close_twice_example = close_twice env env (open_socket true)
