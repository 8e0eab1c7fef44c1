-- ===== src/HttpProxy.antt =====
-- The class `HttpProxyTransport` of src/impl/httpproxytransport.cpp: a tunnel through an HTTP proxy.
-- What the lower transport answers to each call of its `send` is a parameter.
pub mod Tunnel
use websocket_client.Common.{
  ℕ, ◌+◌, Bool, true, false, not, ◌||◌, Option, none, some, List, [], ◌∷◌, ◌++◌, if◌then◌else◌,
  ◌==◌, length, drop, codes,
}
use websocket_client.Http.Lines.{parse_http_lines}
use websocket_client.Handshake.Stream.{read_word, read_unsigned}
use websocket_client.Transport.{State, state_eq, LowerReply, accepted, thrown}

-- In the order of their happening, as far as others see them.
pub data Event : Type 0 where
  sent : List ℕ → Event
  received : List ℕ → Event
  received_end : Event
  state_changed : State → Event
  registered unregistered : Event

pub record HttpProxy : Type 0 where
  pub state : State
  pub hostname : List ℕ
  pub service : List ℕ
  pub buffer : List ℕ
  pub sends : ℕ
  pub events : List Event

pub data Outcome : Type 0 where
  done : Bool → HttpProxy → Outcome
  threw : HttpProxy → Outcome

abbrev pub emit : Event → HttpProxy → HttpProxy
emit e w = record w { events = w.events ++ (e ∷ []) }

unfoldable pub change_state : State → HttpProxy → HttpProxy
change_state s w = if state_eq w.state s then w else emit (state_changed s) (record w { state = s })

unfoldable pub outgoing : (ℕ → LowerReply) → List ℕ → HttpProxy → Outcome
outgoing lower bytes w =
    let called = record w { sends = w.sends + 1 } in
    elim (lower w.sends) [
      | accepted all ↦ done all (emit (sent bytes) called)
      | thrown ↦ threw called
    ]

abbrev pub generate_http_request : HttpProxy → List ℕ
generate_http_request w =
    codes "CONNECT "
    ++ (w.hostname
        ++ (codes ":"
            ++ (w.service ++ (codes " HTTP/1.1\r\nHost: " ++ (w.hostname ++ codes "\r\n\r\n")))))

-- The constructor; `none` is the `std::logic_error` over a transport that was accepted.
pub new_http_proxy : Bool → List ℕ → List ℕ → Option HttpProxy
new_http_proxy lower_active hostname service =
    if not lower_active
    then none
    else some (record {
      state = State.disconnected;
      hostname = hostname;
      service = service;
      buffer = [];
      sends = 0;
      events = [];
    })

pub stop : HttpProxy → HttpProxy
stop w = emit unregistered w

pub start : (ℕ → LowerReply) → HttpProxy → Outcome
start lower w =
    let w1 = change_state State.connecting (emit registered w) in
    outgoing lower (generate_http_request w1) w1

pub send : (ℕ → LowerReply) → List ℕ → HttpProxy → Outcome
send lower message w =
    if not (state_eq w.state State.connected) then threw w else outgoing lower message w

-- `none` is an exception.
unfoldable pub parse_http_response : List ℕ → Option ℕ
parse_http_response buffer =
    let (len, lines) = parse_http_lines buffer in
    if len == 0 then some 0 else elim lines [
      | [] ↦ none
      | line ∷ rest ↦ if read_unsigned (read_word line).1 == 200 then some len else none
    ]

-- What follows the response in the buffer is the first message of the tunnel.
unfoldable pub forward_rest : HttpProxy → HttpProxy
forward_rest w = elim w.buffer [
  | [] ↦ w
  | b ∷ bytes ↦ record (emit (received (b ∷ bytes)) w) { buffer = [] }
]

unfoldable pub open_tunnel : ℕ → HttpProxy → HttpProxy
open_tunnel len w =
    let w1 = change_state State.connected w in
    forward_rest (record w1 { buffer = drop len w1.buffer })

unfoldable pub fail : HttpProxy → HttpProxy
fail w =
    if state_eq w.state State.connected
    then emit received_end (change_state State.disconnected w)
    else change_state State.failed w

-- While connecting: the bytes in the buffer are parsed as a response.
abbrev pub on_response : Option ℕ → HttpProxy → HttpProxy
on_response none w = fail w
on_response (some len) w = if len == 0 then w else open_tunnel len w

abbrev pub read_response : List ℕ → HttpProxy → HttpProxy
read_response message w =
    let w1 = record w { buffer = w.buffer ++ message } in
    on_response (parse_http_response w1.buffer) w1

unfoldable pub incoming : Option (List ℕ) → HttpProxy → HttpProxy
incoming message w =
    let handled : HttpProxy = elim message [
      | none ↦ fail w
      | some bytes ↦
          if state_eq w.state State.connecting
          then read_response bytes w
          else emit (received bytes) w
    ] in
    if state_eq w.state State.connecting || state_eq w.state State.connected then handled else w
