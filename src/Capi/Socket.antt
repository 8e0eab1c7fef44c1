-- ===== src/Capi/Socket.antt =====
-- The C interface of src/capi.cpp on the `WebSocket` of src/websocket.cpp and src/impl/websocketimpl.cpp:
-- the interface for objects is filled by the client.
pub mod Create
pub mod Emptied
use websocket_client.Common.{
  ℕ, ◌+◌, ◌-◌, ◌≡◌, ◌≢◌, ◌⊎◌, inl, inr, refl, ap, sym, ◌∙◌, Bool, true, false, Option, none, some,
  List, [], ◌∷◌, ◌++◌, if◌then◌else◌, Bool-cases,
}
use websocket_client.Common.Maps.{insert}
use websocket_client.Message.{
  Message, MessageType, Variant, make_message, to_variant, message_size_func,
}
use websocket_client.Config.{Configuration, ProxyServer, default_configuration, proxy_server}
use websocket_client.Client.{
  ReadyState, ready_eq, connecting, closed, open_state, Client, Env, Outcome, done, threw, close,
  remote_close, emit, flush_pending_messages, outgoing, receive, opening, started, open_url,
  set_tcp_transport, emplace_transport, guarded,
}
use websocket_client.Client.Open.{
  Opening, logic_error, CertificateSource, no_certificate, created, make_client, certificate_source,
  certificate_files, accepts_proxy, is_some, read_url, address_of, open_websocket,
}
use websocket_client.Handshake.{Handshake}
use websocket_client.Client.Open.Whole.{IsReading, open_websocket-Opens}
use websocket_client.Capi.Int.{ℤ, pos, err_invalid, err_failure}
use websocket_client.Capi.Calls.{Makers, wsc_create_web_socket, open_made}
use websocket_client.Capi.{Kind, Callback, Opened, Methods, Table, after_open, emplace_web_socket}

-- A `WebSocket` with its configuration, its handshake and the two amounts of its channel. `moved_out`
-- is what the counter of its queue still has of messages that `peek` emptied: each one counts what
-- its message held when it came, and `pop` takes off what is left of it.
pub record Socket : Type 0 where
  pub client : Client
  pub config : Configuration
  pub handshake : Option Handshake
  pub buffered_amount : ℕ
  pub low_threshold : ℕ
  pub moved_out : ℕ

abbrev pub new_socket : Configuration → Client → Socket
new_socket config w = record {
  client = w;
  config = config;
  handshake = none;
  buffered_amount = 0;
  low_threshold = 0;
  moved_out = 0;
}

abbrev pub with_client : Socket → Client → Socket
with_client s w = record s { client = w }

-- `open`, which may throw.
abbrev pub returned : Socket → Outcome → Opened Socket
returned s (done w) = Opened.opened (with_client s w)
returned s (threw w) = Opened.runtime_error (with_client s w)

abbrev pub opened_by : Socket → Opening → Opened Socket
opened_by s logic_error = Opened.runtime_error s
opened_by s Opening.invalid_argument = Opened.invalid_argument s
opened_by s (Opening.opening a h e outcome) = returned (record s { handshake = some h }) outcome

-- `resetCallbacks`, as far as the client keeps them.
abbrev pub reset_callbacks : Client → Client
reset_callbacks w = record w { open_triggered = false; has_message_callback = false }

abbrev pub set_callback : Kind → Option Callback → Client → Client
set_callback Kind.on_message cb w =
    flush_pending_messages (record w { has_message_callback = is_some cb })
set_callback kind cb w = w

abbrev pub available_amount : List Message → ℕ
available_amount [] = 0
available_amount (m ∷ queue) = message_size_func m + available_amount queue

-- `to_variant` of a message that can be moved from: the bytes of a message that is no text are moved
-- out, and those of a text are copied.
abbrev pub moved_from : Message → Message
moved_from m = elim m.type [ MessageType.string ↦ m | _ ↦ record m { content = [] } ]

-- `peek`: the message stays in the queue, as the conversion leaves it.
unfoldable pub peek : Socket → Option Variant × Socket
peek s = elim s.client.recv_queue [
  | [] ↦ (none, s)
  | m ∷ queue ↦ (
    some (to_variant m),
    record s {
      client = record s.client { recv_queue = moved_from m ∷ queue };
      moved_out = s.moved_out + (message_size_func m - message_size_func (moved_from m));
    },
  )
]

abbrev pub sent : Socket → Option ℕ → Option Socket
sent s none = none
sent s (some transport) = some s

-- `path`: there is none while connecting.
abbrev pub path_of : Option Handshake → ReadyState → Option (List ℕ)
path_of none state = none
path_of (some h) state = if ready_eq state connecting then none else some h.path

-- `remoteAddress`, with the address that a TCP transport tells.
abbrev pub address_of_transport : (ℕ → List ℕ) → Option ℕ → Option (List ℕ)
address_of_transport address none = none
address_of_transport address (some transport) = some (address transport)

abbrev pub web_socket : Env → (ℕ → List ℕ) → Methods Socket
web_socket env address = record {
  open_url = λ url s. opened_by s (open_websocket env s.config url s.client);
  close = λ s. with_client s (close env s.client);
  force_close = λ s. with_client s (remote_close env s.client);
  reset_callbacks = λ s. with_client s (reset_callbacks s.client);
  destroy = λ s. with_client s (reset_callbacks (remote_close env s.client));
  set_callback = λ kind cb s. with_client s (set_callback kind cb s.client);
  send = λ v s. sent s (outgoing (make_message v) s.client);
  is_open = λ s. ready_eq s.client.state open_state;
  is_closed = λ s. ready_eq s.client.state closed;
  max_message_size = λ s. s.client.max_message_size;
  buffered_amount = λ s. s.buffered_amount;
  set_low_threshold = λ amount s. record s { low_threshold = amount };
  available_amount = λ s. available_amount s.client.recv_queue + s.moved_out;
  peek = peek;
  receive = λ s. with_client s (receive s.client).1;
  remote_address = λ s. address_of_transport address s.client.tcp_transport;
  path = λ s. path_of s.handshake s.client.state;
}

-- Objects are made by the constructors.
abbrev pub made : Configuration → Option Client → Option Socket
made config none = none
made config (some w) = some (new_socket config w)

abbrev pub makers : (CertificateSource → Bool) → (List ℕ → Option ℕ) → Makers Socket
makers loads stoul = record {
  new_socket = λ config. made config (make_client loads config false);
  new_proxy = proxy_server stoul;
}
