-- ===== src/Ws/Core.antt =====
-- The members of `WsTransport` in src/impl/wstransport.hpp, and what it does to the outside.
-- The random masking keys, the lower transport and the digest are the environment. Each call of
-- `outgoing` takes the next answer and the next key. The callbacks are recorded as events: what the
-- owner does from inside a callback is not part of the same step.
use websocket_client.Common.{ℕ, ◌+◌, Bool, List, [], ◌∷◌, if◌then◌else◌, ◌++◌}
use websocket_client.Message.{MessageType, Message}
use websocket_client.Transport.{State, state_eq, LowerReply, accepted, thrown}
use websocket_client.Handshake.{Handshake, Exception, std_exception}

pub record Env : Type 0 where
  pub sha1 : List ℕ → List ℕ
  pub random_key : ℕ → List ℕ
  pub random_nonce : ℕ → List ℕ
  pub lower_send : ℕ → LowerReply

-- In the order of their happening: bytes handed to the lower transport, a message or the end handed
-- to the owner, a state reported to the owner, the closing timer started.
pub data Event : Type 0 where
  sent : List ℕ → Event
  received : Message → Event
  received_end : Event
  state_changed : State → Event
  close_timer : Event

pub record Ws : Type 0 where
  pub state : State
  pub is_client : Bool
  pub max_message_size : ℕ
  pub max_outstanding_pings : ℕ
  pub handshake : Handshake
  pub buffer : List ℕ
  pub partial : List ℕ
  pub partial_opcode : ℕ
  pub ignore_length : ℕ
  pub outstanding_pings : ℕ
  pub close_sent : Bool
  pub sends : ℕ
  pub events : List Event

-- The result of a method that may throw; the state keeps what was done before.
pub data Result {ℓ} (A : Type ℓ) : Type ℓ where
  ok : A → Ws → Result A
  threw : Exception → Ws → Result A

abbrev pub emit : Event → Ws → Ws
emit e w = record w { events = w.events ++ (e ∷ []) }

-- `Transport::changeState`: the owner hears of a change only.
unfoldable pub change_state : State → Ws → Ws
change_state s w = if state_eq w.state s then w else emit (state_changed s) (record w { state = s })

-- `Transport::recv` with a message.
abbrev pub recv : MessageType → List ℕ → Ws → Ws
recv type content w = emit (received (record { type = type; content = content })) w

-- `Transport::recv(nullptr)`.
abbrev pub recv_end : Ws → Ws
recv_end w = emit received_end w

-- `Transport::outgoing`.
unfoldable pub outgoing : Env → List ℕ → Ws → Result Bool
outgoing env bytes w = elim (env.lower_send w.sends) [
  | accepted all ↦ ok all (emit (sent bytes) (record w { sends = w.sends + 1 }))
  | thrown ↦ threw std_exception (record w { sends = w.sends + 1 })
]
