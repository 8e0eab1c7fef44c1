-- ===== src/Transport.antt =====
-- `Transport::State` of src/impl/transport.hpp. Each transport's model has its own record; the
-- calls of the two callbacks are events there.
pub mod Stack
use websocket_client.Common.{Bool, true, false}

pub data State : Type 0 where
  disconnected connecting connected completed failed : State

abbrev pub state_eq : State → State → Bool
state_eq disconnected s = elim s [ disconnected ↦ true | _ ↦ false ]
state_eq connecting s = elim s [ connecting ↦ true | _ ↦ false ]
state_eq connected s = elim s [ connected ↦ true | _ ↦ false ]
state_eq completed s = elim s [ completed ↦ true | _ ↦ false ]
state_eq failed s = elim s [ failed ↦ true | _ ↦ false ]

-- What the lower transport's `send` does: it returns whether all was sent, or throws.
pub data LowerReply : Type 0 where
  accepted : Bool → LowerReply
  thrown : LowerReply
