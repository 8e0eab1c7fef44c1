-- ===== src/Tests/Secure.antt =====
-- The theorems on the TLS transport at concrete inputs.
use websocket_client.Common.{◌≡◌, refl, true, false, some, none, List, [], ◌∷◌, ◌++◌}
use websocket_client.Transport.{State}
use websocket_client.Tls.{Tls}
use websocket_client.Tls.Callbacks.{read_callback, bytes}
use websocket_client.Tls.Stream.{Op, reading, arriving, run, unread, arrived, run-unread}
use websocket_client.Tls.Empty.{read_callback-empty}

abbrev transport : Tls
transport = record {
  state = State.connected;
  registered = true;
  incoming_queue = [];
  stopping = false;
  incoming_message = some (1 ∷ 2 ∷ []);
  position = 1;
  outgoing_result = true;
  pending = 0;
  events = [];
}

abbrev three_steps : List Op
three_steps = arriving (3 ∷ 4 ∷ []) ∷ reading 5 ∷ reading 1 ∷ []

run-unread_example :
    (run three_steps transport).0 ++ unread (run three_steps transport).1
    ≡ unread transport ++ arrived three_steps
run-unread_example = run-unread three_steps transport refl

-- After the time without data, the lower transport hands up an empty message.
abbrev with_empty : Tls
with_empty = record transport { incoming_message = none; incoming_queue = [] ∷ [] }

read_callback-empty_example : (read_callback 100 with_empty).0 ≡ bytes []
read_callback-empty_example = read_callback-empty 100 [] [] with_empty refl refl (refl, tt)
