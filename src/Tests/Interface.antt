-- ===== src/Tests/Interface.antt =====
-- The theorems on the C interface at concrete inputs: a channel is the list of what it received, and
-- sends into its own list.
use websocket_client.Common.{
  ◌≡◌, refl, arith, true, false, Option, some, none, List, [], ◌∷◌, ◌++◌, map, length,
}
use websocket_client.Common.Maps.{lookup}
use websocket_client.Message.{Message, MessageType, Variant}
use websocket_client.Config.{default_configuration}
use websocket_client.Client.{Env}
use websocket_client.Client.Open.{no_certificate, created}
use websocket_client.Capi.Socket.{Socket, new_socket, web_socket}
use websocket_client.Capi.Socket.Emptied.{waiting, receive_each-waiting, receive_message-lost}
use websocket_client.Capi.Int.{pos}
use websocket_client.Capi.{Methods, Table, empty_table, opened}
use websocket_client.Capi.Receive.{wsc_receive_message}
use websocket_client.Capi.Calls.{Makers, create, delete_web_socket, perform, perform_all}
use websocket_client.Capi.Drain.{
  IsQueue, delivered, nothing_left, receive_each, receive_each-drains,
}
use websocket_client.Capi.Echo.{resend, refused, resend-receive_message, receive_message-refused}

abbrev front : List Variant → Option Variant
front [] = none
front (v ∷ vs) = some v

abbrev rest : List Variant → List Variant
rest [] = []
rest (v ∷ vs) = vs

-- The content of a binary message is moved out.
abbrev emptied : List Variant → List Variant
emptied [] = []
emptied (Variant.binary b ∷ vs) = Variant.binary [] ∷ vs
emptied (Variant.string b ∷ vs) = Variant.string b ∷ vs

abbrev list_methods : Methods (List Variant)
list_methods = record {
  open_url = λ url s. opened s;
  close = λ s. s;
  force_close = λ s. [];
  reset_callbacks = λ s. s;
  destroy = λ s. [];
  set_callback = λ kind cb s. s;
  send = λ v s. some (s ++ (v ∷ []));
  is_open = λ s. true;
  is_closed = λ s. false;
  max_message_size = λ s. 1000;
  buffered_amount = λ s. 0;
  set_low_threshold = λ n s. s;
  available_amount = λ s. length s;
  peek = λ s. (front s, emptied s);
  receive = rest;
  remote_address = λ s. none;
  path = λ s. none;
}

abbrev list_makers : Makers (List Variant)
list_makers = record { new_socket = λ c. some []; new_proxy = λ url. none }

rest-emptied : (s : List Variant) → rest (emptied s) ≡ rest s
rest-emptied [] = refl
rest-emptied (Variant.binary b ∷ vs) = refl
rest-emptied (Variant.string b ∷ vs) = refl

list_methods-IsQueue : IsQueue list_methods (λ s. s)
list_methods-IsQueue = record {
  peek_law = λ s. elim s [ [] ↦ refl | v ∷ vs ↦ refl ];
  receive_law = rest-emptied;
}

abbrev two_messages : List Variant
two_messages = Variant.binary (1 ∷ 2 ∷ []) ∷ Variant.string (104 ∷ 105 ∷ []) ∷ []

abbrev table : Table (List Variant)
table = record {
  web_sockets = (1, two_messages) ∷ [];
  user_pointers = (1, 0) ∷ [];
  last_id = 1;
  released = [];
}

abbrev after_deletion : Table (List Variant)
after_deletion =
    let t = perform_all list_methods list_makers (create [] ∷ []) (empty_table (List Variant)) in
    perform_all list_methods list_makers (create [] ∷ [])
      (perform list_methods list_makers (delete_web_socket 1) t).1

receive_each-drains_example :
    receive_each list_methods 3 1 10 0 table ≡ map delivered two_messages ++ (nothing_left 10 ∷ [])
receive_each-drains_example =
    receive_each-drains list_methods (λ s. s) list_methods-IsQueue two_messages 1 10 0 two_messages
      table refl refl (omega arith, (omega arith, tt)) (omega arith)

resend-receive_message_example :
    resend (wsc_receive_message list_methods 1 true (some (pos 10)) 0 table).0
    ≡ some (Variant.binary (1 ∷ 2 ∷ []))
resend-receive_message_example =
    resend-receive_message list_methods 1 10 0 two_messages (Variant.binary (1 ∷ 2 ∷ [])) table refl
      refl tt (omega arith) (omega arith)

receive_message-refused_example :
    let (r, t') = wsc_receive_message list_methods 1 true (some (pos 1)) 0 table in
    (r ≡ refused 0 (Variant.binary (1 ∷ 2 ∷ [])))
    × (lookup 1 t'.web_sockets ≡ some (emptied two_messages))
receive_message-refused_example =
    receive_message-refused list_methods 1 1 0 two_messages (Variant.binary (1 ∷ 2 ∷ [])) table refl
      refl (omega arith) (omega arith)

-- A WebSocket whose queue holds a binary message and a text.
abbrev env : Env
env = record { start_throws = λ n. false; stop_disconnects = λ n. false }

abbrev pair : List Message
pair =
    record { type = MessageType.binary; content = 1 ∷ 2 ∷ [] }
    ∷ record { type = MessageType.string; content = 104 ∷ [] }
    ∷ []

abbrev socket : Socket
socket =
    new_socket default_configuration
      (record (created default_configuration no_certificate) { recv_queue = pair })

abbrev sockets : Table Socket
sockets = record {
  web_sockets = (1, socket) ∷ [];
  user_pointers = (1, 0) ∷ [];
  last_id = 1;
  released = [];
}

receive_each-waiting_example :
    receive_each (web_socket env (λ n. [])) 3 1 10 0 sockets
    ≡ map delivered (waiting socket) ++ (nothing_left 10 ∷ [])
receive_each-waiting_example =
    receive_each-waiting env (λ n. []) 1 10 0 socket sockets refl (omega arith, (omega arith, tt))
      (omega arith)

receive_message-lost_example :
    let m = web_socket env (λ n. []) in
    let t1 = (wsc_receive_message m 1 true (some (pos 1)) 0 sockets).1 in
    (wsc_receive_message m 1 true (some (pos 10)) 0 t1).0 ≡ delivered (Variant.binary [])
receive_message-lost_example =
    receive_message-lost env (λ n. []) 1 1 0 10 socket (1 ∷ 2 ∷ [])
      (record { type = MessageType.string; content = 104 ∷ [] } ∷ []) sockets refl refl
      (omega arith) (omega arith) (omega arith)
