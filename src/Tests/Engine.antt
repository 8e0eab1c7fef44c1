-- ===== src/Tests/Engine.antt =====
-- The theorems on the TCP transport, the client, the queue and the processor at concrete inputs.
use websocket_client.Common.{
  ℕ, zero, suc, ◌≡◌, refl, arith, true, false, Option, some, none, List, [], ◌∷◌, ◌++◌,
  if◌then◌else◌, ◌==◌, codes,
}
use websocket_client.Message.{MessageType}
use websocket_client.Transport.{State}
use websocket_client.Tcp.{Tcp, SendReply, wrote, would_block}
use websocket_client.Tcp.Flow.{Streams}
use websocket_client.Tcp.Calls.{send_each, send_each-Streams}
use websocket_client.Client.{
  Client, ReadyState, Env, caught, close, open_url, remote_close, on_tcp_state,
}
use websocket_client.Client.Steps.{IsConsistent}
use websocket_client.Client.Reach.{
  no_step, one_more, open_step, tcp_step, close_step, Steps-IsConsistent,
}
use websocket_client.Client.Proxy.{on_tcp_state-reopened}
use websocket_client.Queue.{empty_queue}
use websocket_client.Queue.Order.{Op, pushing, popping, Run, run, IsSound, run-IsSound}
use websocket_client.Http.Lines.Complete.{block}
use websocket_client.HttpProxy.{HttpProxy, state_changed, incoming}
use websocket_client.HttpProxy.Tunnel.{first_message, code_of, incoming-block}
use websocket_client.Processor

-- A socket that takes two bytes, and then would block.
abbrev socket : ℕ → SendReply
socket zero = wrote 1
socket (suc n) = would_block

abbrev connection : Tcp
connection = record {
  state = State.connected;
  has_socket = true;
  queue = (5 ∷ 6 ∷ []) ∷ [];
  buffered_amount = 2;
  calls = 0;
  wire = [];
  events = [];
}

abbrev messages : List (Option (List ℕ))
messages = some (1 ∷ 2 ∷ []) ∷ none ∷ some (3 ∷ []) ∷ []

send_each-Streams_example : Streams (5 ∷ 6 ∷ 1 ∷ 2 ∷ 3 ∷ []) (send_each socket messages connection)
send_each-Streams_example = send_each-Streams socket messages connection

abbrev env : Env
env = record { start_throws = λ n. false; stop_disconnects = λ n. false }

abbrev new_client : Client
new_client = record {
  state = ReadyState.closed;
  is_secure = false;
  has_proxy = true;
  tcp_transport = none;
  proxy_transport = none;
  tls_transport = none;
  ws_transport = none;
  next_transport = 0;
  recv_queue = [];
  open_triggered = false;
  has_message_callback = true;
  max_message_size = 100;
  events = [];
}

abbrev first : Client
first = caught (open_url env true new_client)

Steps-IsConsistent_example : IsConsistent (close env (on_tcp_state env State.connected first))
Steps-IsConsistent_example =
    Steps-IsConsistent env (refl, refl, refl, refl, refl)
      (one_more
        (one_more (one_more (no_step {w = new_client}) (open_step true)) (tcp_step State.connected))
        close_step)

abbrev with_proxy : Client
with_proxy = record new_client {
  state = ReadyState.connecting;
  tcp_transport = some 0;
  proxy_transport = some 1;
  next_transport = 2;
}

on_tcp_state-reopened_example :
    on_tcp_state env State.connected (caught (open_url env false (remote_close env with_proxy)))
    ≡ caught (open_url env false (remote_close env with_proxy))
on_tcp_state-reopened_example = on_tcp_state-reopened env false with_proxy 1 refl refl

abbrev waiting : Client
waiting = record new_client {
  open_triggered = true;
  recv_queue =
      record { type = MessageType.string; content = 7 ∷ [] }
      ∷ record { type = MessageType.binary; content = [] }
      ∷ [];
}

abbrev weight : ℕ → ℕ
weight n = n

abbrev new_run : Run weight
new_run = record { queue = empty_queue 2; pushed = []; popped = [] }

abbrev ops : List (Op ℕ)
ops = pushing 4 ∷ pushing 5 ∷ pushing 6 ∷ popping ∷ pushing 7 ∷ []

run-IsSound_example : IsSound weight (run weight ops new_run)
run-IsSound_example =
    run-IsSound weight ops new_run
      (record { in_order = refl; amount_is = refl; within = λ h. omega arith })

abbrev new_history : Processor.History
new_history = record {
  processor = record { pending = false; tasks = []; submitted = [] };
  enqueued = [];
  ended = 0;
}

abbrev steps : List Processor.Step
steps = Processor.enqueues 1 ∷ Processor.enqueues 2 ∷ Processor.ends ∷ []

run-IsOrdered_example : Processor.IsOrdered (Processor.run steps new_history)
run-IsOrdered_example =
    Processor.run-IsOrdered steps new_history
      (record { in_order = refl; one_at_a_time = refl; none_waits = λ h. refl })

abbrev tunnel : HttpProxy
tunnel = record {
  state = State.connecting;
  hostname = codes "h";
  service = codes "80";
  buffer = [];
  sends = 1;
  events = [];
}

abbrev status : List ℕ
status = codes "P 200"

incoming-block_example : incoming (some (block (status ∷ []) ++ (9 ∷ []))) tunnel ≡ (
    if code_of status == 200
    then record tunnel {
      state = State.connected;
      buffer = [];
      events = tunnel.events ++ (state_changed State.connected ∷ first_message (9 ∷ []));
    }
    else record tunnel {
      state = State.failed;
      buffer = block (status ∷ []) ++ (9 ∷ []);
      events = tunnel.events ++ (state_changed State.failed ∷ []);
    })
incoming-block_example =
    incoming-block status [] (9 ∷ []) tunnel refl refl
      ((λ e. cc, (refl, (refl, (refl, (refl, (refl, tt)))))), tt)
