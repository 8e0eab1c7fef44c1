-- ===== src/Client/Reach.antt =====
-- The life of a `WebSocket` of src/impl/websocketimpl.cpp: the calls of the application, the timer
-- and the callbacks of the transports as steps, in any order.
use websocket_client.Common.{
  ◌+◌, ◌≡◌, refl, ap, sym, ◌∙◌, arith, Bool, true, false, Option, none, some, List, [], ◌∷◌, ◌++◌,
  if◌then◌else◌, ◌==◌, length, Bool-cases, inl, inr,
}
use websocket_client.Message.{MessageType, Message}
use websocket_client.Transport.{State}
use websocket_client.Client.{
  ReadyState, ready_eq, connecting, open_state, closing, closed, Env, opening, opened, error_called,
  available_called, Client, emit, trigger_open, trigger_available, close, tcp, proxy, tls, ws,
  caught, fail_with_error, if_connecting, on_tcp_state, on_proxy_state, on_tls_state, on_ws_state,
  init_proxy_transport, init_tls_transport, init_ws_transport, open_url, connection_timeout,
  incoming, receive,
}
use websocket_client.Client.Steps.{
  IsConsistent, closed_count, opening_count, closed_count-append, opening_count-append,
  emit-IsConsistent, if-IsConsistent, close-IsConsistent, moved,
}
use websocket_client.Client.Life.{
  Both, if-Both, remote_close-IsConsistent, flush_pending-IsConsistent, set_tcp_transport-Both,
  init_on-Both, caught-IsConsistent,
}

-- One call or callback.
pub data Step (env : Env) : Client → Client → Type 0 where
  open_step : {w : Client} (secure : Bool) → Step env w (caught (open_url env secure w))
  close_step : {w : Client} → Step env w (close env w)
  tcp_step : {w : Client} (s : State) → Step env w (on_tcp_state env s w)
  proxy_step : {w : Client} (s : State) → Step env w (on_proxy_state env s w)
  tls_step : {w : Client} (s : State) → Step env w (on_tls_state env s w)
  ws_step : {w : Client} (s : State) → Step env w (on_ws_state env s w)
  timeout_step : {w : Client} → Step env w (connection_timeout env w)
  incoming_step : {w : Client} (message : Option Message) → Step env w (incoming env message w)
  receive_step : {w : Client} → Step env w (receive w).1

pub data Steps (env : Env) : Client → Client → Type 0 where
  no_step : {w : Client} → Steps env w w
  one_more : {w x y : Client} → Steps env w x → Step env x y → Steps env w y

-- A client as the constructor leaves it.
abbrev pub IsNew : Client → Type 0
IsNew w =
    (w.state ≡ closed)
    × (w.tcp_transport ≡ none)
    × (w.tls_transport ≡ none)
    × (w.ws_transport ≡ none)
    × (w.events ≡ [])

open_url-Both :
    (env : Env) (secure : Bool) (w : Client) → IsConsistent w → Both (open_url env secure w)
unfolding open_url
open_url-Both env secure w v =
    let w1 = emit opening (record w { is_secure = secure; state = connecting }) in
    elim (Bool-cases (ready_eq w.state closed)) [
      | inr e ↦ rw e v
      | inl e ↦
          let before : closed_count w.events + 0 ≡ opening_count w.events =
            ap (λ b. closed_count w.events + (if b then 0 else 1)) (sym e) ∙ v.counted in
          let v1 : IsConsistent w1 = record {
            released = λ h. absurd cc;
            counted = omega (
              arith,
              before,
              closed_count-append w.events (opening ∷ []),
              opening_count-append w.events (opening ∷ []),
            );
          } in
          rw e (set_tcp_transport-Both env w1 v1)
    ]

fail-IsConsistent : (env : Env) (w : Client) → IsConsistent w → IsConsistent (fail_with_error env w)
fail-IsConsistent env w v =
    remote_close-IsConsistent env (emit error_called w)
      (emit-IsConsistent error_called w (refl, refl) v)

if_connecting-IsConsistent :
    (env : Env) (w : Client) → IsConsistent w → IsConsistent (if_connecting env w)
if_connecting-IsConsistent env w v =
    if-IsConsistent (ready_eq w.state connecting) (remote_close-IsConsistent env w v) v

on_tcp_state-IsConsistent :
    (env : Env) (s : State) (w : Client) → IsConsistent w → IsConsistent (on_tcp_state env s w)
unfolding on_tcp_state
on_tcp_state-IsConsistent env State.connected w v = caught-IsConsistent _ (
    if-Both w.has_proxy (init_proxy_transport env w) _ (init_on-Both env proxy tcp w v) (
      if-Both w.is_secure (init_tls_transport env w) (init_ws_transport env w)
        (init_on-Both env tls _ w v) (init_on-Both env ws _ w v)))
on_tcp_state-IsConsistent env State.failed w v = fail-IsConsistent env w v
on_tcp_state-IsConsistent env State.disconnected w v = if_connecting-IsConsistent env w v
on_tcp_state-IsConsistent env State.connecting w v = v
on_tcp_state-IsConsistent env State.completed w v = v

on_proxy_state-IsConsistent :
    (env : Env) (s : State) (w : Client) → IsConsistent w → IsConsistent (on_proxy_state env s w)
unfolding on_proxy_state
on_proxy_state-IsConsistent env State.connected w v = caught-IsConsistent _ (
    if-Both w.is_secure (init_tls_transport env w) (init_ws_transport env w)
      (init_on-Both env tls _ w v) (init_on-Both env ws _ w v))
on_proxy_state-IsConsistent env State.failed w v = fail-IsConsistent env w v
on_proxy_state-IsConsistent env State.disconnected w v = if_connecting-IsConsistent env w v
on_proxy_state-IsConsistent env State.connecting w v = v
on_proxy_state-IsConsistent env State.completed w v = v

on_tls_state-IsConsistent :
    (env : Env) (s : State) (w : Client) → IsConsistent w → IsConsistent (on_tls_state env s w)
unfolding on_tls_state
on_tls_state-IsConsistent env State.connected w v =
    caught-IsConsistent (init_ws_transport env w) (init_on-Both env ws _ w v)
on_tls_state-IsConsistent env State.failed w v = fail-IsConsistent env w v
on_tls_state-IsConsistent env State.disconnected w v = if_connecting-IsConsistent env w v
on_tls_state-IsConsistent env State.connecting w v = v
on_tls_state-IsConsistent env State.completed w v = v

is_connecting : (s : ReadyState) → ready_eq s connecting ≡ true → ready_eq s closed ≡ false
is_connecting connecting h = refl
is_connecting open_state h = refl
is_connecting closing h = refl
is_connecting closed h = absurd cc

on_ws_state-IsConsistent :
    (env : Env) (s : State) (w : Client) → IsConsistent w → IsConsistent (on_ws_state env s w)
unfolding on_ws_state trigger_open
on_ws_state-IsConsistent env State.connected w v = elim (Bool-cases (ready_eq w.state connecting)) [
  | inr e ↦ rw e v
  | inl e ↦
      let v1 : IsConsistent (record w { state = open_state }) =
        moved open_state w (is_connecting w.state e) refl v in
      let v2 : IsConsistent (record w { state = open_state; open_triggered = true }) = record {
        released = v1.released;
        counted = v1.counted;
      } in
      rw e (
        flush_pending-IsConsistent _ (
          emit-IsConsistent opened (record w { state = open_state; open_triggered = true })
            (refl, refl) v2))
]
on_ws_state-IsConsistent env State.failed w v = fail-IsConsistent env w v
on_ws_state-IsConsistent env State.disconnected w v = remote_close-IsConsistent env w v
on_ws_state-IsConsistent env State.connecting w v = v
on_ws_state-IsConsistent env State.completed w v = v

queue-IsConsistent :
    (queue : List Message) (w : Client)
    → IsConsistent w
    → IsConsistent (record w { recv_queue = queue })
queue-IsConsistent queue w v = record { released = v.released; counted = v.counted }

incoming-IsConsistent :
    (env : Env) (message : Option Message) (w : Client)
    → IsConsistent w
    → IsConsistent (incoming env message w)
unfolding incoming trigger_available
incoming-IsConsistent env none w v = remote_close-IsConsistent env w v
incoming-IsConsistent env (some m) w v =
    let queue = w.recv_queue ++ (m ∷ []) in
    let w1 = record w { recv_queue = queue } in
    let v1 : IsConsistent w1 = queue-IsConsistent queue w v in
    let pushed : IsConsistent (trigger_available (length queue) w1) = flush_pending-IsConsistent _ (
      if-IsConsistent (length queue == 1) (emit-IsConsistent available_called w1 (refl, refl) v1)
        v1) in
    go m.type pushed v
  where
    go :
        {x y : Client} (type : MessageType)
        → IsConsistent x
        → IsConsistent y
        → IsConsistent (elim type [ MessageType.string ↦ x | MessageType.binary ↦ x | _ ↦ y ])
    go MessageType.string p q = p
    go MessageType.binary p q = p
    go MessageType.control p q = q
    go MessageType.reset p q = q

receive-IsConsistent : (w : Client) → IsConsistent w → IsConsistent (receive w).1
unfolding receive
receive-IsConsistent w v = go w.recv_queue refl
  where
    go : (q : List Message) → w.recv_queue ≡ q → IsConsistent (receive w).1
    go [] e = rw (receive, e) v
    go (m ∷ queue) e = rw (receive, e) (queue-IsConsistent queue w v)

Step-IsConsistent : (env : Env) {w x : Client} → Step env w x → IsConsistent w → IsConsistent x
unfolding connection_timeout
Step-IsConsistent env {w} (open_step secure) v =
    caught-IsConsistent (open_url env secure w) (open_url-Both env secure w v)
Step-IsConsistent env {w} close_step v = close-IsConsistent env w v
Step-IsConsistent env {w} (tcp_step s) v = on_tcp_state-IsConsistent env s w v
Step-IsConsistent env {w} (proxy_step s) v = on_proxy_state-IsConsistent env s w v
Step-IsConsistent env {w} (tls_step s) v = on_tls_state-IsConsistent env s w v
Step-IsConsistent env {w} (ws_step s) v = on_ws_state-IsConsistent env s w v
Step-IsConsistent env {w} timeout_step v =
    if-IsConsistent (ready_eq w.state connecting) (fail-IsConsistent env w v) v
Step-IsConsistent env {w} (incoming_step message) v = incoming-IsConsistent env message w v
Step-IsConsistent env {w} receive_step v = receive-IsConsistent w v

-- From a new client, after any calls of the application, timeouts and callbacks of the transports,
-- in any order: a closed client holds no TCP, TLS or WebSocket transport, and each call of open
-- past its checks is matched by exactly one call of the closed callback, but the last one as long
-- as the client is not closed.
pub Steps-IsConsistent : (env : Env) {w x : Client} → IsNew w → Steps env w x → IsConsistent x
Steps-IsConsistent env {w} new no_step = record {
  released = λ h. (new.1, new.2, new.3);
  counted = rw (new.0, new.4) refl;
}
Steps-IsConsistent env new (one_more {x = x} before step) =
    Step-IsConsistent env step (Steps-IsConsistent env new before)
