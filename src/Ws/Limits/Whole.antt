-- ===== src/Ws/Limits/Whole.antt =====
-- The size limit, through `WsTransport::incoming` in src/impl/wstransport.cpp.
use websocket_client.Common.{
  ℕ, suc, ◌+◌, ◌≡◌, refl, Bool, true, Option, none, List, [], ◌∷◌, ◌++◌, length, ◌==◌, ltb,
  Bool-cases, Option-cases, inl, inr, ◌⊎◌, ◌||◌, ◌&&◌,
}
use websocket_client.Transport.{State, state_eq}
use websocket_client.Handshake.{
  Exception, request_error, Reply, done, Handshake, generate_http_response, generate_http_error,
  parse_http_request, parse_http_response,
}
use websocket_client.Ws.Frame.{ping_frame}
use websocket_client.Ws.Core.{Env, Ws, Result, ok, received_end, change_state}
use websocket_client.Ws.Send.{
  send_frame, add_outstanding_ping, send_http_error, send_http_response, control,
}
use websocket_client.Ws.Incoming.{
  incoming, frame_loop, drop_ignored, drain, idle_ping, open_connection, client_handshake,
  server_handshake, handshake_step, connected_step, process, report, fail,
}
use websocket_client.Ws.Chunks.Extend.{Leaves}
use websocket_client.Ws.Chunks.Loop.{Result-cases}
use websocket_client.Ws.Limits.{
  IsWithin, emit-IsWithin, change_state-IsWithin, other_fields, outgoing-IsWithin,
  send_frame-IsWithin, if-IsWithin, if-Leaves,
}
use websocket_client.Ws.Limits.Frames.{frame_loop-IsWithin}

module _ (limit : ℕ) where
  buffer-IsWithin :
      (w : Ws) (handshake : Handshake) (buffer : List ℕ) (ignore pings : ℕ)
      → IsWithin limit w
      → IsWithin limit (record w {
        handshake = handshake;
        buffer = buffer;
        ignore_length = ignore;
        outstanding_pings = pings;
      })
  buffer-IsWithin w handshake buffer ignore pings v =
      other_fields limit w handshake buffer w.partial_opcode ignore pings w.sends w.close_sent
        w.state v

  drop_ignored-IsWithin : (w : Ws) → IsWithin limit w → IsWithin limit (drop_ignored w)
  unfolding drop_ignored
  drop_ignored-IsWithin w v =
      if-IsWithin limit (ltb 0 w.ignore_length)
        (buffer-IsWithin w w.handshake _ _ w.outstanding_pings v) v

  drain-IsWithin : (env : Env) (w : Ws) → IsWithin limit w → Leaves (IsWithin limit) (drain env w)
  unfolding drain
  drain-IsWithin env w v =
      let w1 = drop_ignored w in
      let v1 = drop_ignored-IsWithin w v in
      let still : Result Bool = ok true w1 in
      if-Leaves limit (w1.ignore_length == 0) (frame_loop (suc (length w1.buffer)) env w1) still
        (frame_loop-IsWithin limit (suc (length w1.buffer)) env w1 v1) v1

  add_outstanding_ping-IsWithin :
      (w : Ws) → IsWithin limit w → IsWithin limit (add_outstanding_ping w)
  unfolding add_outstanding_ping
  add_outstanding_ping-IsWithin w v =
      let v1 = buffer-IsWithin w w.handshake w.buffer w.ignore_length (w.outstanding_pings + 1) v in
      if-IsWithin limit
        (ltb 0 w.max_outstanding_pings && ltb w.max_outstanding_pings (w.outstanding_pings + 1))
        (change_state-IsWithin limit State.failed _ v1) v1

  idle_ping-IsWithin :
      (env : Env) (w : Ws) → IsWithin limit w → Leaves (IsWithin limit) (idle_ping env w)
  unfolding idle_ping
  idle_ping-IsWithin env w v =
      let ping = control ping_frame (0 ∷ 0 ∷ 0 ∷ 0 ∷ []) w.is_client none in
      let handled = send_frame-IsWithin limit env ping w v in
      elim (Result-cases (send_frame env ping w)) [
        | inl (a, w1, r) ↦ rw (idle_ping, r) (add_outstanding_ping-IsWithin w1 (rw r at handled))
        | inr (e, w1, r) ↦ rw (idle_ping, r) (rw r at handled)
      ]

  open_connection-IsWithin :
      (len : ℕ) (w : Ws) → IsWithin limit w → IsWithin limit (open_connection len w)
  unfolding open_connection
  open_connection-IsWithin len w v =
      let w1 = change_state State.connected w in
      buffer-IsWithin w1 w1.handshake _ w1.ignore_length w1.outstanding_pings
        (change_state-IsWithin limit State.connected w v)

  Reply-cases : (r : Reply) → ((e : Exception) × (r ≡ Reply.threw e)) ⊎ ((n : ℕ) × (r ≡ done n))
  Reply-cases (Reply.threw e) = inl (e, refl)
  Reply-cases (done n) = inr (n, refl)

  client_handshake-IsWithin :
      (env : Env) (w : Ws) → IsWithin limit w → Leaves (IsWithin limit) (client_handshake env w)
  unfolding client_handshake
  client_handshake-IsWithin env w v =
      elim (Reply-cases (parse_http_response env.sha1 w.buffer w.handshake)) [
        | inl (e, r) ↦ rw (client_handshake, r) v
        | inr (n, r) ↦
            rw (client_handshake, r)
              (if-Leaves limit (n == 0) (ok true w) (ok true (open_connection n w)) v
                (open_connection-IsWithin n w v))
      ]

  server_handshake-IsWithin :
      (env : Env) (w : Ws) → IsWithin limit w → Leaves (IsWithin limit) (server_handshake env w)
  unfolding server_handshake send_http_response
  server_handshake-IsWithin env w v =
      let (handshake, reply) = parse_http_request w.buffer w.handshake in
      let w1 = record w { handshake = handshake } in
      let v1 : IsWithin limit w1 =
        buffer-IsWithin w handshake w.buffer w.ignore_length w.outstanding_pings v in
      elim (Reply-cases reply) [
        | inl (e, r) ↦ rw (server_handshake, r) v1
        | inr (n, r) ↦ elim (Bool-cases (n == 0)) [
          | inl z ↦ rw (server_handshake, r, z) v1
          | inr z ↦
              let answered : Leaves (IsWithin limit) (send_http_response env w1) =
                outgoing-IsWithin limit env (generate_http_response env.sha1 handshake) w1 v1 in
              elim (Result-cases (send_http_response env w1)) [
                | inl (a, w2, s) ↦
                    rw (server_handshake, r, z, s)
                      (open_connection-IsWithin n w2 (rw s at answered))
                | inr (e, w2, s) ↦ rw (server_handshake, r, z, s) (rw s at answered)
              ]
        ]
      ]

  handshake_step-IsWithin :
      (env : Env) (w : Ws) → IsWithin limit w → Leaves (IsWithin limit) (handshake_step env w)
  unfolding handshake_step
  handshake_step-IsWithin env w v =
      if-Leaves limit (state_eq w.state State.connecting) _ (ok true w)
        (if-Leaves limit w.is_client (client_handshake env w) (server_handshake env w)
          (client_handshake-IsWithin env w v) (server_handshake-IsWithin env w v))
        v

  connected_step-IsWithin :
      (env : Env) (bytes : List ℕ) (w : Ws)
      → IsWithin limit w
      → Leaves (IsWithin limit) (connected_step env bytes w)
  unfolding connected_step
  connected_step-IsWithin env bytes w v =
      if-Leaves limit (state_eq w.state State.connected) _ (ok true w)
        (if-Leaves limit (length bytes == 0) (idle_ping env w) (drain env w)
          (idle_ping-IsWithin env w v) (drain-IsWithin env w v))
        v

  process-IsWithin :
      (env : Env) (bytes : List ℕ) (w : Ws)
      → IsWithin limit w
      → Leaves (IsWithin limit) (process env bytes w)
  unfolding process
  process-IsWithin env bytes w v =
      let w0 = record w { buffer = w.buffer ++ bytes } in
      let v0 : IsWithin limit w0 =
        buffer-IsWithin w w.handshake _ w.ignore_length w.outstanding_pings v in
      let handled = handshake_step-IsWithin env w0 v0 in
      elim (Result-cases (handshake_step env w0)) [
        | inl (a, w1, r) ↦ rw (process, r) (connected_step-IsWithin env bytes w1 (rw r at handled))
        | inr (e, w1, r) ↦ rw (process, r) (rw r at handled)
      ]

  report-IsWithin :
      (env : Env) (e : Exception) (w : Ws) → IsWithin limit w → IsWithin limit (report env e w)
  unfolding report send_http_error
  report-IsWithin env (request_error code) w v =
      let answered : Leaves (IsWithin limit) (send_http_error env code w) =
        outgoing-IsWithin limit env (generate_http_error code) w v in
      elim (Result-cases (send_http_error env code w)) [
        | inl (a, w1, r) ↦ rw (report, r) (rw r at answered)
        | inr (e, w1, r) ↦ rw (report, r) (rw r at answered)
      ]
  report-IsWithin env e w v = v

  fail-IsWithin : (w : Ws) → IsWithin limit w → IsWithin limit (fail w)
  unfolding fail
  fail-IsWithin w v =
      let v1 = change_state-IsWithin limit State.disconnected w v in
      if-IsWithin limit (state_eq w.state State.connected)
        (emit-IsWithin limit received_end _ tt v1) (change_state-IsWithin limit State.failed w v)

  -- No input makes the transport exceed the limit: where the messages delivered so far and the
  -- unfinished one are within the configured size, they are so after any incoming bytes, and after
  -- the end of the lower connection.
  pub incoming-IsWithin :
      (env : Env) (message : Option (List ℕ)) (w : Ws)
      → IsWithin limit w
      → IsWithin limit (incoming env message w)
  unfolding incoming
  incoming-IsWithin env message w v =
      if-IsWithin limit (state_eq w.state State.connecting || state_eq w.state State.connected)
        (elim (Option-cases message) [
          | inl e ↦ rw e (fail-IsWithin w v)
          | inr (bytes, e) ↦
              let handled = process-IsWithin env bytes w v in
              elim (Result-cases (process env bytes w)) [
                | inl (a, w1, r) ↦ rw (e, r) (rw r at handled)
                | inr (x, w1, r) ↦
                    rw (e, r)
                      (fail-IsWithin (report env x w1) (report-IsWithin env x w1 (rw r at handled)))
              ]
        ])
        v
