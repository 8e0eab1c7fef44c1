-- ===== src/Ws/Limits/Frames.antt =====
-- The size limit on messages: closing, `recvFrame` and the frame loop of src/impl/wstransport.cpp.
use websocket_client.Common.{
  ℕ, zero, suc, Bool, true, none, [], not, length, ◌==◌, ◌||◌, ltb, Bool-cases, inl, inr,
}
use websocket_client.Transport.{State, state_eq}
use websocket_client.Ws.Frame.{Frame, parse_frame, Parse, incomplete, parsed}
use websocket_client.Ws.Core.{Env, Ws, Result, ok, threw, close_timer, change_state, emit}
use websocket_client.Ws.Send.{close, send_frame, control}
use websocket_client.Ws.Receive.{recv_data, recv_continuation, recv_frame}
use websocket_client.Ws.Incoming.{frame_loop, after_frame}
use websocket_client.Ws.Chunks.Extend.{Leaves}
use websocket_client.Ws.Chunks.Loop.{Parse-cases, Result-cases}
use websocket_client.Ws.Limits.{
  IsWithin, emit-IsWithin, change_state-IsWithin, other_fields, send_frame-IsWithin, if-IsWithin,
  if-Leaves, recv_data-IsWithin, recv_continuation-IsWithin,
}

module _ (limit : ℕ) where
  close-IsWithin : (env : Env) (w : Ws) → IsWithin limit w → IsWithin limit (close env w)
  unfolding close
  close-IsWithin env w v =
      let w1 = record w { close_sent = true } in
      let v1 : IsWithin limit w1 =
        other_fields limit w w.handshake w.buffer w.partial_opcode w.ignore_length
          w.outstanding_pings w.sends true w.state v in
      let frame = control websocket_client.Ws.Frame.close_frame [] w.is_client none in
      let sent_it = send_frame-IsWithin limit env frame w1 v1 in
      let after : IsWithin limit (elim (send_frame env frame w1) [
        | ok all w2 ↦ emit close_timer w2
        | threw e w2 ↦ change_state State.disconnected w2
      ]) =
        elim (Result-cases (send_frame env frame w1)) [
          | inl (a, w2, r) ↦ rw r (emit-IsWithin limit close_timer w2 tt (rw r at sent_it))
          | inr (e, w2, r) ↦
              rw r (change_state-IsWithin limit State.disconnected w2 (rw r at sent_it))
        ] in
      if-IsWithin limit (not (state_eq w.state State.connected)) v
        (if-IsWithin limit w.close_sent v after)

  recv_frame-IsWithin :
      (env : Env) (f : Frame) (w : Ws)
      → IsWithin limit w
      → Leaves (IsWithin limit) (recv_frame env f w)
  unfolding recv_frame
  recv_frame-IsWithin env f w v =
      let closed = close-IsWithin env w v in
      let r : Ws → Result Bool = λ x. ok true x in
      if-Leaves limit
        (f.opcode == websocket_client.Ws.Frame.text_frame
          || f.opcode == websocket_client.Ws.Frame.binary_frame)
        (r (recv_data f w)) _ (recv_data-IsWithin limit f w v)
        (if-Leaves limit (f.opcode == websocket_client.Ws.Frame.continuation)
          (r (recv_continuation f w)) _ (recv_continuation-IsWithin limit f w v)
          (if-Leaves limit (f.opcode == websocket_client.Ws.Frame.ping_frame) _ _
            (send_frame-IsWithin limit env _ w v)
            (if-Leaves limit (f.opcode == websocket_client.Ws.Frame.pong_frame)
              (r (record w { outstanding_pings = 0 })) _
              (other_fields limit w w.handshake w.buffer w.partial_opcode w.ignore_length 0 w.sends
                w.close_sent w.state v)
              (if-Leaves limit (f.opcode == websocket_client.Ws.Frame.close_frame)
                (r (change_state State.disconnected (close env w))) (r (close env w))
                (change_state-IsWithin limit State.disconnected (close env w) closed) closed))))

  after_frame-IsWithin : (n : ℕ) (w : Ws) → IsWithin limit w → IsWithin limit (after_frame n w)
  unfolding after_frame
  after_frame-IsWithin n w v =
      if-IsWithin limit (ltb (length w.buffer) n)
        (other_fields limit w w.handshake _ w.partial_opcode _ w.outstanding_pings w.sends
          w.close_sent w.state v)
        (other_fields limit w w.handshake _ w.partial_opcode w.ignore_length w.outstanding_pings
          w.sends w.close_sent w.state v)

  pub frame_loop-IsWithin :
      (fuel : ℕ) (env : Env) (w : Ws)
      → IsWithin limit w
      → Leaves (IsWithin limit) (frame_loop fuel env w)
  unfolding frame_loop
  frame_loop-IsWithin zero env w v = v
  frame_loop-IsWithin (suc fuel) env w v =
      elim (Parse-cases (parse_frame w.max_message_size w.buffer)) [
        | inl e ↦ rw (frame_loop, e) v
        | inr (f, n, b, e) ↦
            let placed : IsWithin limit (record w { buffer = b }) =
              other_fields limit w w.handshake b w.partial_opcode w.ignore_length
                w.outstanding_pings w.sends w.close_sent w.state v in
            elim (Bool-cases (n == 0)) [
              | inl z ↦ rw (frame_loop, e, z) placed
              | inr z ↦
                  let handled = recv_frame-IsWithin env f (record w { buffer = b }) placed in
                  elim (Result-cases (recv_frame env f (record w { buffer = b }))) [
                    | inr (x, w1, r) ↦ rw (frame_loop, e, z, r) (rw r at handled)
                    | inl (a, w1, r) ↦
                        let v1 : IsWithin limit (after_frame n w1) =
                          after_frame-IsWithin n w1 (rw r at handled) in
                        elim (Bool-cases (ltb (length w1.buffer) n)) [
                          | inl l ↦ rw (frame_loop, e, z, r, l) v1
                          | inr l ↦
                              rw (frame_loop, e, z, r, l)
                                (frame_loop-IsWithin fuel env (after_frame n w1) v1)
                        ]
                  ]
            ]
      ]
