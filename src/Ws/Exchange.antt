-- ===== src/Ws/Exchange.antt =====
-- Two transports: what `WsTransport::send` hands down, read by the peer's `WsTransport::incoming`
-- in src/impl/wstransport.cpp.
use websocket_client.Common.{
  ℕ, ◌+◌, ◌≡◌, ◌≢◌, refl, ap, sym, ◌∙◌, true, some, List, [], ◌∷◌, ◌++◌, length, drop,
  drop-length-append, append_assoc, append-nil, All, Bool-cases, inl, inr,
}
use websocket_client.Message.{Message}
use websocket_client.Transport.{State, LowerReply}
use websocket_client.Ws.Frame.{frame_bytes}
use websocket_client.Ws.Core.{
  Env, Ws, ok, Event, sent, received, received_end, state_changed, close_timer, outgoing, emit,
}
use websocket_client.Ws.Send.{write_back, send, send_frame, message_frame}
use websocket_client.Ws.Incoming.{incoming}
use websocket_client.Ws.Wire.{incoming-wire, Fits, delivered_all, wire, send_all, sent_bytes}

sent_bytes-append : (xs ys : List Event) → sent_bytes (xs ++ ys) ≡ sent_bytes xs ++ sent_bytes ys
sent_bytes-append [] ys = refl
sent_bytes-append (sent bytes ∷ xs) ys =
    ap (λ t. bytes ++ t) (sent_bytes-append xs ys)
    ∙ sym (append_assoc bytes (sent_bytes xs) (sent_bytes ys))
sent_bytes-append (received m ∷ xs) ys = sent_bytes-append xs ys
sent_bytes-append (received_end ∷ xs) ys = sent_bytes-append xs ys
sent_bytes-append (state_changed s ∷ xs) ys = sent_bytes-append xs ys
sent_bytes-append (close_timer ∷ xs) ys = sent_bytes-append xs ys

send-connected :
    (env : Env) (m : Message) (w : Ws)
    → w.state ≡ State.connected
    → env.lower_send w.sends ≡ LowerReply.accepted true
    → send env (some m) w
      ≡ ok true (
          emit
            (sent (frame_bytes (env.random_key w.sends) (message_frame w.is_client m)))
            (record w { sends = w.sends + 1 }))
unfolding send send_frame outgoing write_back
send-connected env m w s e = elim (Bool-cases w.is_client) [
  | inl c ↦ simp (send, send_frame, outgoing, s, e, c)
  | inr c ↦ simp (send, send_frame, outgoing, s, e, c)
]

module _ (env : Env) (accepts : (n : ℕ) → env.lower_send n ≡ LowerReply.accepted true) where
  sent_bytes-send_all :
      (ms : List Message) (w : Ws)
      → w.state ≡ State.connected
      → sent_bytes (send_all env ms w).events
        ≡ sent_bytes w.events ++ wire env.random_key w.is_client w.sends ms
  sent_bytes-send_all [] w s = sym (append-nil (sent_bytes w.events))
  sent_bytes-send_all (m ∷ ms) w s =
      let frame = frame_bytes (env.random_key w.sends) (message_frame w.is_client m) in
      let w1 = emit (sent frame) (record w { sends = w.sends + 1 }) in
      let rest = wire env.random_key w.is_client (w.sends + 1) ms in
      let step : send_all env (m ∷ ms) w ≡ send_all env ms w1 =
        simp (send_all, send-connected env m w s (accepts w.sends)) in
      ap (λ x. sent_bytes x.events) step
      ∙ sent_bytes-send_all ms w1 s
      ∙ ap (λ t. t ++ rest) (sent_bytes-append w.events (sent frame ∷ []))
      ∙ simp (append_assoc, append-nil)

  -- End to end: the bytes that one connected transport hands down for a list of messages, read at
  -- once by another connected transport with nothing pending and a large enough limit, make that
  -- transport hand over exactly these messages, each once, unchanged and in order, and nothing
  -- else changes but the last opcode. The lower transport accepts every call, and masking keys
  -- have four bytes.
  pub incoming-send_all :
      (key_size : (i : ℕ) → length (env.random_key i) ≡ 4) (other : Env) (ms : List Message)
      (a b : Ws)
      → a.state ≡ State.connected
      → b.state ≡ State.connected
      → b.buffer ≡ []
      → b.partial ≡ []
      → b.ignore_length ≡ 0
      → All (Fits b.max_message_size) ms
      → ms ≢ []
      → incoming other
          (some (drop (length (sent_bytes a.events)) (sent_bytes (send_all env ms a).events)))
          b
        ≡ delivered_all ms b
  incoming-send_all key_size other ms a b up_a up_b clean empty none_left fits some_ms =
      let bytes = wire env.random_key a.is_client a.sends ms in
      let on_wire : drop (length (sent_bytes a.events)) (sent_bytes (send_all env ms a).events)
          ≡ bytes =
        ap (drop (length (sent_bytes a.events))) (sent_bytes-send_all ms a up_a)
        ∙ drop-length-append (sent_bytes a.events) bytes in
      ap (λ t. incoming other (some t) b) on_wire
      ∙ incoming-wire other env.random_key key_size a.is_client a.sends ms b up_b clean empty
          none_left fits some_ms
