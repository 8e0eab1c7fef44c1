-- ===== src/Ws/Limits.antt =====
-- The size limit on messages in the operations of src/impl/wstransport.cpp below `incoming`.
use websocket_client.Common.{
  ℕ, zero, suc, ◌+◌, ◌-◌, ◌≤◌, ◌<◌, ◌≡◌, ◌≢◌, refl, ap, sym, ◌∙◌, arith, Bool, true, false, Option,
  none, some, List, [], ◌∷◌, ◌++◌, not, if◌then◌else◌, length, length-append, length-take, take,
  min, All, All-append, ◌==◌, ◌||◌, ltb, Bool-cases, inl, inr,
}
use websocket_client.Message.{MessageType, Message}
use websocket_client.Transport.{State, state_eq, LowerReply}
use websocket_client.Handshake.{Exception, Handshake}
use websocket_client.Ws.Frame.{Frame, parse_frame, Parse, incomplete, parsed}
use websocket_client.Ws.Core.{
  Env, Ws, Result, ok, threw, Event, sent, received, received_end, state_changed, close_timer,
  change_state, outgoing, emit, recv, recv_end,
}
use websocket_client.Ws.Send.{
  close, send_frame, write_back, add_outstanding_ping, send_http_error, send_http_response, control,
}
use websocket_client.Ws.Receive.{
  flush_partial, recv_data, recv_continuation, recv_frame, message_type,
}
use websocket_client.Ws.Incoming.{
  incoming, frame_loop, after_frame, drop_ignored, drain, idle_ping, open_connection,
  client_handshake, server_handshake, handshake_step, connected_step, process, report, fail,
}
use websocket_client.Ws.Chunks.Extend.{Leaves}
use websocket_client.Ws.Chunks.Loop.{Parse-cases, Result-cases}
pub mod Frames
pub mod Whole

-- A message handed to the owner is within the limit.
abbrev pub EventWithin : ℕ → Event → Type 0
EventWithin limit (sent bytes) = Unit
EventWithin limit (received m) = length m.content ≤ limit
EventWithin limit received_end = Unit
EventWithin limit (state_changed s) = Unit
EventWithin limit close_timer = Unit

-- All messages so far, and the unfinished one, are within the limit, which is the configured one.
pub record IsWithin (limit : ℕ) (w : Ws) : Type 0 where
  pub configured : w.max_message_size ≡ limit
  pub unfinished : length w.partial ≤ limit
  pub delivered : All (EventWithin limit) w.events

module _ (limit : ℕ) where
  pub emit-IsWithin :
      (e : Event) (w : Ws) → EventWithin limit e → IsWithin limit w → IsWithin limit (emit e w)
  emit-IsWithin e w h v = record {
    configured = v.configured;
    unfinished = v.unfinished;
    delivered = All-append (EventWithin limit) w.events (e ∷ []) v.delivered (h, tt);
  }

  pub change_state-IsWithin :
      (s : State) (w : Ws) → IsWithin limit w → IsWithin limit (change_state s w)
  unfolding change_state
  change_state-IsWithin s w v = elim (Bool-cases (state_eq w.state s)) [
    | inl e ↦ rw e v
    | inr e ↦ rw e (
        emit-IsWithin (state_changed s) (record w { state = s }) tt
          (record {
            configured = v.configured;
            unfinished = v.unfinished;
            delivered = v.delivered;
          }))
  ]

  -- Changes of the fields that the invariant does not read.
  pub other_fields :
      (w : Ws) (handshake : Handshake) (buffer : List ℕ) (opcode ignore pings sends : ℕ)
      (closed : Bool) (state : State)
      → IsWithin limit w
      → IsWithin limit (record w {
        handshake = handshake;
        buffer = buffer;
        partial_opcode = opcode;
        ignore_length = ignore;
        outstanding_pings = pings;
        sends = sends;
        close_sent = closed;
        state = state;
      })
  other_fields w handshake buffer opcode ignore pings sends closed state v = record {
    configured = v.configured;
    unfinished = v.unfinished;
    delivered = v.delivered;
  }

  pub outgoing-IsWithin :
      (env : Env) (out : List ℕ) (w : Ws)
      → IsWithin limit w
      → Leaves (IsWithin limit) (outgoing env out w)
  unfolding outgoing
  outgoing-IsWithin env out w v =
      elim (env.lower_send w.sends)
        as (λ r. Leaves (IsWithin limit) (elim r [
          | LowerReply.accepted all ↦ ok all (emit (sent out) (record w { sends = w.sends + 1 }))
          | LowerReply.thrown ↦
              threw websocket_client.Handshake.std_exception (record w { sends = w.sends + 1 })
        ])) [
          | LowerReply.accepted all ↦
              emit-IsWithin (sent out) (record w { sends = w.sends + 1 }) tt
                (other_fields w w.handshake w.buffer w.partial_opcode w.ignore_length
                  w.outstanding_pings (w.sends + 1) w.close_sent w.state v)
          | LowerReply.thrown ↦
              other_fields w w.handshake w.buffer w.partial_opcode w.ignore_length
                w.outstanding_pings (w.sends + 1) w.close_sent w.state v
        ]

  pub send_frame-IsWithin :
      (env : Env) (f : Frame) (w : Ws)
      → IsWithin limit w
      → Leaves (IsWithin limit) (send_frame env f w)
  unfolding send_frame
  send_frame-IsWithin env f w v =
      outgoing-IsWithin env _ _
        (elim f.mask
          as (λ m. IsWithin limit (
            if m
            then record w {
              buffer =
                  write_back f.at (websocket_client.Ws.Frame.masked (env.random_key w.sends) f)
                    w.buffer;
            }
            else w)) [
              | true ↦
                  other_fields w w.handshake _ w.partial_opcode w.ignore_length w.outstanding_pings
                    w.sends w.close_sent w.state v
              | false ↦ v
            ])

  recv-IsWithin :
      (type : MessageType) (content : List ℕ) (w : Ws)
      → length content ≤ limit
      → IsWithin limit w
      → IsWithin limit (recv type content w)
  recv-IsWithin type content w h v =
      emit-IsWithin (received (record { type = type; content = content })) w h v

  partial-IsWithin :
      (partial : List ℕ) (opcode : ℕ) (w : Ws)
      → length partial ≤ limit
      → IsWithin limit w
      → IsWithin limit (record w { partial = partial; partial_opcode = opcode })
  partial-IsWithin partial opcode w h v = record {
    configured = v.configured;
    unfinished = h;
    delivered = v.delivered;
  }

  flush_partial-IsWithin :
      (w : Ws)
      → IsWithin limit w
      → IsWithin limit (flush_partial w) × (length (flush_partial w).partial ≤ 0)
  unfolding flush_partial
  flush_partial-IsWithin w v = go w.partial refl
    where
      go :
          (p : List ℕ)
          → w.partial ≡ p
          → IsWithin limit (flush_partial w) × (length (flush_partial w).partial ≤ 0)
      go [] e = rw (flush_partial, e) (v, omega (arith, ap length e))
      go (b ∷ bytes) e =
          rw (flush_partial, e)
            (
              partial-IsWithin [] w.partial_opcode
                  (recv (message_type w.partial_opcode) (b ∷ bytes) w) (omega arith)
                  (recv-IsWithin (message_type w.partial_opcode) (b ∷ bytes) w
                    (omega (arith, v.unfinished, ap length e)) v),
              omega arith,
            )

  pub recv_data-IsWithin : (f : Frame) (w : Ws) → IsWithin limit w → IsWithin limit (recv_data f w)
  unfolding recv_data
  recv_data-IsWithin f w v =
      let payload = take (min (length f.payload) w.max_message_size) f.payload in
      let small : length payload ≤ limit =
        omega (
          arith,
          length-take (min (length f.payload) w.max_message_size) f.payload,
          v.configured,
        ) in
      let (flushed, none_left) = flush_partial-IsWithin w v in
      let w1 = record (flush_partial w) { partial_opcode = f.opcode } in
      let v1 : IsWithin limit w1 =
        partial-IsWithin (flush_partial w).partial f.opcode (flush_partial w) flushed.unfinished
          flushed in
      elim f.fin
        as (λ fin. IsWithin limit (
          if fin
          then recv (message_type f.opcode) payload w1
          else record w1 { partial = w1.partial ++ payload })) [
            | true ↦ recv-IsWithin (message_type f.opcode) payload w1 small v1
            | false ↦
                partial-IsWithin (w1.partial ++ payload) f.opcode w1
                  (omega (arith, length-append w1.partial payload)) v1
          ]

  pub recv_continuation-IsWithin :
      (f : Frame) (w : Ws) → IsWithin limit w → IsWithin limit (recv_continuation f w)
  unfolding recv_continuation
  recv_continuation-IsWithin f w v =
      let whole = w.partial ++ f.payload in
      let kept =
        if ltb w.max_message_size (length whole) then take w.max_message_size whole else whole in
      let small : length kept ≤ limit =
        ground (arith, length-take w.max_message_size whole, v.configured) in
      elim f.fin
        as (λ fin. IsWithin limit (
          if fin
          then record (recv (message_type w.partial_opcode) kept w) { partial = [] }
          else record w { partial = kept })) [
            | true ↦
                partial-IsWithin [] w.partial_opcode (recv (message_type w.partial_opcode) kept w)
                  (omega arith) (recv-IsWithin (message_type w.partial_opcode) kept w small v)
            | false ↦ partial-IsWithin kept w.partial_opcode w small v
          ]

  pub if-IsWithin :
      {x y : Ws} (b : Bool)
      → IsWithin limit x
      → IsWithin limit y
      → IsWithin limit (if b then x else y)
  if-IsWithin true p q = p
  if-IsWithin false p q = q

  pub if-Leaves :
      (b : Bool) (x y : Result Bool)
      → Leaves (IsWithin limit) x
      → Leaves (IsWithin limit) y
      → Leaves (IsWithin limit) (if b then x else y)
  if-Leaves true x y p q = p
  if-Leaves false x y p q = q
