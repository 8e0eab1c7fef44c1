-- ===== src/Ws/Wire.antt =====
-- What `incoming` of src/impl/wstransport.cpp makes of the bytes of whole messages.
use websocket_client.Common.{
  ℕ, zero, suc, ◌+◌, ◌^◌, ◌≤◌, ◌<◌, ◌≡◌, ◌≢◌, refl, ap, ap₂, sym, ◌∙◌, arith, Bool, true, Option,
  some, List, [], ◌∷◌, ◌++◌, length, length-append, take_of_le, drop, drop-length-append,
  append_assoc, min, All, inl, inr, ◌⊎◌,
}
use websocket_client.Message.{MessageType, Message}
use websocket_client.Transport.{State}
use websocket_client.Ws.Frame.{
  Frame, parse_frame, parse_header, frame_bytes, text_frame, binary_frame,
}
use websocket_client.Ws.Frame.RoundTrip.Whole.{parse_frame-frame_bytes, front}
use websocket_client.Ws.Core.{Env, Ws, ok, threw, Event, sent, recv}
use websocket_client.Ws.Send.{send, message_frame, data_opcode}
use websocket_client.Ws.Receive.{flush_partial, recv_data, recv_frame, message_type}
use websocket_client.Ws.Incoming.{incoming, frame_loop, after_frame, drop_ignored, drain}
use websocket_client.Ws.Chunks.Whole.{incoming_connected, finish}
use websocket_client.Ws.Chunks.Extend.{extend}
use websocket_client.Ws.Chunks.Loop.{in_place, after_frame-next, loop_next, loop_incomplete}

-- A message that fits the receiver's limit, text or binary.
abbrev pub IsData : MessageType → Type 0
IsData type = (type ≡ MessageType.string) ⊎ (type ≡ MessageType.binary)

abbrev pub Fits : ℕ → Message → Type 0
Fits limit m = IsData m.type × (length m.content ≤ limit) × (length m.content < 2 ^ 63)

-- The receiver's state after the messages: each handed over once, in order.
abbrev pub delivered_all : List Message → Ws → Ws
delivered_all [] w = w
delivered_all (m ∷ ms) w =
    delivered_all ms (recv m.type m.content (record w { partial_opcode = data_opcode m.type }))

-- The bytes of the messages, each under its own key.
abbrev pub wire : (ℕ → List ℕ) → Bool → ℕ → List Message → List ℕ
wire keys mask i [] = []
wire keys mask i (m ∷ ms) = frame_bytes (keys i) (message_frame mask m) ++ wire keys mask (i + 1) ms

pub flush_partial-empty : (w : Ws) → w.partial ≡ [] → flush_partial w ≡ w
unfolding flush_partial
flush_partial-empty w e = simp (flush_partial, e)

-- A final data frame with no unfinished message before it.
pub recv_data-whole :
    (f : Frame) (w : Ws)
    → w.partial ≡ []
    → f.fin ≡ true
    → length f.payload ≤ w.max_message_size
    → recv_data f w
      ≡ recv (message_type f.opcode) f.payload (record w { partial_opcode = f.opcode })
unfolding recv_data
recv_data-whole f w empty last fits =
    rw
      (
        recv_data,
        flush_partial-empty w empty,
        last,
        take_of_le (min (length f.payload) w.max_message_size) f.payload (omega arith),
      )
      refl

-- The application sends one message after the other.
abbrev pub send_all : Env → List Message → Ws → Ws
send_all env [] w = w
send_all env (m ∷ ms) w = elim (send env (some m) w) [
  | ok all w1 ↦ send_all env ms w1
  | threw e w1 ↦ send_all env ms w1
]

-- The bytes that went to the lower transport so far.
abbrev pub sent_bytes : List Event → List ℕ
sent_bytes [] = []
sent_bytes (sent bytes ∷ events) = bytes ++ sent_bytes events
sent_bytes (event ∷ events) = sent_bytes events

pub recv_frame-message :
    (env : Env) (mask : Bool) (m : Message) (at : Option ℕ) (w : Ws)
    → w.partial ≡ []
    → IsData m.type
    → length m.content ≤ w.max_message_size
    → recv_frame env (record (message_frame mask m) { at = at }) w
      ≡ ok true (recv m.type m.content (record w { partial_opcode = data_opcode m.type }))
unfolding recv_frame
recv_frame-message env mask m at w empty kind fits =
    let read : (o : ℕ)
        → recv_data (record (message_frame mask m) { opcode = o; at = at }) w
          ≡ recv (message_type o) m.content (record w { partial_opcode = o }) =
      λ o.
        recv_data-whole (record (message_frame mask m) { opcode = o; at = at }) w empty refl fits in
    elim kind [
      | inl e ↦ rw (recv_frame, e) (ap (ok true) (read text_frame))
      | inr e ↦ rw (recv_frame, e) (ap (ok true) (read binary_frame))
    ]

pub opcode_small : (type : MessageType) → data_opcode type < 16
opcode_small MessageType.string = omega arith
opcode_small MessageType.binary = omega arith
opcode_small MessageType.control = omega arith
opcode_small MessageType.reset = omega arith

module _ (env : Env) (keys : ℕ → List ℕ) (key_size : (i : ℕ) → length (keys i) ≡ 4)
    (mask : Bool) where
  wire_ne : (i : ℕ) (ms : List Message) → ms ≢ [] → wire keys mask i ms ≢ []
  unfolding frame_bytes
  wire_ne i [] h = absurd (h refl)
  wire_ne i (m ∷ ms) h = λ e. cc

  frame_loop-wire :
      (fuel i : ℕ) (ms : List Message) (w : Ws)
      → w.partial ≡ []
      → All (Fits w.max_message_size) ms
      → length (wire keys mask i ms) < fuel
      → frame_loop fuel env (in_place w (wire keys mask i ms))
        ≡ ok true (delivered_all ms (in_place w []))
  unfolding parse_frame parse_header frame_bytes
  frame_loop-wire zero i ms w empty fits enough = absurd (omega arith)
  frame_loop-wire (suc fuel) i [] w empty fits enough =
      loop_incomplete env fuel (in_place w []) refl
  frame_loop-wire (suc fuel) i (m ∷ ms) w empty (fit, fits) enough =
      let rest = wire keys mask (i + 1) ms in
      let f = message_frame mask m in
      let head = front (keys i) rest f (opcode_small m.type) (key_size i) (omega (arith, fit.2)) in
      let found =
        parse_frame-frame_bytes (keys i) rest f (opcode_small m.type) (key_size i)
          (omega (arith, fit.2)) w.max_message_size (omega (arith, fit.1)) in
      let b = head ++ (m.content ++ rest) in
      let n = length head + length m.content in
      let w1 =
        recv m.type m.content (record (in_place w b) { partial_opcode = data_opcode m.type }) in
      let handled =
        recv_frame-message env mask m (some (length head)) (in_place w b) empty fit.0 fit.1 in
      let size : length w1.buffer ≡ n + length rest =
        omega (arith, length-append head (m.content ++ rest), length-append m.content rest) in
      let next : frame_loop (suc fuel) env (in_place w (wire keys mask i (m ∷ ms)))
          ≡ frame_loop fuel env (after_frame n w1) =
        loop_next env fuel (in_place w (wire keys mask i (m ∷ ms)))
          (record f { at = some (length head) }) n b found true w1 (ground arith) handled
          (ground (arith, size)) in
      let erased : drop n b ≡ rest =
        ap₂ drop (sym (length-append head m.content)) (sym (append_assoc head m.content rest))
        ∙ drop-length-append (head ++ m.content) rest in
      let shorter : length rest < fuel =
        omega (arith, length-append (frame_bytes (keys i) f) rest) in
      next
      ∙ ap (frame_loop fuel env)
          (after_frame-next n w1 (ground (arith, size)) ∙ ap (in_place w1) erased)
      ∙ frame_loop-wire fuel (i + 1) ms
          (recv m.type m.content (record w { partial_opcode = data_opcode m.type })) empty fits
          shorter

  drain-clean :
      (w : Ws) → w.ignore_length ≡ 0 → drain env w ≡ frame_loop (suc (length w.buffer)) env w
  unfolding drain drop_ignored
  drain-clean w h = simp (drain, drop_ignored, h)

  -- All messages whose frames arrive in one read are handed over, each once, unchanged and in order.
  pub incoming-wire :
      (i : ℕ) (ms : List Message) (w : Ws)
      → w.state ≡ State.connected
      → w.buffer ≡ []
      → w.partial ≡ []
      → w.ignore_length ≡ 0
      → All (Fits w.max_message_size) ms
      → ms ≢ []
      → incoming env (some (wire keys mask i ms)) w ≡ delivered_all ms w
  incoming-wire i ms w connected clean empty none_left fits some_ms =
      let bytes = wire keys mask i ms in
      let clean_state : in_place w [] ≡ w = sym (λ j. record w { buffer = clean j }) in
      let appended : extend bytes w ≡ in_place w bytes =
        λ j. record w { buffer = clean j ++ bytes } in
      let drained : drain env (extend bytes w)
          ≡ frame_loop (suc (length bytes)) env (in_place w bytes) =
        ap (drain env) appended ∙ drain-clean (in_place w bytes) none_left in
      incoming_connected env w bytes connected (wire_ne i ms some_ms)
      ∙ ap (finish env) (
          drained
          ∙ frame_loop-wire (suc (length bytes)) i ms w empty fits (omega arith)
          ∙ ap (λ s. ok true (delivered_all ms s)) clean_state)
