-- ===== src/Ws/Chunks/Extend.antt =====
-- `WsTransport::recvFrame` of src/impl/wstransport.cpp with more bytes at the end of the buffer.
use websocket_client.Common.{
  ℕ, ◌+◌, ◌≤◌, ◌≡◌, refl, arith, Option, none, some, List, ◌++◌, append_assoc, length,
  length-append, length-take, length-drop, take, drop, take-append, drop-append, Bool-cases, inl,
  inr,
}
use websocket_client.Transport.{State, state_eq}
use websocket_client.Ws.Frame.{Frame, masked, pong_frame}
use websocket_client.Ws.Frame.RoundTrip.{length-masked}
use websocket_client.Ws.Core.{Env, Ws, Result, ok, threw, change_state, outgoing}
use websocket_client.Ws.Send.{write_back, send_frame, close, control}
use websocket_client.Ws.Receive.{flush_partial, recv_data, recv_continuation, recv_frame}

abbrev pub extend : List ℕ → Ws → Ws
extend bytes w = record w { buffer = w.buffer ++ bytes }

abbrev pub map_result {ℓ} : {A : Type ℓ} → (Ws → Ws) → Result A → Result A
map_result f (ok a w) = ok a (f w)
map_result f (threw e w) = threw e (f w)

-- What holds of the state that a method leaves, whether it returns or throws.
abbrev pub Leaves {ℓ κ} : {A : Type ℓ} → (Ws → Type κ) → Result A → Type κ
Leaves P (ok a w) = P w
Leaves P (threw e w) = P w

-- Handling a frame keeps the size of the buffer, and the bytes to ignore.
abbrev pub SameSize : Ws → Ws → Type 0
SameSize w w1 = (length w1.buffer ≡ length w.buffer) × (w1.ignore_length ≡ w.ignore_length)

-- A frame whose payload lies in the buffer, or elsewhere.
abbrev pub InBuffer : Option ℕ → ℕ → List ℕ → Type 0
InBuffer none size buffer = Unit
InBuffer (some offset) size buffer = offset + size ≤ length buffer

write_back-append :
    (at : Option ℕ) (payload buffer bytes : List ℕ)
    → InBuffer at (length payload) buffer
    → write_back at payload (buffer ++ bytes) ≡ write_back at payload buffer ++ bytes
unfolding write_back
write_back-append none payload buffer bytes h = refl
write_back-append (some offset) payload buffer bytes h =
    rw
      (
        take-append offset buffer bytes (omega arith),
        drop-append (offset + length payload) buffer bytes h,
      )
      (simp append_assoc)

length-write_back :
    (at : Option ℕ) (payload buffer : List ℕ)
    → InBuffer at (length payload) buffer
    → length (write_back at payload buffer) ≡ length buffer
unfolding write_back
length-write_back none payload buffer h = refl
length-write_back (some offset) payload buffer h = omega (
  arith,
  length-append (take offset buffer) (payload ++ drop (offset + length payload) buffer),
  length-append payload (drop (offset + length payload) buffer),
  length-take offset buffer,
  length-drop (offset + length payload) buffer,
)

module _ (bytes : List ℕ) where
  change_state-extend :
      (s : State) (w : Ws) → change_state s (extend bytes w) ≡ extend bytes (change_state s w)
  unfolding change_state
  change_state-extend s w = elim (Bool-cases (state_eq w.state s)) [ inl e ↦ rw e | inr e ↦ rw e ]

  outgoing-extend :
      (env : Env) (out : List ℕ) (w : Ws)
      → outgoing env out (extend bytes w) ≡ map_result (extend bytes) (outgoing env out w)
  unfolding outgoing
  outgoing-extend env out w = ground arith

  flush_partial-extend : (w : Ws) → flush_partial (extend bytes w) ≡ extend bytes (flush_partial w)
  unfolding flush_partial
  flush_partial-extend w = ground arith

  recv_data-extend :
      (f : Frame) (w : Ws) → recv_data f (extend bytes w) ≡ extend bytes (recv_data f w)
  unfolding recv_data flush_partial
  recv_data-extend f w = ground arith

  recv_continuation-extend :
      (f : Frame) (w : Ws)
      → recv_continuation f (extend bytes w) ≡ extend bytes (recv_continuation f w)
  unfolding recv_continuation
  recv_continuation-extend f w = ground arith

  send_frame-extend :
      (env : Env) (f : Frame) (w : Ws)
      → InBuffer f.at (length (masked (env.random_key w.sends) f)) w.buffer
      → send_frame env f (extend bytes w) ≡ map_result (extend bytes) (send_frame env f w)
  unfolding send_frame outgoing
  send_frame-extend env f w h =
      ground (arith, write_back-append f.at (masked (env.random_key w.sends) f) w.buffer bytes h)

  close-extend : (env : Env) (w : Ws) → close env (extend bytes w) ≡ extend bytes (close env w)
  unfolding close send_frame outgoing change_state write_back
  close-extend env w = ground arith

  -- A frame is handled alike with bytes behind it in the buffer, and those bytes stay behind it.
  pub recv_frame-extend :
      (env : Env) (f : Frame) (w : Ws)
      → InBuffer f.at (length f.payload) w.buffer
      → recv_frame env f (extend bytes w) ≡ map_result (extend bytes) (recv_frame env f w)
  unfolding recv_frame
  recv_frame-extend env f w h =
      let pong = control pong_frame f.payload w.is_client f.at in
      let fits : InBuffer f.at (length (masked (env.random_key w.sends) pong)) w.buffer =
        rw (length-masked (env.random_key w.sends) pong) h in
      ground (
        arith,
        recv_data-extend f w,
        recv_continuation-extend f w,
        send_frame-extend env pong w fits,
        close-extend env w,
        change_state-extend State.disconnected (close env w),
      )

change_state-SameSize : (s : State) (w : Ws) → SameSize w (change_state s w)
unfolding change_state
change_state-SameSize s w = ground arith

close-SameSize : (env : Env) (w : Ws) → SameSize w (close env w)
unfolding close send_frame outgoing write_back change_state
close-SameSize env w = ground arith

recv_data-SameSize : (f : Frame) (w : Ws) → SameSize w (recv_data f w)
unfolding recv_data flush_partial
recv_data-SameSize f w = ground arith

recv_continuation-SameSize : (f : Frame) (w : Ws) → SameSize w (recv_continuation f w)
unfolding recv_continuation
recv_continuation-SameSize f w = ground arith

send_frame-SameSize :
    (env : Env) (f : Frame) (w : Ws)
    → InBuffer f.at (length (masked (env.random_key w.sends) f)) w.buffer
    → Leaves (SameSize w) (send_frame env f w)
unfolding send_frame outgoing
send_frame-SameSize env f w h =
    ground (arith, length-write_back f.at (masked (env.random_key w.sends) f) w.buffer h)

-- Handling a frame keeps the size of the buffer, also when the answer to a ping is masked in it.
pub recv_frame-SameSize :
    (env : Env) (f : Frame) (w : Ws)
    → InBuffer f.at (length f.payload) w.buffer
    → Leaves (SameSize w) (recv_frame env f w)
unfolding recv_frame
recv_frame-SameSize env f w h =
    let pong = control pong_frame f.payload w.is_client f.at in
    let fits : InBuffer f.at (length (masked (env.random_key w.sends) pong)) w.buffer =
      rw (length-masked (env.random_key w.sends) pong) h in
    ground (
      arith,
      recv_data-SameSize f w,
      recv_continuation-SameSize f w,
      send_frame-SameSize env pong w fits,
      close-SameSize env w,
      change_state-SameSize State.disconnected (close env w),
    )
