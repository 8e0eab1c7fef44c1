-- ===== src/Ws/Chunks/Loop.antt =====
-- The rounds of the frame loop in `WsTransport::incoming` of src/impl/wstransport.cpp.
use websocket_client.Common.{
  ℕ, zero, suc, ◌-◌, ◌<◌, ◌≡◌, refl, sym, ◌∙◌, arith, Bool, true, false, ◌⊎◌, List, [],
  if◌then◌else◌, length, length-drop, drop, ◌==◌, ltb, Bool-cases, inl, inr,
}
use websocket_client.Ws.Frame.{Frame, Parse, incomplete, parsed, parse_frame}
use websocket_client.Ws.Frame.Stable.{parse_frame_facts}
use websocket_client.Ws.Core.{Env, Ws, Result, ok, threw}
use websocket_client.Ws.Receive.{recv_frame}
use websocket_client.Ws.Incoming.{after_frame, frame_loop}
use websocket_client.Ws.Chunks.Extend.{Leaves, SameSize, InBuffer, recv_frame-SameSize}

-- The loop is not waiting behind a frame whose size counts to 0 in a `size_t`.
abbrev pub Settled : Ws → Type 0
Settled w = parse_frame w.max_message_size w.buffer ≡ incomplete

pub Parse-cases :
    (p : Parse) → (p ≡ incomplete) ⊎ ((f : Frame) × (n : ℕ) × (b : List ℕ) × (p ≡ parsed f n b))
Parse-cases incomplete = inl refl
Parse-cases (parsed f n b) = inr (f, n, b, refl)

pub Result-cases {ℓ} :
    {A : Type ℓ} (r : Result A)
    → ((a : A) × (w : Ws) × (r ≡ ok a w))
      ⊎ ((e : websocket_client.Handshake.Exception) × (w : Ws) × (r ≡ threw e w))
Result-cases (ok a w) = inl (a, w, refl)
Result-cases (threw e w) = inr (e, w, refl)

abbrev pub in_place : Ws → List ℕ → Ws
in_place w b = record w { buffer = b }

module _ (env : Env) (g : ℕ) (w : Ws) where
  pub loop_incomplete : Settled w → frame_loop (suc g) env w ≡ ok true w
  unfolding frame_loop
  loop_incomplete e = rw (frame_loop, e)

  module _ (f : Frame) (n : ℕ) (b : List ℕ)
      (found : parse_frame w.max_message_size w.buffer ≡ parsed f n b) where
    pub loop_stalled : (n == 0) ≡ true → frame_loop (suc g) env w ≡ ok true (in_place w b)
    unfolding frame_loop
    loop_stalled z = rw (frame_loop, found, z)

    pub loop_threw :
        (e : websocket_client.Handshake.Exception) (w1 : Ws)
        → (n == 0) ≡ false
        → recv_frame env f (in_place w b) ≡ threw e w1
        → frame_loop (suc g) env w ≡ threw e w1
    unfolding frame_loop
    loop_threw e w1 z r = rw (frame_loop, found, z, r)

    pub loop_last :
        (a : Bool) (w1 : Ws)
        → (n == 0) ≡ false
        → recv_frame env f (in_place w b) ≡ ok a w1
        → ltb (length w1.buffer) n ≡ true
        → frame_loop (suc g) env w ≡ ok true (after_frame n w1)
    unfolding frame_loop
    loop_last a w1 z r l = rw (frame_loop, found, z, r, l)

    pub loop_next :
        (a : Bool) (w1 : Ws)
        → (n == 0) ≡ false
        → recv_frame env f (in_place w b) ≡ ok a w1
        → ltb (length w1.buffer) n ≡ false
        → frame_loop (suc g) env w ≡ frame_loop g env (after_frame n w1)
    unfolding frame_loop
    loop_next a w1 z r l = rw (frame_loop, found, z, r, l)

-- A round that handles a frame, in one equation.
pub loop_step :
    (env : Env) (g : ℕ) (w : Ws) (f : Frame) (n : ℕ) (b : List ℕ) (a : Bool) (w1 : Ws)
    → parse_frame w.max_message_size w.buffer ≡ parsed f n b
    → (n == 0) ≡ false
    → recv_frame env f (in_place w b) ≡ ok a w1
    → frame_loop (suc g) env w ≡ (
        if ltb (length w1.buffer) n
        then ok true (after_frame n w1)
        else frame_loop g env (after_frame n w1))
loop_step env g w f n b a w1 found z r = elim (Bool-cases (ltb (length w1.buffer) n)) [
  | inl l ↦ rw l (loop_last env g w f n b found a w1 z r l)
  | inr l ↦ rw l (loop_next env g w f n b found a w1 z r l)
]

-- The size and the bytes to ignore after one frame, for the frame that was found in the buffer.
pub step_sizes :
    (env : Env) (w : Ws) (f : Frame) (n : ℕ) (b : List ℕ) (a : Bool) (w1 : Ws)
    → parse_frame w.max_message_size w.buffer ≡ parsed f n b
    → recv_frame env f (in_place w b) ≡ ok a w1
    → (InBuffer f.at (length f.payload) b)
      × (length w1.buffer ≡ length w.buffer)
      × (w1.ignore_length ≡ w.ignore_length)
step_sizes env w f n b a w1 found r =
    let facts = parse_frame_facts w.max_message_size w.buffer f n b found in
    let inside : InBuffer f.at (length f.payload) b = rw facts.placed facts.inside in
    let returned : Result Bool = ok a w1 in
    let kept : Leaves (SameSize (in_place w b)) returned =
      rw r at (recv_frame-SameSize env f (in_place w b) inside) in
    (inside, kept.0 ∙ facts.same_size, kept.1)

pub after_frame-next :
    (n : ℕ) (w : Ws)
    → ltb (length w.buffer) n ≡ false
    → after_frame n w ≡ record w { buffer = drop n w.buffer }
unfolding after_frame
after_frame-next n w h = rw h

pub after_frame-last :
    (n : ℕ) (w : Ws)
    → ltb (length w.buffer) n ≡ true
    → after_frame n w ≡ record w { ignore_length = n - length w.buffer; buffer = [] }
unfolding after_frame
after_frame-last n w h = rw h

-- More fuel than the buffer has bytes changes nothing.
pub frame_loop_fuel :
    (g k : ℕ) (env : Env) (w : Ws)
    → length w.buffer < g
    → length w.buffer < k
    → frame_loop g env w ≡ frame_loop k env w
frame_loop_fuel zero k env w p q = absurd (omega arith)
frame_loop_fuel (suc g) zero env w p q = absurd (omega arith)
frame_loop_fuel (suc g) (suc k) env w p q =
    elim (Parse-cases (parse_frame w.max_message_size w.buffer)) [
      | inl e ↦ loop_incomplete env g w e ∙ sym (loop_incomplete env k w e)
      | inr (f, n, b, e) ↦ elim (Bool-cases (n == 0)) [
        | inl z ↦ loop_stalled env g w f n b e z ∙ sym (loop_stalled env k w f n b e z)
        | inr z ↦ elim (Result-cases (recv_frame env f (in_place w b))) [
          | inr (x, w1, r) ↦
              loop_threw env g w f n b e x w1 z r ∙ sym (loop_threw env k w f n b e x w1 z r)
          | inl (a, w1, r) ↦ elim (Bool-cases (ltb (length w1.buffer) n)) [
            | inl l ↦
                loop_last env g w f n b e a w1 z r l ∙ sym (loop_last env k w f n b e a w1 z r l)
            | inr l ↦
                let sizes = step_sizes env w f n b a w1 e r in
                let less : length (drop n w1.buffer) < length w.buffer =
                  ground (arith, length-drop n w1.buffer) in
                loop_next env g w f n b e a w1 z r l
                ∙ rw (after_frame-next n w1 l) (
                    frame_loop_fuel g k env (record w1 { buffer = drop n w1.buffer }) (omega arith)
                      (omega arith))
                ∙ sym (loop_next env k w f n b e a w1 z r l)
          ]
        ]
      ]
    ]
