-- ===== src/HttpProxy/Tunnel.antt =====
-- The opening of the tunnel in `HttpProxyTransport::incoming` of src/impl/httpproxytransport.cpp.
use websocket_client.Common.{
  ℕ, ◌≡◌, refl, ap, ◌∙◌, arith, false, none, some, List, [], ◌∷◌, ◌++◌, if◌then◌else◌, ◌==◌, length,
  length-append, drop-length-append, append_assoc, All, inl, inr, Bool-cases,
}
use websocket_client.Http.Lines.Complete.{IsLine, block, parse_http_lines-block}
use websocket_client.Handshake.Stream.{read_word, read_unsigned}
use websocket_client.Transport.{State, state_eq}
use websocket_client.HttpProxy.{
  HttpProxy, Event, received, state_changed, change_state, parse_http_response, forward_rest,
  open_tunnel, fail, on_response, read_response, incoming,
}

-- The response code in a status line.
abbrev pub code_of : List ℕ → ℕ
code_of line = read_unsigned (read_word line).1

block_positive : (lines : List (List ℕ)) → (length (block lines) == 0) ≡ false
block_positive [] = refl
block_positive (l ∷ ls) = ground (arith, length-append l (13 ∷ 10 ∷ block ls))

parse_http_response-block :
    (line : List ℕ) (lines : List (List ℕ)) (more : List ℕ)
    → All IsLine (line ∷ lines)
    → parse_http_response (block (line ∷ lines) ++ more)
      ≡ (if code_of line == 200 then some (length (block (line ∷ lines))) else none)
unfolding parse_http_response
parse_http_response-block line lines more good =
    let found = parse_http_lines-block (line ∷ lines) more good in
    rw (parse_http_response, found, block_positive (line ∷ lines))
      (ap (λ (t : ℕ × List (List ℕ)). if code_of line == 200 then some t.0 else none) found)

open_tunnel-append :
    (front more : List ℕ) (w : HttpProxy)
    → open_tunnel (length front) (record w { buffer = front ++ more })
      ≡ forward_rest (change_state State.connected (record w { buffer = more }))
unfolding open_tunnel change_state
open_tunnel-append front more w = elim (Bool-cases (state_eq w.state State.connected)) [
  | inl e ↦ rw (open_tunnel, change_state, e, drop-length-append front more) refl
  | inr e ↦ rw (open_tunnel, change_state, e, drop-length-append front more) refl
]

fail-connecting :
    (w : HttpProxy) → w.state ≡ State.connecting → fail w ≡ change_state State.failed w
unfolding fail
fail-connecting w up = simp (fail, up)

-- What follows the response: one message, if there are any bytes.
abbrev pub first_message : List ℕ → List Event
first_message [] = []
first_message (b ∷ bytes) = received (b ∷ bytes) ∷ []

abbrev tunnel_open : List ℕ → HttpProxy → HttpProxy
tunnel_open more w = record w {
  state = State.connected;
  buffer = [];
  events = w.events ++ (state_changed State.connected ∷ first_message more);
}

abbrev tunnel_failed : List ℕ → HttpProxy → HttpProxy
tunnel_failed bytes w = record w {
  state = State.failed;
  buffer = bytes;
  events = w.events ++ (state_changed State.failed ∷ []);
}

forward_rest-open :
    (more : List ℕ) (w : HttpProxy)
    → w.state ≡ State.connecting
    → forward_rest (change_state State.connected (record w { buffer = more })) ≡ tunnel_open more w
unfolding forward_rest change_state
forward_rest-open [] w up = rw (change_state, up) refl
forward_rest-open (b ∷ bytes) w up =
    rw (change_state, up)
      (ap (λ l. record w { state = State.connected; buffer = []; events = l })
        (append_assoc w.events (state_changed State.connected ∷ []) (received (b ∷ bytes) ∷ [])))

fail-open :
    (bytes : List ℕ) (w : HttpProxy)
    → w.state ≡ State.connecting
    → change_state State.failed (record w { buffer = bytes }) ≡ tunnel_failed bytes w
unfolding change_state
fail-open bytes w up = rw (change_state, up) refl

incoming-connecting :
    (bytes : List ℕ) (w : HttpProxy)
    → w.state ≡ State.connecting
    → incoming (some bytes) w ≡ read_response bytes w
unfolding incoming
incoming-connecting bytes w up = simp (incoming, up)

-- A transport that waits for the response of the proxy and gets it in one message, with any bytes
-- behind it: if the response code is 200, it becomes connected, tells so once, hands the bytes
-- behind the response up, if there are any, as one message, and keeps none; otherwise it becomes
-- failed, tells so once, and keeps all bytes. Nothing else changes.
pub incoming-block :
    (line : List ℕ) (lines : List (List ℕ)) (more : List ℕ) (w : HttpProxy)
    → w.state ≡ State.connecting
    → w.buffer ≡ []
    → All IsLine (line ∷ lines)
    → incoming (some (block (line ∷ lines) ++ more)) w ≡ (
        if code_of line == 200
        then record w {
          state = State.connected;
          buffer = [];
          events = w.events ++ (state_changed State.connected ∷ first_message more);
        }
        else record w {
          state = State.failed;
          buffer = block (line ∷ lines) ++ more;
          events = w.events ++ (state_changed State.failed ∷ []);
        })
incoming-block line lines more w up clean good =
    let whole = block (line ∷ lines) in
    let w1 = record w { buffer = whole ++ more } in
    let found = parse_http_response-block line lines more good in
    let filled : read_response (whole ++ more) w
        ≡ on_response (parse_http_response (whole ++ more)) w1 =
      λ i.
        on_response (parse_http_response (clean i ++ (whole ++ more)))
          (record w { buffer = clean i ++ (whole ++ more) }) in
    let answered : on_response (if code_of line == 200 then some (length whole) else none) w1 ≡ (
        if code_of line == 200
        then forward_rest (change_state State.connected (record w { buffer = more }))
        else change_state State.failed w1) =
      elim (Bool-cases (code_of line == 200)) [
        | inl e ↦ rw (e, block_positive (line ∷ lines)) (open_tunnel-append whole more w)
        | inr e ↦ rw e (fail-connecting w1 up)
      ] in
    let told : (if code_of line == 200
          then forward_rest (change_state State.connected (record w { buffer = more }))
          else change_state State.failed w1)
        ≡ (if code_of line == 200 then tunnel_open more w else tunnel_failed (whole ++ more) w) =
      elim (Bool-cases (code_of line == 200)) [
        | inl e ↦ rw e (forward_rest-open more w up)
        | inr e ↦ rw e (fail-open (whole ++ more) w up)
      ] in
    incoming-connecting (whole ++ more) w up
    ∙ filled
    ∙ ap (λ p. on_response p w1) found
    ∙ answered
    ∙ told
