-- ===== src/Ws/Chunks/Whole.antt =====
-- `WsTransport::incoming` on one message, and on the same bytes in two.
use websocket_client.Common.{
  ℕ, ◌≡◌, ◌≢◌, refl, ap, sym, ◌∙◌, arith, Bool, some, List, [], ◌∷◌, ◌++◌, append_assoc, inl, inr,
}
use websocket_client.Transport.{State}
use websocket_client.Ws.Core.{Env, Ws, Result, ok, threw, change_state}
use websocket_client.Ws.Incoming.{
  drain, handshake_step, connected_step, process, report, fail, incoming,
}
use websocket_client.Ws.Chunks.Extend.{extend}
use websocket_client.Ws.Chunks.Loop.{Settled, Result-cases}
use websocket_client.Ws.Chunks.Split.{drain_more}

-- What `incoming` makes of the result of the `try` block.
abbrev pub finish : Env → Result Bool → Ws
finish env (ok a w) = w
finish env (threw e w) = fail (report env e w)

-- In the connected state, a message that is not empty goes behind the buffer, which is then drained.
pub incoming_connected :
    (env : Env) (w : Ws) (message : List ℕ)
    → w.state ≡ State.connected
    → message ≢ []
    → incoming env (some message) w ≡ finish env (drain env (extend message w))
unfolding incoming process handshake_step connected_step
incoming_connected env w [] s h = absurd (h refl)
incoming_connected env w (b ∷ bytes) s h = ground arith

fail_closes : (w : Ws) → (fail w).state ≢ State.connected
unfolding fail change_state
fail_closes w = ground arith

append_ne : (a b : List ℕ) → a ≢ [] → a ++ b ≢ []
append_ne [] b h = absurd (h refl)
append_ne (x ∷ a) b h = λ e. cc

-- On an open connection, a message of the lower transport gives the same transport, with the same
-- frames handled in the same order, as its bytes in two messages, if after the first the connection
-- is still open and the loop does not wait behind a frame whose size counts to 0 in a `size_t`.
pub incoming-append :
    (env : Env) (w : Ws) (a b : List ℕ)
    → w.state ≡ State.connected
    → a ≢ []
    → b ≢ []
    → (incoming env (some a) w).state ≡ State.connected
    → Settled (incoming env (some a) w)
    → incoming env (some (a ++ b)) w ≡ incoming env (some b) (incoming env (some a) w)
incoming-append env w a b s ha hb open_after settled =
    let first = incoming_connected env w a s ha in
    elim (Result-cases (drain env (extend a w))) [
      | inr (e, w1, r) ↦
          let failed : incoming env (some a) w ≡ fail (report env e w1) = rw (first, r) in
          absurd (fail_closes (report env e w1) (rw failed at open_after))
      | inl (x, w1, r) ↦
          let here : incoming env (some a) w ≡ w1 = rw (first, r) in
          let both : extend (a ++ b) w ≡ extend b (extend a w) =
            λ i. record w { buffer = (sym (append_assoc w.buffer a b)) i } in
          let more : a ++ b ≢ [] = append_ne a b ha in
          incoming_connected env w (a ++ b) s more
          ∙ ap (λ t. finish env (drain env t)) both
          ∙ ap (finish env) (drain_more env b (extend a w) w1 x r (rw here at settled))
          ∙ sym (incoming_connected env w1 b (rw here at open_after) hb)
          ∙ ap (incoming env (some b)) (sym here)
    ]
