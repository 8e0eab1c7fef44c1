-- ===== src/Client/Proxy.antt =====
-- The proxy transport of a `WebSocket` of src/impl/websocketimpl.cpp when it is closed and opened
-- again.
use websocket_client.Common.{
  ℕ, ◌≡◌, refl, ◌∙◌, arith, Bool, true, ◌||◌, some, Bool-cases, Option-cases, inl, inr,
}
use websocket_client.Transport.{State}
use websocket_client.Client.{
  ready_eq, connecting, open_state, closing, closed, Env, opening, Client, Outcome, done, threw,
  emit, stopped, close_transports, finish_close, close, remote_close, tcp, emplace_transport,
  guarded, set_tcp_transport, caught, init_on, on_tcp_state, open_url,
}

abbrev SameProxy : Client → Client → Type 0
SameProxy w x = (x.proxy_transport ≡ w.proxy_transport) × (x.has_proxy ≡ w.has_proxy)

close_transports-SameProxy : (w : Client) → SameProxy w (close_transports w)
unfolding close_transports
close_transports-SameProxy w = ground arith

finish_close-SameProxy : (w : Client) → SameProxy w (finish_close w)
unfolding finish_close
finish_close-SameProxy w = elim (Bool-cases (ready_eq w.state closed)) [
  | inl e ↦ rw e (refl, refl)
  | inr e ↦ rw e (close_transports-SameProxy w)
]

close-SameProxy : (env : Env) (w : Client) → SameProxy w (close env w)
unfolding close
close-SameProxy env w =
    let w1 = record w { state = closing } in
    elim (Bool-cases (ready_eq w.state connecting || ready_eq w.state open_state)) [
      | inr e ↦ rw e (refl, refl)
      | inl e ↦ elim (Option-cases w.ws_transport) [
        | inl n ↦ rw (close, e, n) (finish_close-SameProxy w1)
        | inr (id, n) ↦ elim (Bool-cases (env.stop_disconnects id)) [
          | inl d ↦ rw (close, e, n, d) (finish_close-SameProxy (emit (stopped id) w1))
          | inr d ↦ rw (close, e, n, d) (refl, refl)
        ]
      ]
    ]

remote_close-SameProxy : (env : Env) (w : Client) → SameProxy w (remote_close env w)
unfolding remote_close
remote_close-SameProxy env w =
    let first = close-SameProxy env w in
    let last = finish_close-SameProxy (close env w) in (last.0 ∙ first.0, last.1 ∙ first.1)

abbrev SameProxyBy : Client → Outcome → Type 0
SameProxyBy w (done x) = SameProxy w x
SameProxyBy w (threw x) = SameProxy w x

guarded-SameProxy :
    (env : Env) (w : Client) (o : Outcome) → SameProxyBy w o → SameProxy w (caught (guarded env o))
unfolding guarded
guarded-SameProxy env w (done x) s = s
guarded-SameProxy env w (threw x) s =
    let closing_it = remote_close-SameProxy env x in (closing_it.0 ∙ s.0, closing_it.1 ∙ s.1)

emplace_tcp-SameProxy : (env : Env) (w : Client) → SameProxyBy w (emplace_transport env tcp w)
unfolding emplace_transport
emplace_tcp-SameProxy env w = elim (Bool-cases (env.start_throws w.next_transport)) [
  | inl t ↦ rw t (refl, refl)
  | inr t ↦ elim (Bool-cases (ready_eq w.state closed)) [
    | inl e ↦ rw (t, e) (refl, refl)
    | inr e ↦ rw (t, e) (refl, refl)
  ]
]

open_url-SameProxy :
    (env : Env) (secure : Bool) (w : Client) → SameProxy w (caught (open_url env secure w))
unfolding open_url set_tcp_transport
open_url-SameProxy env secure w =
    let w1 = emit opening (record w { is_secure = secure; state = connecting }) in
    elim (Bool-cases (ready_eq w.state closed)) [
      | inr e ↦ rw e (refl, refl)
      | inl e ↦ elim (Option-cases w.tcp_transport) [
        | inl n ↦
            rw (open_url, set_tcp_transport, e, n)
              (guarded-SameProxy env w (emplace_transport env tcp w1)
                (emplace_tcp-SameProxy env w1))
        | inr (id, n) ↦
            rw (open_url, set_tcp_transport, e, n) (guarded-SameProxy env w (threw w1) (refl, refl))
      ]
    ]

proxy_up :
    (env : Env) (w : Client) (id : ℕ)
    → w.has_proxy ≡ true
    → w.proxy_transport ≡ some id
    → on_tcp_state env State.connected w ≡ w
unfolding on_tcp_state init_on
proxy_up env w id h p = simp (on_tcp_state, init_on, h, p)

-- A client that goes through a proxy and has had its proxy transport, closed and opened again:
-- when the new TCP connection is up, nothing at all happens, because the old proxy transport,
-- which stands on the closed TCP transport, is still there.
pub on_tcp_state-reopened :
    (env : Env) (secure : Bool) (w : Client) (id : ℕ)
    → w.has_proxy ≡ true
    → w.proxy_transport ≡ some id
    → let reopened = caught (open_url env secure (remote_close env w)) in
      on_tcp_state env State.connected reopened ≡ reopened
on_tcp_state-reopened env secure w id h p =
    let closed_it = remote_close-SameProxy env w in
    let opened_it = open_url-SameProxy env secure (remote_close env w) in
    proxy_up env (caught (open_url env secure (remote_close env w))) id
      (opened_it.1 ∙ closed_it.1 ∙ h) (opened_it.0 ∙ closed_it.0 ∙ p)
