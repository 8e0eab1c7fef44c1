-- ===== src/Client/Life.antt =====
-- The transports and the queue of a `WebSocket` of src/impl/websocketimpl.cpp: the functions that the
-- steps are made of.
use mathlib.Core.Path.{subst}
use websocket_client.Common.{
  ℕ, ◌+◌, ◌≡◌, refl, ap, sym, ◌∙◌, Bool, true, false, ◌&&◌, Option, none, some, List, [], ◌∷◌,
  if◌then◌else◌, Bool-cases, Option-cases, inl, inr, ◌⊎◌,
}
use websocket_client.Message.{Message, to_variant}
use websocket_client.Client.{
  ready_eq, closed, Env, delivered, started, stopped, Client, Outcome, done, threw, emit,
  flush_from, flush_pending_messages, close, remote_close, Member, tcp, proxy, tls, ws, load, store,
  emplace_transport, guarded, set_tcp_transport, init_on, caught,
}
use websocket_client.Client.Steps.{
  IsConsistent, emit-IsConsistent, if-IsConsistent, finish_close-IsConsistent, close-IsConsistent,
}

abbrev pub Both : Outcome → Type 0
Both (done w) = IsConsistent w
Both (threw w) = IsConsistent w

pub remote_close-IsConsistent :
    (env : Env) (w : Client) → IsConsistent w → IsConsistent (remote_close env w)
unfolding remote_close
remote_close-IsConsistent env w v =
    finish_close-IsConsistent (close env w) (close-IsConsistent env w v)

flush_from-IsConsistent :
    (queue : List Message) (w : Client) → IsConsistent w → IsConsistent (flush_from queue w)
unfolding flush_from
flush_from-IsConsistent [] w v = v
flush_from-IsConsistent (m ∷ queue) w v =
    let w1 = record w { recv_queue = queue } in
    let v1 : IsConsistent w1 = record { released = v.released; counted = v.counted } in
    flush_from-IsConsistent queue (emit (delivered (to_variant m)) w1)
      (emit-IsConsistent (delivered (to_variant m)) w1 (refl, refl) v1)

pub flush_pending-IsConsistent :
    (w : Client) → IsConsistent w → IsConsistent (flush_pending_messages w)
unfolding flush_pending_messages
flush_pending-IsConsistent w v =
    if-IsConsistent (w.open_triggered && w.has_message_callback)
      (flush_from-IsConsistent w.recv_queue w v) v

-- A transport is put into or taken from a client that is not closed, or taken from any.
store-IsConsistent :
    (member : Member) (t : Option ℕ) (n : ℕ) (w : Client)
    → (ready_eq w.state closed ≡ false) ⊎ (t ≡ none)
    → IsConsistent w
    → IsConsistent (store member t (record w { next_transport = n }))
store-IsConsistent tcp t n w (inl k) v = record { released = λ h. absurd cc; counted = v.counted }
store-IsConsistent proxy t n w (inl k) v = record { released = λ h. absurd cc; counted = v.counted }
store-IsConsistent tls t n w (inl k) v = record { released = λ h. absurd cc; counted = v.counted }
store-IsConsistent ws t n w (inl k) v = record { released = λ h. absurd cc; counted = v.counted }
store-IsConsistent tcp t n w (inr k) v = record {
  released = λ h. (k, (v.released h).1, (v.released h).2);
  counted = v.counted;
}
store-IsConsistent proxy t n w (inr k) v = record { released = v.released; counted = v.counted }
store-IsConsistent tls t n w (inr k) v = record {
  released = λ h. ((v.released h).0, k, (v.released h).2);
  counted = v.counted;
}
store-IsConsistent ws t n w (inr k) v = record {
  released = λ h. ((v.released h).0, (v.released h).1, k);
  counted = v.counted;
}

-- Started and taken out again.
cleared :
    (member : Member) (id : ℕ) (w : Client)
    → IsConsistent w
    → IsConsistent (
        emit (stopped id) (
          store member none
            (emit (started id) (store member (some id) (record w { next_transport = id + 1 })))))
cleared tcp id w v =
    emit-IsConsistent (stopped id) _ (refl, refl)
      (emit-IsConsistent (started id) _ (refl, refl)
        (store-IsConsistent tcp none (id + 1) w (inr refl) v))
cleared proxy id w v =
    emit-IsConsistent (stopped id) _ (refl, refl)
      (emit-IsConsistent (started id) _ (refl, refl)
        (store-IsConsistent proxy none (id + 1) w (inr refl) v))
cleared tls id w v =
    emit-IsConsistent (stopped id) _ (refl, refl)
      (emit-IsConsistent (started id) _ (refl, refl)
        (store-IsConsistent tls none (id + 1) w (inr refl) v))
cleared ws id w v =
    emit-IsConsistent (stopped id) _ (refl, refl)
      (emit-IsConsistent (started id) _ (refl, refl)
        (store-IsConsistent ws none (id + 1) w (inr refl) v))

state-store : (member : Member) (t : Option ℕ) (w : Client) → (store member t w).state ≡ w.state
state-store tcp t w = refl
state-store proxy t w = refl
state-store tls t w = refl
state-store ws t w = refl

pub if-Both : (b : Bool) (x y : Outcome) → Both x → Both y → Both (if b then x else y)
if-Both true x y p q = p
if-Both false x y p q = q

emplace_transport-Both :
    (env : Env) (member : Member) (w : Client)
    → IsConsistent w
    → Both (emplace_transport env member w)
unfolding emplace_transport
emplace_transport-Both env member w v =
    let id = w.next_transport in
    let w1 = emit (started id) (store member (some id) (record w { next_transport = id + 1 })) in
    let gone : Client = emit (stopped id) (store member none w1) in
    let gone_v : IsConsistent gone = cleared member id w v in
    let same : w1.state ≡ w.state =
      state-store member (some id) (record w { next_transport = id + 1 }) in
    if-Both (env.start_throws id) (threw gone)
      (if ready_eq w1.state closed then done gone else done w1) gone_v
      (elim (Bool-cases (ready_eq w1.state closed)) [
        | inl e ↦ subst (λ b. Both (if b then done gone else done w1)) (sym e) gone_v
        | inr e ↦
            let alive : ready_eq w.state closed ≡ false =
              ap (λ s. ready_eq s closed) (sym same) ∙ e in
            subst (λ b. Both (if b then done gone else done w1)) (sym e)
              (emit-IsConsistent (started id) _ (refl, refl)
                (store-IsConsistent member (some id) (id + 1) w (inl alive) v))
      ])

guarded-Both : (env : Env) (o : Outcome) → Both o → Both (guarded env o)
unfolding guarded
guarded-Both env (done w) v = v
guarded-Both env (threw w) v = remote_close-IsConsistent env w v

pub set_tcp_transport-Both :
    (env : Env) (w : Client) → IsConsistent w → Both (set_tcp_transport env w)
unfolding set_tcp_transport
set_tcp_transport-Both env w v = elim (Option-cases w.tcp_transport) [
  | inl n ↦
      rw (set_tcp_transport, n)
        (guarded-Both env (emplace_transport env tcp w) (emplace_transport-Both env tcp w v))
  | inr (id, n) ↦ rw (set_tcp_transport, n) (guarded-Both env (threw w) v)
]

pub init_on-Both :
    (env : Env) (member lower : Member) (w : Client)
    → IsConsistent w
    → Both (init_on env member lower w)
unfolding init_on
init_on-Both env member lower w v = elim (Option-cases (load member w)) [
  | inr (id, n) ↦ rw (init_on, n) v
  | inl n ↦ elim (Option-cases (load lower w)) [
    | inl l ↦ rw (init_on, n, l) (guarded-Both env (threw w) v)
    | inr (id, l) ↦
        rw (init_on, n, l)
          (guarded-Both env (emplace_transport env member w)
            (emplace_transport-Both env member w v))
  ]
]

pub caught-IsConsistent : (o : Outcome) → Both o → IsConsistent (caught o)
caught-IsConsistent (done w) v = v
caught-IsConsistent (threw w) v = v
