-- ===== src/Client/Steps.antt =====
-- Closing a `WebSocket` of src/impl/websocketimpl.cpp, and what is counted of its life.
use websocket_client.Common.{
  ℕ, ◌+◌, ◌≡◌, refl, ap, sym, ◌∙◌, arith, Bool, true, false, ◌||◌, none, List, [], ◌∷◌, ◌++◌,
  if◌then◌else◌, Bool-cases, Option-cases, inl, inr,
}
use websocket_client.Client.{
  ReadyState, ready_eq, connecting, open_state, closing, closed, Env, Event, opening, opened,
  closed_called, error_called, available_called, delivered, started, stopped, torn_down, Client,
  emit, close_transports, finish_close, close,
}

-- Calls of the closed callback, and of `open` past its checks.
abbrev pub closed_count : List Event → ℕ
closed_count [] = 0
closed_count (closed_called ∷ events) = closed_count events + 1
closed_count (e ∷ events) = closed_count events

abbrev pub opening_count : List Event → ℕ
opening_count [] = 0
opening_count (opening ∷ events) = opening_count events + 1
opening_count (e ∷ events) = opening_count events

abbrev pub active : Client → ℕ
active w = if ready_eq w.state closed then 0 else 1

-- A closed client holds no TCP, TLS or WebSocket transport; and each call of `open` past its checks
-- is matched by one call of the closed callback, but the last one as long as the client is not closed.
pub record IsConsistent (w : Client) : Type 0 where
  pub released :
      ready_eq w.state closed ≡ true
      → (w.tcp_transport ≡ none) × (w.tls_transport ≡ none) × (w.ws_transport ≡ none)
  pub counted : closed_count w.events + active w ≡ opening_count w.events

pub closed_count-append :
    (xs ys : List Event) → closed_count (xs ++ ys) ≡ closed_count xs + closed_count ys
closed_count-append [] ys = omega arith
closed_count-append (opening ∷ xs) ys = closed_count-append xs ys
closed_count-append (opened ∷ xs) ys = closed_count-append xs ys
closed_count-append (closed_called ∷ xs) ys = omega (arith, closed_count-append xs ys)
closed_count-append (error_called ∷ xs) ys = closed_count-append xs ys
closed_count-append (available_called ∷ xs) ys = closed_count-append xs ys
closed_count-append (delivered v ∷ xs) ys = closed_count-append xs ys
closed_count-append (started n ∷ xs) ys = closed_count-append xs ys
closed_count-append (stopped n ∷ xs) ys = closed_count-append xs ys
closed_count-append (torn_down t ∷ xs) ys = closed_count-append xs ys

pub opening_count-append :
    (xs ys : List Event) → opening_count (xs ++ ys) ≡ opening_count xs + opening_count ys
opening_count-append [] ys = omega arith
opening_count-append (opening ∷ xs) ys = omega (arith, opening_count-append xs ys)
opening_count-append (opened ∷ xs) ys = opening_count-append xs ys
opening_count-append (closed_called ∷ xs) ys = opening_count-append xs ys
opening_count-append (error_called ∷ xs) ys = opening_count-append xs ys
opening_count-append (available_called ∷ xs) ys = opening_count-append xs ys
opening_count-append (delivered v ∷ xs) ys = opening_count-append xs ys
opening_count-append (started n ∷ xs) ys = opening_count-append xs ys
opening_count-append (stopped n ∷ xs) ys = opening_count-append xs ys
opening_count-append (torn_down t ∷ xs) ys = opening_count-append xs ys

abbrev IsNeutral : Event → Type 0
IsNeutral e = (closed_count (e ∷ []) ≡ 0) × (opening_count (e ∷ []) ≡ 0)

pub emit-IsConsistent :
    (e : Event) (w : Client) → IsNeutral e → IsConsistent w → IsConsistent (emit e w)
emit-IsConsistent e w n v = record {
  released = v.released;
  counted = omega (
    arith,
    v.counted,
    closed_count-append w.events (e ∷ []),
    opening_count-append w.events (e ∷ []),
    n.0,
    n.1,
  );
}

pub close_transports-IsConsistent :
    (w : Client) → IsConsistent w → IsConsistent (close_transports w)
unfolding close_transports
close_transports-IsConsistent w v = elim (Bool-cases (ready_eq w.state closed)) [
  | inl e ↦ rw e v
  | inr e ↦
      let before : closed_count w.events + 1 ≡ opening_count w.events =
        ap (λ b. closed_count w.events + (if b then 0 else 1)) (sym e) ∙ v.counted in
      let torn : Event = torn_down (w.ws_transport ∷ w.tls_transport ∷ w.tcp_transport ∷ []) in
      rw e (record {
        released = λ h. (refl, refl, refl);
        counted = omega (
          arith,
          before,
          closed_count-append (w.events ++ (torn ∷ [])) (closed_called ∷ []),
          closed_count-append w.events (torn ∷ []),
          opening_count-append (w.events ++ (torn ∷ [])) (closed_called ∷ []),
          opening_count-append w.events (torn ∷ []),
        );
      })
]

pub if-IsConsistent :
    {x y : Client} (b : Bool) → IsConsistent x → IsConsistent y → IsConsistent (if b then x else y)
if-IsConsistent true p q = p
if-IsConsistent false p q = q

pub finish_close-IsConsistent : (w : Client) → IsConsistent w → IsConsistent (finish_close w)
unfolding finish_close
finish_close-IsConsistent w v =
    if-IsConsistent (ready_eq w.state closed) v (close_transports-IsConsistent w v)

-- From one state that is not closed to another.
pub moved :
    (s : ReadyState) (w : Client)
    → ready_eq w.state closed ≡ false
    → ready_eq s closed ≡ false
    → IsConsistent w
    → IsConsistent (record w { state = s })
moved s w e k v = record {
  released = λ h. absurd cc;
  counted = ap (λ b. closed_count w.events + (if b then 0 else 1)) (k ∙ sym e) ∙ v.counted;
}

pub close-IsConsistent : (env : Env) (w : Client) → IsConsistent w → IsConsistent (close env w)
unfolding close
close-IsConsistent env w v =
    let w1 = record w { state = closing } in
    elim (Bool-cases (ready_eq w.state connecting || ready_eq w.state open_state)) [
      | inr e ↦ rw e v
      | inl e ↦
          let v1 : IsConsistent w1 = moved closing w (not_closed w.state e) refl v in
          elim (Option-cases w.ws_transport) [
            | inl n ↦ rw (close, e, n) (finish_close-IsConsistent w1 v1)
            | inr (id, n) ↦
                let v2 = emit-IsConsistent (stopped id) w1 (refl, refl) v1 in
                rw (close, e, n)
                  (if-IsConsistent (env.stop_disconnects id)
                    (finish_close-IsConsistent (emit (stopped id) w1) v2) v2)
          ]
    ]
  where
    not_closed :
        (s : ReadyState)
        → (ready_eq s connecting || ready_eq s open_state) ≡ true
        → ready_eq s closed ≡ false
    not_closed connecting h = refl
    not_closed open_state h = refl
    not_closed closing h = refl
    not_closed closed h = absurd cc
