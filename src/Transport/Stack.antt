-- ===== src/Transport/Stack.antt =====
-- The class `Transport` of src/impl/transport.cpp, one object on another: the lowest one first. Here no
-- class overrides `incoming`, `outgoing`, `start` and `stop`.
use websocket_client.Common.{
  ℕ, zero, suc, ◌≡◌, ◌<◌, ◌≤◌, arith, refl, Bool, true, false, Option, none, some, List, [], ◌∷◌,
  ◌++◌, if◌then◌else◌, Bool-cases, inl, inr,
}
use websocket_client.Transport.{State, disconnected, state_eq}

-- What `mRecvCallback` is set to: nothing, the next transport's `incoming`, or another function.
pub data Receiver : Type 0 where
  nobody above : Receiver
  function : ℕ → Receiver

-- `reported` has the calls of the state callback, which is there or not.
pub record Layer : Type 0 where
  pub state : State
  pub recv_callback : Receiver
  pub has_state_callback : Bool
  pub reported : List State

-- The constructor.
abbrev pub new_layer : Bool → Layer
new_layer callback = record {
  state = disconnected;
  recv_callback = nobody;
  has_state_callback = callback;
  reported = [];
}

-- `onRecv` of the transport at a position.
unfoldable pub on_recv : ℕ → Receiver → List Layer → List Layer
on_recv k receiver [] = []
on_recv zero receiver (l ∷ ls) = record l { recv_callback = receiver } ∷ ls
on_recv (suc k) receiver (l ∷ ls) = l ∷ on_recv k receiver ls

-- `registerIncoming` and `unregisterIncoming`: the lowest transport has no lower one.
abbrev pub register_incoming : ℕ → List Layer → List Layer
register_incoming zero ls = ls
register_incoming (suc k) ls = on_recv k above ls

abbrev pub unregister_incoming : ℕ → List Layer → List Layer
unregister_incoming zero ls = ls
unregister_incoming (suc k) ls = on_recv k nobody ls

abbrev pub start : ℕ → List Layer → List Layer
start k ls = register_incoming k ls

abbrev pub stop : ℕ → List Layer → List Layer
stop k ls = unregister_incoming k ls

-- The destructor also stops the lower transport.
abbrev pub destroy : ℕ → List Layer → List Layer
destroy zero ls = ls
destroy (suc k) ls = stop k (unregister_incoming (suc k) ls)

-- `recv` of the lowest of the transports: the function that gets the message, if one does.
unfoldable pub recv : List Layer → Option ℕ
recv [] = none
recv (l ∷ ls) = elim l.recv_callback [ nobody ↦ none | above ↦ recv ls | function f ↦ some f ]

-- `send` of the topmost transport goes down to the lowest one, which has nowhere to send to.
abbrev pub outgoing : List Layer → Bool
outgoing [] = false
outgoing (l ∷ ls) = false

-- `changeState`
unfoldable pub change_state : State → Layer → Layer
change_state s l =
    let reported = if l.has_state_callback then l.reported ++ (s ∷ []) else l.reported in
    if state_eq l.state s then l else record l { state = s; reported = reported }

-- All transports up to a position are started, from the second one on.
abbrev pub start_all : ℕ → List Layer → List Layer
start_all zero ls = ls
start_all (suc k) ls = start (suc k) (start_all k ls)

-- The first transports pass on to the next ones.
abbrev pub Passes : ℕ → List Layer → Type 0
Passes zero ls = Unit
Passes (suc k) [] = true ≡ false
Passes (suc k) (l ∷ ls) = (l.recv_callback ≡ above) × Passes k ls

-- The function of the transport at a position.
abbrev pub Hears : ℕ → ℕ → List Layer → Type 0
Hears f k [] = true ≡ false
Hears f zero (l ∷ ls) = l.recv_callback ≡ function f
Hears f (suc k) (l ∷ ls) = Hears f k ls

-- Where all below pass on, the function of the transport above them gets the message.
pub recv-Passes : (f k : ℕ) (ls : List Layer) → Passes k ls → Hears f k ls → recv ls ≡ some f
unfolding recv
recv-Passes f zero [] p h = absurd cc
recv-Passes f zero (l ∷ ls) p h = rw (recv, h) refl
recv-Passes f (suc k) [] p h = absurd cc
recv-Passes f (suc k) (l ∷ ls) p h = rw (recv, p.0) (recv-Passes f k ls p.1 h)

-- A transport that was stopped, and those above it, get nothing more from those that pass on to it.
pub recv-stop : (k : ℕ) (ls : List Layer) → Passes k ls → recv (stop (suc k) ls) ≡ none
unfolding recv on_recv
recv-stop zero [] p = refl
recv-stop zero (l ∷ ls) p = refl
recv-stop (suc k) [] p = absurd cc
recv-stop (suc k) (l ∷ ls) p = rw (recv, p.0) (recv-stop k ls p.1)

state_eq_refl : (s : State) → state_eq s s ≡ true
state_eq_refl State.disconnected = refl
state_eq_refl State.connecting = refl
state_eq_refl State.connected = refl
state_eq_refl State.completed = refl
state_eq_refl State.failed = refl

change_state_same : (s : State) (l : Layer) → state_eq l.state s ≡ true → change_state s l ≡ l
unfolding change_state
change_state_same s l e = rw (change_state, e) refl

change_state_reached : (s : State) (l : Layer) → state_eq (change_state s l).state s ≡ true
unfolding change_state
change_state_reached s l = elim (Bool-cases (state_eq l.state s)) [
  | inl e ↦ rw (change_state, e) e
  | inr e ↦ rw (change_state, e) (state_eq_refl s)
]

-- Changing to the state that was just changed to does and reports nothing.
pub change_state_twice :
    (s : State) (l : Layer) → change_state s (change_state s l) ≡ change_state s l
change_state_twice s l = change_state_same s (change_state s l) (change_state_reached s l)

-- Registering the transport above a position, below one with a function.
on_recv-Passes :
    (f k n : ℕ) (ls : List Layer)
    → k < n
    → Passes k ls
    → Hears f n ls
    → Passes (suc k) (on_recv k above ls) × Hears f n (on_recv k above ls)
unfolding on_recv
on_recv-Passes f k zero ls lt p h = absurd (omega arith)
on_recv-Passes f k (suc n) [] lt p h = absurd cc
on_recv-Passes f zero (suc n) (l ∷ ls) lt p h = ((refl, tt), h)
on_recv-Passes f (suc k) (suc n) (l ∷ ls) lt p h =
    let (passes, hears) = on_recv-Passes f k n ls (omega arith) p.1 h in ((p.0, passes), hears)

start_all-Passes :
    (f k n : ℕ) (ls : List Layer)
    → k ≤ n
    → Hears f n ls
    → Passes k (start_all k ls) × Hears f n (start_all k ls)
start_all-Passes f zero n ls le h = (tt, h)
start_all-Passes f (suc k) n ls le h =
    let (passes, hears) = start_all-Passes f k n ls (omega arith) h in
    on_recv-Passes f k n (start_all k ls) (omega arith) passes hears

-- Once all transports are started, a message that the lowest one receives reaches the function of
-- the topmost one, whatever they had before; and once one of them but the lowest is stopped, none.
pub recv-start_all :
    (f n : ℕ) (ls : List Layer)
    → Hears f n ls
    → (recv (start_all n ls) ≡ some f)
      × ((k : ℕ) → k < n → recv (stop (suc k) (start_all n ls)) ≡ none)
recv-start_all f n ls h =
    let (passes, hears) = start_all-Passes f n n ls (omega arith) h in
    (
      recv-Passes f n (start_all n ls) passes hears,
      λ k lt. recv-stop k (start_all n ls) (fewer k n (start_all n ls) (omega arith) passes),
    )
  where
    fewer : (k n : ℕ) (ls : List Layer) → k ≤ n → Passes n ls → Passes k ls
    fewer zero n ls le p = tt
    fewer (suc k) zero ls le p = absurd (omega arith)
    fewer (suc k) (suc n) [] le p = p
    fewer (suc k) (suc n) (l ∷ ls) le p = (p.0, fewer k n ls (omega arith) p.1)
