-- ===== src/Tcp/Dial/Steps.antt =====
-- The steps of connecting in src/impl/tcptransport.cpp, one address after the other.
use mathlib.Core.Bool.{true≢false}
use websocket_client.Common.{
  ℕ, zero, suc, ◌+◌, ◌<◌, ◌≡◌, refl, sym, ap, arith, Bool, true, false, ◌&&◌, Option, none, some,
  List, [], ◌∷◌, ◌++◌, if◌then◌else◌, ◌==◌, All, Bool-cases, inl, inr,
}
use websocket_client.Transport.{State}
use websocket_client.Tcp.Dial.{
  Answer, error, timeout, ready, Net, attempting, connecting, receiving, Dial, close_socket,
  change_state, create_socket, attempt, on_answer, fail_attempt, set_poll, next, run,
}

abbrev pub succeeded : Answer → Bool
succeeded error = false
succeeded timeout = false
succeeded (ready none) = false
succeeded (ready (some err)) = err == 0

module _ (net : Net) where
  -- The address gets a socket that starts to connect, and the connection is made.
  abbrev pub starts : ℕ → Bool
  starts a = net.opens a && net.configures a && net.connects a

  abbrev pub works : ℕ → Bool
  works a = starts a && succeeded (net.answer a)

close_fresh :
    (n : ℕ) (sockets : List ℕ) → All (λ fd. fd < n) sockets → close_socket n sockets ≡ sockets
close_fresh n [] h = refl
close_fresh n (s ∷ sockets) h = ground (arith, h.0, close_fresh n sockets h.1)

close_newest :
    (n : ℕ) (sockets : List ℕ) → All (λ fd. fd < n) sockets → close_socket n (n ∷ sockets) ≡ sockets
close_newest n sockets h = ground (arith, close_fresh n sockets h)

pub All-weaken :
    (n : ℕ) (sockets : List ℕ) → All (λ fd. fd < n) sockets → All (λ fd. fd < n + 1) sockets
All-weaken n [] h = tt
All-weaken n (s ∷ sockets) h = (ground (arith, h.0), All-weaken n sockets h.1)

-- `attempt` is to run for the addresses.
abbrev pub dialling : List ℕ → Option ℕ → ℕ → List ℕ → List ℕ → List State → Dial
dialling addresses sock n sockets tried changes = record {
  state = State.connecting;
  sock = sock;
  resolved = addresses;
  tasks = attempting ∷ [];
  watch = none;
  created = n;
  open_sockets = sockets;
  tried = tried;
  changes = changes;
}

-- Socket `n` connects to the address.
abbrev pub waiting : ℕ → List ℕ → ℕ → List ℕ → List ℕ → List State → Dial
waiting a addresses n sockets tried changes = record {
  state = State.connecting;
  sock = some n;
  resolved = addresses;
  tasks = [];
  watch = some (connecting n a);
  created = n + 1;
  open_sockets = n ∷ sockets;
  tried = tried;
  changes = changes;
}

-- Socket `n` is connected.
abbrev pub connected_with : List ℕ → ℕ → List ℕ → List ℕ → List State → Dial
connected_with addresses n sockets tried changes = record {
  state = State.connected;
  sock = some n;
  resolved = addresses;
  tasks = [];
  watch = some (receiving n);
  created = n + 1;
  open_sockets = n ∷ sockets;
  tried = tried;
  changes = changes ++ (State.connected ∷ []);
}

module _ (net : Net) where
  pub refused_step :
      (a : ℕ) (rest : List ℕ) (sock : Option ℕ) (n : ℕ) (sockets tried : List ℕ)
      (changes : List State)
      → All (λ fd. fd < n) sockets
      → starts net a ≡ false
      → next net (dialling (a ∷ rest) sock n sockets tried changes)
        ≡ some (
            dialling rest none
              (if net.opens a then n + 1 else n)
              sockets
              (tried ++ (a ∷ []))
              changes)
  unfolding next attempt create_socket
  refused_step a rest sock n sockets tried changes fresh e = elim (Bool-cases (net.opens a)) [
    | inl o ↦ elim (Bool-cases (net.configures a)) [
      | inl c ↦
          let c' : net.connects a ≡ false = rw (o, c) at e in
          simp (next, create_socket, o, c, c', close_newest n sockets fresh)
      | inr c ↦ simp (next, create_socket, o, c, close_newest n sockets fresh)
    ]
    | inr o ↦ simp (next, create_socket, o)
  ]

  pub started_step :
      (a : ℕ) (rest : List ℕ) (sock : Option ℕ) (n : ℕ) (sockets tried : List ℕ)
      (changes : List State)
      → starts net a ≡ true
      → next net (dialling (a ∷ rest) sock n sockets tried changes)
        ≡ some (waiting a rest n sockets (tried ++ (a ∷ [])) changes)
  unfolding next attempt create_socket
  started_step a rest sock n sockets tried changes e =
      let o : net.opens a ≡ true = ground (arith, e) in
      let c : net.configures a ≡ true = ground (arith, e) in
      let c' : net.connects a ≡ true = ground (arith, e) in simp (next, create_socket, o, c, c')

  on_answer-failed :
      (x : Answer) (w : Dial) → succeeded x ≡ false → on_answer net x w ≡ fail_attempt net w
  unfolding on_answer
  on_answer-failed error w e = refl
  on_answer-failed timeout w e = refl
  on_answer-failed (ready none) w e = refl
  on_answer-failed (ready (some err)) w e = simp (on_answer, e)

  pub failed_step :
      (a : ℕ) (rest : List ℕ) (n : ℕ) (sockets tried : List ℕ) (changes : List State)
      → succeeded (net.answer a) ≡ false
      → next net (waiting a rest n sockets tried changes)
        ≡ some (dialling rest (some n) (n + 1) (n ∷ sockets) tried changes)
  unfolding next
  failed_step a rest n sockets tried changes e =
      ap some (on_answer-failed (net.answer a) (waiting a rest n sockets tried changes) e)

  on_answer-succeeded :
      (x : Answer) (w : Dial)
      → succeeded x ≡ true
      → on_answer net x w ≡ set_poll (change_state State.connected w)
  unfolding on_answer
  on_answer-succeeded error w e = absurd (true≢false (sym e))
  on_answer-succeeded timeout w e = absurd (true≢false (sym e))
  on_answer-succeeded (ready none) w e = absurd (true≢false (sym e))
  on_answer-succeeded (ready (some err)) w e = simp (on_answer, e)

  pub run-next :
      (fuel : ℕ) (w w1 : Dial) → next net w ≡ some w1 → run net (suc fuel) w ≡ run net fuel w1
  unfolding run
  run-next fuel w w1 e = simp (run, e)

  pub run-last : (fuel : ℕ) (w : Dial) → next net w ≡ none → run net (suc fuel) w ≡ some w
  unfolding run
  run-last fuel w e = simp (run, e)

  pub succeeded_step :
      (a : ℕ) (rest : List ℕ) (n : ℕ) (sockets tried : List ℕ) (changes : List State)
      → succeeded (net.answer a) ≡ true
      → next net (waiting a rest n sockets tried changes)
        ≡ some (connected_with rest n sockets tried changes)
  unfolding next change_state
  succeeded_step a rest n sockets tried changes e =
      ap some (on_answer-succeeded (net.answer a) (waiting a rest n sockets tried changes) e)

  pub connected_last :
      (rest : List ℕ) (n fuel : ℕ) (sockets tried : List ℕ) (changes : List State)
      → 0 < fuel
      → run net fuel (connected_with rest n sockets tried changes)
        ≡ some (connected_with rest n sockets tried changes)
  unfolding run next
  connected_last rest n zero sockets tried changes h = absurd (omega (arith, h))
  connected_last rest n (suc fuel) sockets tried changes h = refl
