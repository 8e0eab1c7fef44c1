-- ===== src/Tcp/Dial.antt =====
-- How the class `TcpTransport` of src/impl/tcptransport.cpp connects: the host is resolved, and each
-- of its addresses is tried. The resolver, the sockets and the answers of poll are parameters.
pub mod Steps
pub mod Ends
use websocket_client.Common.{
  ℕ, zero, suc, ◌+◌, Bool, true, false, not, ◌&&◌, Option, none, some, List, [], ◌∷◌, ◌++◌,
  if◌then◌else◌, ◌==◌,
}
use websocket_client.Transport.{State, state_eq}

-- What poll answers for a socket that connects: an error, the end of the time, or that it is ready
-- to write, with what `getsockopt` tells: nothing where it fails, or the error code of the socket.
pub data Answer : Type 0 where
  error timeout : Answer
  ready : Option ℕ → Answer

-- An address is a number. `opens`, `configures` and `connects` tell whether `::socket`,
-- `configureSocket` and `::connect` go well for it, the last also where it is in progress.
pub record Net : Type 0 where
  pub addresses : Option (List ℕ)
  pub opens : ℕ → Bool
  pub configures : ℕ → Bool
  pub connects : ℕ → Bool
  pub answer : ℕ → Answer

-- The tasks of the thread pool.
pub data Task : Type 0 where
  resolving attempting : Task

-- What a socket is registered for at the poll service: the callback of `attempt`, or `process`.
pub data Watch : Type 0 where
  connecting : ℕ → ℕ → Watch
  receiving : ℕ → Watch

-- `sock` is the number of the socket; `created` counts the sockets, and numbers them. `open_sockets`
-- and `tried` are what the operating system has seen: the sockets that are open, and the addresses.
-- `changes` has the calls of the state callback.
pub record Dial : Type 0 where
  pub state : State
  pub sock : Option ℕ
  pub resolved : List ℕ
  pub tasks : List Task
  pub watch : Option Watch
  pub created : ℕ
  pub open_sockets : List ℕ
  pub tried : List ℕ
  pub changes : List State

-- A transport made for a host.
abbrev pub new_dial : Dial
new_dial = record {
  state = State.disconnected;
  sock = none;
  resolved = [];
  tasks = [];
  watch = none;
  created = 0;
  open_sockets = [];
  tried = [];
  changes = [];
}

unfoldable pub change_state : State → Dial → Dial
change_state s w =
    if state_eq w.state s then w else record w { state = s; changes = w.changes ++ (s ∷ []) }

abbrev pub enqueue : Task → Dial → Dial
enqueue task w = record w { tasks = w.tasks ++ (task ∷ []) }

-- `::closesocket`
abbrev pub close_socket : ℕ → List ℕ → List ℕ
close_socket fd [] = []
close_socket fd (s ∷ sockets) =
    let rest = close_socket fd sockets in if s == fd then rest else s ∷ rest

-- `setPoll` with the direction in; there is always a socket where it is called.
abbrev pub set_poll : Dial → Dial
set_poll w = elim w.sock [ none ↦ w | some fd ↦ record w { watch = some (receiving fd) } ]

-- `connect`; `none` where it throws.
unfoldable pub connect : Dial → Option Dial
connect w =
    if state_eq w.state State.connecting
    then none
    else if state_eq w.state State.connected
    then none
    else some (enqueue resolving (change_state State.connecting w))

-- `start`
unfoldable pub start : Dial → Option Dial
start w = elim w.sock [
  | none ↦ connect w
  | some fd ↦ some (set_poll (change_state State.connected w))
]

module _ (net : Net) where
  unfoldable pub resolve : Dial → Dial
  resolve w =
      let cleared = record w { resolved = [] } in
      if not (state_eq w.state State.connecting) then cleared else elim net.addresses [
        | none ↦ change_state State.failed cleared
        | some addresses ↦ enqueue attempting (record cleared { resolved = addresses })
      ]

  -- `createSocket`: whether it returned, or threw.
  unfoldable pub create_socket : ℕ → Dial → Bool × Dial
  create_socket address w =
      let fd = w.created in
      let seen = record w { tried = w.tried ++ (address ∷ []) } in
      let opened = record seen {
        sock = some fd;
        created = fd + 1;
        open_sockets = fd ∷ w.open_sockets;
      } in
      let closed = record opened {
        sock = none;
        open_sockets = close_socket fd opened.open_sockets;
      } in
      if not (net.opens address)
      then (false, record seen { sock = none })
      else if not (net.configures address)
      then (false, closed)
      else if not (net.connects address)
      then (false, closed)
      else (true, opened)

  -- The socket is added to the poll service.
  abbrev pub watch_connecting : ℕ → Dial → Dial
  watch_connecting address w = elim w.sock [
    | none ↦ w
    | some fd ↦ record w { watch = some (connecting fd address) }
  ]

  -- `attempt` from the front of the list on; `::closesocket` of an invalid socket does nothing.
  unfoldable pub attempt : Dial → Dial
  attempt w = if not (state_eq w.state State.connecting) then w else elim w.resolved [
    | [] ↦ change_state State.failed w
    | address ∷ rest ↦
        let (returned, w1) = create_socket address (record w { resolved = rest }) in
        if returned then watch_connecting address w1 else enqueue attempting w1
  ]

  -- The callback that `attempt` registers.
  abbrev pub fail_attempt : Dial → Dial
  fail_attempt w = enqueue attempting (record w { watch = none })

  unfoldable pub on_answer : Answer → Dial → Dial
  on_answer error w = fail_attempt w
  on_answer timeout w = fail_attempt w
  on_answer (ready none) w = fail_attempt w
  on_answer (ready (some err)) w =
      if err == 0 then set_poll (change_state State.connected w) else fail_attempt w

  -- What happens next: the first task runs, or poll answers for the socket that connects; `none`
  -- if there is nothing to wait for.
  unfoldable pub next : Dial → Option Dial
  next w = elim w.tasks [
    | resolving ∷ tasks ↦ some (resolve (record w { tasks = tasks }))
    | attempting ∷ tasks ↦ some (attempt (record w { tasks = tasks }))
    | [] ↦ elim w.watch [
      | some (connecting fd address) ↦ some (on_answer (net.answer address) w)
      | some (receiving fd) ↦ none
      | none ↦ none
    ]
  ]

  -- `none` where the fuel runs out.
  unfoldable pub run : ℕ → Dial → Option Dial
  run zero w = none
  run (suc fuel) w = elim (next w) [ none ↦ some w | some w' ↦ run fuel w' ]
