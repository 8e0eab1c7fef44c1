-- ===== src/Poll.antt =====
-- The class `PollService` of src/impl/pollservice.cpp: the registered sockets, their deadlines, and
-- one round of its loop. `::poll`, the clock and what the callbacks do are parameters; a callback
-- may register and unregister sockets, since the mutex is recursive, and may throw.
pub mod Deadline
pub mod Rounds
pub mod Expiry
use websocket_client.Common.{
  ℕ, ◌+◌, ◌-◌, min, Bool, true, false, not, ◌&&◌, ◌||◌, Option, none, some, List, [], ◌∷◌, ◌++◌,
  map, if◌then◌else◌, leb,
}
use websocket_client.Common.Maps.{lookup, insert, erase}

pub data Direction : Type 0 where
  both in_only out_only : Direction

-- `Event`; `None` is never given.
pub data Event : Type 0 where
  error timeout in_event out_event : Event

-- A callback is a number.
pub record Params : Type 0 where
  pub direction : Direction
  pub timeout : Option ℕ
  pub callback : ℕ

pub record SocketEntry : Type 0 where
  pub params : Params
  pub until : Option ℕ

-- A call of a callback.
pub record Called : Type 0 where
  pub sock : ℕ
  pub callback : ℕ
  pub event : Event

-- `readings` counts the times the clock may be read, and `interrupts` the calls of the interrupter.
pub record Poll : Type 0 where
  pub socks : List (ℕ × SocketEntry)
  pub stopped : Bool
  pub interrupts : ℕ
  pub readings : ℕ
  pub calls : List Called

-- What a callback does before it returns or throws.
pub data Action : Type 0 where
  adding : ℕ → Params → Action
  removing : ℕ → Action

pub record Reaction : Type 0 where
  pub actions : List Action
  pub throws : Bool

-- `struct pollfd`: what is asked for, and the flags that `::poll` sets.
pub record PollFd : Type 0 where
  pub fd : ℕ
  pub asks_in : Bool
  pub asks_out : Bool
  pub nval : Bool
  pub err : Bool
  pub hup : Bool
  pub in_flag : Bool
  pub out_flag : Bool

-- `start`, and `join` up to the end of the thread.
unfoldable pub start : Poll → Poll
start w = record w { socks = []; stopped = false }

unfoldable pub join : Poll → Poll
join w =
    if w.stopped then w else record w { stopped = true; interrupts = w.interrupts + 1; socks = [] }

unfoldable pub remove : ℕ → Poll → Poll
remove sock w = record w { socks = erase sock w.socks; interrupts = w.interrupts + 1 }

abbrev pub asks : ℕ → Direction → PollFd
asks sock direction = record {
  fd = sock;
  asks_in = elim direction [ Direction.out_only ↦ false | _ ↦ true ];
  asks_out = elim direction [ Direction.in_only ↦ false | _ ↦ true ];
  nval = false;
  err = false;
  hup = false;
  in_flag = false;
  out_flag = false;
}

-- The smaller one of two deadlines, where there are any.
abbrev pub sooner : Option ℕ → Option ℕ → Option ℕ
sooner next none = next
sooner none (some u) = some u
sooner (some n) (some u) = some (min n u)

-- The loop of `prepare`, without the interrupter's own descriptor.
abbrev pub prepare_from : Option ℕ → List (ℕ × SocketEntry) → List PollFd × Option ℕ
prepare_from next [] = ([], next)
prepare_from next ((sock, entry) ∷ socks) =
    let (pfds, last) = prepare_from (sooner next entry.until) socks in
    (asks sock entry.params.direction ∷ pfds, last)

unfoldable pub prepare : Poll → List PollFd × Option ℕ
prepare w = prepare_from none w.socks

-- The time for `::poll`, in clock ticks of a millisecond; `none` waits for ever.
unfoldable pub poll_timeout : ℕ → Option ℕ → Option ℕ
poll_timeout now none = none
poll_timeout now (some next) = some ((next + 1) - now)

module _ (clock : ℕ → ℕ) (reacts : ℕ → Event → List Called → Reaction) where
  abbrev pub deadline : Params → ℕ → Option ℕ
  deadline params reading = elim params.timeout [
    | none ↦ none
    | some duration ↦ some (clock reading + duration)
  ]

  unfoldable pub add : ℕ → Params → Poll → Poll
  add sock params w = record w {
    socks = insert sock (record { params = params; until = deadline params w.readings }) w.socks;
    readings = w.readings + 1;
    interrupts = w.interrupts + 1;
  }

  abbrev pub act : List Action → Poll → Poll
  act [] w = w
  act (adding sock params ∷ actions) w = act actions (add sock params w)
  act (removing sock ∷ actions) w = act actions (remove sock w)

  -- A call of a callback: whether it threw.
  unfoldable pub call : ℕ → ℕ → Event → Poll → Bool × Poll
  call sock callback event w =
      let reaction = reacts callback event w.calls in
      let called : Called = record { sock = sock; callback = callback; event = event } in
      (reaction.throws, act reaction.actions (record w { calls = w.calls ++ (called ∷ []) }))

  -- The handler of exceptions of `process`.
  abbrev pub catching : ℕ → Bool × Poll → Poll
  catching sock (true, w) = record w { socks = erase sock w.socks }
  catching sock (false, w) = w

  abbrev pub has_error : PollFd → Bool
  has_error p = p.nval || p.err || (p.hup && not p.asks_in)

  -- The two callbacks, the second one if the first did not throw.
  unfoldable pub call_ready : PollFd → ℕ → Poll → Bool × Poll
  call_ready p callback w =
      let (threw, w1) = if p.in_flag || p.hup then call p.fd callback in_event w else (false, w) in
      if threw
      then (true, w1)
      else if p.out_flag
      then call p.fd callback out_event w1
      else (false, w1)

  abbrev pub expired : Option ℕ → ℕ → Bool
  expired none now = false
  expired (some u) now = leb u now

  -- One round of the loop of `process`, for a registered socket. The clock is read for a deadline.
  unfoldable pub process_entry : PollFd → SocketEntry → Poll → Poll
  process_entry p entry w =
      let callback = entry.params.callback in
      let dropped = record w { socks = erase p.fd w.socks } in
      let read = record w { readings = w.readings + 1 } in
      let renewed = record read {
        socks = insert p.fd (record entry { until = deadline entry.params w.readings }) w.socks;
      } in
      if has_error p
      then catching p.fd (call p.fd callback error dropped)
      else if p.in_flag || p.out_flag || p.hup
      then catching p.fd (call_ready p callback renewed)
      else if expired entry.until (clock w.readings)
      then catching p.fd (call p.fd callback timeout (record dropped { readings = w.readings + 1 }))
      else read

  unfoldable pub process_one : PollFd → Poll → Poll
  process_one p w = elim (lookup p.fd w.socks) [ none ↦ w | some entry ↦ process_entry p entry w ]

  -- `process`, without the interrupter's own descriptor.
  abbrev pub process : List PollFd → Poll → Poll
  process [] w = w
  process (p ∷ pfds) w = process pfds (process_one p w)

  -- One round of `runLoop` in which `::poll` succeeds and sets the flags.
  unfoldable pub round : (PollFd → PollFd) → Poll → Poll
  round set_flags w = let (pfds, next) = prepare w in process (map set_flags pfds) w
