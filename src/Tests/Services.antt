-- ===== src/Tests/Services.antt =====
-- The theorems on connecting and on the services at concrete inputs.
use websocket_client.Common.{
  ℕ, ◌+◌, ◌≡◌, refl, arith, true, false, Option, some, none, List, [], ◌∷◌, ◌≤◌, length, ◌==◌,
  if◌then◌else◌, ◌>>=◌,
}
use websocket_client.Common.Maps.{IsMap}
use websocket_client.Poll.{
  Poll, Reaction, Called, Event, SocketEntry, Direction, removing, prepare, round,
}
use websocket_client.Poll.Deadline.{IsNext, prepare-IsNext}
use websocket_client.Poll.Expiry.{round-expired}
use websocket_client.Tcp.Dial.{Net, Dial, new_dial, start, run, ready, timeout}
use websocket_client.Tcp.Dial.Ends.{Ended, started, start-ends}

-- Three addresses: the time for the first ends, the second one accepts.
abbrev three_addresses : Net
three_addresses = record {
  addresses = some (7 ∷ 8 ∷ 9 ∷ []);
  opens = λ a. true;
  configures = λ a. true;
  connects = λ a. true;
  answer = λ a. if a == 7 then timeout else ready (some 0);
}

start-ends_example :
    (w' : Dial) × ((start new_dial >>= run three_addresses 9) ≡ some w')
    × Ended three_addresses (7 ∷ 8 ∷ 9 ∷ []) (started three_addresses) w'
start-ends_example = start-ends three_addresses 9 (omega arith)

-- Two sockets with a deadline, and one without; a callback unregisters its socket, which has the
-- same number.
abbrev entry : ℕ → Option ℕ → SocketEntry
entry callback until = record {
  params = record { direction = Direction.both; timeout = none; callback = callback };
  until = until;
}

abbrev service : Poll
service = record {
  socks = (4, entry 4 (some 30)) ∷ (5, entry 5 none) ∷ (6, entry 6 (some 20)) ∷ [];
  stopped = false;
  interrupts = 0;
  readings = 0;
  calls = [];
}

abbrev leaves : ℕ → Event → List Called → Reaction
leaves callback event calls = record { actions = removing callback ∷ []; throws = false }

service-IsMap : IsMap service.socks
service-IsMap = (refl, (refl, (refl, tt)))

prepare-IsNext_example : IsNext service.socks (prepare service).1
prepare-IsNext_example = prepare-IsNext service service-IsMap

round-expired_example :
    length service.calls + 1 ≤ length (round (λ i. 25) leaves (λ p. p) service).calls
unfolding prepare
round-expired_example =
    round-expired (λ i. 25) leaves service 20 service-IsMap refl (λ i. omega arith)
