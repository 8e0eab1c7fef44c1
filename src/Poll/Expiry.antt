-- ===== src/Poll/Expiry.antt =====
-- The round of src/impl/pollservice.cpp after `::poll` returned since the time was over, and the
-- round in which a socket is ready in both directions.
use mathlib.Core.Bool.{true≢false}
use mathlib.Core.Option.{some-injective, some-ne-none}
use websocket_client.Common.{
  ℕ, ◌+◌, ◌≤◌, ◌≡◌, refl, sym, ap, ◌∙◌, arith, Bool, true, false, Option, none, some, List, [], ◌∷◌,
  ◌++◌, map, length, length-append, append_assoc, Option-cases, Bool-cases, inl, inr, All, ◌==◌,
  ◌||◌,
}
use websocket_client.Common.Maps.{lookup, insert, IsMap}
use websocket_client.Poll.{
  Event, SocketEntry, Called, Poll, Reaction, PollFd, timeout, in_event, out_event, Action, adding,
  removing, add, remove, deadline, has_error, call_ready, prepare_from, sooner, prepare, call, act,
  catching, expired, process, process_one, process_entry, round,
}
use websocket_client.Poll.Deadline.{prepare-IsNext}
use websocket_client.Poll.Rounds.{calls-IsKept, act-kept, catching-kept, process-kept}

-- A descriptor of `prepare` for which no flag was set.
abbrev IsQuiet : PollFd → Type 0
IsQuiet p =
    (p.nval ≡ false)
    × (p.err ≡ false)
    × (p.hup ≡ false)
    × (p.in_flag ≡ false)
    × (p.out_flag ≡ false)

abbrev has_fd : ℕ → List PollFd → Bool
has_fd sock [] = false
has_fd sock (p ∷ pfds) = (p.fd == sock) || has_fd sock pfds

map_id : (pfds : List PollFd) → map (λ p. p) pfds ≡ pfds
map_id [] = refl
map_id (p ∷ pfds) = ap (λ t. p ∷ t) (map_id pfds)

prepare_from-IsQuiet :
    (next : Option ℕ) (socks : List (ℕ × SocketEntry)) → All IsQuiet (prepare_from next socks).0
prepare_from-IsQuiet next [] = tt
prepare_from-IsQuiet next ((sock, entry) ∷ socks) =
    ((refl, refl, refl, refl, refl), prepare_from-IsQuiet (sooner next entry.until) socks)

prepare_from-has_fd :
    (next : Option ℕ) (socks : List (ℕ × SocketEntry)) (sock : ℕ) (entry : SocketEntry)
    → lookup sock socks ≡ some entry
    → has_fd sock (prepare_from next socks).0 ≡ true
prepare_from-has_fd next [] sock entry e = absurd (some-ne-none entry (sym e))
prepare_from-has_fd next ((s, first) ∷ socks) sock entry e =
    ground (arith, e, prepare_from-has_fd (sooner next first.until) socks sock entry)

module _ (clock : ℕ → ℕ) (reacts : ℕ → Event → List Called → Reaction) where
  -- A callback that is called makes the list of calls longer.
  call-longer :
      (sock callback : ℕ) (event : Event) (w : Poll)
      → length w.calls + 1 ≤ length (call clock reacts sock callback event w).1.calls
  unfolding call
  call-longer sock callback event w =
      act-kept clock reacts (λ v. length w.calls + 1 ≤ length v.calls)
        (calls-IsKept (length w.calls + 1)) (reacts callback event w.calls).actions _
        (omega (arith, length-append w.calls (_ ∷ [])))

  -- A socket without flags: its deadline decides.
  process_entry-expired :
      (p : PollFd) (entry : SocketEntry) (w : Poll)
      → IsQuiet p
      → expired clock reacts entry.until (clock w.readings) ≡ true
      → length w.calls + 1 ≤ length (process_entry clock reacts p entry w).calls
  unfolding process_entry
  process_entry-expired p entry w q e =
      simp (process_entry, q.0, q.1, q.2, q.3, q.4, e)
        (catching-kept clock reacts (λ v. length w.calls + 1 ≤ length v.calls)
          (calls-IsKept (length w.calls + 1)) p.fd _
          (call-longer p.fd entry.params.callback timeout _))

  process_entry-waits :
      (p : PollFd) (entry : SocketEntry) (w : Poll)
      → IsQuiet p
      → expired clock reacts entry.until (clock w.readings) ≡ false
      → process_entry clock reacts p entry w ≡ record w { readings = w.readings + 1 }
  unfolding process_entry
  process_entry-waits p entry w q e = simp (process_entry, q.0, q.1, q.2, q.3, q.4, e)

  -- Some socket in the list has a deadline that is over.
  process-calls :
      (pfds : List PollFd) (w : Poll) (sock n : ℕ) (entry : SocketEntry)
      → All IsQuiet pfds
      → has_fd sock pfds ≡ true
      → lookup sock w.socks ≡ some entry
      → entry.until ≡ some n
      → ((i : ℕ) → n ≤ clock i)
      → length w.calls + 1 ≤ length (process clock reacts pfds w).calls
  unfolding process_one
  process-calls [] w sock n entry q f e d late = absurd (true≢false (sym f))
  process-calls (p ∷ pfds) w sock n entry q f e d late = elim (Option-cases (lookup p.fd w.socks)) [
    | inl none_here ↦
        let other : has_fd sock pfds ≡ true = ground (arith, f, e, none_here) in
        simp (process_one, none_here) (process-calls pfds w sock n entry q.1 other e d late)
    | inr (first, here) ↦ elim (Bool-cases (expired clock reacts first.until (clock w.readings))) [
      | inl over ↦
          simp (process_one, here)
            (process-kept clock reacts (λ v. length w.calls + 1 ≤ length v.calls)
              (calls-IsKept (length w.calls + 1)) pfds _ (process_entry-expired p first w q.0 over))
      | inr waits ↦
          let other : has_fd sock pfds ≡ true = elim (Bool-cases (p.fd == sock)) [
            | inl same ↦
                let k : p.fd ≡ sock = ground (arith, same) in
                let x : first ≡ entry =
                  some-injective first entry (sym here ∙ ap (λ s. lookup s w.socks) k ∙ e) in
                let u : first.until ≡ some n = ap (λ y. y.until) x ∙ d in
                let soon = rw u at waits in absurd (ground (arith, soon, late w.readings))
            | inr other ↦ rw other at f
          ] in
          let read = record w { readings = w.readings + 1 } in
          simp (process_one, here, process_entry-waits p first w q.0 waits)
            (process-calls pfds read sock n entry q.1 other e d late)
    ]
  ]

  -- The round after the time was over.
  pub round-expired :
      (w : Poll) (n : ℕ)
      → IsMap w.socks
      → (prepare w).1 ≡ some n
      → ((i : ℕ) → n ≤ clock i)
      → length w.calls + 1 ≤ length (round clock reacts (λ p. p) w).calls
  unfolding round prepare
  round-expired w n h e late =
      let (sock, entry, f, d) = (prepare-IsNext w h).attained n e in
      let pfds = (prepare_from none w.socks).0 in
      simp (map_id pfds) (
        process-calls pfds w sock n entry (prepare_from-IsQuiet none w.socks)
          (prepare_from-has_fd none w.socks sock entry f) f d late)

  act-calls : (actions : List Action) (w : Poll) → (act clock reacts actions w).calls ≡ w.calls
  unfolding add remove
  act-calls [] w = refl
  act-calls (adding sock params ∷ actions) w = act-calls actions (add clock reacts sock params w)
  act-calls (removing sock ∷ actions) w = act-calls actions (remove sock w)

  call-throws :
      (sock callback : ℕ) (event : Event) (w : Poll)
      → (reacts callback event w.calls).throws ≡ false
      → (call clock reacts sock callback event w).0 ≡ false
  unfolding call
  call-throws sock callback event w e = e

  call-calls :
      (sock callback : ℕ) (event : Event) (w : Poll)
      → (call clock reacts sock callback event w).1.calls
        ≡ w.calls ++ (record { sock = sock; callback = callback; event = event } ∷ [])
  unfolding call
  call-calls sock callback event w = act-calls (reacts callback event w.calls).actions _

  catching-calls : (sock : ℕ) (r : Bool × Poll) → (catching clock reacts sock r).calls ≡ r.1.calls
  catching-calls sock (true, w) = refl
  catching-calls sock (false, w) = refl

  call_ready-both :
      (p : PollFd) (c : ℕ) (w : Poll)
      → p.in_flag ≡ true
      → p.out_flag ≡ true
      → (reacts c in_event w.calls).throws ≡ false
      → call_ready clock reacts p c w
        ≡ call clock reacts p.fd c out_event (call clock reacts p.fd c in_event w).1
  unfolding call_ready
  call_ready-both p c w i o quiet =
      let k : (call clock reacts p.fd c in_event w).0 ≡ false =
        call-throws p.fd c in_event w quiet in
      simp (i, o, k)

  -- The socket is ready in both directions, and the callback for reading does not throw.
  pub process_one-both :
      (p : PollFd) (entry : SocketEntry) (w : Poll)
      → lookup p.fd w.socks ≡ some entry
      → has_error clock reacts p ≡ false
      → p.in_flag ≡ true
      → p.out_flag ≡ true
      → (reacts entry.params.callback in_event w.calls).throws ≡ false
      → (process_one clock reacts p w).calls
        ≡ w.calls
          ++ (record { sock = p.fd; callback = entry.params.callback; event = in_event }
              ∷ record { sock = p.fd; callback = entry.params.callback; event = out_event }
              ∷ [])
  unfolding process_one process_entry
  process_one-both p entry w e ok i o quiet =
      let c = entry.params.callback in
      let renewed = record w {
        socks =
            insert p.fd (record entry { until = deadline clock reacts entry.params w.readings })
              w.socks;
        readings = w.readings + 1;
      } in
      simp (process_one, e, process_entry, ok, i)
        (catching-calls p.fd (call_ready clock reacts p c renewed)
          ∙ ap (λ r. r.1.calls) (call_ready-both p c renewed i o quiet)
          ∙ call-calls p.fd c out_event (call clock reacts p.fd c in_event renewed).1
          ∙ ap (λ t. t ++ (record { sock = p.fd; callback = c; event = out_event } ∷ []))
              (call-calls p.fd c in_event renewed)
          ∙ append_assoc w.calls _ _)
