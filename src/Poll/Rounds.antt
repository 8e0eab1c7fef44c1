-- ===== src/Poll/Rounds.antt =====
-- The rounds of src/impl/pollservice.cpp: what the callbacks may not break, and the round in which
-- `::poll` returned since the time was over.
use websocket_client.Common.{
  ℕ, ◌+◌, ◌≤◌, arith, Bool, true, false, List, [], ◌∷◌, ◌++◌, map, length, length-append,
  Option-cases, inl, inr, ◌||◌, if-holds, if◌then◌else◌,
}
use websocket_client.Common.Maps.{lookup, insert, erase, IsMap, insert-IsMap, erase-IsMap}
use websocket_client.Poll.{
  Event, SocketEntry, Called, Poll, Reaction, Action, adding, removing, PollFd, prepare, remove,
  add, act, error, timeout, in_event, out_event, call, catching, call_ready, expired, has_error,
  process, process_one, process_entry, round,
}

-- What every change of the service keeps.
pub record IsKept (P : Poll → Type 0) : Type 0 where
  by_insert :
      (sock : ℕ) (entry : SocketEntry) (w : Poll)
      → P w
      → P (record w { socks = insert sock entry w.socks })
  by_erase : (sock : ℕ) (w : Poll) → P w → P (record w { socks = erase sock w.socks })
  by_call : (c : Called) (w : Poll) → P w → P (record w { calls = w.calls ++ (c ∷ []) })
  by_count : (i r : ℕ) (w : Poll) → P w → P (record w { interrupts = i; readings = r })

IsMap-IsKept : IsKept (λ w. IsMap w.socks)
IsMap-IsKept = record {
  by_insert = λ sock entry w h. insert-IsMap sock entry w.socks h;
  by_erase = λ sock w h. erase-IsMap sock w.socks h;
  by_call = λ c w h. h;
  by_count = λ i r w h. h;
}

-- So many calls were made at least.
pub calls-IsKept : (n : ℕ) → IsKept (λ w. n ≤ length w.calls)
calls-IsKept n = record {
  by_insert = λ sock entry w h. h;
  by_erase = λ sock w h. h;
  by_call = λ c w h. omega (arith, h, length-append w.calls (c ∷ []));
  by_count = λ i r w h. h;
}

module _ (clock : ℕ → ℕ) (reacts : ℕ → Event → List Called → Reaction) (P : Poll → Type 0)
    (kept : IsKept P) where
  pub act-kept : (actions : List Action) (w : Poll) → P w → P (act clock reacts actions w)
  unfolding add remove
  act-kept [] w h = h
  act-kept (adding sock params ∷ actions) w h =
      act-kept actions (add clock reacts sock params w)
        (kept.by_count (w.interrupts + 1) (w.readings + 1) _ (kept.by_insert sock _ w h))
  act-kept (removing sock ∷ actions) w h =
      act-kept actions (remove sock w)
        (kept.by_count (w.interrupts + 1) w.readings _ (kept.by_erase sock w h))

  pub call-kept :
      (sock callback : ℕ) (event : Event) (w : Poll)
      → P w
      → P (call clock reacts sock callback event w).1
  unfolding call
  call-kept sock callback event w h =
      act-kept (reacts callback event w.calls).actions _ (kept.by_call _ w h)

  pub catching-kept : (sock : ℕ) (r : Bool × Poll) → P r.1 → P (catching clock reacts sock r)
  catching-kept sock (true, w) h = kept.by_erase sock w h
  catching-kept sock (false, w) h = h

  call_ready-kept :
      (p : PollFd) (callback : ℕ) (w : Poll) → P w → P (call_ready clock reacts p callback w).1
  unfolding call_ready
  call_ready-kept p callback w h =
      let first =
        if p.in_flag || p.hup then call clock reacts p.fd callback in_event w else (false, w) in
      let k : P first.1 =
        if-holds (λ (r : Bool × Poll). P r.1) (p.in_flag || p.hup) _ _
          (call-kept p.fd callback in_event w h) h in
      if-holds (λ (r : Bool × Poll). P r.1) first.0 _ _ k
        (if-holds (λ (r : Bool × Poll). P r.1) p.out_flag _ _
          (call-kept p.fd callback out_event first.1 k) k)

  process_entry-kept :
      (p : PollFd) (entry : SocketEntry) (w : Poll) → P w → P (process_entry clock reacts p entry w)
  unfolding process_entry
  process_entry-kept p entry w h =
      let callback = entry.params.callback in
      if-holds P (has_error clock reacts p) _ _
        (catching-kept p.fd _ (call-kept p.fd callback error _ (kept.by_erase p.fd w h)))
        (if-holds P (p.in_flag || p.out_flag || p.hup) _ _
          (catching-kept p.fd _ (
            call_ready-kept p callback _
              (kept.by_count w.interrupts (w.readings + 1) _ (kept.by_insert p.fd _ w h))))
          (if-holds P (expired clock reacts entry.until (clock w.readings)) _ _
            (catching-kept p.fd _ (
              call-kept p.fd callback timeout _
                (kept.by_count w.interrupts (w.readings + 1) _ (kept.by_erase p.fd w h))))
            (kept.by_count w.interrupts (w.readings + 1) w h)))

  process_one-kept : (p : PollFd) (w : Poll) → P w → P (process_one clock reacts p w)
  unfolding process_one
  process_one-kept p w h = elim (Option-cases (lookup p.fd w.socks)) [
    | inl e ↦ simp (process_one, e) h
    | inr (entry, e) ↦ simp (process_one, e) (process_entry-kept p entry w h)
  ]

  pub process-kept : (pfds : List PollFd) (w : Poll) → P w → P (process clock reacts pfds w)
  process-kept [] w h = h
  process-kept (p ∷ pfds) w h =
      process-kept pfds (process_one clock reacts p w) (process_one-kept p w h)

module _ (clock : ℕ → ℕ) (reacts : ℕ → Event → List Called → Reaction) where
  -- No socket is registered twice after any rounds, whatever the callbacks do.
  pub round-IsMap :
      (set_flags : PollFd → PollFd) (w : Poll)
      → IsMap w.socks
      → IsMap (round clock reacts set_flags w).socks
  unfolding round
  round-IsMap set_flags w h =
      process-kept clock reacts (λ v. IsMap v.socks) IsMap-IsKept (map set_flags (prepare w).0) w h
