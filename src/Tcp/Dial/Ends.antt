-- ===== src/Tcp/Dial/Ends.antt =====
-- Connecting in src/impl/tcptransport.cpp comes to an end: which addresses are tried, how it ends,
-- and which sockets it leaves.
use mathlib.Core.Path.{subst}
use websocket_client.Common.{
  ℕ, zero, suc, ◌+◌, ◌*◌, ◌≤◌, ◌<◌, ◌≡◌, refl, sym, ap, ◌∙◌, arith, Bool, true, false, ◌||◌, Option,
  none, some, List, [], ◌∷◌, ◌++◌, if◌then◌else◌, length, All, append_assoc, append-nil, Bool-cases,
  Option-cases, ◌>>=◌, inl, inr,
}
use websocket_client.Transport.{State}
use websocket_client.Tcp.Dial.{
  Net, resolving, Dial, new_dial, start, connect, change_state, resolve, attempt, next, run,
}
use websocket_client.Tcp.Dial.Steps.{
  succeeded, starts, works, dialling, waiting, connected_with, All-weaken, refused_step,
  started_step, failed_step, succeeded_step, connected_last, run-next, run-last,
}

module _ (net : Net) where
  abbrev pub any_works : List ℕ → Bool
  any_works [] = false
  any_works (a ∷ addresses) = works net a || any_works addresses

  -- The addresses up to the first that works.
  abbrev pub until_works : List ℕ → List ℕ
  until_works [] = []
  until_works (a ∷ addresses) =
      let others = until_works addresses in if works net a then a ∷ [] else a ∷ others

  abbrev pub count_starts : List ℕ → ℕ
  count_starts [] = 0
  count_starts (a ∷ addresses) = (if starts net a then 1 else 0) + count_starts addresses

  -- How it ends for these addresses.
  pub record Ended (addresses : List ℕ) (w w' : Dial) : Type 0 where
    pub final : w'.state ≡ (if any_works addresses then State.connected else State.failed)
    pub reported : w'.changes ≡ w.changes ++ (w'.state ∷ [])
    pub all_tried : w'.tried ≡ w.tried ++ until_works addresses
    pub left_open :
        length w'.open_sockets ≡ length w.open_sockets + count_starts (until_works addresses)

-- The addresses that the resolver gives; none where it fails.
abbrev addresses_of : Option (List ℕ) → List ℕ
addresses_of none = []
addresses_of (some addresses) = addresses

module _ (net : Net) where
  -- An address that does not work, before the others.
  Ended-cons :
      (a : ℕ) (rest : List ℕ) (sock sock' : Option ℕ) (n n' : ℕ) (sockets sockets' tried : List ℕ)
      (changes : List State) (w' : Dial)
      → works net a ≡ false
      → length sockets' ≡ length sockets + (if starts net a then 1 else 0)
      → Ended net rest (dialling rest sock' n' sockets' (tried ++ (a ∷ [])) changes) w'
      → Ended net (a ∷ rest) (dialling (a ∷ rest) sock n sockets tried changes) w'
  Ended-cons a rest sock sock' n n' sockets sockets' tried changes w' e size k = record {
    final = simp e k.final;
    reported = k.reported;
    all_tried = simp e (k.all_tried ∙ append_assoc tried (a ∷ []) (until_works net rest));
    left_open = simp e (omega (arith, size, k.left_open));
  }

  Ended-works :
      (a : ℕ) (rest : List ℕ) (sock : Option ℕ) (n : ℕ) (sockets tried : List ℕ)
      (changes : List State)
      → works net a ≡ true
      → Ended net
          (a ∷ rest)
          (dialling (a ∷ rest) sock n sockets tried changes)
          (connected_with rest n sockets (tried ++ (a ∷ [])) changes)
  Ended-works a rest sock n sockets tried changes e = record {
    final = simp e;
    reported = refl;
    all_tried = simp e;
    left_open = simp e (ground (arith, e));
  }

  run_empty :
      (fuel : ℕ) (sock : Option ℕ) (n : ℕ) (sockets tried : List ℕ) (changes : List State)
      → let w = dialling [] sock n sockets tried changes in
        (w' : Dial) × (run net (suc (suc fuel)) w ≡ some w') × Ended net [] w w'
  unfolding run next attempt change_state
  run_empty fuel sock n sockets tried changes = (
    _,
    refl,
    record {
      final = refl;
      reported = refl;
      all_tried = sym (append-nil tried);
      left_open = omega arith;
    },
  )

  -- The run ends, whatever was done before.
  run_ends :
      (addresses : List ℕ) (fuel : ℕ) (sock : Option ℕ) (n : ℕ) (sockets tried : List ℕ)
      (changes : List State)
      → All (λ fd. fd < n) sockets
      → length addresses * 2 + 2 ≤ fuel
      → let w = dialling addresses sock n sockets tried changes in
        (w' : Dial) × (run net fuel w ≡ some w') × Ended net addresses w w'
  run_ends [] zero sock n sockets tried changes fresh h = absurd (omega (arith, h))
  run_ends [] (suc zero) sock n sockets tried changes fresh h = absurd (omega (arith, h))
  run_ends [] (suc (suc fuel)) sock n sockets tried changes fresh h =
      run_empty fuel sock n sockets tried changes
  run_ends (a ∷ rest) zero sock n sockets tried changes fresh h = absurd (omega (arith, h))
  run_ends (a ∷ rest) (suc zero) sock n sockets tried changes fresh h = absurd (omega (arith, h))
  run_ends (a ∷ rest) (suc (suc fuel)) sock n sockets tried changes fresh h =
      let tried' = tried ++ (a ∷ []) in
      let more = All-weaken n sockets fresh in
      elim (Bool-cases (starts net a)) [
        | inl e ↦
            let first =
              run-next net (suc fuel) (dialling (a ∷ rest) sock n sockets tried changes)
                (waiting a rest n sockets tried' changes)
                (started_step net a rest sock n sockets tried changes e) in
            elim (Bool-cases (succeeded (net.answer a))) [
              | inl s ↦ (
                connected_with rest n sockets tried' changes,
                first
                    ∙ run-next net fuel _ _ (succeeded_step net a rest n sockets tried' changes s)
                    ∙ connected_last net rest n fuel sockets tried' changes (omega (arith, h)),
                Ended-works a rest sock n sockets tried changes (ground (arith, e, s)),
              )
              | inr s ↦
                  let (w', r, k) =
                    run_ends rest fuel (some n) (n + 1) (n ∷ sockets) tried' changes
                      (omega arith, more) (omega (arith, h)) in
                  (
                    w',
                    first
                        ∙ run-next net fuel _ _ (failed_step net a rest n sockets tried' changes s)
                        ∙ r,
                    Ended-cons a rest sock (some n) n (n + 1) sockets (n ∷ sockets) tried changes w'
                        (ground (arith, e, s)) (ground (arith, e)) k,
                  )
            ]
        | inr e ↦
            let n' = if net.opens a then n + 1 else n in
            let fresh' : All (λ fd. fd < n') sockets = elim (Bool-cases (net.opens a)) [
              | inl o ↦ simp o more
              | inr o ↦ simp o fresh
            ] in
            let (w', r, k) =
              run_ends rest (suc fuel) none n' sockets tried' changes fresh' (omega (arith, h)) in
            (
              w',
              run-next net (suc fuel) _ _
                    (refused_step net a rest sock n sockets tried changes fresh e)
                  ∙ r,
              Ended-cons a rest sock none n n' sockets sockets tried changes w' (ground (arith, e))
                  (ground (arith, e)) k,
            )
      ]

  abbrev pub found : List ℕ
  found = addresses_of net.addresses

  -- `start` was called on a new transport.
  abbrev pub started : Dial
  started = record new_dial {
    state = State.connecting;
    tasks = resolving ∷ [];
    changes = State.connecting ∷ [];
  }

  start-new_dial : start new_dial ≡ some started
  unfolding start connect change_state
  start-new_dial = refl

  resolve-found :
      (addresses : List ℕ)
      → net.addresses ≡ some addresses
      → next net started ≡ some (dialling addresses none 0 [] [] (State.connecting ∷ []))
  unfolding next resolve
  resolve-found addresses e = simp (next, e)

  -- The run ends in a way that is right for these addresses.
  abbrev EndsFor : ℕ → List ℕ → Type 0
  EndsFor fuel addresses =
      (w' : Dial) × ((start new_dial >>= run net fuel) ≡ some w') × Ended net addresses started w'

  start-run : (fuel : ℕ) → (start new_dial >>= run net fuel) ≡ run net fuel started
  unfolding start connect change_state
  start-run fuel = refl

  resolve_failed : (fuel : ℕ) → net.addresses ≡ none → EndsFor (suc (suc fuel)) []
  unfolding next resolve change_state
  resolve_failed fuel e =
      let w' = record started {
        state = State.failed;
        tasks = [];
        changes = State.connecting ∷ State.failed ∷ [];
      } in
      (
        w',
        start-run (suc (suc fuel))
            ∙ run-next net (suc fuel) started w' (simp (next, e))
            ∙ run-last net fuel w' refl,
        record { final = refl; reported = refl; all_tried = refl; left_open = omega arith },
      )

  resolve_found :
      (fuel : ℕ) (addresses : List ℕ)
      → net.addresses ≡ some addresses
      → length addresses * 2 + 2 ≤ fuel
      → EndsFor (suc fuel) addresses
  resolve_found fuel addresses e h =
      let (w', r, k) = run_ends addresses fuel none 0 [] [] (State.connecting ∷ []) tt h in
      (
        w',
        start-run (suc fuel) ∙ run-next net fuel started _ (resolve-found addresses e) ∙ r,
        record {
          final = k.final;
          reported = k.reported;
          all_tried = k.all_tried;
          left_open = k.left_open;
        },
      )

  -- A new transport that is started comes to an end within twice as many steps as the resolver
  -- gives addresses, and three: connected, if an address works, and otherwise failed, which is
  -- reported once; the addresses are tried once each, in order, up to the first that works; and
  -- each of these that started to connect has left a socket open, those given up included.
  pub start-ends :
      (fuel : ℕ)
      → length found * 2 + 3 ≤ fuel
      → (w' : Dial) × ((start new_dial >>= run net fuel) ≡ some w') × Ended net found started w'
  start-ends zero h = absurd (omega (arith, h))
  start-ends (suc zero) h = absurd (omega (arith, h))
  start-ends (suc (suc fuel)) h = elim (Option-cases net.addresses) [
    | inl e ↦
        let same : found ≡ [] = ap addresses_of e in
        subst (EndsFor (suc (suc fuel))) (sym same) (resolve_failed fuel e)
    | inr (addresses, e) ↦
        let same : found ≡ addresses = ap addresses_of e in
        subst (EndsFor (suc (suc fuel))) (sym same)
          (resolve_found (suc fuel) addresses e (omega (arith, h, ap (λ l. length l) same)))
  ]
