-- ===== src/Callback.antt =====
-- The class templates `synchronized_callback` and `synchronized_stored_callback` of include/utils.hpp.
-- Each method is run under its lock. A function is a number, and may throw.
pub mod Replay
use websocket_client.Common.{
  ℕ, Bool, true, false, Option, none, some, List, [], ◌∷◌, ◌++◌, if◌then◌else◌,
}

-- `log` has the calls of the functions, with their arguments.
pub record Callback {ℓ} (A : Type ℓ) : Type ℓ where
  pub callback : Option ℕ
  pub stored : Option A
  pub log : List (ℕ × A)

abbrev pub new_callback {ℓ} : {A : Type ℓ} → Callback A
new_callback = record { callback = none; stored = none; log = [] }

-- Whether a method returns, and what, or throws.
pub data Outcome {ℓ} (A : Type ℓ) : Type ℓ where
  returns : Bool → Callback A → Outcome A
  throws : Callback A → Outcome A

abbrev pub after {ℓ} : {A : Type ℓ} → Outcome A → Callback A
after (returns b w) = w
after (throws w) = w

module _ {ℓ} {A : Type ℓ} (fails : ℕ → A → Bool) where
  unfoldable pub apply : ℕ → A → Callback A → Outcome A
  apply f x w =
      let w1 = record w { log = w.log ++ ((f, x) ∷ []) } in
      if fails f x then throws w1 else returns true w1

  -- `synchronized_callback::set` and `call`
  unfoldable pub plain_set : Option ℕ → Callback A → Outcome A
  plain_set f w = returns true (record w { callback = f })

  unfoldable pub plain_call : A → Callback A → Outcome A
  plain_call x w = elim w.callback [ none ↦ returns false w | some f ↦ apply f x w ]

  -- Assigning a function to a `synchronized_stored_callback`: its `set` makes the call that was missed,
  -- and forgets it; then the implicit assignment copies the empty `stored` of the temporary, so that
  -- taking the function away drops a missed call too. Where the function throws, it stays stored.
  abbrev pub forget : Outcome A → Outcome A
  forget (returns b w) = returns true (record w { stored = none })
  forget (throws w) = throws w

  abbrev pub replay : ℕ → Option A → Callback A → Outcome A
  replay f none w = returns true w
  replay f (some x) w = forget (apply f x w)

  unfoldable pub set : Option ℕ → Callback A → Outcome A
  set none w = returns true (record w { callback = none; stored = none })
  set (some f) w = replay f w.stored (record w { callback = some f })

  -- `synchronized_stored_callback::call`
  abbrev pub call_with : Option ℕ → A → Callback A → Outcome A
  call_with none x w = returns true (record w { stored = some x })
  call_with (some f) x w = apply f x w

  unfoldable pub call : A → Callback A → Outcome A
  call x w = call_with w.callback x w
