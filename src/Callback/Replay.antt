-- ===== src/Callback/Replay.antt =====
-- What reaches the functions of a `synchronized_stored_callback` of include/utils.hpp.
use mathlib.Core.Path.{subst}
use mathlib.Core.Option.{some-ne-none}
use websocket_client.Common.{
  ℕ, ◌≡◌, refl, sym, ap, Bool, true, false, Option, none, some, List, [], ◌∷◌, ◌++◌, map,
  append-nil, append_assoc, inl, inr, ◌⊎◌,
}
use websocket_client.Callback.{Callback, new_callback, returns, after, apply, forget, set, call}

-- The first list has elements of the second one, each once and in order.
pub data Sublist {ℓ} {A : Type ℓ} : List A → List A → Type ℓ where
  none_of : Sublist [] []
  not_last : {xs ys : List A} (y : A) → Sublist xs ys → Sublist xs (ys ++ (y ∷ []))
  with_last : {xs ys : List A} (x : A) → Sublist xs ys → Sublist (xs ++ (x ∷ [])) (ys ++ (x ∷ []))

pub data Op {ℓ} (A : Type ℓ) : Type ℓ where
  setting : Option ℕ → Op A
  calling : A → Op A

module _ {ℓ} {A : Type ℓ} where
  -- The arguments that the functions got.
  abbrev pub heard : Callback A → List A
  heard w = map (λ e. e.1) w.log

  -- The last call was heard, if there was one.
  abbrev pub IsCurrent : List A → List A → Type ℓ
  IsCurrent xs calls =
      (calls ≡ [])
      ⊎ ((x : A) × (before : List A) × (earlier : List A) × (xs ≡ before ++ (x ∷ []))
          × (calls ≡ earlier ++ (x ∷ [])))

  -- All calls since a function was last taken away were heard up to the last one, in order; or the
  -- last one is stored, no function is set, and of those before it some were heard, in order.
  abbrev SoundAt : Option ℕ → Option A → List (ℕ × A) → List A → List A → Type ℓ
  SoundAt callback none log calls recent =
      Sublist (map (λ e. e.1) log) calls × IsCurrent (map (λ e. e.1) log) recent
  SoundAt callback (some x) log calls recent =
      (callback ≡ none)
      × ((earlier : List A) × (lately : List A) × (calls ≡ earlier ++ (x ∷ []))
          × (recent ≡ lately ++ (x ∷ []))
          × Sublist (map (λ e. e.1) log) earlier)

  abbrev pub IsSound : Callback A → List A → List A → Type ℓ
  IsSound w calls recent = SoundAt w.callback w.stored w.log calls recent

  heard-append :
      (log : List (ℕ × A)) (f : ℕ) (x : A)
      → map (λ e. e.1) (log ++ ((f, x) ∷ [])) ≡ map (λ e. e.1) log ++ (x ∷ [])
  heard-append [] f x = refl
  heard-append (e ∷ log) f x = ap (λ t. e.1 ∷ t) (heard-append log f x)

module _ {ℓ} {A : Type ℓ} (fails : ℕ → A → Bool) (quiet : (f : ℕ) (x : A) → fails f x ≡ false) where
  -- A function that is called, and does not throw.
  apply-quiet :
      (f : ℕ) (x : A) (w : Callback A)
      → apply fails f x w ≡ returns true (record w { log = w.log ++ ((f, x) ∷ []) })
  unfolding apply
  apply-quiet f x w = simp (quiet f x)

  heard_one :
      (callback : Option ℕ) (log : List (ℕ × A)) (f : ℕ) (x : A)
      (earlier calls lately recent : List A)
      → calls ≡ earlier ++ (x ∷ [])
      → recent ≡ lately ++ (x ∷ [])
      → Sublist (map (λ e. e.1) log) earlier
      → SoundAt callback none (log ++ ((f, x) ∷ [])) calls recent
  heard_one callback log f x earlier calls lately recent e r sub = (
    subst (λ l. Sublist l calls) (sym (heard-append log f x))
        (subst (λ l. Sublist (map (λ e. e.1) log ++ (x ∷ [])) l) (sym e) (with_last x sub)),
    inr (x, map (λ e. e.1) log, lately, heard-append log f x, r),
  )

  -- The calls since a function was last taken away, where there were some already.
  abbrev since : Option ℕ → List A → List A
  since none recent = []
  since (some f) recent = recent

  set-IsSound :
      (f : Option ℕ) (callback : Option ℕ) (stored : Option A) (log : List (ℕ × A))
      (calls recent : List A)
      → SoundAt callback stored log calls recent
      → IsSound
          (after (set fails f (record { callback = callback; stored = stored; log = log })))
          calls
          (since f recent)
  unfolding set
  set-IsSound none callback none log calls recent s = (s.0, inl refl)
  set-IsSound none callback (some x) log calls recent s =
      let (e, (earlier, lately, c, r, sub)) = s in
      (subst (Sublist (map (λ e. e.1) log)) (sym c) (not_last x sub), inl refl)
  set-IsSound (some f) callback none log calls recent s = s
  set-IsSound (some f) callback (some x) log calls recent s =
      let w : Callback A = record { callback = some f; stored = some x; log = log } in
      let (e, (earlier, lately, c, r, sub)) = s in
      subst (λ o. IsSound (after (forget fails o)) calls recent) (sym (apply-quiet f x w))
        (heard_one (some f) log f x earlier calls lately recent c r sub)

  call-IsSound :
      (x : A) (callback : Option ℕ) (stored : Option A) (log : List (ℕ × A)) (calls recent : List A)
      → SoundAt callback stored log calls recent
      → IsSound
          (after (call fails x (record { callback = callback; stored = stored; log = log })))
          (calls ++ (x ∷ []))
          (recent ++ (x ∷ []))
  unfolding call
  call-IsSound x none none log calls recent s = (refl, (calls, recent, refl, refl, s.0))
  call-IsSound x none (some y) log calls recent s =
      let (e, (earlier, lately, c, r, sub)) = s in
      (
        refl,
        (calls, recent, refl, refl, subst (Sublist (map (λ e. e.1) log)) (sym c) (not_last y sub)),
      )
  call-IsSound x (some f) none log calls recent s =
      let w : Callback A = record { callback = some f; stored = none; log = log } in
      subst (λ o. IsSound (after o) (calls ++ (x ∷ [])) (recent ++ (x ∷ [])))
        (sym (apply-quiet f x w))
        (heard_one (some f) log f x calls (calls ++ (x ∷ [])) recent (recent ++ (x ∷ [])) refl refl
          s.0)
  call-IsSound x (some f) (some y) log calls recent s = absurd (some-ne-none f s.0)

  abbrev pub run_ops : List (Op A) → Callback A → Callback A
  run_ops [] w = w
  run_ops (setting f ∷ ops) w = run_ops ops (after (set fails f w))
  run_ops (calling x ∷ ops) w = run_ops ops (after (call fails x w))

  -- The arguments of the calls.
  abbrev pub called : List (Op A) → List A
  called [] = []
  called (setting f ∷ ops) = called ops
  called (calling x ∷ ops) = x ∷ called ops

  -- The arguments of those since a function was last taken away, behind others.
  abbrev pub recent_from : List A → List (Op A) → List A
  recent_from recent [] = recent
  recent_from recent (setting f ∷ ops) = recent_from (since f recent) ops
  recent_from recent (calling x ∷ ops) = recent_from (recent ++ (x ∷ [])) ops

  run_ops-IsSound_from :
      (ops : List (Op A)) (w : Callback A) (calls recent : List A)
      → IsSound w calls recent
      → IsSound (run_ops ops w) (calls ++ called ops) (recent_from recent ops)
  run_ops-IsSound_from [] w calls recent s =
      subst (λ l. IsSound w l recent) (sym (append-nil calls)) s
  run_ops-IsSound_from (setting f ∷ ops) w calls recent s =
      run_ops-IsSound_from ops (after (set fails f w)) calls (since f recent)
        (set-IsSound f w.callback w.stored w.log calls recent s)
  run_ops-IsSound_from (calling x ∷ ops) w calls recent s =
      subst
        (λ l.
          IsSound (run_ops ops (after (call fails x w))) l (recent_from (recent ++ (x ∷ [])) ops))
        (append_assoc calls (x ∷ []) (called ops))
        (run_ops-IsSound_from ops (after (call fails x w)) (calls ++ (x ∷ [])) (recent ++ (x ∷ []))
          (call-IsSound x w.callback w.stored w.log calls recent s))

  -- From a new stored callback, after any settings of functions that do not throw, or of none, and
  -- any calls, in any order: the functions got arguments of the calls, each call once at most and
  -- in order; and if there was a call since a function was last taken away, which drops a call that
  -- was stored, the last one either reached a function, or is stored while no function is set.
  pub run_ops-IsSound :
      (ops : List (Op A)) → IsSound (run_ops ops new_callback) (called ops) (recent_from [] ops)
  run_ops-IsSound ops = run_ops-IsSound_from ops new_callback [] [] (none_of, inl refl)
