-- ===== src/Init/Reach.antt =====
-- The states that src/impl/init.cpp reaches: when the services are up.
use mathlib.Core.Option.{some-ne-none}
use mathlib.Core.Bool.{true≢false}
use websocket_client.Common.{
  ℕ, suc, ◌+◌, ◌<◌, ◌≡◌, ◌≢◌, refl, sym, ap, ◌∙◌, arith, Bool, true, false, not, none, List, [],
  ◌∷◌, if◌then◌else◌, length, Option-cases, Bool-cases, inl, inr, ◌⊎◌, if-holds,
}
use websocket_client.Init.{
  Init, new_init, member, alive, do_init, new_payload, token, preload, after_release, cleanup,
  set_sctp_settings, stored, held, release, remove_one, do_cleanup, lock,
}

-- One call, or the run of one of the threads that clean up. A start of the services may throw.
pub data Step : Init → Init → Type 0 where
  taking : {w : Init} (fails : Bool) → Step w (token fails w)
  preloading : {w : Init} (fails : Bool) → Step w (preload fails w)
  cleaning : {w : Init} → Step w (cleanup w)
  setting : {w : Init} (settings : ℕ) → Step w (set_sctp_settings settings w)
  releasing : {w : Init} → (k : ℕ) → Step w (release k w)
  running_thread :
      {w : Init} {n : ℕ} → w.threads ≡ suc n → Step w (do_cleanup (record w { threads = n }))

pub data Steps : Init → Init → Type 0 where
  no_step : {w : Init} → Steps w w
  one_more : {u v w : Init} → Steps u v → Step v w → Steps u w

-- Something that keeps the services, or a thread that will end them.
abbrev pub IsKept : Init → Type 0
IsKept w = (w.global ≢ none) ⊎ ((w.tokens ≢ []) ⊎ (0 < w.threads))

-- The services are up whenever the global token is there; and while they are up, there is a token,
-- or a thread that will clean up, or their start threw.
pub record IsSound (w : Init) : Type 0 where
  pub up : w.global ≢ none → w.initialized ≡ true
  pub kept : w.initialized ≡ true → IsKept w ⊎ (w.failed ≡ true)
  pub balanced : w.starts ≡ w.stops + (if w.initialized then 1 else 0)

cons≢nil : {k : ℕ} {ids : List ℕ} → k ∷ ids ≢ []
cons≢nil e = absurd (omega (arith, ap (λ l. length l) e))

member-nil : (k : ℕ) (ids : List ℕ) → member k ids ≡ true → ids ≢ []
member-nil k ids e h = true≢false (sym e ∙ ap (member k) h)

alive-IsKept : (k : ℕ) (w : Init) → alive k w ≡ true → IsKept w
alive-IsKept k w e = elim (Option-cases w.global) [
  | inl g ↦ inr (inl (member-nil k w.tokens (simp g at e)))
  | inr (j, g) ↦ inl (λ u. some-ne-none j (sym g ∙ u))
]

do_cleanup-IsSound :
    (n : ℕ) (w : Init)
    → IsSound w
    → w.threads ≡ suc n
    → IsSound (do_cleanup (record w { threads = n }))
unfolding do_cleanup
do_cleanup-IsSound n w s e = elim (Option-cases w.global) [
  | inl g ↦ elim (Bool-cases w.initialized) [
    | inl i ↦
        simp (do_cleanup, g, i)
          (record {
            up = λ h. absurd (h refl);
            kept = λ h. absurd (true≢false (sym h));
            balanced = ground (arith, s.balanced, i);
          })
    | inr i ↦
        simp (do_cleanup, g, i)
          (record {
            up = λ h. absurd (h refl);
            kept = λ h. absurd (true≢false (sym h));
            balanced = ground (arith, s.balanced, i);
          })
  ]
  | inr (k, g) ↦
      simp (do_cleanup, g)
        (record {
          up = λ h. s.up (λ u. some-ne-none k (sym g ∙ u));
          kept = λ h. inl (inl (some-ne-none k));
          balanced = s.balanced;
        })
]

-- The services are started, if they are not up: then the start may throw.
do_init-IsStarted :
    (fails : Bool) (w : Init)
    → IsSound w
    → let (returned, w1) = do_init fails w in
      (w1.initialized ≡ true)
      × (w1.starts ≡ w1.stops + (if w1.initialized then 1 else 0))
      × (returned ≡ false → w1.failed ≡ true)
unfolding do_init
do_init-IsStarted fails w s = elim (Bool-cases w.initialized) [
  | inl i ↦ rw (do_init, i) (refl, ground (arith, s.balanced, i), λ h. absurd (true≢false h))
  | inr i ↦ rw (do_init, i) (refl, ground (arith, s.balanced, i), λ h. not-false fails h)
]
  where
    not-false : (b : Bool) → not b ≡ false → b ≡ true
    not-false true h = refl
    not-false false h = absurd (true≢false h)

-- With a new payload, or one more token, the services are up and kept.
stored-IsSound :
    (returned : Bool) (w : Init)
    → w.initialized ≡ true
    → w.starts ≡ w.stops + (if w.initialized then 1 else 0)
    → (returned ≡ false → w.failed ≡ true)
    → IsSound (stored returned w)
stored-IsSound true w i balanced h = record {
  up = λ h. i;
  kept = λ h. inl (inl (some-ne-none w.payloads));
  balanced = balanced;
}
stored-IsSound false w i balanced h = record {
  up = λ h. i;
  kept = λ u. inr (h refl);
  balanced = balanced;
}

new_payload-IsSound : (fails : Bool) (w : Init) → IsSound w → IsSound (new_payload fails w).1
unfolding new_payload
new_payload-IsSound fails w s =
    let (i, balanced, h) = do_init-IsStarted fails w s in
    stored-IsSound (do_init fails w).0 (do_init fails w).1 i balanced h

holding-IsSound :
    (k : ℕ) (ids : List ℕ) (w : Init) → IsSound w → IsSound (record w { tokens = k ∷ ids })
holding-IsSound k ids w s = record {
  up = s.up;
  kept = λ h. inl (inr (inl cons≢nil));
  balanced = s.balanced;
}

held-IsSound : (p : Bool × Init) (k : ℕ) → IsSound p.1 → IsSound (held p k)
held-IsSound (false, w) k s = s
held-IsSound (true, w) k s = holding-IsSound k w.tokens w s

token-IsSound : (fails : Bool) (w : Init) → IsSound w → IsSound (token fails w)
unfolding token
token-IsSound fails w s = elim (Option-cases (lock w)) [
  | inl e ↦
      simp (token, e)
        (held-IsSound (new_payload fails w) w.payloads (new_payload-IsSound fails w s))
  | inr (k, e) ↦ simp (token, e) (holding-IsSound k w.tokens w s)
]

preload-IsSound : (fails : Bool) (w : Init) → IsSound w → IsSound (preload fails w)
unfolding preload
preload-IsSound fails w s = elim (Option-cases w.global) [
  | inl e ↦ simp (preload, e) (new_payload-IsSound fails w s)
  | inr (k, e) ↦ simp (preload, e) s
]

-- A pointer is let go: another one is left, or a thread is made.
after_release-IsSound :
    (k : ℕ) (w : Init)
    → (w.global ≢ none → w.initialized ≡ true)
    → w.starts ≡ w.stops + (if w.initialized then 1 else 0)
    → IsSound (after_release k w)
unfolding after_release
after_release-IsSound k w up balanced = elim (Bool-cases (alive k w)) [
  | inl e ↦
      simp (after_release, e)
        (record { up = up; kept = λ h. inl (alive-IsKept k w e); balanced = balanced })
  | inr e ↦
      simp (after_release, e)
        (record { up = up; kept = λ h. inl (inr (inr (omega arith))); balanced = balanced })
]

cleanup-IsSound : (w : Init) → IsSound w → IsSound (cleanup w)
unfolding cleanup
cleanup-IsSound w s = elim (Option-cases w.global) [
  | inl e ↦ simp (cleanup, e) s
  | inr (k, e) ↦
      simp (cleanup, e)
        (after_release-IsSound k (record w { global = none }) (λ h. absurd (h refl)) s.balanced)
]

release-IsSound : (k : ℕ) (w : Init) → IsSound w → IsSound (release k w)
unfolding release
release-IsSound k w s =
    if-holds IsSound (member k w.tokens) _ _
      (after_release-IsSound k (record w { tokens = remove_one k w.tokens }) s.up s.balanced) s

step-IsSound : (v w : Init) → Step v w → IsSound v → IsSound w
step-IsSound v w (taking fails) s = token-IsSound fails v s
step-IsSound v w (preloading fails) s = preload-IsSound fails v s
step-IsSound v w cleaning s = cleanup-IsSound v s
step-IsSound v w (setting n) s = record { up = s.up; kept = s.kept; balanced = s.balanced }
step-IsSound v w (releasing k) s = release-IsSound k v s
step-IsSound v w (running_thread {n = n} e) s = do_cleanup-IsSound n v s e

-- After any calls of token, preload and cleanup, any releases of tokens, settings of SCTP and runs
-- of the threads that clean up, in any order, and whichever starts of the services throw: the flag
-- that they are up is set if the global token is there; it was set as often as it was reset, and
-- once more if it is set; and if it is, a token is held, or the global one, or a thread is to clean
-- up, or the start that set the flag threw, so that services that started are never left up for
-- nobody.
pub Steps-IsSound : (w : Init) → Steps new_init w → IsSound w
Steps-IsSound w no_step = record {
  up = λ h. absurd (h refl);
  kept = λ h. absurd (true≢false (sym h));
  balanced = refl;
}
Steps-IsSound w (one_more {v = v} steps step) = step-IsSound v w step (Steps-IsSound v steps)
