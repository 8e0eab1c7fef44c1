-- ===== src/Tests/Pools.antt =====
-- The theorems on the thread pool and the initialisation at concrete inputs.
use mathlib.Core.Path.{subst, ◌∙◌}
use websocket_client.Common.{
  ℕ, ◌≡◌, refl, sym, ap, arith, Bool, true, false, Option, some, none, List, [], ◌∷◌, ◌++◌,
  if◌then◌else◌, All, Bool-cases, inl, inr,
}
use websocket_client.Callback.{new_callback}
use websocket_client.Callback.Replay.{Op, setting, calling, run_ops, run_ops-IsSound}
use websocket_client.Callback.Replay
use websocket_client.ThreadPool.{Task, greater_task, run}
use websocket_client.ThreadPool.Order.{IsTop, IsPriorityQueue, IsSorted, count, pool, run-drains}
use websocket_client.Init.{
  Init, new_init, token, preload, cleanup, release, do_cleanup, new_payload, do_init, after_release,
}
use websocket_client.Init.Reach.{
  IsSound, Steps, no_step, one_more, taking, preloading, cleaning, releasing, Steps-IsSound,
}

-- A priority queue for any comparison: the first one that compares with none of the others behind it.
abbrev higher :
    (Task → Task → Bool) → Task → Option (Task × List Task) → List Task → Option (Task × List Task)
higher compare t none tasks = some (t, [])
higher compare t (some (m, rest)) tasks =
    if compare t m then some (m, t ∷ rest) else some (t, tasks)

abbrev pop_top : (Task → Task → Bool) → List Task → Option (Task × List Task)
pop_top compare [] = none
pop_top compare (t ∷ tasks) = higher compare t (pop_top compare tasks) tasks

-- What is before and behind a task, and the task.
All-split :
    (P : Task → Type 0) (before after : List Task) (t : Task)
    → P t
    → All P (before ++ after)
    → All P (before ++ (t ∷ after))
All-split P [] after t p h = (p, h)
All-split P (b ∷ before) after t p h = (h.0, All-split P before after t p h.1)

All-later :
    (t m : Task) (tasks : List Task)
    → greater_task t m ≡ false
    → All (λ u. greater_task m u ≡ false) tasks
    → All (λ u. greater_task t u ≡ false) tasks
unfolding greater_task
All-later t m [] h k = tt
All-later t m (u ∷ tasks) h k = (ground (arith, h, k.0), All-later t m tasks h k.1)

greater_task-flip : (t m : Task) → greater_task t m ≡ true → greater_task m t ≡ false
unfolding greater_task
greater_task-flip t m h = ground (arith, h)

pop_top-IsTop :
    (t : Task) (tasks : List Task)
    → (task : Task) × (rest : List Task) × (pop_top greater_task (t ∷ tasks) ≡ some (task, rest))
      × IsTop greater_task (t ∷ tasks) task rest
pop_top-IsTop t [] =
    (t, [], refl, record { before = []; after = []; whole = refl; others = refl; highest = tt })
pop_top-IsTop t (u ∷ tasks) =
    let (m, rest, e, top) = pop_top-IsTop u tasks in
    elim (Bool-cases (greater_task t m)) [
      | inr small ↦ (
        t,
        u ∷ tasks,
        ap (λ o. higher greater_task t o (u ∷ tasks)) e
            ∙ ap (λ b. if b then some (m, t ∷ rest) else some (t, u ∷ tasks)) small,
        record {
          before = [];
          after = u ∷ tasks;
          whole = refl;
          others = refl;
          highest = subst (All (λ v. greater_task t v ≡ false)) (sym top.whole) (
              All-split (λ v. greater_task t v ≡ false) top.before top.after m small
                (subst (All (λ v. greater_task t v ≡ false)) top.others
                  (All-later t m rest small top.highest)));
        },
      )
      | inl large ↦ (
        m,
        t ∷ rest,
        ap (λ o. higher greater_task t o (u ∷ tasks)) e
            ∙ ap (λ b. if b then some (m, t ∷ rest) else some (t, u ∷ tasks)) large,
        record {
          before = t ∷ top.before;
          after = top.after;
          whole = ap (λ l. t ∷ l) top.whole;
          others = ap (λ l. t ∷ l) top.others;
          highest = (greater_task-flip t m large, top.highest);
        },
      )
    ]

pop_top-IsPriorityQueue : IsPriorityQueue greater_task (pop_top greater_task)
pop_top-IsPriorityQueue = record { empty_law = refl; top_law = pop_top-IsTop }

abbrev task : ℕ → ℕ → Task
task time func = record { time = time; func = func }

abbrev three_tasks : List Task
three_tasks = task 7 1 ∷ task 3 2 ∷ task 5 3 ∷ []

run-drains_example :
    (done : List Task) × (run pop_top 3 9 (pool 4 1 three_tasks []) ≡ pool 4 1 [] ([] ++ done))
    × IsSorted done
    × ((P : Task → Type 0) → All P three_tasks → All P done)
    × ((f : ℕ) → count f done ≡ count f three_tasks)
run-drains_example =
    run-drains pop_top pop_top-IsPriorityQueue 4 1 3 9 three_tasks [] refl
      (omega arith, (omega arith, (omega arith, tt)))

abbrev used : Init
used = release 0 (cleanup (token false (preload false new_init)))

used_reached : Steps new_init used
used_reached =
    one_more (one_more (one_more (one_more no_step (preloading false)) (taking false)) cleaning)
      (releasing 0)

Steps-IsSound_example : IsSound used
Steps-IsSound_example = Steps-IsSound used used_reached

-- A thread that cleans up late: another token was taken in the meantime, and the global one is let
-- go again. The services end, and the token is still held.
late_thread :
    let w = do_cleanup (record (cleanup (token false used)) { threads = 0 }) in
    ((cleanup (token false used)).threads ≡ 1) × (w.tokens ≡ 1 ∷ []) × (w.initialized ≡ false)
unfolding token preload cleanup release do_cleanup new_payload do_init after_release
late_thread = (refl, refl, refl)

-- Two calls are missed, of which the last is made up for; one is dropped with the function, and the
-- last one is stored.
abbrev missed_calls : List (Op ℕ)
missed_calls =
    calling 1
    ∷ calling 2
    ∷ setting (some 7)
    ∷ calling 3
    ∷ setting none
    ∷ calling 4
    ∷ setting none
    ∷ calling 5
    ∷ []

run_ops-IsSound_example :
    Replay.IsSound
      (run_ops (λ f x. false) (λ f x. refl) missed_calls new_callback)
      (1 ∷ 2 ∷ 3 ∷ 4 ∷ 5 ∷ [])
      (5 ∷ [])
run_ops-IsSound_example = run_ops-IsSound (λ f x. false) (λ f x. refl) missed_calls
