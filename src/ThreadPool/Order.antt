-- ===== src/ThreadPool/Order.antt =====
-- The order in which src/impl/threadpool.cpp runs its tasks.
use mathlib.Core.Path.{subst}
use websocket_client.Common.{
  ℕ, zero, suc, ◌+◌, ◌≤◌, ◌≡◌, refl, sym, ap, ◌∙◌, arith, Bool, true, false, Option, none, some,
  List, [], ◌∷◌, ◌++◌, if◌then◌else◌, leb, ◌==◌, length, All, append_assoc, append-nil,
}
use websocket_client.ThreadPool.{Task, greater_task, Pool, dequeue, run_one, run}

-- One of the tasks was taken off, and it compares with none of the others: a queue that is ordered by
-- "less" gives the largest element.
pub record IsTop (compare : Task → Task → Bool) (tasks : List Task) (task : Task) (rest : List Task)
    : Type 0 where
  pub before : List Task
  pub after : List Task
  pub whole : tasks ≡ before ++ (task ∷ after)
  pub others : rest ≡ before ++ after
  pub highest : All (λ t. compare task t ≡ false) rest

-- What a priority queue does, ordered by a comparison.
pub record IsPriorityQueue (compare : Task → Task → Bool)
    (pop : List Task → Option (Task × List Task)) : Type 0 where
  pub empty_law : pop [] ≡ none
  pub top_law :
      (t : Task) (tasks : List Task)
      → (task : Task) × (rest : List Task) × (pop (t ∷ tasks) ≡ some (task, rest))
        × IsTop compare (t ∷ tasks) task rest

-- Each is not later than all behind it.
abbrev pub IsSorted : List Task → Type 0
IsSorted [] = Unit
IsSorted (t ∷ tasks) = All (λ u. t.time ≤ u.time) tasks × IsSorted tasks

-- How often a function is in a list.
abbrev pub count : ℕ → List Task → ℕ
count f [] = 0
count f (t ∷ tasks) = (if t.func == f then 1 else 0) + count f tasks

-- What holds of all but one and of the one holds of all, and conversely.
All-insert {κ} :
    (P : Task → Type κ) (before after : List Task) (t : Task)
    → All P (before ++ (t ∷ after))
    → P t × All P (before ++ after)
All-insert P [] after t h = h
All-insert P (b ∷ before) after t h = let (p, k) = All-insert P before after t h.1 in (p, (h.0, k))

length-insert :
    (before after : List Task) (t : Task)
    → length (before ++ (t ∷ after)) ≡ suc (length (before ++ after))
length-insert [] after t = refl
length-insert (b ∷ before) after t = ap suc (length-insert before after t)

count-insert :
    (f : ℕ) (before after : List Task) (t : Task)
    → count f (before ++ (t ∷ after)) ≡ count f (t ∷ (before ++ after))
count-insert f [] after t = refl
count-insert f (b ∷ before) after t = omega (arith, count-insert f before after t)

-- A task that compares with none of the others is not later than they are.
greater_task-later :
    (task : Task) (tasks : List Task)
    → All (λ t. greater_task task t ≡ false) tasks
    → All (λ t. task.time ≤ t.time) tasks
unfolding greater_task
greater_task-later task [] h = tt
greater_task-later task (t ∷ tasks) h = (ground (arith, h.0), greater_task-later task tasks h.1)

-- A pool that is not joining.
abbrev pub pool : ℕ → ℕ → List Task → List Task → Pool
pool workers busy tasks ran = record {
  tasks = tasks;
  workers = workers;
  busy_workers = busy;
  joining = false;
  ran = ran;
}

module _ (pop : (Task → Task → Bool) → List Task → Option (Task × List Task))
    (law : IsPriorityQueue greater_task (pop greater_task)) (workers busy : ℕ) where
  run_one-due :
      (now : ℕ) (tasks rest ran : List Task) (task : Task)
      → pop greater_task tasks ≡ some (task, rest)
      → task.time ≤ now
      → run_one pop now (pool workers busy tasks ran)
        ≡ some (pool workers busy rest (ran ++ (task ∷ [])))
  unfolding run_one dequeue
  run_one-due now tasks rest ran task e due =
      let over : leb task.time now ≡ true = ground (arith, due) in simp (run_one, dequeue, e, over)

  run_one-empty : (now : ℕ) (ran : List Task) → run_one pop now (pool workers busy [] ran) ≡ none
  unfolding run_one dequeue
  run_one-empty now ran = simp (run_one, dequeue, law.empty_law)

  run-next :
      (fuel now : ℕ) (p p' : Pool)
      → run_one pop now p ≡ some p'
      → run pop (suc fuel) now p ≡ run pop fuel now p'
  run-next fuel now p p' e =
      ap (λ (o : Option Pool). elim o as (λ x. Pool) [ none ↦ p | some q ↦ run pop fuel now q ]) e

  -- Where all tasks of a pool that is not joining are due, as many rounds of run as there are
  -- tasks empty the queue; the tasks are taken in the order of their times, earliest first, each as
  -- often as it was there, and none besides, if the priority queue, for the comparison it is given,
  -- takes off one of its elements which does not compare before any other.
  pub run-drains :
      (n now : ℕ) (tasks ran : List Task)
      → length tasks ≡ n
      → All (λ t. t.time ≤ now) tasks
      → (done : List Task) × (run pop n now (pool workers busy tasks ran)
          ≡ pool workers busy [] (ran ++ done))
        × IsSorted done
        × ((P : Task → Type 0) → All P tasks → All P done)
        × ((f : ℕ) → count f done ≡ count f tasks)
  run-drains zero now [] ran size due =
      ([], ap (pool workers busy []) (sym (append-nil ran)), tt, (λ P h. tt), (λ f. refl))
  run-drains zero now (t ∷ tasks) ran size due = absurd (omega (arith, size))
  run-drains (suc n) now [] ran size due = absurd (omega (arith, size))
  run-drains (suc n) now (t ∷ tasks) ran size due =
      let (task, rest, e, top) = law.top_law t tasks in
      let move = λ (P : Task → Type 0) (h : All P (t ∷ tasks)).
        All-insert P top.before top.after task (subst (All P) top.whole h) in
      let back = λ (P : Task → Type 0) (h : All P (t ∷ tasks)).
        subst (All P) (sym top.others) (move P h).1 in
      let smaller : length rest ≡ n = omega (
        arith,
        size,
        ap (λ l. length l) top.whole,
        length-insert top.before top.after task,
        ap (λ l. length l) top.others,
      ) in
      let (done, r, sorted, every, same) =
        run-drains n now rest (ran ++ (task ∷ [])) smaller (back (λ u. u.time ≤ now) due) in
      (
        task ∷ done,
        run-next n now _ _
              (run_one-due now (t ∷ tasks) rest ran task e (move (λ u. u.time ≤ now) due).0)
            ∙ r
            ∙ ap (pool workers busy []) (append_assoc ran (task ∷ []) done),
        (every (λ u. task.time ≤ u.time) (greater_task-later task rest top.highest), sorted),
        (λ P h. ((move P h).0, every P (back P h))),
        (λ f.
            ap (λ k. (if task.func == f then 1 else 0) + k)
              (same f ∙ ap (λ l. count f l) top.others)
            ∙ sym (count-insert f top.before top.after task)
            ∙ ap (λ l. count f l) (sym top.whole)),
      )
