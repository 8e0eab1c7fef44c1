-- ===== src/ThreadPool.antt =====
-- The class `ThreadPool` of src/impl/threadpool.cpp and src/impl/threadpool.hpp. Each method is run
-- under its lock. The priority queue is the standard library's: what it takes off, for a comparison,
-- is a parameter.
pub mod Order
use websocket_client.Common.{
  ℕ, zero, suc, ◌+◌, ◌-◌, Bool, true, false, Option, none, some, List, [], ◌∷◌, ◌++◌, if◌then◌else◌,
  leb, ltb, ◌==◌,
}

-- `func` is a number.
pub record Task : Type 0 where
  pub time : ℕ
  pub func : ℕ

-- `Task::operator>`, through which `std::greater<Task>` compares the elements of `mTasks`.
unfoldable pub greater_task : Task → Task → Bool
greater_task task other = ltb other.time task.time

-- `ran` has the tasks that were taken, with the time when they were.
pub record Pool : Type 0 where
  pub tasks : List Task
  pub workers : ℕ
  pub busy_workers : ℕ
  pub joining : Bool
  pub ran : List Task

-- A round of `dequeue`: a task was taken; the worker waits, until a time if a task is there; or the
-- pool is joining, and there is none.
pub data Dequeued : Type 0 where
  taken : Task → Pool → Dequeued
  waits_until : ℕ → Pool → Dequeued
  waits : Pool → Dequeued
  leaves : Pool → Dequeued

unfoldable pub spawn : ℕ → Pool → Pool
spawn count p = record p { workers = p.workers + count }

-- `join`, which waits until no worker is busy: `none` while it does.
unfoldable pub join : Pool → Option Pool
join p = if p.busy_workers == 0 then some (record p { workers = 0; joining = false }) else none

unfoldable pub clear : Pool → Pool
clear p = record p { tasks = [] }

-- `schedule` with a time; the three forms end here.
unfoldable pub schedule : ℕ → ℕ → Pool → Pool
schedule time func p = record p { tasks = record { time = time; func = func } ∷ p.tasks }

unfoldable pub schedule_in : (now : ℕ) → ℕ → ℕ → Pool → Pool
schedule_in now delay func p = schedule (now + delay) func p

unfoldable pub enqueue : (now : ℕ) → ℕ → Pool → Pool
enqueue now func p = schedule now func p

module _ (pop : (Task → Task → Bool) → List Task → Option (Task × List Task)) where
  -- The worker stops to be busy while it waits.
  unfoldable pub dequeue : (now : ℕ) → Pool → Dequeued
  dequeue now p = if p.joining then leaves p else elim (pop greater_task p.tasks) [
    | none ↦ waits (record p { busy_workers = p.busy_workers - 1 })
    | some (task, tasks) ↦
        if leb task.time now
        then taken task (record p { tasks = tasks; ran = p.ran ++ (task ∷ []) })
        else waits_until task.time (record p { busy_workers = p.busy_workers - 1 })
  ]

  -- `runOne` where there is something to do at once, and `none` otherwise.
  unfoldable pub run_one : (now : ℕ) → Pool → Option Pool
  run_one now p = elim (dequeue now p) [
    | taken task p' ↦ some p'
    | waits_until time p' ↦ none
    | waits p' ↦ none
    | leaves p' ↦ none
  ]

  -- The loop of `run`, as far as there is something to do; the fuel bounds the rounds.
  abbrev pub run : ℕ → (now : ℕ) → Pool → Pool
  run zero now p = p
  run (suc fuel) now p = elim (run_one now p) [ none ↦ p | some p' ↦ run fuel now p' ]
