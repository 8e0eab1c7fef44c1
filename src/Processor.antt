-- ===== src/Processor.antt =====
-- The class `Processor` of src/impl/processor.hpp and src/impl/processor.cpp: tasks, known by
-- numbers, are handed to the thread pool one at a time. `submitted` is what the pool was given.
use mathlib.Core.Path.{subst}
use websocket_client.Common.{
  ℕ, ◌+◌, ◌≡◌, refl, ap, sym, ◌∙◌, arith, Bool, true, false, List, [], ◌∷◌, ◌++◌, append_assoc,
  append-nil, if◌then◌else◌, length, length-append, Bool-cases, inl, inr,
}

pub record Processor : Type 0 where
  pub pending : Bool
  pub tasks : List ℕ
  pub submitted : List ℕ

unfoldable pub enqueue : ℕ → Processor → Processor
enqueue task p =
    if p.pending
    then record p { tasks = p.tasks ++ (task ∷ []) }
    else record p { submitted = p.submitted ++ (task ∷ []); pending = true }

-- Run when the task in the pool ends.
unfoldable pub schedule : Processor → Processor
schedule p = elim p.tasks [
  | [] ↦ record p { pending = false }
  | task ∷ tasks ↦ record p { tasks = tasks; submitted = p.submitted ++ (task ∷ []) }
]

-- What can happen: `enqueue`, and the end of the task in the pool, if there is one.
pub data Step : Type 0 where
  enqueues : ℕ → Step
  ends : Step

pub record History : Type 0 where
  pub processor : Processor
  pub enqueued : List ℕ
  pub ended : ℕ

abbrev pub step : Step → History → History
step (enqueues task) h = record h {
  processor = enqueue task h.processor;
  enqueued = h.enqueued ++ (task ∷ []);
}
step ends h =
    if h.processor.pending
    then record h { processor = schedule h.processor; ended = h.ended + 1 }
    else h

abbrev pub run : List Step → History → History
run [] h = h
run (s ∷ steps) h = run steps (step s h)

-- The pool was given a first part of the tasks, in order, and the rest wait; all but the last one given
-- have ended, and the last one too if none is pending; and tasks wait only behind a pending one.
pub record IsOrdered (h : History) : Type 0 where
  pub in_order : h.processor.submitted ++ h.processor.tasks ≡ h.enqueued
  pub one_at_a_time :
      length h.processor.submitted ≡ h.ended + (if h.processor.pending then 1 else 0)
  pub none_waits : h.processor.pending ≡ false → h.processor.tasks ≡ []

step_enqueues : (task : ℕ) (h : History) → IsOrdered h → IsOrdered (step (enqueues task) h)
unfolding enqueue
step_enqueues task h v = elim (Bool-cases h.processor.pending) [
  | inl e ↦
      rw (enqueue, e)
        (record {
          in_order =
              sym (append_assoc h.processor.submitted h.processor.tasks (task ∷ []))
              ∙ ap (λ t. t ++ (task ∷ [])) v.in_order;
          one_at_a_time = ground (arith, v.one_at_a_time, e);
          none_waits = λ f. absurd cc;
        })
  | inr e ↦
      rw (enqueue, e)
        (record {
          in_order =
              append_assoc h.processor.submitted (task ∷ []) h.processor.tasks
              ∙ ap (λ t. h.processor.submitted ++ (task ∷ t)) (v.none_waits e)
              ∙ ap (λ t. t ++ (task ∷ []))
                  (sym (append-nil h.processor.submitted)
                    ∙ ap (λ t. h.processor.submitted ++ t) (sym (v.none_waits e))
                    ∙ v.in_order);
          one_at_a_time =
              ground (arith, v.one_at_a_time, e, length-append h.processor.submitted (task ∷ []));
          none_waits = λ f. absurd cc;
        })
]

step_ends : (h : History) → IsOrdered h → IsOrdered (step ends h)
unfolding schedule
step_ends h v = elim (Bool-cases h.processor.pending) [
  | inr e ↦ let same : step ends h ≡ h = simp (step, e) in subst IsOrdered (sym same) v
  | inl e ↦ go h.processor.tasks refl e
]
  where
    go :
        (tasks : List ℕ)
        → h.processor.tasks ≡ tasks
        → h.processor.pending ≡ true
        → IsOrdered (step ends h)
    go [] t e =
        rw (step, e, schedule, t)
          (record {
            in_order = v.in_order;
            one_at_a_time = ground (arith, v.one_at_a_time, e);
            none_waits = λ f. t;
          })
    go (task ∷ tasks) t e =
        rw (step, e, schedule, t)
          (record {
            in_order =
                append_assoc h.processor.submitted (task ∷ []) tasks
                ∙ ap (λ x. h.processor.submitted ++ x) (sym t)
                ∙ v.in_order;
            one_at_a_time =
                ground (arith, v.one_at_a_time, e, length-append h.processor.submitted (task ∷ []));
            none_waits = λ f. absurd cc;
          })

-- From a history in which tasks were given to the pool in the order of their enqueueing, one at a
-- time, every further history is so: the pool is given the tasks in order, a task only when the
-- one before it has ended, and tasks wait only while one is pending.
pub run-IsOrdered : (steps : List Step) (h : History) → IsOrdered h → IsOrdered (run steps h)
run-IsOrdered [] h v = v
run-IsOrdered (enqueues task ∷ steps) h v =
    run-IsOrdered steps (step (enqueues task) h) (step_enqueues task h v)
run-IsOrdered (ends ∷ steps) h v = run-IsOrdered steps (step ends h) (step_ends h v)
