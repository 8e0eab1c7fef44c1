-- ===== src/Queue/Order.antt =====
-- Runs of pushes and pops of `Queue` in src/impl/queue.hpp.
use mathlib.Core.Path.{subst}
use websocket_client.Common.{
  ℕ, ◌+◌, ◌≤◌, ◌<◌, ◌≡◌, refl, ap, sym, ◌∙◌, arith, not, ◌||◌, none, some, List, [], ◌∷◌, ◌++◌,
  append_assoc, if◌then◌else◌, ◌==◌, ltb, length, length-append, Bool-cases, inl, inr,
}
use websocket_client.Queue.{Queue, push, pop}

pub data Op {ℓ} (A : Type ℓ) : Type ℓ where
  pushing : A → Op A
  popping : Op A

module _ {ℓ} {A : Type ℓ} (f : A → ℕ) where
  -- The queue, what was pushed and what was popped; a push that waits leaves it alone.
  pub record Run : Type ℓ where
    pub queue : Queue A
    pub pushed : List A
    pub popped : List A

  abbrev pub step : Op A → Run → Run
  step (pushing x) r = elim (push f x r.queue) [
    | none ↦ r
    | some q ↦ if r.queue.stopping then r else record r { queue = q; pushed = r.pushed ++ (x ∷ []) }
  ]
  step popping r = elim (pop f r.queue) [
    | none ↦ r
    | some (x, q) ↦ record r { queue = q; popped = r.popped ++ (x ∷ []) }
  ]

  abbrev pub run : List (Op A) → Run → Run
  run [] r = r
  run (op ∷ ops) r = run ops (step op r)

  abbrev pub total : List A → ℕ
  total [] = 0
  total (x ∷ xs) = f x + total xs

  total-append : (xs : List A) (x : A) → total (xs ++ (x ∷ [])) ≡ total xs + f x
  total-append [] x = omega arith
  total-append (y ∷ ys) x = omega (arith, total-append ys x)

  -- What was popped and what is still there is what was pushed, in order; the amount is the sum over
  -- the elements; and a limit is kept.
  pub record IsSound (r : Run) : Type ℓ where
    pub in_order : r.popped ++ r.queue.elements ≡ r.pushed
    pub amount_is : r.queue.amount ≡ total r.queue.elements
    pub within : (0 < r.queue.limit) → length r.queue.elements ≤ r.queue.limit

  push_step : (x : A) (r : Run) → IsSound r → IsSound (step (pushing x) r)
  unfolding push
  push_step x r v =
      elim (Bool-cases (
        not (
          r.queue.limit == 0
          || (ltb (length r.queue.elements) r.queue.limit || r.queue.stopping)))) [
            | inl e ↦ rw (step, push, e) v
            | inr e ↦ elim (Bool-cases r.queue.stopping) [
              | inl s ↦
                  let same : step (pushing x) r ≡ r = ground (arith, e, s) in
                  subst IsSound (sym same) v
              | inr s ↦
                  let after = record r {
                    queue = record r.queue {
                      amount = r.queue.amount + f x;
                      elements = r.queue.elements ++ (x ∷ []);
                    };
                    pushed = r.pushed ++ (x ∷ []);
                  } in
                  let same : step (pushing x) r ≡ after = ground (arith, e, s) in
                  let sound : IsSound after = record {
                    in_order =
                        sym (append_assoc r.popped r.queue.elements (x ∷ []))
                        ∙ ap (λ t. t ++ (x ∷ [])) v.in_order;
                    amount_is = omega (arith, v.amount_is, total-append r.queue.elements x);
                    within = λ h.
                        ground (arith, length-append r.queue.elements (x ∷ []), v.within h, e, s);
                  } in
                  subst IsSound (sym same) sound
            ]
          ]

  pop_step : (r : Run) → IsSound r → IsSound (step popping r)
  unfolding pop
  pop_step r v = go r.queue.elements refl
    where
      go : (xs : List A) → r.queue.elements ≡ xs → IsSound (step popping r)
      go [] e = rw (step, pop, e) v
      go (x ∷ rest) e =
          rw (step, pop, e)
            (record {
              in_order =
                  append_assoc r.popped (x ∷ []) rest
                  ∙ ap (λ t. r.popped ++ t) (sym e)
                  ∙ v.in_order;
              amount_is = omega (arith, v.amount_is, ap total e);
              within = λ h. omega (arith, v.within h, ap length e);
            })

  -- From a queue whose amount is the sum over its elements and which keeps its limit: after any
  -- pushes and pops, what was popped and what is left is what was pushed, in order, the amount is
  -- the sum over the elements, and the limit is kept.
  pub run-IsSound : (ops : List (Op A)) (r : Run) → IsSound r → IsSound (run ops r)
  run-IsSound [] r v = v
  run-IsSound (pushing x ∷ ops) r v = run-IsSound ops (step (pushing x) r) (push_step x r v)
  run-IsSound (popping ∷ ops) r v = run-IsSound ops (step popping r) (pop_step r v)
