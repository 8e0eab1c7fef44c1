-- ===== src/Queue.antt =====
-- The class template `Queue` of src/impl/queue.hpp. Each method holds the lock from its beginning to
-- its end; a push that would wait is `none`.
pub mod Order
use websocket_client.Common.{
  ℕ, ◌+◌, ◌-◌, Bool, true, false, not, ◌&&◌, ◌||◌, Option, none, some, List, [], ◌∷◌, ◌++◌,
  if◌then◌else◌, ◌==◌, ltb, leb, length,
}

pub record Queue {ℓ} (A : Type ℓ) : Type ℓ where
  pub limit : ℕ
  pub amount : ℕ
  pub elements : List A
  pub stopping : Bool

-- The constructor.
abbrev pub empty_queue {ℓ} : {A : Type ℓ} → ℕ → Queue A
empty_queue limit = record { limit = limit; amount = 0; elements = []; stopping = false }

abbrev pub stop {ℓ} : {A : Type ℓ} → Queue A → Queue A
stop q = record q { stopping = true }

abbrev pub is_empty {ℓ} : {A : Type ℓ} → List A → Bool
is_empty [] = true
is_empty (x ∷ xs) = false

abbrev pub running {ℓ} : {A : Type ℓ} → Queue A → Bool
running q = not (is_empty q.elements) || not q.stopping

abbrev pub full {ℓ} : {A : Type ℓ} → Queue A → Bool
full q = ltb 0 q.limit && leb q.limit (length q.elements)

unfoldable pub push {ℓ} : {A : Type ℓ} → (A → ℕ) → A → Queue A → Option (Queue A)
push f x q =
    if not (q.limit == 0 || (ltb (length q.elements) q.limit || q.stopping))
    then none
    else if q.stopping
    then some q
    else some (record q { amount = q.amount + f x; elements = q.elements ++ (x ∷ []) })

unfoldable pub pop {ℓ} : {A : Type ℓ} → (A → ℕ) → Queue A → Option (A × Queue A)
pop f q = elim q.elements [
  | [] ↦ none
  | x ∷ rest ↦ some (x, record q { amount = q.amount - f x; elements = rest })
]

abbrev pub peek {ℓ} : {A : Type ℓ} → Queue A → Option A
peek q = elim q.elements [ [] ↦ none | x ∷ rest ↦ some x ]

-- The front is replaced; the amount stays as it is.
unfoldable pub exchange {ℓ} : {A : Type ℓ} → A → Queue A → Option (A × Queue A)
exchange y q = elim q.elements [ [] ↦ none | x ∷ rest ↦ some (x, record q { elements = y ∷ rest }) ]
