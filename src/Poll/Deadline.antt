-- ===== src/Poll/Deadline.antt =====
-- The deadlines of src/impl/pollservice.cpp: the one that `prepare` finds, and the round after it.
use mathlib.Core.Option.{some-injective, some-ne-none}
use websocket_client.Common.{
  ℕ, ◌≤◌, ◌≡◌, refl, sym, ap, ◌∙◌, arith, min, Option, none, some, List, [], ◌∷◌, Bool-cases, inl,
  inr, ◌⊎◌, ◌==◌,
}
use websocket_client.Common.Maps.{lookup, IsMap}
use websocket_client.Poll.{SocketEntry, Poll, sooner, prepare_from, prepare}

-- The deadline of a registered socket.
abbrev pub IsDeadline : ℕ → List (ℕ × SocketEntry) → Type 0
IsDeadline n socks =
    (sock : ℕ) × (entry : SocketEntry) × (lookup sock socks ≡ some entry) × (entry.until ≡ some n)

-- The deadline that was found is that of a socket, and no socket has one without one being found
-- that is not later.
pub record IsNext (socks : List (ℕ × SocketEntry)) (next : Option ℕ) : Type 0 where
  pub attained : (n : ℕ) → next ≡ some n → IsDeadline n socks
  pub least : (u : ℕ) → IsDeadline u socks → (n : ℕ) × (next ≡ some n) × (n ≤ u)

-- The one at hand is kept or becomes sooner.
sooner-le :
    (next until : Option ℕ) (u : ℕ)
    → next ≡ some u
    → (n : ℕ) × (sooner next until ≡ some n) × (n ≤ u)
sooner-le next none u e = (u, e, omega arith)
sooner-le none (some v) u e = absurd (some-ne-none u (sym e))
sooner-le (some m) (some v) u e = (min m v, refl, omega (arith, some-injective m u e))

sooner-until : (next : Option ℕ) (u : ℕ) → (n : ℕ) × (sooner next (some u) ≡ some n) × (n ≤ u)
sooner-until none u = (u, refl, omega arith)
sooner-until (some m) u = (min m u, refl, omega arith)

prepare_from-le :
    (socks : List (ℕ × SocketEntry)) (next : Option ℕ) (u : ℕ)
    → next ≡ some u
    → (n : ℕ) × ((prepare_from next socks).1 ≡ some n) × (n ≤ u)
prepare_from-le [] next u e = (u, e, omega arith)
prepare_from-le ((sock, entry) ∷ socks) next u e =
    let (m, f, h) = sooner-le next entry.until u e in
    let (n, g, k) = prepare_from-le socks (sooner next entry.until) m f in
    (n, g, omega (arith, h, k))

prepare_from-least :
    (socks : List (ℕ × SocketEntry)) (next : Option ℕ) (sock : ℕ) (entry : SocketEntry) (u : ℕ)
    → lookup sock socks ≡ some entry
    → entry.until ≡ some u
    → (n : ℕ) × ((prepare_from next socks).1 ≡ some n) × (n ≤ u)
prepare_from-least [] next sock entry u e f = absurd (some-ne-none entry (sym e))
prepare_from-least ((s, first) ∷ socks) next sock entry u e f = elim (Bool-cases (s == sock)) [
  | inl same ↦
      let here : first.until ≡ some u =
        ap (λ x. x.until) (some-injective first entry (rw same at e)) ∙ f in
      let (m, g, h) = sooner-until next u in
      let (n, k, l) =
        prepare_from-le socks (sooner next first.until) m (ap (sooner next) here ∙ g) in
      (n, k, omega (arith, h, l))
  | inr other ↦ prepare_from-least socks (sooner next first.until) sock entry u (rw other at e) f
]

sooner-attained :
    (next until : Option ℕ) (n : ℕ)
    → sooner next until ≡ some n
    → (next ≡ some n) ⊎ (until ≡ some n)
sooner-attained next none n e = inl e
sooner-attained none (some v) n e = inr e
sooner-attained (some m) (some v) n e = ground (arith, some-injective (min m v) n e)

prepare_from-attained :
    (socks : List (ℕ × SocketEntry)) (next : Option ℕ) (n : ℕ)
    → IsMap socks
    → (prepare_from next socks).1 ≡ some n
    → (next ≡ some n) ⊎ IsDeadline n socks
prepare_from-attained [] next n h e = inl e
prepare_from-attained ((s, first) ∷ socks) next n h e =
    elim (prepare_from-attained socks (sooner next first.until) n h.1 e) [
      | inl f ↦ elim (sooner-attained next first.until n f) [
        | inl g ↦ inl g
        | inr g ↦ inr (s, first, ground arith, g)
      ]
      | inr (sock, entry, f, g) ↦ inr (sock, entry, ground (arith, f, h.0), g)
    ]

-- Where no socket is registered twice, the deadline that prepare finds is that of a registered
-- socket, and none of them has an earlier one; none is found only if no socket has a deadline.
pub prepare-IsNext : (w : Poll) → IsMap w.socks → IsNext w.socks (prepare w).1
unfolding prepare
prepare-IsNext w h = record {
  attained = λ n e. elim (prepare_from-attained w.socks none n h e) [
    | inl f ↦ absurd (some-ne-none n (sym f))
    | inr d ↦ d
  ];
  least = λ u d. prepare_from-least w.socks none d.0 d.1 u d.2 d.3;
}
