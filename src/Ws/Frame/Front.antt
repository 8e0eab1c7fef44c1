-- ===== src/Ws/Frame/Front.antt =====
-- The frame header at the front of the buffer, in `parseFrame` of src/impl/wstransport.cpp.
use websocket_client.Common.{
  ℕ, zero, suc, ◌≤◌, ◌≡◌, ap, sym, ◌∙◌, arith, bit_and, Bool, true, false, not, Option, some, List,
  [], ◌∷◌, ◌++◌, append_assoc, length, ◌==◌, Bool-cases, Option-cases, inl, inr,
}
use websocket_client.Ws.Frame.{Header, take_bytes, parse_length, parse_key, parse_header}
use websocket_client.Ws.Frame.RoundTrip.{take_bytes-append}

-- A parser that read `value` from the front of `cur` reads it before any other rest.
abbrev ReadsFront {ℓ} : {A : Type ℓ} → (List ℕ → Option (A × List ℕ)) → A → List ℕ → List ℕ → Type ℓ
ReadsFront parse value cur rest =
    (front : List ℕ) × (cur ≡ front ++ rest)
    × ((more : List ℕ) → parse (front ++ more) ≡ some (value, more))

take_bytes_splits :
    (n : ℕ) (cur bytes rest : List ℕ)
    → take_bytes n cur ≡ some (bytes, rest)
    → (cur ≡ bytes ++ rest) × (length bytes ≡ n)
unfolding take_bytes
take_bytes_splits zero cur bytes rest h = (cc, cc)
take_bytes_splits (suc n) [] bytes rest h = absurd cc
take_bytes_splits (suc n) (b ∷ cur) bytes rest h = elim (Option-cases (take_bytes n cur)) [
  | inl e ↦ absurd (ground (arith, e))
  | inr (p, e) ↦ ground (arith, take_bytes_splits n cur p.0 p.1 e)
]

take_bytes-ReadsFront :
    (n : ℕ) (cur bytes rest : List ℕ)
    → take_bytes n cur ≡ some (bytes, rest)
    → ReadsFront (take_bytes n) bytes cur rest
take_bytes-ReadsFront n cur bytes rest h =
    let (split, size) = take_bytes_splits n cur bytes rest h in
    (bytes, split, λ more. take_bytes-append n bytes more size)

parse_length-ReadsFront :
    (n : ℕ) (cur : List ℕ) (len : ℕ) (rest : List ℕ)
    → parse_length n cur ≡ some (len, rest)
    → ReadsFront (parse_length n) len cur rest
unfolding parse_length
parse_length-ReadsFront n cur len rest h = elim (Bool-cases (n == 0x7E)) [
  | inl e ↦ elim (Option-cases (take_bytes 2 cur)) [
    | inl k ↦ absurd (ground (arith, e, k))
    | inr (p, k) ↦
        let (front, split, read) = take_bytes-ReadsFront 2 cur p.0 p.1 k in
        (front, ground (arith, e, k, split), λ more. ground (arith, e, k, read more))
  ]
  | inr e ↦ elim (Bool-cases (n == 0x7F)) [
    | inl e' ↦ elim (Option-cases (take_bytes 8 cur)) [
      | inl k ↦ absurd (ground (arith, e, e', k))
      | inr (p, k) ↦
          let (front, split, read) = take_bytes-ReadsFront 8 cur p.0 p.1 k in
          (front, ground (arith, e, e', k, split), λ more. ground (arith, e, e', k, read more))
    ]
    | inr e' ↦ ([], ground (arith, e, e'), λ more. ground (arith, e, e'))
  ]
]

parse_key-ReadsFront :
    (mask : Bool) (cur key rest : List ℕ)
    → parse_key mask cur ≡ some (key, rest)
    → ReadsFront (parse_key mask) key cur rest
unfolding parse_key
parse_key-ReadsFront true cur key rest h = take_bytes-ReadsFront 4 cur key rest h
parse_key-ReadsFront false cur key rest h = ([], cc, λ more. cc)

-- The header that the first two bytes, the length and the key make.
abbrev made : ℕ → ℕ → ℕ → List ℕ → List ℕ → Header
made b1 b2 len key cur = record {
  fin = not (bit_and b1 0x80 == 0);
  mask = not (bit_and b2 0x80 == 0);
  opcode = bit_and b1 0x0F;
  wire_length = len;
  masking_key = key;
  cur = cur;
}

parse_header-made :
    (b1 b2 len : ℕ) (cur cur1 key cur2 : List ℕ)
    → parse_length (bit_and b2 0x7F) cur ≡ some (len, cur1)
    → parse_key (not (bit_and b2 0x80 == 0)) cur1 ≡ some (key, cur2)
    → parse_header (b1 ∷ b2 ∷ cur) ≡ some (made b1 b2 len key cur2)
unfolding parse_header
parse_header-made b1 b2 len cur cur1 key cur2 e f = rw (parse_header, e, f)

-- The header stands in front of `h.cur`, and is read alike before any other rest.
pub record HeaderFront (buffer : List ℕ) (h : Header) : Type 0 where
  pub front : List ℕ
  pub split : buffer ≡ front ++ h.cur
  pub size : 2 ≤ length front
  pub read : (more : List ℕ) → parse_header (front ++ more) ≡ some (record h { cur = more })

pub parse_header_front :
    (buffer : List ℕ) (h : Header) → parse_header buffer ≡ some h → HeaderFront buffer h
unfolding parse_header
parse_header_front [] h e = absurd cc
parse_header_front (b1 ∷ []) h e = absurd cc
parse_header_front (b1 ∷ b2 ∷ cur) h e = elim (Option-cases (parse_length (bit_and b2 0x7F) cur)) [
  | inl k ↦ absurd (ground (arith, k))
  | inr (p, k) ↦ elim (Option-cases (parse_key (not (bit_and b2 0x80 == 0)) p.1)) [
    | inl k' ↦ absurd (ground (arith, k, k'))
    | inr (q, k') ↦
        let (f1, s1, r1) = parse_length-ReadsFront (bit_and b2 0x7F) cur p.0 p.1 k in
        let (f2, s2, r2) = parse_key-ReadsFront (not (bit_and b2 0x80 == 0)) p.1 q.0 q.1 k' in
        let same : made b1 b2 p.0 q.0 q.1 ≡ h =
          cc (parse_header-made b1 b2 p.0 cur p.1 q.0 q.1 k k') in
        record {
          front = b1 ∷ b2 ∷ f1 ++ f2;
          split =
              ap (λ t. b1 ∷ b2 ∷ t)
                (s1
                  ∙ ap (λ t. f1 ++ t) (s2 ∙ ap (λ t. f2 ++ t) (ap (λ (x : Header). x.cur) same))
                  ∙ sym (append_assoc f1 f2 h.cur));
          size = omega arith;
          read = λ more.
              ap (λ t. parse_header (b1 ∷ b2 ∷ t)) (append_assoc f1 f2 more)
              ∙ parse_header-made b1 b2 p.0 (f1 ++ (f2 ++ more)) (f2 ++ more) q.0 more
                  (r1 (f2 ++ more)) (r2 more)
              ∙ ap (λ (x : Header). some (record x { cur = more })) same;
        }
  ]
]
