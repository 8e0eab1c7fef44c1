-- ===== src/Http/Lines/Prefix.antt =====
-- `parseHttpLines` of src/impl/http.cpp on a buffer that grows.
use websocket_client.Common.{
  ℕ, zero, suc, ◌-◌, ◌≤◌, ◌<◌, ◌≡◌, ◌≢◌, refl, ap, sym, ◌∙◌, arith, ◌⊎◌, some, List, [], ◌∷◌, ◌++◌,
  append_assoc, length, length-append, inl, inr, Option-cases,
}
use websocket_client.Http.Lines.{
  find_newline, strip_return, parse_http_lines_loop, parse_http_lines,
}
use websocket_client.Http.Lines.Complete.{find_newline_more, find_newline_splits}

List-cases : (l : List ℕ) → (l ≡ []) ⊎ ((c : ℕ) × (t : List ℕ) × (l ≡ c ∷ t))
List-cases [] = inl refl
List-cases (c ∷ t) = inr (c, t, refl)

parse_loop_more :
    (f g : ℕ) (buffer more : List ℕ) (lines : List (List ℕ)) (rest : List ℕ)
    → f ≤ g
    → parse_http_lines_loop f buffer ≡ some (lines, rest)
    → parse_http_lines_loop g (buffer ++ more) ≡ some (lines, rest ++ more)
unfolding parse_http_lines_loop
parse_loop_more zero g buffer more lines rest le h = cc
parse_loop_more (suc f) zero buffer more lines rest le h = absurd (omega arith)
parse_loop_more (suc f) (suc g) buffer more lines rest le h =
    elim (Option-cases (find_newline buffer)) [
      | inl e ↦ ground (arith, e)
      | inr (p, e) ↦ elim (List-cases (strip_return p.0)) [
        | inl s ↦ ground (arith, find_newline_more buffer more p.0 p.1 e)
        | inr (c, t, s) ↦ elim (Option-cases (parse_http_lines_loop f p.1)) [
          | inl n ↦ ground (arith, e)
          | inr (q, n) ↦ ground (
            arith,
            find_newline_more buffer more p.0 p.1 e,
            parse_loop_more f g p.1 more q.0 q.1 (omega arith) n,
          )
        ]
      ]
    ]

-- The buffer is what stood before the rest, at least one byte, and the rest.
abbrev EndsWith : List ℕ → List ℕ → Type 0
EndsWith buffer rest = (front : List ℕ) × (buffer ≡ front ++ rest) × (0 < length front)

line_EndsWith :
    (buffer line after : List ℕ) → find_newline buffer ≡ some (line, after) → EndsWith buffer after
line_EndsWith buffer line after e = (
  line ++ (10 ∷ []),
  find_newline_splits buffer line after e ∙ sym (append_assoc line (10 ∷ []) after),
  omega (arith, length-append line (10 ∷ [])),
)

EndsWith-trans : (a b c : List ℕ) → EndsWith a b → EndsWith b c → EndsWith a c
EndsWith-trans a b c (f, p, m) (g, q, n) =
    (f ++ g, p ∙ ap (λ t. f ++ t) q ∙ sym (append_assoc f g c), omega (arith, length-append f g))

parse_loop_EndsWith :
    (f : ℕ) (buffer : List ℕ) (lines : List (List ℕ)) (rest : List ℕ)
    → parse_http_lines_loop f buffer ≡ some (lines, rest)
    → EndsWith buffer rest
unfolding parse_http_lines_loop
parse_loop_EndsWith zero buffer lines rest h = absurd cc
parse_loop_EndsWith (suc f) buffer lines rest h = elim (Option-cases (find_newline buffer)) [
  | inl e ↦ absurd (ground (arith, e))
  | inr (p, e) ↦ elim (List-cases (strip_return p.0)) [
    | inl s ↦
        let same : rest ≡ p.1 = ground (arith, e, s) in rw same (line_EndsWith buffer p.0 p.1 e)
    | inr (c, t, s) ↦ elim (Option-cases (parse_http_lines_loop f p.1)) [
      | inl n ↦ absurd (ground (arith, e))
      | inr (q, n) ↦
          let same : rest ≡ q.1 = ground (arith, e, s, n) in
          rw same (
            EndsWith-trans buffer p.1 q.1 (line_EndsWith buffer p.0 p.1 e)
              (parse_loop_EndsWith f p.1 q.0 q.1 n))
    ]
  ]
]

parse_of_loop :
    (buffer : List ℕ) (lines : List (List ℕ)) (rest : List ℕ)
    → parse_http_lines_loop (suc (length buffer)) buffer ≡ some (lines, rest)
    → parse_http_lines buffer ≡ (length buffer - length rest, lines)
unfolding parse_http_lines
parse_of_loop buffer lines rest h = rw (parse_http_lines, h)

-- When the block is complete (the count is not 0), the count is within the buffer, and the same
-- count and lines are read from the buffer with any further bytes behind it.
pub parse_http_lines_stable :
    (buffer more : List ℕ)
    → (parse_http_lines buffer).0 ≢ 0
    → ((parse_http_lines buffer).0 ≤ length buffer)
      × (parse_http_lines (buffer ++ more) ≡ parse_http_lines buffer)
parse_http_lines_stable buffer more h =
    elim (Option-cases (parse_http_lines_loop (suc (length buffer)) buffer)) [
      | inl e ↦ absurd (h (unfold parse_http_lines in rw (parse_http_lines, e)))
      | inr (p, e) ↦
          let (front, cut, pos) = parse_loop_EndsWith (suc (length buffer)) buffer p.0 p.1 e in
          let here = parse_of_loop buffer p.0 p.1 e in
          let there = parse_of_loop (buffer ++ more) p.0 (p.1 ++ more) (
            parse_loop_more (suc (length buffer)) (suc (length (buffer ++ more))) buffer more p.0
              p.1 (omega (arith, length-append buffer more)) e) in
          (
            rw here (omega arith),
            there
                ∙ ap (λ n. (n, p.0))
                    (omega (arith, length-append buffer more, length-append p.1 more))
                ∙ sym here,
          )
    ]
