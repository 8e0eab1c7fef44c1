-- ===== src/Http/Lines/Complete.antt =====
-- `parseHttpLines` of src/impl/http.cpp on a complete block of lines.
use websocket_client.Common.{
  ℕ, zero, suc, ◌≤◌, ◌<◌, ◌≡◌, ◌≢◌, refl, ap, arith, false, some, List, [], ◌∷◌, ◌++◌, append_assoc,
  ◌==◌, length, length-append, All, inl, inr, Option-cases,
}
use websocket_client.Http.Lines.{
  find_newline, strip_return, parse_http_lines_loop, parse_http_lines,
}

-- A line that can stand in a block: some bytes, none of them a newline.
abbrev pub IsLine : List ℕ → Type 0
IsLine l = (l ≢ []) × All (λ c. (c == 10) ≡ false) l

-- The bytes of a block: each line ended by CR LF, and an empty line.
abbrev pub block : List (List ℕ) → List ℕ
block [] = 13 ∷ 10 ∷ []
block (l ∷ ls) = l ++ (13 ∷ 10 ∷ block ls)

find_newline-append :
    (l s : List ℕ)
    → All (λ c. (c == 10) ≡ false) l
    → find_newline (l ++ (13 ∷ 10 ∷ s)) ≡ some (l ++ (13 ∷ []), s)
unfolding find_newline
find_newline-append [] s h = refl
find_newline-append (c ∷ l) s h = rw (h.0, find_newline-append l s h.1)

strip_return-append : (l : List ℕ) → strip_return (l ++ (13 ∷ [])) ≡ l
unfolding strip_return
strip_return-append [] = refl
strip_return-append (c ∷ []) = refl
strip_return-append (c ∷ d ∷ l) = ap (λ t. c ∷ t) (strip_return-append (d ∷ l))

parse_loop-line :
    (fuel : ℕ) (c : ℕ) (l s : List ℕ) {lines : List (List ℕ)} {rest : List ℕ}
    → All (λ c. (c == 10) ≡ false) (c ∷ l)
    → parse_http_lines_loop fuel s ≡ some (lines, rest)
    → parse_http_lines_loop (suc fuel) (c ∷ l ++ (13 ∷ 10 ∷ s)) ≡ some ((c ∷ l) ∷ lines, rest)
unfolding parse_http_lines_loop
parse_loop-line fuel c l s h k =
    rw (parse_http_lines_loop, find_newline-append (c ∷ l) s h, strip_return-append (c ∷ l), k)

parse_loop-block :
    (lines : List (List ℕ)) (fuel : ℕ) (more : List ℕ)
    → length lines < fuel
    → All IsLine lines
    → parse_http_lines_loop fuel (block lines ++ more) ≡ some (lines, more)
parse_loop-block lines zero more h k = absurd (omega arith)
parse_loop-block [] (suc fuel) more h k =
    unfold parse_http_lines_loop find_newline strip_return in refl
parse_loop-block ([] ∷ ls) (suc fuel) more h k = absurd (k.0.0 refl)
parse_loop-block ((c ∷ l) ∷ ls) (suc fuel) more h k =
    rw (append_assoc l (13 ∷ 10 ∷ block ls) more) (
      parse_loop-line fuel c l (block ls ++ more) k.0.1
        (parse_loop-block ls fuel more (omega arith) k.1))

lines_le_block : (lines : List (List ℕ)) → length lines ≤ length (block lines)
lines_le_block [] = omega arith
lines_le_block (l ∷ ls) = omega (arith, lines_le_block ls, length-append l (13 ∷ 10 ∷ block ls))

-- A complete block is read whole: every line comes back, and exactly its bytes are consumed,
-- whatever follows it in the buffer.
pub parse_http_lines-block :
    (lines : List (List ℕ)) (more : List ℕ)
    → All IsLine lines
    → parse_http_lines (block lines ++ more) ≡ (length (block lines), lines)
unfolding parse_http_lines
parse_http_lines-block lines more h =
    rw
      (
        parse_http_lines,
        parse_loop-block lines (suc (length (block lines ++ more))) more
            (omega (arith, lines_le_block lines, length-append (block lines) more)) h,
      )
      (ap (λ n. (n, lines)) (omega (arith, length-append (block lines) more)))

pub find_newline_more :
    (buffer more line after : List ℕ)
    → find_newline buffer ≡ some (line, after)
    → find_newline (buffer ++ more) ≡ some (line, after ++ more)
unfolding find_newline
find_newline_more [] more line after h = cc
find_newline_more (c ∷ buffer) more line after h = elim (Option-cases (find_newline buffer)) [
  | inl e ↦ ground (arith, e)
  | inr (p, e) ↦ ground (arith, find_newline_more buffer more p.0 p.1 e)
]

-- What `find_newline` returns is the buffer, cut at the newline.
pub find_newline_splits :
    (buffer line after : List ℕ)
    → find_newline buffer ≡ some (line, after)
    → buffer ≡ line ++ (10 ∷ after)
unfolding find_newline
find_newline_splits [] line after h = cc
find_newline_splits (c ∷ buffer) line after h = elim (Option-cases (find_newline buffer)) [
  | inl e ↦ ground (arith, e)
  | inr (p, e) ↦ ground (arith, find_newline_splits buffer p.0 p.1 e)
]
