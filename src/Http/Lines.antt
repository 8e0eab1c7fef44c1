-- ===== src/Http/Lines.antt =====
-- `isHttpRequest` and `parseHttpLines` of src/impl/http.cpp.
pub mod Complete
pub mod Prefix
use websocket_client.Common.{
  ℕ, zero, suc, ◌+◌, ◌-◌, ◌≤◌, ◌<◌, ◌≡◌, ◌≢◌, refl, ap, ap₂, sym, ◌∙◌, arith, Bool, true, false,
  not, ◌&&◌, ◌||◌, Option, none, some, List, [], ◌∷◌, ◌++◌, append_assoc, append-nil, ltb, leb,
  ◌==◌, if◌then◌else◌, ==-refl, length, length-append, drop, take, All, Bool-cases, inl, inr, codes,
}

-- Upper-case letters, at most eight of them, up to a space that is not the first character.
is_http_request_from : ℕ → List ℕ → Bool
is_http_request_from i [] = true
is_http_request_from i (c ∷ buffer) =
    let rest = is_http_request_from (i + 1) buffer in
    if ltb 0 i && c == b' '
    then true
    else if leb 8 i || (ltb c b'A' || ltb b'Z' c)
    then false
    else rest

unfoldable pub is_http_request : List ℕ → Bool
unfolding is_http_request_from
is_http_request buffer = is_http_request_from 0 buffer

-- `std::find(cur, end, '\n')`: what stands before it and what follows it, if there is one.
unfoldable pub find_newline : List ℕ → Option (List ℕ × List ℕ)
find_newline [] = none
find_newline (c ∷ buffer) =
    let rest = find_newline buffer in
    if c == 10
    then some ([], buffer)
    else elim rest [ none ↦ none | some (line, after) ↦ some (c ∷ line, after) ]

-- A `\r` just before the newline is not part of the line.
unfoldable pub strip_return : List ℕ → List ℕ
strip_return [] = []
strip_return (c ∷ []) = if c == 13 then [] else c ∷ []
strip_return (c ∷ d ∷ line) = c ∷ strip_return (d ∷ line)

-- The lines up to the empty one, and what follows that.
unfoldable pub parse_http_lines_loop : ℕ → List ℕ → Option (List (List ℕ) × List ℕ)
parse_http_lines_loop zero buffer = none
parse_http_lines_loop (suc fuel) buffer = elim (find_newline buffer) [
  | none ↦ none
  | some (line, after) ↦ elim (strip_return line) [
    | [] ↦ some ([], after)
    | c ∷ l ↦ elim (parse_http_lines_loop fuel after) [
      | none ↦ none
      | some (lines, rest) ↦ some ((c ∷ l) ∷ lines, rest)
    ]
  ]
]

-- The number of bytes consumed, 0 if the block is not complete yet, and the lines. Each line
-- takes a byte at least, so the size of the buffer is fuel enough.
unfoldable pub parse_http_lines : List ℕ → ℕ × List (List ℕ)
parse_http_lines buffer = elim (parse_http_lines_loop (suc (length buffer)) buffer) [
  | none ↦ (0, [])
  | some (lines, rest) ↦ (length buffer - length rest, lines)
]
