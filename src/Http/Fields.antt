-- ===== src/Http/Fields.antt =====
-- `parseHttpHeaders` of src/impl/http.cpp, and the lookup that its callers make.
-- `std::multimap` keeps entries of one key in the order of insertion, and `find` returns the first.
use websocket_client.Common.{
  ℕ, ◌+◌, ◌≡◌, refl, ap, false, ◌&&◌, Option, none, some, List, [], ◌∷◌, ◌++◌, map, leb, ◌==◌,
  if◌then◌else◌, bytes_eq, All,
}

-- `std::tolower` in the "C" locale.
unfoldable pub tolower : ℕ → ℕ
tolower c = if leb b'A' c && leb c b'Z' then c + 32 else c

-- `line.find_first_of(':')`, as what stands before the colon and what follows it.
pub find_colon : List ℕ → Option (List ℕ × List ℕ)
find_colon [] = none
find_colon (c ∷ line) =
    let rest = find_colon line in
    if c == b':'
    then some ([], line)
    else elim rest [ none ↦ none | some (key, value) ↦ some (c ∷ key, value) ]

-- From `line.find_first_not_of(' ', pos + 1)` on.
pub skip_spaces : List ℕ → List ℕ
skip_spaces [] = []
skip_spaces (c ∷ line) = let rest = skip_spaces line in if c == b' ' then rest else c ∷ line

abbrev pub Headers : Type 0
Headers = List (List ℕ × List ℕ)

-- A line with no colon is a key with an empty value, and is not put in lower case.
pub parse_http_header : List ℕ → List ℕ × List ℕ
parse_http_header line = elim (find_colon line) [
  | none ↦ (line, [])
  | some (key, value) ↦ (map tolower key, skip_spaces value)
]

unfoldable pub parse_http_headers : List (List ℕ) → Headers
parse_http_headers [] = []
parse_http_headers (line ∷ lines) = parse_http_header line ∷ parse_http_headers lines

unfoldable pub find_header : List ℕ → Headers → Option (List ℕ)
find_header key [] = none
find_header key ((k, value) ∷ headers) =
    if bytes_eq k key then some value else find_header key headers

find_colon-append :
    (key value : List ℕ)
    → All (λ c. (c == b':') ≡ false) key
    → find_colon (key ++ (b':' ∷ value)) ≡ some (key, value)
unfolding find_colon
find_colon-append [] value h = refl
find_colon-append (c ∷ key) value h = rw (h.0, find_colon-append key value h.1)

-- A text that does not begin with a space.
abbrev pub NoLeadingSpace : List ℕ → Type 0
NoLeadingSpace [] = Unit
NoLeadingSpace (c ∷ s) = (c == b' ') ≡ false

skip_spaces_id : (s : List ℕ) → NoLeadingSpace s → skip_spaces s ≡ s
unfolding skip_spaces
skip_spaces_id [] h = refl
skip_spaces_id (c ∷ s) h = rw h

skip_spaces-space : (s : List ℕ) → NoLeadingSpace s → skip_spaces (b' ' ∷ s) ≡ s
unfolding skip_spaces
skip_spaces-space s h = skip_spaces_id s h

-- A header line `key: value` is read as the key in lower case and the value, spaces dropped.
pub parse_http_header-line :
    (key value : List ℕ)
    → All (λ c. (c == b':') ≡ false) key
    → NoLeadingSpace value
    → parse_http_header (key ++ (b':' ∷ b' ' ∷ value)) ≡ (map tolower key, value)
unfolding parse_http_header
parse_http_header-line key value h k =
    rw (parse_http_header, find_colon-append key (b' ' ∷ value) h)
      (ap (λ v. (map tolower key, v)) (skip_spaces-space value k))
