-- ===== src/Url.antt =====
-- The regular expression for URLs, which src/impl/websocketimpl.cpp and src/configuration.cpp share,
-- as `std::regex_match` reads a text with it. Its classes leave one way to match at each place: a
-- run goes to the first character outside its class, and an optional group is taken if it is there.
pub mod Pieces
pub mod Runs
pub mod Sound
pub mod RoundTrip
use websocket_client.Common.{
  ℕ, Bool, true, false, not, ◌&&◌, Option, none, some, List, [], ◌∷◌, ◌++◌, ◌==◌, if◌then◌else◌,
}

-- The groups: 2, the slashes before group 4, 6, 8, 10, 12, 13, 15 and 17.
pub record Match : Type 0 where
  pub scheme : Option (List ℕ)
  pub slashes : List ℕ
  pub username : Option (List ℕ)
  pub password : Option (List ℕ)
  pub hostname : List ℕ
  pub service : Option (List ℕ)
  pub path : List ℕ
  pub query : Option (List ℕ)
  pub fragment : Option (List ℕ)

-- The classes. A `.` matches all but the null character.
abbrev pub is_query : ℕ → Bool
is_query c = not (c == b'#')

abbrev pub is_path : ℕ → Bool
is_path c = not (c == b'?') && is_query c

abbrev pub is_service : ℕ → Bool
is_service c = not (c == b'/') && is_path c

abbrev pub is_host : ℕ → Bool
is_host c = not (c == b':') && is_service c

abbrev pub is_scheme : ℕ → Bool
is_scheme c = not (c == b'.') && (not (c == b'@') && is_host c)

abbrev pub is_password : ℕ → Bool
is_password c = not (c == b'@')

abbrev pub is_user : ℕ → Bool
is_user c = not (c == b':') && is_password c

abbrev pub is_fragment : ℕ → Bool
is_fragment c = not (c == 0)

-- The longest run of a class, and what follows it.
unfoldable pub span : (ℕ → Bool) → List ℕ → List ℕ × List ℕ
span p [] = ([], [])
span p (c ∷ s) = let (run, rest) = span p s in if p c then (c ∷ run, rest) else ([], c ∷ s)

-- What follows a given character.
unfoldable pub strip : ℕ → List ℕ → Option (List ℕ)
strip d [] = none
strip d (c ∷ s) = if c == d then some s else none

-- An optional group that starts with a given character.
unfoldable pub optional : ℕ → (ℕ → Bool) → List ℕ → Option (List ℕ) × List ℕ
optional d p s = elim (strip d s) [
  | none ↦ (none, s)
  | some after ↦ (some (span p after).0, (span p after).1)
]

-- `(([^:.@/?#]+):)?`, on the run at the start and what follows it.
unfoldable pub scheme_of : List ℕ → List ℕ → List ℕ → Option (List ℕ) × List ℕ
scheme_of url [] rest = (none, url)
scheme_of url (c ∷ run) rest = elim (strip b':' rest) [
  | none ↦ (none, url)
  | some after ↦ (some (c ∷ run), after)
]

unfoldable pub take_scheme : List ℕ → Option (List ℕ) × List ℕ
take_scheme url = scheme_of url (span is_scheme url).0 (span is_scheme url).1

-- `/{0,2}`
unfoldable pub take_slashes : List ℕ → List ℕ × List ℕ
take_slashes s = elim (strip b'/' s) [
  | none ↦ ([], s)
  | some one ↦ elim (strip b'/' one) [
    | none ↦ (b'/' ∷ [], one)
    | some two ↦ (b'/' ∷ b'/' ∷ [], two)
  ]
]

pub record User : Type 0 where
  pub username : Option (List ℕ)
  pub password : Option (List ℕ)
  pub rest : List ℕ

abbrev pub no_user : List ℕ → User
no_user s = record { username = none; password = none; rest = s }

-- `((([^:@]*)(:([^@]*))?)@)?`: the name, what follows it, and what follows a password.
unfoldable pub user_password : List ℕ → List ℕ → List ℕ × List ℕ → User
user_password s name (word, rest) = elim (strip b'@' rest) [
  | none ↦ no_user s
  | some after ↦ record { username = some name; password = some word; rest = after }
]

unfoldable pub user_of : List ℕ → List ℕ × List ℕ → User
user_of s (name, rest) = elim (strip b'@' rest) [
  | some after ↦ record { username = some name; password = none; rest = after }
  | none ↦ elim (strip b':' rest) [
    | none ↦ no_user s
    | some after ↦ user_password s name (span is_password after)
  ]
]

unfoldable pub take_user : List ℕ → User
take_user s = user_of s (span is_user s)

-- The whole text must be read, else there is no match.
unfoldable pub whole : List ℕ → Match → Option Match
whole [] m = some m
whole (c ∷ s) m = none

-- `std::regex_match`
unfoldable pub regex_match : List ℕ → Option Match
regex_match url =
    let (scheme, s1) = take_scheme url in
    let (slashes, s2) = take_slashes s1 in
    let user = take_user s2 in
    let (hostname, s3) = span is_host user.rest in
    let (service, s4) = optional b':' is_service s3 in
    let (path, s5) = span is_path s4 in
    let (query, s6) = optional b'?' is_query s5 in
    let (fragment, s7) = optional b'#' is_fragment s6 in
    whole s7 (record {
      scheme = scheme;
      slashes = slashes;
      username = user.username;
      password = user.password;
      hostname = hostname;
      service = service;
      path = path;
      query = query;
      fragment = fragment;
    })

-- The text of the parts of a match.
abbrev pub before : ℕ → Option (List ℕ) → List ℕ
before c none = []
before c (some s) = c ∷ s

abbrev pub after : Option (List ℕ) → ℕ → List ℕ
after none c = []
after (some s) c = s ++ (c ∷ [])

abbrev pub user_text : Option (List ℕ) → Option (List ℕ) → List ℕ
user_text none password = []
user_text (some name) password = name ++ (before b':' password ++ (b'@' ∷ []))

abbrev pub query_text : Match → List ℕ
query_text m = before b'?' m.query ++ before b'#' m.fragment

abbrev pub host_text : Match → List ℕ
host_text m = m.hostname ++ (before b':' m.service ++ (m.path ++ query_text m))

abbrev pub text : Match → List ℕ
text m = after m.scheme b':' ++ (m.slashes ++ (user_text m.username m.password ++ host_text m))
