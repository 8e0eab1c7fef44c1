-- ===== src/Url/RoundTrip.antt =====
-- The regular expression for URLs on the text of a URL that was put together from its parts.
use websocket_client.Common.{
  ℕ, ◌≡◌, refl, sym, ap, ◌∙◌, Bool, true, false, Option, none, some, List, [], ◌∷◌, ◌++◌,
  append_assoc, append-nil, All, Avoids, ◌==◌, codes,
}
use websocket_client.Url.Pieces.{Holds}
use websocket_client.Url.{
  Match, is_query, is_path, is_service, is_host, is_scheme, is_password, is_user, is_fragment,
  optional, take_scheme, take_slashes, take_user, whole, regex_match, before, after, user_text,
  query_text, host_text, text,
}
use websocket_client.Url.Runs.{
  Stops, span-append, optional-before, take_scheme-after, take_slashes-two, take_user-Avoids,
  take_user-text,
}

-- A path is empty or starts with a slash.
abbrev pub IsRooted : List ℕ → Type 0
IsRooted [] = Unit
IsRooted (c ∷ s) = c ≡ b'/'

abbrev pub IsNamed : Option (List ℕ) → Type 0
IsNamed none = true ≡ false
IsNamed (some []) = true ≡ false
IsNamed (some (c ∷ s)) = All (λ c. is_scheme c ≡ true) (c ∷ s)

-- A name and a password of their classes, or neither and no `@` in what follows.
abbrev pub IsLogin : Option (List ℕ) → Option (List ℕ) → List ℕ → Type 0
IsLogin none none rest = Avoids b'@' rest
IsLogin none (some word) rest = true ≡ false
IsLogin (some name) password rest = All (λ c. is_user c ≡ true) name × Holds is_password password

-- The parts of a full URL, such as `ws://user:word@host:port/path?query#fragment`, with the name,
-- the password, the port, the query and the fragment each there or not.
pub record IsCanonical (m : Match) : Type 0 where
  pub scheme_named : IsNamed m.scheme
  pub two_slashes : m.slashes ≡ codes "//"
  pub login : IsLogin m.username m.password (host_text m)
  pub hostname_class : All (λ c. is_host c ≡ true) m.hostname
  pub service_class : Holds is_service m.service
  pub path_class : All (λ c. is_path c ≡ true) m.path
  pub path_rooted : IsRooted m.path
  pub query_class : Holds is_query m.query
  pub fragment_class : Holds is_fragment m.fragment

take_scheme-IsNamed :
    (scheme : Option (List ℕ)) (rest : List ℕ)
    → IsNamed scheme
    → take_scheme (after scheme b':' ++ rest) ≡ (scheme, rest)
take_scheme-IsNamed none rest h = absurd cc
take_scheme-IsNamed (some []) rest h = absurd cc
take_scheme-IsNamed (some (c ∷ s)) rest h =
    ap take_scheme (append_assoc (c ∷ s) (b':' ∷ []) rest) ∙ take_scheme-after c s rest h

take_user-IsLogin :
    (name password : Option (List ℕ)) (rest : List ℕ)
    → IsLogin name password rest
    → take_user (user_text name password ++ rest)
      ≡ record { username = name; password = password; rest = rest }
take_user-IsLogin none none rest h = take_user-Avoids rest h
take_user-IsLogin none (some word) rest h = absurd cc
take_user-IsLogin (some name) password rest h = take_user-text name password rest h.0 h.1

query_text-Stops :
    (p : ℕ → Bool) (query fragment : Option (List ℕ))
    → p b'?' ≡ false
    → p b'#' ≡ false
    → Stops p (before b'?' query ++ before b'#' fragment)
query_text-Stops p (some q) fragment h k = h
query_text-Stops p none (some f) h k = k
query_text-Stops p none none h k = tt

path-Stops :
    (p : ℕ → Bool) (path : List ℕ) (query fragment : Option (List ℕ))
    → IsRooted path
    → p b'/' ≡ false
    → p b'?' ≡ false
    → p b'#' ≡ false
    → Stops p (path ++ (before b'?' query ++ before b'#' fragment))
path-Stops p [] query fragment r g h k = query_text-Stops p query fragment h k
path-Stops p (c ∷ path) query fragment r g h k = ap p r ∙ g

service-Stops :
    (service : Option (List ℕ)) (rest : List ℕ)
    → Stops is_host rest
    → Stops is_host (before b':' service ++ rest)
service-Stops none rest h = h
service-Stops (some s) rest h = refl

fragment-Stops :
    (p : ℕ → Bool) (fragment : Option (List ℕ)) → p b'#' ≡ false → Stops p (before b'#' fragment)
fragment-Stops p none h = tt
fragment-Stops p (some f) h = h

path-Stops_of :
    (m : Match) (v : IsCanonical m) (p : ℕ → Bool)
    → p b'/' ≡ false
    → p b'?' ≡ false
    → p b'#' ≡ false
    → Stops p (m.path ++ query_text m)
path-Stops_of m v p = path-Stops p m.path m.query m.fragment v.path_rooted

-- Matching the text of a full URL gives back its parts.
pub regex_match-text : (m : Match) → IsCanonical m → regex_match (text m) ≡ some m
unfolding regex_match whole
regex_match-text m v =
    let tail = before b'#' m.fragment in
    let s5 = query_text m in
    let s4 = m.path ++ s5 in
    let s3 = before b':' m.service ++ s4 in
    let s2 = user_text m.username m.password ++ host_text m in
    rw
      (
        take_scheme-IsNamed m.scheme (m.slashes ++ s2) v.scheme_named,
        ap (λ t. take_slashes (t ++ s2)) v.two_slashes ∙ take_slashes-two s2,
        take_user-IsLogin m.username m.password (host_text m) v.login,
        span-append is_host m.hostname s3 v.hostname_class
            (service-Stops m.service s4 (path-Stops_of m v is_host refl refl refl)),
        optional-before b':' is_service m.service s4 v.service_class
            (path-Stops_of m v is_service refl refl refl)
            (path-Stops_of m v (λ c. c == b':') refl refl refl),
        span-append is_path m.path s5 v.path_class
            (query_text-Stops is_path m.query m.fragment refl refl),
        optional-before b'?' is_query m.query tail v.query_class
            (fragment-Stops is_query m.fragment refl)
            (fragment-Stops (λ c. c == b'?') m.fragment refl),
        ap (optional b'#' is_fragment) (sym (append-nil tail))
            ∙ optional-before b'#' is_fragment m.fragment [] v.fragment_class tt tt,
      )
      (ap (λ t. some (record m { slashes = t })) (sym v.two_slashes))
