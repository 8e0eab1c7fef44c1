-- ===== src/Client/Open/Whole.antt =====
-- All outcomes of `open` of src/impl/websocketimpl.cpp, whatever the URL.
use websocket_client.Common.{
  ◌≡◌, ◌≢◌, ◌⊎◌, inl, inr, refl, Bool, true, false, ℕ, none, some, List, [], ◌∷◌, ◌==◌, length,
  codes, Option-cases, Bool-cases,
}
use websocket_client.Url.{Match, regex_match}
use websocket_client.Url.Sound.{IsMatch, regex_match-IsMatch}
use websocket_client.Config.{Configuration}
use websocket_client.Client.{Client, Env, closed, ready_eq, open_url}
use websocket_client.Client.Open.{
  group, or_else, secure_scheme, address_of, read_match, read_url, endpoint, logic_error,
  invalid_argument, opening, open_address, open_websocket,
}
use websocket_client.Client.Open.Request.{fresh_handshake, make_handshake-address_of}

-- How an address was read: from a match of the whole URL with a host and a known scheme.
pub record IsReading (url : List ℕ) (m : Match) (secure : Bool) : Type 0 where
  pub matched : IsMatch url m
  pub named : m.hostname ≢ []
  pub scheme : secure_scheme (or_else (codes "ws") (group m.scheme)) ≡ some secure

abbrev Reading : List ℕ → Type 0
Reading url =
    (read_url url ≡ none)
    ⊎ ((m : Match) × (secure : Bool) × (read_url url ≡ some (address_of secure m))
        × IsReading url m secure)

named_of : (s : List ℕ) → (length s == 0) ≡ false → s ≢ []
named_of [] h e = cc
named_of (c ∷ s) h e = cc

-- Every URL is refused or read from such a match.
read_url-Reading : (url : List ℕ) → Reading url
unfolding read_url read_match
read_url-Reading url = elim (Option-cases (regex_match url)) [
  | inl e ↦ inl (rw (read_url, e) refl)
  | inr (m, e) ↦ elim (Bool-cases (length m.hostname == 0)) [
    | inl f ↦ inl (rw (read_url, e, f) refl)
    | inr f ↦ elim (Option-cases (secure_scheme (or_else (codes "ws") (group m.scheme)))) [
      | inl g ↦ inl (rw (read_url, e, f, read_match, g) refl)
      | inr (secure, g) ↦ inr (
        m,
        secure,
        rw (read_url, e, f, read_match, g) refl,
        record { matched = regex_match-IsMatch url m e; named = named_of m.hostname f; scheme = g },
      )
    ]
  ]
]

-- What `open` does with a URL in any state.
abbrev pub Opens : Env → Configuration → List ℕ → Client → Type 0
Opens env config url w =
    ((ready_eq w.state closed ≡ false) × (open_websocket env config url w ≡ logic_error))
    ⊎ (((ready_eq w.state closed ≡ true)
          × (read_url url ≡ none)
          × (open_websocket env config url w ≡ invalid_argument))
        ⊎ ((m : Match) × (secure : Bool) × (ready_eq w.state closed ≡ true)
            × IsReading url m secure
            × (let a = address_of secure m in
                open_websocket env config url w
                ≡ opening a (fresh_handshake config a) (endpoint config.proxy_server a)
                    (open_url env secure w))))

-- A client that is not closed throws `std::logic_error`; a closed one throws
-- `std::invalid_argument` only where the URL is refused, and else goes on with the address of a
-- match that covers the whole URL.
pub open_websocket-Opens :
    (env : Env) (config : Configuration) (url : List ℕ) (w : Client) → Opens env config url w
unfolding open_websocket open_address
open_websocket-Opens env config url w = elim (Bool-cases (ready_eq w.state closed)) [
  | inr e ↦ inl (e, rw (open_websocket, e) refl)
  | inl e ↦ inr (elim (read_url-Reading url) [
    | inl f ↦ inl (e, f, rw (open_websocket, e, f) refl)
    | inr (m, secure, f, r) ↦ inr (
      m,
      secure,
      e,
      r,
      rw
          (
            open_websocket,
            e,
            f,
            open_address,
            make_handshake-address_of secure m config.protocols r.named,
          )
          (unfold address_of in refl),
    )
  ])
]
