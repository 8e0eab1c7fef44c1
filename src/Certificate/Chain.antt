-- ===== src/Certificate/Chain.antt =====
-- What `Certificate::FromString` and `Certificate::FromFile` of src/impl/certificate.cpp read with OpenSSL.
use mathlib.Core.Path.{subst}
use websocket_client.Common.{
  ℕ, zero, suc, ◌≡◌, ◌<◌, ◌⊎◌, refl, sym, arith, Option, none, some, List, [], ◌∷◌, length,
  Option-cases, inl, inr,
}
use websocket_client.Certificate.Import.{
  OpenSsl, Certificate, Refusal, no_certificate, no_key, BioEvent, bio_new, bio_free, Import,
  imported, refused, events, read_chain, with_key, from_string_key, from_string_chain, from_string,
  from_file_key, from_file_chain, from_opened, from_file,
}

-- Each BIO is freed before the next one is made, and none is held at the end.
abbrev pub IsBalanced : List BioEvent → Type 0
IsBalanced [] = Unit
IsBalanced (bio_new ∷ bio_free ∷ log) = IsBalanced log
IsBalanced log = no_key ≡ no_certificate

module _ {ℓ} {X K : Type ℓ} (ssl : OpenSsl X K) where
  -- The certificates that stand in a text one after the other.
  pub data Certificates : List ℕ → List X → Type ℓ where
    no_more : {text : List ℕ} → ssl.read_x509 text ≡ none → Certificates text []
    one_more :
        {text rest : List ℕ} {x : X} {xs : List X}
        → ssl.read_x509 text ≡ some (x, rest)
        → Certificates rest xs
        → Certificates text (x ∷ xs)

  -- Reading a certificate takes bytes off the BIO.
  abbrev pub Consumes : Type ℓ
  Consumes =
      (text rest : List ℕ) (x : X) → ssl.read_x509 text ≡ some (x, rest) → length rest < length text

  -- What an import comes to, without its log.
  abbrev pub answer : Import X K → Option (Refusal ⊎ Certificate X K)
  answer (imported c log) = some (inr c)
  answer (refused r log) = some (inl r)
  answer Import.out_of_fuel = none

  abbrev pub keyed : X → List X → Option K → Refusal ⊎ Certificate X K
  keyed x xs none = inl no_key
  keyed x xs (some k) = inr (record { x509 = x; pkey = k; chain = xs })

  -- A text with no certificate is refused; else its first one is taken, and all the others are
  -- its chain, in order, if there is a key. The BIO are all freed.
  abbrev pub Imports : List ℕ → Option K → Import X K → Type ℓ
  Imports text key r =
      IsBalanced (events r)
      × (((ssl.read_x509 text ≡ none) × (answer r ≡ some (inl no_certificate)))
          ⊎ ((x : X) × (xs : List X) × Certificates text (x ∷ xs)
              × (answer r ≡ some (keyed x xs key))))

  abbrev two_bios : List BioEvent
  two_bios = bio_new ∷ bio_free ∷ bio_new ∷ bio_free ∷ []

  with_key-keyed :
      (key : Option K) (x : X) (xs : List X) (log : List BioEvent)
      → (events (with_key ssl key no_key x xs log) ≡ log)
        × (answer (with_key ssl key no_key x xs log) ≡ some (keyed x xs key))
  unfolding with_key
  with_key-keyed none x xs log = (refl, refl)
  with_key-keyed (some k) x xs log = (refl, refl)

  keyed-Imports :
      (text : List ℕ) (key : Option K) (x : X) (xs : List X)
      → Certificates text (x ∷ xs)
      → Imports text key (with_key ssl key no_key x xs two_bios)
  keyed-Imports text key x xs all =
      let (logged, answered) = with_key-keyed key x xs two_bios in
      (subst IsBalanced (sym logged) tt, inr (x, xs, all, answered))

  module _ (consumes : Consumes) where
    -- The length of the text, and one, is fuel enough.
    read_chain-Certificates :
        (fuel : ℕ) (text : List ℕ)
        → length text < fuel
        → (chain : List X) × (read_chain ssl fuel text ≡ some chain) × Certificates text chain
    unfolding read_chain
    read_chain-Certificates zero text h = absurd (omega arith)
    read_chain-Certificates (suc fuel) text h = elim (Option-cases (ssl.read_x509 text)) [
      | inl e ↦ ([], rw (read_chain, e) refl, no_more e)
      | inr ((x, rest), e) ↦
          let less = consumes text rest x e in
          let (chain, read, all) = read_chain-Certificates fuel rest (omega (arith, less)) in
          (x ∷ chain, rw (read_chain, e, read) refl, one_more e all)
    ]

    -- With more fuel than the text is long, FromString imports what the texts hold.
    pub from_string-Imports :
        (fuel : ℕ) (crt_pem key_pem : List ℕ)
        → length crt_pem < fuel
        → Imports crt_pem (ssl.read_private_key key_pem []) (from_string ssl fuel crt_pem key_pem)
    unfolding from_string from_string_chain from_string_key
    from_string-Imports fuel crt_pem key_pem enough = elim (Option-cases (ssl.read_x509 crt_pem)) [
      | inl e ↦ rw (from_string, e) (tt, inl (refl, refl))
      | inr ((x, rest), e) ↦
          let less = consumes crt_pem rest x e in
          let (chain, read, all) = read_chain-Certificates fuel rest (omega (arith, less)) in
          let key = ssl.read_private_key key_pem [] in
          let same : from_string ssl fuel crt_pem key_pem
              ≡ with_key ssl key no_key x chain two_bios =
            rw (from_string, e, read) refl in
          subst (Imports crt_pem key) (sym same)
            (keyed-Imports crt_pem key x chain (one_more e all))
    ]

    -- FromFile on two files that can be opened imports what they hold, with the pass phrase; their BIO
    -- are freed.
    pub from_file-Imports :
        (fuel : ℕ) (crt_file key_file pass crt_pem key_pem : List ℕ)
        → ssl.files crt_file ≡ some crt_pem
        → ssl.files key_file ≡ some key_pem
        → length crt_pem < fuel
        → Imports crt_pem
            (ssl.read_private_key key_pem pass)
            (from_file ssl fuel crt_file key_file pass)
    unfolding from_file from_opened from_file_chain from_file_key
    from_file-Imports fuel crt_file key_file pass crt_pem key_pem c k enough =
        elim (Option-cases (ssl.read_x509 crt_pem)) [
          | inl e ↦ rw (from_file, c, k, e) (tt, inl (refl, refl))
          | inr ((x, rest), e) ↦
              let less = consumes crt_pem rest x e in
              let (chain, read, all) = read_chain-Certificates fuel rest (omega (arith, less)) in
              let key = ssl.read_private_key key_pem pass in
              let same : from_file ssl fuel crt_file key_file pass
                  ≡ with_key ssl key no_key x chain two_bios =
                rw (from_file, c, k, e, read) refl in
              subst (Imports crt_pem key) (sym same)
                (keyed-Imports crt_pem key x chain (one_more e all))
        ]
