-- ===== src/Certificate/Import.antt =====
-- `Certificate::FromString` and `Certificate::FromFile` of src/impl/certificate.cpp, with OpenSSL, and
-- `BIO_new_from_file` of src/impl/tls.cpp. What OpenSSL reads from a BIO is a parameter.
use websocket_client.Common.{ℕ, zero, suc, Option, none, some, List, [], ◌∷◌}

-- A certificate that is read leaves less in its BIO.
pub record OpenSsl {ℓ} (X K : Type ℓ) : Type ℓ where
  pub read_x509 : List ℕ → Option (X × List ℕ)
  pub read_private_key : List ℕ → List ℕ → Option K
  pub files : List ℕ → Option (List ℕ)

pub record Certificate {ℓ} (X K : Type ℓ) : Type ℓ where
  pub x509 : X
  pub pkey : K
  pub chain : List X

-- The messages of `std::invalid_argument`.
pub data Refusal : Type 0 where
  no_certificate no_key no_certificate_file no_key_file : Refusal

-- The BIO that are held at a time: `BIO_new` and `BIO_free`.
pub data BioEvent : Type 0 where
  bio_new bio_free : BioEvent

pub data Import {ℓ} (X K : Type ℓ) : Type ℓ where
  imported : Certificate X K → List BioEvent → Import X K
  refused : Refusal → List BioEvent → Import X K
  out_of_fuel : Import X K

abbrev pub events {ℓ} : {X K : Type ℓ} → Import X K → List BioEvent
events (imported c log) = log
events (refused r log) = log
events out_of_fuel = []

module _ {ℓ} {X K : Type ℓ} (ssl : OpenSsl X K) where
  -- The loop that reads the rest of the chain.
  unfoldable pub read_chain : ℕ → List ℕ → Option (List X)
  read_chain zero text = none
  read_chain (suc fuel) text = elim (ssl.read_x509 text) [
    | none ↦ some []
    | some (x, rest) ↦ elim (read_chain fuel rest) [ none ↦ none | some chain ↦ some (x ∷ chain) ]
  ]

  -- The key is read while its BIO is held, which is freed in any case.
  unfoldable pub with_key : Option K → Refusal → X → List X → List BioEvent → Import X K
  with_key none refusal x chain log = refused refusal log
  with_key (some k) refusal x chain log =
      imported (record { x509 = x; pkey = k; chain = chain }) log

  -- `FromString`: the certificate, its chain, then the key.
  unfoldable pub from_string_key : List ℕ → X → Option (List X) → Import X K
  from_string_key key_pem x none = out_of_fuel
  from_string_key key_pem x (some chain) =
      with_key (ssl.read_private_key key_pem []) no_key x chain
        (bio_new ∷ bio_free ∷ bio_new ∷ bio_free ∷ [])

  unfoldable pub from_string_chain : ℕ → List ℕ → Option (X × List ℕ) → Import X K
  from_string_chain fuel key_pem none = refused no_certificate (bio_new ∷ bio_free ∷ [])
  from_string_chain fuel key_pem (some (x, rest)) = from_string_key key_pem x (read_chain fuel rest)

  unfoldable pub from_string : ℕ → List ℕ → List ℕ → Import X K
  from_string fuel crt_pem key_pem = from_string_chain fuel key_pem (ssl.read_x509 crt_pem)

  -- `FromFile`: a file that cannot be opened gives no BIO.
  unfoldable pub from_file_key : Option (List ℕ) → List ℕ → X → Option (List X) → Import X K
  from_file_key key_pem pass x none = out_of_fuel
  from_file_key none pass x (some chain) = refused no_key_file (bio_new ∷ bio_free ∷ [])
  from_file_key (some key_pem) pass x (some chain) =
      with_key (ssl.read_private_key key_pem pass) no_key x chain
        (bio_new ∷ bio_free ∷ bio_new ∷ bio_free ∷ [])

  unfoldable pub from_file_chain : ℕ → Option (List ℕ) → List ℕ → Option (X × List ℕ) → Import X K
  from_file_chain fuel key_pem pass none = refused no_certificate (bio_new ∷ bio_free ∷ [])
  from_file_chain fuel key_pem pass (some (x, rest)) =
      from_file_key key_pem pass x (read_chain fuel rest)

  unfoldable pub from_opened : ℕ → Option (List ℕ) → Option (List ℕ) → List ℕ → Import X K
  from_opened fuel none key_pem pass = refused no_certificate_file []
  from_opened fuel (some crt_pem) key_pem pass =
      from_file_chain fuel key_pem pass (ssl.read_x509 crt_pem)

  unfoldable pub from_file : ℕ → List ℕ → List ℕ → List ℕ → Import X K
  from_file fuel crt_pem_file key_pem_file pass =
      from_opened fuel (ssl.files crt_pem_file) (ssl.files key_pem_file) pass
