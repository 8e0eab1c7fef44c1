-- ===== src/Tests/Certificates.antt =====
-- The theorems on certificates at concrete inputs.
use websocket_client.Common.{
  ℕ, zero, suc, ◌≡◌, ◌<◌, refl, arith, true, none, some, List, [], ◌∷◌, map, All, length, Option,
  if◌then◌else◌, ◌==◌, Bool-cases, inl, inr,
}
use websocket_client.Http.Fields.{tolower}
use websocket_client.Certificate.{
  Algorithm, is_valid, make_fingerprint, mbedtls_make_fingerprint, algorithm_identifier,
}
use websocket_client.Certificate.Fingerprint.{make_fingerprint-is_valid}
use websocket_client.Certificate.Import.{OpenSsl, from_string}
use websocket_client.Certificate.Chain.{Consumes, Imports, from_string-Imports}

abbrev repeat : ℕ → ℕ → List ℕ
repeat zero b = []
repeat (suc n) b = b ∷ repeat n b

repeat-All : (n b : ℕ) → b < 256 → All (λ c. c < 256) (repeat n b)
repeat-All zero b h = tt
repeat-All (suc n) b h = (h, repeat-All n b h)

abbrev digest : List ℕ
digest = repeat 20 171

make_fingerprint-is_valid_example :
    (is_valid (record { algorithm = Algorithm.sha1; value = make_fingerprint digest }) ≡ true)
    × (is_valid (record { algorithm = Algorithm.sha1; value = mbedtls_make_fingerprint digest })
        ≡ true)
    × (mbedtls_make_fingerprint digest ≡ map tolower (make_fingerprint digest))
make_fingerprint-is_valid_example =
    make_fingerprint-is_valid Algorithm.sha1 digest
      (record { bytes = repeat-All 20 171 (omega arith); size = refl })

-- Two algorithms have one identifier.
same_identifier : algorithm_identifier Algorithm.sha384 ≡ algorithm_identifier Algorithm.sha256
same_identifier = refl

-- A library for which each byte but 0 is a certificate.
abbrev read_byte : List ℕ → Option (ℕ × List ℕ)
read_byte [] = none
read_byte (c ∷ s) = if c == 0 then none else some (c, s)

abbrev byte_ssl : OpenSsl ℕ ℕ
byte_ssl = record {
  read_x509 = read_byte;
  read_private_key = λ text pass. some (length text);
  files = λ name. none;
}

read_byte-Consumes : Consumes byte_ssl
read_byte-Consumes [] rest x h = absurd cc
read_byte-Consumes (c ∷ s) rest x h = elim (Bool-cases (c == 0)) [
  | inl e ↦ absurd (ground arith)
  | inr e ↦ ground arith
]

from_string-Imports_example :
    Imports byte_ssl
      (5 ∷ 6 ∷ 0 ∷ 7 ∷ [])
      (some 2)
      (from_string byte_ssl 10 (5 ∷ 6 ∷ 0 ∷ 7 ∷ []) (1 ∷ 1 ∷ []))
from_string-Imports_example =
    from_string-Imports byte_ssl read_byte-Consumes 10 (5 ∷ 6 ∷ 0 ∷ 7 ∷ []) (1 ∷ 1 ∷ [])
      (omega arith)
