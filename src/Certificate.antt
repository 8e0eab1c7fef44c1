-- ===== src/Certificate.antt =====
-- `CertificateFingerprint` and the making of a fingerprint in src/impl/certificate.cpp, for GnuTLS and
-- OpenSSL, and for Mbed TLS. The digest is the library's.
pub mod Fingerprint
pub mod Import
pub mod Chain
use websocket_client.Common.{
  ℕ, ◌+◌, ◌-◌, ◌*◌, ◌/◌, ◌%◌, Bool, true, false, not, ◌&&◌, List, [], ◌∷◌, ◌++◌, codes, ltb, ◌==◌,
  if◌then◌else◌, length,
}
use websocket_client.Utils.Url.{isxdigit}

pub data Algorithm : Type 0 where
  sha1 sha224 sha256 sha384 sha512 : Algorithm

-- The size of the digest in bytes.
abbrev pub algorithm_size : Algorithm → ℕ
algorithm_size sha1 = 20
algorithm_size sha224 = 28
algorithm_size sha256 = 32
algorithm_size sha384 = 48
algorithm_size sha512 = 64

abbrev pub algorithm_identifier : Algorithm → List ℕ
algorithm_identifier sha1 = codes "sha-1"
algorithm_identifier sha224 = codes "sha-224"
algorithm_identifier sha256 = codes "sha-256"
algorithm_identifier sha384 = codes "sha-256"
algorithm_identifier sha512 = codes "sha-512"

pub record CertificateFingerprint : Type 0 where
  pub algorithm : Algorithm
  pub value : List ℕ

-- The loop of `isValid`, from a position on.
unfoldable pub valid_from : ℕ → List ℕ → Bool
valid_from i [] = true
valid_from i (c ∷ s) =
    let rest = valid_from (i + 1) s in
    if i % 3 == 2
    then (if not (c == b':') then false else rest)
    else if not (isxdigit c)
    then false
    else rest

unfoldable pub is_valid : CertificateFingerprint → Bool
is_valid f =
    let expected = algorithm_size f.algorithm in
    if expected == 0
    then false
    else if not (length f.value == expected * 3 - 1)
    then false
    else valid_from 0 f.value

-- A byte in `std::hex` with width 2 and filled with zeros, in upper case or not.
unfoldable pub hex_character : Bool → ℕ → ℕ
hex_character upper n = if ltb n 10 then b'0' + n else (if upper then b'A' else b'a') + (n - 10)

abbrev pub hex_byte : Bool → ℕ → List ℕ
hex_byte upper b = hex_character upper (b / 16) ∷ hex_character upper (b % 16) ∷ []

-- The loop for GnuTLS and OpenSSL: a colon before each byte but the first.
unfoldable pub fingerprint_loop : ℕ → List ℕ → List ℕ
fingerprint_loop i [] = []
fingerprint_loop i (b ∷ buffer) =
    let rest = fingerprint_loop (i + 1) buffer in
    if i == 0 then hex_byte true b ++ rest else b':' ∷ hex_byte true b ++ rest

-- The loop for Mbed TLS: a colon after each byte but the last.
unfoldable pub mbedtls_loop : ℕ → ℕ → List ℕ → List ℕ
mbedtls_loop i size [] = []
mbedtls_loop i size (b ∷ buffer) =
    let rest = mbedtls_loop (i + 1) size buffer in
    hex_byte false b ++ (if not (i == size - 1) then b':' ∷ rest else rest)

abbrev pub make_fingerprint : List ℕ → List ℕ
make_fingerprint digest = fingerprint_loop 0 digest

abbrev pub mbedtls_make_fingerprint : List ℕ → List ℕ
mbedtls_make_fingerprint digest = mbedtls_loop 0 (length digest) digest
