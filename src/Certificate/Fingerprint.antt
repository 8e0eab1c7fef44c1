-- ===== src/Certificate/Fingerprint.antt =====
-- The fingerprints that src/impl/certificate.cpp makes, against its `isValid`.
use websocket_client.Common.{
  ℕ, ◌+◌, ◌-◌, ◌*◌, ◌/◌, ◌%◌, ◌<◌, ◌≡◌, refl, ap, ap₂, sym, ◌∙◌, arith, Bool, true, false, List, [],
  ◌∷◌, ◌++◌, map, ◌==◌, ==_iff, if◌then◌else◌, length, All,
}
use websocket_client.Utils.Url.{isxdigit}
use websocket_client.Http.Fields.{tolower}
use websocket_client.Certificate.{
  Algorithm, algorithm_size, valid_from, is_valid, hex_character, hex_byte, fingerprint_loop,
  mbedtls_loop, make_fingerprint, mbedtls_make_fingerprint,
}

-- The digests of the library have the size of their algorithm.
pub record IsDigest (a : Algorithm) (digest : List ℕ) : Type 0 where
  pub bytes : All (λ b. b < 256) digest
  pub size : length digest ≡ algorithm_size a

isxdigit-hex : (upper : Bool) (n : ℕ) → n < 16 → isxdigit (hex_character upper n) ≡ true
unfolding isxdigit hex_character
isxdigit-hex true n h = ground arith
isxdigit-hex false n h = ground arith

-- Two characters of a byte, where no colon is due.
valid_from-hex :
    (upper : Bool) (i b : ℕ) (s : List ℕ)
    → b < 256
    → i % 3 ≡ 0
    → valid_from i (hex_byte upper b ++ s) ≡ valid_from (i + 2) s
unfolding valid_from
valid_from-hex upper i b s h k =
    let high = isxdigit-hex upper (b / 16) (omega arith) in
    let low = isxdigit-hex upper (b % 16) (omega arith) in
    let one : (i % 3 == 2) ≡ false = ground arith in
    let two : ((i + 1) % 3 == 2) ≡ false = ground arith in
    rw (valid_from, one, high, two, low) (ap (λ j. valid_from j s) (omega arith))

valid_from-colon : (i : ℕ) (s : List ℕ) → i % 3 ≡ 2 → valid_from i (b':' ∷ s) ≡ valid_from (i + 1) s
unfolding valid_from
valid_from-colon i s h = let due : (i % 3 == 2) ≡ true = ground arith in rw (valid_from, due) refl

fingerprint_loop-cons :
    (i b : ℕ) (buffer : List ℕ)
    → (i == 0) ≡ false
    → fingerprint_loop i (b ∷ buffer) ≡ b':' ∷ hex_byte true b ++ fingerprint_loop (i + 1) buffer
unfolding fingerprint_loop
fingerprint_loop-cons i b buffer h = rw (fingerprint_loop, h) refl

fingerprint_loop-valid :
    (i j : ℕ) (buffer : List ℕ)
    → All (λ b. b < 256) buffer
    → (i == 0) ≡ false
    → j % 3 ≡ 2
    → valid_from j (fingerprint_loop i buffer) ≡ true
unfolding fingerprint_loop valid_from
fingerprint_loop-valid i j [] h k l = refl
fingerprint_loop-valid i j (b ∷ buffer) h k l =
    let rest = fingerprint_loop (i + 1) buffer in
    ap (valid_from j) (fingerprint_loop-cons i b buffer k)
    ∙ valid_from-colon j (hex_byte true b ++ rest) l
    ∙ valid_from-hex true (j + 1) b rest h.0 (omega arith)
    ∙ fingerprint_loop-valid (i + 1) (j + 1 + 2) buffer h.1 (ground arith) (omega arith)

length-fingerprint_loop :
    (i : ℕ) (buffer : List ℕ)
    → length (fingerprint_loop i buffer)
      ≡ (if i == 0 then length buffer * 3 - 1 else length buffer * 3)
unfolding fingerprint_loop
length-fingerprint_loop i [] = ground arith
length-fingerprint_loop i (b ∷ buffer) = ground (arith, length-fingerprint_loop (i + 1) buffer)

make_fingerprint-valid :
    (digest : List ℕ) → All (λ b. b < 256) digest → valid_from 0 (make_fingerprint digest) ≡ true
unfolding fingerprint_loop valid_from
make_fingerprint-valid [] h = refl
make_fingerprint-valid (b ∷ digest) h =
    valid_from-hex true 0 b (fingerprint_loop 1 digest) h.0 refl
    ∙ fingerprint_loop-valid 1 2 digest h.1 refl refl

algorithm_size_pos : (a : Algorithm) → (algorithm_size a == 0) ≡ false
algorithm_size_pos Algorithm.sha1 = refl
algorithm_size_pos Algorithm.sha224 = refl
algorithm_size_pos Algorithm.sha256 = refl
algorithm_size_pos Algorithm.sha384 = refl
algorithm_size_pos Algorithm.sha512 = refl

-- A value of the right length whose characters pass the loop is valid.
is_valid_of :
    (a : Algorithm) (value : List ℕ)
    → length value ≡ algorithm_size a * 3 - 1
    → valid_from 0 value ≡ true
    → is_valid (record { algorithm = a; value = value }) ≡ true
unfolding is_valid
is_valid_of a value h k =
    let sized : (length value == algorithm_size a * 3 - 1) ≡ true = (==_iff _ _).1 h in
    rw (is_valid, algorithm_size_pos a, sized) k

tolower-hex : (n : ℕ) → n < 16 → tolower (hex_character true n) ≡ hex_character false n
unfolding tolower hex_character
tolower-hex n h = ground arith

tolower-hex_byte :
    (b : ℕ) (s : List ℕ)
    → b < 256
    → map tolower (hex_byte true b ++ s) ≡ hex_byte false b ++ map tolower s
tolower-hex_byte b s h =
    ap₂ (λ x y. x ∷ y ∷ map tolower s) (tolower-hex (b / 16) (omega arith))
      (tolower-hex (b % 16) (omega arith))

mbedtls_loop-last : (i size b : ℕ) → size ≡ i + 1 → mbedtls_loop i size (b ∷ []) ≡ hex_byte false b
unfolding mbedtls_loop
mbedtls_loop-last i size b h =
    let last : (i == size - 1) ≡ true = ground arith in rw (mbedtls_loop, last) refl

mbedtls_loop-cons :
    (i size b : ℕ) (buffer : List ℕ)
    → i + 1 < size
    → mbedtls_loop i size (b ∷ buffer)
      ≡ hex_byte false b ++ (b':' ∷ mbedtls_loop (i + 1) size buffer)
unfolding mbedtls_loop
mbedtls_loop-cons i size b buffer h =
    let inner : (i == size - 1) ≡ false = ground arith in rw (mbedtls_loop, inner) refl

-- The loop for Mbed TLS with as many bytes left as there are positions.
mbedtls_loop-rest :
    (i size b : ℕ) (buffer : List ℕ)
    → All (λ b. b < 256) buffer
    → size ≡ i + length (b ∷ buffer)
    → mbedtls_loop i size (b ∷ buffer)
      ≡ hex_byte false b ++ map tolower (fingerprint_loop (i + 1) buffer)
unfolding fingerprint_loop
mbedtls_loop-rest i size b [] h e = mbedtls_loop-last i size b (omega arith)
mbedtls_loop-rest i size b (c ∷ buffer) h e =
    mbedtls_loop-cons i size b (c ∷ buffer) (omega arith)
    ∙ ap (λ s. hex_byte false b ++ (b':' ∷ s))
        (mbedtls_loop-rest (i + 1) size c buffer h.1 (omega arith)
          ∙ sym (tolower-hex_byte c (fingerprint_loop (i + 1 + 1) buffer) h.0))
    ∙ ap (λ s. hex_byte false b ++ s)
        (colon (hex_byte true c ++ fingerprint_loop (i + 1 + 1) buffer)
          ∙ ap (map tolower) (sym (fingerprint_loop-cons (i + 1) c buffer (ground arith))))
  where
    colon : (s : List ℕ) → b':' ∷ map tolower s ≡ map tolower (b':' ∷ s)
    colon s = unfold tolower in refl

-- The fingerprint of Mbed TLS is that of the other libraries in lower case.
pub mbedtls_make_fingerprint-tolower :
    (digest : List ℕ)
    → All (λ b. b < 256) digest
    → mbedtls_make_fingerprint digest ≡ map tolower (make_fingerprint digest)
unfolding fingerprint_loop mbedtls_loop
mbedtls_make_fingerprint-tolower [] h = refl
mbedtls_make_fingerprint-tolower (b ∷ digest) h =
    mbedtls_loop-rest 0 (length (b ∷ digest)) b digest h.1 (omega arith)
    ∙ sym (tolower-hex_byte b (fingerprint_loop 1 digest) h.0)

isxdigit-tolower : (c : ℕ) → isxdigit (tolower c) ≡ isxdigit c
unfolding tolower isxdigit
isxdigit-tolower c = ground arith

tolower_is_colon : (c : ℕ) → (tolower c == b':') ≡ (c == b':')
unfolding tolower
tolower_is_colon c = ground arith

valid_from-tolower : (i : ℕ) (s : List ℕ) → valid_from i (map tolower s) ≡ valid_from i s
unfolding valid_from
valid_from-tolower i [] = refl
valid_from-tolower i (c ∷ s) =
    rw (valid_from, tolower_is_colon c, isxdigit-tolower c, valid_from-tolower (i + 1) s) refl

length-map : (s : List ℕ) → length (map tolower s) ≡ length s
length-map [] = refl
length-map (c ∷ s) = omega (arith, length-map s)

-- A fingerprint of any of the three libraries is valid for its algorithm, and those of Mbed TLS and
-- of the other two differ in case only.
pub make_fingerprint-is_valid :
    (a : Algorithm) (digest : List ℕ)
    → IsDigest a digest
    → (is_valid (record { algorithm = a; value = make_fingerprint digest }) ≡ true)
      × (is_valid (record { algorithm = a; value = mbedtls_make_fingerprint digest }) ≡ true)
      × (mbedtls_make_fingerprint digest ≡ map tolower (make_fingerprint digest))
make_fingerprint-is_valid a digest v =
    let upper = make_fingerprint digest in
    let lower = mbedtls_make_fingerprint-tolower digest v.bytes in
    let size = length-fingerprint_loop 0 digest ∙ ap (λ n. n * 3 - 1) v.size in
    (
      is_valid_of a upper size (make_fingerprint-valid digest v.bytes),
      ap (λ t. is_valid (record { algorithm = a; value = t })) lower
          ∙ is_valid_of a (map tolower upper) (length-map upper ∙ size)
              (valid_from-tolower 0 upper ∙ make_fingerprint-valid digest v.bytes),
      lower,
    )
