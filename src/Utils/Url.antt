-- ===== src/Utils/Url.antt =====
-- `url_decode` of src/impl/utils.cpp, against percent-encoding.
use websocket_client.Common.{
  ℕ, ◌+◌, ◌-◌, ◌*◌, ◌/◌, ◌%◌, ◌≤◌, ◌<◌, ◌≡◌, refl, ap, arith, Bool, true, false, ◌&&◌, ◌||◌, List,
  [], ◌∷◌, ltb, leb, ◌==◌, if◌then◌else◌, ==_iff, length, All, Bool-cases, inl, inr,
}

-- `std::isxdigit` on the code of a character.
unfoldable pub isxdigit : ℕ → Bool
isxdigit c = leb b'0' c && leb c b'9' || (leb b'a' c && leb c b'f') || (leb b'A' c && leb c b'F')

-- What `std::stoi(value, nullptr, 16)` reads from one hexadecimal digit.
pub hex_value : ℕ → ℕ
hex_value c = if leb b'a' c then c - b'a' + 10 else if leb b'A' c then c - b'A' + 10 else c - b'0'

-- A `%` that two hexadecimal digits do not follow is kept as it is.
unfoldable pub url_decode : List ℕ → List ℕ
url_decode [] = []
url_decode (c ∷ []) = c ∷ []
url_decode (c ∷ d ∷ []) = c ∷ url_decode (d ∷ [])
url_decode (c ∷ h ∷ l ∷ rest) = elim (c == b'%' && (isxdigit h && isxdigit l)) [
  | true ↦ (hex_value h * 16 + hex_value l) ∷ url_decode rest
  | false ↦ c ∷ url_decode (h ∷ l ∷ rest)
]

pub hex_digit : ℕ → ℕ
hex_digit n = if ltb n 10 then n + b'0' else n - 10 + b'A'

-- Percent-encoding of every byte that `plain` does not let through.
pub percent_encode : (ℕ → Bool) → List ℕ → List ℕ
percent_encode plain [] = []
percent_encode plain (c ∷ s) =
    let rest = percent_encode plain s in
    if plain c then c ∷ rest else b'%' ∷ hex_digit (c / 16) ∷ hex_digit (c % 16) ∷ rest

-- A character that is no `%` is copied, whatever follows.
url_decode-cons : (c : ℕ) (s : List ℕ) → (c == b'%') ≡ false → url_decode (c ∷ s) ≡ c ∷ url_decode s
unfolding url_decode
url_decode-cons c [] h = refl
url_decode-cons c (d ∷ []) h = refl
url_decode-cons c (d ∷ e ∷ s) h = rw (h, url_decode)

hex_digit_reads : (n : ℕ) → n < 16 → (isxdigit (hex_digit n) ≡ true) × (hex_value (hex_digit n) ≡ n)
unfolding isxdigit hex_value hex_digit
hex_digit_reads n h = ground arith

url_decode-escape :
    (x y : ℕ) (s : List ℕ)
    → x < 16
    → y < 16
    → url_decode (b'%' ∷ hex_digit x ∷ hex_digit y ∷ s) ≡ (x * 16 + y) ∷ url_decode s
unfolding url_decode
url_decode-escape x y s h k =
    let (a, b) = hex_digit_reads x h in
    let (c, d) = hex_digit_reads y k in rw (a, c, url_decode, b, d)

plain_ne : (plain : ℕ → Bool) (c d : ℕ) → plain c ≡ true → plain d ≡ false → (c == d) ≡ false
plain_ne plain c d h k = elim (Bool-cases (c == d)) [
  | inl e ↦ let same : c ≡ d = (==_iff c d).0 e in cc
  | inr ne ↦ ne
]

-- Decoding undoes percent-encoding of any byte text, whichever characters but `%` it leaves plain.
pub url_decode-percent_encode :
    (plain : ℕ → Bool) (s : List ℕ)
    → plain b'%' ≡ false
    → All (λ c. c < 256) s
    → url_decode (percent_encode plain s) ≡ s
unfolding percent_encode
url_decode-percent_encode plain [] h bytes = unfold url_decode in refl
url_decode-percent_encode plain (c ∷ s) h bytes = elim (Bool-cases (plain c)) [
  | inl keep ↦ rw (
    keep,
    url_decode-cons c (percent_encode plain s) (plain_ne plain c b'%' keep h),
    url_decode-percent_encode plain s h bytes.1,
  )
  | inr escape ↦
      rw
        (
          escape,
          url_decode-escape (c / 16) (c % 16) (percent_encode plain s) (omega arith) (omega arith),
          url_decode-percent_encode plain s h bytes.1,
        )
        (ap (λ x. x ∷ s) (omega arith))
]

-- Decoding never lengthens a text.
pub length-url_decode-le : (s : List ℕ) → length (url_decode s) ≤ length s
unfolding url_decode
length-url_decode-le [] = omega arith
length-url_decode-le (c ∷ []) = omega arith
length-url_decode-le (c ∷ d ∷ []) = omega arith
length-url_decode-le (c ∷ h ∷ l ∷ rest) =
    ground (arith, length-url_decode-le rest, length-url_decode-le (h ∷ l ∷ rest))
