-- ===== src/Utils/Base64/RoundTrip.antt =====
-- `base64_encode` against a decoder written from RFC 4648.
use websocket_client.Common.{
  ◌>>=◌, ℕ, ◌+◌, ◌-◌, ◌*◌, ◌/◌, ◌%◌, ◌<◌, ◌≡◌, refl, ap, arith, Bool, true, false, ◌&&◌, Option,
  none, some, List, [], ◌∷◌, bit_and, bit_or, leb, ◌==◌, if◌then◌else◌, ==_iff, all_below,
  all_below_sound, length, All,
}
use websocket_client.Utils.Base64.{tab_at, base64_encode}

-- The value of a digit of the alphabet.
pub sextet : ℕ → Option ℕ
sextet c =
    if leb b'A' c && leb c b'Z'
    then some (c - b'A')
    else if leb b'a' c && leb c b'z'
    then some (c - b'a' + 26)
    else if leb b'0' c && leb c b'9'
    then some (c - b'0' + 52)
    else if c == b'+'
    then some 62
    else if c == b'/'
    then some 63
    else none

-- A group that ends in `=` is the last one, and stands for one or two bytes.
pub decode_last : ℕ → ℕ → ℕ → Option (List ℕ)
decode_last a b c = do
  x ← sextet a
  y ← sextet b
  let two_bytes = sextet c >>= λ z. some ((x * 4 + y / 16) ∷ (y % 16 * 16 + z / 4) ∷ [])
  if c == b'=' then some ((x * 4 + y / 16) ∷ []) else two_bytes

decode_group : ℕ → ℕ → ℕ → ℕ → List ℕ → Option (List ℕ)
decode_group a b c d bytes = do
  x ← sextet a
  y ← sextet b
  z ← sextet c
  w ← sextet d
  some ((x * 4 + y / 16) ∷ (y % 16 * 16 + z / 4) ∷ (z % 4 * 64 + w) ∷ bytes)

pub base64_decode : List ℕ → Option (List ℕ)
base64_decode [] = some []
base64_decode (a ∷ []) = none
base64_decode (a ∷ b ∷ []) = none
base64_decode (a ∷ b ∷ c ∷ []) = none
base64_decode (a ∷ b ∷ c ∷ d ∷ rest) =
    let more = base64_decode rest >>= decode_group a b c d in
    let last : Option (List ℕ) = elim rest [ [] ↦ decode_last a b c | _ ∷ _ ↦ none ] in
    if d == b'=' then last else more

abbrev digit_reads : ℕ → Bool
digit_reads i = elim (sextet (tab_at i)) [ none ↦ false | some j ↦ j == i ]

abbrev no_pad : ℕ → Bool
no_pad i = if tab_at i == b'=' then false else true

tab_table : all_below 64 digit_reads ≡ true
unfolding sextet tab_at
tab_table = refl

tab_ne_pad : all_below 64 no_pad ≡ true
unfolding tab_at
tab_ne_pad = refl

sextet-tab_at : (i : ℕ) → i < 64 → sextet (tab_at i) ≡ some i
sextet-tab_at i h = ground (arith, all_below_sound 64 digit_reads i tab_table h)

tab_at_ne_pad : (i : ℕ) → i < 64 → (tab_at i == b'=') ≡ false
tab_at_ne_pad i h = ground (arith, all_below_sound 64 no_pad i tab_ne_pad h)

and_three : (d : ℕ) → d < 256 → bit_and d 3 ≡ d % 4
and_three d h = (==_iff _ _).0 (all_below_sound 256 (λ x. bit_and x 3 == x % 4) d refl h)

and_fifteen : (d : ℕ) → d < 256 → bit_and d 0x0f ≡ d % 16
and_fifteen d h = (==_iff _ _).0 (all_below_sound 256 (λ x. bit_and x 0x0f == x % 16) d refl h)

and_sixty_three : (d : ℕ) → d < 256 → bit_and d 0x3f ≡ d % 64
and_sixty_three d h = (==_iff _ _).0 (all_below_sound 256 (λ x. bit_and x 0x3f == x % 64) d refl h)

or_table_16 : all_below 64 (λ v. bit_or (v / 16 * 16) (v % 16) == v) ≡ true
or_table_16 = refl

or_table_4 : all_below 64 (λ v. bit_or (v / 4 * 4) (v % 4) == v) ≡ true
or_table_4 = refl

-- The second digit of a group: two bits of one byte and four of the next.
second_digit :
    (d e : ℕ) → d < 256 → e < 256 → bit_or (bit_and d 3 * 16) (e / 16) ≡ d % 4 * 16 + e / 16
second_digit d e h k =
    let v : ℕ = d % 4 * 16 + e / 16 in
    let fact =
      (==_iff _ _).0 (
        all_below_sound 64 (λ v. bit_or (v / 16 * 16) (v % 16) == v) v or_table_16 (omega arith)) in
    let q : v / 16 ≡ d % 4 = omega arith in
    let r : v % 16 ≡ e / 16 = omega arith in rw (and_three d h) (rw (q, r) at fact)

-- The third digit: four bits of one byte and two of the next.
third_digit :
    (d e : ℕ) → d < 256 → e < 256 → bit_or (bit_and d 0x0f * 4) (e / 64) ≡ d % 16 * 4 + e / 64
third_digit d e h k =
    let v : ℕ = d % 16 * 4 + e / 64 in
    let fact =
      (==_iff _ _).0
        (all_below_sound 64 (λ v. bit_or (v / 4 * 4) (v % 4) == v) v or_table_4 (omega arith)) in
    let q : v / 4 ≡ d % 16 = omega arith in
    let r : v % 4 ≡ e / 64 = omega arith in rw (and_fifteen d h) (rw (q, r) at fact)

-- A full group decodes to its bytes, in front of what the rest decodes to.
decode_group-tabs :
    (x y z w : ℕ) (bytes : List ℕ)
    → x < 64
    → y < 64
    → z < 64
    → w < 64
    → decode_group (tab_at x) (tab_at y) (tab_at z) (tab_at w) bytes
      ≡ some ((x * 4 + y / 16) ∷ (y % 16 * 16 + z / 4) ∷ (z % 4 * 64 + w) ∷ bytes)
unfolding decode_group
decode_group-tabs x y z w bytes hx hy hz hw =
    rw (sextet-tab_at x hx, sextet-tab_at y hy, sextet-tab_at z hz, sextet-tab_at w hw)

decode_last-one :
    (x y : ℕ)
    → x < 64
    → y < 64
    → decode_last (tab_at x) (tab_at y) b'=' ≡ some ((x * 4 + y / 16) ∷ [])
unfolding decode_last
decode_last-one x y hx hy = rw (sextet-tab_at x hx, sextet-tab_at y hy)

decode_last-two :
    (x y z : ℕ)
    → x < 64
    → y < 64
    → z < 64
    → decode_last (tab_at x) (tab_at y) (tab_at z)
      ≡ some ((x * 4 + y / 16) ∷ (y % 16 * 16 + z / 4) ∷ [])
unfolding decode_last
decode_last-two x y z hx hy hz =
    rw (sextet-tab_at x hx, sextet-tab_at y hy, sextet-tab_at z hz, tab_at_ne_pad z hz)

list_eq₂ : {a b a' b' : ℕ} → a ≡ a' → b ≡ b' → some (a ∷ b ∷ []) ≡ some (a' ∷ b' ∷ [])
list_eq₂ p q = cc

list_eq₃ :
    {a b c a' b' c' : ℕ} {r : List ℕ}
    → a ≡ a'
    → b ≡ b'
    → c ≡ c'
    → some (a ∷ b ∷ c ∷ r) ≡ some (a' ∷ b' ∷ c' ∷ r)
list_eq₃ p q r = cc

-- Decoding what `base64_encode` writes gives the bytes back.
pub base64_decode-base64_encode :
    (bytes : List ℕ) → All (λ b. b < 256) bytes → base64_decode (base64_encode bytes) ≡ some bytes
unfolding base64_decode base64_encode
base64_decode-base64_encode [] h = refl
base64_decode-base64_encode (d0 ∷ []) h =
    rw (and_three d0 h.0, decode_last-one (d0 / 4) (d0 % 4 * 16) (omega arith) (omega arith))
      (ap (λ x. some (x ∷ [])) (omega arith))
base64_decode-base64_encode (d0 ∷ d1 ∷ []) h =
    rw
      (
        second_digit d0 d1 h.0 h.1.0,
        and_fifteen d1 h.1.0,
        decode_last-two (d0 / 4) (d0 % 4 * 16 + d1 / 16) (d1 % 16 * 4) (omega arith) (omega arith)
            (omega arith),
      )
      (list_eq₂ (omega arith) (omega arith))
base64_decode-base64_encode (d0 ∷ d1 ∷ d2 ∷ rest) h =
    rw
      (
        second_digit d0 d1 h.0 h.1.0,
        third_digit d1 d2 h.1.0 h.1.1.0,
        and_sixty_three d2 h.1.1.0,
        tab_at_ne_pad (d2 % 64) (omega arith),
        base64_decode-base64_encode rest h.1.1.1,
        decode_group-tabs (d0 / 4) (d0 % 4 * 16 + d1 / 16) (d1 % 16 * 4 + d2 / 64) (d2 % 64) rest
            (omega arith) (omega arith) (omega arith) (omega arith),
      )
      (list_eq₃ (omega arith) (omega arith) (omega arith))

-- Four characters for each three bytes begun.
pub length-base64_encode :
    (bytes : List ℕ) → length (base64_encode bytes) ≡ (length bytes + 2) / 3 * 4
unfolding base64_encode
length-base64_encode [] = refl
length-base64_encode (d0 ∷ []) = refl
length-base64_encode (d0 ∷ d1 ∷ []) = refl
length-base64_encode (d0 ∷ d1 ∷ d2 ∷ rest) = omega (arith, length-base64_encode rest)
