-- ===== src/Ws/Frame/RoundTrip.antt =====
-- The bytes of `sendFrame`, read by `parseFrame`, in src/impl/wstransport.cpp.
pub mod Whole
use websocket_client.Common.{
  ℕ, zero, suc, ◌+◌, ◌%◌, ◌^◌, ◌<◌, ◌≡◌, refl, ap, ap₂, arith, bit_and, bit_or, Bool, true, false,
  not, ◌&&◌, some, List, [], ◌∷◌, ◌++◌, length, ltb, leb, ◌==◌, if◌then◌else◌, ==_iff,
  all_below_sound, Bool-cases, inl, inr, xor_twice, get_or,
}
use websocket_client.Ws.Frame.{Frame, mask_from, take_bytes, parse_length, length_bytes, masked}
use websocket_client.Ws.Frame.Bytes.{be_bytes, be_value-be_bytes, length-be_bytes}

-- The top bit of a header byte.
abbrev pub top_bit : Bool → ℕ
top_bit b = if b then 0x80 else 0

abbrev same_bit : Bool → Bool → Bool
same_bit true b = b
same_bit false b = not b

abbrev reads_opcode : Bool → ℕ → Bool
reads_opcode fin o =
    bit_and (bit_or (bit_and o 0x0F) (top_bit fin)) 0x0F == o
    && same_bit fin (not (bit_and (bit_or (bit_and o 0x0F) (top_bit fin)) 0x80 == 0))

abbrev reads_length : Bool → ℕ → Bool
reads_length mask n =
    bit_and (bit_or n (top_bit mask)) 0x7F == n
    && same_bit mask (not (bit_and (bit_or n (top_bit mask)) 0x80 == 0))

abbrev low_seven : ℕ → Bool
low_seven n = bit_and n 0x7F == n

pub opcode_byte :
    (fin : Bool) (o : ℕ)
    → o < 16
    → (bit_and (bit_or (bit_and o 0x0F) (top_bit fin)) 0x0F ≡ o)
      × (not (bit_and (bit_or (bit_and o 0x0F) (top_bit fin)) 0x80 == 0) ≡ fin)
opcode_byte true o h = ground (arith, all_below_sound 16 (reads_opcode true) o refl h)
opcode_byte false o h = ground (arith, all_below_sound 16 (reads_opcode false) o refl h)

length_byte :
    (mask : Bool) (n : ℕ)
    → n < 128
    → (bit_and (bit_or n (top_bit mask)) 0x7F ≡ n)
      × (not (bit_and (bit_or n (top_bit mask)) 0x80 == 0) ≡ mask)
length_byte true n h = ground (arith, all_below_sound 128 (reads_length true) n refl h)
length_byte false n h = ground (arith, all_below_sound 128 (reads_length false) n refl h)

and_low_seven : (n : ℕ) → n < 128 → bit_and n 0x7F ≡ n
and_low_seven n h = (==_iff _ _).0 (all_below_sound 128 low_seven n refl h)

pub take_bytes-append :
    (n : ℕ) (bytes rest : List ℕ)
    → length bytes ≡ n
    → take_bytes n (bytes ++ rest) ≡ some (bytes, rest)
unfolding take_bytes
take_bytes-append zero [] rest h = refl
take_bytes-append zero (b ∷ bytes) rest h = absurd (omega arith)
take_bytes-append (suc n) [] rest h = absurd (omega arith)
take_bytes-append (suc n) (b ∷ bytes) rest h = rw (take_bytes-append n bytes rest (omega arith))

-- Masking twice with one key is the identity.
pub mask_from_twice :
    (i : ℕ) (key payload : List ℕ) → mask_from i key (mask_from i key payload) ≡ payload
unfolding mask_from
mask_from_twice i key [] = refl
mask_from_twice i key (b ∷ payload) =
    ap₂ ◌∷◌ (xor_twice b (get_or key (i % 4) 0)) (mask_from_twice (i + 1) key payload)

pub length-mask_from :
    (i : ℕ) (key payload : List ℕ) → length (mask_from i key payload) ≡ length payload
unfolding mask_from
length-mask_from i key [] = refl
length-mask_from i key (b ∷ payload) = ap suc (length-mask_from (i + 1) key payload)

pub length-masked : (key : List ℕ) (f : Frame) → length (masked key f) ≡ length f.payload
unfolding masked
length-masked key f = ground (arith, length-mask_from 0 key f.payload)

-- The length field of a frame, read after the first byte: the second byte is the head.
abbrev pub ReadsAs : Bool → ℕ → List ℕ → List ℕ → Type 0
ReadsAs mask len [] rest = ⊥
ReadsAs mask len (b2 ∷ more) rest =
    (parse_length (bit_and b2 0x7F) (more ++ rest) ≡ some (len, rest))
    × (not (bit_and b2 0x80 == 0) ≡ mask)

parse_length-short : (n : ℕ) (rest : List ℕ) → n < 126 → parse_length n rest ≡ some (n, rest)
unfolding parse_length
parse_length-short n rest h = ground arith

parse_length-two :
    (v : ℕ) (rest : List ℕ) → v < 65536 → parse_length 126 (be_bytes 2 v ++ rest) ≡ some (v, rest)
unfolding parse_length
parse_length-two v rest h = rw (
  take_bytes-append 2 (be_bytes 2 v) rest (length-be_bytes 2 v),
  be_value-be_bytes 2 v (omega arith),
)

parse_length-eight :
    (v : ℕ) (rest : List ℕ) → v < 2 ^ 64 → parse_length 127 (be_bytes 8 v ++ rest) ≡ some (v, rest)
unfolding parse_length
parse_length-eight v rest h = rw (
  take_bytes-append 8 (be_bytes 8 v) rest (length-be_bytes 8 v),
  be_value-be_bytes 8 v (omega arith),
)

pub length_bytes_reads :
    (mask : Bool) (len : ℕ) (rest : List ℕ)
    → len < 2 ^ 64
    → ReadsAs mask len (length_bytes mask len) rest
unfolding length_bytes
length_bytes_reads mask len rest h = elim (Bool-cases (ltb len 0x7E)) [
  | inl small ↦
      let lt : len < 126 = ground arith in
      let (a, b) = length_byte mask len (omega arith) in
      rw (small, and_low_seven len (omega arith), a) (parse_length-short len rest lt, b)
  | inr big ↦ elim (Bool-cases (leb len 0xFFFF)) [
    | inl two ↦
        let (a, b) = length_byte mask 0x7E (omega arith) in
        rw (big, two, a) (parse_length-two len rest (ground arith), b)
    | inr eight ↦
        let (a, b) = length_byte mask 0x7F (omega arith) in
        rw (big, eight, a) (parse_length-eight len rest h, b)
  ]
]
