-- ===== src/Ws/Frame.antt =====
-- The frame header and the masking of `WsTransport::parseFrame` and `WsTransport::sendFrame` in
-- src/impl/wstransport.cpp. A byte is a number below 256, and the host is little-endian, so that
-- `ntohs`, `ntohll` and their inverses read and write the most significant byte first.
pub mod Bytes
pub mod RoundTrip
pub mod Front
pub mod Stable
use websocket_client.Common.{
  ℕ, zero, suc, ◌+◌, ◌-◌, ◌*◌, ◌/◌, ◌%◌, ◌^◌, min, max, bit_and, bit_or, bit_xor, Bool, true, false,
  not, Option, none, some, List, [], ◌∷◌, ◌++◌, length, take, drop, get_or, ltb, leb, ◌==◌,
  if◌then◌else◌,
}
use Bytes.{be_value, be_bytes}

-- enum Opcode. The cast from four bits also gives numbers that it does not name.
abbrev pub continuation : ℕ
continuation = 0

abbrev pub text_frame : ℕ
text_frame = 1

abbrev pub binary_frame : ℕ
binary_frame = 2

abbrev pub close_frame : ℕ
close_frame = 8

abbrev pub ping_frame : ℕ
ping_frame = 9

abbrev pub pong_frame : ℕ
pong_frame = 10

-- `payload` and `length` are the list; `at` is the offset at which the pointer points into
-- `mBuffer`, if it does.
pub record Frame : Type 0 where
  pub opcode : ℕ
  pub payload : List ℕ
  pub fin : Bool
  pub mask : Bool
  pub at : Option ℕ

-- `payload[i] ^= maskingKey[i % 4]`, from index `i` on.
unfoldable pub mask_from : ℕ → List ℕ → List ℕ → List ℕ
mask_from i key [] = []
mask_from i key (b ∷ payload) = bit_xor b (get_or key (i % 4) 0) ∷ mask_from (i + 1) key payload

-- The fields of a header, the masking key ([] where there is none), and what follows it.
pub record Header : Type 0 where
  pub fin : Bool
  pub mask : Bool
  pub opcode : ℕ
  pub wire_length : ℕ
  pub masking_key : List ℕ
  pub cur : List ℕ

-- `n` bytes from the cursor, if there are so many.
unfoldable pub take_bytes : ℕ → List ℕ → Option (List ℕ × List ℕ)
take_bytes zero cur = some ([], cur)
take_bytes (suc n) [] = none
take_bytes (suc n) (b ∷ cur) = elim (take_bytes n cur) [
  | none ↦ none
  | some (bytes, rest) ↦ some (b ∷ bytes, rest)
]

-- The payload length, from the seven bits and the two or eight bytes behind them.
unfoldable pub parse_length : ℕ → List ℕ → Option (ℕ × List ℕ)
parse_length len7 cur =
    if len7 == 0x7E
    then (elim (take_bytes 2 cur) [
      | none ↦ none
      | some (bytes, rest) ↦ some (be_value bytes, rest)
    ])
    else if len7 == 0x7F
    then (elim (take_bytes 8 cur) [
      | none ↦ none
      | some (bytes, rest) ↦ some (be_value bytes, rest)
    ])
    else some (len7, cur)

unfoldable pub parse_key : Bool → List ℕ → Option (List ℕ × List ℕ)
parse_key true cur = take_bytes 4 cur
parse_key false cur = some ([], cur)

unfoldable pub parse_header : List ℕ → Option Header
parse_header [] = none
parse_header (b1 ∷ []) = none
parse_header (b1 ∷ b2 ∷ cur) = elim (parse_length (bit_and b2 0x7F) cur) [
  | none ↦ none
  | some (len, cur1) ↦ elim (parse_key (not (bit_and b2 0x80 == 0)) cur1) [
    | none ↦ none
    | some (key, cur2) ↦ some (record {
      fin = not (bit_and b1 0x80 == 0);
      mask = not (bit_and b2 0x80 == 0);
      opcode = bit_and b1 0x0F;
      wire_length = len;
      masking_key = key;
      cur = cur2;
    })
  ]
]

-- `parsed frame consumed buffer`: what `parseFrame` writes to `frame`, what it returns, and the
-- buffer after the payload was unmasked in place.
pub data Parse : Type 0 where
  incomplete : Parse
  parsed : Frame → ℕ → List ℕ → Parse

abbrev pub max_frame_length : ℕ → ℕ
max_frame_length max_message_size = max 125 max_message_size

-- The payload in the buffer, unmasked if there is a key.
unfoldable pub unmask : Header → List ℕ → List ℕ
unmask h payload = if h.mask then mask_from 0 h.masking_key payload else payload

-- The part behind the header: `length` bytes are taken, and the offset behind the whole frame is
-- returned as a `size_t`.
unfoldable pub parse_payload : ℕ → List ℕ → Header → Parse
parse_payload max_message_size buffer h =
    let len = min h.wire_length (max_frame_length max_message_size) in
    let offset = length buffer - length h.cur in
    let payload = unmask h (take len h.cur) in
    if ltb (length h.cur) len
    then incomplete
    else parsed
        (record {
          opcode = h.opcode;
          payload = payload;
          fin = h.fin;
          mask = h.mask;
          at = some offset;
        })
        ((offset + h.wire_length) % 2 ^ 64) (take offset buffer ++ (payload ++ drop len h.cur))

unfoldable pub parse_frame : ℕ → List ℕ → Parse
parse_frame max_message_size buffer = elim (parse_header buffer) [
  | none ↦ incomplete
  | some h ↦ parse_payload max_message_size buffer h
]

-- The header that `sendFrame` writes for a frame, without the key.
unfoldable pub length_bytes : Bool → ℕ → List ℕ
length_bytes mask len =
    let bit : ℕ = if mask then 0x80 else 0 in
    if ltb len 0x7E
    then bit_or (bit_and len 0x7F) bit ∷ []
    else if leb len 0xFFFF
    then bit_or 0x7E bit ∷ be_bytes 2 len
    else bit_or 0x7F bit ∷ be_bytes 8 len

-- The payload as it goes out.
unfoldable pub masked : List ℕ → Frame → List ℕ
masked key f = if f.mask then mask_from 0 key f.payload else f.payload

-- The message that `sendFrame` hands to the lower transport.
unfoldable pub frame_bytes : List ℕ → Frame → List ℕ
frame_bytes key f =
    bit_or (bit_and f.opcode 0x0F) (if f.fin then 0x80 else 0)
    ∷ (length_bytes f.mask (length f.payload) ++ ((if f.mask then key else []) ++ masked key f))
