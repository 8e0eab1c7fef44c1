-- ===== src/Ws/Frame/RoundTrip/Whole.antt =====
-- A whole frame of `sendFrame`, read by `parseFrame`.
use websocket_client.Common.{
  ℕ, ◌+◌, ◌-◌, ◌%◌, ◌^◌, ◌≤◌, ◌<◌, ◌≡◌, refl, ap, sym, ◌∙◌, arith, min, bit_and, bit_or, Bool, true,
  false, not, some, List, [], ◌∷◌, ◌++◌, append_assoc, length, length-append, take, drop,
  take-length-append, drop-length-append, ltb, ◌==◌, if◌then◌else◌, le→ltb_false,
}
use websocket_client.Ws.Frame.{
  Frame, Header, Parse, parsed, parse_key, parse_header, parse_payload, parse_frame, unmask,
  length_bytes, masked, frame_bytes, max_frame_length,
}
use websocket_client.Ws.Frame.Bytes.{length-be_bytes}
use websocket_client.Ws.Frame.RoundTrip.{
  top_bit, ReadsAs, length_bytes_reads, opcode_byte, take_bytes-append, mask_from_twice,
  length-masked,
}

abbrev sent_key : List ℕ → Bool → List ℕ
sent_key key mask = if mask then key else []

parse_key-sent :
    (mask : Bool) (key rest : List ℕ)
    → length key ≡ 4
    → parse_key mask (sent_key key mask ++ rest) ≡ some (sent_key key mask, rest)
unfolding parse_key
parse_key-sent true key rest h = take_bytes-append 4 key rest h
parse_key-sent false key rest h = refl

-- The header that stands in front of a frame's bytes.
abbrev sent_header : List ℕ → Frame → List ℕ → Header
sent_header key f cur = record {
  fin = f.fin;
  mask = f.mask;
  opcode = f.opcode;
  wire_length = length f.payload;
  masking_key = sent_key key f.mask;
  cur = cur;
}

header_of_parts :
    (b1 len : ℕ) (mask : Bool) (lb key rest cur : List ℕ)
    → ReadsAs mask len lb rest
    → parse_key mask rest ≡ some (key, cur)
    → parse_header (b1 ∷ (lb ++ rest))
      ≡ some (record {
        fin = not (bit_and b1 0x80 == 0);
        mask = mask;
        opcode = bit_and b1 0x0F;
        wire_length = len;
        masking_key = key;
        cur = cur;
      })
unfolding parse_header
header_of_parts b1 len mask [] key rest cur h k = absurd h
header_of_parts b1 len mask (b2 ∷ lb) key rest cur h k =
    rw (parse_header, h.0, h.1, k)
      λ i. some (record {
        fin = not (bit_and b1 0x80 == 0);
        mask = h.1 i;
        opcode = bit_and b1 0x0F;
        wire_length = len;
        masking_key = key;
        cur = cur;
      })

length-length_bytes : (mask : Bool) (len : ℕ) → length (length_bytes mask len) ≤ 9
unfolding length_bytes
length-length_bytes mask len = ground (arith, length-be_bytes 2 len, length-be_bytes 8 len)

length-sent_key : (key : List ℕ) (mask : Bool) → length key ≡ 4 → length (sent_key key mask) ≤ 4
length-sent_key key mask h = ground arith

unmask-masked :
    (key : List ℕ) (f : Frame) (cur : List ℕ)
    → unmask (sent_header key f cur) (masked key f) ≡ f.payload
unfolding unmask masked
unmask-masked key f cur = ground (arith, mask_from_twice 0 key f.payload)

parse_frame_of_header :
    (max_message_size : ℕ) (buffer : List ℕ) (h : Header)
    → parse_header buffer ≡ some h
    → parse_frame max_message_size buffer ≡ parse_payload max_message_size buffer h
unfolding parse_frame
parse_frame_of_header max_message_size buffer h e = rw (parse_frame, e)

payload_of_parts :
    (max_message_size len : ℕ) (before out rest payload : List ℕ) (fin mask : Bool) (opcode : ℕ)
    (key : List ℕ)
    → len ≡ length out
    → len ≤ max_frame_length max_message_size
    → length before + len < 2 ^ 64
    → let h : Header = record {
      fin = fin;
      mask = mask;
      opcode = opcode;
      wire_length = len;
      masking_key = key;
      cur = out ++ rest;
    } in
      unmask h out ≡ payload
      → parse_payload max_message_size (before ++ (out ++ rest)) h
        ≡ parsed
            (record {
              opcode = opcode;
              payload = payload;
              fin = fin;
              mask = mask;
              at = some (length before);
            })
            (length before + len)
            (before ++ (payload ++ rest))
unfolding parse_payload
payload_of_parts max_message_size len before out rest payload fin mask opcode key size fits small
      un =
    let least : min len (max_frame_length max_message_size) ≡ len = omega arith in
    let offset : length (before ++ (out ++ rest)) - length (out ++ rest) ≡ length before =
      omega (arith, length-append before (out ++ rest)) in
    let enough : ltb (length (out ++ rest)) len ≡ false =
      le→ltb_false (length (out ++ rest)) len (omega (arith, length-append out rest)) in
    let here : take len (out ++ rest) ≡ out = rw size (take-length-append out rest) in
    let after : drop len (out ++ rest) ≡ rest = rw size (drop-length-append out rest) in
    let front : take (length before) (before ++ (out ++ rest)) ≡ before =
      take-length-append before (out ++ rest) in
    let total : (length before + len) % 2 ^ 64 ≡ length before + len = omega arith in
    rw (parse_payload, least, enough, offset, here, after, front, total, un)

module _ (key rest : List ℕ) (f : Frame) (opcode_fits : f.opcode < 16) (key_size : length key ≡ 4)
    (size_fits : length f.payload < 2 ^ 64 - 14) where
  abbrev body : List ℕ
  body = masked key f ++ rest

  -- The bytes in front of the payload.
  abbrev pub front : List ℕ
  front =
      bit_or (bit_and f.opcode 0x0F) (top_bit f.fin)
      ∷ (length_bytes f.mask (length f.payload) ++ sent_key key f.mask)

  split_bytes : frame_bytes key f ++ rest ≡ front ++ body
  unfolding frame_bytes
  split_bytes = simp append_assoc

  parse_header-frame : parse_header (front ++ body) ≡ some (sent_header key f body)
  parse_header-frame =
      let (a, b) = opcode_byte f.fin f.opcode opcode_fits in
      ap parse_header (
        ap (λ t. bit_or (bit_and f.opcode 0x0F) (top_bit f.fin) ∷ t)
          (append_assoc (length_bytes f.mask (length f.payload)) (sent_key key f.mask) body))
      ∙ (header_of_parts (bit_or (bit_and f.opcode 0x0F) (top_bit f.fin)) (length f.payload) f.mask
            (length_bytes f.mask (length f.payload)) (sent_key key f.mask)
            (sent_key key f.mask ++ body) body
            (length_bytes_reads f.mask (length f.payload) (sent_key key f.mask ++ body)
              (omega arith))
            (parse_key-sent f.mask key body key_size)
          ∙ λ i. some (record {
            fin = b i;
            mask = f.mask;
            opcode = a i;
            wire_length = length f.payload;
            masking_key = sent_key key f.mask;
            cur = body;
          }))

  front_size : length front ≤ 14
  front_size = omega (
    arith,
    length-append (length_bytes f.mask (length f.payload)) (sent_key key f.mask),
    length-length_bytes f.mask (length f.payload),
    length-sent_key key f.mask key_size,
  )

  -- What `parseFrame` makes of the frame: the fields that were sent, the payload unmasked in place.
  abbrev pub received_frame : Parse
  received_frame =
      parsed (record f { at = some (length front) }) (length front + length f.payload)
        (front ++ (f.payload ++ rest))

  -- `parseFrame` on the bytes that `sendFrame` hands down for a frame within the size limits, with
  -- any bytes behind them: it returns exactly the frame's length, writes the same opcode, final flag,
  -- mask flag and payload, and leaves the rest of the buffer alone.
  pub parse_frame-frame_bytes :
      (max_message_size : ℕ)
      → length f.payload ≤ max_frame_length max_message_size
      → parse_frame max_message_size (frame_bytes key f ++ rest) ≡ received_frame
  parse_frame-frame_bytes max_message_size fits =
      ap (parse_frame max_message_size) split_bytes
      ∙ parse_frame_of_header max_message_size (front ++ body) (sent_header key f body)
          parse_header-frame
      ∙ payload_of_parts max_message_size (length f.payload) front (masked key f) rest f.payload
          f.fin f.mask f.opcode (sent_key key f.mask) (sym (length-masked key f)) fits
          (omega (arith, front_size)) (unmask-masked key f body)
