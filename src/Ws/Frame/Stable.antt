-- ===== src/Ws/Frame/Stable.antt =====
-- `parseFrame` of src/impl/wstransport.cpp on a buffer that grows.
use websocket_client.Common.{
  ℕ, ◌+◌, ◌-◌, ◌%◌, ◌^◌, ◌≤◌, ◌<◌, ◌≡◌, ◌≢◌, refl, ap, sym, ◌∙◌, arith, min, false, none, some,
  List, ◌++◌, append_assoc, length, length-append, length-take, length-drop, take, drop,
  take-append, drop-append, take-length-append, ltb, Bool-cases, Option-cases, inl, inr,
  le→ltb_false, ltb→lt, lt→ltb,
}
use websocket_client.Ws.Frame.{
  Frame, Header, incomplete, parsed, parse_header, parse_payload, parse_frame, unmask,
  max_frame_length,
}
use websocket_client.Ws.Frame.RoundTrip.{length-mask_from}
use websocket_client.Ws.Frame.Front.{parse_header_front}

-- What `parseFrame` returns of the buffer: the header as it was, the payload in its place.
pub record ParsedFacts (max_message_size : ℕ) (buffer : List ℕ) (f : Frame) (consumed : ℕ)
    (after : List ℕ) : Type 0 where
  pub offset : ℕ
  pub placed : f.at ≡ some offset
  pub inside : offset + length f.payload ≤ length after
  pub same_size : length after ≡ length buffer
  pub more :
      (bytes : List ℕ)
      → parse_frame max_message_size (buffer ++ bytes) ≡ parsed f consumed (after ++ bytes)
  pub again : parse_frame max_message_size after ≢ incomplete

length-unmask : (h : Header) (payload : List ℕ) → length (unmask h payload) ≡ length payload
unfolding unmask
length-unmask h payload = ground (arith, length-mask_from 0 h.masking_key payload)

abbrev frame_of : ℕ → ℕ → Header → List ℕ → Frame
frame_of m offset h cur = record {
  opcode = h.opcode;
  payload = unmask h (take (min h.wire_length (max_frame_length m)) cur);
  fin = h.fin;
  mask = h.mask;
  at = some offset;
}

abbrev after_of : ℕ → List ℕ → Header → List ℕ → List ℕ
after_of m front h cur =
    let len = min h.wire_length (max_frame_length m) in
    front ++ (unmask h (take len cur) ++ drop len cur)

-- `parsePayload` over a header whose place in the buffer is known.
payload_parsed :
    (m : ℕ) (front : List ℕ) (h : Header) (cur : List ℕ)
    → min h.wire_length (max_frame_length m) ≤ length cur
    → parse_payload m (front ++ cur) (record h { cur = cur })
      ≡ parsed
          (frame_of m (length front) h cur)
          ((length front + h.wire_length) % 2 ^ 64)
          (after_of m front h cur)
unfolding parse_payload unmask
payload_parsed m front h cur enough =
    let offset : length (front ++ cur) - length cur ≡ length front =
      omega (arith, length-append front cur) in
    let test : ltb (length cur) (min h.wire_length (max_frame_length m)) ≡ false =
      le→ltb_false (length cur) (min h.wire_length (max_frame_length m)) enough in
    rw (parse_payload, test, offset, take-length-append front cur)

payload_short :
    (m : ℕ) (buffer : List ℕ) (h : Header)
    → length h.cur < min h.wire_length (max_frame_length m)
    → parse_payload m buffer h ≡ incomplete
unfolding parse_payload
payload_short m buffer h short =
    rw (parse_payload, lt→ltb (length h.cur) (min h.wire_length (max_frame_length m)) short)

parse_frame_front :
    (m : ℕ) (front : List ℕ) (h : Header) (cur : List ℕ)
    → parse_header (front ++ cur) ≡ some (record h { cur = cur })
    → min h.wire_length (max_frame_length m) ≤ length cur
    → parse_frame m (front ++ cur)
      ≡ parsed
          (frame_of m (length front) h cur)
          ((length front + h.wire_length) % 2 ^ 64)
          (after_of m front h cur)
unfolding parse_frame
parse_frame_front m front h cur e enough = rw (parse_frame, e) (payload_parsed m front h cur enough)

module _ (m : ℕ) (front : List ℕ) (h : Header)
    (enough : min h.wire_length (max_frame_length m) ≤ length h.cur)
    (read : (more : List ℕ) → parse_header (front ++ more) ≡ some (record h { cur = more })) where
  abbrev len : ℕ
  len = min h.wire_length (max_frame_length m)

  size_of_payload : length (unmask h (take len h.cur)) ≡ len
  size_of_payload = omega (arith, length-unmask h (take len h.cur), length-take len h.cur)

  size_of_after : length (unmask h (take len h.cur) ++ drop len h.cur) ≡ length h.cur
  size_of_after = omega (
    arith,
    length-append (unmask h (take len h.cur)) (drop len h.cur),
    length-drop len h.cur,
    size_of_payload,
  )

  parsed_more :
      (bytes : List ℕ)
      → parse_frame m (front ++ h.cur ++ bytes)
        ≡ parsed
            (frame_of m (length front) h h.cur)
            ((length front + h.wire_length) % 2 ^ 64)
            (after_of m front h h.cur ++ bytes)
  parsed_more bytes =
      ap (parse_frame m) (append_assoc front h.cur bytes)
      ∙ parse_frame_front m front h (h.cur ++ bytes) (read (h.cur ++ bytes))
          (omega (arith, length-append h.cur bytes))
      ∙ rw (take-append len h.cur bytes enough, drop-append len h.cur bytes enough)
          (ap
            (λ t.
              parsed (frame_of m (length front) h h.cur) ((length front + h.wire_length) % 2 ^ 64)
                t)
            (simp append_assoc))

  parsed_facts :
      ParsedFacts m
        (front ++ h.cur)
        (frame_of m (length front) h h.cur)
        ((length front + h.wire_length) % 2 ^ 64)
        (after_of m front h h.cur)
  parsed_facts = record {
    offset = length front;
    placed = refl;
    inside = omega (
      arith,
      length-append front (unmask h (take len h.cur) ++ drop len h.cur),
      size_of_after,
      size_of_payload,
    );
    same_size = omega (
      arith,
      length-append front (unmask h (take len h.cur) ++ drop len h.cur),
      size_of_after,
      length-append front h.cur,
    );
    more = parsed_more;
    again = λ e.
        let same =
          parse_frame_front m front h (unmask h (take len h.cur) ++ drop len h.cur)
            (read (unmask h (take len h.cur) ++ drop len h.cur)) (omega (arith, size_of_after)) in
        cc same;
  }

ParsedFacts-of_eq :
    (m : ℕ) (buffer : List ℕ) (f g : Frame) (n k : ℕ) (after later : List ℕ)
    → parsed f n after ≡ parsed g k later
    → ParsedFacts m buffer f n after
    → ParsedFacts m buffer g k later
ParsedFacts-of_eq m buffer f g n k after later e facts =
    let ef : g ≡ f = cc in
    let en : k ≡ n = cc in let ea : later ≡ after = cc in rw (ef, en, ea) facts

parse_frame_of_header :
    (m : ℕ) (buffer : List ℕ) (h : Header)
    → parse_header buffer ≡ some h
    → parse_frame m buffer ≡ parse_payload m buffer h
unfolding parse_frame
parse_frame_of_header m buffer h e = rw (parse_frame, e)

parse_frame_no_header :
    (m : ℕ) (buffer : List ℕ) → parse_header buffer ≡ none → parse_frame m buffer ≡ incomplete
unfolding parse_frame
parse_frame_no_header m buffer e = rw (parse_frame, e)

-- A frame that `parseFrame` found lies in the buffer, whose size it keeps, and is found alike, with
-- the same count, when more bytes have arrived behind it.
pub parse_frame_facts :
    (m : ℕ) (buffer : List ℕ) (f : Frame) (n : ℕ) (after : List ℕ)
    → parse_frame m buffer ≡ parsed f n after
    → ParsedFacts m buffer f n after
parse_frame_facts m buffer f n after e = elim (Option-cases (parse_header buffer)) [
  | inl no_header ↦ absurd (cc (parse_frame_no_header m buffer no_header))
  | inr (h, is_header) ↦
      let front = parse_header_front buffer h is_header in
      elim (Bool-cases (ltb (length h.cur) (min h.wire_length (max_frame_length m)))) [
        | inl short ↦ absurd (
            cc (
              parse_frame_of_header m buffer h is_header,
              payload_short m buffer h
                  (ltb→lt (length h.cur) (min h.wire_length (max_frame_length m)) short),
            ))
        | inr long ↦
            let enough : min h.wire_length (max_frame_length m) ≤ length h.cur = ground arith in
            let found = parse_frame_front m front.front h h.cur (front.read h.cur) enough in
            let facts = parsed_facts m front.front h enough front.read in
            rw (front.split) (
              ParsedFacts-of_eq m (front.front ++ h.cur) _ f _ n _ after
                (sym found ∙ ap (parse_frame m) (sym front.split) ∙ e) facts)
      ]
]
