-- ===== src/Ws/Chunks/Split.antt =====
-- The frame loop of src/impl/wstransport.cpp run twice, with bytes that arrive in between.
use websocket_client.Common.{
  ℕ, zero, suc, ◌-◌, ◌≤◌, ◌<◌, ◌≡◌, refl, ap, sym, ◌∙◌, arith, Bool, true, false, List, [], ◌++◌,
  length, length-append, length-drop, drop, drop-append, drop-append_ge, drop_of_le, if◌then◌else◌,
  ◌==◌, ltb, Bool-cases, inl, inr, ltb→lt,
}
use websocket_client.Ws.Frame.{parse_frame}
use websocket_client.Ws.Frame.Stable.{parse_frame_facts}
use websocket_client.Ws.Core.{Env, Ws, ok}
use websocket_client.Ws.Receive.{recv_frame}
use websocket_client.Ws.Incoming.{after_frame, frame_loop, drop_ignored, drain}
use websocket_client.Ws.Chunks.Extend.{extend, map_result, recv_frame-extend}
use websocket_client.Ws.Chunks.Loop.{
  Settled, Parse-cases, Result-cases, in_place, loop_incomplete, loop_stalled, loop_threw,
  loop_step, loop_last, loop_next, step_sizes, after_frame-next, after_frame-last, frame_loop_fuel,
}

-- With nothing to ignore, the buffer goes to the loop.
drain_loop :
    (env : Env) (w : Ws)
    → w.ignore_length ≡ 0
    → drain env w ≡ frame_loop (suc (length w.buffer)) env w
unfolding drain drop_ignored
drain_loop env w h = ground arith

-- With more to ignore than has arrived, all of it is dropped.
drain_all :
    (env : Env) (w : Ws)
    → length w.buffer < w.ignore_length
    → drain env w
      ≡ ok true (record w { ignore_length = w.ignore_length - length w.buffer; buffer = [] })
unfolding drain drop_ignored
drain_all env w h = ground (arith, drop_of_le (length w.buffer) w.buffer)

-- With enough, the rest goes to the loop.
drain_some :
    (env : Env) (w : Ws)
    → 0 < w.ignore_length
    → w.ignore_length ≤ length w.buffer
    → drain env w
      ≡ frame_loop
          (suc (length (drop w.ignore_length w.buffer)))
          env
          (record w { buffer = drop w.ignore_length w.buffer; ignore_length = 0 })
unfolding drain drop_ignored
drain_some env w p h = ground arith

module _ (env : Env) (c : List ℕ) where
  -- After a frame that reached beyond the buffer.
  last_more :
      (k n : ℕ) (w2 : Ws)
      → w2.ignore_length ≡ 0
      → length w2.buffer < n
      → length (w2.buffer ++ c) < suc k
      → (if ltb (length (w2.buffer ++ c)) n
          then ok true (after_frame n (extend c w2))
          else frame_loop k env (after_frame n (extend c w2)))
        ≡ drain env (extend c (record w2 { ignore_length = n - length w2.buffer; buffer = [] }))
  last_more k n w2 zero_left beyond fuel = elim (Bool-cases (ltb (length (w2.buffer ++ c)) n)) [
    | inl l ↦
        rw
          (
            l,
            after_frame-last n (extend c w2) l,
            drain_all env
                (extend c (record w2 { ignore_length = n - length w2.buffer; buffer = [] }))
                (ground (arith, length-append w2.buffer c)),
          )
          (ap (λ t. ok true (record w2 { ignore_length = t; buffer = [] }))
            (omega (arith, length-append w2.buffer c)))
    | inr l ↦
        let left = n - length w2.buffer in
        let rest : drop n (w2.buffer ++ c) ≡ drop left c =
          drop-append_ge n w2.buffer c (omega arith) in
        let same : record w2 { buffer = drop n (w2.buffer ++ c) }
            ≡ record w2 { buffer = drop left c; ignore_length = 0 } =
          λ i. record w2 { buffer = rest i; ignore_length = zero_left i } in
        rw
          (
            l,
            after_frame-next n (extend c w2) l,
            drain_some env (extend c (record w2 { ignore_length = left; buffer = [] }))
                (omega arith) (ground (arith, length-append w2.buffer c)),
            same,
          )
          (frame_loop_fuel k (suc (length (drop left c))) env
            (record w2 { buffer = drop left c; ignore_length = 0 })
            (ground (arith, length-drop left c, length-append w2.buffer c)) (omega arith))
  ]

  -- A loop that settles, and then more bytes: the same as the loop over all of them at once.
  pub frame_loop_more :
      (g k : ℕ) (w w1 : Ws) (a : Bool)
      → length w.buffer < g
      → length (w.buffer ++ c) < k
      → w.ignore_length ≡ 0
      → frame_loop g env w ≡ ok a w1
      → Settled w1
      → frame_loop k env (extend c w) ≡ drain env (extend c w1)
  frame_loop_more zero k w w1 a p q z e s = absurd (omega arith)
  frame_loop_more (suc g) zero w w1 a p q z e s = absurd (omega arith)
  frame_loop_more (suc g) (suc k) w w1 a p q z e s =
      elim (Parse-cases (parse_frame w.max_message_size w.buffer)) [
        | inl none_found ↦
            let same : w1 ≡ w = cc (loop_incomplete env g w none_found) in
            rw same (
              sym (
                drain_loop env (extend c w) z
                ∙ frame_loop_fuel (suc (length (w.buffer ++ c))) (suc k) env (extend c w)
                    (omega arith) q))
        | inr (f, n, b, found) ↦ elim (Bool-cases (n == 0)) [
          | inl stalls ↦
              let same : w1 ≡ in_place w b = cc (loop_stalled env g w f n b found stalls) in
              absurd
                ((parse_frame_facts w.max_message_size w.buffer f n b found).again (rw same at s))
          | inr moves ↦ elim (Result-cases (recv_frame env f (in_place w b))) [
            | inr (x, w2, r) ↦ absurd (cc (loop_threw env g w f n b found x w2 moves r))
            | inl (a2, w2, r) ↦
                let facts = parse_frame_facts w.max_message_size w.buffer f n b found in
                let (inside, size, left) = step_sizes env w f n b a2 w2 found r in
                let found' = facts.more c in
                let r' : recv_frame env f (in_place (extend c w) (b ++ c)) ≡ ok a2 (extend c w2) =
                  recv_frame-extend c env f (in_place w b) inside ∙ ap (map_result (extend c)) r in
                elim (Bool-cases (ltb (length w2.buffer) n)) [
                  | inl l ↦
                      let same : record w2 { ignore_length = n - length w2.buffer; buffer = [] }
                          ≡ w1 =
                        sym (after_frame-last n w2 l)
                        ∙ cc (loop_last env g w f n b found a2 w2 moves r l) in
                      loop_step env k (extend c w) f n (b ++ c) a2 (extend c w2) found' moves r'
                      ∙ last_more k n w2 (left ∙ z) (ltb→lt (length w2.buffer) n l)
                          (omega (arith, length-append w2.buffer c, length-append w.buffer c))
                      ∙ ap (λ t. drain env (extend c t)) same
                  | inr l ↦
                      let rest : Ws = record w2 { buffer = drop n w2.buffer } in
                      let done : frame_loop g env rest ≡ ok a w1 =
                        ap (frame_loop g env) (sym (after_frame-next n w2 l))
                        ∙ sym (loop_next env g w f n b found a2 w2 moves r l)
                        ∙ e in
                      let longer : ltb (length (w2.buffer ++ c)) n ≡ false =
                        ground (arith, length-append w2.buffer c) in
                      loop_next env k (extend c w) f n (b ++ c) found' a2 (extend c w2) moves r'
                        longer
                      ∙ ap (frame_loop k env) (
                          after_frame-next n (extend c w2) longer ∙ λ i. record w2 {
                            buffer = drop-append n w2.buffer c (ground arith) i;
                          })
                      ∙ frame_loop_more g k rest w1 a (ground (arith, length-drop n w2.buffer))
                          (ground (
                            arith,
                            length-append (drop n w2.buffer) c,
                            length-append w.buffer c,
                            length-drop n w2.buffer,
                          ))
                          (left ∙ z) done s
                ]
          ]
        ]
      ]

  -- More bytes to ignore than the buffer holds.
  ignored_more :
      (w : Ws)
      → length w.buffer < w.ignore_length
      → drain env (extend c w)
        ≡ drain env
            (extend c (record w { ignore_length = w.ignore_length - length w.buffer; buffer = [] }))
  ignored_more w h =
      let left = w.ignore_length - length w.buffer in
      elim (Bool-cases (ltb (length (w.buffer ++ c)) w.ignore_length)) [
        | inl l ↦
            drain_all env (extend c w) (ltb→lt (length (w.buffer ++ c)) w.ignore_length l)
            ∙ ap (λ t. ok true (record w { ignore_length = t; buffer = [] }))
                (omega (arith, length-append w.buffer c))
            ∙ sym (
                drain_all env (extend c (record w { ignore_length = left; buffer = [] }))
                  (ground (arith, length-append w.buffer c)))
        | inr l ↦
            drain_some env (extend c w) (omega arith) (ground arith)
            ∙ rw (drop-append_ge w.ignore_length w.buffer c (omega arith)) (
                sym (
                  drain_some env (extend c (record w { ignore_length = left; buffer = [] }))
                    (omega arith) (ground (arith, length-append w.buffer c))))
      ]

  -- With bytes to ignore or not, what settles can be continued by what arrives later.
  pub drain_more :
      (w w1 : Ws) (a : Bool)
      → drain env w ≡ ok a w1
      → Settled w1
      → drain env (extend c w) ≡ drain env (extend c w1)
  drain_more w w1 a e s = elim (Bool-cases (w.ignore_length == 0)) [
    | inl none_left ↦
        let z : w.ignore_length ≡ 0 = ground arith in
        drain_loop env (extend c w) z
        ∙ frame_loop_more (suc (length w.buffer)) (suc (length (w.buffer ++ c))) w w1 a
            (omega arith) (omega arith) z (sym (drain_loop env w z) ∙ e) s
    | inr some_left ↦ elim (Bool-cases (ltb (length w.buffer) w.ignore_length)) [
      | inl more_left ↦
          let left = w.ignore_length - length w.buffer in
          let same : record w { ignore_length = left; buffer = [] } ≡ w1 =
            cc (drain_all env w (ltb→lt (length w.buffer) w.ignore_length more_left)) in
          ignored_more w (ltb→lt (length w.buffer) w.ignore_length more_left)
          ∙ ap (λ t. drain env (extend c t)) same
      | inr enough ↦
          let pos : 0 < w.ignore_length = ground arith in
          let fits : w.ignore_length ≤ length w.buffer = ground arith in
          let rest = record w { buffer = drop w.ignore_length w.buffer; ignore_length = 0 } in
          drain_some env (extend c w) pos (omega (arith, length-append w.buffer c))
          ∙ rw (drop-append w.ignore_length w.buffer c fits) (
              frame_loop_more (suc (length rest.buffer)) (suc (length (rest.buffer ++ c))) rest w1 a
                (omega arith) (omega arith) refl (sym (drain_some env w pos fits) ∙ e) s)
    ]
  ]
