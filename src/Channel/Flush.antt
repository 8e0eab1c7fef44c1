-- ===== src/Channel/Flush.antt =====
-- Flushing a `Channel` of src/impl/channel.cpp: what leaves its queue.
use websocket_client.Common.{
  ℕ, ◌≡◌, refl, sym, ap, ◌∙◌, Bool, true, false, ◌&&◌, Option, none, some, List, [], ◌∷◌, ◌++◌, map,
  append-nil, append_assoc, if-holds, ◌==◌, length, drop, drop-length-append, Bool-cases, inl, inr,
}
use websocket_client.Callback.{Callback, after, apply, plain_call}
use websocket_client.Message.{Variant}
use websocket_client.Channel.{
  Functions, Channel, is_set, first, rest, receive, flush_loop, flush_pending_messages,
  trigger_available, Call, calls_receive, calls_arrive, perform,
}

-- The arguments of the calls in a log.
abbrev pub args : List (ℕ × Variant) → List Variant
args log = map (λ (e : ℕ × Variant). e.1) log

-- What a log has more than another: the messages that the functions got in between.
abbrev pub handed : List (ℕ × Variant) → List (ℕ × Variant) → List Variant
handed log later = args (drop (length log) later)

abbrev pub given : Option Variant → List Variant
given none = []
given (some m) = m ∷ []

-- The messages that leave the queue in a call: what `receive` returns, or handed to the function.
abbrev pub taken : Functions → Call → Channel → List Variant
taken fs calls_receive w = given (receive w).0
taken fs c w = handed w.message_callback.log (perform fs c w).message_callback.log

abbrev pub taken_all : Functions → List Call → Channel → List Variant
taken_all fs [] w = []
taken_all fs (c ∷ cs) w = taken fs c w ++ taken_all fs cs (perform fs c w)

abbrev pub arrived : List Call → List Variant
arrived [] = []
arrived (calls_arrive m ∷ cs) = m ∷ arrived cs
arrived (c ∷ cs) = arrived cs

-- No message waits in an open channel that has a function for messages.
abbrev pub IsSettled : Channel → Type 0
IsSettled w = (w.open_triggered && is_set w.message_callback) ≡ true → w.recv_queue ≡ []

plain_call-some :
    (fails : ℕ → Variant → Bool) (m : Variant) (c : Callback Variant) (f : ℕ)
    → c.callback ≡ some f
    → after (plain_call fails m c)
      ≡ record { callback = some f; stored = c.stored; log = c.log ++ ((f, m) ∷ []) }
unfolding plain_call apply
plain_call-some fails m c f e =
    rw (plain_call, e)
      (if-holds
        (λ o.
          after o ≡ record { callback = some f; stored = c.stored; log = c.log ++ ((f, m) ∷ []) })
        (fails f m) _ _ (logged e) (logged e))
  where
    logged :
        c.callback ≡ some f
        → record c { log = c.log ++ ((f, m) ∷ []) }
          ≡ record { callback = some f; stored = c.stored; log = c.log ++ ((f, m) ∷ []) }
    logged e = ap (λ k. record { callback = k; stored = c.stored; log = c.log ++ ((f, m) ∷ []) }) e

map-pair : (f : ℕ) (ms : List Variant) → args (map (λ m. (f, m)) ms) ≡ ms
map-pair f [] = refl
map-pair f (m ∷ ms) = ap (λ t. m ∷ t) (map-pair f ms)

handed-append :
    (log : List (ℕ × Variant)) (f : ℕ) (ms : List Variant)
    → handed log (log ++ map (λ m. (f, m)) ms) ≡ ms
handed-append log f ms = ap args (drop-length-append log (map (λ m. (f, m)) ms)) ∙ map-pair f ms

handed-same : (log : List (ℕ × Variant)) → handed log log ≡ []
handed-same log = ap (handed log) (sym (append-nil log)) ∙ handed-append log 0 []

module _ (fs : Functions) where
  -- The loop empties the queue into the function.
  flush_loop-all :
      (queue : List Variant) (w : Channel) (f : ℕ)
      → w.message_callback.callback ≡ some f
      → w.recv_queue ≡ queue
      → ((flush_loop fs queue w).recv_queue ≡ [])
        × ((flush_loop fs queue w).message_callback.log
            ≡ w.message_callback.log ++ map (λ m. (f, m)) queue)
  unfolding flush_loop
  flush_loop-all [] w f e q = (q, sym (append-nil w.message_callback.log))
  flush_loop-all (m ∷ queue) w f e q =
      let called = after (plain_call fs.message_fails m w.message_callback) in
      let same = plain_call-some fs.message_fails m w.message_callback f e in
      let later =
        flush_loop-all queue (record w { recv_queue = queue; message_callback = called }) f
          (ap (λ c. c.callback) same) refl in
      (
        later.0,
        later.1
            ∙ ap (λ c. c.log ++ map (λ m. (f, m)) queue) same
            ∙ append_assoc w.message_callback.log ((f, m) ∷ []) (map (λ m. (f, m)) queue),
      )

  -- What a call does to the messages: those that were there or came in are those taken out, then
  -- those that are left; and none is left waiting.
  abbrev pub Moves : List Variant → List Variant → Channel → Type 0
  Moves before gone x = (before ≡ gone ++ x.recv_queue) × IsSettled x

  flush-Moves :
      (w : Channel)
      → let x = flush_pending_messages fs w in
        Moves w.recv_queue (handed w.message_callback.log x.message_callback.log) x
  unfolding flush_pending_messages
  flush-Moves w = elim (Bool-cases (w.open_triggered && is_set w.message_callback)) [
    | inr e ↦
        rw (flush_pending_messages, e)
          (ap (λ t. t ++ w.recv_queue) (sym (handed-same w.message_callback.log)), λ h. absurd cc)
    | inl e ↦
        let (f, set) = is_set_lem w.open_triggered w.message_callback.callback e in
        let (empty, logged) = flush_loop-all w.recv_queue w f set refl in
        rw (flush_pending_messages, e)
          (
            sym (
                ap (λ t. t ++ (flush_loop fs w.recv_queue w).recv_queue)
                  (ap (handed w.message_callback.log) logged
                    ∙ handed-append w.message_callback.log f w.recv_queue)
                ∙ ap (λ t. w.recv_queue ++ t) empty
                ∙ append-nil w.recv_queue),
            λ h. empty,
          )
  ]
    where
      is_set_lem :
          (b : Bool) (callback : Option ℕ)
          → (b && (elim callback [ none ↦ false | some f ↦ true ])) ≡ true
          → (f : ℕ) × (callback ≡ some f)
      is_set_lem true (some f) h = (f, refl)
      is_set_lem true none h = absurd cc
      is_set_lem false callback h = absurd cc

  -- A call that touches neither the queue nor the function for messages.
  pub quiet-Moves :
      (w x : Channel)
      → x.recv_queue ≡ w.recv_queue
      → x.message_callback.log ≡ w.message_callback.log
      → IsSettled x
      → Moves (w.recv_queue ++ []) (handed w.message_callback.log x.message_callback.log) x
  quiet-Moves w x q l s = (
    append-nil w.recv_queue
        ∙ sym (
            ap (λ t. t ++ x.recv_queue)
              (ap (handed w.message_callback.log) l ∙ handed-same w.message_callback.log)
            ∙ q),
    s,
  )

  pub receive-Moves :
      (w : Channel) → IsSettled w → Moves (w.recv_queue ++ []) (given (receive w).0) (receive w).1
  unfolding receive
  receive-Moves w s = (append-nil w.recv_queue ∙ front w.recv_queue, λ h. ap rest (s h))
    where
      front : (q : List Variant) → q ≡ given (first q) ++ rest q
      front [] = refl
      front (m ∷ q) = refl

  -- Flushing a channel that differs by nothing that matters here.
  pub flushed-Moves :
      (before : List Variant) (log : List (ℕ × Variant)) (w : Channel)
      → w.recv_queue ≡ before
      → w.message_callback.log ≡ log
      → Moves before
          (handed log (flush_pending_messages fs w).message_callback.log)
          (flush_pending_messages fs w)
  flushed-Moves before log w q l =
      let x = flush_pending_messages fs w in
      let (split, settled) = flush-Moves w in
      (sym q ∙ split ∙ ap (λ k. handed k x.message_callback.log ++ x.recv_queue) l, settled)

  pub available-Moves :
      (before : List Variant) (log : List (ℕ × Variant)) (count : ℕ) (w : Channel)
      → w.recv_queue ≡ before
      → w.message_callback.log ≡ log
      → let x = trigger_available fs count w in Moves before (handed log x.message_callback.log) x
  unfolding trigger_available
  available-Moves before log count w q l =
      if-holds
        (λ y.
          let x = flush_pending_messages fs y in Moves before (handed log x.message_callback.log) x)
        (count == 1) _ w (flushed-Moves before log _ q l) (flushed-Moves before log w q l)
