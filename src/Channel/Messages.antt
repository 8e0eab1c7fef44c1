-- ===== src/Channel/Messages.antt =====
-- Where the messages of a `Channel` of src/impl/channel.cpp go.
use websocket_client.Common.{
  ◌≡◌, refl, sym, ap, ◌∙◌, ◌&&◌, List, [], ◌∷◌, ◌++◌, append-nil, append_assoc, if-holds, ltb, leb,
  length,
}
use websocket_client.Callback.{after, plain_set, call}
use websocket_client.Channel.{
  Functions, Channel, trigger_open, trigger_closed, trigger_error, trigger_buffered_amount, on_open,
  on_closed, on_error, on_available, on_buffered_amount_low, on_message, arrive,
  reset_open_callback, reset_callbacks, set_threshold, Call, calls_on_open, calls_on_closed,
  calls_on_error, calls_on_available, calls_on_low, calls_on_message, calls_open, calls_closed,
  calls_receive, calls_reset_open, calls_reset, calls_error, calls_amount, calls_threshold,
  calls_arrive, perform, perform_all,
}
use websocket_client.Channel.Flush.{
  handed, taken, taken_all, arrived, IsSettled, Moves, quiet-Moves, receive-Moves, flushed-Moves,
  available-Moves,
}

module _ (fs : Functions) where
  perform-Moves :
      (c : Call) (w : Channel)
      → IsSettled w
      → Moves fs (w.recv_queue ++ arrived (c ∷ [])) (taken fs c w) (perform fs c w)
  unfolding on_open on_closed on_error on_available on_buffered_amount_low on_message plain_set
      trigger_open trigger_closed trigger_error trigger_buffered_amount arrive reset_open_callback
      reset_callbacks
  perform-Moves (calls_on_open f) w s = quiet-Moves fs w (on_open fs f w) refl refl s
  perform-Moves (calls_on_closed f) w s = quiet-Moves fs w (on_closed fs f w) refl refl s
  perform-Moves (calls_on_error f) w s = quiet-Moves fs w (on_error fs f w) refl refl s
  perform-Moves (calls_on_available f) w s = quiet-Moves fs w (on_available fs f w) refl refl s
  perform-Moves (calls_on_low f) w s = quiet-Moves fs w (on_buffered_amount_low fs f w) refl refl s
  perform-Moves (calls_on_message f) w s =
      flushed-Moves fs (w.recv_queue ++ []) w.message_callback.log _ (sym (append-nil w.recv_queue))
        refl
  perform-Moves calls_open w s =
      flushed-Moves fs (w.recv_queue ++ []) w.message_callback.log _ (sym (append-nil w.recv_queue))
        refl
  perform-Moves calls_closed w s = quiet-Moves fs w (trigger_closed fs w) refl refl s
  perform-Moves calls_receive w s = receive-Moves fs w s
  perform-Moves calls_reset_open w s =
      quiet-Moves fs w (reset_open_callback w) refl refl (λ h. absurd cc)
  perform-Moves calls_reset w s = quiet-Moves fs w (reset_callbacks w) refl refl (λ h. absurd cc)
  perform-Moves (calls_error error) w s = quiet-Moves fs w (trigger_error fs error w) refl refl s
  perform-Moves (calls_amount amount) w s =
      let w1 = record w { buffered_amount = amount } in
      let x = record w1 {
        buffered_amount_low_callback =
            after (call fs.plain_fails tt w.buffered_amount_low_callback);
      } in
      if-holds
        (λ y.
          Moves fs (w.recv_queue ++ []) (handed w.message_callback.log y.message_callback.log) y)
        (ltb w.buffered_amount_low_threshold w.buffered_amount
          && leb amount w.buffered_amount_low_threshold)
        x w1 (quiet-Moves fs w x refl refl s) (quiet-Moves fs w w1 refl refl s)
  perform-Moves (calls_threshold amount) w s = quiet-Moves fs w (set_threshold amount w) refl refl s
  perform-Moves (calls_arrive m) w s =
      available-Moves fs (w.recv_queue ++ (m ∷ [])) w.message_callback.log
        (length (w.recv_queue ++ (m ∷ []))) _ refl refl

  arrived-cons : (c : Call) (cs : List Call) → arrived (c ∷ cs) ≡ arrived (c ∷ []) ++ arrived cs
  arrived-cons (calls_on_open f) cs = refl
  arrived-cons (calls_on_closed f) cs = refl
  arrived-cons (calls_on_error f) cs = refl
  arrived-cons (calls_on_available f) cs = refl
  arrived-cons (calls_on_low f) cs = refl
  arrived-cons (calls_on_message f) cs = refl
  arrived-cons calls_open cs = refl
  arrived-cons calls_closed cs = refl
  arrived-cons calls_receive cs = refl
  arrived-cons calls_reset_open cs = refl
  arrived-cons calls_reset cs = refl
  arrived-cons (calls_error error) cs = refl
  arrived-cons (calls_amount amount) cs = refl
  arrived-cons (calls_threshold amount) cs = refl
  arrived-cons (calls_arrive m) cs = refl

  -- After any calls, the messages that were waiting and those that arrived are, in order, those
  -- that `receive` gave out or the function got, then those still in the queue: none is lost,
  -- repeated or overtaken. And none waits in an open channel that has a function for messages.
  pub perform_all-messages :
      (calls : List Call) (w : Channel)
      → IsSettled w
      → let x = perform_all fs calls w in
        (w.recv_queue ++ arrived calls ≡ taken_all fs calls w ++ x.recv_queue) × IsSettled x
  perform_all-messages [] w s = (append-nil w.recv_queue, s)
  perform_all-messages (c ∷ cs) w s =
      let (one, settled) = perform-Moves c w s in
      let x = perform fs c w in
      let (more, last) = perform_all-messages cs x settled in
      (
        ap (λ t. w.recv_queue ++ t) (arrived-cons c cs)
            ∙ sym (append_assoc w.recv_queue (arrived (c ∷ [])) (arrived cs))
            ∙ ap (λ t. t ++ arrived cs) one
            ∙ append_assoc (taken fs c w) x.recv_queue (arrived cs)
            ∙ ap (λ t. taken fs c w ++ t) more
            ∙ sym
                (append_assoc (taken fs c w) (taken_all fs cs x) (perform_all fs cs x).recv_queue),
        last,
      )
