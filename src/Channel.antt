-- ===== src/Channel.antt =====
-- The class `Channel` of src/impl/channel.cpp, with its public face in src/channel.cpp. `receive` is
-- virtual: here it takes from the queue that a `WebSocket` keeps. A trigger and the functions that it
-- calls run as a whole.
pub mod Flush
pub mod Messages
pub mod Silent
use websocket_client.Common.{
  ℕ, Bool, true, false, ◌&&◌, Option, none, some, List, [], ◌∷◌, ◌++◌, if◌then◌else◌, ◌==◌, ltb,
  leb, length,
}
use websocket_client.Callback.{
  Callback, new_callback, Outcome, after, apply, plain_set, plain_call, set, call,
}
use websocket_client.Message.{Variant}

-- Which functions throw, by their argument.
pub record Functions : Type 0 where
  pub plain_fails : ℕ → Unit {0} → Bool
  pub error_fails : ℕ → List ℕ → Bool
  pub message_fails : ℕ → Variant → Bool

pub record Channel : Type 0 where
  pub open_callback : Callback (Unit {0})
  pub closed_callback : Callback (Unit {0})
  pub error_callback : Callback (List ℕ)
  pub available_callback : Callback (Unit {0})
  pub buffered_amount_low_callback : Callback (Unit {0})
  pub message_callback : Callback Variant
  pub buffered_amount : ℕ
  pub buffered_amount_low_threshold : ℕ
  pub open_triggered : Bool
  pub recv_queue : List Variant

abbrev pub new_channel : Channel
new_channel = record {
  open_callback = new_callback;
  closed_callback = new_callback;
  error_callback = new_callback;
  available_callback = new_callback;
  buffered_amount_low_callback = new_callback;
  message_callback = new_callback;
  buffered_amount = 0;
  buffered_amount_low_threshold = 0;
  open_triggered = false;
  recv_queue = [];
}

-- The front of a queue, and what is behind it.
abbrev pub first {ℓ} : {A : Type ℓ} → List A → Option A
first [] = none
first (x ∷ xs) = some x

abbrev pub rest {ℓ} : {A : Type ℓ} → List A → List A
rest [] = []
rest (x ∷ xs) = xs

-- `receive`
unfoldable pub receive : Channel → Option Variant × Channel
receive w = (first w.recv_queue, record w { recv_queue = rest w.recv_queue })

-- `peek` moves the content of a binary message out: an empty message is left in the queue. Of a text
-- it makes a copy.
abbrev pub peeked : Variant → Variant
peeked (Variant.binary b) = Variant.binary []
peeked (Variant.string s) = Variant.string s

unfoldable pub peek : Channel → Option Variant × Channel
peek w = elim w.recv_queue [
  | [] ↦ (none, w)
  | m ∷ queue ↦ (some m, record w { recv_queue = peeked m ∷ queue })
]

-- `resetOpenCallback` and `resetCallbacks`. Assigning null drops a call that was missed.
abbrev pub reset {ℓ} : {A : Type ℓ} → Callback A → Callback A
reset c = record c { callback = none; stored = none }

unfoldable pub reset_open_callback : Channel → Channel
reset_open_callback w = record w { open_triggered = false; open_callback = reset w.open_callback }

unfoldable pub reset_callbacks : Channel → Channel
reset_callbacks w = record w {
  open_triggered = false;
  open_callback = reset w.open_callback;
  closed_callback = reset w.closed_callback;
  error_callback = reset w.error_callback;
  available_callback = reset w.available_callback;
  buffered_amount_low_callback = reset w.buffered_amount_low_callback;
  message_callback = reset w.message_callback;
}

abbrev pub is_set {ℓ} : {A : Type ℓ} → Callback A → Bool
is_set c = elim c.callback [ none ↦ false | some f ↦ true ]

-- `setBufferedAmountLowThreshold`
abbrev pub set_threshold : ℕ → Channel → Channel
set_threshold amount w = record w { buffered_amount_low_threshold = amount }

-- What a trigger's function throws is logged, and no more.
module _ (fs : Functions) where
  -- The loop of `flushPendingMessages`, on the queue: each message is taken off, then handed over.
  unfoldable pub flush_loop : List Variant → Channel → Channel
  flush_loop [] w = w
  flush_loop (m ∷ queue) w = flush_loop queue (record w {
    recv_queue = queue;
    message_callback = after (plain_call fs.message_fails m w.message_callback);
  })

  unfoldable pub flush_pending_messages : Channel → Channel
  flush_pending_messages w =
      if w.open_triggered && is_set w.message_callback then flush_loop w.recv_queue w else w

  unfoldable pub trigger_open : Channel → Channel
  trigger_open w = flush_pending_messages (record w {
    open_triggered = true;
    open_callback = after (call fs.plain_fails tt w.open_callback);
  })

  unfoldable pub trigger_closed : Channel → Channel
  trigger_closed w = record w { closed_callback = after (call fs.plain_fails tt w.closed_callback) }

  unfoldable pub trigger_error : List ℕ → Channel → Channel
  trigger_error error w = record w {
    error_callback = after (call fs.error_fails error w.error_callback);
  }

  unfoldable pub trigger_available : ℕ → Channel → Channel
  trigger_available count w =
      let called = record w {
        available_callback = after (call fs.plain_fails tt w.available_callback);
      } in
      flush_pending_messages (if count == 1 then called else w)

  -- The low callback is called when the amount comes down to the threshold.
  unfoldable pub trigger_buffered_amount : ℕ → Channel → Channel
  trigger_buffered_amount amount w =
      let w1 = record w { buffered_amount = amount } in
      let threshold = w.buffered_amount_low_threshold in
      if ltb threshold w.buffered_amount && leb amount threshold
      then record w1 {
        buffered_amount_low_callback =
            after (call fs.plain_fails tt w.buffered_amount_low_callback);
      }
      else w1

  -- `onOpen`, `onClosed`, `onError`, `onAvailable` and `onBufferedAmountLow`: what the function
  -- throws for a missed call reaches the caller.
  unfoldable pub on_open : Option ℕ → Channel → Channel
  on_open f w = record w { open_callback = after (set fs.plain_fails f w.open_callback) }

  unfoldable pub on_closed : Option ℕ → Channel → Channel
  on_closed f w = record w { closed_callback = after (set fs.plain_fails f w.closed_callback) }

  unfoldable pub on_error : Option ℕ → Channel → Channel
  on_error f w = record w { error_callback = after (set fs.error_fails f w.error_callback) }

  unfoldable pub on_available : Option ℕ → Channel → Channel
  on_available f w = record w {
    available_callback = after (set fs.plain_fails f w.available_callback);
  }

  unfoldable pub on_buffered_amount_low : Option ℕ → Channel → Channel
  on_buffered_amount_low f w = record w {
    buffered_amount_low_callback = after (set fs.plain_fails f w.buffered_amount_low_callback);
  }

  -- `onMessage`
  unfoldable pub on_message : Option ℕ → Channel → Channel
  on_message f w =
      flush_pending_messages
        (record w { message_callback = after (plain_set fs.message_fails f w.message_callback) })

  -- What `WebSocket::incoming` does with a message: it is queued, and the new size is told.
  unfoldable pub arrive : Variant → Channel → Channel
  arrive m w =
      let queue = w.recv_queue ++ (m ∷ []) in
      trigger_available (length queue) (record w { recv_queue = queue })

-- The calls of the application and of the transports.
pub data Call : Type 0 where
  calls_on_open calls_on_closed calls_on_error calls_on_available calls_on_low : Option ℕ → Call
  calls_on_message : Option ℕ → Call
  calls_open calls_closed calls_receive calls_reset_open calls_reset : Call
  calls_error : List ℕ → Call
  calls_amount calls_threshold : ℕ → Call
  calls_arrive : Variant → Call

abbrev pub perform : Functions → Call → Channel → Channel
perform fs (calls_on_open f) w = on_open fs f w
perform fs (calls_on_closed f) w = on_closed fs f w
perform fs (calls_on_error f) w = on_error fs f w
perform fs (calls_on_available f) w = on_available fs f w
perform fs (calls_on_low f) w = on_buffered_amount_low fs f w
perform fs (calls_on_message f) w = on_message fs f w
perform fs calls_open w = trigger_open fs w
perform fs calls_closed w = trigger_closed fs w
perform fs calls_receive w = (receive w).1
perform fs calls_reset_open w = reset_open_callback w
perform fs calls_reset w = reset_callbacks w
perform fs (calls_error error) w = trigger_error fs error w
perform fs (calls_amount amount) w = trigger_buffered_amount fs amount w
perform fs (calls_threshold amount) w = set_threshold amount w
perform fs (calls_arrive m) w = arrive fs m w

abbrev pub perform_all : Functions → List Call → Channel → Channel
perform_all fs [] w = w
perform_all fs (c ∷ cs) w = perform_all fs cs (perform fs c w)
