-- ===== src/Channel/Silent.antt =====
-- `resetCallbacks` of src/impl/channel.cpp, and what no function hears after it.
use websocket_client.Common.{
  ◌++◌, ℕ, ◌≡◌, refl, ap, Bool, true, false, ◌&&◌, Option, none, some, List, [], ◌∷◌, if◌then◌else◌,
  if-holds, All, ◌==◌, ltb, leb, length,
}
use websocket_client.Callback.{Callback, after, set, call, plain_set}
use websocket_client.Channel.{
  Functions, Channel, receive, flush_loop, flush_pending_messages, trigger_open, trigger_closed,
  trigger_error, trigger_available, trigger_buffered_amount, on_open, on_closed, on_error,
  on_available, on_buffered_amount_low, on_message, arrive, reset_open_callback, reset_callbacks,
  set_threshold, Call, calls_on_open, calls_on_closed, calls_on_error, calls_on_available,
  calls_on_low, calls_on_message, calls_open, calls_closed, calls_receive, calls_reset_open,
  calls_reset, calls_error, calls_amount, calls_threshold, calls_arrive, perform, perform_all,
}

-- No function is set, and none was called in between.
abbrev pub Mute {ℓ} : {A : Type ℓ} → Callback A → Callback A → Type ℓ
Mute c d = (d.callback ≡ none) × (d.log ≡ c.log)

pub record IsMute (w x : Channel) : Type 0 where
  pub open_mute : Mute w.open_callback x.open_callback
  pub closed_mute : Mute w.closed_callback x.closed_callback
  pub error_mute : Mute w.error_callback x.error_callback
  pub available_mute : Mute w.available_callback x.available_callback
  pub low_mute : Mute w.buffered_amount_low_callback x.buffered_amount_low_callback
  pub message_mute : Mute w.message_callback x.message_callback

-- A call that sets no function.
abbrev pub SetsNone : Call → Type 0
SetsNone (calls_on_open f) = f ≡ none
SetsNone (calls_on_closed f) = f ≡ none
SetsNone (calls_on_error f) = f ≡ none
SetsNone (calls_on_available f) = f ≡ none
SetsNone (calls_on_low f) = f ≡ none
SetsNone (calls_on_message f) = f ≡ none
SetsNone c = Unit

module _ {ℓ} {A : Type ℓ} (fails : ℕ → A → Bool) where
  call-Mute : (x : A) (c d : Callback A) → Mute c d → Mute c (after (call fails x d))
  unfolding call
  call-Mute x c d h = rw (call, h.0) (refl, h.1)

  set-Mute :
      (f : Option ℕ) (c d : Callback A) → f ≡ none → Mute c d → Mute c (after (set fails f d))
  unfolding set
  set-Mute none c d e h = (refl, h.1)
  set-Mute (some f) c d e h = absurd cc

module _ (fs : Functions) where
  flush-none : (x : Channel) → x.message_callback.callback ≡ none → flush_pending_messages fs x ≡ x
  unfolding flush_pending_messages
  flush-none x e =
      ap (λ b. if b then flush_loop fs x.recv_queue x else x)
        (unset x.open_triggered x.message_callback.callback e)
    where
      unset :
          (b : Bool) (callback : Option ℕ)
          → callback ≡ none
          → (b && (elim callback [ none ↦ false | some f ↦ true ])) ≡ false
      unset true none e = refl
      unset true (some f) e = absurd cc
      unset false callback e = refl

  flush-IsMute : (w x : Channel) → IsMute w x → IsMute w (flush_pending_messages fs x)
  flush-IsMute w x v = rw (flush-none x v.message_mute.0) v

  available-IsMute :
      (count : ℕ) (w x : Channel) → IsMute w x → IsMute w (trigger_available fs count x)
  unfolding trigger_available
  available-IsMute count w x v =
      let called = record x {
        available_callback = after (call fs.plain_fails tt x.available_callback);
      } in
      let v1 : IsMute w called = record {
        open_mute = v.open_mute;
        closed_mute = v.closed_mute;
        error_mute = v.error_mute;
        available_mute =
            call-Mute fs.plain_fails tt w.available_callback x.available_callback v.available_mute;
        low_mute = v.low_mute;
        message_mute = v.message_mute;
      } in
      if-holds (λ y. IsMute w (flush_pending_messages fs y)) (count == 1) called x
        (flush-IsMute w called v1) (flush-IsMute w x v)

  mutes :
      (w x : Channel)
      → Mute w.open_callback x.open_callback
      → Mute w.closed_callback x.closed_callback
      → Mute w.error_callback x.error_callback
      → Mute w.available_callback x.available_callback
      → Mute w.buffered_amount_low_callback x.buffered_amount_low_callback
      → Mute w.message_callback x.message_callback
      → IsMute w x
  mutes w x o c e a l m = record {
    open_mute = o;
    closed_mute = c;
    error_mute = e;
    available_mute = a;
    low_mute = l;
    message_mute = m;
  }

  -- The two cases of a call for the open callback.
  opened_with :
      (w x : Channel) (b : Bool) (d : Callback (Unit {0}))
      → Mute w.open_callback d
      → IsMute w x
      → IsMute w (record x { open_triggered = b; open_callback = d })
  opened_with w x b d h v =
      mutes w _ h v.closed_mute v.error_mute v.available_mute v.low_mute v.message_mute

  low_with :
      (w x : Channel) (amount : ℕ) (d : Callback (Unit {0}))
      → Mute w.buffered_amount_low_callback d
      → IsMute w x
      → IsMute w (record x { buffered_amount = amount; buffered_amount_low_callback = d })
  low_with w x amount d h v =
      mutes w _ v.open_mute v.closed_mute v.error_mute v.available_mute h v.message_mute

  -- A call that sets no function calls none.
  perform-IsMute : (c : Call) (w x : Channel) → SetsNone c → IsMute w x → IsMute w (perform fs c x)
  unfolding on_open on_closed on_error on_available on_buffered_amount_low on_message plain_set
      trigger_open trigger_closed trigger_error trigger_buffered_amount arrive receive
      reset_open_callback reset_callbacks
  perform-IsMute (calls_on_open f) w x h v =
      opened_with w x x.open_triggered _
        (set-Mute fs.plain_fails f w.open_callback x.open_callback h v.open_mute) v
  perform-IsMute (calls_on_closed f) w x h v =
      mutes w (on_closed fs f x) v.open_mute
        (set-Mute fs.plain_fails f w.closed_callback x.closed_callback h v.closed_mute) v.error_mute
        v.available_mute v.low_mute v.message_mute
  perform-IsMute (calls_on_error f) w x h v =
      mutes w (on_error fs f x) v.open_mute v.closed_mute
        (set-Mute fs.error_fails f w.error_callback x.error_callback h v.error_mute)
        v.available_mute v.low_mute v.message_mute
  perform-IsMute (calls_on_available f) w x h v =
      mutes w (on_available fs f x) v.open_mute v.closed_mute v.error_mute
        (set-Mute fs.plain_fails f w.available_callback x.available_callback h v.available_mute)
        v.low_mute v.message_mute
  perform-IsMute (calls_on_low f) w x h v =
      low_with w x x.buffered_amount _
        (set-Mute fs.plain_fails f w.buffered_amount_low_callback x.buffered_amount_low_callback h
          v.low_mute)
        v
  perform-IsMute (calls_on_message f) w x h v =
      let set = record x { message_callback = record x.message_callback { callback = f } } in
      flush-IsMute w set (
        mutes w set v.open_mute v.closed_mute v.error_mute v.available_mute v.low_mute
          (h, v.message_mute.1))
  perform-IsMute calls_open w x h v = flush-IsMute w _ (
      opened_with w x true _
        (call-Mute fs.plain_fails tt w.open_callback x.open_callback v.open_mute) v)
  perform-IsMute calls_closed w x h v =
      mutes w (trigger_closed fs x) v.open_mute
        (call-Mute fs.plain_fails tt w.closed_callback x.closed_callback v.closed_mute) v.error_mute
        v.available_mute v.low_mute v.message_mute
  perform-IsMute calls_receive w x h v =
      mutes w (receive x).1 v.open_mute v.closed_mute v.error_mute v.available_mute v.low_mute
        v.message_mute
  perform-IsMute calls_reset_open w x h v = opened_with w x false _ (refl, v.open_mute.1) v
  perform-IsMute calls_reset w x h v =
      mutes w (reset_callbacks x) (refl, v.open_mute.1) (refl, v.closed_mute.1)
        (refl, v.error_mute.1) (refl, v.available_mute.1) (refl, v.low_mute.1)
        (refl, v.message_mute.1)
  perform-IsMute (calls_error error) w x h v =
      mutes w (trigger_error fs error x) v.open_mute v.closed_mute
        (call-Mute fs.error_fails error w.error_callback x.error_callback v.error_mute)
        v.available_mute v.low_mute v.message_mute
  perform-IsMute (calls_amount amount) w x h v =
      if-holds (IsMute w)
        (ltb x.buffered_amount_low_threshold x.buffered_amount
          && leb amount x.buffered_amount_low_threshold)
        _ _
        (low_with w x amount _
          (call-Mute fs.plain_fails tt w.buffered_amount_low_callback x.buffered_amount_low_callback
            v.low_mute)
          v)
        (low_with w x amount _ v.low_mute v)
  perform-IsMute (calls_threshold amount) w x h v =
      mutes w (set_threshold amount x) v.open_mute v.closed_mute v.error_mute v.available_mute
        v.low_mute v.message_mute
  perform-IsMute (calls_arrive m) w x h v =
      let queued = record x { recv_queue = x.recv_queue ++ (m ∷ []) } in
      available-IsMute (length (x.recv_queue ++ (m ∷ []))) w queued (
        mutes w queued v.open_mute v.closed_mute v.error_mute v.available_mute v.low_mute
          v.message_mute)

  perform_all-IsMute_from :
      (calls : List Call) (w x : Channel)
      → All SetsNone calls
      → IsMute w x
      → IsMute w (perform_all fs calls x)
  perform_all-IsMute_from [] w x h v = v
  perform_all-IsMute_from (c ∷ cs) w x h v =
      perform_all-IsMute_from cs w (perform fs c x) h.1 (perform-IsMute c w x h.0 v)

  -- After the callbacks of a channel are reset, no call sets or calls one of its functions, as long
  -- as no function is set again: not for opening, closing, errors, arriving messages or amounts.
  pub perform_all-IsMute :
      (calls : List Call) (w : Channel)
      → All SetsNone calls
      → IsMute w (perform_all fs calls (reset_callbacks w))
  unfolding reset_callbacks
  perform_all-IsMute calls w h =
      let reset = reset_callbacks w in
      perform_all-IsMute_from calls w reset h (
        mutes w reset (refl, refl) (refl, refl) (refl, refl) (refl, refl) (refl, refl) (refl, refl))
