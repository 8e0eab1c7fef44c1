-- ===== src/Capi.antt =====
-- The C interface of src/capi.cpp: objects behind numbers, with a pointer of the user for each. What
-- a `WebSocket` does is an interface, since this code only calls it. A handle is an `int`, by
-- its 32 bits. A pointer of the user is a number, 0 for null.
pub mod Int
pub mod Buffers
pub mod Receive
pub mod Settings
pub mod Calls
pub mod Tables
pub mod Handles
pub mod Drain
pub mod Echo
pub mod Socket
use websocket_client.Common.{
  ℕ, ◌+◌, ◌%◌, ◌^◌, Bool, true, false, not, ◌&&◌, Option, none, some, List, [], ◌∷◌, ◌++◌,
  if◌then◌else◌, ◌==◌, ltb, length, take, zero, suc, map,
}
use websocket_client.Common.Maps.{lookup, insert, erase}
use websocket_client.Message.{Variant}
use Buffers.{message_to_send}
use Int.{
  ℤ, pos, neg, abs, negsuc, is_negative, to_size, to_int, err_success, err_invalid, err_failure,
  err_not_avail, err_too_small,
}

-- The callbacks that can be set.
pub data Kind : Type 0 where
  on_open on_closed on_error on_message on_buffered_amount_low on_available : Kind

-- What `open` does: it returns, or throws `std::invalid_argument` or another exception.
pub data Opened (S : Type 0) : Type 0 where
  opened invalid_argument runtime_error : S → Opened S

-- The lambda that is set as a callback, by what it captures: the handle, and the user's function.
pub record Callback : Type 0 where
  pub id : ℕ
  pub cb : ℕ

-- The methods of `WebSocket` that are called here. `peek` may change the object. `send` is `none` where it throws; a callback is
-- `none` if it is null; `destroy` is the destructor.
pub record Methods (S : Type 0) : Type 0 where
  pub open_url : List ℕ → S → Opened S
  pub close : S → S
  pub force_close : S → S
  pub reset_callbacks : S → S
  pub destroy : S → S
  pub set_callback : Kind → Option Callback → S → S
  pub send : Variant → S → Option S
  pub is_open : S → Bool
  pub is_closed : S → Bool
  pub max_message_size : S → ℕ
  pub buffered_amount : S → ℕ
  pub set_low_threshold : ℕ → S → S
  pub available_amount : S → ℕ
  pub peek : S → Option Variant × S
  pub receive : S → S
  pub remote_address : S → Option (List ℕ)
  pub path : S → Option (List ℕ)

-- The global maps. `released` has the objects that are no longer in the map, as they were left.
pub record Table (S : Type 0) : Type 0 where
  pub web_sockets : List (ℕ × S)
  pub user_pointers : List (ℕ × ℕ)
  pub last_id : ℕ
  pub released : List S

abbrev pub empty_table : (S : Type 0) → Table S
empty_table S = record { web_sockets = []; user_pointers = []; last_id = 0; released = [] }

-- The body of a `wrap`: it returns, or it throws `std::invalid_argument` or another exception; the
-- object keeps what was done to it.
pub data Body (S : Type 0) : Type 0 where
  returns : ℤ → S → Body S
  throws_invalid throws : S → Body S

unfoldable pub wrap : {S : Type 0} → Body S → ℤ × S
wrap (returns n s) = (n, s)
wrap (throws_invalid s) = (err_invalid, s)
wrap (throws s) = (err_failure, s)

module _ {S : Type 0} (m : Methods S) where
  -- `getChannel` or `getWebSocket`, and then the body.
  unfoldable pub on_socket : ℕ → (S → Body S) → Table S → ℤ × Table S
  on_socket id body t = elim (lookup id t.web_sockets) [
    | none ↦ (err_invalid, t)
    | some s ↦
        let (code, s') = wrap (body s) in
        (code, record t { web_sockets = insert id s' t.web_sockets })
  ]

  -- A handle that goes: `last` and then the destructor, and the pointer of the user is forgotten.
  unfoldable pub drop_socket : ℕ → (S → S) → Table S → ℤ × Table S
  drop_socket id last t = elim (lookup id t.web_sockets) [
    | none ↦ (err_invalid, t)
    | some s ↦ (
      err_success,
      record t {
        web_sockets = erase id t.web_sockets;
        user_pointers = erase id t.user_pointers;
        released = t.released ++ (m.destroy (last s) ∷ []);
      },
    )
  ]

  -- `emplaceWebSocket` with the new number: an entry of either map that is there already stays, and the
  -- object is let go then.
  unfoldable pub emplace_at : ℕ → S → Table S → ℤ × Table S
  emplace_at id s t = (
    to_int id,
    record t {
      web_sockets = elim (lookup id t.web_sockets) [
        | none ↦ insert id s t.web_sockets
        | some old ↦ t.web_sockets
      ];
      user_pointers = elim (lookup id t.user_pointers) [
        | none ↦ insert id 0 t.user_pointers
        | some ptr ↦ t.user_pointers
      ];
      last_id = id;
      released = elim (lookup id t.web_sockets) [
        | none ↦ t.released
        | some old ↦ t.released ++ (m.destroy s ∷ [])
      ];
    },
  )

  -- The counter is an `int`, whose overflow the language does not define: here it wraps.
  unfoldable pub emplace_web_socket : S → Table S → ℤ × Table S
  emplace_web_socket s t = emplace_at ((t.last_id + 1) % 2 ^ 32) s t

  -- What follows `open` on a new object, which is destroyed if `open` throws.
  unfoldable pub after_open : Opened S → Table S → ℤ × Table S
  after_open (opened s) t = emplace_web_socket s t
  after_open (invalid_argument s) t =
      (err_invalid, record t { released = t.released ++ (m.destroy s ∷ []) })
  after_open (runtime_error s) t =
      (err_failure, record t { released = t.released ++ (m.destroy s ∷ []) })

  abbrev pub wsc_set_user_pointer : ℕ → ℕ → Table S → Table S
  wsc_set_user_pointer id ptr t = record t { user_pointers = insert id ptr t.user_pointers }

  abbrev pub get_user_pointer : ℕ → Table S → Option ℕ
  get_user_pointer id t = lookup id t.user_pointers

  abbrev pub wsc_get_user_pointer : ℕ → Table S → ℕ
  wsc_get_user_pointer id t = elim (get_user_pointer id t) [ none ↦ 0 | some ptr ↦ ptr ]

  -- When the lambda is called: it calls the user's function with the handle and the pointer, if there
  -- is an entry for it, besides the arguments of the event.
  unfoldable pub call_back : Callback → Table S → Option (ℕ × ℕ × ℕ)
  call_back c t = elim (get_user_pointer c.id t) [ none ↦ none | some ptr ↦ some (c.cb, c.id, ptr) ]

  -- `cb` is `none` if it is null.
  unfoldable pub callback_for : ℕ → Option ℕ → Option Callback
  callback_for id none = none
  callback_for id (some cb) = some (record { id = id; cb = cb })

  unfoldable pub wsc_set_callback : Kind → ℕ → Option ℕ → Table S → ℤ × Table S
  wsc_set_callback kind id cb t =
      on_socket id (λ s. returns err_success (m.set_callback kind (callback_for id cb) s)) t

  unfoldable pub send_body : Option (List ℕ) → ℤ → S → Body S
  send_body bytes size s = elim (message_to_send bytes size) [
    | none ↦ throws_invalid s
    | some v ↦ elim (m.send v s) [ none ↦ throws s | some s' ↦ returns err_success s' ]
  ]

  abbrev pub wsc_send_message : ℕ → Option (List ℕ) → ℤ → Table S → ℤ × Table S
  wsc_send_message id bytes size t = on_socket id (send_body bytes size) t

  abbrev pub wsc_close : ℕ → Table S → ℤ × Table S
  wsc_close id t = on_socket id (λ s. returns err_success (m.close s)) t

  abbrev pub wsc_delete : ℕ → Table S → ℤ × Table S
  wsc_delete id t = drop_socket id m.close t

  abbrev pub wsc_delete_web_socket : ℕ → Table S → ℤ × Table S
  wsc_delete_web_socket id t = drop_socket id (λ s. m.reset_callbacks (m.force_close s)) t

  -- The Boolean tests: an unknown handle is neither open nor closed.
  abbrev pub wsc_is_open : ℕ → Table S → Bool
  wsc_is_open id t = elim (lookup id t.web_sockets) [ none ↦ false | some s ↦ m.is_open s ]

  abbrev pub wsc_is_closed : ℕ → Table S → Bool
  wsc_is_closed id t = elim (lookup id t.web_sockets) [ none ↦ false | some s ↦ m.is_closed s ]

  abbrev pub wsc_max_message_size : ℕ → Table S → ℤ × Table S
  wsc_max_message_size id t = on_socket id (λ s. returns (to_int (m.max_message_size s)) s) t

  abbrev pub wsc_get_buffered_amount : ℕ → Table S → ℤ × Table S
  wsc_get_buffered_amount id t = on_socket id (λ s. returns (to_int (m.buffered_amount s)) s) t

  abbrev pub wsc_get_available_amount : ℕ → Table S → ℤ × Table S
  wsc_get_available_amount id t = on_socket id (λ s. returns (to_int (m.available_amount s)) s) t

  abbrev pub wsc_set_buffered_amount_low_threshold : ℕ → ℤ → Table S → ℤ × Table S
  wsc_set_buffered_amount_low_threshold id amount t =
      on_socket id (λ s. returns err_success (m.set_low_threshold (to_size amount) s)) t

  -- `eraseAll`, and the count of the objects.
  unfoldable pub erase_all : Table S → ℕ × Table S
  erase_all t = (
    length t.web_sockets,
    record t {
      web_sockets = [];
      user_pointers = [];
      released = t.released ++ map (λ e. m.destroy e.1) t.web_sockets;
    },
  )
