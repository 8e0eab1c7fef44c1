-- ===== src/Capi/Handles.antt =====
-- The handles of src/capi.cpp over any sequence of calls: which are known, and which are gone for good.
use websocket_client.Common.{
  ℕ, suc, ◌+◌, ◌^◌, ◌<◌, length, refl, arith, Option, none, some, List, [], ◌∷◌,
}
use websocket_client.Common.Maps.{lookup-insert}
use websocket_client.Capi.Settings.{configuration}
use websocket_client.Config.{Configuration, default_configuration}
use websocket_client.Capi.{
  Methods, Table, empty_table, erase_all, Body, on_socket, drop_socket, Opened, after_open,
  wsc_set_callback, opened, invalid_argument, runtime_error,
}
use websocket_client.Capi.Receive.{wsc_receive_message}
use websocket_client.Capi.Calls.{
  Makers, Call, open_made, open_configured, wsc_create_web_socket_ex, perform, perform_all,
  erase_objects, create, create_ex, set_user_pointer, set_callback, send_message, receive_message,
  close, delete, delete_web_socket, max_message_size, get_buffered_amount, get_available_amount,
  set_low_threshold,
}
use websocket_client.Capi.Tables.{
  IsSound, IsKept, on_socket-IsSound, drop_socket-IsSound, emplace_web_socket-IsSound,
  on_socket-last_id, drop_socket-last_id, emplace_web_socket-last_id,
}

module _ {S : Type 0} (m : Methods S) (k : Makers S) where
  IsSound-IsKept : IsKept m IsSound
  unfolding erase_all
  IsSound-IsKept = record {
    by_socket = on_socket-IsSound m;
    by_drop = drop_socket-IsSound m;
    by_emplace = emplace_web_socket-IsSound m;
    by_erase = λ t s. record { bounded = λ j h. absurd (h refl); pointed = λ j h. absurd (h refl) };
    by_release = λ x t s. record { bounded = s.bounded; pointed = s.pointed };
    by_pointer = λ id ptr t s. record {
      bounded = s.bounded;
      pointed = λ j h. ground (arith, lookup-insert id j ptr t.user_pointers, s.pointed j, h);
    };
  }

  -- The property, and room in the counter for so many more objects.
  abbrev Kept : (Table S → Type 0) → ℕ → Table S → Type 0
  Kept P n t = (t.last_id + n < 2 ^ 31) × P t

  module _ (P : Table S → Type 0) (kept : IsKept m P) (n : ℕ) where
    less_room : (t : Table S) → Kept P (suc n) t → Kept P n t
    less_room t h = (omega (arith, h.0), h.1)

    on_socket-Kept :
        (id : ℕ) (body : S → Body S) (t : Table S)
        → Kept P (suc n) t
        → Kept P n (on_socket m id body t).1
    on_socket-Kept id body t h =
        (omega (arith, on_socket-last_id m id body t, h.0), kept.by_socket id body t h.1)

    drop_socket-Kept :
        (id : ℕ) (last : S → S) (t : Table S)
        → Kept P (suc n) t
        → Kept P n (drop_socket m id last t).1
    drop_socket-Kept id last t h =
        (omega (arith, drop_socket-last_id m id last t, h.0), kept.by_drop id last t h.1)

    after_open-Kept :
        (o : Opened S) (t : Table S) → Kept P (suc n) t → Kept P n (after_open m o t).1
    unfolding after_open
    after_open-Kept (opened y) t h =
        let room : t.last_id + 1 < 2 ^ 31 = omega (arith, h.0) in
        (omega (arith, emplace_web_socket-last_id m y t room, h.0), kept.by_emplace y t room h.1)
    after_open-Kept (invalid_argument y) t h =
        (omega (arith, h.0), kept.by_release (m.destroy y) t h.1)
    after_open-Kept (runtime_error y) t h =
        (omega (arith, h.0), kept.by_release (m.destroy y) t h.1)

    open_made-Kept :
        (o : Option S) (url : List ℕ) (t : Table S)
        → Kept P (suc n) t
        → Kept P n (open_made m k o url t).1
    unfolding open_made
    open_made-Kept none url t h = less_room t h
    open_made-Kept (some x) url t h = after_open-Kept (m.open_url url x) t h

    open_configured-Kept :
        (o : Option Configuration) (url : List ℕ) (t : Table S)
        → Kept P (suc n) t
        → Kept P n (open_configured m k o url t).1
    unfolding open_configured
    open_configured-Kept none url t h = less_room t h
    open_configured-Kept (some c) url t h = open_made-Kept (k.new_socket c) url t h

    perform-Kept : (c : Call) (t : Table S) → Kept P (suc n) t → Kept P n (perform m k c t).1
    unfolding perform wsc_create_web_socket_ex wsc_receive_message wsc_set_callback
    perform-Kept erase_objects t h = (unfold erase_all in omega (arith, h.0), kept.by_erase t h.1)
    perform-Kept (create url) t h = open_made-Kept (k.new_socket default_configuration) url t h
    perform-Kept (create_ex none config) t h = less_room t h
    perform-Kept (create_ex (some url) none) t h = less_room t h
    perform-Kept (create_ex (some url) (some config)) t h =
        open_configured-Kept (configuration k.new_proxy config) url t h
    perform-Kept (set_user_pointer id ptr) t h = (omega (arith, h.0), kept.by_pointer id ptr t h.1)
    perform-Kept (set_callback kind id cb) t h = on_socket-Kept id _ t h
    perform-Kept (send_message id bytes size) t h = on_socket-Kept id _ t h
    perform-Kept (receive_message id has_buffer size left) t h = on_socket-Kept id _ t h
    perform-Kept (close id) t h = on_socket-Kept id _ t h
    perform-Kept (delete id) t h = drop_socket-Kept id _ t h
    perform-Kept (delete_web_socket id) t h = drop_socket-Kept id _ t h
    perform-Kept (max_message_size id) t h = on_socket-Kept id _ t h
    perform-Kept (get_buffered_amount id) t h = on_socket-Kept id _ t h
    perform-Kept (get_available_amount id) t h = on_socket-Kept id _ t h
    perform-Kept (set_low_threshold id amount) t h = on_socket-Kept id _ t h

  perform_all-Kept :
      (P : Table S → Type 0) (kept : IsKept m P) (n : ℕ) (calls : List Call) (t : Table S)
      → Kept P (length calls + n) t
      → Kept P n (perform_all m k calls t)
  perform_all-Kept P kept n [] t h = (omega (arith, h.0), h.1)
  perform_all-Kept P kept n (c ∷ calls) t h =
      perform_all-Kept P kept n calls (perform m k c t).1
        (perform-Kept P kept (length calls + n) c t (omega (arith, h.0), h.1))

  -- From the empty table, after any calls for which the counter has room.
  pub perform_all-IsSound :
      (calls : List Call) (n : ℕ)
      → length calls + n < 2 ^ 31
      → Kept IsSound n (perform_all m k calls (empty_table S))
  perform_all-IsSound calls n room =
      perform_all-Kept IsSound IsSound-IsKept n calls (empty_table S) (
        omega (arith, room),
        record {
          bounded = λ j known. absurd (known refl);
          pointed = λ j known. absurd (known refl);
        },
      )
