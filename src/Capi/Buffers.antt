-- ===== src/Capi/Buffers.antt =====
-- The buffers of the C interface of src/capi.cpp: what is copied to the caller, and what is sent.
use websocket_client.Common.{
  ℕ, ◌+◌, zero, suc, Bool, not, Option, none, some, List, [], ◌∷◌, ◌++◌, if◌then◌else◌, ◌==◌,
  length, take,
}
use websocket_client.Message.{Variant}
use websocket_client.Capi.Int.{
  ℤ, pos, neg, negsuc, abs, is_negative, to_int, less, err_success, err_too_small,
}

-- `copyAndReturn`: the result, and the bytes written to the buffer, which may be null. The length is
-- an `int` here; one that became negative is not found too large.
unfoldable pub copy_binary : List ℕ → Bool → ℕ → ℤ × List ℕ
copy_binary b has_buffer size =
    let n = to_int (length b) in
    if not has_buffer then (n, []) else if less size n then (err_too_small, []) else (n, b)

unfoldable pub copy_string : List ℕ → Bool → ℕ → ℤ × List ℕ
copy_string s has_buffer size =
    let n = to_int (length s + 1) in
    if not has_buffer
    then (n, [])
    else if less size n
    then (err_too_small, [])
    else (n, s ++ (0 ∷ []))

-- `string(data)`, which ends before the first zero byte.
abbrev pub until_zero : List ℕ → List ℕ
until_zero [] = []
until_zero (c ∷ s) = if c == 0 then [] else c ∷ until_zero s

-- What `wscSendMessage` sends; `none` where it throws. `data` is `none` if it is null.
unfoldable pub message_to_send : Option (List ℕ) → ℤ → Option Variant
message_to_send none (pos zero) = some (Variant.binary [])
message_to_send none (pos (suc n)) = none
message_to_send none (negsuc n) = none
message_to_send (some bytes) (pos n) = some (Variant.binary (take n bytes))
message_to_send (some bytes) (negsuc n) = some (Variant.string (until_zero bytes))

-- What `wscReceiveMessage` leaves behind its pointers, and what it returns.
pub record Received : Type 0 where
  pub code : ℤ
  pub size : Option ℤ
  pub bytes : List ℕ

-- The two lambdas of `wscReceiveMessage`, for a buffer of `size` bytes. The message was moved into
-- `copyAndReturn` when its size is read: a vector is empty then, and of a string `left` characters
-- are left, which the language does not say.
unfoldable pub receive_binary : Bool → ℕ → List ℕ → Received
receive_binary has_buffer size b =
    let (ret, bytes) = copy_binary b has_buffer size in
    if is_negative ret
    then record { code = ret; size = some (pos 0); bytes = bytes }
    else record { code = err_success; size = some ret; bytes = bytes }

unfoldable pub receive_string : Bool → ℕ → ℕ → List ℕ → Received
receive_string has_buffer size left s =
    let (ret, bytes) = copy_string s has_buffer size in
    if is_negative ret
    then record { code = ret; size = some (neg (left + 1)); bytes = bytes }
    else record { code = err_success; size = some (neg (abs ret)); bytes = bytes }
