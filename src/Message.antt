-- ===== src/Message.antt =====
-- `Message` of include/message.hpp and the conversions of src/message.cpp. The stream, the
-- reliability and the frame information are carried along unused, and are not modelled.
use websocket_client.Common.{
  ℕ, zero, suc, ◌-◌, ◌≡◌, arith, Option, none, some, List, [], ◌∷◌, ◌++◌, length, length-append,
  length-take, take, refl,
}

pub data MessageType : Type 0 where
  binary string control reset : MessageType

pub record Message : Type 0 where
  pub type : MessageType
  pub content : List ℕ

-- `message_variant`
pub data Variant : Type 0 where
  binary string : List ℕ → Variant

-- Only binary and text messages count.
abbrev pub message_size_func : Message → ℕ
message_size_func m = elim m.type [
  | MessageType.binary ↦ length m.content
  | MessageType.string ↦ length m.content
  | _ ↦ 0
]

abbrev pub make_message : Variant → Message
make_message (Variant.binary bytes) = record { type = MessageType.binary; content = bytes }
make_message (Variant.string bytes) = record { type = MessageType.string; content = bytes }

abbrev pub to_variant : Message → Variant
to_variant m = elim m.type [
  | MessageType.string ↦ Variant.string m.content
  | _ ↦ Variant.binary m.content
]

-- What the application sends comes back unchanged from the message that is made of it.
pub to_variant-make_message : (v : Variant) → to_variant (make_message v) ≡ v
to_variant-make_message (Variant.binary bytes) = refl
to_variant-make_message (Variant.string bytes) = refl

-- `make_message` with a size, and with a size and another message, of which as much is copied as
-- there is room for. New bytes are zero.
abbrev pub zeros : ℕ → List ℕ
zeros zero = []
zeros (suc n) = 0 ∷ zeros n

abbrev pub make_sized : ℕ → MessageType → Message
make_sized size type = record { type = type; content = zeros size }

abbrev pub make_resized : ℕ → Option Message → Option Message
make_resized size none = none
make_resized size (some orig) = some (record {
  type = orig.type;
  content = take size orig.content ++ zeros (size - length orig.content);
})

length-zeros : (n : ℕ) → length (zeros n) ≡ n
length-zeros zero = refl
length-zeros (suc n) = omega (arith, length-zeros n)

-- The new message has the size that was asked for, whatever the size of the other.
pub length-resized :
    (size : ℕ) (content : List ℕ)
    → length (take size content ++ zeros (size - length content)) ≡ size
length-resized size content = omega (
  arith,
  length-append (take size content) (zeros (size - length content)),
  length-take size content,
  length-zeros (size - length content),
)
