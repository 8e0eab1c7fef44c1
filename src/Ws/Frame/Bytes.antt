-- ===== src/Ws/Frame/Bytes.antt =====
-- Numbers as bytes in network order.
use websocket_client.Common.{
  ℕ, zero, suc, ◌+◌, ◌*◌, ◌/◌, ◌%◌, ◌^◌, ◌<◌, ◌≡◌, refl, ◌∙◌, arith, List, [], ◌∷◌, ◌++◌, length,
  length-append,
}
use native.Mathlib.Nat.{pow-suc}

pub be_value_from : ℕ → List ℕ → ℕ
be_value_from acc [] = acc
be_value_from acc (b ∷ bytes) = be_value_from (acc * 256 + b) bytes

pub be_value : List ℕ → ℕ
be_value bytes = be_value_from 0 bytes

pub be_bytes : ℕ → ℕ → List ℕ
be_bytes zero v = []
be_bytes (suc n) v = be_bytes n (v / 256) ++ (v % 256 ∷ [])

be_value_from-append :
    (acc b : ℕ) (bytes : List ℕ)
    → be_value_from acc (bytes ++ (b ∷ [])) ≡ be_value_from acc bytes * 256 + b
unfolding be_value_from
be_value_from-append acc b [] = refl
be_value_from-append acc b (c ∷ bytes) = be_value_from-append (acc * 256 + c) b bytes

-- A number that fits the width is read back.
pub be_value-be_bytes : (n v : ℕ) → v < 256 ^ n → be_value (be_bytes n v) ≡ v
unfolding be_value be_bytes
be_value-be_bytes zero v h = unfold be_value_from in omega arith
be_value-be_bytes (suc n) v h =
    be_value_from-append 0 (v % 256) (be_bytes n (v / 256))
    ∙ omega (arith, be_value-be_bytes n (v / 256) (omega (arith, pow-suc 256 n)))

pub length-be_bytes : (n v : ℕ) → length (be_bytes n v) ≡ n
unfolding be_bytes
length-be_bytes zero v = refl
length-be_bytes (suc n) v =
    omega (arith, length-append (be_bytes n (v / 256)) (v % 256 ∷ []), length-be_bytes n (v / 256))
