-- ===== src/Capi/Int.antt =====
-- The `int` of src/capi.cpp, its conversions, and the codes of include/websocketclient.h.
use websocket_client.Common.{
  ℕ, zero, suc, ◌-◌, ◌%◌, ◌^◌, ◌<◌, ◌≡◌, refl, arith, Bool, true, false, if◌then◌else◌, ltb, lt→ltb,
}

-- `negsuc n` is -(n + 1).
pub data ℤ : Type 0 where
  pos negsuc : ℕ → ℤ

abbrev pub neg : ℕ → ℤ
neg zero = pos 0
neg (suc n) = negsuc n

-- `std::abs`
abbrev pub abs : ℤ → ℕ
abs (pos n) = n
abs (negsuc n) = suc n

abbrev pub is_negative : ℤ → Bool
is_negative (pos n) = false
is_negative (negsuc n) = true

-- `size_t(n)`
abbrev pub to_size : ℤ → ℕ
to_size (pos n) = n
to_size (negsuc n) = (2 ^ 64) - suc n

-- `int(n)` of a `size_t`
unfoldable pub to_int : ℕ → ℤ
to_int n = let r = n % 2 ^ 32 in if ltb r (2 ^ 31) then pos r else neg ((2 ^ 32) - r)

-- A size that is an `int` does not change.
pub to_int-small : (n : ℕ) → n < 2 ^ 31 → to_int n ≡ pos n
unfolding to_int
to_int-small n h =
    let same : n % 2 ^ 32 ≡ n = omega (arith, h) in rw (to_int, same, lt→ltb n (2 ^ 31) h) refl

-- `size < n`, for a size that is not negative.
unfoldable pub less : ℕ → ℤ → Bool
less size (pos n) = ltb size n
less size (negsuc n) = false

abbrev pub err_success : ℤ
err_success = pos 0

abbrev pub err_invalid : ℤ
err_invalid = neg 1

abbrev pub err_failure : ℤ
err_failure = neg 2

abbrev pub err_not_avail : ℤ
err_not_avail = neg 3

abbrev pub err_too_small : ℤ
err_too_small = neg 4
