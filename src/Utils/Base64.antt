-- ===== src/Utils/Base64.antt =====
-- `base64_encode` of src/impl/utils.cpp.
pub mod RoundTrip
use websocket_client.Common.{
  ℕ, ◌+◌, ◌*◌, ◌/◌, bit_and, bit_or, List, [], ◌∷◌, codes, get_or, All, Avoids, All-get_or,
  avoids→Avoids, ◌==◌, ◌≡◌, refl, false, avoids, true,
}

abbrev pub tab : List ℕ
tab = codes "ABCDEFGHIJKLMNOPQRSTUVWXYZabcdefghijklmnopqrstuvwxyz0123456789+/"

pub tab_at : ℕ → ℕ
tab_at i = get_or tab i 0

-- The loop takes three bytes while three are left; the two short clauses are the code after it.
pub base64_encode : List ℕ → List ℕ
base64_encode [] = []
base64_encode (d0 ∷ []) = tab_at (d0 / 4) ∷ tab_at (bit_and d0 3 * 16) ∷ b'=' ∷ b'=' ∷ []
base64_encode (d0 ∷ d1 ∷ []) =
    tab_at (d0 / 4)
    ∷ tab_at (bit_or (bit_and d0 3 * 16) (d1 / 16))
    ∷ tab_at (bit_and d1 0x0f * 4)
    ∷ b'='
    ∷ []
base64_encode (d0 ∷ d1 ∷ d2 ∷ rest) =
    tab_at (d0 / 4)
    ∷ tab_at (bit_or (bit_and d0 3 * 16) (d1 / 16))
    ∷ tab_at (bit_or (bit_and d1 0x0f * 4) (d2 / 64))
    ∷ tab_at (bit_and d2 0x3f)
    ∷ base64_encode rest

module _ (P : ℕ → Type 0) (digits : All P tab) (nul : P 0) (pad : P b'=') where
  tab_at_All : (i : ℕ) → P (tab_at i)
  unfolding tab_at
  tab_at_All i = All-get_or P tab i 0 digits nul

  -- Whatever holds of the alphabet, of NUL and of `=` holds of every character that is written.
  pub base64_encode-All : (bytes : List ℕ) → All P (base64_encode bytes)
  unfolding base64_encode
  base64_encode-All [] = tt
  base64_encode-All (d0 ∷ []) = (tab_at_All _, (tab_at_All _, (pad, (pad, tt))))
  base64_encode-All (d0 ∷ d1 ∷ []) = (tab_at_All _, (tab_at_All _, (tab_at_All _, (pad, tt))))
  base64_encode-All (d0 ∷ d1 ∷ d2 ∷ rest) =
      (tab_at_All _, (tab_at_All _, (tab_at_All _, (tab_at_All _, base64_encode-All rest))))

-- A character outside the alphabet is never written.
pub base64_encode-Avoids :
    (n : ℕ) (bytes : List ℕ)
    → avoids n tab ≡ true
    → (0 == n) ≡ false
    → (b'=' == n) ≡ false
    → Avoids n (base64_encode bytes)
base64_encode-Avoids n bytes h nul pad =
    base64_encode-All (λ c. (c == n) ≡ false) (avoids→Avoids n tab h) nul pad bytes
