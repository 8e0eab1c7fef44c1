-- ===== src/Common/Text.antt =====
-- Byte texts: a C++ string is the list of its bytes.
use Prim.Native.Nat.{ℕ, zero, suc}
use Prim.Native.Char.{code}
use Prim.Native.String.{String}
use mathlib.Core.Path.{◌≡◌, refl}
use mathlib.Core.Bool.{Bool, true, false, not, ◌&&◌}
use mathlib.Core.List.{List, [], ◌∷◌}
use native.Mathlib.Omega.{arith}
use websocket_client.Common.Tests.{◌==◌}
use websocket_client.Common.Lists.{All, get_or}

-- The bytes of an ASCII literal.
abbrev pub codes : String → List ℕ
codes String.[] = []
codes (String.◌∷◌ c s) = code c ∷ codes s

abbrev pub bytes_eq : List ℕ → List ℕ → Bool
bytes_eq [] [] = true
bytes_eq [] (y ∷ ys) = false
bytes_eq (x ∷ xs) [] = false
bytes_eq (x ∷ xs) (y ∷ ys) = (x == y) && bytes_eq xs ys

pub bytes_eq_refl : (xs : List ℕ) → bytes_eq xs xs ≡ true
bytes_eq_refl [] = refl
bytes_eq_refl (x ∷ xs) = ground (arith, bytes_eq_refl xs)

pub bytes_eq→eq : (xs ys : List ℕ) → bytes_eq xs ys ≡ true → xs ≡ ys
bytes_eq→eq [] [] h = refl
bytes_eq→eq [] (y ∷ ys) h = cc
bytes_eq→eq (x ∷ xs) [] h = cc
bytes_eq→eq (x ∷ xs) (y ∷ ys) h = ground (arith, bytes_eq→eq xs ys)

-- No character of the text is the given one.
abbrev pub Avoids : ℕ → List ℕ → Type 0
Avoids n s = All (λ c. (c == n) ≡ false) s

abbrev pub avoids : ℕ → List ℕ → Bool
avoids n [] = true
avoids n (c ∷ s) = not (c == n) && avoids n s

-- For literals: checked by evaluation.
pub avoids→Avoids : (n : ℕ) (s : List ℕ) → avoids n s ≡ true → Avoids n s
avoids→Avoids n [] h = tt
avoids→Avoids n (c ∷ s) h = ground (arith, avoids→Avoids n s)

pub All-get_or : (P : ℕ → Type 0) (xs : List ℕ) (i d : ℕ) → All P xs → P d → P (get_or xs i d)
All-get_or P [] i d h k = k
All-get_or P (x ∷ xs) zero d h k = h.0
All-get_or P (x ∷ xs) (suc i) d h k = All-get_or P xs i d h.1 k
