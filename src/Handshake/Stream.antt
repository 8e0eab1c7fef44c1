-- ===== src/Handshake/Stream.antt =====
-- What src/impl/wshandshake.cpp and src/impl/httpproxytransport.cpp use of `std::istringstream` and
-- `std::to_string`: words, unsigned numbers in decimal, and printing them.
use websocket_client.Common.{
  ℕ, zero, suc, ◌+◌, ◌-◌, ◌*◌, ◌/◌, ◌%◌, ◌^◌, ◌≡◌, refl, ap, arith, ◌∙◌, Bool, false, ◌&&◌, ◌||◌,
  List, [], ◌∷◌, ◌++◌, ltb, leb, ◌==◌, if◌then◌else◌, All,
}

-- `std::isspace` in the "C" locale.
unfoldable pub isspace : ℕ → Bool
isspace c = c == b' ' || (leb 9 c && leb c 13)

pub skip_space : List ℕ → List ℕ
skip_space [] = []
skip_space (c ∷ s) = let rest = skip_space s in if isspace c then rest else c ∷ s

pub take_word : List ℕ → List ℕ × List ℕ
take_word [] = ([], [])
take_word (c ∷ s) =
    let (word, rest) = take_word s in if isspace c then ([], c ∷ s) else (c ∷ word, rest)

-- `stream >> word`: the word, and what is left in the stream.
unfoldable pub read_word : List ℕ → List ℕ × List ℕ
unfolding take_word skip_space isspace
read_word s = take_word (skip_space s)

-- The number that the leading digits stand for, with what was read before them.
pub read_digits : ℕ → List ℕ → ℕ
read_digits acc [] = acc
read_digits acc (c ∷ s) =
    let more = read_digits (acc * 10 + (c - b'0')) s in
    if leb b'0' c && leb c b'9' then more else acc

-- A value out of range is read as the largest one.
pub saturate : ℕ → ℕ
saturate n = if ltb n (2 ^ 32) then n else 2 ^ 32 - 1

pub read_signed : List ℕ → ℕ
read_signed [] = 0
read_signed (c ∷ s) =
    if c == b'+'
    then saturate (read_digits 0 s)
    else if c == b'-'
    then (let n = saturate (read_digits 0 s) in
        if ltb (read_digits 0 s) (2 ^ 32) then (2 ^ 32 - n) % 2 ^ 32 else n)
    else saturate (read_digits 0 (c ∷ s))

-- `stream >> code` for an `unsigned int` that was 0: a text with no digits leaves 0.
unfoldable pub read_unsigned : List ℕ → ℕ
unfolding skip_space isspace read_signed saturate read_digits
read_unsigned s = read_signed (skip_space s)

-- The decimal digits, the last one first to be split off.
pub decimal_digits : ℕ → ℕ → List ℕ → List ℕ
decimal_digits zero n tail = tail
decimal_digits (suc fuel) n tail =
    let more = decimal_digits fuel (n / 10) ((n % 10 + b'0') ∷ tail) in
    if ltb n 10 then (n + b'0') ∷ tail else more

-- `std::to_string`: a number has fewer digits than its successor is large.
pub decimal : ℕ → List ℕ
decimal n = decimal_digits (suc n) n []

pub not_space_line : (c : ℕ) → isspace c ≡ false → (c == 10) ≡ false
unfolding isspace
not_space_line c h = ground arith

abbrev pub IsWord : List ℕ → Type 0
IsWord w = All (λ c. isspace c ≡ false) w

take_word-append : (w s : List ℕ) → IsWord w → take_word (w ++ (b' ' ∷ s)) ≡ (w, b' ' ∷ s)
unfolding take_word
take_word-append [] s h = unfold isspace in refl
take_word-append (c ∷ w) s h = rw (h.0, take_word-append w s h.1)

skip_space-word : (c : ℕ) (s : List ℕ) → isspace c ≡ false → skip_space (c ∷ s) ≡ c ∷ s
unfolding skip_space
skip_space-word c s h = rw h

skip_space-space : (s : List ℕ) → skip_space (b' ' ∷ s) ≡ skip_space s
unfolding skip_space isspace
skip_space-space s = refl

-- A word in front of a space is read whole.
pub read_word-append :
    (c : ℕ) (w s : List ℕ) → IsWord (c ∷ w) → read_word (c ∷ w ++ (b' ' ∷ s)) ≡ (c ∷ w, b' ' ∷ s)
unfolding read_word
read_word-append c w s h =
    ap take_word (skip_space-word c (w ++ (b' ' ∷ s)) h.0) ∙ take_word-append (c ∷ w) s h

-- A space in front of it is skipped.
pub read_word-space : (s : List ℕ) → read_word (b' ' ∷ s) ≡ read_word s
unfolding read_word
read_word-space s = ap take_word (skip_space-space s)
