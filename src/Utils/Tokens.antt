-- ===== src/Utils/Tokens.antt =====
-- `explode` and `implode` of src/impl/utils.cpp.
use websocket_client.Common.{
  ℕ, zero, suc, ◌-◌, ◌≤◌, ◌≡◌, refl, ap, sym, ◌∙◌, arith, false, List, [], ◌∷◌, ◌++◌, append_assoc,
  ◌≢◌, ◌==◌, if◌then◌else◌, ==-refl, take, length, length-append, take-length-append, All,
}

-- `std::getline`: the characters before the delimiter, which is dropped, and what follows it.
unfoldable pub getline : ℕ → List ℕ → List ℕ × List ℕ
getline delim [] = ([], [])
getline delim (c ∷ s) =
    let (token, rest) = getline delim s in if c == delim then ([], s) else (c ∷ token, rest)

-- The loop ends when `getline` extracts nothing, which is at the end of the text.
unfoldable pub explode_loop : ℕ → ℕ → List ℕ → List (List ℕ)
explode_loop zero delim s = []
explode_loop (suc fuel) delim [] = []
explode_loop (suc fuel) delim (c ∷ s) =
    (getline delim (c ∷ s)).0 ∷ explode_loop fuel delim (getline delim (c ∷ s)).1

-- Each round takes a character at least, so the length is fuel enough.
unfoldable pub explode : List ℕ → ℕ → List (List ℕ)
explode str delim = explode_loop (length str) delim str

-- The text `sdelim.c_str()`, which is empty for the zero character.
unfoldable pub delimiter_text : ℕ → List ℕ
delimiter_text delim = if delim == 0 then [] else delim ∷ []

-- `std::ostream_iterator` writes the delimiter's text behind each token.
unfoldable pub write_tokens : List (List ℕ) → ℕ → List ℕ
write_tokens [] delim = []
write_tokens (t ∷ ts) delim = t ++ (delimiter_text delim ++ write_tokens ts delim)

-- `resize(size - 1)` takes the last delimiter off.
unfoldable pub implode : List (List ℕ) → ℕ → List ℕ
implode tokens delim =
    let result = write_tokens tokens delim in
    if length result == 0 then result else take (length result - 1) result

-- A token that can be told from the delimiter.
abbrev pub IsToken : ℕ → List ℕ → Type 0
IsToken delim t = All (λ c. (c == delim) ≡ false) t

getline-append :
    (delim : ℕ) (t s : List ℕ) → IsToken delim t → getline delim (t ++ (delim ∷ s)) ≡ (t, s)
unfolding getline
getline-append delim [] s h = rw (==-refl delim)
getline-append delim (c ∷ t) s h = rw (h.0, getline-append delim t s h.1)

getline-last : (delim : ℕ) (t : List ℕ) → IsToken delim t → getline delim t ≡ (t, [])
unfolding getline
getline-last delim [] h = refl
getline-last delim (c ∷ t) h = rw (h.0, getline-last delim t h.1)

-- The tokens with the delimiter between them: what `implode` is to write.
abbrev pub join : List ℕ → List (List ℕ) → ℕ → List ℕ
join t [] delim = t
join t (u ∷ us) delim = t ++ (delim ∷ join u us delim)

delimiter_text-nonzero : (delim : ℕ) → (delim == 0) ≡ false → delimiter_text delim ≡ delim ∷ []
unfolding delimiter_text
delimiter_text-nonzero delim h = rw (delimiter_text, h) refl

write_tokens-join :
    (t : List ℕ) (ts : List (List ℕ)) (delim : ℕ)
    → (delim == 0) ≡ false
    → write_tokens (t ∷ ts) delim ≡ join t ts delim ++ (delim ∷ [])
unfolding write_tokens delimiter_text
write_tokens-join t [] delim h = rw (delimiter_text, h) refl
write_tokens-join t (u ∷ us) delim h =
    ap (λ s. t ++ (s ++ write_tokens (u ∷ us) delim)) (delimiter_text-nonzero delim h)
    ∙ ap (λ s. t ++ (delim ∷ s)) (write_tokens-join u us delim h)
    ∙ sym (append_assoc t (delim ∷ join u us delim) (delim ∷ []))

-- `implode` writes the tokens in order with one delimiter between two, and none at the end, for a
-- delimiter that is not the zero character.
pub implode-join :
    (t : List ℕ) (ts : List (List ℕ)) (delim : ℕ)
    → (delim == 0) ≡ false
    → implode (t ∷ ts) delim ≡ join t ts delim
unfolding implode
implode-join t ts delim h =
    let whole = join t ts delim in
    let size : length (whole ++ (delim ∷ [])) - 1 ≡ length whole =
      omega (arith, length-append whole (delim ∷ [])) in
    let some_left : (length (whole ++ (delim ∷ [])) == 0) ≡ false =
      ground (arith, length-append whole (delim ∷ [])) in
    rw (write_tokens-join t ts delim h, some_left, size) (take-length-append whole (delim ∷ []))

abbrev pub LastNonempty : List ℕ → List (List ℕ) → Type 0
LastNonempty t [] = t ≢ []
LastNonempty t (u ∷ us) = LastNonempty u us

abbrev pub AllTokens : ℕ → List ℕ → List (List ℕ) → Type 0
AllTokens delim t ts = IsToken delim t × All (λ u. IsToken delim u) ts

explode_loop-nil : (fuel delim : ℕ) → explode_loop fuel delim [] ≡ []
unfolding explode_loop
explode_loop-nil zero delim = refl
explode_loop-nil (suc fuel) delim = refl

explode_loop-token :
    (fuel delim : ℕ) (t s : List ℕ)
    → IsToken delim t
    → explode_loop (suc fuel) delim (t ++ (delim ∷ s)) ≡ t ∷ explode_loop fuel delim s
unfolding explode_loop
explode_loop-token fuel delim [] s h = rw (getline-append delim [] s h)
explode_loop-token fuel delim (c ∷ t) s h = rw (getline-append delim (c ∷ t) s h)

explode_loop-join :
    (fuel delim : ℕ) (t : List ℕ) (ts : List (List ℕ))
    → length (join t ts delim) ≤ fuel
    → AllTokens delim t ts
    → LastNonempty t ts
    → explode_loop fuel delim (join t ts delim) ≡ t ∷ ts
explode_loop-join fuel delim [] [] enough tokens last = absurd (last refl)
explode_loop-join zero delim (c ∷ t) [] enough tokens last = absurd (omega arith)
explode_loop-join (suc fuel) delim (c ∷ t) [] enough tokens last =
    unfold explode_loop in rw (getline-last delim (c ∷ t) tokens.0, explode_loop-nil fuel delim)
explode_loop-join zero delim t (u ∷ us) enough tokens last =
    absurd (omega (arith, length-append t (delim ∷ join u us delim)))
explode_loop-join (suc fuel) delim t (u ∷ us) enough tokens last =
    explode_loop-token fuel delim t (join u us delim) tokens.0
    ∙ ap (λ s. t ∷ s)
        (explode_loop-join fuel delim u us
          (omega (arith, length-append t (delim ∷ join u us delim))) tokens.1 last)

-- Splitting what `implode` wrote gives the tokens back, for a delimiter that is not the zero
-- character, if no token contains it and the last is not empty.
pub explode-implode :
    (delim : ℕ) (t : List ℕ) (ts : List (List ℕ))
    → (delim == 0) ≡ false
    → AllTokens delim t ts
    → LastNonempty t ts
    → explode (implode (t ∷ ts) delim) delim ≡ t ∷ ts
unfolding explode
explode-implode delim t ts h tokens last =
    rw (implode-join t ts delim h)
      (explode_loop-join (length (join t ts delim)) delim t ts (omega arith) tokens last)
