-- ===== src/Url/Runs.antt =====
-- How far each part of the expression for URLs reads a text that was put together.
use mathlib.Core.Path.{subst}
use websocket_client.Common.{
  ℕ, ◌≡◌, refl, Bool, true, false, Option, none, some, List, [], ◌∷◌, ◌++◌, append_assoc, All,
  Avoids, ◌==◌, ==-refl, codes, Bool-cases, Option-cases, inl, inr,
}
use websocket_client.Url.Pieces.{Holds, strip_lem}
use websocket_client.Url.{
  is_scheme, is_password, is_user, span, strip, optional, scheme_of, take_scheme, take_slashes,
  no_user, user_password, user_of, take_user, before, user_text,
}

-- A run of the class ends in front of the text.
abbrev pub Stops : (ℕ → Bool) → List ℕ → Type 0
Stops p [] = Unit
Stops p (c ∷ s) = p c ≡ false

pub span-append :
    (p : ℕ → Bool) (run rest : List ℕ)
    → All (λ c. p c ≡ true) run
    → Stops p rest
    → span p (run ++ rest) ≡ (run, rest)
unfolding span
span-append p [] [] h k = refl
span-append p [] (c ∷ rest) h k = rw (span, k) refl
span-append p (c ∷ run) rest h k = rw (h.0, span-append p run rest h.1 k)

pub strip-Stops : (d : ℕ) (s : List ℕ) → Stops (λ c. c == d) s → strip d s ≡ none
unfolding strip
strip-Stops d [] h = refl
strip-Stops d (c ∷ s) h = rw h

pub optional-before :
    (d : ℕ) (p : ℕ → Bool) (group : Option (List ℕ)) (rest : List ℕ)
    → Holds p group
    → Stops p rest
    → Stops (λ c. c == d) rest
    → optional d p (before d group ++ rest) ≡ (group, rest)
unfolding optional
optional-before d p none rest h k l = rw (optional, strip-Stops d rest l) refl
optional-before d p (some s) rest h k l =
    unfold strip in rw (optional, strip, ==-refl d, span-append p s rest h k) refl

pub take_scheme-after :
    (c : ℕ) (s rest : List ℕ)
    → All (λ c. is_scheme c ≡ true) (c ∷ s)
    → take_scheme ((c ∷ s) ++ (b':' ∷ rest)) ≡ (some (c ∷ s), rest)
unfolding take_scheme scheme_of strip
take_scheme-after c s rest h =
    rw (take_scheme, span-append is_scheme (c ∷ s) (b':' ∷ rest) h refl) refl

pub take_slashes-two : (rest : List ℕ) → take_slashes (b'/' ∷ b'/' ∷ rest) ≡ (codes "//", rest)
unfolding take_slashes strip
take_slashes-two rest = refl

pub strip-Avoids : (d : ℕ) (s : List ℕ) → Avoids d s → strip d s ≡ none
unfolding strip
strip-Avoids d [] h = refl
strip-Avoids d (c ∷ s) h = rw h.0

pub span-Avoids : (p : ℕ → Bool) (d : ℕ) (s : List ℕ) → Avoids d s → Avoids d (span p s).1
unfolding span
span-Avoids p d [] h = tt
span-Avoids p d (c ∷ s) h = elim (Bool-cases (p c)) [
  | inl e ↦ rw (span, e) (span-Avoids p d s h.1)
  | inr e ↦ rw (span, e) h
]

pub strip_rest-Avoids :
    (d k : ℕ) (s rest : List ℕ) → strip k s ≡ some rest → Avoids d s → Avoids d rest
strip_rest-Avoids d k s rest h a = (subst (λ t. Avoids d t) (strip_lem k s rest h) a).1

-- A text with no `@` has no user name.
pub take_user-Avoids : (s : List ℕ) → Avoids b'@' s → take_user s ≡ no_user s
unfolding take_user user_of user_password
take_user-Avoids s h =
    let rest = (span is_user s).1 in
    let clean = span-Avoids is_user b'@' s h in
    elim (Option-cases (strip b':' rest)) [
      | inl e ↦ rw (user_of, strip-Avoids b'@' rest clean, e) refl
      | inr (more, e) ↦
          let left = (span is_password more).1 in
          let cleaner =
            span-Avoids is_password b'@' more (strip_rest-Avoids b'@' b':' rest more e clean) in
          rw
            (
              user_of,
              strip-Avoids b'@' rest clean,
              e,
              user_password,
              strip-Avoids b'@' left cleaner,
            )
            refl
    ]

pub take_user-text :
    (name : List ℕ) (password : Option (List ℕ)) (rest : List ℕ)
    → All (λ c. is_user c ≡ true) name
    → Holds is_password password
    → take_user (user_text (some name) password ++ rest)
      ≡ record { username = some name; password = password; rest = rest }
unfolding take_user user_of user_password strip
take_user-text name none rest h k =
    rw (append_assoc name (b'@' ∷ []) rest, span-append is_user name (b'@' ∷ rest) h refl) refl
take_user-text name (some word) rest h k =
    rw
      (
        append_assoc name (b':' ∷ (word ++ (b'@' ∷ []))) rest,
        append_assoc word (b'@' ∷ []) rest,
        span-append is_user name (b':' ∷ (word ++ (b'@' ∷ rest))) h refl,
        span-append is_password word (b'@' ∷ rest) k refl,
      )
      refl
