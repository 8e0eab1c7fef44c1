-- ===== src/Url/Pieces.antt =====
-- The pieces that the expression for URLs splits off a text, one group after the other.
use websocket_client.Common.{
  ℕ, ◌≡◌, refl, sym, ap, ◌∙◌, arith, Bool, true, Option, none, some, List, [], ◌∷◌, ◌++◌,
  append_assoc, All, Bool-cases, Option-cases, inl, inr,
}
use websocket_client.Url.{
  is_scheme, is_password, is_user, span, strip, optional, scheme_of, take_scheme, take_slashes,
  User, user_password, user_of, take_user, before, after, user_text,
}

pub span-split : (p : ℕ → Bool) (s : List ℕ) → (span p s).0 ++ (span p s).1 ≡ s
unfolding span
span-split p [] = refl
span-split p (c ∷ s) = elim (Bool-cases (p c)) [
  | inl e ↦ rw (span, e) (ap (λ t. c ∷ t) (span-split p s))
  | inr e ↦ rw (span, e) refl
]

pub span-All : (p : ℕ → Bool) (s : List ℕ) → All (λ c. p c ≡ true) (span p s).0
unfolding span
span-All p [] = tt
span-All p (c ∷ s) = elim (Bool-cases (p c)) [
  | inl e ↦ rw (span, e) (e, span-All p s)
  | inr e ↦ rw (span, e) tt
]

pub strip_lem : (d : ℕ) (s rest : List ℕ) → strip d s ≡ some rest → s ≡ d ∷ rest
unfolding strip
strip_lem d [] rest h = absurd cc
strip_lem d (c ∷ s) rest h = ground arith

pub optional-split :
    (d : ℕ) (p : ℕ → Bool) (s : List ℕ) → before d (optional d p s).0 ++ (optional d p s).1 ≡ s
unfolding optional
optional-split d p s = elim (Option-cases (strip d s)) [
  | inl e ↦ rw (optional, e) refl
  | inr (rest, e) ↦
      rw (optional, e) (ap (λ t. d ∷ t) (span-split p rest) ∙ sym (strip_lem d s rest e))
]

-- What holds of an optional group that is there.
abbrev pub Holds : (ℕ → Bool) → Option (List ℕ) → Type 0
Holds p none = Unit
Holds p (some s) = All (λ c. p c ≡ true) s

pub optional-Holds : (d : ℕ) (p : ℕ → Bool) (s : List ℕ) → Holds p (optional d p s).0
unfolding optional
optional-Holds d p s = elim (Option-cases (strip d s)) [
  | inl e ↦ rw (optional, e) tt
  | inr (rest, e) ↦ rw (optional, e) (span-All p rest)
]

pub scheme_of-split :
    (url run rest : List ℕ)
    → run ++ rest ≡ url
    → after (scheme_of url run rest).0 b':' ++ (scheme_of url run rest).1 ≡ url
unfolding scheme_of
scheme_of-split url [] rest h = refl
scheme_of-split url (c ∷ run) rest h = elim (Option-cases (strip b':' rest)) [
  | inl e ↦ rw (scheme_of, e) refl
  | inr (more, e) ↦
      rw (scheme_of, e)
        (append_assoc (c ∷ run) (b':' ∷ []) more
          ∙ ap (λ t. (c ∷ run) ++ t) (sym (strip_lem b':' rest more e))
          ∙ h)
]

pub scheme_of-Holds :
    (url run rest : List ℕ)
    → All (λ c. is_scheme c ≡ true) run
    → Holds is_scheme (scheme_of url run rest).0
unfolding scheme_of
scheme_of-Holds url [] rest h = tt
scheme_of-Holds url (c ∷ run) rest h = elim (Option-cases (strip b':' rest)) [
  | inl e ↦ rw (scheme_of, e) tt
  | inr (more, e) ↦ rw (scheme_of, e) h
]

pub take_slashes-split : (s : List ℕ) → (take_slashes s).0 ++ (take_slashes s).1 ≡ s
unfolding take_slashes
take_slashes-split s = elim (Option-cases (strip b'/' s)) [
  | inl e ↦ rw (take_slashes, e) refl
  | inr (one, e) ↦ elim (Option-cases (strip b'/' one)) [
    | inl f ↦ rw (take_slashes, e, f) (sym (strip_lem b'/' s one e))
    | inr (two, f) ↦
        rw (take_slashes, e, f)
          (ap (λ t. b'/' ∷ t) (sym (strip_lem b'/' one two f)) ∙ sym (strip_lem b'/' s one e))
  ]
]

abbrev pub split_text : User → List ℕ
split_text u = user_text u.username u.password ++ u.rest

pub user_password-split :
    (s name : List ℕ) (word rest : List ℕ)
    → name ++ (b':' ∷ (word ++ rest)) ≡ s
    → split_text (user_password s name (word, rest)) ≡ s
unfolding user_password
user_password-split s name word rest h = elim (Option-cases (strip b'@' rest)) [
  | inl e ↦ rw (user_password, e) refl
  | inr (more, e) ↦
      rw (user_password, e)
        (append_assoc name (b':' ∷ (word ++ (b'@' ∷ []))) more
          ∙ ap (λ t. name ++ (b':' ∷ t))
              (append_assoc word (b'@' ∷ []) more
                ∙ ap (λ t. word ++ t) (sym (strip_lem b'@' rest more e)))
          ∙ h)
]

pub user_of-split :
    (s name rest : List ℕ) → name ++ rest ≡ s → split_text (user_of s (name, rest)) ≡ s
unfolding user_of
user_of-split s name rest h = elim (Option-cases (strip b'@' rest)) [
  | inr (more, e) ↦
      rw (user_of, e)
        (append_assoc name (b'@' ∷ []) more
          ∙ ap (λ t. name ++ t) (sym (strip_lem b'@' rest more e))
          ∙ h)
  | inl e ↦ elim (Option-cases (strip b':' rest)) [
    | inl f ↦ rw (user_of, e, f) refl
    | inr (more, f) ↦
        rw (user_of, e, f)
          (user_password-split s name (span is_password more).0 (span is_password more).1 (
            ap (λ t. name ++ (b':' ∷ t)) (span-split is_password more)
            ∙ ap (λ t. name ++ t) (sym (strip_lem b':' rest more f))
            ∙ h))
  ]
]

pub user_password-Holds :
    (s name word rest : List ℕ)
    → All (λ c. is_user c ≡ true) name
    → All (λ c. is_password c ≡ true) word
    → let u = user_password s name (word, rest) in
      Holds is_user u.username × Holds is_password u.password
unfolding user_password
user_password-Holds s name word rest h k = elim (Option-cases (strip b'@' rest)) [
  | inl e ↦ rw (user_password, e) (tt, tt)
  | inr (more, e) ↦ rw (user_password, e) (h, k)
]

pub user_of-Holds :
    (s name rest : List ℕ)
    → All (λ c. is_user c ≡ true) name
    → let u = user_of s (name, rest) in Holds is_user u.username × Holds is_password u.password
unfolding user_of
user_of-Holds s name rest h = elim (Option-cases (strip b'@' rest)) [
  | inr (more, e) ↦ rw (user_of, e) (h, tt)
  | inl e ↦ elim (Option-cases (strip b':' rest)) [
    | inl f ↦ rw (user_of, e, f) (tt, tt)
    | inr (more, f) ↦
        rw (user_of, e, f)
          (user_password-Holds s name (span is_password more).0 (span is_password more).1 h
            (span-All is_password more))
  ]
]

pub take_scheme-split : (url : List ℕ) → after (take_scheme url).0 b':' ++ (take_scheme url).1 ≡ url
unfolding take_scheme
take_scheme-split url = scheme_of-split url _ _ (span-split is_scheme url)

pub take_scheme-Holds : (url : List ℕ) → Holds is_scheme (take_scheme url).0
unfolding take_scheme
take_scheme-Holds url = scheme_of-Holds url _ (span is_scheme url).1 (span-All is_scheme url)

pub take_user-split : (s : List ℕ) → split_text (take_user s) ≡ s
unfolding take_user
take_user-split s = user_of-split s _ _ (span-split is_user s)

pub take_user-Holds :
    (s : List ℕ) → Holds is_user (take_user s).username × Holds is_password (take_user s).password
unfolding take_user
take_user-Holds s = user_of-Holds s _ (span is_user s).1 (span-All is_user s)
