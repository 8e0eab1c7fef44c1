-- ===== src/Url/Sound.antt =====
-- What a match of the regular expression for URLs says of the text.
use mathlib.Core.Path.{subst}
use websocket_client.Common.{
  ℕ, ◌≡◌, refl, sym, ap, ◌∙◌, true, some, List, [], ◌∷◌, ◌++◌, append-nil, All,
}
use websocket_client.Url.{
  Match, is_query, is_path, is_service, is_host, is_scheme, is_password, is_user, is_fragment, span,
  optional, take_scheme, take_slashes, take_user, whole, regex_match, before, after, user_text,
  text,
}
use websocket_client.Url.Pieces.{
  span-split, span-All, optional-split, Holds, optional-Holds, take_slashes-split,
  take_scheme-split, take_scheme-Holds, take_user-split, take_user-Holds,
}

-- The groups of a match: their texts in a row are the URL, and each is of its class.
pub record IsMatch (url : List ℕ) (m : Match) : Type 0 where
  pub covers : text m ≡ url
  pub scheme_class : Holds is_scheme m.scheme
  pub username_class : Holds is_user m.username
  pub password_class : Holds is_password m.password
  pub hostname_class : All (λ c. is_host c ≡ true) m.hostname
  pub service_class : Holds is_service m.service
  pub path_class : All (λ c. is_path c ≡ true) m.path
  pub query_class : Holds is_query m.query
  pub fragment_class : Holds is_fragment m.fragment

whole_lem : (s : List ℕ) (m n : Match) → whole s m ≡ some n → (s ≡ []) × (m ≡ n)
unfolding whole
whole_lem [] m n h = (refl, cc)
whole_lem (c ∷ s) m n h = absurd cc

-- A match covers the whole text, piece by piece, with each piece in the class of its group.
pub regex_match-IsMatch : (url : List ℕ) (m : Match) → regex_match url ≡ some m → IsMatch url m
unfolding regex_match
regex_match-IsMatch url m h =
    let s1 = (take_scheme url).1 in
    let s2 = (take_slashes s1).1 in
    let user = take_user s2 in
    let s3 = (span is_host user.rest).1 in
    let s4 = (optional b':' is_service s3).1 in
    let s5 = (span is_path s4).1 in
    let s6 = (optional b'?' is_query s5).1 in
    let s7 = (optional b'#' is_fragment s6).1 in
    let m' : Match = record {
      scheme = (take_scheme url).0;
      slashes = (take_slashes s1).0;
      username = user.username;
      password = user.password;
      hostname = (span is_host user.rest).0;
      service = (optional b':' is_service s3).0;
      path = (span is_path s4).0;
      query = (optional b'?' is_query s5).0;
      fragment = (optional b'#' is_fragment s6).0;
    } in
    let (ended, same) = whole_lem s7 m' m h in
    let t6 : before b'#' m'.fragment ≡ s6 =
      sym (append-nil (before b'#' m'.fragment))
      ∙ ap (λ t. before b'#' m'.fragment ++ t) (sym ended)
      ∙ optional-split b'#' is_fragment s6 in
    let t5 = ap (λ t. before b'?' m'.query ++ t) t6 ∙ optional-split b'?' is_query s5 in
    let t4 = ap (λ t. m'.path ++ t) t5 ∙ span-split is_path s4 in
    let t3 = ap (λ t. before b':' m'.service ++ t) t4 ∙ optional-split b':' is_service s3 in
    let t2 = ap (λ t. m'.hostname ++ t) t3 ∙ span-split is_host user.rest in
    let t1 = ap (λ t. user_text user.username user.password ++ t) t2 ∙ take_user-split s2 in
    let t0 = ap (λ t. m'.slashes ++ t) t1 ∙ take_slashes-split s1 in
    let users = take_user-Holds s2 in
    subst (λ n. IsMatch url n) same
      (record {
        covers = ap (λ t. after m'.scheme b':' ++ t) t0 ∙ take_scheme-split url;
        scheme_class = take_scheme-Holds url;
        username_class = users.0;
        password_class = users.1;
        hostname_class = span-All is_host user.rest;
        service_class = optional-Holds b':' is_service s3;
        path_class = span-All is_path s4;
        query_class = optional-Holds b'?' is_query s5;
        fragment_class = optional-Holds b'#' is_fragment s6;
      })
