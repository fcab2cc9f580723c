-- ===== src/Security/Clients/Scopes.antt =====
-- The scopes of a service client as one text (src/security/service_client_repository.cpp).
use url_shortener.Prelude.{
  ◌≡◌, refl, sym, ◌∙◌, Bool, true, false, ◌&&◌, not, List, [], ◌∷◌, ◌++◌, append-nil, append_assoc,
  arith, ◌==◌, is_empty, all, Bytes,
}
use url_shortener.Security.Clients.{
  comma, join_rest, join_scopes, push_nonempty, split_from, split_scopes,
}

-- A scope that a text can hold: not empty and without a comma.
abbrev pub is_plain : Bytes → Bool
is_plain scope = not (is_empty scope) && all (λ c. not (c == comma)) scope

split_from-token :
    (t u rest : Bytes)
    → all (λ c. not (c == comma)) u ≡ true
    → split_from t (u ++ rest) ≡ split_from (t ++ u) rest
unfolding split_from
split_from-token t [] rest h = rw (append-nil t) refl
split_from-token t (c ∷ u) rest h =
    let step : split_from (t ++ (c ∷ [])) (u ++ rest) ≡ split_from ((t ++ (c ∷ [])) ++ u) rest =
      split_from-token (t ++ (c ∷ [])) u rest (ground arith) in
    let joined : (t ++ (c ∷ [])) ++ u ≡ t ++ (c ∷ u) = append_assoc t (c ∷ []) u in
    let other : (c == comma) ≡ false = ground arith in rw other (rw (sym joined) step)

split_from-join_rest :
    (t : Bytes) (xs : List Bytes)
    → is_empty t ≡ false
    → all is_plain xs ≡ true
    → split_from t (join_rest xs) ≡ t ∷ xs
unfolding split_from join_rest push_nonempty
split_from-join_rest t [] h k = rw h refl
split_from-join_rest t (x ∷ xs) h k =
    let step : split_from [] (x ++ join_rest xs) ≡ split_from x (join_rest xs) =
      split_from-token [] x (join_rest xs) (ground arith) in
    let rest : split_from x (join_rest xs) ≡ x ∷ xs =
      split_from-join_rest x xs (ground arith) (ground arith) in
    rw (h, step, rest) refl

pub split_scopes-join_scopes :
    (xs : List Bytes) → all is_plain xs ≡ true → split_scopes (join_scopes xs) ≡ xs
unfolding split_scopes join_scopes split_from push_nonempty
split_scopes-join_scopes [] h = refl
split_scopes-join_scopes (x ∷ xs) h =
    split_from-token [] x (join_rest xs) (ground arith)
    ∙ split_from-join_rest x xs (ground arith) (ground arith)
