-- ===== src/Auth/Oauth/Jwt.antt =====
-- `decodeJWTClaims` of internal/auth/oauth.go.
use googlysync.Prelude.{
  false, ◌==◌, ◌≡◌, refl, sym, ap, ◌∙◌, All, List, [], ◌∷◌, ◌++◌, append_assoc, append-nil, Str,
  lit, err,
}
use googlysync.Auth.Oauth.{Calls, split_dots, decode_jwt_claims, decode_payload}

abbrev pub NoDot : Str → Type 0
NoDot s = All (λ c. (c == b'.') ≡ false) s

-- the pieces of a text, with the dots between them
abbrev pub join_dots : Str → List Str → Str
join_dots p [] = p
join_dots p (q ∷ ps) = p ++ b'.' ∷ join_dots q ps

module _ (calls : Calls) where
  open calls use {base64_encode, base64_decode, json_claims, decode_encoded, encoded_bytes}

  split_dots-piece :
      (piece p s : Str)
      → NoDot p
      → split_dots calls piece (p ++ b'.' ∷ s) ≡ (piece ++ p) ∷ split_dots calls [] s
  unfolding split_dots
  split_dots-piece piece [] s h = ap (λ t. t ∷ split_dots calls [] s) (sym (append-nil piece))
  split_dots-piece piece (c ∷ p) s h =
      rw (h.0, split_dots)
        (split_dots-piece (piece ++ c ∷ []) p s h.1
          ∙ ap (λ t. t ∷ split_dots calls [] s) (append_assoc piece (c ∷ []) p))

  split_dots_last : (piece p : Str) → NoDot p → split_dots calls piece p ≡ (piece ++ p) ∷ []
  unfolding split_dots
  split_dots_last piece [] h = ap (λ t. t ∷ []) (sym (append-nil piece))
  split_dots_last piece (c ∷ p) h =
      rw (h.0, split_dots)
        (split_dots_last (piece ++ c ∷ []) p h.1 ∙ ap (λ t. t ∷ []) (append_assoc piece (c ∷ []) p))

  split_dots-join_dots :
      (p : Str) (ps : List Str)
      → NoDot p
      → All NoDot ps
      → split_dots calls [] (join_dots p ps) ≡ p ∷ ps
  split_dots-join_dots p [] h k = split_dots_last [] p h
  split_dots-join_dots p (q ∷ ps) h k =
      split_dots-piece [] p (join_dots q ps) h ∙ ap (λ t. p ∷ t) (split_dots-join_dots q ps k.0 k.1)

  -- The claims of a compact token, a header, a payload in base64 and what follows it with dots
  -- between them, are those of the payload's text; a text without a dot is refused.
  pub decode_jwt_claims-join_dots :
      (header payload : Str) (parts : List Str)
      → NoDot header
      → All NoDot parts
      → (decode_jwt_claims calls (join_dots header (base64_encode payload ∷ parts))
          ≡ json_claims payload)
        × (decode_jwt_claims calls header ≡ err (lit "invalid token format"))
  unfolding decode_jwt_claims
  decode_jwt_claims-join_dots header payload parts h k =
      let e =
        split_dots-join_dots header (base64_encode payload ∷ parts) h (encoded_bytes payload, k) in
      (
        ap (decode_payload calls) e ∙ (rw (decode_encoded payload) refl),
        ap (decode_payload calls) (split_dots_last [] header h),
      )
