-- ===== src/Token/Header.antt =====
-- The header form of a sealed token: `SealedToken` of crates/icebreaker-common/src/token.rs.
use icebreaker.Common.{
  Text, codes, strip_prefix, ◌≡◌, refl, Option, none, some, ◌++◌, arith, inl, inr,
}
use icebreaker.Errors.{
  Outcome-cases, Result, ok, err, Outcome, fine, refused, ◌>>=◌, invalid_payload, internal_error,
}
use icebreaker.Token.Payload.{SealedToken}

-- The crates `base64` and `serde_json`, with what they document of a way there and back.
pub record TokenCodec : Type 0 where
  pub base64_encode : Text → Text
  pub base64_decode : Text → Outcome Text
  pub token_to_json : SealedToken → Outcome Text
  pub token_from_json : Text → Outcome SealedToken
  pub base64_decode-encode : (s : Text) → base64_decode (base64_encode s) ≡ fine s
  pub token_from_json-to_json :
      (t : SealedToken) (json : Text) → token_to_json t ≡ fine json → token_from_json json ≡ fine t

abbrev pub header_prefix : Text
header_prefix = codes "Tokenizer "

abbrev or_invalid_payload : {A : Type 0} → Text → Outcome A → Result A
or_invalid_payload what (fine a) = ok a
or_invalid_payload what (refused message) = err (invalid_payload (what ++ message))

abbrev prefixed_or_error : Option Text → Result Text
prefixed_or_error none = err (invalid_payload (codes "missing Tokenizer prefix"))
prefixed_or_error (some s) = ok s

abbrev or_internal_error : {A : Type 0} → Text → Outcome A → Result A
or_internal_error what (fine a) = ok a
or_internal_error what (refused message) = err (internal_error (what ++ message))

module _ ⦃c : TokenCodec⦄ where
  unfoldable pub from_header : Text → Result SealedToken
  unfolding strip_prefix
  from_header header = do
    token_str ← prefixed_or_error (strip_prefix header_prefix header)
    json_bytes ← or_invalid_payload (codes "base64 decode error: ") (c.base64_decode token_str)
    or_invalid_payload (codes "json parse error: ") (c.token_from_json json_bytes)

  unfoldable pub to_header : SealedToken → Result Text
  to_header t = do
    json ← or_internal_error (codes "failed to serialize sealed token: ") (c.token_to_json t)
    ok (header_prefix ++ c.base64_encode json)

  -- A header that a token was written to is read back as that token.
  pub from_header-to_header :
      (t : SealedToken) (header : Text) → to_header t ≡ ok header → from_header header ≡ ok t
  unfolding from_header to_header strip_prefix
  from_header-to_header t header k = elim (Outcome-cases (c.token_to_json t)) [
    | inr (message, e) ↦ absurd (ground (arith, k, e))
    | inl (json, e) ↦
        let same : header ≡ header_prefix ++ c.base64_encode json = ground (arith, k, e) in
        rw same (rw (c.base64_decode-encode json) (rw (c.token_from_json-to_json t json e) refl))
  ]
