-- ===== src/Processors/Sigv4.antt =====
-- crates/icebreaker-proxy/src/processor/sigv4.rs
pub mod Laws
use icebreaker.Common.{
  Text, codes, text_eq, strip_prefix, find_after, split_first, split_all, ℕ, Option, none, some,
  List, [], ◌∷◌, ◌++◌, if◌then◌else◌,
}
use icebreaker.Errors.{
  Result, ok, err, TokenizerError, Outcome, fine, refused, ◌>>=◌, ◌>>◌, invalid_payload,
  signing_error,
}
use icebreaker.Http.{HttpCrate, Headers, get_text, lowercase, remove_header, insert_header}
use icebreaker.Http.Request.{Request}
use icebreaker.Token.Payload.{TokenPayload}

pub record CredentialScope : Type 0 where
  pub date : Text
  pub region : Text
  pub service : Text

pub data SignableBody : Type 0 where
  unsigned_payload streaming_unsigned_payload_trailer : SignableBody
  precomputed : (hash : Text) → SignableBody

-- The seconds of a date from the epoch, or that it is before it.
pub data UnixTimestamp : Type 0 where
  since_epoch : (seconds : ℕ) → UnixTimestamp
  before_epoch : UnixTimestamp

-- The crates `time` and `aws-sigv4`, and the text of a request's URI.
pub record SigningCrates : Type 1 where
  pub parse_date : Text → Option UnixTimestamp
  pub uri_text : Request → Text
  pub Params : Type 0
  pub build_params : (access_key secret_key region service : Text) (time : ℕ) → Outcome Params
  pub Signable : Type 0
  pub signable_request : (method uri : Text) → List (Text × Text) → SignableBody → Outcome Signable
  pub sign : Signable → Params → Outcome (List (Text × Text))

abbrev scope_of_parts : List Text → Option CredentialScope
scope_of_parts (key ∷ date ∷ region ∷ service ∷ last ∷ []) =
    some (record { date = date; region = region; service = service })
scope_of_parts _ = none

-- The text from a mark up to the next comma.
unfoldable pub field_after : Text → Text → Option Text
unfolding find_after split_first
field_after mark auth_header = elim (find_after mark auth_header) [
  | none ↦ none
  | some part ↦ elim (split_first b',' part) [ none ↦ none | some (field, _) ↦ some field ]
]

unfoldable pub extract_credential_scope : Text → Option CredentialScope
unfolding field_after split_all
extract_credential_scope auth_header = elim (field_after (codes "Credential=") auth_header) [
  | none ↦ none
  | some credential ↦ scope_of_parts (split_all b'/' credential)
]

unfoldable pub extract_signed_headers : Text → Option (List Text)
unfolding field_after split_all
extract_signed_headers auth_header = elim (field_after (codes "SignedHeaders=") auth_header) [
  | none ↦ none
  | some headers_str ↦ some (split_all b';' headers_str)
]

abbrev from_epoch : Option UnixTimestamp → Option ℕ
from_epoch (some (since_epoch seconds)) = some seconds
from_epoch _ = none

unfoldable pub parse_amz_date : ⦃c : SigningCrates⦄ → Text → Option ℕ
parse_amz_date ⦃c⦄ amz_date = from_epoch (c.parse_date amz_date)

abbrev pub ok_or : {A : Type 0} → TokenizerError → Option A → Result A
ok_or e none = err e
ok_or e (some a) = ok a

abbrev pub or_signing_error : {A : Type 0} → Text → Outcome A → Result A
or_signing_error what (fine a) = ok a
or_signing_error what (refused message) = err (signing_error (what ++ message))

abbrev named_value : Text → Option Text → List (Text × Text) → List (Text × Text)
named_value name none rest = rest
named_value name (some value) rest = (name, value) ∷ rest

-- The signed headers that are there, but for the authorization.
unfoldable pub headers_to_sign : List Text → Headers → List (Text × Text)
unfolding get_text text_eq
headers_to_sign [] headers = []
headers_to_sign (name ∷ names) headers =
    let rest = headers_to_sign names headers in
    if text_eq (lowercase name) (codes "authorization")
    then rest
    else named_value name (get_text (lowercase name) headers) rest

unfoldable pub signable_body : Option Text → SignableBody
unfolding text_eq
signable_body none = unsigned_payload
signable_body (some hash) =
    if text_eq hash (codes "UNSIGNED-PAYLOAD")
    then unsigned_payload
    else if text_eq hash (codes "STREAMING-AWS4-HMAC-SHA256-PAYLOAD")
    then streaming_unsigned_payload_trailer
    else precomputed hash

-- The loop over the signer's headers; an error ends it.
unfoldable pub apply_headers : ⦃h : HttpCrate⦄ → List (Text × Text) → Headers → Result Headers
unfolding insert_header
apply_headers [] headers = ok headers
apply_headers ⦃h⦄ ((name, value) ∷ rest) headers = do
  n ← or_signing_error (codes "Invalid header name from signing: ") (h.parse_name name)
  v ← or_signing_error (codes "Invalid header value from signing: ") (h.parse_value value)
  apply_headers rest (insert_header n v headers)

-- What the request must bring to be signed again.
pub record SigningInput : Type 0 where
  pub scope : CredentialScope
  pub signed_headers : List Text
  pub signing_time : ℕ

module _ ⦃c : SigningCrates⦄ where
  unfoldable pub signing_input : Headers → Result SigningInput
  unfolding get_text strip_prefix extract_credential_scope extract_signed_headers parse_amz_date
  signing_input headers = do
    auth_header ←
        ok_or (invalid_payload (codes "SigV4 processor requires Authorization header"))
          (get_text (codes "authorization") headers)
    _ ←
        ok_or (invalid_payload (codes "Authorization header is not AWS SigV4 format"))
          (strip_prefix (codes "AWS4-HMAC-SHA256") auth_header)
    scope ←
        ok_or (invalid_payload (codes "Failed to parse credential scope"))
          (extract_credential_scope auth_header)
    signed_headers ←
        ok_or (invalid_payload (codes "Failed to parse signed headers"))
          (extract_signed_headers auth_header)
    amz_date ←
        ok_or (invalid_payload (codes "SigV4 processor requires X-Amz-Date header"))
          (get_text (codes "x-amz-date") headers)
    signing_time ←
        ok_or (invalid_payload (codes "Failed to parse X-Amz-Date: " ++ amz_date))
          (parse_amz_date amz_date)
    ok (record { scope = scope; signed_headers = signed_headers; signing_time = signing_time })

  -- Signing of the request without the proxy's own header.
  unfoldable pub sign_request :
      Text → Text → Request → SigningInput → Option Text → Result (List (Text × Text))
  unfolding headers_to_sign signable_body
  sign_request access_key secret_key request input content_sha256 = do
    params ← or_signing_error (codes "Failed to build signing params: ") (
        c.build_params access_key secret_key input.scope.region input.scope.service
          input.signing_time)
    signable ← or_signing_error (codes "Failed to create signable request: ") (
        c.signable_request request.method (c.uri_text request)
          (headers_to_sign input.signed_headers request.headers) (signable_body content_sha256))
    or_signing_error (codes "Failed to sign request: ") (c.sign signable params)

  unfoldable pub process_sigv4 : ⦃h : HttpCrate⦄ → Text → Request → TokenPayload → Result Request
  unfolding signing_input get_text remove_header sign_request apply_headers
  process_sigv4 access_key request payload = do
    input ← signing_input request.headers
    let content_sha256 = get_text (codes "x-amz-content-sha256") request.headers
    let stripped = record request {
      headers = remove_header (codes "x-tokenizer-token") request.headers;
    }
    instructions ← sign_request access_key payload.secret stripped input content_sha256
    headers ← apply_headers instructions (remove_header (codes "authorization") stripped.headers)
    ok (record stripped { headers = headers })
