-- ===== src/Processors/Hmac.antt =====
-- crates/icebreaker-proxy/src/processor/hmac.rs. `now` is the clock in seconds since the epoch.
pub mod Laws
pub mod Order
use icebreaker.Common.{Text, codes, decimal, ℕ, Option, none, some, List, [], ◌∷◌}
use icebreaker.Errors.{Result, ok, Outcome, ◌>>=◌}
use icebreaker.Http.{HttpCrate, Headers, get_text, lowercase}
use icebreaker.Http.Request.{Request}
use icebreaker.Token.Config.{HmacConfig}
use icebreaker.Token.Payload.{TokenPayload}
use icebreaker.ClientAuth.Credentials.{AuthCrates}
use icebreaker.Signing.{
  DigestCrates, RequestSigner, sign_hex, CanonicalRequestBuilder, new, set_query, add_header,
  set_body, build_canonical,
}
use icebreaker.Processors.Header.{set_header, or_http_error}

abbrev with_query : Option Text → CanonicalRequestBuilder → CanonicalRequestBuilder
with_query none b = b
with_query (some query) b = set_query b query

abbrev with_header : Text → Option Text → CanonicalRequestBuilder → CanonicalRequestBuilder
with_header name none b = b
with_header name (some value) b = add_header b name value

-- The loop over the configured names. `HeaderMap::get` takes a name in any case.
unfoldable pub with_signed_headers :
    List Text → Headers → CanonicalRequestBuilder → CanonicalRequestBuilder
unfolding add_header
with_signed_headers [] headers b = b
with_signed_headers (name ∷ names) headers b =
    with_signed_headers names headers (with_header name (get_text (lowercase name) headers) b)

unfoldable pub request_builder : HmacConfig → Request → CanonicalRequestBuilder
unfolding with_signed_headers new set_query
request_builder c request =
    with_signed_headers c.signed_headers request.headers
      (with_query request.query (new request.method request.path))

unfoldable pub build_canonical_request : HmacConfig → Request → Text
unfolding request_builder
build_canonical_request c request = build_canonical (request_builder c request)

unfoldable pub set_timestamp : ⦃h : HttpCrate⦄ → Option Text → ℕ → Request → Result Request
unfolding set_header
set_timestamp none now request = ok request
set_timestamp (some name) now request =
    set_header (codes "invalid timestamp header name: ") (codes "invalid timestamp value: ") name
      (decimal now) request

abbrev pub signer_of : HmacConfig → TokenPayload → RequestSigner
signer_of c payload = record { key = payload.secret; algorithm = c.algorithm }

module _ ⦃h : HttpCrate⦄ ⦃a : AuthCrates⦄ where
  -- Signing of a text and setting of the signature header.
  unfoldable pub set_signature : HmacConfig → TokenPayload → Text → Request → Result Request
  unfolding sign_hex set_header
  set_signature c payload canonical request = do
    signature ← sign_hex (signer_of c payload) canonical
    set_header (codes "invalid signature header name: ") (codes "invalid signature value: ")
        c.signature_header signature request

  unfoldable pub process_hmac : HmacConfig → ℕ → Request → TokenPayload → Result Request
  unfolding set_timestamp build_canonical_request set_signature
  process_hmac c now request payload = do
    stamped ← set_timestamp c.timestamp_header now request
    set_signature c payload (build_canonical_request c stamped) stamped

  module _ ⦃d : DigestCrates⦄ where
    unfoldable pub build_canonical_request_with_body : HmacConfig → Request → Text → Text
    unfolding request_builder set_body
    build_canonical_request_with_body c request body =
        build_canonical (set_body (request_builder c request) body)

    unfoldable pub process_body_signing :
        HmacConfig → ℕ → Request → Outcome Text → TokenPayload → Result (Request × Text)
    unfolding set_timestamp build_canonical_request_with_body set_signature
    process_body_signing c now request collected payload = do
      body ← or_http_error (codes "failed to read request body: ") collected
      stamped ← set_timestamp c.timestamp_header now request
      signed ← set_signature c payload (build_canonical_request_with_body c stamped body) stamped
      ok (signed, body)
