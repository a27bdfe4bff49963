-- ===== src/Processors/OAuth/Laws.antt =====
-- Which access tokens are put into requests.
use icebreaker.Common.{
  Text, codes, text_eq, ℕ, ◌+◌, ◌^◌, ◌≤◌, ◌<◌, ◌≡◌, ◌∙◌, sym, ap, Option, some, ◌++◌, arith, inl,
  inr, if◌then◌else◌,
}
use icebreaker.Errors.{Result-cases, ok, fine}
use icebreaker.Http.{HttpCrate, HeaderValue, get}
use icebreaker.Http.Laws.{get-insert_header}
use icebreaker.Http.Request.{Request}
use icebreaker.Token.Config.{OAuthConfig}
use icebreaker.Token.Expiration.{check_expiration, default_skew}
use icebreaker.Token.Payload.{TokenPayload, OAuthMetadata}
use icebreaker.Processors.Header.{set_header}
use icebreaker.Processors.Header.Laws.{set_header-eq-ok}
use icebreaker.Processors.OAuth.{
  new, process_oauth, status_result, check_metadata, check_access_token_expiration,
}

check_expiration-fresh :
    (now expires_at : ℕ)
    → now + 300 < 2 ^ 64
    → expires_at + 30 < 2 ^ 64
    → status_result (check_expiration default_skew (some expires_at) now) ≡ ok tt
    → (expires_at ≤ now + 300) × (now ≤ expires_at + 30)
unfolding check_expiration
check_expiration-fresh now expires_at a b k = ground arith

check_metadata-fresh :
    (now expires_at : ℕ) (metadata : Option OAuthMetadata) (oauth : OAuthMetadata)
    → now + 300 < 2 ^ 64
    → expires_at + 30 < 2 ^ 64
    → metadata ≡ some oauth
    → oauth.access_token_expires_at ≡ some expires_at
    → check_metadata metadata default_skew now ≡ ok tt
    → (expires_at ≤ now + 300) × (now ≤ expires_at + 30)
unfolding check_metadata check_access_token_expiration
check_metadata-fresh now expires_at metadata oauth a b e f k =
    let metadata_status = λ (m : Option OAuthMetadata). check_metadata m default_skew now in
    let k' : check_metadata (some oauth) default_skew now ≡ ok tt =
      sym (ap metadata_status e) ∙ k in
    let status = λ (t : Option ℕ). status_result (check_expiration default_skew t now) in
    check_expiration-fresh now expires_at a b (sym (ap status f) ∙ k')

-- An access token whose metadata names an expiry is put into a request only from 300 seconds before
-- that time to 30 seconds after it; it then stands, after `Bearer`, in the configured header, and
-- every other header reads as before. No sum here passes 64 bits.
pub process_oauth-fresh :
    ⦃h : HttpCrate⦄ (c : OAuthConfig) (now expires_at : ℕ) (request r : Request)
    (payload : TokenPayload) (oauth : OAuthMetadata) (name : Text)
    → now + 300 < 2 ^ 64
    → expires_at + 30 < 2 ^ 64
    → payload.oauth ≡ some oauth
    → oauth.access_token_expires_at ≡ some expires_at
    → process_oauth (new c) now request payload ≡ ok r
    → ((expires_at ≤ now + 300) × (now ≤ expires_at + 30))
      × ((n : Text) × (v : HeaderValue) × ((h.parse_name c.header_name ≡ fine n)
            × ((h.parse_value (codes "Bearer " ++ payload.secret) ≡ fine v)
                × (get name r.headers
                    ≡ (if text_eq n name then some v else get name request.headers)))))
unfolding process_oauth new
process_oauth-fresh ⦃h⦄ c now expires_at request r payload oauth name a b e f k =
    elim (Result-cases (check_metadata payload.oauth default_skew now)) [
      | inr (x, m) ↦ absurd (ground (arith, k, m))
      | inl (_, m) ↦
          let set : set_header (codes "invalid header name: ") (codes "invalid header value: ")
                c.header_name (codes "Bearer " ++ payload.secret) request
              ≡ ok r =
            ground (arith, k, m) in
          let (n, v, (p, (q, w))) =
            set_header-eq-ok (codes "invalid header name: ") (codes "invalid header value: ")
              c.header_name (codes "Bearer " ++ payload.secret) request r set in
          (
            check_metadata-fresh now expires_at payload.oauth oauth a b e f m,
            (n, v, (p, (q, rw w (get-insert_header name n v request.headers)))),
          )
    ]
