-- ===== src/Processors/OAuth.antt =====
-- crates/icebreaker-proxy/src/processor/oauth.rs
pub mod Laws
use icebreaker.Common.{codes, decimal, ℕ, Option, none, some, ◌++◌}
use icebreaker.Errors.{Result, ok, err, ◌>>◌, oauth_refresh_error, invalid_payload}
use icebreaker.Http.{HttpCrate}
use icebreaker.Http.Request.{Request}
use icebreaker.Token.Config.{OAuthConfig}
use icebreaker.Token.Expiration.{
  ClockSkewConfig, default_skew, ExpirationStatus, valid, expired, no_expiration, future_dated,
  check_expiration,
}
use icebreaker.Token.Payload.{TokenPayload, OAuthMetadata}
use icebreaker.Processors.Header.{set_header}

pub record OAuthProcessor : Type 0 where
  pub config : OAuthConfig
  pub clock_skew : ClockSkewConfig

unfoldable pub new : OAuthConfig → OAuthProcessor
new config = record { config = config; clock_skew = default_skew }

-- `OAuthMetadata::check_access_token_expiration`
unfoldable pub check_access_token_expiration :
    OAuthMetadata → ClockSkewConfig → ℕ → ExpirationStatus
unfolding check_expiration
check_access_token_expiration oauth skew now =
    check_expiration skew oauth.access_token_expires_at now

abbrev pub status_result : ExpirationStatus → Result (Unit {0})
status_result expired = err (oauth_refresh_error (codes "access token expired, refresh required"))
status_result (future_dated seconds_ahead) = err (
    invalid_payload (
      codes "access token expiration is "
      ++ (decimal seconds_ahead ++ codes " seconds too far in the future")))
status_result valid = ok tt
status_result no_expiration = ok tt

unfoldable pub check_metadata : Option OAuthMetadata → ClockSkewConfig → ℕ → Result (Unit {0})
unfolding check_access_token_expiration
check_metadata none skew now = ok tt
check_metadata (some oauth) skew now = status_result (check_access_token_expiration oauth skew now)

unfoldable pub process_oauth :
    ⦃h : HttpCrate⦄ → OAuthProcessor → ℕ → Request → TokenPayload → Result Request
unfolding check_metadata set_header
process_oauth p now request payload =
    check_metadata payload.oauth p.clock_skew now
    >> set_header (codes "invalid header name: ") (codes "invalid header value: ")
        p.config.header_name (codes "Bearer " ++ payload.secret) request
