-- ===== src/Tunnel.antt =====
-- CONNECT requests: `validate_connect` of crates/icebreaker-proxy/src/tunnel/connect_handler.rs, and
-- from crates/icebreaker-proxy/src/serve/connect.rs the choice of the target. The parts that it calls
-- are those of admission. The TLS identity of the connection is the field of the request. Metrics and
-- logs are left out.
pub mod Laws
mod Tests
use icebreaker.Common.{
  Text, codes, decimal, is_some, ℕ, Bool, true, false, ◌||◌, ◌&&◌, not, Option, none, some, ◌++◌,
  if◌then◌else◌,
}
use icebreaker.Errors.{
  Result, ok, err, TokenizerError, ◌>>=◌, ◌>>◌, proxy_auth_required, invalid_payload, token_expired,
}
use icebreaker.Http.{Headers, get, visible_text}
use icebreaker.Http.Request.{Request}
use icebreaker.Nonce.{NonceStore}
use icebreaker.Token.Payload.{TokenPayload, SealedToken}
use icebreaker.Token.Regex.{RegexCrate}
use icebreaker.Token.Allowlist.{validate_host}
use icebreaker.Token.Expiration.{
  ClockSkewConfig, ExpirationStatus, valid, expired, no_expiration, future_dated, check_expiration,
}
use icebreaker.HostPolicy as HostPolicy
use icebreaker.HostPolicy.{HostValidationConfig}
use icebreaker.Admission.{Clock, ErrorDisplay, check_replay}
use icebreaker.Admission.Pipeline.{Backend, token_header, decrypt}

-- The crate `http`: the host and the port in an authority.
pub record AuthorityParts : Type 0 where
  pub host_of : Text → Text
  pub port_u16 : Text → Option ℕ

-- Of `ConnectHandler` and `ConnectDeps` what the choice of the target asks.
pub record ConnectHandler ⦃r : RegexCrate⦄ (S : Type 0) : Type 0 where
  pub clock_skew : ClockSkewConfig
  pub nonce_store : Option (NonceStore S)
  pub token_optional : Bool
  pub host_policy : HostValidationConfig

abbrev pub proxy_authorization_name : Text
proxy_authorization_name = codes "proxy-authorization"

abbrev or_else : {A : Type 0} → Option A → Option A → Option A
or_else none other = other
or_else (some a) other = some a

-- The text of the token header or, if there is none, of the other.
unfoldable pub connect_token : Headers → Option Text
unfolding get
connect_token headers =
    visible_text (or_else (get token_header headers) (get proxy_authorization_name headers))

unfoldable pub has_token : Headers → Bool
unfolding get
has_token headers =
    is_some (get token_header headers) || is_some (get proxy_authorization_name headers)

abbrev pub ok_or : {A : Type 0} → TokenizerError → Option A → Result A
ok_or e none = err e
ok_or e (some a) = ok a

unfoldable pub connect_status : ExpirationStatus → Result (Unit {0})
connect_status valid = ok tt
connect_status no_expiration = ok tt
connect_status expired = err token_expired
connect_status (future_dated seconds_ahead) = err (
    invalid_payload (
      codes "token expiration is "
      ++ (decimal seconds_ahead ++ codes " seconds too far in the future")))

abbrev pub port_or_443 : Option ℕ → ℕ
port_or_443 none = 443
port_or_443 (some port) = port

-- The error of a request without a token, `ProxyAuthRequired`
abbrev pub is_auth_required : TokenizerError → Bool
is_auth_required (proxy_auth_required reason) = true
is_auth_required _ = false

module _ ⦃p : AuthorityParts⦄ where
  abbrev pub no_authority : TokenizerError
  no_authority = invalid_payload (codes "CONNECT request missing authority")

  module _ ⦃r : RegexCrate⦄ where
    unfoldable pub connect_target_with_policy : Request → HostValidationConfig → Result (Text × ℕ)
    connect_target_with_policy request policy = do
      authority ← ok_or no_authority request.authority
      HostPolicy.validate policy authority
          >> ok (p.host_of authority, port_or_443 (p.port_u16 authority))

    module _ ⦃b : Backend⦄ {S : Type 0} where
      -- The part after decryption.
      unfoldable pub validate_opened :
          ConnectHandler S
          → ℕ
          → Request
          → SealedToken
          → TokenPayload
          → Result (TokenPayload × (Text × ℕ))
      unfolding check_expiration connect_status validate_host
      validate_opened h unix request sealed payload = do
        _ ← b.validate_auth payload.auth request (b.api_key_hmac_key sealed.key_id)
        _ ← connect_status (check_expiration h.clock_skew payload.expires_at unix)
        authority ← ok_or no_authority request.authority
        _ ← validate_host payload authority
        ok (payload, (p.host_of authority, port_or_443 (p.port_u16 authority)))

      unfoldable pub validate_connect :
          ConnectHandler S → ℕ → Request → Result (TokenPayload × (Text × ℕ))
      unfolding connect_token decrypt validate_opened
      validate_connect h unix request = do
        header ←
            ok_or (proxy_auth_required (codes "missing token header for CONNECT"))
              (connect_token request.headers)
        (sealed, payload) ← decrypt unix header
        validate_opened h unix request sealed payload

      module _ ⦃d : ErrorDisplay⦄ where
        -- The `match` on the validated token.
        unfoldable pub on_validated :
            ConnectHandler S
            → Clock
            → Request
            → Result (TokenPayload × (Text × ℕ))
            → S
            → Result (Text × ℕ) × S
        unfolding check_replay has_token connect_target_with_policy
        on_validated h clock request (ok (payload, (host, port))) s =
            let (checked, s') = check_replay h.nonce_store h.clock_skew clock payload s in
            (checked >> ok (host, port), s')
        on_validated h clock request (err e) s =
            if is_auth_required e && (h.token_optional && not (has_token request.headers))
            then (connect_target_with_policy request h.host_policy, s)
            else (err e, s)

        -- The target of `handle_connect`, for a request within the rate limit.
        unfoldable pub connect_target :
            ConnectHandler S → Clock → Request → S → Result (Text × ℕ) × S
        unfolding validate_connect on_validated
        connect_target h clock request s =
            on_validated h clock request (validate_connect h clock.unix request) s
