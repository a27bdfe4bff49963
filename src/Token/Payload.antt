-- ===== src/Token/Payload.antt =====
-- The types of crates/icebreaker-common/src/token.rs, and the checks of the builder. The cached
-- regexes of a payload hold what compiling its patterns gives, and are not fields of the model.
use icebreaker.Common.{Text, ℕ, Option, List, is_some, is_none, ◌&&◌, if◌then◌else◌}
use icebreaker.Errors.{Result, ok, err, replay_protection_requires_expiry}
use icebreaker.Token.Config.{ProcessorConfig, AuthConfig}

pub data UpstreamScheme : Type 0 where
  http https : UpstreamScheme

unfoldable pub default_port : UpstreamScheme → ℕ
default_port http = 80
default_port https = 443

pub record SealedToken : Type 0 where
  pub version : ℕ
  pub key_id : Text
  pub ciphertext : Text

pub record TokenMetadata : Type 0 where
  pub token_id : Text
  pub org_id : Option Text
  pub user_id : Option Text
  pub name : Option Text
  pub tags : List Text

pub record OAuthMetadata : Type 0 where
  pub provider_id : Text
  pub refresh_token : Option Text
  pub token_type : Text
  pub scopes : List Text
  pub access_token_expires_at : Option ℕ

pub record ReplayProtection : Type 0 where
  pub nonce : Text
  pub max_uses : Option ℕ
  pub nonce_ttl_seconds : Option ℕ

pub record TokenPayload : Type 0 where
  pub secret : Text
  pub processor : ProcessorConfig
  pub auth : AuthConfig
  pub allowed_hosts : List Text
  pub allowed_host_pattern : Option Text
  pub upstream_scheme : Option UpstreamScheme
  pub expires_at : Option ℕ
  pub metadata : Option TokenMetadata
  pub oauth : Option OAuthMetadata
  pub allowed_methods : List Text
  pub allowed_paths : List Text
  pub allowed_path_pattern : Option Text
  pub replay_protection : Option ReplayProtection

-- `TokenPayloadBuilder::build`; the builder's fields are those of the payload.
unfoldable pub build : TokenPayload → Result TokenPayload
build b =
    if is_some b.replay_protection && is_none b.expires_at
    then err replay_protection_requires_expiry
    else ok b
