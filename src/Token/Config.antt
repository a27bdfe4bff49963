-- ===== src/Token/Config.antt =====
-- The configuration types of crates/icebreaker-common/src/processor.rs and auth.rs.
pub mod Laws
use icebreaker.Common.{
  Text, codes, decimal, ℕ, ◌+◌, ◌++◌, Bool, true, false, Option, none, some, List, [], ◌||◌, ltb,
  if◌then◌else◌,
}

pub record InjectConfig : Type 0 where
  pub header_name : Text
  pub prefix : Option Text
  pub suffix : Option Text

abbrev or_empty : Option Text → Text
or_empty none = []
or_empty (some s) = s

-- `InjectConfig::format_value`
unfoldable pub format_value : InjectConfig → Text → Text
format_value c secret = or_empty c.prefix ++ (secret ++ or_empty c.suffix)

pub data HmacAlgorithm : Type 0 where
  sha256 sha512 : HmacAlgorithm

pub record HmacConfig : Type 0 where
  pub signature_header : Text
  pub algorithm : HmacAlgorithm
  pub signed_headers : List Text
  pub timestamp_header : Option Text
  pub sign_body : Bool

pub data OAuthGrantType : Type 0 where
  client_credentials refresh_token : OAuthGrantType

pub record OAuthConfig : Type 0 where
  pub token_url : Text
  pub client_id : Text
  pub client_secret_in_payload : Bool
  pub grant_type : OAuthGrantType
  pub scopes : List Text
  pub header_name : Text

-- `MultiProcessorConfig` is the list of its processors.
mutual
  pub data ProcessorConfig : Type 0 where
    inject : InjectConfig → ProcessorConfig
    inject_hmac : HmacConfig → ProcessorConfig
    oauth : OAuthConfig → ProcessorConfig
    inject_body : (placeholder : Text) → ProcessorConfig
    sigv4 : (access_key : Text) → ProcessorConfig
    multi : Processors → ProcessorConfig

  pub data Processors : Type 0 where
    nil : Processors
    cons : ProcessorConfig → Processors → Processors

unfoldable mutual
  pub is_body_processor : ProcessorConfig → Bool
  is_body_processor (inject c) = false
  is_body_processor (inject_hmac c) = c.sign_body
  is_body_processor (oauth c) = false
  is_body_processor (inject_body placeholder) = true
  is_body_processor (sigv4 access_key) = false
  is_body_processor (multi ps) = any_body_processor ps

  pub any_body_processor : Processors → Bool
  any_body_processor nil = false
  any_body_processor (cons p ps) = is_body_processor p || any_body_processor ps

abbrev pub is_multi : ProcessorConfig → Bool
is_multi (multi ps) = true
is_multi _ = false

-- Why `MultiProcessorConfig::validate` refuses.
pub data ConfigFault : Type 0 where
  no_processors : ConfigFault
  nested_multi : (index : ℕ) → ConfigFault
  many_bodies : (count : ℕ) → ConfigFault

-- The texts of the refusals.
abbrev pub fault_text : ConfigFault → Text
fault_text no_processors = codes "multi-processor config must contain at least one processor"
fault_text (nested_multi index) =
    codes "nested multi-processor at index " ++ (decimal index ++ codes " is not allowed")
fault_text (many_bodies count) = codes "at most one body processor allowed, found " ++ decimal count

-- The loop, with its index and its count; `none` is success.
unfoldable pub validate_from : ℕ → ℕ → Processors → Option ConfigFault
validate_from i bodies nil = if ltb 1 bodies then some (many_bodies bodies) else none
validate_from i bodies (cons p ps) =
    let rest = validate_from (i + 1) (if is_body_processor p then bodies + 1 else bodies) ps in
    if is_multi p then some (nested_multi i) else rest

unfoldable pub validate : Processors → Option ConfigFault
unfolding validate_from
validate nil = some no_processors
validate (cons p ps) = validate_from 0 0 (cons p ps)

pub record ApiKeyConfig : Type 0 where
  pub header_name : Text
  pub prefix : Option Text
  pub key_hash : Text
  pub username_hash : Option Text

pub record MutualTlsConfig : Type 0 where
  pub cert_fingerprint : Text
  pub subject_pattern : Option Text

pub data AuthConfig : Type 0 where
  no_auth : AuthConfig
  api_key : ApiKeyConfig → AuthConfig
  mutual_tls : MutualTlsConfig → AuthConfig
