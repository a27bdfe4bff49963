-- ===== src/ClientAuth.antt =====
-- crates/icebreaker-crypto/src/auth_validation.rs: whether a client may use a token. Header values
-- are ASCII, and constant-time comparison is comparison. Of a request the headers are used.
pub mod Laws
pub mod Keys
mod Tests
pub mod Credentials
use icebreaker.Common.{
  Text, codes, text_eq, strip_prefix, any, is_empty, ℕ, ◌*◌, Bool, true, false, Option, none, some,
  List, [], ◌∷◌, ◌++◌, if◌then◌else◌,
}
use icebreaker.Errors.{Result, ok, err, ◌>>=◌, ◌>>◌, proxy_auth_required, config_error}
use icebreaker.Http.{Headers}
use icebreaker.Token.Config.{
  AuthConfig, no_auth, api_key, mutual_tls, ApiKeyConfig, MutualTlsConfig,
}
use icebreaker.Token.Regex.{RegexCrate, or_config_error, pattern_size_limit}
use icebreaker.ClientAuth.Credentials.{
  ProxyCredential, TlsConnectionInfo, AuthCrates, hash_api_key, parse_custom_auth_header, bearer,
  basic,
}

-- The key without the configured prefix.
abbrev pub strip_configured : Option Text → Text → Option Text
strip_configured none key = some key
strip_configured (some prefix) key = strip_prefix prefix key

abbrev pub secret_of : ProxyCredential → Text
secret_of (bearer token) = token
secret_of (basic username password) = password

abbrev pub username_of : ProxyCredential → Option Text
username_of (bearer token) = none
username_of (basic username password) = some username

abbrev pub with_username : Option Text → Option Text → Option (Text × Option Text)
with_username username none = none
with_username username (some key) = some (key, username)

-- The key or password, and the username of Basic auth.
unfoldable pub extract_key_from_credential :
    ProxyCredential → Option Text → Option (Text × Option Text)
extract_key_from_credential cred prefix =
    with_username (username_of cred) (strip_configured prefix (secret_of cred))

abbrev pub matches_hash : Result Text → Text → Bool
matches_hash (ok provided) expected = text_eq provided expected
matches_hash (err e) expected = false

module _ ⦃c : AuthCrates⦄ where
  abbrev pub check_username : Option Text → Option Text → Text → Bool
  check_username none username hmac_key = true
  check_username (some expected) none hmac_key = false
  check_username (some expected) (some username) hmac_key =
      matches_hash (hash_api_key username hmac_key) expected

  abbrev pub check_extracted : Text → Option Text → Text → Option (Text × Option Text) → Bool
  check_extracted expected_key_hash expected_username_hash hmac_key none = false
  check_extracted expected_key_hash expected_username_hash hmac_key (some (key, username)) =
      if matches_hash (hash_api_key key hmac_key) expected_key_hash
      then check_username expected_username_hash username hmac_key
      else false

  unfoldable pub check_credential : ProxyCredential → Option Text → Text → Option Text → Text → Bool
  unfolding extract_key_from_credential
  check_credential cred prefix expected_key_hash expected_username_hash hmac_key =
      check_extracted expected_key_hash expected_username_hash hmac_key
        (extract_key_from_credential cred prefix)

  -- The part after the parsing of the header.
  unfoldable pub check_credentials : ApiKeyConfig → Text → List ProxyCredential → Result (Unit {0})
  unfolding check_credential
  check_credentials config hmac_key credentials =
      if is_empty credentials
      then err (proxy_auth_required (codes "missing " ++ (config.header_name ++ codes " header")))
      else if any
          (λ cred.
            check_credential cred config.prefix config.key_hash config.username_hash hmac_key)
          credentials
      then ok tt
      else err (proxy_auth_required (codes "invalid API key"))

  unfoldable pub validate_api_key : ApiKeyConfig → Headers → Text → Result (Unit {0})
  unfolding check_credentials parse_custom_auth_header
  validate_api_key config headers hmac_key =
      check_credentials config hmac_key (parse_custom_auth_header headers config.header_name)

abbrev or_auth_required : Text → Option Text → Result Text
or_auth_required reason none = err (proxy_auth_required reason)
or_auth_required reason (some s) = ok s

module _ ⦃r : RegexCrate⦄ where
  -- The check of the subject's pattern.
  unfoldable pub check_subject : Option Text → Option Text → Result (Unit {0})
  check_subject none subject_dn = ok tt
  check_subject (some pattern) subject_dn = do
    subject ← or_auth_required (codes "client certificate subject DN not available") subject_dn
    re ←
        or_config_error (codes "invalid subject pattern regex: ")
          (r.build pattern pattern_size_limit)
    if r.is_match re subject
        then ok tt
        else err (proxy_auth_required (codes "client certificate subject pattern mismatch"))

  unfoldable pub check_certificate : MutualTlsConfig → TlsConnectionInfo → Result (Unit {0})
  unfolding check_subject
  check_certificate config tls = do
    fingerprint ←
        or_auth_required (codes "client certificate fingerprint not available") tls.cert_fingerprint
    if text_eq fingerprint config.cert_fingerprint
        then check_subject config.subject_pattern tls.subject_dn
        else err (proxy_auth_required (codes "client certificate fingerprint mismatch"))

  unfoldable pub validate_mtls : MutualTlsConfig → Option TlsConnectionInfo → Result (Unit {0})
  unfolding check_certificate
  validate_mtls config none =
      err (proxy_auth_required (codes "mutual TLS required but no client certificate provided"))
  validate_mtls config (some tls) = check_certificate config tls

  unfoldable pub validate_auth :
      ⦃c : AuthCrates⦄
      → AuthConfig
      → Headers
      → Option TlsConnectionInfo
      → Option Text
      → Result (Unit {0})
  unfolding validate_api_key validate_mtls
  validate_auth no_auth headers tls_info api_key_hmac_key = ok tt
  validate_auth (api_key config) headers tls_info none =
      err (config_error (codes "API key HMAC key required for API key authentication"))
  validate_auth (api_key config) headers tls_info (some hmac_key) =
      validate_api_key config headers hmac_key
  validate_auth (mutual_tls config) headers tls_info api_key_hmac_key =
      validate_mtls config tls_info
