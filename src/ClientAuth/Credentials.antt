-- ===== src/ClientAuth/Credentials.antt =====
-- The credentials of crates/icebreaker-crypto/src/auth_validation.rs: their hashes, the configurations
-- made for them, and their parsing. Header values are ASCII.
use icebreaker.Common.{
  Text, codes, strip_prefix, split_first, trim, from_utf8, is_empty, Option, none, some, List, [],
  ◌∷◌, ◌++◌, if◌then◌else◌,
}
use icebreaker.Errors.{Result, ok, err, Outcome, fine, refused, ◌>>=◌, crypto_error}
use icebreaker.Http.{Headers, get_text, lowercase}
use icebreaker.Network.Address.{StdText}
use icebreaker.Network.Connector.{SocketAddr}
use icebreaker.Token.Config.{ApiKeyConfig, HmacAlgorithm, sha256}

pub data ProxyCredential : Type 0 where
  bearer : (token : Text) → ProxyCredential
  basic : (username password : Text) → ProxyCredential

pub record TlsConnectionInfo : Type 0 where
  pub cert_fingerprint : Option Text
  pub subject_dn : Option Text

pub record ConnectionInfo : Type 0 where
  pub remote_addr : SocketAddr
  pub tls_info : Option TlsConnectionInfo

-- The crates `hmac`, `hkdf`, `hex` and `base64`.
pub record AuthCrates : Type 0 where
  pub mac : HmacAlgorithm → Text → Text → Outcome Text
  pub hkdf_sha256 : (salt input info : Text) → Option Text
  pub hex_encode : Text → Text
  pub base64_decode : Text → Outcome Text

abbrev pub proxy_authorization : Text
proxy_authorization = codes "Proxy-Authorization"

abbrev fingerprint_of : Option TlsConnectionInfo → Option Text
fingerprint_of none = none
fingerprint_of (some tls) = tls.cert_fingerprint

-- `ConnectionInfo::rate_limit_key`
unfoldable pub rate_limit_key : ⦃s : StdText⦄ → ConnectionInfo → Text
rate_limit_key ⦃s⦄ info = elim (fingerprint_of info.tls_info) [
  | some fingerprint ↦ fingerprint
  | none ↦ s.ip_to_string info.remote_addr.ip
]

-- `DEFAULT_HKDF_SALT` of crates/icebreaker-crypto/src/hkdf.rs
abbrev pub default_hkdf_salt : Text
default_hkdf_salt = codes "icebreaker-v1"

abbrev pub salt_or_default : Option Text → Text
salt_or_default none = default_hkdf_salt
salt_or_default (some salt) = salt

abbrev pub singleton : Option ProxyCredential → List ProxyCredential
singleton none = []
singleton (some credential) = credential ∷ []

module _ ⦃c : AuthCrates⦄ where
  unfoldable pub derive_api_key_hmac_key : Text → Option Text → Result Text
  derive_api_key_hmac_key public_key salt =
      elim (c.hkdf_sha256 (salt_or_default salt) public_key (codes "icebreaker-v1-api-key-auth")) [
        | some key ↦ ok key
        | none ↦ err (crypto_error (codes "HKDF expansion failed"))
      ]

  -- `compute_signature` of crates/icebreaker-crypto/src/hmac.rs
  unfoldable pub compute_signature : Text → Text → HmacAlgorithm → Result Text
  compute_signature key message algorithm = elim (c.mac algorithm key message) [
    | fine signature ↦ ok signature
    | refused reason ↦ err (crypto_error (codes "HMAC key error: " ++ reason))
  ]

  unfoldable pub hash_api_key : Text → Text → Result Text
  unfolding compute_signature
  hash_api_key key hmac_key = do
    signature ← compute_signature hmac_key key sha256
    ok (c.hex_encode signature)

  unfoldable pub create_api_key_config : Text → Text → Text → Result ApiKeyConfig
  unfolding hash_api_key
  create_api_key_config header_name key hmac_key = do
    key_hash ← hash_api_key key hmac_key
    ok (record {
      header_name = header_name;
      prefix = none;
      key_hash = key_hash;
      username_hash = none;
    })

  unfoldable pub create_bearer_api_key_config : Text → Text → Result ApiKeyConfig
  unfolding hash_api_key
  create_bearer_api_key_config key hmac_key = do
    key_hash ← hash_api_key key hmac_key
    ok (record {
      header_name = proxy_authorization;
      prefix = some (codes "Bearer ");
      key_hash = key_hash;
      username_hash = none;
    })

  unfoldable pub create_basic_auth_config : Text → Text → Text → Result ApiKeyConfig
  unfolding hash_api_key
  create_basic_auth_config username password hmac_key = do
    key_hash ← hash_api_key password hmac_key
    username_hash ← hash_api_key username hmac_key
    ok (record {
      header_name = proxy_authorization;
      prefix = none;
      key_hash = key_hash;
      username_hash = some username_hash;
    })

  -- The credential of the `Basic` scheme, if its value decodes to one.
  unfoldable pub parse_basic : Text → Option ProxyCredential
  unfolding from_utf8
  parse_basic encoded = elim (c.base64_decode (trim encoded)) [
    | refused reason ↦ none
    | fine decoded ↦ elim (from_utf8 decoded) [
      | none ↦ none
      | some s ↦ elim (split_first b':' s) [
        | none ↦ none
        | some (username, password) ↦ some (basic username password)
      ]
    ]
  ]

  abbrev raw_credential : Text → Option ProxyCredential
  raw_credential value = if is_empty value then none else some (bearer value)

  abbrev or_raw : Text → Option ProxyCredential → Option ProxyCredential
  or_raw value none = raw_credential value
  or_raw value (some credential) = some credential

  abbrev basic_or_raw : Text → Option Text → Option ProxyCredential
  basic_or_raw value none = raw_credential value
  basic_or_raw value (some encoded) = or_raw value (parse_basic encoded)

  -- `parse_auth_header`, for a value that is trimmed
  unfoldable pub parse_trimmed : Text → Option ProxyCredential
  unfolding parse_basic
  parse_trimmed value = elim (strip_prefix (codes "Bearer ") value) [
    | some token ↦ some (bearer (trim token))
    | none ↦ basic_or_raw value (strip_prefix (codes "Basic ") value)
  ]

  unfoldable pub parse_auth_header : Text → Option ProxyCredential
  unfolding parse_trimmed
  parse_auth_header value = parse_trimmed (trim value)

  abbrev pub credentials_of : Option Text → List ProxyCredential
  credentials_of none = []
  credentials_of (some value) = singleton (parse_auth_header value)

  unfoldable pub parse_custom_auth_header : Headers → Text → List ProxyCredential
  unfolding parse_auth_header
  parse_custom_auth_header headers header_name =
      credentials_of (get_text (lowercase header_name) headers)

  unfoldable pub parse_proxy_authorization : Headers → List ProxyCredential
  unfolding parse_custom_auth_header
  parse_proxy_authorization headers = parse_custom_auth_header headers proxy_authorization
