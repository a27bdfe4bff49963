-- ===== src/ClientAuth/Keys.antt =====
-- Whether the configuration that is made for a key lets the client with that key in.
use icebreaker.Common.{
  Text, codes, text_eq_refl, strip_prefix, trim, trim_start, trim_end, ◌≡◌, ◌≢◌, refl, Option, none,
  some, [], ◌∷◌, ◌++◌, arith,
}
use icebreaker.Errors.{Result, ok, err, ◌>>=◌, proxy_auth_required}
use icebreaker.Http.{Headers, get_text, lowercase}
use icebreaker.Token.Config.{api_key, ApiKeyConfig}
use icebreaker.Token.Regex.{RegexCrate}
use icebreaker.ClientAuth.{check_credentials, validate_api_key, validate_auth}
use icebreaker.ClientAuth.Credentials.{
  bearer, TlsConnectionInfo, AuthCrates, proxy_authorization, hash_api_key, create_api_key_config,
  create_bearer_api_key_config, parse_trimmed, parse_auth_header, parse_custom_auth_header,
}

-- A text that ends in no white space keeps its end behind any text.
trim_end-append : (s t : Text) → t ≢ [] → trim_end t ≡ t → trim_end (s ++ t) ≡ s ++ t
unfolding trim_end
trim_end-append [] t ne e = e
trim_end-append (c ∷ s) [] ne e = absurd (ne refl)
trim_end-append (c ∷ []) (d ∷ t) ne e = rw e refl
trim_end-append (c ∷ b ∷ s) (d ∷ t) ne e = rw (trim_end-append (b ∷ s) (d ∷ t) ne e) refl

-- The value `Bearer <key>`.
abbrev pub bearer_value : Text → Text
bearer_value key = codes "Bearer " ++ key

-- What is made has the hash of the key.
made_of :
    (h : Result Text) (f : Text → ApiKeyConfig) (config : ApiKeyConfig)
    → (h >>= λ key_hash. ok (f key_hash)) ≡ ok config
    → (key_hash : Text) × (h ≡ ok key_hash) × (f key_hash ≡ config)
made_of (ok key_hash) f config e = (key_hash, refl, ground arith)
made_of (err e') f config e = absurd (ground arith)

module _ (key : Text) (ne : key ≢ []) (starts : trim_start key ≡ key)
    (ends : trim_end key ≡ key) where
  trim-eq : trim key ≡ key
  unfolding trim
  trim-eq = rw (trim, starts) ends

  trim-bearer_value : trim (bearer_value key) ≡ bearer_value key
  unfolding trim trim_start
  trim-bearer_value = trim_end-append (codes "Bearer ") key ne ends

  parse_auth_header-bearer :
      ⦃c : AuthCrates⦄ → parse_auth_header (bearer_value key) ≡ some (bearer key)
  unfolding parse_auth_header parse_trimmed strip_prefix
  parse_auth_header-bearer = rw (trim-bearer_value, parse_trimmed, trim-eq) refl

  module _ ⦃c : AuthCrates⦄ (headers : Headers) (name hmac_key : Text) (config : ApiKeyConfig)
      (named : config.header_name ≡ name)
      (sent : get_text (lowercase name) headers ≡ some (bearer_value key)) where
    check_credentials-sent :
        validate_api_key config headers hmac_key
        ≡ check_credentials config hmac_key (bearer key ∷ [])
    unfolding validate_api_key parse_custom_auth_header
    check_credentials-sent = rw (validate_api_key, named, sent, parse_auth_header-bearer) refl

module _ ⦃c : AuthCrates⦄ ⦃r : RegexCrate⦄ where
  -- A client that sends `Bearer <key>` under the header name that an API key configuration was made
  -- for, with the key that it was made for, is authenticated, if the key is not empty and neither
  -- begins nor ends in white space.
  pub validate_auth-create_api_key_config :
      (header_name key hmac_key : Text) (config : ApiKeyConfig) (headers : Headers)
      (tls_info : Option TlsConnectionInfo)
      → key ≢ []
      → trim_start key ≡ key
      → trim_end key ≡ key
      → create_api_key_config header_name key hmac_key ≡ ok config
      → get_text (lowercase header_name) headers ≡ some (bearer_value key)
      → validate_auth (api_key config) headers tls_info (some hmac_key) ≡ ok tt
  unfolding validate_auth create_api_key_config
  validate_auth-create_api_key_config header_name key hmac_key config headers tls ne a b made sent =
      let (h, e, is) = made_of (hash_api_key key hmac_key) _ config made in
      let named : config.header_name ≡ header_name = rw (← is) refl in
      rw (check_credentials-sent key ne a b headers header_name hmac_key config named sent, ← is)
        (rw (e, text_eq_refl h) refl)

  -- A client that sends `Bearer <key>` with the key that a Bearer configuration was made for is
  -- refused as having an invalid key, if the key is not empty, neither begins nor ends in white
  -- space, and does not itself begin with `Bearer `.
  pub validate_auth-create_bearer_api_key_config :
      (key hmac_key : Text) (config : ApiKeyConfig) (headers : Headers)
      (tls_info : Option TlsConnectionInfo)
      → key ≢ []
      → trim_start key ≡ key
      → trim_end key ≡ key
      → strip_prefix (codes "Bearer ") key ≡ none
      → create_bearer_api_key_config key hmac_key ≡ ok config
      → get_text (lowercase proxy_authorization) headers ≡ some (bearer_value key)
      → validate_auth (api_key config) headers tls_info (some hmac_key)
        ≡ err (proxy_auth_required (codes "invalid API key"))
  unfolding validate_auth create_bearer_api_key_config
  validate_auth-create_bearer_api_key_config key hmac_key config headers tls ne a b bare made sent =
      let (h, e, is) = made_of (hash_api_key key hmac_key) _ config made in
      let named : config.header_name ≡ proxy_authorization = rw (← is) refl in
      rw
        (
          check_credentials-sent key ne a b headers proxy_authorization hmac_key config named sent,
          ← is,
        )
        (rw bare refl)
