-- ===== src/ClientAuth/Laws.antt =====
-- Which requests pass client authentication.
use icebreaker.Common.{
  Text, text_eq, text_eq_iff, ◌≡◌, ◌↔◌, ◌⊎◌, refl, sym, ◌∙◌, true, Option, none, some, arith,
  Option-cases, Bool-cases, inl, inr,
}
use mathlib.Core.Bool.{false≢true}
use icebreaker.Errors.{Result, ok, err}
use icebreaker.Http.{Headers, get_text, lowercase}
use icebreaker.Token.Config.{
  AuthConfig, no_auth, api_key, mutual_tls, ApiKeyConfig, MutualTlsConfig,
}
use icebreaker.Token.Regex.{RegexCrate, Build, built, refused, or_config_error, pattern_size_limit}
use icebreaker.ClientAuth.{
  strip_configured, secret_of, username_of, extract_key_from_credential, matches_hash,
  check_extracted, with_username, check_username, check_credential, check_credentials,
  validate_api_key, check_subject, check_certificate, validate_mtls, validate_auth,
}
use icebreaker.ClientAuth.Credentials.{
  ProxyCredential, TlsConnectionInfo, AuthCrates, hash_api_key, parse_auth_header,
  parse_custom_auth_header, credentials_of, singleton,
}

module _ ⦃c : AuthCrates⦄ where
  -- The credential has the configured prefix, its rest has the configured hash, and its username
  -- too, if one is configured.
  abbrev pub UsernameHashes : Option Text → Option Text → Text → Type 0
  UsernameHashes none username hmac_key = Unit
  UsernameHashes (some expected) none hmac_key = ⊥
  UsernameHashes (some expected) (some username) hmac_key =
      hash_api_key username hmac_key ≡ ok expected

  abbrev pub Grants : ApiKeyConfig → Text → ProxyCredential → Type 0
  Grants config hmac_key cred =
      ((key : Text) × (strip_configured config.prefix (secret_of cred) ≡ some key)
        × (hash_api_key key hmac_key ≡ ok config.key_hash))
      × UsernameHashes config.username_hash (username_of cred) hmac_key

  matches_hash_iff :
      (r : Result Text) (expected : Text) → (matches_hash r expected ≡ true) ↔ (r ≡ ok expected)
  matches_hash_iff (ok provided) expected = ground (arith, text_eq_iff provided expected)
  matches_hash_iff (err e) expected = ground arith

  check_username_iff :
      (expected username : Option Text) (hmac_key : Text)
      → (check_username expected username hmac_key ≡ true)
        ↔ UsernameHashes expected username hmac_key
  check_username_iff none username hmac_key = ground arith
  check_username_iff (some expected) none hmac_key = ((λ e. cc), λ e. absurd e)
  check_username_iff (some expected) (some username) hmac_key =
      matches_hash_iff (hash_api_key username hmac_key) expected

  check_extracted_iff :
      (config : ApiKeyConfig) (hmac_key : Text) (username key' : Option Text)
      → (check_extracted config.key_hash config.username_hash hmac_key (with_username username key')
          ≡ true)
        ↔ (((key : Text) × (key' ≡ some key) × (hash_api_key key hmac_key ≡ ok config.key_hash))
            × UsernameHashes config.username_hash username hmac_key)
  check_extracted_iff config hmac_key username none =
      ((λ e. cc), λ ((key, e, _), _). absurd (ground arith))
  check_extracted_iff config hmac_key username (some key) =
      let (hashed, hashes) = matches_hash_iff (hash_api_key key hmac_key) config.key_hash in
      let (named, names) = check_username_iff config.username_hash username hmac_key in
      elim (Bool-cases (matches_hash (hash_api_key key hmac_key) config.key_hash)) [
        | inr no' ↦ rw no' (
          λ e. absurd (ground arith),
          λ ((key'', e, h), _).
              let same : key ≡ key'' = ground arith in
              let h' : hash_api_key key hmac_key ≡ ok config.key_hash = rw same h in
              absurd (false≢true (sym no' ∙ hashes h')),
        )
        | inl yes' ↦ rw yes' (λ e. ((key, refl, hashed yes'), named e), λ (_, n). names n)
      ]

  check_credential_iff :
      (config : ApiKeyConfig) (hmac_key : Text) (cred : ProxyCredential)
      → (check_credential cred config.prefix config.key_hash config.username_hash hmac_key ≡ true)
        ↔ Grants config hmac_key cred
  unfolding check_credential extract_key_from_credential
  check_credential_iff config hmac_key cred =
      check_extracted_iff config hmac_key (username_of cred)
        (strip_configured config.prefix (secret_of cred))

  check_credentials_iff :
      (config : ApiKeyConfig) (hmac_key : Text) (cred' : Option ProxyCredential)
      → (check_credentials config hmac_key (singleton cred') ≡ ok tt)
        ↔ ((cred : ProxyCredential) × (cred' ≡ some cred) × Grants config hmac_key cred)
  unfolding check_credentials
  check_credentials_iff config hmac_key none =
      (λ e. absurd (ground arith), λ (_, e, _). absurd (ground arith))
  check_credentials_iff config hmac_key (some cred) =
      let (grants, checked) = check_credential_iff config hmac_key cred in
      (
        λ e. (cred, refl, grants (ground arith)),
        λ (cred', e, g).
            let same : cred ≡ cred' = ground arith in
            let passes = checked (rw same g) in ground arith,
      )

  credentials_iff :
      (config : ApiKeyConfig) (hmac_key : Text) (value' : Option Text)
      → (check_credentials config hmac_key (credentials_of value') ≡ ok tt) ↔ (
          (value : Text) × (cred : ProxyCredential) × (value' ≡ some value)
          × (parse_auth_header value ≡ some cred)
          × Grants config hmac_key cred)
  credentials_iff config hmac_key none =
      let (fwd, back) = check_credentials_iff config hmac_key none in
      (λ e. absurd (ground (arith, fwd e)), λ (_, _, e, _, _). absurd (ground arith))
  credentials_iff config hmac_key (some value) =
      let (fwd, back) = check_credentials_iff config hmac_key (parse_auth_header value) in
      (
        λ e. let (cred, q, g) = fwd e in (value, cred, refl, q, g),
        λ (v, cred, e, q, g). let same : value ≡ v = ground arith in back (cred, rw same q, g),
      )

  validate_api_key_iff :
      (config : ApiKeyConfig) (headers : Headers) (hmac_key : Text)
      → (validate_api_key config headers hmac_key ≡ ok tt) ↔ (
          (value : Text) × (cred : ProxyCredential) × (get_text
              (lowercase config.header_name)
              headers
            ≡ some value)
          × (parse_auth_header value ≡ some cred)
          × Grants config hmac_key cred)
  unfolding validate_api_key parse_custom_auth_header
  validate_api_key_iff config headers hmac_key =
      credentials_iff config hmac_key (get_text (lowercase config.header_name) headers)

Build-cases :
    {R : Type 0} (b : Build R)
    → ((re : R) × (b ≡ built re)) ⊎ ((message : Text) × (b ≡ refused message))
Build-cases (built re) = inl (re, refl)
Build-cases (refused message) = inr (message, refl)

module _ ⦃r : RegexCrate⦄ where
  -- A subject pattern, where one is configured, compiles and matches the subject of the certificate.
  abbrev pub SubjectMatches : Option Text → Option Text → Type 0
  SubjectMatches none subject = Unit
  SubjectMatches (some pattern) none = ⊥
  SubjectMatches (some pattern) (some subject) =
      (re : r.Regex) × (r.build pattern pattern_size_limit ≡ built re)
      × (r.is_match re subject ≡ true)

  abbrev pub CertificateMatches : MutualTlsConfig → Option TlsConnectionInfo → Type 0
  CertificateMatches config none = ⊥
  CertificateMatches config (some tls) =
      (tls.cert_fingerprint ≡ some config.cert_fingerprint)
      × SubjectMatches config.subject_pattern tls.subject_dn

  built_iff :
      (what : Text) (re' : Build r.Regex) (re : r.Regex)
      → (or_config_error what re' ≡ ok re) ↔ (re' ≡ built re)
  built_iff what (built re') re = ground arith
  built_iff what (refused message) re = ground arith

  check_subject_iff :
      (pattern subject : Option Text)
      → (check_subject pattern subject ≡ ok tt) ↔ SubjectMatches pattern subject
  unfolding check_subject
  check_subject_iff none subject = ground arith
  check_subject_iff (some pattern) none = (λ e. absurd (ground arith), λ e. absurd e)
  check_subject_iff (some pattern) (some subject) =
      elim (Build-cases (r.build pattern pattern_size_limit)) [
        | inl (re, e) ↦ rw e (
          λ p. (re, refl, ground arith),
          λ (re', q, p).
              let same : re ≡ re' = ground arith in
              let p' : r.is_match re subject ≡ true = rw same p in rw p' refl,
        )
        | inr (message, e) ↦ rw e (λ p. absurd (ground arith), λ (_, q, _). absurd (ground arith))
      ]

  validate_mtls_iff :
      (config : MutualTlsConfig) (tls_info : Option TlsConnectionInfo)
      → (validate_mtls config tls_info ≡ ok tt) ↔ CertificateMatches config tls_info
  unfolding validate_mtls check_certificate
  validate_mtls_iff config none = (λ e. absurd (ground arith), λ e. absurd e)
  validate_mtls_iff config (some tls) =
      let (subject, checked) = check_subject_iff config.subject_pattern tls.subject_dn in
      elim (Option-cases tls.cert_fingerprint) [
        | inl none' ↦
            rw (check_certificate, none')
              (λ e. absurd (ground arith), λ (e, _). absurd (ground arith))
        | inr (fingerprint, p) ↦
            let (same, equal) = text_eq_iff fingerprint config.cert_fingerprint in
            elim (Bool-cases (text_eq fingerprint config.cert_fingerprint)) [
              | inl yes' ↦
                  rw (check_certificate, p, yes')
                    (λ e. (rw (same yes') refl, subject e), λ (_, s). checked s)
              | inr no' ↦
                  rw (check_certificate, p, no')
                    (
                      λ e. absurd (ground arith),
                      λ (e, _).
                          let eq : fingerprint ≡ config.cert_fingerprint = ground arith in
                          absurd (false≢true (sym no' ∙ equal eq)),
                    )
            ]
      ]

  -- What each way of authentication asks for.
  abbrev pub Authentic :
      ⦃c : AuthCrates⦄ → AuthConfig → Headers → Option TlsConnectionInfo → Option Text → Type 0
  Authentic no_auth headers tls_info hmac_key' = Unit
  Authentic (api_key config) headers tls_info hmac_key' =
      (hmac_key : Text) × (hmac_key' ≡ some hmac_key)
      × ((value : Text) × (cred : ProxyCredential) × (get_text (lowercase config.header_name)
              headers
            ≡ some value)
          × (parse_auth_header value ≡ some cred)
          × Grants config hmac_key cred)
  Authentic (mutual_tls config) headers tls_info hmac_key' = CertificateMatches config tls_info

  -- A request is authenticated exactly if its token asks for no authentication; or for an API key,
  -- and the named header holds a credential whose key, less the configured prefix, and whose
  -- username, if one is configured, have the configured HMACs; or for a client certificate, and
  -- its fingerprint is the configured one and its subject matches the configured pattern, if any.
  pub validate_auth_iff :
      ⦃c : AuthCrates⦄ (config : AuthConfig) (headers : Headers)
      (tls_info : Option TlsConnectionInfo) (hmac_key : Option Text)
      → (validate_auth config headers tls_info hmac_key ≡ ok tt)
        ↔ Authentic config headers tls_info hmac_key
  unfolding validate_auth
  validate_auth_iff no_auth headers tls_info hmac_key = ground arith
  validate_auth_iff (api_key config) headers tls_info none =
      (λ e. absurd (ground arith), λ (_, e, _). absurd (ground arith))
  validate_auth_iff (api_key config) headers tls_info (some hmac_key) =
      let (fwd, back) = validate_api_key_iff config headers hmac_key in
      (
        λ e. (hmac_key, refl, fwd e),
        λ (k, e, w). let same : hmac_key ≡ k = ground arith in back (rw same w),
      )
  validate_auth_iff (mutual_tls config) headers tls_info hmac_key =
      validate_mtls_iff config tls_info
