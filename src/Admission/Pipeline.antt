-- ===== src/Admission/Pipeline.antt =====
-- `TokenAdmission::admit` of crates/icebreaker-proxy/src/admission.rs. Metrics and logs are left
-- out.
pub mod Laws
pub mod Charges
use icebreaker.Common.{
  Text, codes, ℕ, Bool, true, false, Option, none, some, List, [], ◌∷◌, ◌++◌, if◌then◌else◌,
}
use icebreaker.Http.{HeaderValue, visible, opaque, get, remove_header}
use icebreaker.Http.Request.{Request}
use icebreaker.Errors.{Result, ok, err, invalid_payload, ◌>>=◌, ◌>>◌}
use icebreaker.Nonce.{NonceStore}
use icebreaker.Token.Config as Config
use icebreaker.Token.Config.{AuthConfig, ProcessorConfig, multi, ConfigFault}
use icebreaker.Token.Payload.{TokenPayload, SealedToken, UpstreamScheme, https}
use icebreaker.Token.Expiration.{ClockSkewConfig}
use icebreaker.Token.Regex.{RegexCrate}
use icebreaker.Token.Allowlist.{validate_host, validate_method, validate_path}
use icebreaker.HostPolicy as HostPolicy
use icebreaker.HostPolicy.{HostValidationConfig}
use icebreaker.Admission.{Clock, ErrorDisplay, check_replay}

-- `TOKEN_HEADER`
abbrev pub token_header : Text
token_header = codes "x-tokenizer-token"

-- What admission calls of the other parts: token parsing and decryption at a Unix time, client
-- authentication, the processors, the scan patterns of a secret, and the text of a refused
-- processor configuration.
pub record Backend : Type 0 where
  pub from_header : Text → Result SealedToken
  pub unseal : ℕ → SealedToken → Result TokenPayload
  pub api_key_hmac_key : Text → Option Text
  pub validate_auth : AuthConfig → Request → Option Text → Result (Unit {0})
  pub process : ProcessorConfig → Request → TokenPayload → Result Request
  pub generate_scan_patterns : Text → List Text
  pub fault_text : ConfigFault → Text

-- The authority of the request, for token-optional mode.
unfoldable pub request_authority : Request → Option Text
unfolding get
request_authority request = elim request.authority [
  | some authority ↦ some authority
  | none ↦ elim (get (codes "host") request.headers) [ some (visible host) ↦ some host | _ ↦ none ]
]

abbrev pub no_host : Text
no_host = codes "request has no host in URI or Host header"

-- The same in `validate_request`, which tells an unreadable header from a missing one.
unfoldable pub target_host : Request → Result Text
unfolding get
target_host request = elim request.authority [
  | some authority ↦ ok authority
  | none ↦ elim (get (codes "host") request.headers) [
    | some (visible host) ↦ ok host
    | some (opaque message) ↦
        err (invalid_payload (codes "Host header is not valid ASCII: " ++ message))
    | none ↦ err (invalid_payload no_host)
  ]
]

-- `unwrap_or_default`
abbrev pub scheme_or_https : Option UpstreamScheme → UpstreamScheme
scheme_or_https none = https
scheme_or_https (some scheme) = scheme

module _ ⦃r : RegexCrate⦄ where
  pub record TokenAdmission (S : Type 0) : Type 0 where
    pub response_scan_enabled : Bool
    pub nonce_store : Option (NonceStore S)
    pub clock_skew : ClockSkewConfig
    pub token_optional : Bool
    pub host_policy : HostValidationConfig

  unfoldable pub admit_token_optional : {S : Type 0} → TokenAdmission S → Request → Result Request
  unfolding request_authority
  admit_token_optional a request =
      if a.token_optional
      then elim (request_authority request) [
        | none ↦ err (invalid_payload no_host)
        | some authority ↦ HostPolicy.validate a.host_policy authority >> ok request
      ]
      else err (invalid_payload (codes "missing token header"))

module _ ⦃b : Backend⦄ where
  unfoldable pub decrypt : ℕ → Text → Result (SealedToken × TokenPayload)
  decrypt unix header = do
    sealed ← b.from_header header
    payload ← b.unseal unix sealed
    ok (sealed, payload)

  -- `validate_processor_config` of processor/mod.rs
  unfoldable pub validate_processor_config : ProcessorConfig → Result (Unit {0})
  validate_processor_config (multi processors) = elim (Config.validate processors) [
    | some fault ↦ err (invalid_payload (b.fault_text fault))
    | none ↦ ok tt
  ]
  validate_processor_config _ = ok tt

module _ ⦃r : RegexCrate⦄ ⦃b : Backend⦄ where
  unfoldable pub validate_request : TokenPayload → SealedToken → Request → Result (Unit {0})
  unfolding target_host
  validate_request payload sealed request =
      b.validate_auth payload.auth request (b.api_key_hmac_key sealed.key_id)
      >> (target_host request >>= λ host.
          validate_host payload host
          >> (validate_method payload request.method >> validate_path payload request.path))

  -- The request without its token, to the scheme of its token.
  abbrev pub prepare : Request → TokenPayload → Request
  prepare request payload = record request {
    headers = remove_header token_header request.headers;
    upstream_scheme = some (scheme_or_https payload.upstream_scheme);
  }

  -- The last step: the patterns of the secret, if responses are scanned.
  abbrev pub with_scan_patterns : Bool → TokenPayload → Request → Request
  with_scan_patterns true payload processed = record processed {
    scan_patterns = some (b.generate_scan_patterns payload.secret);
  }
  with_scan_patterns false payload processed = processed

  unfoldable pub finalize :
      {S : Type 0} → TokenAdmission S → Request → TokenPayload → Result Request
  unfolding remove_header validate_processor_config
  finalize a request payload =
      validate_processor_config payload.processor
      >> (b.process payload.processor (prepare request payload) payload >>= λ processed.
          ok (with_scan_patterns a.response_scan_enabled payload processed))

module _ ⦃r : RegexCrate⦄ ⦃b : Backend⦄ ⦃d : ErrorDisplay⦄ {S : Type 0} where
  -- The part of `admit` after decryption.
  unfoldable pub admit_payload :
      TokenAdmission S → Clock → Request → SealedToken → TokenPayload → S → Result Request × S
  unfolding validate_request finalize
  admit_payload a clock request sealed payload s = elim (validate_request payload sealed request) [
    | err e ↦ (err e, s)
    | ok _ ↦
        let (checked, s') = check_replay a.nonce_store a.clock_skew clock payload s in
        (checked >> finalize a request payload, s')
  ]

  -- The part for a token that was decrypted or refused.
  unfoldable pub admit_decrypted :
      TokenAdmission S
      → Clock
      → Request
      → Result (SealedToken × TokenPayload)
      → S
      → Result Request × S
  unfolding admit_payload
  admit_decrypted a clock request (err e) s = (err e, s)
  admit_decrypted a clock request (ok (sealed, payload)) s =
      admit_payload a clock request sealed payload s

  -- The `match` on the token header.
  unfoldable pub admit_header :
      TokenAdmission S → Clock → Request → Option HeaderValue → S → Result Request × S
  unfolding admit_token_optional decrypt admit_decrypted
  admit_header a clock request none s = (admit_token_optional a request, s)
  admit_header a clock request (some (opaque message)) s =
      (err (invalid_payload (codes "invalid token header: " ++ message)), s)
  admit_header a clock request (some (visible header)) s =
      admit_decrypted a clock request (decrypt clock.unix header) s

  unfoldable pub admit : TokenAdmission S → Clock → Request → S → Result Request × S
  unfolding get admit_header
  admit a clock request s = admit_header a clock request (get token_header request.headers) s
