-- ===== src/ClientAuth/Tests.antt =====
-- Runs of client authentication, and the theorems about it at concrete inputs.
use icebreaker.Common.{
  Text, codes, text_eq, strip_prefix, split_first, trim, trim_start, trim_end, from_utf8, ◌≡◌, ◌↔◌,
  refl, none, some, [], ◌∷◌, ◌++◌,
}
use icebreaker.Errors.{ok, err, fine, proxy_auth_required}
use icebreaker.Http.{Headers, visible, get, get_text}
use icebreaker.Token.Config.{api_key, mutual_tls, ApiKeyConfig}
use icebreaker.Token.Regex.{RegexCrate, built}
use icebreaker.ClientAuth.{
  extract_key_from_credential, check_credential, check_credentials, validate_api_key, check_subject,
  check_certificate, validate_mtls, validate_auth,
}
use icebreaker.ClientAuth.Credentials.{
  basic, TlsConnectionInfo, AuthCrates, proxy_authorization, hash_api_key, compute_signature,
  create_api_key_config, create_bearer_api_key_config, create_basic_auth_config, parse_basic,
  parse_trimmed, parse_auth_header, parse_custom_auth_header,
}
use icebreaker.ClientAuth.Laws.{Authentic, validate_auth_iff}
use icebreaker.ClientAuth.Keys.{
  bearer_value, validate_auth-create_api_key_config, validate_auth-create_bearer_api_key_config,
}

-- Stand-ins for the crates: the MAC is the key behind the message, and the encodings are none.
instance abbrev plain_crates : AuthCrates
plain_crates = record {
  mac = λ algorithm key message. fine (message ++ key);
  hkdf_sha256 = λ salt input info. some input;
  hex_encode = λ s. s;
  base64_decode = λ s. fine s;
}

instance abbrev literal_regex : RegexCrate
literal_regex = record { Regex = Text; build = λ p limit. built p; is_match = λ p s. text_eq p s }

auth : Unit {0}
unfolding text_eq strip_prefix split_first trim trim_start trim_end from_utf8 get get_text
    hash_api_key compute_signature create_api_key_config create_bearer_api_key_config
    create_basic_auth_config parse_basic parse_trimmed parse_auth_header parse_custom_auth_header
    extract_key_from_credential check_credential check_credentials validate_api_key check_subject
    check_certificate validate_mtls validate_auth
auth = tt

abbrev api_config : ApiKeyConfig
api_config = record {
  header_name = codes "X-Key";
  prefix = none;
  key_hash = codes "s3!";
  username_hash = none;
}

abbrev bearer_config : ApiKeyConfig
bearer_config = record {
  header_name = proxy_authorization;
  prefix = some (codes "Bearer ");
  key_hash = codes "s3!";
  username_hash = none;
}

abbrev sent : Text → Headers
sent name = (name, visible (bearer_value (codes "s3"))) ∷ []

abbrev certificate : TlsConnectionInfo
certificate = record { cert_fingerprint = some (codes "f0"); subject_dn = some (codes "CN=a") }

auth_tests :
    (parse_auth_header (codes " Basic u:p:q ") ≡ some (basic (codes "u") (codes "p:q")))
    × (validate_auth (api_key api_config) (sent (codes "x-key")) none (some (codes "!")) ≡ ok tt)
    × (validate_auth (api_key api_config) (sent (codes "x-key")) none (some (codes "?"))
        ≡ err (proxy_auth_required (codes "invalid API key")))
    × (validate_auth
          (mutual_tls
            (record { cert_fingerprint = codes "f0"; subject_pattern = some (codes "CN=a") }))
          []
          (some certificate)
          none
        ≡ ok tt)
unfolding auth
auth_tests = (refl, refl, refl, refl)

validate_auth_iff_example :
    (validate_auth (api_key api_config) (sent (codes "x-key")) none (some (codes "!")) ≡ ok tt)
    ↔ Authentic (api_key api_config) (sent (codes "x-key")) none (some (codes "!"))
validate_auth_iff_example =
    validate_auth_iff (api_key api_config) (sent (codes "x-key")) none (some (codes "!"))

validate_auth-create_api_key_config_example :
    validate_auth (api_key api_config) (sent (codes "x-key")) none (some (codes "!")) ≡ ok tt
unfolding auth
validate_auth-create_api_key_config_example =
    validate_auth-create_api_key_config (codes "X-Key") (codes "s3") (codes "!") api_config
      (sent (codes "x-key")) none (λ e. cc) refl refl refl refl

validate_auth-create_bearer_api_key_config_example :
    validate_auth
      (api_key bearer_config)
      (sent (codes "proxy-authorization"))
      none
      (some (codes "!"))
    ≡ err (proxy_auth_required (codes "invalid API key"))
unfolding auth
validate_auth-create_bearer_api_key_config_example =
    validate_auth-create_bearer_api_key_config (codes "s3") (codes "!") bearer_config
      (sent (codes "proxy-authorization")) none (λ e. cc) refl refl refl refl refl
