-- ===== src/Tunnel/Tests.antt =====
-- Runs of CONNECT requests, and the theorem about them at a concrete input.
use icebreaker.Common.{Text, codes, text_eq, empty, ◌≡◌, ◌⊎◌, refl, true, none, some, [], ◌∷◌}
use icebreaker.Errors.{ok, err, host_not_allowed, token_replay_detected}
use icebreaker.Http.{visible, get}
use icebreaker.Http.Request.{Request}
use icebreaker.Nonce.{Entries, in_memory_store, check_and_record, check_existing, check_new}
use icebreaker.Token.Config.{inject, no_auth}
use icebreaker.Token.Payload.{TokenPayload, ReplayProtection}
use icebreaker.Token.Regex.{RegexCrate, built, compile_anchored_regex, anchor_pattern}
use icebreaker.Token.Authority.{
  split_host_port, split_bracketed, split_plain, parse_u16, parse_digits,
}
use icebreaker.Token.Allowlist.{
  validate_host, to_ascii_lowercase, eq_ignore_ascii_case, entry_matches, pattern_matches,
}
use icebreaker.Token.Expiration.{check_expiration}
use icebreaker.HostPolicy as HostPolicy
use icebreaker.Admission.{
  Clock, ErrorDisplay, ttl_from_expiry, on_check, check_with_ttl, check_store, check_replay,
}
use icebreaker.Admission.Pipeline.{Backend, decrypt}
use icebreaker.Tunnel.{
  AuthorityParts, ConnectHandler, connect_token, has_token, connect_status,
  connect_target_with_policy, validate_opened, validate_connect, on_validated, connect_target,
}
use icebreaker.Tunnel.Laws.{Tokened, Tokenless, connect_target-ok}

abbrev single_use : ReplayProtection
single_use = record { nonce = codes "n"; max_uses = some 1; nonce_ttl_seconds = none }

abbrev payload : TokenPayload
payload = record {
  secret = codes "sk-1";
  processor = inject (record { header_name = codes "authorization"; prefix = none; suffix = none });
  auth = no_auth;
  allowed_hosts = codes "a.b:8443" ∷ [];
  allowed_host_pattern = none;
  upstream_scheme = none;
  expires_at = some 100;
  metadata = none;
  oauth = none;
  allowed_methods = [];
  allowed_paths = [];
  allowed_path_pattern = none;
  replay_protection = some single_use;
}

-- Stand-ins for the crates, and a backend whose one token is `payload`.
instance abbrev literal_regex : RegexCrate
literal_regex = record {
  Regex = Text;
  build = λ p limit. built p;
  is_match = λ p s. text_eq p (anchor_pattern s);
}

instance abbrev one_target : AuthorityParts
one_target = record { host_of = λ s. codes "a.b"; port_u16 = λ s. some 8_443 }

instance abbrev no_text : ErrorDisplay
no_text = record { display = λ e. [] }

instance abbrev one_token : Backend
one_token = record {
  from_header = λ header. ok (record { version = 1; key_id = []; ciphertext = header });
  unseal = λ unix sealed. ok payload;
  api_key_hmac_key = λ key_id. none;
  validate_auth = λ auth request key. ok tt;
  process = λ config request p. ok request;
  generate_scan_patterns = λ secret. secret ∷ [];
  fault_text = λ fault. [];
}

abbrev handler : ConnectHandler Entries
handler = record {
  clock_skew = record { tolerance_seconds = 30; max_future_seconds = none };
  nonce_store = some in_memory_store;
  token_optional = true;
  host_policy = HostPolicy.new;
}

abbrev connect_to : Text → Request
connect_to authority = record {
  method = codes "CONNECT";
  authority = some authority;
  path = [];
  query = none;
  headers = (codes "proxy-authorization", visible (codes "t")) ∷ [];
  tls_info = none;
  upstream_scheme = none;
  scan_patterns = none;
}

abbrev start : Clock
start = record { instant = 0; unix = 1 }

tunnel : Unit {0}
unfolding text_eq get check_and_record check_existing check_new in_memory_store
    compile_anchored_regex anchor_pattern split_host_port split_bracketed split_plain parse_u16
    parse_digits validate_host to_ascii_lowercase eq_ignore_ascii_case entry_matches pattern_matches
    check_expiration HostPolicy.new HostPolicy.validate HostPolicy.host_set_matches
    HostPolicy.host_entry_matches ttl_from_expiry on_check check_with_ttl check_store check_replay
    decrypt connect_token has_token connect_status connect_target_with_policy validate_opened
    validate_connect on_validated connect_target
tunnel = tt

tunnel_tests :
    ((connect_target handler start (connect_to (codes "a.b:8443")) empty).0
      ≡ ok (codes "a.b", 8_443))
    × ((connect_target handler start (connect_to (codes "a.b")) empty).0
        ≡ err (host_not_allowed (codes "a.b")))
    × ((connect_target handler start
          (connect_to (codes "a.b:8443"))
          (connect_target handler start (connect_to (codes "a.b:8443")) empty).1).0
        ≡ err (token_replay_detected 1 1))
unfolding tunnel
tunnel_tests = (refl, refl, refl)

connect_target-ok_example :
    Tokened handler start (connect_to (codes "a.b:8443")) empty (codes "a.b", 8_443)
    ⊎ Tokenless handler (connect_to (codes "a.b:8443")) (codes "a.b", 8_443)
unfolding tunnel
connect_target-ok_example =
    connect_target-ok handler start (connect_to (codes "a.b:8443")) empty (codes "a.b", 8_443) refl
