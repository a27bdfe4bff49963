-- ===== src/Admission/Tests.antt =====
-- Runs of admission, and the theorems about it at concrete inputs.
use icebreaker.Common.{
  Text, codes, text_eq, empty, ℕ, ◌*◌, ◌≤◌, ◌≡◌, ◌≢◌, ◌↔◌, refl, sym, ap, true, Option, none, some,
  List, [], ◌∷◌, arith,
}
use icebreaker.Errors.{ok, err, token_replay_detected, path_not_allowed}
use icebreaker.Nonce.{
  Entries, in_memory_store, check_and_record, check_existing, check_new, cleanup,
}
use icebreaker.Token.Config.{inject, no_auth}
use icebreaker.Token.Payload.{TokenPayload, SealedToken, ReplayProtection, https}
use icebreaker.Token.Regex.{RegexCrate, built, compile_anchored_regex, anchor_pattern}
use icebreaker.Token.Authority.{
  split_host_port, split_bracketed, split_plain, parse_u16, parse_digits,
}
use icebreaker.Token.Allowlist.{
  validate_host, validate_method, validate_path, to_ascii_lowercase, eq_ignore_ascii_case,
  entry_matches, pattern_matches,
}
use icebreaker.Token.Expiration.{ClockSkewConfig}
use icebreaker.HostPolicy as HostPolicy
use icebreaker.Admission.{
  Clock, ErrorDisplay, second, ttl_from_expiry, on_check, check_with_ttl, check_store, check_replay,
}
use icebreaker.Admission.Trace.{Event, present, clean, Limited, passed, passes, after, answer_to}
use icebreaker.Admission.Replay.{passed-le}
use icebreaker.Http.{visible, get, remove_header}
use icebreaker.Http.Request.{Request}
use icebreaker.Admission.Pipeline.{
  Backend, TokenAdmission, admit, admit_header, admit_decrypted, admit_payload,
  admit_token_optional, decrypt, validate_request, finalize, validate_processor_config, target_host,
  request_authority, token_header,
}
use icebreaker.Admission.Pipeline.Laws.{Fits, admit-eq-ok_iff, admit-token_optional}
use icebreaker.Admission.Pipeline.Charges.{Charged, admit_charges}

abbrev skew : ClockSkewConfig
skew = record { tolerance_seconds = 30; max_future_seconds = none }

abbrev single_use : ReplayProtection
single_use = record { nonce = codes "n"; max_uses = some 1; nonce_ttl_seconds = none }

abbrev payload : TokenPayload
payload = record {
  secret = codes "sk-1";
  processor = inject (record { header_name = codes "authorization"; prefix = none; suffix = none });
  auth = no_auth;
  allowed_hosts = codes "a.b" ∷ [];
  allowed_host_pattern = none;
  upstream_scheme = none;
  expires_at = some 100;
  metadata = none;
  oauth = none;
  allowed_methods = [];
  allowed_paths = codes "/v1" ∷ [];
  allowed_path_pattern = none;
  replay_protection = some single_use;
}

instance abbrev no_text : ErrorDisplay
no_text = record { display = λ e. [] }

-- The token is presented twice, its entry cleaned up after the deadline, and presented again.
abbrev replayed : List (ℕ × Event)
replayed =
    (5, present payload)
    ∷ (6 * second, present payload)
    ∷ (200 * second, clean)
    ∷ (201 * second, present payload)
    ∷ []

admission : Unit {0}
unfolding split_host_port split_bracketed split_plain parse_u16 parse_digits validate_host
    validate_method validate_path to_ascii_lowercase eq_ignore_ascii_case entry_matches
    pattern_matches compile_anchored_regex anchor_pattern text_eq check_and_record check_existing
    check_new cleanup in_memory_store ttl_from_expiry on_check check_with_ttl check_store
    check_replay admit admit_header admit_decrypted admit_payload admit_token_optional decrypt
    validate_request finalize validate_processor_config target_host request_authority get
    remove_header passed passes after answer_to HostPolicy.new HostPolicy.validate
    HostPolicy.host_set_matches HostPolicy.host_entry_matches
admission = tt

replay_tests : passed skew 7 (codes "n") replayed empty ≡ 1
unfolding admission
replay_tests = refl

abbrev protection_of : Option ReplayProtection → ReplayProtection
protection_of none = single_use
protection_of (some replay) = replay

payload-Limited : (t : ℕ) → Limited (codes "n") 1 100 (t, present payload)
payload-Limited t replay e named =
    let same : single_use ≡ replay = ap protection_of e in
    (
      sym (ap (λ (p : ReplayProtection). p.max_uses) same),
      sym (ap (λ (p : ReplayProtection). p.nonce_ttl_seconds) same),
      refl,
    )

passed-le_example : passed skew 7 (codes "n") replayed empty ≤ 1
passed-le_example =
    passed-le skew 7 (codes "n") 1 100 (omega arith) (omega arith) 0 replayed empty (omega arith)
      refl (omega arith, (omega arith, (omega arith, (omega arith, tt))))
      (
        payload-Limited 5,
        (payload-Limited (6 * second), (tt, (payload-Limited (201 * second), tt))),
      )

-- A stand-in for the crate: a "regex" is its anchored text and matches what stands in its group.
instance abbrev literal_regex : RegexCrate
literal_regex = record {
  Regex = Text;
  build = λ p limit. built p;
  is_match = λ p s. text_eq p (anchor_pattern s);
}

-- A backend whose one token is `payload`, and whose processors change nothing.
instance abbrev one_token : Backend
one_token = record {
  from_header = λ header. ok (record { version = 1; key_id = []; ciphertext = header });
  unseal = λ unix sealed. ok payload;
  api_key_hmac_key = λ key_id. none;
  validate_auth = λ auth request key. ok tt;
  process = λ config request p. ok request;
  generate_scan_patterns = λ secret. secret ∷ [];
  fault_text = λ fault. [];
}

abbrev sealed_token : SealedToken
sealed_token = record { version = 1; key_id = []; ciphertext = codes "t" }

abbrev proxy : TokenAdmission Entries
proxy = record {
  response_scan_enabled = true;
  nonce_store = some in_memory_store;
  clock_skew = skew;
  token_optional = true;
  host_policy = HostPolicy.new;
}

abbrev request_to : Text → Request
request_to path = record {
  method = codes "GET";
  authority = some (codes "a.b:443");
  path = path;
  query = none;
  headers = (token_header, visible (codes "t")) ∷ [];
  tls_info = none;
  upstream_scheme = none;
  scan_patterns = none;
}

abbrev bare : Request
bare = record (request_to []) { headers = [] }

abbrev start : Clock
start = record { instant = 0; unix = 1 }

abbrev forwarded : Request
forwarded = record (request_to (codes "/v1")) {
  headers = [];
  upstream_scheme = some https;
  scan_patterns = some (codes "sk-1" ∷ []);
}

admit_tests :
    ((admit proxy start (request_to (codes "/v1")) empty).0 ≡ ok forwarded)
    × ((admit proxy start (request_to (codes "/v2")) empty).0
        ≡ err (path_not_allowed (codes "/v2")))
    × ((admit proxy start
          (request_to (codes "/v1"))
          (admit proxy start (request_to (codes "/v1")) empty).1).0
        ≡ err (token_replay_detected 1 1))
    × ((admit proxy start bare empty).0 ≡ ok bare)
unfolding admission
admit_tests = (refl, refl, refl, refl)

admit-eq-ok_iff_example :
    ((admit proxy start (request_to (codes "/v1")) empty).0 ≡ ok forwarded) ↔ (
      (sealed : SealedToken) × (p : TokenPayload) × (one_token.from_header (codes "t") ≡ ok sealed)
      × (one_token.unseal 1 sealed ≡ ok p)
      × Fits p sealed (request_to (codes "/v1"))
      × ((check_replay (some in_memory_store) skew start p empty).0 ≡ ok tt)
      × (finalize proxy (request_to (codes "/v1")) p ≡ ok forwarded))
unfolding admission
admit-eq-ok_iff_example =
    admit-eq-ok_iff proxy start (request_to (codes "/v1")) empty forwarded (codes "t") refl

admit_charges-changed : (admit proxy start (request_to (codes "/v1")) empty).1 ≢ empty
unfolding admission
admit_charges-changed e = let at_nonce = ap (λ (s : Entries). s (codes "n")) e in cc

admit_charges_example :
    (header : Text) × (sealed : SealedToken) × (p : TokenPayload) × ((get token_header
          (request_to (codes "/v1")).headers
        ≡ some (visible header))
      × ((one_token.from_header header ≡ ok sealed)
          × ((one_token.unseal 1 sealed ≡ ok p)
              × Charged proxy start
                  (request_to (codes "/v1"))
                  sealed
                  p
                  empty
                  (admit proxy start (request_to (codes "/v1")) empty).0
                  (admit proxy start (request_to (codes "/v1")) empty).1)))
admit_charges_example =
    admit_charges proxy start (request_to (codes "/v1")) empty admit_charges-changed

admit-token_optional_example :
    ((admit proxy start bare empty).1 ≡ empty)
    × (((admit proxy start bare empty).0 ≡ ok bare) ↔ (
        (proxy.token_optional ≡ true)
        × (bare ≡ bare)
        × ((authority : Text) × (request_authority bare ≡ some authority)
            × (HostPolicy.validate proxy.host_policy authority ≡ ok tt))))
unfolding admission
admit-token_optional_example = admit-token_optional proxy start bare empty bare refl
