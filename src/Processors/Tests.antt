-- ===== src/Processors/Tests.antt =====
-- Runs of the processors, and the theorems about them at concrete inputs.
use icebreaker.Common.{
  Text, codes, text_eq, strip_prefix, find_after, split_first, split_all, decimal, ◌+◌, ◌≤◌, ◌≡◌,
  refl, true, false, ◌||◌, none, some, List, [], ◌∷◌, ◌++◌, arith, if◌then◌else◌,
}
use icebreaker.Errors.{ok, fine, ◌>>=◌}
use icebreaker.Http.{
  HttpCrate, HeaderValue, visible, get, get_text, remove_header, insert_header, lowercase,
}
use icebreaker.Http.Request.{Request}
use icebreaker.Token.Config as Config
use icebreaker.Token.Config.{
  HmacConfig, InjectConfig, OAuthConfig, format_value, sha256, client_credentials, no_auth,
}
use icebreaker.Token.Expiration.{check_expiration}
use icebreaker.Token.Payload.{TokenPayload, OAuthMetadata}
use icebreaker.ClientAuth.Credentials.{AuthCrates, compute_signature}
use mathlib.Core.List.{Permᴰ}
use icebreaker.Processors.Hmac.Order.{process-signed_headers_perm}
use icebreaker.Signing.{
  DigestCrates, text_le, insert_sorted, sort_headers, sign, sign_hex, verify_signature, verify, new,
  set_query, add_header, set_body_hash, set_body, build_canonical,
}
use icebreaker.Processors.Header.{set_header}
use icebreaker.Processors.Inject.{process_inject}
use icebreaker.Processors.InjectBody.{
  contains_bytes, replace_loop, replace_placeholder, with_body, inject_body,
}
use icebreaker.Processors.InjectBody.Replace.{Replaced, replace_placeholder_lem}
use icebreaker.Processors.OAuth.{process_oauth, check_metadata, check_access_token_expiration}
use icebreaker.Processors.OAuth as OAuth
use icebreaker.Processors.OAuth.Laws.{process_oauth-fresh}
use icebreaker.Processors.Hmac.{
  with_signed_headers, request_builder, build_canonical_request, set_timestamp, signer_of,
  set_signature, process_hmac, build_canonical_request_with_body, process_body_signing,
}
use icebreaker.Processors.Hmac.Laws.{process_hmac-verify}
use icebreaker.Processors.Sigv4.{
  SigningCrates, since_epoch, SigningInput, field_after, extract_credential_scope,
  extract_signed_headers, parse_amz_date, headers_to_sign, signable_body, apply_headers,
  signing_input, sign_request, process_sigv4,
}
use icebreaker.Processors.Sigv4.Laws.{token_name, authorization_name, After, get-process_sigv4}
use icebreaker.Processors.Dispatch.{
  Processor, ProcessorList, create_processor, create_processors, process_all, process_body,
}
use icebreaker.Processors.Dispatch.Laws.{Parts, then_body, process_body-multi}
use icebreaker.Body.Pattern.{contains_pattern, windows}

-- Stand-ins for the crates.
instance abbrev plain_http : HttpCrate
plain_http = record { parse_name = λ s. fine (lowercase s); parse_value = λ s. fine (visible s) }

instance abbrev plain_auth : AuthCrates
plain_auth = record {
  mac = λ algorithm key message. fine (key ++ message);
  hkdf_sha256 = λ salt input info. some input;
  hex_encode = λ s. s;
  base64_decode = λ s. fine s;
}

instance abbrev plain_digest : DigestCrates
plain_digest = record { sha256_digest = λ s. s; hex_decode = λ s. fine s }

instance abbrev plain_signing : SigningCrates
plain_signing = record {
  parse_date = λ s. some (since_epoch 0);
  uri_text = λ request. request.path;
  Params = Text;
  build_params = λ access_key secret_key region service time. fine secret_key;
  Signable = Text;
  signable_request = λ method uri headers body. fine (method ++ uri);
  sign = λ signable params. fine ((codes "authorization", codes "AWS4 " ++ params) ∷ []);
}

abbrev request : Request
request = record {
  method = codes "GET";
  authority = none;
  path = codes "/v1";
  query = some (codes "q=1");
  headers =
      (codes "x-tokenizer-token", visible (codes "sealed"))
      ∷ (
        codes "authorization",
        visible (
            codes
              "AWS4-HMAC-SHA256 Credential=K/D/us/s3/aws4_request, SignedHeaders=host, Signature=0"),
      )
      ∷ (codes "x-amz-date", visible (codes "20250101T000000Z"))
      ∷ (codes "b", visible (codes "2"))
      ∷ (codes "a", visible (codes "1"))
      ∷ [];
  tls_info = none;
  upstream_scheme = none;
  scan_patterns = none;
}

abbrev metadata : OAuthMetadata
metadata = record {
  provider_id = codes "p";
  refresh_token = none;
  token_type = codes "Bearer";
  scopes = [];
  access_token_expires_at = some 1_000;
}

abbrev payload : TokenPayload
payload = record {
  secret = codes "sk";
  processor = Config.inject_body (codes "{{T}}");
  auth = no_auth;
  allowed_hosts = [];
  allowed_host_pattern = none;
  upstream_scheme = none;
  expires_at = none;
  metadata = none;
  oauth = some metadata;
  allowed_methods = [];
  allowed_paths = [];
  allowed_path_pattern = none;
  replay_protection = none;
}

abbrev hmac_config : HmacConfig
hmac_config = record {
  signature_header = codes "X-Sig";
  algorithm = sha256;
  signed_headers = codes "B" ∷ codes "A" ∷ [];
  timestamp_header = some (codes "X-Time");
  sign_body = false;
}

abbrev inject_config : InjectConfig
inject_config = record { header_name = codes "X-Key"; prefix = some (codes "Key "); suffix = none }

abbrev oauth_config : OAuthConfig
oauth_config = record {
  token_url = codes "u";
  client_id = codes "c";
  client_secret_in_payload = true;
  grant_type = client_credentials;
  scopes = [];
  header_name = codes "Authorization";
}

abbrev several : Config.Processors
several =
    Config.cons (Config.inject_body (codes "{{T}}"))
      (Config.cons (Config.inject inject_config) Config.nil)

processors : Unit {0}
unfolding text_eq strip_prefix find_after split_first split_all decimal get get_text remove_header
    insert_header text_le insert_sorted sort_headers sign sign_hex verify_signature verify new
    set_query add_header set_body_hash set_body build_canonical compute_signature set_header
    process_inject format_value contains_bytes replace_loop replace_placeholder with_body
    inject_body process_oauth check_metadata check_access_token_expiration check_expiration
    with_signed_headers request_builder build_canonical_request set_timestamp set_signature
    process_hmac build_canonical_request_with_body process_body_signing contains_pattern windows
    field_after extract_credential_scope extract_signed_headers parse_amz_date headers_to_sign
    signable_body apply_headers signing_input sign_request process_sigv4
processors = tt

hmac_test : build_canonical_request hmac_config request ≡ codes "GET\n/v1\nq=1\na:1\nb:2\n\n"
unfolding processors
hmac_test = refl

body_test :
    replace_placeholder (codes "{{T}}") (codes "a={{T}}&b={{T}") (codes "sk")
    ≡ some (codes "a=sk&b={{T}")
unfolding processors
body_test = refl

replace_placeholder_lem_example :
    (out : Text) × (replace_placeholder (codes "{{T}}") (codes "a={{T}}") (codes "sk") ≡ some out)
    × Replaced (codes "{{T}}") (codes "sk") (codes "a={{T}}") out
replace_placeholder_lem_example =
    replace_placeholder_lem b'{' (codes "{T}}") (codes "a={{T}}") (codes "sk")

abbrev injected : Request
injected = record request { headers = (codes "x-key", visible (codes "Key sk")) ∷ request.headers }

abbrev authorized : Request
authorized = record request {
  headers =
      (codes "authorization", visible (codes "Bearer sk"))
      ∷ (codes "x-tokenizer-token", visible (codes "sealed"))
      ∷ (codes "x-amz-date", visible (codes "20250101T000000Z"))
      ∷ (codes "b", visible (codes "2"))
      ∷ (codes "a", visible (codes "1"))
      ∷ [];
}

process_oauth-fresh_example :
    ((1_000 ≤ 900 + 300) × (900 ≤ 1_000 + 30))
    × ((n : Text) × (v : HeaderValue) × ((plain_http.parse_name (codes "Authorization") ≡ fine n)
          × ((plain_http.parse_value (codes "Bearer " ++ codes "sk") ≡ fine v)
              × (get (codes "a") authorized.headers
                  ≡ (if text_eq n (codes "a") then some v else get (codes "a") request.headers)))))
unfolding processors OAuth.new
process_oauth-fresh_example =
    process_oauth-fresh oauth_config 900 1_000 request authorized payload metadata (codes "a")
      (omega arith) (omega arith) refl refl refl

abbrev stamped : Request
stamped = record request { headers = (codes "x-time", visible (codes "7")) ∷ request.headers }

abbrev signed : Request
signed = record request {
  headers = (codes "x-sig", visible (codes "skGET\n/v1\nq=1\na:1\nb:2\n\n")) ∷ stamped.headers;
}

process_hmac-verify_example :
    (signature : Text) × (v : HeaderValue) × ((plain_http.parse_value
          (plain_auth.hex_encode signature)
        ≡ fine v)
      × ((get (codes "x-sig") signed.headers ≡ some v)
          × (verify
                (signer_of hmac_config payload)
                (build_canonical_request hmac_config signed)
                signature
              ≡ true)))
unfolding processors
process_hmac-verify_example =
    process_hmac-verify hmac_config 7 request signed payload (codes "x-sig") refl refl refl

abbrev resigned : Request
resigned = record request {
  headers =
      (codes "authorization", visible (codes "AWS4 sk"))
      ∷ (codes "x-amz-date", visible (codes "20250101T000000Z"))
      ∷ (codes "b", visible (codes "2"))
      ∷ (codes "a", visible (codes "1"))
      ∷ [];
}

get-process_sigv4_example :
    (input : SigningInput) × (instructions : List (Text × Text)) × ((signing_input request.headers
        ≡ ok input)
      × ((sign_request
              (codes "K")
              (codes "sk")
              (record request { headers = remove_header token_name request.headers })
              input
              (get_text (codes "x-amz-content-sha256") request.headers)
            ≡ ok instructions)
          × After token_name instructions
              (if text_eq authorization_name token_name || text_eq token_name token_name
                then none
                else get token_name request.headers)
              (get token_name resigned.headers)))
unfolding processors
get-process_sigv4_example = get-process_sigv4 (codes "K") request resigned payload token_name refl

process_body-multi_example :
    (before : ProcessorList) × (q : Processor) × (after : ProcessorList) × (Parts
        (create_processors several)
        before
        q
        after
      × (process_body
            (create_processor (Config.multi several))
            7
            request
            (fine (codes "a={{T}}"))
            payload
          ≡ then_body q 7
              (fine (codes "a={{T}}"))
              payload
              (process_all before 7 request payload >>= λ r. process_all after 7 r payload)))
unfolding Config.validate Config.validate_from Config.is_body_processor Config.any_body_processor
process_body-multi_example =
    process_body-multi several 7 request (fine (codes "a={{T}}")) payload refl refl

-- A configuration that signs two headers, and the same with the names the other way round.
abbrev two_names : HmacConfig
two_names = record hmac_config { signed_headers = codes "b" ∷ codes "a" ∷ [] }

process-signed_headers_perm_example :
    (process_hmac
        (record two_names { signed_headers = codes "a" ∷ codes "b" ∷ [] })
        7
        request
        payload
      ≡ process_hmac two_names 7 request payload)
    × (process_body_signing
          (record two_names { signed_headers = codes "a" ∷ codes "b" ∷ [] })
          7
          request
          (fine (codes "a=1"))
          payload
        ≡ process_body_signing two_names 7 request (fine (codes "a=1")) payload)
process-signed_headers_perm_example =
    process-signed_headers_perm two_names (codes "a" ∷ codes "b" ∷ []) 7 request
      (fine (codes "a=1")) payload (Permᴰ.swap refl refl)
