-- ===== src/Admission/Proxy/Tests.antt =====
-- A request from its sealed token to the response that its client gets, at concrete inputs.
use icebreaker.Common.{
  Text, codes, text_eq, strip_prefix, trim, trim_start, trim_end, split_all, length, max, empty, ℕ,
  ◌≤◌, ◌≡◌, refl, none, some, [], ◌∷◌, arith,
}
use icebreaker.Errors.{Outcome, ok, fine, refused}
use icebreaker.Http.{HttpCrate, visible, get, remove_header, insert_header, lowercase}
use icebreaker.Http.Request.{Request}
use icebreaker.Nonce.{Entries}
use icebreaker.Token.Config.{inject, no_auth, format_value}
use icebreaker.Token.Header.{TokenCodec, from_header}
use icebreaker.Token.Payload.{TokenPayload, SealedToken, https}
use icebreaker.Token.Regex.{RegexCrate, built, compile_anchored_regex, anchor_pattern}
use icebreaker.Token.Authority.{
  split_host_port, split_bracketed, split_plain, parse_u16, parse_digits,
}
use icebreaker.Token.Allowlist.{
  validate_host, validate_method, validate_path, to_ascii_lowercase, eq_ignore_ascii_case,
  entry_matches, pattern_matches,
}
use icebreaker.Token.Expiration.{check_expiration}
use icebreaker.ClientAuth as ClientAuth
use icebreaker.ClientAuth.Credentials.{AuthCrates}
use icebreaker.Crypto.StandIn.{zeros, boxes_of}
use icebreaker.Crypto.{
  with_primary, find, find_by_id, BoxCrates, check_status, decrypt_sealed_token,
}
use icebreaker.Crypto as Box
use icebreaker.Crypto.TokenCrypto.{TokenCrypto, with_keypair, api_key_hmac_key}
use icebreaker.Crypto.TokenCrypto as Crypto
use icebreaker.HostPolicy as HostPolicy
use icebreaker.Body.OverlapBuffer.{BytesMutCapacity}
use icebreaker.Body.OverlapBuffer as OverlapBuffer
use icebreaker.Body.Pattern.{windows, contains_pattern}
use icebreaker.Body.Scanner as Scanner
use icebreaker.Body.Scanner.{contains_any, max_pattern_len, scan_chunk}
use icebreaker.Body.Scanner.Stream.{OccursAny}
use icebreaker.Body.Scanning as Scanning
use icebreaker.Body.Scanning.{frame, content, finished, scan_header_values}
use icebreaker.Body.Config.{default_scan_config}
use icebreaker.Body.Reader.{BodyReader, done}
use icebreaker.Body.Decompressing.{DecoderCrate, identity_body}
use icebreaker.Processors.Header.{set_header}
use icebreaker.Processors.Inject.{process_inject}
use icebreaker.Processors.Sigv4.{SigningCrates}
use icebreaker.Processors.Dispatch as Dispatch
use icebreaker.ResponseScan.{
  HeaderText, Response, Scanned, content_encodings, resolve_encodings, resolve_encoding,
  scan_response_headers, scan_dynamic,
}
use icebreaker.ResponseScan.Laws.{CleanHeaders, seen}
use icebreaker.ResponseScan.Leaks.{forms}
use icebreaker.ResponseScan.Patterns.{EncodingCrates, encode_html_entities, generate_scan_patterns}
use icebreaker.Admission.{Clock, ErrorDisplay, check_replay}
use icebreaker.Admission.Pipeline.{
  token_header, admit, admit_header, admit_decrypted, admit_payload, decrypt, validate_request,
  finalize, validate_processor_config, target_host,
}
use icebreaker.Admission.Proxy.{proxy_backend, new}
use icebreaker.Admission.Proxy.Leaks.{admit-scan_dynamic}

abbrev payload : TokenPayload
payload = record {
  secret = codes "sk-12345";
  processor = inject (record { header_name = codes "X-Key"; prefix = none; suffix = none });
  auth = no_auth;
  allowed_hosts = codes "a.b" ∷ [];
  allowed_host_pattern = none;
  upstream_scheme = none;
  expires_at = some 100;
  metadata = none;
  oauth = none;
  allowed_methods = [];
  allowed_paths = [];
  allowed_path_pattern = none;
  replay_protection = none;
}

-- The one token there is opens to the payload above.
instance abbrev open_boxes : BoxCrates ℕ
open_boxes = boxes_of payload

never_written : (s json : Text) → ¬ (Path (Outcome Text) (refused s) (fine json))
never_written s json e = cc

instance abbrev plain_codec : TokenCodec
plain_codec = record {
  base64_encode = λ s. s;
  base64_decode = λ s. fine s;
  token_to_json = λ t. refused [];
  token_from_json = λ s. fine (record { version = 1; key_id = codes "k"; ciphertext = zeros 72 });
  base64_decode-encode = λ s. refl;
  token_from_json-to_json = λ t json e. absurd (never_written [] json e);
}

instance abbrev plain_http : HttpCrate
plain_http = record { parse_name = λ s. fine (lowercase s); parse_value = λ s. fine (visible s) }

instance abbrev plain_auth : AuthCrates
plain_auth = record {
  mac = λ algorithm key message. fine message;
  hkdf_sha256 = λ salt input info. some input;
  hex_encode = λ s. s;
  base64_decode = λ s. fine s;
}

instance abbrev no_signing : SigningCrates
no_signing = record {
  parse_date = λ s. none;
  uri_text = λ request. request.path;
  Params = Unit;
  build_params = λ access_key secret_key region service time. fine tt;
  Signable = Unit;
  signable_request = λ method uri headers body. fine tt;
  sign = λ signable params. fine [];
}

instance abbrev literal_regex : RegexCrate
literal_regex = record {
  Regex = Text;
  build = λ p limit. built p;
  is_match = λ p s. text_eq p (anchor_pattern s);
}

instance abbrev plain_encodings : EncodingCrates
plain_encodings = record {
  base64_standard = λ s. b'b' ∷ s;
  base64_url_safe = λ s. b'b' ∷ s;
  url_encode = λ s. s;
  hex_encode = λ s. b'h' ∷ s;
  hex_encode_upper = λ s. b'H' ∷ s;
}

instance abbrev no_text : ErrorDisplay
no_text = record { display = λ e. [] }

instance abbrev exact : BytesMutCapacity
exact = record {
  with_capacity = λ n. n;
  extended = λ c n. max c n;
  le-with_capacity = λ n. omega arith;
  le-extended = λ c n. omega arith;
}

nothing-fits : (room : ℕ) (bytes : Text) → done [] ≡ done bytes → length bytes ≤ room
nothing-fits room bytes e = ground (arith, e)

instance abbrev empty_decoder : DecoderCrate
empty_decoder = record {
  Decoder = BodyReader;
  gzip_decoder = λ r. r;
  zlib_decoder = λ r. r;
  brotli_decoder = λ r. r;
  zstd_decoder = λ r. r;
  poll_read = λ room r. (done [], r);
  poll_read-fits = λ room r bytes e. nothing-fits room bytes e;
}

instance abbrev all_visible : HeaderText
all_visible = record { to_str = λ s. some s }

abbrev keys : TokenCrypto ℕ
keys = with_keypair 1 (codes "k")

abbrev sealed : SealedToken
sealed = record { version = 1; key_id = codes "k"; ciphertext = zeros 72 }

abbrev request : Request
request = record {
  method = codes "GET";
  authority = some (codes "a.b");
  path = codes "/";
  query = none;
  headers = (token_header, visible (codes "Tokenizer t")) ∷ [];
  tls_info = none;
  upstream_scheme = none;
  scan_patterns = none;
}

abbrev forwarded : Request
forwarded = record request {
  headers = (codes "x-key", visible (codes "sk-12345")) ∷ [];
  upstream_scheme = some https;
  scan_patterns = some (generate_scan_patterns (codes "sk-12345"));
}

abbrev response : Response
response = record {
  headers = (codes "server", codes "u") ∷ [];
  body = frame (content (codes "sk-12")) ∷ frame (content (codes "345")) ∷ finished ∷ [];
}

abbrev scanned : Scanned
scanned = record {
  headers = response.headers;
  inner = identity_body response.body;
  scanning = Scanning.new (generate_scan_patterns (codes "sk-12345"));
}

abbrev start : Clock
start = record { instant = 0; unix = 1 }

proxy : Unit {0}
unfolding text_eq strip_prefix trim trim_start trim_end split_all get remove_header insert_header
    format_value from_header compile_anchored_regex anchor_pattern split_host_port split_bracketed
    split_plain parse_u16 parse_digits validate_host validate_method validate_path
    to_ascii_lowercase eq_ignore_ascii_case entry_matches pattern_matches check_expiration
    ClientAuth.validate_auth with_primary find find_by_id check_status decrypt_sealed_token
    Box.unseal with_keypair Crypto.new api_key_hmac_key Crypto.unseal HostPolicy.new
    OverlapBuffer.new OverlapBuffer.process OverlapBuffer.next_overlap windows contains_pattern
    Scanner.new contains_any max_pattern_len scan_chunk Scanning.new Scanning.with_scanner
    scan_header_values identity_body set_header process_inject Dispatch.create_processor
    Dispatch.process content_encodings resolve_encodings resolve_encoding scan_response_headers
    scan_dynamic encode_html_entities generate_scan_patterns check_replay admit admit_header
    admit_decrypted admit_payload decrypt validate_request finalize validate_processor_config
    target_host proxy_backend new
proxy = tt

admit_test :
    (admit ⦃b = proxy_backend keys 1⦄ (new {S = Entries}) start request empty).0 ≡ ok forwarded
unfolding proxy
admit_test = refl

admit-scan_dynamic_example :
    CleanHeaders (forms (codes "sk-12345")) response.headers
    × (¬ OccursAny (forms (codes "sk-12345")) (seen 4 scanned))
unfolding proxy
admit-scan_dynamic_example =
    admit-scan_dynamic keys 1 (new {S = Entries}) start request forwarded empty
      (codes "Tokenizer t") sealed payload default_scan_config response scanned 4 refl refl refl
      refl (λ e. cc) (λ s h. ((λ e. cc), (λ e. cc), h, (λ e. cc), λ e. cc)) refl refl
