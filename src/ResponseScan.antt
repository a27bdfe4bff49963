-- ===== src/ResponseScan.antt =====
-- crates/icebreaker-proxy/src/middleware/response_scan.rs: the services that search responses for
-- secrets. A response is its headers, names in lower case and values as bytes, and the list of the
-- answers of its body.
pub mod Patterns
pub mod Laws
pub mod Leaks
pub mod Codings
mod Tests
use icebreaker.Common.{
  Text, codes, text_eq, trim, split_all, map, is_empty, ℕ, Bool, ◌||◌, Option, none, some, List, [],
  ◌∷◌, ◌++◌, if◌then◌else◌,
}
use icebreaker.Errors.{
  Result, ok, err, ◌>>=◌, ◌>>◌, secret_leak_detected, unsupported_content_encoding,
}
use icebreaker.Http.{get, remove_header, lowercase}
use icebreaker.Http.Request.{Request}
use icebreaker.Body.OverlapBuffer.{BytesMutCapacity}
use icebreaker.Body.Scanner as Scanner
use icebreaker.Body.Scanner.{StreamScanner}
use icebreaker.Body.Scanning as Scanning
use icebreaker.Body.Scanning.{Poll, ScanningBody, scan_header_values}
use icebreaker.Body.Config.{
  ResponseScanConfig, block, passthrough_with_warning, is_encoding_allowed, SecretScannerConfig,
  create_scanner, wrap_body,
}
use icebreaker.Body.Decompressing.{
  DecoderCrate, DecompressingBody, identity_body, gzip_body, deflate_body, brotli_body, zstd_body,
}

abbrev pub ByteHeaders : Type 0
ByteHeaders = List (Text × Text)

-- The crate `http`: the text of a header value, if it is visible ASCII.
pub record HeaderText : Type 0 where
  pub to_str : Text → Option Text

pub record Response : Type 0 where
  pub headers : ByteHeaders
  pub body : List (Poll Text)

abbrev join_rest : List Text → Text
join_rest [] = []
join_rest (part ∷ parts) = codes ", " ++ (part ++ join_rest parts)

-- `join(", ")`
abbrev pub join : List Text → Text
join [] = []
join (part ∷ parts) = part ++ join_rest parts

-- The codings in the first `Content-Encoding`.
unfoldable pub content_encodings : ⦃t : HeaderText⦄ → ByteHeaders → List Text
unfolding get trim split_all
content_encodings ⦃t⦄ headers = elim (get (codes "content-encoding") headers) [
  | none ↦ []
  | some value ↦ elim (t.to_str value) [ none ↦ [] | some text ↦ map trim (split_all b',' text) ]
]

module _ ⦃c : DecoderCrate⦄ where
  -- The body, and the headers that go with it.
  abbrev pub Resolved : Type 0
  Resolved = ByteHeaders × DecompressingBody

  unfoldable pub decoded_body : Text → List (Poll Text) → DecompressingBody
  unfolding text_eq identity_body gzip_body deflate_body brotli_body zstd_body
  decoded_body encoding body =
      if text_eq encoding (codes "gzip")
      then gzip_body body
      else if text_eq encoding (codes "deflate")
      then deflate_body body
      else if text_eq encoding (codes "br")
      then brotli_body body
      else if text_eq encoding (codes "zstd")
      then zstd_body body
      else identity_body body

  unfoldable pub decompress_known : Text → Response → Resolved
  unfolding remove_header decoded_body
  decompress_known encoding response = (
    remove_header (codes "content-length")
        (remove_header (codes "content-encoding") response.headers),
    decoded_body encoding response.body,
  )

  abbrev pub as_identity : Response → Resolved
  as_identity response = (response.headers, identity_body response.body)

  unfoldable pub handle_unknown_encoding : Text → ResponseScanConfig → Response → Result Resolved
  unfolding is_encoding_allowed
  handle_unknown_encoding encoding config response =
      if is_encoding_allowed config encoding
      then ok (as_identity response)
      else elim config.unsupported_encoding [
        | block ↦ err (unsupported_content_encoding encoding)
        | passthrough_with_warning ↦ ok (as_identity response)
      ]

  unfoldable pub handle_multiple_encodings :
      List Text → ResponseScanConfig → Response → Result Resolved
  handle_multiple_encodings encodings config response = elim config.unsupported_encoding [
    | block ↦ err (unsupported_content_encoding (join encodings))
    | passthrough_with_warning ↦ ok (as_identity response)
  ]

  abbrev pub is_known : Text → Bool
  is_known encoding =
      text_eq encoding (codes "gzip")
      || text_eq encoding (codes "deflate")
      || text_eq encoding (codes "br")
      || text_eq encoding (codes "zstd")

  -- The `match` on a single coding, in lower case.
  unfoldable pub resolve_single : Text → ResponseScanConfig → Response → Result Resolved
  unfolding text_eq decompress_known handle_unknown_encoding
  resolve_single encoding config response =
      if is_known encoding
      then ok (decompress_known encoding response)
      else if text_eq encoding (codes "identity")
      then ok (as_identity response)
      else handle_unknown_encoding encoding config response

  unfoldable pub resolve_encodings : List Text → ResponseScanConfig → Response → Result Resolved
  unfolding resolve_single handle_multiple_encodings
  resolve_encodings [] config response = ok (as_identity response)
  resolve_encodings (single ∷ []) config response =
      resolve_single (lowercase single) config response
  resolve_encodings (first ∷ second ∷ more) config response =
      handle_multiple_encodings (first ∷ second ∷ more) config response

  unfoldable pub resolve_encoding :
      ⦃t : HeaderText⦄ → ResponseScanConfig → Response → Result Resolved
  unfolding content_encodings resolve_encodings
  resolve_encoding config response =
      resolve_encodings (content_encodings response.headers) config response

module _ ⦃m : BytesMutCapacity⦄ where
  unfoldable pub scan_response_headers : ByteHeaders → StreamScanner → Result (Unit {0})
  unfolding scan_header_values
  scan_response_headers headers scanner =
      if (scan_header_values headers scanner).0 then err secret_leak_detected else ok tt

  abbrev pub check_headers : List Text → ByteHeaders → Result (Unit {0})
  check_headers patterns headers =
      if is_empty patterns then ok tt else scan_response_headers headers (Scanner.new patterns)

-- The response that goes to the client: its headers, the body and the scanner around it.
pub record Scanned ⦃c : DecoderCrate⦄ : Type 0 where
  pub headers : ByteHeaders
  pub inner : DecompressingBody
  pub scanning : ScanningBody

abbrev pub patterns_of : Option (List Text) → List Text
patterns_of none = []
patterns_of (some patterns) = patterns

module _ ⦃m : BytesMutCapacity⦄ ⦃c : DecoderCrate⦄ ⦃t : HeaderText⦄ where
  -- `ResponseScanService::call`, after the inner service has answered.
  unfoldable pub scan_response : SecretScannerConfig → Response → Result Scanned
  unfolding create_scanner scan_response_headers resolve_encoding wrap_body
  scan_response config response = do
    _ ← scan_response_headers response.headers (create_scanner config)
    (headers, inner) ← resolve_encoding config.response_scan_config response
    ok (record { headers = headers; inner = inner; scanning = wrap_body config })

  -- `DynamicResponseScanService::call` with the patterns of the request.
  unfoldable pub scan_dynamic : ResponseScanConfig → Request → Response → Result Scanned
  unfolding Scanner.new scan_response_headers resolve_encoding Scanning.new
  scan_dynamic config request response = do
    let patterns = patterns_of request.scan_patterns
    _ ← check_headers patterns response.headers
    (headers, inner) ← resolve_encoding config response
    ok (record { headers = headers; inner = inner; scanning = Scanning.new patterns })
