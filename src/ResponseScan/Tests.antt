-- ===== src/ResponseScan/Tests.antt =====
-- Runs of the response scan, and the theorems about it at concrete inputs.
use icebreaker.Common.{
  Text, codes, text_eq, trim, trim_start, trim_end, split_all, length, max, ℕ, zero, suc, ◌≤◌,
  arith, ◌≡◌, ◌↔◌, refl, none, some, List, [], ◌∷◌, ◌++◌,
}
use icebreaker.Errors.{ok, err, secret_leak_detected, unsupported_content_encoding}
use icebreaker.Http.{get, remove_header}
use icebreaker.Http.Request.{Request}
use icebreaker.Body.OverlapBuffer.{BytesMutCapacity}
use icebreaker.Body.OverlapBuffer as OverlapBuffer
use icebreaker.Body.Pattern.{windows, contains_pattern}
use icebreaker.Body.Scanner as Scanner
use icebreaker.Body.Scanner.{contains_any, max_pattern_len, scan_chunk}
use icebreaker.Body.Scanning as Scanning
use icebreaker.Body.Scanning.{frame, content, finished, scan_header_values}
use icebreaker.Body.Config.{default_scan_config, is_encoding_allowed}
use icebreaker.Body.Reader as Reader
use icebreaker.Body.Reader.{BodyReader, IoPoll, done}
use icebreaker.Body.Decompressing.{
  DecoderCrate, max_decompressed_size, answers, identity_body, gzip_body, deflate_body, brotli_body,
  zstd_body,
}
use icebreaker.Body.Decompressing.Laws.{answers-bounded}
use icebreaker.Body.Reader.Laws.{Use, read, fill, consumes, contents, left, uses, uses-conserve}
use icebreaker.ResponseScan.{
  HeaderText, Response, Scanned, content_encodings, decompress_known, decoded_body, resolve_single,
  resolve_encodings, resolve_encoding, scan_response_headers, handle_multiple_encodings,
  handle_unknown_encoding, scan_dynamic,
}
use icebreaker.ResponseScan.Codings.{Resolves, resolve_encoding-block_iff}
use icebreaker.ResponseScan.Patterns.{EncodingCrates, encode_html_entities, generate_scan_patterns}

-- A buffer that reserves what it is asked for.
instance abbrev exact : BytesMutCapacity
exact = record {
  with_capacity = λ n. n;
  extended = λ c n. max c n;
  le-with_capacity = λ n. omega arith;
  le-extended = λ c n. omega arith;
}

-- Stand-ins for the crates: encodings are the text behind a letter, and every value is visible.
instance abbrev plain_encodings : EncodingCrates
plain_encodings = record {
  base64_standard = λ s. b'b' ∷ s;
  base64_url_safe = λ s. b'b' ∷ s;
  url_encode = λ s. s;
  hex_encode = λ s. b'h' ∷ s;
  hex_encode_upper = λ s. b'H' ∷ s;
}

abbrev endless : ℕ → BodyReader → IoPoll × BodyReader
endless zero r = (done [], r)
endless (suc room) r = (done (b'x' ∷ []), r)

endless-fits :
    (room : ℕ) (r : BodyReader) (bytes : Text)
    → (endless room r).0 ≡ done bytes
    → length bytes ≤ room
endless-fits zero r bytes e = ground (arith, e)
endless-fits (suc room) r bytes e = ground (arith, e)

-- A decoder that gives the same byte for ever.
instance abbrev endless_decoder : DecoderCrate
endless_decoder = record {
  Decoder = BodyReader;
  gzip_decoder = λ r. r;
  zlib_decoder = λ r. r;
  brotli_decoder = λ r. r;
  zstd_decoder = λ r. r;
  poll_read = endless;
  poll_read-fits = endless-fits;
}

instance abbrev all_visible : HeaderText
all_visible = record { to_str = λ s. some s }

abbrev request : Request
request = record {
  method = codes "GET";
  authority = none;
  path = codes "/";
  query = none;
  headers = [];
  tls_info = none;
  upstream_scheme = none;
  scan_patterns = some (generate_scan_patterns (codes "sk-12345"));
}

abbrev response : Response
response = record {
  headers = (codes "server", codes "u") ∷ (codes "content-encoding", codes "identity") ∷ [];
  body = frame (content (codes "bsk-12")) ∷ frame (content (codes "345")) ∷ finished ∷ [];
}

abbrev scanned : Scanned
scanned = record {
  headers = response.headers;
  inner = identity_body response.body;
  scanning = Scanning.new (generate_scan_patterns (codes "sk-12345"));
}

scan : Unit {0}
unfolding text_eq trim trim_start trim_end split_all get remove_header windows contains_pattern
    OverlapBuffer.new OverlapBuffer.process OverlapBuffer.next_overlap Scanner.new contains_any
    max_pattern_len scan_chunk Scanning.new Scanning.with_scanner scan_header_values
    is_encoding_allowed identity_body gzip_body content_encodings decompress_known decoded_body
    resolve_single resolve_encodings resolve_encoding scan_response_headers
    handle_multiple_encodings handle_unknown_encoding scan_dynamic encode_html_entities
    generate_scan_patterns Reader.new
scan = tt

scan_tests :
    (scan_dynamic default_scan_config request response ≡ ok scanned)
    × (scan_dynamic default_scan_config request
          (record response { headers = (codes "x", codes "hsk-12345") ∷ [] })
        ≡ err secret_leak_detected)
    × (scan_dynamic default_scan_config request
          (record response { headers = (codes "content-encoding", codes "gzip, br") ∷ [] })
        ≡ err (unsupported_content_encoding (codes "gzip, br")))
unfolding scan
scan_tests = (refl, refl, refl)

resolve_encoding-block_iff_example :
    (resolve_encoding default_scan_config response
      ≡ ok (response.headers, identity_body response.body))
    ↔ Resolves default_scan_config response
        (response.headers, identity_body response.body)
        (content_encodings response.headers)
resolve_encoding-block_iff_example =
    resolve_encoding-block_iff default_scan_config response
      (response.headers, identity_body response.body) refl

answers-bounded_example :
    (length (contents (answers 3 (gzip_body response.body))) ≤ max_decompressed_size)
    × ((length (contents (answers 3 (deflate_body response.body))) ≤ max_decompressed_size)
        × ((length (contents (answers 3 (brotli_body response.body))) ≤ max_decompressed_size)
            × (length (contents (answers 3 (zstd_body response.body))) ≤ max_decompressed_size)))
answers-bounded_example = answers-bounded 3 response.body

abbrev calls : List Use
calls = fill ∷ consumes 2 ∷ read 3 ∷ read 9 ∷ fill ∷ fill ∷ []

uses-conserve_example :
    (uses calls (Reader.new response.body)).0 ++ left (uses calls (Reader.new response.body)).1
    ≡ left (Reader.new response.body)
uses-conserve_example = uses-conserve calls (Reader.new response.body)
