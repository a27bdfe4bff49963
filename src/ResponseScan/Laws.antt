-- ===== src/ResponseScan/Laws.antt =====
-- What a response that passes the scan can contain.
use mathlib.Core.Bool.{false≢true}
use icebreaker.Common.{
  Text, All, ℕ, ◌≡◌, ◌≢◌, ◌∙◌, sym, subst, false, List, [], ◌∷◌, arith, inl, inr,
}
use icebreaker.Errors.{ok, Result-cases}
use icebreaker.Http.Request.{Request}
use icebreaker.Body.OverlapBuffer.{BytesMutCapacity}
use icebreaker.Body.Scanner as Scanner
use icebreaker.Body.Scanner.Stream.{OccursAny, OccursAny-append, OccursAny-prepend, new-Scans}
use icebreaker.Body.Scanning as Scanning
use icebreaker.Body.Scanning.{scan_header_values}
use icebreaker.Body.Scanning.Frames.{values, scan_header_values_iff}
use icebreaker.Body.Scanning.Reference.{delivered, delivered-clean}
use icebreaker.Body.Config.{ResponseScanConfig}
use icebreaker.Body.Decompressing.{DecoderCrate, answers}
use icebreaker.ResponseScan.{
  ByteHeaders, HeaderText, Response, resolve_encoding, scan_response_headers, Scanned, scan_dynamic,
  patterns_of, check_headers,
}

-- No pattern stands in a header value.
abbrev pub CleanHeaders : List Text → ByteHeaders → Type 0
CleanHeaders ps [] = Unit
CleanHeaders ps ((name, value) ∷ headers) = (¬ OccursAny ps value) × CleanHeaders ps headers

CleanHeaders-of_values :
    (ps : List Text) (headers : ByteHeaders)
    → ¬ OccursAny ps (values headers)
    → CleanHeaders ps headers
CleanHeaders-of_values ps [] h = tt
CleanHeaders-of_values ps ((name, value) ∷ headers) h = (
  λ o. h (OccursAny-append ps value (values headers) o),
  CleanHeaders-of_values ps headers (λ o. h (OccursAny-prepend ps value (values headers) o)),
)

CleanHeaders-nil : (headers : ByteHeaders) → CleanHeaders [] headers
CleanHeaders-nil [] = tt
CleanHeaders-nil ((name, value) ∷ headers) = (λ o. o, CleanHeaders-nil headers)

module _ ⦃m : BytesMutCapacity⦄ where
  scan_response_headers-ok :
      (ps : List Text) (headers : ByteHeaders)
      → All (λ p. p ≢ []) ps
      → scan_response_headers headers (Scanner.new ps) ≡ ok tt
      → CleanHeaders ps headers
  unfolding scan_response_headers Scanner.new
  scan_response_headers-ok ps headers h k =
      let (_, missed) = (scan_header_values_iff headers [] (Scanner.new ps) (new-Scans ps h)).0 in
      let quiet : (scan_header_values headers (Scanner.new ps)).0 ≡ false = ground (arith, k) in
      CleanHeaders-of_values ps headers (λ o. false≢true (sym quiet ∙ missed o))

  check_headers-ok :
      (ps : List Text) (headers : ByteHeaders)
      → All (λ p. p ≢ []) ps
      → check_headers ps headers ≡ ok tt
      → CleanHeaders ps headers
  check_headers-ok [] headers h k = CleanHeaders-nil headers
  check_headers-ok (p ∷ ps) headers h k = scan_response_headers-ok (p ∷ ps) headers h k

module _ ⦃m : BytesMutCapacity⦄ ⦃c : DecoderCrate⦄ ⦃t : HeaderText⦄ where
  -- The client's polls of a response that passed.
  abbrev pub seen : ℕ → Scanned → Text
  seen n s = delivered (Scanning.poll_times n s.scanning (answers n s.inner))

  -- If no pattern of the request is empty, a response that the service lets through has no pattern in
  -- the value of any header that the upstream sent, and none in the bytes, decompressed where the
  -- service decompresses, that the client gets in any number of polls of its body.
  pub scan_dynamic-clean :
      (config : ResponseScanConfig) (request : Request) (response : Response) (s : Scanned) (n : ℕ)
      → All (λ p. p ≢ []) (patterns_of request.scan_patterns)
      → scan_dynamic config request response ≡ ok s
      → CleanHeaders (patterns_of request.scan_patterns) response.headers
        × (¬ OccursAny (patterns_of request.scan_patterns) (seen n s))
  unfolding scan_dynamic
  scan_dynamic-clean config request response s n h k =
      let ps = patterns_of request.scan_patterns in
      elim (Result-cases (check_headers ps response.headers)) [
        | inr (x, e) ↦ absurd (ground (arith, k, e))
        | inl (_, e) ↦ elim (Result-cases (resolve_encoding config response)) [
          | inr (x, f) ↦ absurd (ground (arith, k, e, f))
          | inl ((headers, inner), f) ↦
              let whole : s
                  ≡ record { headers = headers; inner = inner; scanning = Scanning.new ps } =
                ground (arith, k, e, f) in
              let clean = delivered-clean ps n (answers n inner) h in
              (
                check_headers-ok ps response.headers h e,
                subst (λ (x : Scanned). ¬ OccursAny ps (seen n x)) (sym whole) clean,
              )
        ]
      ]
