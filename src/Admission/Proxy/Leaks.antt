-- ===== src/Admission/Proxy/Leaks.antt =====
-- From the admission of a request to the response that its client gets.
use icebreaker.Common.{Text, ℕ, ◌≡◌, ◌≢◌, ◌∙◌, refl, ap, true, some, [], arith, inl, inr}
use icebreaker.Errors.{Result-cases, ok}
use icebreaker.Http.{HttpCrate, visible, get}
use icebreaker.Http.Request.{Request}
use icebreaker.Token.Header.{TokenCodec, from_header}
use icebreaker.Token.Payload.{TokenPayload, SealedToken}
use icebreaker.Token.Regex.{RegexCrate}
use icebreaker.ClientAuth.Credentials.{AuthCrates}
use icebreaker.Crypto.{BoxCrates}
use icebreaker.Crypto.TokenCrypto.{TokenCrypto}
use icebreaker.Crypto.TokenCrypto as Crypto
use icebreaker.Body.OverlapBuffer.{BytesMutCapacity}
use icebreaker.Body.Scanner.Stream.{OccursAny}
use icebreaker.Body.Config.{ResponseScanConfig}
use icebreaker.Body.Decompressing.{DecoderCrate}
use icebreaker.Processors.Sigv4.{SigningCrates}
use icebreaker.ResponseScan.{HeaderText, Response, Scanned, scan_dynamic}
use icebreaker.ResponseScan.Laws.{CleanHeaders, seen}
use icebreaker.ResponseScan.Leaks.{EncodesSomething, forms, scan_dynamic-secret}
use icebreaker.ResponseScan.Patterns.{EncodingCrates, generate_scan_patterns}
use icebreaker.Admission.{Clock, ErrorDisplay}
use icebreaker.Admission.Pipeline.{
  token_header, Backend, TokenAdmission, finalize, prepare, with_scan_patterns, admit,
  validate_processor_config,
}
use icebreaker.Admission.Pipeline.Laws.{admit-eq-ok_iff}
use icebreaker.Admission.Proxy.{proxy_backend}

-- A request that was finalized with the scan on carries the patterns of its secret.
scan_patterns-finalize :
    ⦃b : Backend⦄ {S : Type 0} ⦃r : RegexCrate⦄ (a : TokenAdmission S) (request out : Request)
    (payload : TokenPayload)
    → a.response_scan_enabled ≡ true
    → finalize a request payload ≡ ok out
    → out.scan_patterns ≡ some (b.generate_scan_patterns payload.secret)
unfolding finalize
scan_patterns-finalize ⦃b⦄ a request out payload on' k =
    elim (Result-cases (validate_processor_config payload.processor)) [
      | inr (x, e) ↦ absurd (ground (arith, k, e))
      | inl (_, e) ↦
          elim (Result-cases (b.process payload.processor (prepare request payload) payload)) [
            | inr (x, f) ↦ absurd (ground (arith, k, e, f))
            | inl (processed, f) ↦
                let same : out ≡ with_scan_patterns a.response_scan_enabled payload processed =
                  ground (arith, k, e, f) in
                rw same (rw on' refl)
          ]
    ]

module _ ⦃h : HttpCrate⦄ ⦃au : AuthCrates⦄ ⦃s : SigningCrates⦄ ⦃r : RegexCrate⦄ ⦃t : TokenCodec⦄
    ⦃e : EncodingCrates⦄ ⦃d : ErrorDisplay⦄ ⦃m : BytesMutCapacity⦄ ⦃dc : DecoderCrate⦄
    ⦃ht : HeaderText⦄ {K S : Type 0} ⦃c : BoxCrates K⦄ where
  -- Where responses are scanned, for a request that is admitted with a token whose secret is not
  -- empty: a response to it that the scan lets through shows the client that secret neither in a
  -- header value that the upstream sent nor in the bytes, decompressed where the service decompresses,
  -- of its body; and if the secret has eight bytes or more, it shows none of its base64, percent-encoded,
  -- hexadecimal and HTML-escaped forms. Encodings of a text that is not empty are not empty.
  pub admit-scan_dynamic :
      (crypto : TokenCrypto K) (now : ℕ) (a : TokenAdmission S) (clock : Clock)
      (request out : Request) (store : S) (header : Text) (sealed : SealedToken)
      (payload : TokenPayload) (config : ResponseScanConfig) (response : Response) (sc : Scanned)
      (n : ℕ)
      → a.response_scan_enabled ≡ true
      → get token_header request.headers ≡ some (visible header)
      → from_header header ≡ ok sealed
      → Crypto.unseal crypto clock.unix sealed ≡ ok payload
      → payload.secret ≢ []
      → EncodesSomething
      → (admit ⦃b = proxy_backend crypto now⦄ a clock request store).0 ≡ ok out
      → scan_dynamic config out response ≡ ok sc
      → CleanHeaders (forms payload.secret) response.headers
        × (¬ OccursAny (forms payload.secret) (seen n sc))
  unfolding proxy_backend
  admit-scan_dynamic crypto now a clock request out store header sealed payload config response sc n
        on' token parsed opened ne good admitted passed =
      let (sealed', payload', p, q, _, _, f) =
        (admit-eq-ok_iff ⦃b = proxy_backend crypto now⦄ a clock request store out header token).0
          admitted in
      let one : sealed ≡ sealed' = ground (arith, p, parsed) in
      let opened' : Crypto.unseal crypto clock.unix sealed ≡ ok payload' =
        ap (λ (x : SealedToken). Crypto.unseal crypto clock.unix x) one ∙ q in
      let same : payload' ≡ payload = ground (arith, opened', opened) in
      let carried =
        scan_patterns-finalize ⦃b = proxy_backend crypto now⦄ a request out payload' on' f in
      let carried' : out.scan_patterns ≡ some (generate_scan_patterns payload.secret) =
        carried ∙ ap (λ (x : TokenPayload). some (generate_scan_patterns x.secret)) same in
      scan_dynamic-secret config out response sc n payload.secret good ne carried' passed
