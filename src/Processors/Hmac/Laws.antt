-- ===== src/Processors/Hmac/Laws.antt =====
-- What a receiver of a signed request can check.
use icebreaker.Common.{
  Text, codes, text_eq, text_eq_refl, any, ℕ, ◌≡◌, ◌∙◌, refl, sym, ap, Bool, true, false, some,
  List, [], ◌∷◌, arith, inl, inr, if◌then◌else◌,
}
use icebreaker.Errors.{ok, Result-cases, fine}
use icebreaker.Http.{HttpCrate, HeaderValue, Headers, get, get_text, lowercase, insert_header}
use icebreaker.Http.Laws.{get-insert_header}
use icebreaker.Http.Request.{Request}
use icebreaker.Token.Config.{HmacConfig}
use icebreaker.Token.Payload.{TokenPayload}
use icebreaker.ClientAuth.Credentials.{AuthCrates}
use icebreaker.Signing.{CanonicalRequestBuilder, sign, sign_hex, verify}
use icebreaker.Signing.Laws.{verify_iff}
use icebreaker.Processors.Header.{set_header}
use icebreaker.Processors.Header.Laws.{set_header-eq-ok}
use icebreaker.Processors.Hmac.{
  with_signed_headers, request_builder, build_canonical_request, set_timestamp, signer_of,
  set_signature, process_hmac,
}

-- One of the names, in lower case, is `n`.
abbrev pub names_header : Text → List Text → Bool
names_header n names = any (λ name. text_eq n (lowercase name)) names

-- Setting a header that is not among the signed ones does not change what is signed.
with_signed_headers-insert_header :
    (n : Text) (v : HeaderValue) (names : List Text) (headers : Headers)
    (b : CanonicalRequestBuilder)
    → names_header n names ≡ false
    → with_signed_headers names (insert_header n v headers) b ≡ with_signed_headers names headers b
unfolding with_signed_headers get_text
with_signed_headers-insert_header n v [] headers b u = refl
with_signed_headers-insert_header n v (name ∷ names) headers b u =
    let here : text_eq n (lowercase name) ≡ false = ground arith in
    let rest : names_header n names ≡ false = ground arith in
    let same : get (lowercase name) (insert_header n v headers) ≡ get (lowercase name) headers =
      get-insert_header (lowercase name) n v headers
      ∙ ap (λ (t : Bool). if t then some v else get (lowercase name) headers) here in
    rw same (with_signed_headers-insert_header n v names headers _ rest)

build_canonical_request-insert_header :
    (c : HmacConfig) (request : Request) (n : Text) (v : HeaderValue)
    → names_header n c.signed_headers ≡ false
    → build_canonical_request c (record request { headers = insert_header n v request.headers })
      ≡ build_canonical_request c request
unfolding build_canonical_request request_builder
build_canonical_request-insert_header c request n v u =
    rw (with_signed_headers-insert_header n v c.signed_headers request.headers _ u) refl

module _ ⦃h : HttpCrate⦄ ⦃a : AuthCrates⦄ where
  -- What is in a request that got a signature of the text.
  abbrev Signs : HmacConfig → TokenPayload → Text → Request → Request → Type 0
  Signs c payload canonical request r =
      (signature n : Text) × (v : HeaderValue) × ((verify (signer_of c payload) canonical signature
          ≡ true)
        × ((h.parse_name c.signature_header ≡ fine n)
            × ((h.parse_value (a.hex_encode signature) ≡ fine v)
                × (r ≡ record request { headers = insert_header n v request.headers }))))

  set_signature-eq-ok :
      (c : HmacConfig) (payload : TokenPayload) (canonical : Text) (request r : Request)
      → set_signature c payload canonical request ≡ ok r
      → Signs c payload canonical request r
  unfolding set_signature sign_hex
  set_signature-eq-ok c payload canonical request r k =
      elim (Result-cases (sign (signer_of c payload) canonical)) [
        | inr (x, e) ↦ absurd (ground (arith, k, e))
        | inl (signature, e) ↦
            let k' : set_header (codes "invalid signature header name: ")
                  (codes "invalid signature value: ") c.signature_header (a.hex_encode signature)
                  request
                ≡ ok r =
              ground (arith, k, e) in
            let (n, v, (p, (q, w))) =
              set_header-eq-ok (codes "invalid signature header name: ")
                (codes "invalid signature value: ") c.signature_header (a.hex_encode signature)
                request r k' in
            (
              signature,
              n,
              v,
              ((verify_iff (signer_of c payload) canonical signature).1 e, (p, (q, w))),
            )
      ]

  -- A receiver who builds the canonical text of the request that it gets, and checks the signature
  -- in its signature header with the shared secret, accepts it, if the configuration does not list
  -- the signature header among the headers to sign.
  pub process_hmac-verify :
      (c : HmacConfig) (now : ℕ) (request r : Request) (payload : TokenPayload) (n : Text)
      → h.parse_name c.signature_header ≡ fine n
      → names_header n c.signed_headers ≡ false
      → process_hmac c now request payload ≡ ok r
      → (signature : Text) × (v : HeaderValue) × ((h.parse_value (a.hex_encode signature) ≡ fine v)
          × ((get n r.headers ≡ some v)
              × (verify (signer_of c payload) (build_canonical_request c r) signature ≡ true)))
  unfolding process_hmac
  process_hmac-verify c now request r payload n parsed u k =
      elim (Result-cases (set_timestamp c.timestamp_header now request)) [
        | inr (x, e) ↦ absurd (ground (arith, k, e))
        | inl (stamped, e) ↦
            let k' : set_signature c payload (build_canonical_request c stamped) stamped ≡ ok r =
              ground (arith, k, e) in
            let (signature, n', v, (checks, (p, (q, w)))) =
              set_signature-eq-ok c payload (build_canonical_request c stamped) stamped r k' in
            let same : n' ≡ n = ground (arith, p, parsed) in
            let w' : r ≡ record stamped { headers = insert_header n v stamped.headers } =
              rw (sym same) w in
            (
              signature,
              v,
              (
                q,
                (
                  rw w' (
                      get-insert_header n n v stamped.headers
                      ∙ ap (λ (t : Bool). if t then some v else get n stamped.headers)
                          (text_eq_refl n)),
                  rw w' (rw (build_canonical_request-insert_header c stamped n v u) checks),
                ),
              ),
            )
      ]
