-- ===== src/Processors/Hmac/Order.antt =====
-- The order of the headers to sign, `build_canonical_request` and its variant with a body.
use icebreaker.Common.{
  Text, ℕ, ◌≡◌, ◌∙◌, refl, sym, ap, Option, none, some, List, [], ◌∷◌, ◌++◌, append_assoc,
  append-nil, inl, inr,
}
use mathlib.Core.List.{Permᴰ}
use icebreaker.Errors.{Outcome, Outcome-cases, Result-cases}
use icebreaker.Http.{HttpCrate, Headers, get_text, lowercase}
use icebreaker.Http.Request.{Request}
use icebreaker.Token.Config.{HmacConfig}
use icebreaker.Token.Payload.{TokenPayload}
use icebreaker.ClientAuth.Credentials.{AuthCrates}
use icebreaker.Signing.{
  DigestCrates, Header, insert_sorted, sort_headers, CanonicalRequestBuilder, add_header, set_body,
  set_body_hash, build_canonical, set_query, new,
}
use icebreaker.Signing.Laws.{insert_sorted_comm}
use icebreaker.Processors.Hmac.{
  with_header, with_query, with_signed_headers, request_builder, build_canonical_request,
  build_canonical_request_with_body, set_timestamp, set_signature, process_hmac,
  process_body_signing,
}

-- The header of a name, before those of the other names.
abbrev entry : Text → Option Text → List Header → List Header
entry name none hs = hs
entry name (some value) hs = (lowercase name, value) ∷ hs

-- The headers that the configured names pick, in their order.
abbrev picked : List Text → Headers → List Header
picked [] headers = []
picked (name ∷ names) headers =
    entry name (get_text (lowercase name) headers) (picked names headers)

with_header-entry :
    (name : Text) (v : Option Text) (b : CanonicalRequestBuilder) (hs : List Header)
    → record (with_header name v b) { headers = (with_header name v b).headers ++ hs }
      ≡ record b { headers = b.headers ++ entry name v hs }
unfolding add_header
with_header-entry name none b hs = refl
with_header-entry name (some value) b hs =
    rw (append_assoc b.headers ((lowercase name, value) ∷ []) hs) refl

with_signed_headers-picked :
    (names : List Text) (headers : Headers) (b : CanonicalRequestBuilder)
    → with_signed_headers names headers b ≡ record b { headers = b.headers ++ picked names headers }
unfolding with_signed_headers
with_signed_headers-picked [] headers b = rw (append-nil b.headers) refl
with_signed_headers-picked (name ∷ names) headers b =
    let v = get_text (lowercase name) headers in
    with_signed_headers-picked names headers (with_header name v b)
    ∙ with_header-entry name v b (picked names headers)

sort_headers-entry :
    (name : Text) (v : Option Text) (hs gs : List Header)
    → sort_headers hs ≡ sort_headers gs
    → sort_headers (entry name v hs) ≡ sort_headers (entry name v gs)
unfolding sort_headers
sort_headers-entry name none hs gs e = e
sort_headers-entry name (some value) hs gs e = ap (insert_sorted (lowercase name, value)) e

-- Two names with the same spelling in lower case pick the same value.
sort_headers-entry_swap :
    (m n : Text) (v w : Option Text) (hs : List Header)
    → (lowercase m ≡ lowercase n → v ≡ w)
    → sort_headers (entry m v (entry n w hs)) ≡ sort_headers (entry n w (entry m v hs))
unfolding sort_headers
sort_headers-entry_swap m n none w hs same = refl
sort_headers-entry_swap m n (some x) none hs same = refl
sort_headers-entry_swap m n (some x) (some y) hs same =
    insert_sorted_comm (lowercase m, x) (lowercase n, y) (sort_headers hs) (λ e. cc (same e))

sort_headers-picked :
    {names others : List Text} (headers : Headers)
    → Permᴰ names others
    → sort_headers (picked names headers) ≡ sort_headers (picked others headers)
sort_headers-picked headers Permᴰ.nil = refl
sort_headers-picked headers (Permᴰ.cons {a} {b} {l₁} {l₂} e p) = rw (sym e) (
    sort_headers-entry a (get_text (lowercase a) headers) (picked l₁ headers) (picked l₂ headers)
      (sort_headers-picked headers p))
sort_headers-picked headers (Permᴰ.swap {a} {b} {a'} {b'} {l} e f) = rw (sym e) (
    rw (sym f) (
      sort_headers-entry_swap a b (get_text (lowercase a) headers) (get_text (lowercase b) headers)
        (picked l headers) (ap (λ (n : Text). get_text n headers))))
sort_headers-picked headers (Permᴰ.trans p q) =
    sort_headers-picked headers p ∙ sort_headers-picked headers q

-- The text that is signed depends on the headers only through their sorted list.
build_canonical-sorted :
    (b : CanonicalRequestBuilder) (hs gs : List Header)
    → sort_headers hs ≡ sort_headers gs
    → build_canonical (record b { headers = hs }) ≡ build_canonical (record b { headers = gs })
unfolding build_canonical
build_canonical-sorted b hs gs e = rw (build_canonical, e) refl

headers-with_query :
    (query : Option Text) (method path : Text) → (with_query query (new method path)).headers ≡ []
unfolding new set_query
headers-with_query none method path = refl
headers-with_query (some query) method path = refl

abbrev bare_builder : Request → CanonicalRequestBuilder
bare_builder request = with_query request.query (new request.method request.path)

request_builder-picked :
    (c : HmacConfig) (request : Request)
    → request_builder c request
      ≡ record (bare_builder request) { headers = picked c.signed_headers request.headers }
unfolding request_builder
request_builder-picked c request =
    with_signed_headers-picked c.signed_headers request.headers (bare_builder request)
    ∙ ap
        (λ (hs : List Header). record (bare_builder request) {
          headers = hs ++ picked c.signed_headers request.headers;
        })
        (headers-with_query request.query request.method request.path)

module _ (c : HmacConfig) (names : List Text) (p : Permᴰ names c.signed_headers) where
  -- The configuration with the names in the other order.
  abbrev reordered : HmacConfig
  reordered = record c { signed_headers = names }

  build_canonical_request-perm :
      (request : Request)
      → build_canonical_request reordered request ≡ build_canonical_request c request
  unfolding build_canonical_request
  build_canonical_request-perm request =
      rw (request_builder-picked reordered request, request_builder-picked c request)
        (build_canonical-sorted (bare_builder request) (picked names request.headers)
          (picked c.signed_headers request.headers) (sort_headers-picked request.headers p))

  module _ ⦃h : HttpCrate⦄ ⦃a : AuthCrates⦄ ⦃d : DigestCrates⦄ where
    build_canonical_request_with_body-perm :
        (request : Request) (body : Text)
        → build_canonical_request_with_body reordered request body
          ≡ build_canonical_request_with_body c request body
    unfolding build_canonical_request_with_body set_body set_body_hash
    build_canonical_request_with_body-perm request body =
        rw (request_builder-picked reordered request, request_builder-picked c request)
          (build_canonical-sorted (set_body (bare_builder request) body)
            (picked names request.headers) (picked c.signed_headers request.headers)
            (sort_headers-picked request.headers p))

    process_hmac-perm :
        (now : ℕ) (request : Request) (payload : TokenPayload)
        → process_hmac reordered now request payload ≡ process_hmac c now request payload
    unfolding process_hmac set_signature
    process_hmac-perm now request payload =
        elim (Result-cases (set_timestamp c.timestamp_header now request)) [
          | inr (x, e) ↦ rw e refl
          | inl (stamped, e) ↦ rw (e, build_canonical_request-perm stamped) refl
        ]

    process_body_signing-perm :
        (now : ℕ) (request : Request) (collected : Outcome Text) (payload : TokenPayload)
        → process_body_signing reordered now request collected payload
          ≡ process_body_signing c now request collected payload
    unfolding process_body_signing set_signature
    process_body_signing-perm now request collected payload = elim (Outcome-cases collected) [
      | inr (x, k) ↦ rw k refl
      | inl (body, k) ↦ elim (Result-cases (set_timestamp c.timestamp_header now request)) [
        | inr (x, e) ↦ rw (k, e) refl
        | inl (stamped, e) ↦ rw (k, e, build_canonical_request_with_body-perm stamped body) refl
      ]
    ]

-- The order in which a configuration lists the headers to sign, repeated names included, makes no
-- difference to the request that is sent on nor to the error, with and without the body signed.
pub process-signed_headers_perm :
    ⦃h : HttpCrate⦄ ⦃a : AuthCrates⦄ ⦃d : DigestCrates⦄ (c : HmacConfig) (names : List Text)
    (now : ℕ) (request : Request) (collected : Outcome Text) (payload : TokenPayload)
    → Permᴰ names c.signed_headers
    → (process_hmac (record c { signed_headers = names }) now request payload
        ≡ process_hmac c now request payload)
      × (process_body_signing (record c { signed_headers = names }) now request collected payload
          ≡ process_body_signing c now request collected payload)
process-signed_headers_perm c names now request collected payload p = (
  process_hmac-perm c names p now request payload,
  process_body_signing-perm c names p now request collected payload,
)
