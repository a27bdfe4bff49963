-- ===== src/Processors/Sigv4/Laws.antt =====
-- What a request that was signed again tells of the one that came in.
use icebreaker.Common.{
  Text, codes, text_eq, text_eq_iff, ◌≡◌, ◌∙◌, ◌⊎◌, sym, ap, Bool, ◌||◌, Option, none, some, List,
  [], ◌∷◌, Any, arith, Bool-cases, inl, inr, if◌then◌else◌,
}
use icebreaker.Errors.{Outcome-cases, ok, Result-cases, fine}
use icebreaker.Http.{HttpCrate, HeaderValue, Headers, get, get_text, remove_header, insert_header}
use icebreaker.Http.Laws.{get-insert_header, get-remove_header}
use icebreaker.Http.Request.{Request}
use icebreaker.Token.Payload.{TokenPayload}
use icebreaker.Processors.Sigv4.{
  SigningCrates, apply_headers, SigningInput, signing_input, sign_request, process_sigv4,
}

module _ ⦃h : HttpCrate⦄ where
  -- The instructions set the header to the value.
  abbrev pub Sets : Text → HeaderValue → List (Text × Text) → Type 0
  Sets name v instructions =
      Any (λ (i : Text × Text). (h.parse_name i.0 ≡ fine name) × (h.parse_value i.1 ≡ fine v))
        instructions

  -- What a header is after the instructions: as before, or set by one of them.
  abbrev pub After : Text → List (Text × Text) → Option HeaderValue → Option HeaderValue → Type 0
  After name instructions before after =
      (after ≡ before) ⊎ ((v : HeaderValue) × ((after ≡ some v) × Sets name v instructions))

  After-insert :
      (name n : Text) (v : HeaderValue) (i : Text × Text) (rest : List (Text × Text))
      (headers : Headers) (after : Option HeaderValue)
      → h.parse_name i.0 ≡ fine n
      → h.parse_value i.1 ≡ fine v
      → After name rest (get name (insert_header n v headers)) after
      → After name (i ∷ rest) (get name headers) after
  After-insert name n v i rest headers after p q (inr (w, (e, s))) = inr (w, (e, inr s))
  After-insert name n v i rest headers after p q (inl e) =
      let read = e ∙ get-insert_header name n v headers in
      elim (Bool-cases (text_eq n name)) [
        | inl t ↦ inr (
          v,
          (
            read ∙ ap (λ (b : Bool). if b then some v else get name headers) t,
            inl (p ∙ ap fine ((text_eq_iff n name).0 t), q),
          ),
        )
        | inr f ↦ inl (read ∙ ap (λ (b : Bool). if b then some v else get name headers) f)
      ]

  apply_headers-After :
      (instructions : List (Text × Text)) (headers out : Headers) (name : Text)
      → apply_headers instructions headers ≡ ok out
      → After name instructions (get name headers) (get name out)
  unfolding apply_headers
  apply_headers-After [] headers out name k = inl (ap (get name) (ground (arith, k)))
  apply_headers-After (i ∷ rest) headers out name k = elim (Outcome-cases (h.parse_name i.0)) [
    | inr (m, e) ↦ absurd (ground (arith, k, e))
    | inl (n, e) ↦ elim (Outcome-cases (h.parse_value i.1)) [
      | inr (m, f) ↦ absurd (ground (arith, k, e, f))
      | inl (v, f) ↦
          let k' : apply_headers rest (insert_header n v headers) ≡ ok out =
            ground (arith, k, e, f) in
          After-insert name n v i rest headers (get name out) e f
            (apply_headers-After rest (insert_header n v headers) out name k')
    ]
  ]

abbrev pub token_name : Text
token_name = codes "x-tokenizer-token"

abbrev pub authorization_name : Text
authorization_name = codes "authorization"

get-bare :
    (name : Text) (headers : Headers)
    → get name (remove_header authorization_name (remove_header token_name headers)) ≡ (
        if text_eq authorization_name name || text_eq token_name name
        then none
        else get name headers)
get-bare name headers = ground (
  arith,
  get-remove_header name authorization_name (remove_header token_name headers),
  get-remove_header name token_name headers,
)

module _ ⦃h : HttpCrate⦄ ⦃c : SigningCrates⦄ where
  -- A request that was signed again carries neither the sealed token nor the client's authorization:
  -- at these two names it has no header, or what the signer set. At any other name it has the header
  -- that came in, or what the signer set.
  pub get-process_sigv4 :
      (access_key : Text) (request r : Request) (payload : TokenPayload) (name : Text)
      → process_sigv4 access_key request payload ≡ ok r
      → (input : SigningInput) × (instructions : List (Text × Text)) × ((signing_input
              request.headers
            ≡ ok input)
          × ((sign_request access_key payload.secret
                  (record request { headers = remove_header token_name request.headers })
                  input
                  (get_text (codes "x-amz-content-sha256") request.headers)
                ≡ ok instructions)
              × After name instructions
                  (if text_eq authorization_name name || text_eq token_name name
                    then none
                    else get name request.headers)
                  (get name r.headers)))
  unfolding process_sigv4
  get-process_sigv4 access_key request r payload name k =
      let stripped = record request { headers = remove_header token_name request.headers } in
      let hash = get_text (codes "x-amz-content-sha256") request.headers in
      let bare = remove_header authorization_name stripped.headers in
      elim (Result-cases (signing_input request.headers)) [
        | inr (x, e) ↦ absurd (ground (arith, k, e))
        | inl (input, e) ↦
            elim (Result-cases (sign_request access_key payload.secret stripped input hash)) [
              | inr (x, f) ↦ absurd (ground (arith, k, e, f))
              | inl (instructions, f) ↦ elim (Result-cases (apply_headers instructions bare)) [
                | inr (x, g) ↦ absurd (ground (arith, k, e, f, g))
                | inl (out, g) ↦
                    let same : r ≡ record stripped { headers = out } = ground (arith, k, e, f, g) in
                    let after = apply_headers-After instructions bare out name g in
                    (
                      input,
                      instructions,
                      (e, (f, rw same (rw (sym (get-bare name request.headers)) after))),
                    )
              ]
            ]
      ]
