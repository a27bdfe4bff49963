-- ===== src/Admission/Pipeline/Laws.antt =====
-- What a request has passed when it is admitted, and what it costs when it is not.
use icebreaker.Common.{
  Text, ◌≡◌, ◌↔◌, inl, inr, refl, true, none, some, arith, Bool-cases, Option-cases, ℕ,
}
use icebreaker.Errors.{TokenizerError, Result, ok, err, Result-cases, ◌>>=◌, ◌>>◌}
use icebreaker.Token.Payload.{TokenPayload, SealedToken}
use icebreaker.Token.Regex.{RegexCrate}
use icebreaker.Token.Allowlist.{validate_host, validate_method, validate_path}
use icebreaker.HostPolicy as HostPolicy
use icebreaker.Admission.{Clock, ErrorDisplay, check_replay}
use icebreaker.Http.{visible, get}
use icebreaker.Http.Request.{Request}
use icebreaker.Admission.Pipeline.{
  token_header, Backend, request_authority, target_host, TokenAdmission, admit_token_optional,
  decrypt, validate_request, finalize, admit_payload, admit_decrypted, admit_header, admit,
}

err_ne : (e : TokenizerError) → ¬ (Path (Result (Unit {0})) (err e) (ok tt))
err_ne e h = cc

err_any : {A : Type 0} (e : TokenizerError) (a : A) → ¬ (err e ≡ ok a)
err_any e a h = ground arith

-- A chain succeeds exactly if its parts do.
pub bind_iff :
    {A B : Type 0} (m : Result A) (f : A → Result B) (b : B)
    → (m >>= f ≡ ok b) ↔ ((a : A) × (m ≡ ok a) × (f a ≡ ok b))
bind_iff (ok a) f b = ((λ h. (a, refl, h)), λ (a', p, h). ground arith)
bind_iff (err e) f b = ground arith

pub then_iff :
    {B : Type 0} (m : Result (Unit {0})) (k : Result B) (b : B)
    → (m >> k ≡ ok b) ↔ ((m ≡ ok tt) × (k ≡ ok b))
then_iff (ok u) k b = ground arith
then_iff (err e) k b = ground arith

chain_iff :
    (auth : Result (Unit {0})) (host : Result Text) (vh : Text → Result (Unit {0}))
    (vm vp : Result (Unit {0}))
    → (auth >> (host >>= λ h. vh h >> (vm >> vp)) ≡ ok tt) ↔ (
        (auth ≡ ok tt)
        × ((h : Text) × (host ≡ ok h) × (vh h ≡ ok tt))
        × (vm ≡ ok tt)
        × (vp ≡ ok tt))
chain_iff (err e) host vh vm vp = ground arith
chain_iff (ok u) (err e) vh vm vp = ground arith
chain_iff (ok u) (ok h) vh vm vp =
    let (split, join) = then_iff (vh h) (vm >> vp) tt in
    let (split', join') = then_iff vm vp tt in
    (
      λ e. let (p, q) = split e in let (p', q') = split' q in (refl, (h, refl, p), p', q'),
      λ (_, (h', same, p), p', q').
          let eq : h ≡ h' = ground arith in join (rw eq p, join' (p', q')),
    )

module _ ⦃r : RegexCrate⦄ ⦃b : Backend⦄ where
  -- The client is authentic, and the token allows the request's host, method and path.
  abbrev pub Fits : TokenPayload → SealedToken → Request → Type 0
  Fits payload sealed request =
      (b.validate_auth payload.auth request (b.api_key_hmac_key sealed.key_id) ≡ ok tt)
      × ((host : Text) × (target_host request ≡ ok host) × (validate_host payload host ≡ ok tt))
      × (validate_method payload request.method ≡ ok tt)
      × (validate_path payload request.path ≡ ok tt)

  pub validate_request_iff :
      (payload : TokenPayload) (sealed : SealedToken) (request : Request)
      → (validate_request payload sealed request ≡ ok tt) ↔ Fits payload sealed request
  unfolding validate_request
  validate_request_iff payload sealed request =
      chain_iff (b.validate_auth payload.auth request (b.api_key_hmac_key sealed.key_id))
        (target_host request) (λ host. validate_host payload host)
        (validate_method payload request.method) (validate_path payload request.path)

module _ ⦃b : Backend⦄ where
  pub decrypt_iff :
      (unix : ℕ) (header : Text) (sealed : SealedToken) (payload : TokenPayload)
      → (decrypt unix header ≡ ok (sealed, payload))
        ↔ ((b.from_header header ≡ ok sealed) × (b.unseal unix sealed ≡ ok payload))
  unfolding decrypt
  decrypt_iff unix header sealed payload = elim (Result-cases (b.from_header header)) [
    | inr (e, p) ↦ rw p (ground arith)
    | inl (sealed', p) ↦ elim (Result-cases (b.unseal unix sealed')) [
      | inr (e, q) ↦ rw (p, q) (ground (arith, q))
      | inl (payload', q) ↦ rw (p, q) (ground (arith, q))
    ]
  ]

module _ ⦃r : RegexCrate⦄ ⦃b : Backend⦄ ⦃d : ErrorDisplay⦄ {S : Type 0} where
  optional_iff :
      (a : TokenAdmission S) (request out : Request)
      → (admit_token_optional a request ≡ ok out) ↔ (
          (a.token_optional ≡ true)
          × (out ≡ request)
          × ((authority : Text) × (request_authority request ≡ some authority)
              × (HostPolicy.validate a.host_policy authority ≡ ok tt)))
  unfolding admit_token_optional
  optional_iff a request out = elim (Bool-cases a.token_optional) [
    | inr off ↦ rw (admit_token_optional, off) (ground arith)
    | inl on' ↦ elim (Option-cases (request_authority request)) [
      | inl none' ↦
          rw (admit_token_optional, on', none')
            (λ h. absurd (ground arith), λ (_, _, (x, p, _)). absurd (ground arith))
      | inr (authority, e) ↦
          let (split, join) =
            then_iff (HostPolicy.validate a.host_policy authority) (ok request) out in
          rw (admit_token_optional, on', e)
            (
              λ h. let (p, q) = split h in (refl, ground arith, (authority, refl, p)),
              λ (_, same, (x, p, q)).
                  let eq : authority ≡ x = ground arith in join (rw eq q, rw same refl),
            )
    ]
  ]

  admit_payload_iff :
      (a : TokenAdmission S) (clock : Clock) (request : Request) (sealed : SealedToken)
      (payload : TokenPayload) (s : S) (out : Request)
      → ((admit_payload a clock request sealed payload s).0 ≡ ok out) ↔ (
          Fits payload sealed request
          × ((check_replay a.nonce_store a.clock_skew clock payload s).0 ≡ ok tt)
          × (finalize a request payload ≡ ok out))
  unfolding admit_payload
  admit_payload_iff a clock request sealed payload s out =
      let (fits, valid) = validate_request_iff payload sealed request in
      let (split, join) =
        then_iff (check_replay a.nonce_store a.clock_skew clock payload s).0
          (finalize a request payload) out in
      elim (Result-cases (validate_request payload sealed request)) [
        | inr (e, p) ↦
            rw (admit_payload, p)
              (λ h. absurd (ground arith), λ w. absurd (err_ne e (rw p at (valid w.0))))
        | inl (_, p) ↦
            rw (admit_payload, p)
              (λ h. let (c, f) = split h in (fits p, c, f), λ w. join (w.1, w.2))
      ]

  -- A request with a readable token header is admitted as `out` exactly if the token parses and
  -- decrypts, the client is authentic, the token allows the request's host, method and path, its
  -- replay protection allows one more use, and finalizing the request gives `out`.
  pub admit-eq-ok_iff :
      (a : TokenAdmission S) (clock : Clock) (request : Request) (s : S) (out : Request)
      (header : Text)
      → get token_header request.headers ≡ some (visible header)
      → ((admit a clock request s).0 ≡ ok out) ↔ (
          (sealed : SealedToken) × (payload : TokenPayload) × (b.from_header header ≡ ok sealed)
          × (b.unseal clock.unix sealed ≡ ok payload)
          × Fits payload sealed request
          × ((check_replay a.nonce_store a.clock_skew clock payload s).0 ≡ ok tt)
          × (finalize a request payload ≡ ok out))
  unfolding admit admit_header admit_decrypted
  admit-eq-ok_iff a clock request s out header e = (
    λ h. elim (Result-cases (decrypt clock.unix header)) [
      | inr (bad, p) ↦ absurd (err_any bad out (rw (admit, e, admit_decrypted, p) at h))
      | inl ((sealed, payload), p) ↦
          let (from, unsealed) = (decrypt_iff clock.unix header sealed payload).0 p in
          let (f, c, o) =
            (admit_payload_iff a clock request sealed payload s out).0
              (rw (admit, e, admit_decrypted, p) at h) in
          (sealed, payload, from, unsealed, f, c, o)
    ],
    λ (sealed, payload, p, q, f, c, o).
        rw (admit, e, admit_decrypted, (decrypt_iff clock.unix header sealed payload).1 (p, q))
          ((admit_payload_iff a clock request sealed payload s out).1 (f, c, o)),
  )

  -- A request without a token header is admitted exactly if the proxy is in token-optional mode and
  -- the host policy lets its authority through, and then it is passed on unchanged; either way the
  -- nonce store is as before.
  pub admit-token_optional :
      (a : TokenAdmission S) (clock : Clock) (request : Request) (s : S) (out : Request)
      → get token_header request.headers ≡ none
      → ((admit a clock request s).1 ≡ s)
        × (((admit a clock request s).0 ≡ ok out) ↔ (
            (a.token_optional ≡ true)
            × (out ≡ request)
            × ((authority : Text) × (request_authority request ≡ some authority)
                × (HostPolicy.validate a.host_policy authority ≡ ok tt))))
  unfolding admit admit_header HostPolicy.validate
  admit-token_optional a clock request s out h = rw (admit, h) (refl, optional_iff a request out)
