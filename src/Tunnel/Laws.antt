-- ===== src/Tunnel/Laws.antt =====
-- To which targets a CONNECT request opens a tunnel.
use icebreaker.Common.{
  Text, ℕ, ◌≡◌, ◌∙◌, ◌⊎◌, refl, sym, ap, subst, true, false, not, ◌&&◌, some, arith, Bool-cases,
  Option-cases, inl, inr,
}
use icebreaker.Errors.{ok, Result-cases}
use icebreaker.Http.Request.{Request}
use icebreaker.Token.Payload.{TokenPayload, SealedToken}
use icebreaker.Token.Regex.{RegexCrate}
use icebreaker.Token.Allowlist.{validate_host}
use icebreaker.Token.Expiration.{
  check_expiration, is_valid, ExpirationStatus, valid, expired, no_expiration, future_dated,
}
use icebreaker.HostPolicy as HostPolicy
use icebreaker.Admission.{Clock, ErrorDisplay, check_replay}
use icebreaker.Admission.Pipeline.{Backend, decrypt}
use icebreaker.Tunnel.{
  AuthorityParts, ConnectHandler, connect_token, has_token, connect_status, port_or_443,
  is_auth_required, connect_target_with_policy, validate_opened, validate_connect, on_validated,
  connect_target,
}

connect_status-ok :
    (status : ExpirationStatus) → connect_status status ≡ ok tt → is_valid status ≡ true
unfolding connect_status is_valid
connect_status-ok valid e = refl
connect_status-ok no_expiration e = refl
connect_status-ok expired e = absurd (ground (arith, e))
connect_status-ok (future_dated n) e = absurd (ground (arith, e))

module _ ⦃p : AuthorityParts⦄ ⦃r : RegexCrate⦄ where
  -- The host and the port that the authority of the request names.
  abbrev pub Targets : Request → Text → Text × ℕ → Type 0
  Targets request authority target =
      (request.authority ≡ some authority)
      × (target ≡ (p.host_of authority, port_or_443 (p.port_u16 authority)))

  -- The policy lets the authority of the request through.
  abbrev pub PolicyAllows : Request → HostPolicy.HostValidationConfig → Text × ℕ → Type 0
  PolicyAllows request policy target =
      (authority : Text) × (Targets request authority target
        × (HostPolicy.validate policy authority ≡ ok tt))

  connect_target_with_policy-ok :
      (request : Request) (policy : HostPolicy.HostValidationConfig) (target : Text × ℕ)
      → connect_target_with_policy request policy ≡ ok target
      → PolicyAllows request policy target
  unfolding connect_target_with_policy
  connect_target_with_policy-ok request policy target k = elim (Option-cases request.authority) [
    | inl e ↦ absurd (ground (arith, k, e))
    | inr (authority, e) ↦ elim (Result-cases (HostPolicy.validate policy authority)) [
      | inr (x, f) ↦ absurd (ground (arith, k, e, f))
      | inl (_, f) ↦ (authority, ((e, ground (arith, k, e, f)), f))
    ]
  ]

  module _ ⦃b : Backend⦄ {S : Type 0} where
    -- The client is authentic, and the token has not expired and allows the authority.
    abbrev pub Opens :
        ConnectHandler S → ℕ → Request → SealedToken → TokenPayload → Text × ℕ → Type 0
    Opens h unix request sealed payload target =
        (b.validate_auth payload.auth request (b.api_key_hmac_key sealed.key_id) ≡ ok tt)
        × ((is_valid (check_expiration h.clock_skew payload.expires_at unix) ≡ true)
            × ((authority : Text) × (Targets request authority target
                  × (validate_host payload authority ≡ ok tt))))

    validate_opened-ok :
        (h : ConnectHandler S) (unix : ℕ) (request : Request) (sealed : SealedToken)
        (payload out : TokenPayload) (target : Text × ℕ)
        → validate_opened h unix request sealed payload ≡ ok (out, target)
        → (out ≡ payload) × Opens h unix request sealed payload target
    unfolding validate_opened
    validate_opened-ok h unix request sealed payload out target k =
        let status = check_expiration h.clock_skew payload.expires_at unix in
        elim (Result-cases
          (b.validate_auth payload.auth request (b.api_key_hmac_key sealed.key_id))) [
            | inr (x, e) ↦ absurd (ground (arith, k, e))
            | inl (_, e) ↦ elim (Result-cases (connect_status status)) [
              | inr (x, f) ↦ absurd (ground (arith, k, e, f))
              | inl (_, f) ↦ elim (Option-cases request.authority) [
                | inl g ↦ absurd (ground (arith, k, e, f, g))
                | inr (authority, g) ↦ elim (Result-cases (validate_host payload authority)) [
                  | inr (x, v) ↦ absurd (ground (arith, k, e, f, g, v))
                  | inl (_, v) ↦ (
                    ground (arith, k, e, f, g, v),
                    (
                      e,
                      (
                        connect_status-ok status f,
                        (authority, ((g, ground (arith, k, e, f, g, v)), v)),
                      ),
                    ),
                  )
                ]
              ]
            ]
          ]

    validate_connect-ok :
        (h : ConnectHandler S) (unix : ℕ) (request : Request) (out : TokenPayload)
        (target : Text × ℕ)
        → validate_connect h unix request ≡ ok (out, target)
        → (header : Text) × (sealed : SealedToken) × ((connect_token request.headers ≡ some header)
            × ((decrypt unix header ≡ ok (sealed, out)) × Opens h unix request sealed out target))
    unfolding validate_connect
    validate_connect-ok h unix request out target k =
        elim (Option-cases (connect_token request.headers)) [
          | inl e ↦ absurd (ground (arith, k, e))
          | inr (header, e) ↦ elim (Result-cases (decrypt unix header)) [
            | inr (x, f) ↦ absurd (ground (arith, k, e, f))
            | inl ((sealed, payload), f) ↦
                let k' : validate_opened h unix request sealed payload ≡ ok (out, target) =
                  ground (arith, k, e, f) in
                let (same, opens) =
                  validate_opened-ok h unix request sealed payload out target k' in
                (
                  header,
                  sealed,
                  (
                    e,
                    (
                      f ∙ ap (λ (x : TokenPayload). ok (sealed, x)) (sym same),
                      subst (λ (x : TokenPayload). Opens h unix request sealed x target) (sym same)
                          opens,
                    ),
                  ),
                )
          ]
        ]

    module _ ⦃d : ErrorDisplay⦄ where
      -- What a request with a token has passed.
      abbrev pub Tokened : ConnectHandler S → Clock → Request → S → Text × ℕ → Type 0
      Tokened h clock request s target =
          (header : Text) × (sealed : SealedToken) × (payload : TokenPayload) × ((connect_token
                request.headers
              ≡ some header)
            × ((decrypt clock.unix header ≡ ok (sealed, payload))
                × (Opens h clock.unix request sealed payload target
                    × ((check_replay h.nonce_store h.clock_skew clock payload s).0 ≡ ok tt))))

      -- What a request without one has passed.
      abbrev pub Tokenless : ConnectHandler S → Request → Text × ℕ → Type 0
      Tokenless h request target =
          (h.token_optional ≡ true)
          × ((has_token request.headers ≡ false) × PolicyAllows request h.host_policy target)

      -- A tunnel is opened only to the host and port of the request's authority. Either the request has
      -- a readable token that parses and opens, the client is authentic, the token has not expired
      -- and allows the authority, and its replay protection allows one more use; or the proxy is in
      -- token-optional mode, the request has neither of the two token headers, and the host policy
      -- lets the authority through: a token that is refused is never treated as none.
      pub connect_target-ok :
          (h : ConnectHandler S) (clock : Clock) (request : Request) (s : S) (target : Text × ℕ)
          → (connect_target h clock request s).0 ≡ ok target
          → Tokened h clock request s target ⊎ Tokenless h request target
      unfolding connect_target on_validated
      connect_target-ok h clock request s target k =
          elim (Result-cases (validate_connect h clock.unix request)) [
            | inl ((payload, found), e) ↦
                elim (Result-cases (check_replay h.nonce_store h.clock_skew clock payload s).0) [
                  | inr (x, f) ↦ absurd (ground (arith, k, e, f))
                  | inl (_, f) ↦
                      let same : found ≡ target = ground (arith, k, e, f) in
                      let (header, sealed, (token, (opened, opens))) =
                        validate_connect-ok h clock.unix request payload found e in
                      inl (
                        header,
                        sealed,
                        payload,
                        (
                          token,
                          (
                            opened,
                            (
                              subst (λ (x : Text × ℕ). Opens h clock.unix request sealed payload x)
                                  same opens,
                              f,
                            ),
                          ),
                        ),
                      )
                ]
            | inr (x, e) ↦
                elim (Bool-cases
                  (is_auth_required x && (h.token_optional && not (has_token request.headers)))) [
                    | inr f ↦ absurd (ground (arith, k, e, f))
                    | inl f ↦
                        let k' : connect_target_with_policy request h.host_policy ≡ ok target =
                          ground (arith, k, e, f) in
                        inr (
                          ground (arith, f),
                          (
                            ground (arith, f),
                            connect_target_with_policy-ok request h.host_policy target k',
                          ),
                        )
                  ]
          ]
