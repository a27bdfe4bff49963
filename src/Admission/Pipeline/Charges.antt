-- ===== src/Admission/Pipeline/Charges.antt =====
-- What a request must have passed before `admit` records a use of its token.
use icebreaker.Common.{Text, ◌≡◌, ◌≢◌, refl, ℕ, Option, some, inl, inr, Option-cases}
use icebreaker.Errors.{Result, ok, Result-cases, ◌>>◌}
use icebreaker.Nonce.{NonceStore}
use icebreaker.Token.Payload.{TokenPayload, SealedToken, ReplayProtection}
use icebreaker.Token.Expiration.{ClockSkewConfig}
use icebreaker.Token.Regex.{RegexCrate}
use icebreaker.Admission.{
  Clock, ErrorDisplay, ttl_from_expiry, on_check, check_with_ttl, check_store, check_replay,
}
use icebreaker.Http.{visible, opaque, get}
use icebreaker.Http.Request.{Request}
use icebreaker.Admission.Pipeline.{
  token_header, Backend, TokenAdmission, decrypt, validate_request, finalize, admit_payload,
  admit_decrypted, admit_header, admit,
}
use icebreaker.Admission.Pipeline.Laws.{Fits, validate_request_iff, decrypt_iff}

module _ ⦃d : ErrorDisplay⦄ {S : Type 0} where
  -- The store is asked for one use of the payload's nonce until the derived deadline; `checked` is
  -- what its answer means, and `s'` the store that it leaves.
  abbrev pub Recorded :
      Option (NonceStore S)
      → ClockSkewConfig
      → Clock
      → TokenPayload
      → S
      → Result (Unit {0})
      → S
      → Type 0
  Recorded nonce_store clock_skew clock payload s checked s' =
      (store : NonceStore S) × (replay : ReplayProtection) × (expires_at ttl : ℕ) × ((nonce_store
          ≡ some store)
        × ((payload.replay_protection ≡ some replay)
            × ((payload.expires_at ≡ some expires_at)
                × ((ttl_from_expiry replay.nonce_ttl_seconds expires_at clock_skew clock.unix
                      ≡ ok ttl)
                    × ((checked
                          ≡ on_check
                              (store.check_and_record clock.instant replay.nonce replay.max_uses ttl
                                s).0)
                        × (s'
                            ≡ (store.check_and_record clock.instant replay.nonce replay.max_uses ttl
                                s).1))))))

  check_replay-Recorded :
      (nonce_store : Option (NonceStore S)) (clock_skew : ClockSkewConfig) (clock : Clock)
      (payload : TokenPayload) (s : S)
      → (check_replay nonce_store clock_skew clock payload s).1 ≢ s
      → Recorded nonce_store clock_skew clock payload s
          (check_replay nonce_store clock_skew clock payload s).0
          (check_replay nonce_store clock_skew clock payload s).1
  unfolding check_replay check_store check_with_ttl
  check_replay-Recorded nonce_store clock_skew clock payload s changed =
      elim (Option-cases payload.replay_protection) [
        | inl e ↦ absurd (changed (rw e refl))
        | inr (replay, e) ↦ elim (Option-cases nonce_store) [
          | inl f ↦ absurd (changed (rw (e, f) refl))
          | inr (store, f) ↦ elim (Option-cases payload.expires_at) [
            | inl g ↦ absurd (changed (rw (e, f, g) refl))
            | inr (expires_at, g) ↦
                elim (Result-cases
                  (ttl_from_expiry replay.nonce_ttl_seconds expires_at clock_skew clock.unix)) [
                    | inr (x, t) ↦ absurd (changed (rw (e, f, g, t) refl))
                    | inl (ttl, t) ↦ (
                      store,
                      replay,
                      expires_at,
                      ttl,
                      (f, (e, (g, (t, (rw (e, f, g, t) refl, rw (e, f, g, t) refl))))),
                    )
                  ]
          ]
        ]
      ]

module _ ⦃r : RegexCrate⦄ ⦃b : Backend⦄ ⦃d : ErrorDisplay⦄ {S : Type 0} where
  -- The outcome of a request that fits its token is that of the replay check and the last step.
  abbrev pub Charged :
      TokenAdmission S
      → Clock
      → Request
      → SealedToken
      → TokenPayload
      → S
      → Result Request
      → S
      → Type 0
  Charged a clock request sealed payload s result s' =
      Fits payload sealed request
      × ((checked : Result (Unit {0})) × ((result ≡ (checked >> finalize a request payload))
            × Recorded a.nonce_store a.clock_skew clock payload s checked s'))

  admit_payload-Charged :
      (a : TokenAdmission S) (clock : Clock) (request : Request) (sealed : SealedToken)
      (payload : TokenPayload) (s : S)
      → (admit_payload a clock request sealed payload s).1 ≢ s
      → Charged a clock request sealed payload s
          (admit_payload a clock request sealed payload s).0
          (admit_payload a clock request sealed payload s).1
  unfolding admit_payload
  admit_payload-Charged a clock request sealed payload s changed =
      elim (Result-cases (validate_request payload sealed request)) [
        | inr (x, e) ↦ absurd (changed (rw (admit_payload, e) refl))
        | inl (u, e) ↦ (
          (validate_request_iff payload sealed request).0 e,
          (
            (check_replay a.nonce_store a.clock_skew clock payload s).0,
            (
              rw (admit_payload, e) refl,
              rw (admit_payload, e)
                  (check_replay-Recorded a.nonce_store a.clock_skew clock payload s
                    (λ same. changed (rw (admit_payload, e) same))),
            ),
          ),
        )
      ]

  admit_visible-Charged :
      (a : TokenAdmission S) (clock : Clock) (request : Request) (header : Text) (s : S)
      → (admit_header a clock request (some (visible header)) s).1 ≢ s
      → (sealed : SealedToken) × (payload : TokenPayload) × ((decrypt clock.unix header
            ≡ ok (sealed, payload))
          × Charged a clock request sealed payload s
              (admit_header a clock request (some (visible header)) s).0
              (admit_header a clock request (some (visible header)) s).1)
  unfolding admit_header admit_decrypted
  admit_visible-Charged a clock request header s changed =
      elim (Result-cases (decrypt clock.unix header)) [
        | inr (x, e) ↦ absurd (changed (rw e refl))
        | inl ((sealed, payload), e) ↦ (
          sealed,
          payload,
          (
            e,
            rw e (
                admit_payload-Charged a clock request sealed payload s
                  (λ same. changed (rw e same))),
          ),
        )
      ]

  -- The nonce store changes only for a request with a readable token header whose token parses and
  -- decrypts, whose client is authentic, and whose host, method and path the token allows. The
  -- proxy then has a store, and the token replay protection and an expiry; the new state is what
  -- one use of the token's nonce until the derived deadline leaves, and the request is refused by
  -- the store's answer or goes on to be finalized.
  pub admit_charges :
      (a : TokenAdmission S) (clock : Clock) (request : Request) (s : S)
      → (admit a clock request s).1 ≢ s
      → (header : Text) × (sealed : SealedToken) × (payload : TokenPayload) × ((get token_header
              request.headers
            ≡ some (visible header))
          × ((b.from_header header ≡ ok sealed)
              × ((b.unseal clock.unix sealed ≡ ok payload)
                  × Charged a clock request sealed payload s
                      (admit a clock request s).0
                      (admit a clock request s).1)))
  unfolding admit admit_header
  admit_charges a clock request s changed = elim (Option-cases (get token_header request.headers)) [
    | inl e ↦ absurd (changed (rw e refl))
    | inr (opaque message, e) ↦ absurd (changed (rw e refl))
    | inr (visible header, e) ↦
        let (sealed, payload, (p, charged)) =
          admit_visible-Charged a clock request header s (λ same. changed (rw e same)) in
        let (from, unsealed) = (decrypt_iff clock.unix header sealed payload).0 p in
        (header, sealed, payload, (e, (from, (unsealed, rw e charged))))
  ]
