-- ===== src/Processors/Dispatch.antt =====
-- crates/icebreaker-proxy/src/processor/mod.rs: the processor of a configuration and its two
-- phases. The clock readings of one call are taken as one, `now`. A body is collected once: its
-- bytes or the text of the error.
pub mod Laws
use icebreaker.Common.{Text, codes, ℕ, Bool, true, false, ◌||◌, Option, none, some}
use icebreaker.Errors.{Result, ok, err, Outcome, ◌>>=◌}
use icebreaker.Http.{HttpCrate}
use icebreaker.Http.Request.{Request}
use icebreaker.Token.Config as Config
use icebreaker.Token.Config.{InjectConfig, HmacConfig, ProcessorConfig}
use icebreaker.Token.Payload.{TokenPayload}
use icebreaker.ClientAuth.Credentials.{AuthCrates}
use icebreaker.Signing.{DigestCrates}
use icebreaker.Processors.Header.{or_http_error}
use icebreaker.Processors.Inject.{process_inject}
use icebreaker.Processors.InjectBody as Body
use icebreaker.Processors.OAuth.{OAuthProcessor, process_oauth}
use icebreaker.Processors.OAuth as OAuth
use icebreaker.Processors.Hmac.{process_hmac, process_body_signing}
use icebreaker.Processors.Sigv4.{SigningCrates, process_sigv4}

mutual
  pub data Processor : Type 0 where
    inject : InjectConfig → Processor
    hmac : HmacConfig → Processor
    oauth : OAuthProcessor → Processor
    inject_body : (placeholder : Text) → Processor
    sigv4 : (access_key : Text) → Processor
    multi : ProcessorList → Processor

  pub data ProcessorList : Type 0 where
    nil : ProcessorList
    cons : Processor → ProcessorList → ProcessorList

unfoldable mutual
  pub create_processor : ProcessorConfig → Processor
  create_processor (Config.inject c) = inject c
  create_processor (Config.inject_hmac c) = hmac c
  create_processor (Config.oauth c) = oauth (OAuth.new c)
  create_processor (Config.inject_body placeholder) = inject_body placeholder
  create_processor (Config.sigv4 access_key) = sigv4 access_key
  create_processor (Config.multi ps) = multi (create_processors ps)

  pub create_processors : Config.Processors → ProcessorList
  create_processors Config.nil = nil
  create_processors (Config.cons p ps) = cons (create_processor p) (create_processors ps)

unfoldable mutual
  pub is_body_processor : Processor → Bool
  is_body_processor (inject c) = false
  is_body_processor (hmac c) = c.sign_body
  is_body_processor (oauth p) = false
  is_body_processor (inject_body placeholder) = true
  is_body_processor (sigv4 access_key) = false
  is_body_processor (multi ps) = any_body_processor ps

  pub any_body_processor : ProcessorList → Bool
  any_body_processor nil = false
  any_body_processor (cons p ps) = is_body_processor p || any_body_processor ps

unfoldable mutual
  pub body_config : Processor → Option Text
  body_config (inject_body placeholder) = some placeholder
  body_config (multi ps) = first_body_config ps
  body_config (inject c) = none
  body_config (hmac c) = none
  body_config (oauth p) = none
  body_config (sigv4 access_key) = none

  pub first_body_config : ProcessorList → Option Text
  first_body_config nil = none
  first_body_config (cons p ps) = elim (body_config p) [
    | some c ↦ some c
    | none ↦ first_body_config ps
  ]

module _ ⦃h : HttpCrate⦄ ⦃a : AuthCrates⦄ ⦃s : SigningCrates⦄ where
  abbrev process_unless_body : HmacConfig → ℕ → Request → TokenPayload → Result Request
  process_unless_body c now request payload = elim c.sign_body [
    | true ↦ ok request
    | false ↦ process_hmac c now request payload
  ]

  unfoldable mutual
    pub process : Processor → ℕ → Request → TokenPayload → Result Request
    process (inject c) now request payload = process_inject c request payload
    process (hmac c) now request payload = process_unless_body c now request payload
    process (oauth p) now request payload = process_oauth p now request payload
    process (sigv4 access_key) now request payload = process_sigv4 access_key request payload
    process (inject_body placeholder) now request payload = ok request
    process (multi ps) now request payload = process_all ps now request payload

    -- The loop of `Multi`.
    pub process_all : ProcessorList → ℕ → Request → TokenPayload → Result Request
    process_all nil now request payload = ok request
    process_all (cons p ps) now request payload =
        process p now request payload >>= λ request'. process_all ps now request' payload

  -- The first loop of `process_body` for `Multi`.
  unfoldable pub process_headers : ProcessorList → ℕ → Request → TokenPayload → Result Request
  unfolding process is_body_processor
  process_headers nil now request payload = ok request
  process_headers (cons p ps) now request payload = elim (is_body_processor p) [
    | true ↦ process_headers ps now request payload
    | false ↦ process p now request payload >>= λ request'. process_headers ps now request' payload
  ]

  abbrev pub collect_unchanged : Request → Outcome Text → Result (Request × Text)
  collect_unchanged request collected = do
    body ← or_http_error (codes "failed to collect body: ") collected
    ok (request, body)

  module _ ⦃d : DigestCrates⦄ where
    -- `none` if an injection into the body does not come to an end.
    unfoldable mutual
      pub process_body :
          Processor → ℕ → Request → Outcome Text → TokenPayload → Option (Result (Request × Text))
      process_body (inject_body placeholder) now request collected payload =
          Body.inject_body placeholder request collected payload.secret
      process_body (hmac c) now request collected payload = elim c.sign_body [
        | true ↦ some (process_body_signing c now request collected payload)
        | false ↦ some (collect_unchanged request collected)
      ]
      process_body (multi ps) now request collected payload =
          elim (process_headers ps now request payload) [
            | err e ↦ some (err e)
            | ok request' ↦ process_first_body ps now request' collected payload
          ]
      process_body (inject c) now request collected payload =
          some (collect_unchanged request collected)
      process_body (oauth p) now request collected payload =
          some (collect_unchanged request collected)
      process_body (sigv4 access_key) now request collected payload =
          some (collect_unchanged request collected)

      -- The second loop of `process_body` for `Multi`, and what follows it.
      pub process_first_body :
          ProcessorList
          → ℕ
          → Request
          → Outcome Text
          → TokenPayload
          → Option (Result (Request × Text))
      process_first_body nil now request collected payload =
          some (collect_unchanged request collected)
      process_first_body (cons p ps) now request collected payload = elim (is_body_processor p) [
        | true ↦ process_body p now request collected payload
        | false ↦ process_first_body ps now request collected payload
      ]
