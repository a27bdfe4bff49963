-- ===== src/Processors/Dispatch/Laws.antt =====
-- The processors of a configuration run once each, and the one that changes the body comes last.
use icebreaker.Common.{
  Text, ℕ, ◌≤◌, ◌≡◌, ◌∙◌, refl, ap, true, false, Option, none, some, arith, Bool-cases, inl, inr,
}
use icebreaker.Errors.{TokenizerError, Result, ok, err, Result-cases, Outcome, ◌>>=◌}
use icebreaker.Http.{HttpCrate}
use icebreaker.Http.Request.{Request}
use icebreaker.Token.Config as Config
use icebreaker.Token.Config.{ProcessorConfig}
use icebreaker.Token.Config.Laws.{count_bodies, validate-eq-none_iff}
use icebreaker.Token.Payload.{TokenPayload}
use icebreaker.ClientAuth.Credentials.{AuthCrates}
use icebreaker.Signing.{DigestCrates}
use icebreaker.Processors.Sigv4.{SigningCrates}
use icebreaker.Processors.Dispatch.{
  Processor, ProcessorList, nil, cons, multi, create_processor, create_processors,
  is_body_processor, any_body_processor, process, process_all, process_headers, process_body,
  process_first_body,
}

mutual
  unfolding is_body_processor create_processor Config.is_body_processor

  -- The processor of a configuration changes the body exactly if the configuration says so.
  pub is_body_processor-create_processor :
      (c : ProcessorConfig) → is_body_processor (create_processor c) ≡ Config.is_body_processor c
  is_body_processor-create_processor (Config.inject c) = refl
  is_body_processor-create_processor (Config.inject_hmac c) = refl
  is_body_processor-create_processor (Config.oauth c) = refl
  is_body_processor-create_processor (Config.inject_body placeholder) = refl
  is_body_processor-create_processor (Config.sigv4 access_key) = refl
  is_body_processor-create_processor (Config.multi ps) = any_body_processor-create_processors ps

  any_body_processor-create_processors :
      (ps : Config.Processors)
      → any_body_processor (create_processors ps) ≡ Config.any_body_processor ps
  any_body_processor-create_processors Config.nil = refl
  any_body_processor-create_processors (Config.cons p ps) =
      rw (is_body_processor-create_processor p) (rw (any_body_processor-create_processors ps))

abbrev pub append : ProcessorList → ProcessorList → ProcessorList
append nil qs = qs
append (cons p ps) qs = cons p (append ps qs)

any_body_processor-of_count :
    (ps : Config.Processors) → count_bodies ps ≤ 0 → Config.any_body_processor ps ≡ false
unfolding Config.any_body_processor
any_body_processor-of_count Config.nil le = refl
any_body_processor-of_count (Config.cons p ps) le = elim (Bool-cases (Config.is_body_processor p)) [
  | inl t ↦ absurd (ground (arith, le, t))
  | inr f ↦ rw f (any_body_processor-of_count ps (ground (arith, le, f)))
]

bind_assoc :
    {A B C : Type 0} (m : Result A) (f : A → Result B) (g : B → Result C)
    → (m >>= f) >>= g ≡ m >>= λ a. f a >>= g
bind_assoc (ok a) f g = refl
bind_assoc (err e) f g = refl

module _ ⦃h : HttpCrate⦄ ⦃a : AuthCrates⦄ ⦃s : SigningCrates⦄ where
  process_headers-no_body :
      (ps : ProcessorList) (now : ℕ) (request : Request) (payload : TokenPayload)
      → any_body_processor ps ≡ false
      → process_headers ps now request payload ≡ process_all ps now request payload
  unfolding process_headers process_all any_body_processor
  process_headers-no_body nil now request payload u = refl
  process_headers-no_body (cons p ps) now request payload u =
      let here : is_body_processor p ≡ false = ground arith in
      let rest : any_body_processor ps ≡ false = ground arith in
      rw (process_headers, here)
        (elim (Result-cases (process p now request payload)) [
          | inl (r, e) ↦ rw e (process_headers-no_body ps now r payload rest)
          | inr (x, e) ↦ rw e refl
        ])

  -- What comes before and after the one processor of the list that changes the body.
  abbrev pub Parts : ProcessorList → ProcessorList → Processor → ProcessorList → Type 0
  Parts ps before q after =
      (ps ≡ append before (cons q after))
      × ((any_body_processor before ≡ false)
          × ((is_body_processor q ≡ true) × (any_body_processor after ≡ false)))

  Parts-of_count :
      (ps : Config.Processors)
      → count_bodies ps ≤ 1
      → Config.any_body_processor ps ≡ true
      → (before : ProcessorList) × (q : Processor) × (after : ProcessorList) × Parts
          (create_processors ps)
          before
          q
          after
  unfolding any_body_processor create_processors Config.any_body_processor
  Parts-of_count Config.nil le u = absurd (ground arith)
  Parts-of_count (Config.cons p ps) le u =
      let same = is_body_processor-create_processor p in
      elim (Bool-cases (Config.is_body_processor p)) [
        | inl t ↦
            let none_left : Config.any_body_processor ps ≡ false =
              any_body_processor-of_count ps (ground (arith, le, t)) in
            (
              nil,
              create_processor p,
              create_processors ps,
              (refl, (refl, (same ∙ t, any_body_processor-create_processors ps ∙ none_left))),
            )
        | inr f ↦
            let (before, q, after, (e, (b, (c, d)))) =
              Parts-of_count ps (ground (arith, le, f)) (ground (arith, u, f)) in
            (
              cons (create_processor p) before,
              q,
              after,
              (ap (cons (create_processor p)) e, (ground (arith, same, f, b), (c, d))),
            )
      ]

  process_headers-parts :
      (before : ProcessorList) (q : Processor) (after : ProcessorList) (now : ℕ) (request : Request)
      (payload : TokenPayload)
      → any_body_processor before ≡ false
      → is_body_processor q ≡ true
      → any_body_processor after ≡ false
      → process_headers (append before (cons q after)) now request payload
        ≡ process_all before now request payload >>= λ r. process_all after now r payload
  unfolding process_headers process_all any_body_processor
  process_headers-parts nil q after now request payload b c d =
      rw (process_headers, c) (process_headers-no_body after now request payload d)
  process_headers-parts (cons p before) q after now request payload b c d =
      let here : is_body_processor p ≡ false = ground arith in
      let rest : any_body_processor before ≡ false = ground arith in
      rw (process_headers, here)
        (elim (Result-cases (process p now request payload)) [
          | inl (r, e) ↦ rw e (process_headers-parts before q after now r payload rest c d)
          | inr (x, e) ↦ rw e refl
        ])

  module _ ⦃d : DigestCrates⦄ where
    skip_header :
        (p : Processor) (ps : ProcessorList) (now : ℕ) (request : Request)
        (collected : Outcome Text) (payload : TokenPayload)
        → is_body_processor p ≡ false
        → process_first_body (cons p ps) now request collected payload
          ≡ process_first_body ps now request collected payload
    unfolding process_first_body
    skip_header p ps now request collected payload u = ground (arith, u)

    take_body :
        (p : Processor) (ps : ProcessorList) (now : ℕ) (request : Request)
        (collected : Outcome Text) (payload : TokenPayload)
        → is_body_processor p ≡ true
        → process_first_body (cons p ps) now request collected payload
          ≡ process_body p now request collected payload
    unfolding process_first_body
    take_body p ps now request collected payload u = ground (arith, u)

    process_first_body-parts :
        (before : ProcessorList) (q : Processor) (after : ProcessorList) (now : ℕ)
        (request : Request) (collected : Outcome Text) (payload : TokenPayload)
        → any_body_processor before ≡ false
        → is_body_processor q ≡ true
        → process_first_body (append before (cons q after)) now request collected payload
          ≡ process_body q now request collected payload
    unfolding process_first_body any_body_processor
    process_first_body-parts nil q after now request collected payload b c =
        take_body q after now request collected payload c
    process_first_body-parts (cons p before) q after now request collected payload b c =
        let here : is_body_processor p ≡ false = ground arith in
        let rest : any_body_processor before ≡ false = ground arith in
        skip_header p (append before (cons q after)) now request collected payload here
        ∙ process_first_body-parts before q after now request collected payload rest c

    -- The body phase of one processor, after the header phase of others.
    abbrev pub then_body :
        Processor
        → ℕ
        → Outcome Text
        → TokenPayload
        → Result Request
        → Option (Result (Request × Text))
    then_body q now collected payload (err e) = some (err e)
    then_body q now collected payload (ok request) = process_body q now request collected payload

    process_body-multi_ok :
        (ps : ProcessorList) (now : ℕ) (request r : Request) (collected : Outcome Text)
        (payload : TokenPayload)
        → process_headers ps now request payload ≡ ok r
        → process_body (multi ps) now request collected payload
          ≡ process_first_body ps now r collected payload
    unfolding process_body
    process_body-multi_ok ps now request r collected payload e = ground (arith, e)

    process_body-multi_err :
        (ps : ProcessorList) (now : ℕ) (request : Request) (collected : Outcome Text)
        (payload : TokenPayload) (x : TokenizerError)
        → process_headers ps now request payload ≡ err x
        → process_body (multi ps) now request collected payload ≡ some (err x)
    unfolding process_body
    process_body-multi_err ps now request collected payload x e = ground (arith, e)

    process_body-parts :
        (before : ProcessorList) (q : Processor) (after : ProcessorList) (now : ℕ)
        (request : Request) (collected : Outcome Text) (payload : TokenPayload)
        → any_body_processor before ≡ false
        → is_body_processor q ≡ true
        → any_body_processor after ≡ false
        → process_body (multi (append before (cons q after))) now request collected payload
          ≡ then_body q now collected payload
              (process_all before now request payload >>= λ r. process_all after now r payload)
    unfolding process_body
    process_body-parts before q after now request collected payload b c d' =
        let ps = append before (cons q after) in
        let headers = process_headers-parts before q after now request payload b c d' in
        elim (Result-cases
          (process_all before now request payload >>= λ r. process_all after now r payload)) [
            | inl (r, f) ↦ rw f (
                process_body-multi_ok ps now request r collected payload (headers ∙ f)
                ∙ process_first_body-parts before q after now r collected payload b c)
            | inr (x, f) ↦
                rw f (process_body-multi_err ps now request collected payload x (headers ∙ f))
          ]

    -- In a multi-processor configuration that is accepted and has a processor of the body, all
    -- other processors run in their order, each once and none of them on the body, and then the
    -- one that changes the body; the first error ends the run.
    pub process_body-multi :
        (ps : Config.Processors) (now : ℕ) (request : Request) (collected : Outcome Text)
        (payload : TokenPayload)
        → Config.validate ps ≡ none
        → Config.any_body_processor ps ≡ true
        → (before : ProcessorList) × (q : Processor) × (after : ProcessorList) × (Parts
              (create_processors ps)
              before
              q
              after
            × (process_body (create_processor (Config.multi ps)) now request collected payload
                ≡ then_body q now collected payload (
                    process_all before now request payload >>= λ r.
                    process_all after now r payload)))
    unfolding process_body create_processor
    process_body-multi ps now request collected payload v u =
        let (_, _, le) = (validate-eq-none_iff ps).0 v in
        let (before, q, after, (e, (b, (c, d')))) = Parts-of_count ps le u in
        let run = λ (l : ProcessorList). process_body (multi l) now request collected payload in
        (
          before,
          q,
          after,
          (
            (e, (b, (c, d'))),
            ap run e ∙ process_body-parts before q after now request collected payload b c d',
          ),
        )
