-- ===== src/Processors/Header/Laws.antt =====
-- When setting a header succeeds, and what it changes.
use icebreaker.Common.{Text, ◌≡◌, arith, inl, inr}
use icebreaker.Errors.{Outcome-cases, ok, fine}
use icebreaker.Http.{HttpCrate, HeaderValue, insert_header}
use icebreaker.Http.Request.{Request}
use icebreaker.Processors.Header.{set_header}

-- What a header that was set has to do with the name and the text.
abbrev pub WithHeader :
    ⦃h : HttpCrate⦄ → Text → Text → Request → Request → Text → HeaderValue → Type 0
WithHeader ⦃h⦄ name text request r n v =
    (h.parse_name name ≡ fine n)
    × ((h.parse_value text ≡ fine v)
        × (r ≡ record request { headers = insert_header n v request.headers }))

module _ ⦃h : HttpCrate⦄ (bad_name bad_value name text : Text) (request r : Request) where
  pub set_header-eq-ok :
      set_header bad_name bad_value name text request ≡ ok r
      → (n : Text) × (v : HeaderValue) × WithHeader name text request r n v
  unfolding set_header
  set_header-eq-ok k = elim (Outcome-cases (h.parse_name name)) [
    | inr (m, e) ↦ absurd (ground (arith, k, e))
    | inl (n, e) ↦ elim (Outcome-cases (h.parse_value text)) [
      | inr (m, f) ↦ absurd (ground (arith, k, e, f))
      | inl (v, f) ↦ (n, v, (e, (f, ground (arith, k, e, f))))
    ]
  ]
