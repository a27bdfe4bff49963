-- ===== src/Processors/InjectBody.antt =====
-- crates/icebreaker-proxy/src/processor/inject_body.rs: the placeholder in a request body. A body
-- that was collected is its bytes, or the text of the error.
pub mod Replace
use icebreaker.Common.{
  Text, codes, strip_prefix, length, is_empty, decimal, ℕ, zero, suc, ◌+◌, Bool, true, ◌||◌, Option,
  none, some, [], ◌∷◌, ◌++◌, if◌then◌else◌,
}
use icebreaker.Errors.{Result, ok, err, Outcome, fine, refused, ◌>>=◌, http_error}
use icebreaker.Http.{HttpCrate, insert_header}
use icebreaker.Http.Request.{Request}
use icebreaker.Processors.Header.{or_config_error}
use icebreaker.Body.Pattern.{contains_pattern}

unfoldable pub contains_bytes : Text → Text → Bool
contains_bytes haystack needle = if is_empty needle then true else contains_pattern haystack needle

-- The loop over the rest of the body, with the bytes that it has put out; `none` means that the
-- fuel has run out.
unfoldable pub replace_loop : ℕ → Text → Text → Text → Text → Option Text
replace_loop fuel placeholder replacement [] result = some result
replace_loop zero placeholder replacement (c ∷ s) result = none
replace_loop (suc fuel) placeholder replacement (c ∷ s) result =
    elim (strip_prefix placeholder (c ∷ s)) [
      | some rest ↦ replace_loop fuel placeholder replacement rest (result ++ replacement)
      | none ↦ replace_loop fuel placeholder replacement s (result ++ (c ∷ []))
    ]

-- One round takes at least one byte, if the placeholder is not empty.
unfoldable pub replace_placeholder : Text → Text → Text → Option Text
unfolding contains_bytes replace_loop
replace_placeholder placeholder body secret =
    if contains_bytes body placeholder
    then replace_loop (length body) placeholder secret body []
    else some body

module _ ⦃h : HttpCrate⦄ where
  -- The request with its new body and `Content-Length`.
  unfoldable pub with_body : Request → Text → Result (Request × Text)
  with_body request new_body = do
    value ←
        or_config_error (codes "invalid content-length: ")
          (h.parse_value (decimal (length new_body)))
    ok (
      record request { headers = insert_header (codes "content-length") value request.headers },
      new_body,
    )

  -- `none` if the replacement does not come to an end.
  unfoldable pub inject_body :
      Text → Request → Outcome Text → Text → Option (Result (Request × Text))
  unfolding replace_placeholder with_body
  inject_body placeholder request (refused message) secret =
      some (err (http_error (codes "failed to read request body: " ++ message)))
  inject_body placeholder request (fine body) secret =
      elim (replace_placeholder placeholder body secret) [
        | none ↦ none
        | some new_body ↦ some (with_body request new_body)
      ]
