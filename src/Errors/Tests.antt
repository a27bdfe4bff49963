-- ===== src/Errors/Tests.antt =====
-- The theorems about errors at concrete inputs.
use icebreaker.Common.{codes, ◌≡◌}
use icebreaker.Errors.{upstream_error}
use icebreaker.Errors.Status.{
  client_message, error_response, error_class, redact, error_response-redact,
}

error_response-redact_example :
    (client_message (redact (upstream_error 503 (codes "down")))
      ≡ client_message (upstream_error 503 (codes "down")))
    × (error_response (redact (upstream_error 503 (codes "down")))
        ≡ error_response (upstream_error 503 (codes "down")))
    × (error_class (redact (upstream_error 503 (codes "down")))
        ≡ error_class (upstream_error 503 (codes "down")))
error_response-redact_example = error_response-redact (upstream_error 503 (codes "down"))
