-- ===== src/Errors/Status.antt =====
-- What crates/icebreaker-common/src/error.rs tells of an error: the message for the client, the HTTP
-- status, the class, and whether it is retryable, the client's fault, or a matter of security; with
-- the status of an error response to CONNECT (crates/icebreaker-proxy/src/tunnel/connect_handler.rs).
use icebreaker.Common.{Text, codes, ℕ, Bool, true, false, ◌||◌, ◌≤◌, ◌<◌, ◌≡◌, refl, leb, arith, []}
use icebreaker.Errors.{
  TokenizerError, crypto_error, decryption_error, token_expired, invalid_payload, host_not_allowed,
  method_not_allowed, path_not_allowed, blocked_address, proxy_auth_required, secret_leak_detected,
  http_error, upstream_error, rate_limit_exceeded, timeout, oauth_refresh_error, signing_error,
  config_error, audit_error, token_replay_detected, nonce_store_error,
  replay_protection_unavailable, replay_protection_requires_expiry, unsupported_content_encoding,
  internal_error,
}

unfoldable pub client_message : TokenizerError → Text
client_message (crypto_error detail) = codes "cryptographic operation failed"
client_message (decryption_error detail) = codes "token decryption failed"
client_message token_expired = codes "token expired"
client_message (invalid_payload detail) = codes "invalid token"
client_message (host_not_allowed host) = codes "destination not allowed"
client_message (method_not_allowed method) = codes "request not allowed"
client_message (path_not_allowed path) = codes "request not allowed"
client_message (blocked_address ip reason) = codes "destination not allowed"
client_message (proxy_auth_required reason) = codes "proxy authentication required"
client_message secret_leak_detected = codes "request blocked"
client_message (http_error detail) = codes "request failed"
client_message (upstream_error status message) = codes "upstream error"
client_message rate_limit_exceeded = codes "rate limit exceeded"
client_message timeout = codes "request timeout"
client_message (oauth_refresh_error detail) = codes "authentication failed"
client_message (signing_error detail) = codes "request signing failed"
client_message (config_error detail) = codes "configuration error"
client_message (audit_error detail) = codes "audit error"
client_message (token_replay_detected uses_count max_uses) = codes "token already used"
client_message (nonce_store_error detail) = codes "internal error"
client_message replay_protection_unavailable = codes "token rejected"
client_message replay_protection_requires_expiry = codes "token rejected"
client_message (unsupported_content_encoding encoding) = codes "unsupported response encoding"
client_message (internal_error detail) = codes "internal error"

unfoldable pub error_class : TokenizerError → Text
error_class (crypto_error detail) = codes "crypto"
error_class (decryption_error detail) = codes "decryption_failed"
error_class token_expired = codes "token_expired"
error_class (invalid_payload detail) = codes "invalid_token"
error_class (host_not_allowed host) = codes "host_not_allowed"
error_class (method_not_allowed method) = codes "method_not_allowed"
error_class (path_not_allowed path) = codes "path_not_allowed"
error_class (blocked_address ip reason) = codes "blocked_address"
error_class (proxy_auth_required reason) = codes "proxy_auth"
error_class secret_leak_detected = codes "leak_blocked"
error_class (http_error detail) = codes "upstream"
error_class (upstream_error status message) = codes "upstream"
error_class rate_limit_exceeded = codes "rate_limited"
error_class timeout = codes "timeout"
error_class (oauth_refresh_error detail) = codes "oauth"
error_class (signing_error detail) = codes "signing"
error_class (config_error detail) = codes "config"
error_class (audit_error detail) = codes "audit"
error_class (token_replay_detected uses_count max_uses) = codes "replay_detected"
error_class (nonce_store_error detail) = codes "nonce_store"
error_class replay_protection_unavailable = codes "replay_unavailable"
error_class replay_protection_requires_expiry = codes "replay_requires_expiry"
error_class (unsupported_content_encoding encoding) = codes "unsupported_encoding"
error_class (internal_error detail) = codes "internal"

unfoldable pub status_code : TokenizerError → ℕ
status_code (crypto_error detail) = 500
status_code (decryption_error detail) = 401
status_code token_expired = 401
status_code (invalid_payload detail) = 400
status_code (host_not_allowed host) = 403
status_code (method_not_allowed method) = 403
status_code (path_not_allowed path) = 403
status_code (blocked_address ip reason) = 403
status_code (proxy_auth_required reason) = 407
status_code secret_leak_detected = 403
status_code (http_error detail) = 502
status_code (upstream_error status message) = status
status_code rate_limit_exceeded = 429
status_code timeout = 504
status_code (oauth_refresh_error detail) = 500
status_code (signing_error detail) = 500
status_code (config_error detail) = 500
status_code (audit_error detail) = 500
status_code (token_replay_detected uses_count max_uses) = 401
status_code (nonce_store_error detail) = 500
status_code replay_protection_unavailable = 401
status_code replay_protection_requires_expiry = 401
status_code (unsupported_content_encoding encoding) = 403
status_code (internal_error detail) = 500

unfoldable pub is_retryable : TokenizerError → Bool
is_retryable timeout = true
is_retryable rate_limit_exceeded = true
is_retryable (upstream_error status message) = leb 500 status
is_retryable _ = false

unfoldable pub is_client_error : TokenizerError → Bool
is_client_error (decryption_error detail) = true
is_client_error token_expired = true
is_client_error (invalid_payload detail) = true
is_client_error (host_not_allowed host) = true
is_client_error (method_not_allowed method) = true
is_client_error (path_not_allowed path) = true
is_client_error (blocked_address ip reason) = true
is_client_error (proxy_auth_required reason) = true
is_client_error (token_replay_detected uses_count max_uses) = true
is_client_error replay_protection_unavailable = true
is_client_error replay_protection_requires_expiry = true
is_client_error _ = false

unfoldable pub is_security_error : TokenizerError → Bool
is_security_error (decryption_error detail) = true
is_security_error (host_not_allowed host) = true
is_security_error (method_not_allowed method) = true
is_security_error (path_not_allowed path) = true
is_security_error (blocked_address ip reason) = true
is_security_error (proxy_auth_required reason) = true
is_security_error secret_leak_detected = true
is_security_error (token_replay_detected uses_count max_uses) = true
is_security_error replay_protection_unavailable = true
is_security_error replay_protection_requires_expiry = true
is_security_error (unsupported_content_encoding encoding) = true
is_security_error _ = false

-- `ConnectHandler::error_response`: the status and the body
unfoldable pub error_response : TokenizerError → ℕ × Text
unfolding client_message
error_response (proxy_auth_required reason) = (407, client_message (proxy_auth_required reason))
error_response token_expired = (403, client_message token_expired)
error_response (host_not_allowed host) = (403, client_message (host_not_allowed host))
error_response (blocked_address ip reason) = (403, client_message (blocked_address ip reason))
error_response timeout = (504, client_message timeout)
error_response e = (502, client_message e)

-- The error with all that it tells of the request, the token and the inner failure taken out.
unfoldable pub redact : TokenizerError → TokenizerError
redact (crypto_error detail) = crypto_error []
redact (decryption_error detail) = decryption_error []
redact token_expired = token_expired
redact (invalid_payload detail) = invalid_payload []
redact (host_not_allowed host) = host_not_allowed []
redact (method_not_allowed method) = method_not_allowed []
redact (path_not_allowed path) = path_not_allowed []
redact (blocked_address ip reason) = blocked_address [] []
redact (proxy_auth_required reason) = proxy_auth_required []
redact secret_leak_detected = secret_leak_detected
redact (http_error detail) = http_error []
redact (upstream_error status message) = upstream_error 0 []
redact rate_limit_exceeded = rate_limit_exceeded
redact timeout = timeout
redact (oauth_refresh_error detail) = oauth_refresh_error []
redact (signing_error detail) = signing_error []
redact (config_error detail) = config_error []
redact (audit_error detail) = audit_error []
redact (token_replay_detected uses_count max_uses) = token_replay_detected 0 0
redact (nonce_store_error detail) = nonce_store_error []
redact replay_protection_unavailable = replay_protection_unavailable
redact replay_protection_requires_expiry = replay_protection_requires_expiry
redact (unsupported_content_encoding encoding) = unsupported_content_encoding []
redact (internal_error detail) = internal_error []

-- What a client is told of an error, as the message or as the response to its CONNECT, and the
-- label of its class, are the same for every error of one kind, whatever its details.
pub error_response-redact :
    (e : TokenizerError)
    → (client_message (redact e) ≡ client_message e)
      × (error_response (redact e) ≡ error_response e)
      × (error_class (redact e) ≡ error_class e)
unfolding client_message error_response error_class redact
error_response-redact (crypto_error detail) = (refl, refl, refl)
error_response-redact (decryption_error detail) = (refl, refl, refl)
error_response-redact token_expired = (refl, refl, refl)
error_response-redact (invalid_payload detail) = (refl, refl, refl)
error_response-redact (host_not_allowed host) = (refl, refl, refl)
error_response-redact (method_not_allowed method) = (refl, refl, refl)
error_response-redact (path_not_allowed path) = (refl, refl, refl)
error_response-redact (blocked_address ip reason) = (refl, refl, refl)
error_response-redact (proxy_auth_required reason) = (refl, refl, refl)
error_response-redact secret_leak_detected = (refl, refl, refl)
error_response-redact (http_error detail) = (refl, refl, refl)
error_response-redact (upstream_error status message) = (refl, refl, refl)
error_response-redact rate_limit_exceeded = (refl, refl, refl)
error_response-redact timeout = (refl, refl, refl)
error_response-redact (oauth_refresh_error detail) = (refl, refl, refl)
error_response-redact (signing_error detail) = (refl, refl, refl)
error_response-redact (config_error detail) = (refl, refl, refl)
error_response-redact (audit_error detail) = (refl, refl, refl)
error_response-redact (token_replay_detected uses_count max_uses) = (refl, refl, refl)
error_response-redact (nonce_store_error detail) = (refl, refl, refl)
error_response-redact replay_protection_unavailable = (refl, refl, refl)
error_response-redact replay_protection_requires_expiry = (refl, refl, refl)
error_response-redact (unsupported_content_encoding encoding) = (refl, refl, refl)
error_response-redact (internal_error detail) = (refl, refl, refl)

-- An error that is the client's fault or a matter of security has a status from 400 to 499, and is
-- not retryable.
pub is_retryable-eq-false :
    (e : TokenizerError)
    → (is_client_error e || is_security_error e) ≡ true
    → (is_retryable e ≡ false) × (400 ≤ status_code e) × (status_code e < 500)
unfolding is_client_error is_security_error is_retryable status_code
is_retryable-eq-false (crypto_error detail) h = ground arith
is_retryable-eq-false (decryption_error detail) h = ground arith
is_retryable-eq-false token_expired h = ground arith
is_retryable-eq-false (invalid_payload detail) h = ground arith
is_retryable-eq-false (host_not_allowed host) h = ground arith
is_retryable-eq-false (method_not_allowed method) h = ground arith
is_retryable-eq-false (path_not_allowed path) h = ground arith
is_retryable-eq-false (blocked_address ip reason) h = ground arith
is_retryable-eq-false (proxy_auth_required reason) h = ground arith
is_retryable-eq-false secret_leak_detected h = ground arith
is_retryable-eq-false (http_error detail) h = ground arith
is_retryable-eq-false (upstream_error status message) h = ground arith
is_retryable-eq-false rate_limit_exceeded h = ground arith
is_retryable-eq-false timeout h = ground arith
is_retryable-eq-false (oauth_refresh_error detail) h = ground arith
is_retryable-eq-false (signing_error detail) h = ground arith
is_retryable-eq-false (config_error detail) h = ground arith
is_retryable-eq-false (audit_error detail) h = ground arith
is_retryable-eq-false (token_replay_detected uses_count max_uses) h = ground arith
is_retryable-eq-false (nonce_store_error detail) h = ground arith
is_retryable-eq-false replay_protection_unavailable h = ground arith
is_retryable-eq-false replay_protection_requires_expiry h = ground arith
is_retryable-eq-false (unsupported_content_encoding encoding) h = ground arith
is_retryable-eq-false (internal_error detail) h = ground arith
