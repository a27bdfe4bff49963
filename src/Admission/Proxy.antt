-- ===== src/Admission/Proxy.antt =====
-- The admission pipeline over the other parts: token header, sealed box, client authentication,
-- processors and scan patterns.
pub mod Leaks
mod Tests
use icebreaker.Common.{ℕ, Bool, true, false, Option, none, some}
use icebreaker.Errors.{Result, ok, err}
use icebreaker.Http.{HttpCrate}
use icebreaker.Nonce.{NonceStore}
use icebreaker.Token.Config.{fault_text}
use icebreaker.Token.Expiration.{ClockSkewConfig, default_skew}
use icebreaker.Token.Header.{TokenCodec, from_header}
use icebreaker.Token.Regex.{RegexCrate}
use icebreaker.ClientAuth as ClientAuth
use icebreaker.ClientAuth.Credentials.{AuthCrates}
use icebreaker.Crypto.{BoxCrates}
use icebreaker.Crypto.TokenCrypto.{TokenCrypto, api_key_hmac_key}
use icebreaker.Crypto.TokenCrypto as Crypto
use icebreaker.HostPolicy as HostPolicy
use icebreaker.HostPolicy.{HostValidationConfig}
use icebreaker.Processors.Sigv4.{SigningCrates}
use icebreaker.Processors.Dispatch as Dispatch
use icebreaker.ResponseScan.Patterns as Patterns
use icebreaker.ResponseScan.Patterns.{EncodingCrates}
use icebreaker.Admission.Pipeline.{Backend, TokenAdmission}

-- `ok()`
abbrev ok_part : {A : Type 0} → Result A → Option A
ok_part (ok a) = some a
ok_part (err e) = none

module _ ⦃h : HttpCrate⦄ ⦃a : AuthCrates⦄ ⦃s : SigningCrates⦄ ⦃r : RegexCrate⦄ ⦃t : TokenCodec⦄
    ⦃e : EncodingCrates⦄ {K : Type 0} ⦃c : BoxCrates K⦄ where
  -- The parts that admission calls, with the keys of the proxy. The processors read the clock at
  -- `now`.
  unfoldable pub proxy_backend : TokenCrypto K → ℕ → Backend
  unfolding from_header api_key_hmac_key
  proxy_backend crypto now = record {
    from_header = λ header. from_header header;
    unseal = λ unix sealed. Crypto.unseal crypto unix sealed;
    api_key_hmac_key = λ key_id. ok_part (api_key_hmac_key crypto key_id);
    validate_auth =
        λ auth request key. ClientAuth.validate_auth auth request.headers request.tls_info key;
    process = λ config request payload.
        Dispatch.process (Dispatch.create_processor config) now request payload;
    generate_scan_patterns = λ secret. Patterns.generate_scan_patterns secret;
    fault_text = λ fault. fault_text fault;
  }

module _ ⦃r : RegexCrate⦄ {S : Type 0} where
  unfoldable pub new : TokenAdmission S
  unfolding HostPolicy.new
  new = record {
    response_scan_enabled = true;
    nonce_store = none;
    clock_skew = default_skew;
    token_optional = false;
    host_policy = HostPolicy.new;
  }

  unfoldable pub with_response_scan : TokenAdmission S → Bool → TokenAdmission S
  with_response_scan a enabled = record a { response_scan_enabled = enabled }

  unfoldable pub with_nonce_store : TokenAdmission S → NonceStore S → TokenAdmission S
  with_nonce_store a nonce_store = record a { nonce_store = some nonce_store }

  unfoldable pub with_clock_skew : TokenAdmission S → ClockSkewConfig → TokenAdmission S
  with_clock_skew a clock_skew = record a { clock_skew = clock_skew }

  unfoldable pub with_token_optional :
      TokenAdmission S → Bool → HostValidationConfig → TokenAdmission S
  with_token_optional a token_optional host_policy = record a {
    token_optional = token_optional;
    host_policy = host_policy;
  }
