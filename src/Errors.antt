-- ===== src/Errors.antt =====
-- crates/icebreaker-common/src/error.rs
pub mod Status
mod Tests
use icebreaker.Common.{Text, ℕ, ◌≡◌, refl, ◌⊎◌, inl, inr}

pub data TokenizerError : Type 0 where
  crypto_error : Text → TokenizerError
  decryption_error : Text → TokenizerError
  token_expired : TokenizerError
  invalid_payload : Text → TokenizerError
  host_not_allowed : (host : Text) → TokenizerError
  method_not_allowed : (method : Text) → TokenizerError
  path_not_allowed : (path : Text) → TokenizerError
  blocked_address : (ip reason : Text) → TokenizerError
  proxy_auth_required : (reason : Text) → TokenizerError
  secret_leak_detected : TokenizerError
  http_error : Text → TokenizerError
  upstream_error : (status : ℕ) (message : Text) → TokenizerError
  rate_limit_exceeded : TokenizerError
  timeout : TokenizerError
  oauth_refresh_error : Text → TokenizerError
  signing_error : Text → TokenizerError
  config_error : Text → TokenizerError
  audit_error : Text → TokenizerError
  token_replay_detected : (uses_count max_uses : ℕ) → TokenizerError
  nonce_store_error : Text → TokenizerError
  replay_protection_unavailable : TokenizerError
  replay_protection_requires_expiry : TokenizerError
  unsupported_content_encoding : (encoding : Text) → TokenizerError
  internal_error : Text → TokenizerError

-- What a call of a library returns: a value, or an error with this text.
pub data Outcome (A : Type 0) : Type 0 where
  fine : A → Outcome A
  refused : (message : Text) → Outcome A

-- `Result<T>`
pub data Result {ℓ} (A : Type ℓ) : Type ℓ where
  ok : A → Result A
  err : TokenizerError → Result A

infixl 5 ◌>>=◌ ◌>>◌
abbrev pub ◌>>=◌ {ℓ κ} : {A : Type ℓ} {B : Type κ} → Result A → (A → Result B) → Result B
ok a >>= f = f a
err e >>= f = err e

abbrev pub ◌>>◌ {ℓ κ} : {A : Type ℓ} {B : Type κ} → Result A → Result B → Result B
m >> k = m >>= λ _. k

pub Result-cases {ℓ} :
    {A : Type ℓ} (m : Result A) → ((a : A) × (m ≡ ok a)) ⊎ ((e : TokenizerError) × (m ≡ err e))
Result-cases (ok a) = inl (a, refl)
Result-cases (err e) = inr (e, refl)

pub Outcome-cases :
    {A : Type 0} (o : Outcome A)
    → ((a : A) × (o ≡ fine a)) ⊎ ((message : Text) × (o ≡ refused message))
Outcome-cases (fine a) = inl (a, refl)
Outcome-cases (refused message) = inr (message, refl)
