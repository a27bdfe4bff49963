-- ===== src/Token/Expiration.antt =====
-- `check_expiration` of crates/icebreaker-common/src/token.rs, with `ClockSkewConfig` of config.rs.
-- Seconds are 64-bit words; sums and differences wrap, as in a build without overflow checks.
pub mod Laws
use icebreaker.Common.{
  ℕ, ◌+◌, ◌-◌, ◌%◌, ◌^◌, Option, none, some, Bool, true, false, ltb, if◌then◌else◌,
}

pub record ClockSkewConfig : Type 0 where
  pub tolerance_seconds : ℕ
  pub max_future_seconds : Option ℕ

-- `ClockSkewConfig::default`
abbrev pub default_skew : ClockSkewConfig
default_skew = record { tolerance_seconds = 30; max_future_seconds = some 300 }

pub data ExpirationStatus : Type 0 where
  valid expired no_expiration : ExpirationStatus
  future_dated : (seconds_ahead : ℕ) → ExpirationStatus

unfoldable pub is_valid : ExpirationStatus → Bool
is_valid valid = true
is_valid no_expiration = true
is_valid expired = false
is_valid (future_dated seconds_ahead) = false

abbrev pub add64 : ℕ → ℕ → ℕ
add64 a b = (a + b) % 2 ^ 64

abbrev pub sub64 : ℕ → ℕ → ℕ
sub64 a b = (a + 2 ^ 64 - b) % 2 ^ 64

-- `expires_at > now + max_future`
abbrev too_far : Option ℕ → ℕ → ℕ → Option ℕ
too_far none expires_at now = none
too_far (some max_future) expires_at now =
    if ltb (add64 now max_future) expires_at
    then some (sub64 (sub64 expires_at now) max_future)
    else none

-- The second part, for a token that is not dated too far ahead.
abbrev check_expired : ClockSkewConfig → ℕ → ℕ → ExpirationStatus
check_expired skew expires_at now =
    if ltb (add64 expires_at skew.tolerance_seconds) now then expired else valid

unfoldable pub check_expiration : ClockSkewConfig → Option ℕ → ℕ → ExpirationStatus
check_expiration skew none now = no_expiration
check_expiration skew (some expires_at) now =
    elim (too_far skew.max_future_seconds expires_at now) [
      | some seconds_ahead ↦ future_dated seconds_ahead
      | none ↦ check_expired skew expires_at now
    ]
