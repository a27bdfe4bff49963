-- ===== src/Admission.antt =====
-- Replay protection of crates/icebreaker-proxy/src/admission.rs, which
-- crates/icebreaker-proxy/src/tunnel/connect_handler.rs repeats as `enforce_replay`, over any nonce
-- store. Pipeline is the rest of admission.rs.
pub mod Trace
pub mod Replay
pub mod Pipeline
pub mod Proxy
mod Tests
use icebreaker.Common.{Text, ℕ, ◌-◌, ◌*◌, Option, none, some, ltb, if◌then◌else◌}
use icebreaker.Errors.{
  TokenizerError, Result, ok, err, token_expired, token_replay_detected, nonce_store_error,
  replay_protection_unavailable, replay_protection_requires_expiry,
}
use icebreaker.Nonce.{CheckResult, allowed, denied, NonceStore}
use icebreaker.Token.Payload.{TokenPayload, ReplayProtection}
use icebreaker.Token.Expiration.{ClockSkewConfig, add64}

-- The two clocks at one moment: the instant in nanoseconds, and whole seconds since the epoch.
pub record Clock : Type 0 where
  pub instant : ℕ
  pub unix : ℕ

-- `Display` of the errors, which `thiserror` generates.
pub record ErrorDisplay : Type 0 where
  pub display : TokenizerError → Text

abbrev pub second : ℕ
second = 1_000_000_000

-- The result is a duration in nanoseconds.
unfoldable pub ttl_from_expiry : Option ℕ → ℕ → ClockSkewConfig → ℕ → Result ℕ
ttl_from_expiry (some secs) expires_at clock_skew unix = ok (secs * second)
ttl_from_expiry none expires_at clock_skew unix =
    let effective_expiry = add64 expires_at clock_skew.tolerance_seconds in
    if ltb unix effective_expiry then ok ((effective_expiry - unix) * second) else err token_expired

module _ ⦃d : ErrorDisplay⦄ where
  -- The `match` on the store's answer.
  unfoldable pub on_check : Result CheckResult → Result (Unit {0})
  on_check (ok (denied current_uses max_uses)) = err (token_replay_detected current_uses max_uses)
  on_check (ok (allowed current_uses max_uses)) = ok tt
  on_check (err e) = err (nonce_store_error (d.display e))

  module _ {S : Type 0} where
    -- The call of the store, for a TTL that was derived.
    unfoldable pub check_with_ttl :
        NonceStore S → Clock → ReplayProtection → Result ℕ → S → Result (Unit {0}) × S
    unfolding on_check
    check_with_ttl store clock replay (err e) s = (err e, s)
    check_with_ttl store clock replay (ok ttl) s =
        let (answer, s') =
          store.check_and_record clock.instant replay.nonce replay.max_uses ttl s in
        (on_check answer, s')

    -- The part for a token with replay protection, and a proxy with a store.
    unfoldable pub check_store :
        NonceStore S
        → ClockSkewConfig
        → Clock
        → ReplayProtection
        → Option ℕ
        → S
        → Result (Unit {0}) × S
    unfolding check_with_ttl
    check_store store clock_skew clock replay none s = (err replay_protection_requires_expiry, s)
    check_store store clock_skew clock replay (some expires_at) s =
        let ttl = ttl_from_expiry replay.nonce_ttl_seconds expires_at clock_skew clock.unix in
        check_with_ttl store clock replay ttl s

    -- `check_replay`, and `enforce_replay` of the CONNECT handler
    unfoldable pub check_replay :
        Option (NonceStore S) → ClockSkewConfig → Clock → TokenPayload → S → Result (Unit {0}) × S
    unfolding check_store
    check_replay nonce_store clock_skew clock payload s = elim payload.replay_protection [
      | none ↦ (ok tt, s)
      | some replay ↦ elim nonce_store [
        | none ↦ (err replay_protection_unavailable, s)
        | some store ↦ check_store store clock_skew clock replay payload.expires_at s
      ]
    ]
