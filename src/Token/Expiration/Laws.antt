-- ===== src/Token/Expiration/Laws.antt =====
-- When a token counts as valid.
use icebreaker.Common.{ℕ, ◌+◌, ◌-◌, ◌^◌, ◌≤◌, ◌<◌, ◌≡◌, ◌↔◌, none, some, arith}
use icebreaker.Token.Expiration.{ClockSkewConfig, valid, expired, future_dated, check_expiration}

abbrev pub skew : ℕ → ℕ → ClockSkewConfig
skew tolerance max_future = record {
  tolerance_seconds = tolerance;
  max_future_seconds = some max_future;
}

-- With a limit on the future and no sum that passes 64 bits: a token is valid exactly from
-- `max_future` before its expiry to `tolerance` after it, both included; it has expired exactly
-- after that, unless it is also dated too far ahead; and it is future-dated by n seconds exactly
-- if its expiry is past the limit, by n.
pub check_expiration_iff :
    (tolerance max_future expires_at now n : ℕ)
    → now + max_future < 2 ^ 64
    → expires_at + tolerance < 2 ^ 64
    → ((check_expiration (skew tolerance max_future) (some expires_at) now ≡ valid)
        ↔ ((expires_at ≤ now + max_future) × (now ≤ expires_at + tolerance)))
      × ((check_expiration (skew tolerance max_future) (some expires_at) now ≡ expired)
          ↔ ((expires_at ≤ now + max_future) × (expires_at + tolerance < now)))
      × ((check_expiration (skew tolerance max_future) (some expires_at) now ≡ future_dated n)
          ↔ ((now + max_future < expires_at) × (expires_at ≡ now + max_future + n)))
unfolding check_expiration
check_expiration_iff tolerance max_future expires_at now n a b =
    (ground arith, ground arith, ground arith)

-- Without a limit on the future, a token whose expiry and tolerance together pass 64 bits counts
-- as expired although its expiry has not come, at any time past the wrapped sum.
pub check_expiration_wraps :
    (tolerance expires_at now : ℕ)
    → expires_at < 2 ^ 64
    → tolerance < 2 ^ 64
    → 2 ^ 64 ≤ expires_at + tolerance
    → expires_at + tolerance - 2 ^ 64 < now
    → now < expires_at
    → check_expiration
        (record { tolerance_seconds = tolerance; max_future_seconds = none })
        (some expires_at)
        now
      ≡ expired
unfolding check_expiration
check_expiration_wraps tolerance expires_at now a b c d e = ground arith
