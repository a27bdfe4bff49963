-- ===== src/RateLimit.antt =====
-- crates/icebreaker-proxy/src/middleware/rate_limit.rs: the GCRA limiter. Times and durations are
-- numbers of nanoseconds, an `Instant` counted from the earliest one that the platform can
-- represent; `Instant + Duration` is taken not to pass the latest. The mutex makes each method one
-- step on the map.
pub mod Trace
pub mod Bound
pub mod Limits
mod Tests
use icebreaker.Common.{
  Text, Map, insert, remove, empty, ℕ, ◌+◌, ◌-◌, ◌*◌, ◌/◌, ◌^◌, min, Bool, true, false, Option,
  none, some, ltb, leb, ◌==◌, if◌then◌else◌,
}

-- `RateLimitConfig` of crates/icebreaker-common/src/config.rs
pub record RateLimitConfig : Type 0 where
  pub max_requests : ℕ
  pub period : ℕ
  pub burst : ℕ

-- `Duration::MAX`
abbrev pub duration_max : ℕ
duration_max = (2 ^ 64 - 1) * 1_000_000_000 + 999_999_999

abbrev pub checked_div : ℕ → ℕ → Option ℕ
checked_div d n = if n == 0 then none else some (d / n)

abbrev pub saturating_mul : ℕ → ℕ → ℕ
saturating_mul d n = min (d * n) duration_max

abbrev pub checked_sub : ℕ → ℕ → Option ℕ
checked_sub t d = if leb d t then some (t - d) else none

abbrev pub unwrap_or : Option ℕ → ℕ → ℕ
unwrap_or none d = d
unwrap_or (some n) d = n

unfoldable pub emission_interval : RateLimitConfig → ℕ
emission_interval c = unwrap_or (checked_div c.period c.max_requests) 0

unfoldable pub burst_tolerance : RateLimitConfig → ℕ
burst_tolerance c = saturating_mul (emission_interval c) c.burst

pub record GcraState : Type 0 where
  pub tat : ℕ

abbrev pub State : Type 0
State = Map GcraState

unfoldable pub new_tat : RateLimitConfig → ℕ → GcraState → ℕ
new_tat c now entry =
    if ltb entry.tat now then now + emission_interval c else entry.tat + emission_interval c

unfoldable pub allow_at : RateLimitConfig → ℕ → ℕ → ℕ
allow_at c now tat = unwrap_or (checked_sub tat (burst_tolerance c)) now

-- The second half of `check`, for a key that has an entry.
unfoldable pub check_entry : RateLimitConfig → ℕ → Text → GcraState → State → Bool × State
check_entry c now key entry state =
    if ltb now (allow_at c now (new_tat c now entry))
    then (false, state)
    else (true, insert key (record { tat = new_tat c now entry }) state)

unfoldable pub check : RateLimitConfig → ℕ → Text → State → Bool × State
unfolding check_entry
check c now key state = elim (state key) [
  | none ↦ (true, insert key (record { tat = now + emission_interval c }) state)
  | some entry ↦ check_entry c now key entry state
]

unfoldable pub clear : Text → State → State
clear key state = remove key state

unfoldable pub clear_all : State → State
clear_all state = empty
